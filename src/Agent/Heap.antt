-- ===== src/Agent/Heap.antt =====
-- The objects behind the session table of internal/cloudagent/agent.go, and the sizes of its maps.
use sshm.Prelude.{
  ℕ, zero, suc, ◌≤◌, ℤ, Bool, true, false, List, [], ◌∷◌, ◌++◌, Option, none, some, ◌≡◌, refl,
  arith, ap, length,
}
use sshm.Text.{Text}
use sshm.Map.{Map, put, remove}
use sshm.Agent.{Session, object, change_object, forget}

module _ {V : Type 0} where
  pub length-put : (k : Text) (v : V) (m : Map V) → length (put k v m) ≤ suc (length m)
  unfolding put
  length-put k v [] = omega arith
  length-put k v ((j, w) ∷ m) = ground (arith, length-put k v m)

  pub length-remove : (k : Text) (m : Map V) → length (remove k m) ≤ length m
  unfolding remove
  length-remove k [] = omega arith
  length-remove k ((j, w) ∷ m) = ground (arith, length-remove k m)

pub length-forget : (now : ℤ) (seen : Map ℤ) → length (forget now seen) ≤ length seen
unfolding forget
length-forget now [] = omega arith
length-forget now ((id, e) ∷ seen) = ground (arith, length-forget now seen)

abbrev pub has_started : Option Session → Bool
has_started none = false
has_started (some x) = x.started

-- A change that undoes no start.
abbrev pub Keeps : (Session → Session) → Type 0
Keeps f = (x : Session) → x.started ≡ true → (f x).started ≡ true

pub started-change :
    (h j : ℕ) (f : Session → Session) (heap : List Session)
    → Keeps f
    → has_started (object h heap) ≡ true
    → has_started (object h (change_object j f heap)) ≡ true
unfolding object change_object
started-change h j f [] k s = cc s
started-change zero zero f (x ∷ heap) k s = k x s
started-change zero (suc j) f (x ∷ heap) k s = s
started-change (suc h) zero f (x ∷ heap) k s = s
started-change (suc h) (suc j) f (x ∷ heap) k s = started-change h j f heap k s

pub started-append :
    (h : ℕ) (heap new : List Session)
    → has_started (object h heap) ≡ true
    → has_started (object h (heap ++ new)) ≡ true
unfolding object
started-append h [] new s = cc s
started-append zero (x ∷ heap) new s = s
started-append (suc h) (x ∷ heap) new s = started-append h heap new s

pub start_lem :
    (h : ℕ) (x : Session) (heap : List Session)
    → object h heap ≡ some x
    → has_started (object h (change_object h (λ y. record y { started = true }) heap)) ≡ true
unfolding object change_object
start_lem h x [] e = cc e
start_lem zero x (y ∷ heap) e = refl
start_lem (suc h) x (y ∷ heap) e = start_lem h x heap e

pub object-change :
    (h : ℕ) (f : Session → Session) (x : Session) (heap : List Session)
    → object h heap ≡ some x
    → object h (change_object h f heap) ≡ some (f x)
unfolding object change_object
object-change h f x [] e = cc e
object-change zero f x (y ∷ heap) e = ap (λ o. changed o) e
  where
    changed : Option Session → Option Session
    changed none = none
    changed (some z) = some (f z)
object-change (suc h) f x (y ∷ heap) e = object-change h f x heap e
