-- ===== src/Map/Keys.antt =====
-- The keys of a map, in the order of a range over it, and their sorting.
use sshm.Prelude.{
  Bool, true, false, ◌||◌, List, [], ◌∷◌, ◌≡◌, refl, arith, if◌then◌else◌, ◌∙◌, any, Option, none,
  some,
}
use sshm.Text.{Text, ◌==◌, text_eq_iff}
use sshm.Text.Order.{text_ltb, text_ltb_asymm}
use sshm.Text.Sort.{insert_sorted, sort_strings}
use sshm.Map.{Map, get, put, keys, is_some}
use sshm.Map.Laws.{Above, IsOrdered, get-Above, get-put, put-IsOrdered}

-- a is in the list.
abbrev pub member : Text → List Text → Bool
member a = any (λ b. b == a)

-- Each text stands once, in the order of `<`.
abbrev pub AllAbove : Text → List Text → Type 0
AllAbove a [] = Unit
AllAbove a (b ∷ bs) = (text_ltb a b ≡ true) × AllAbove a bs

abbrev pub IsAscending : List Text → Type 0
IsAscending [] = Unit
IsAscending (a ∷ as') = AllAbove a as' × IsAscending as'

insert_sorted-AllAbove : (a : Text) (bs : List Text) → AllAbove a bs → insert_sorted a bs ≡ a ∷ bs
unfolding insert_sorted
insert_sorted-AllAbove a [] h = refl
insert_sorted-AllAbove a (b ∷ bs) h = rw (text_ltb_asymm a b h.0)

pub sort_strings-IsAscending : (as' : List Text) → IsAscending as' → sort_strings as' ≡ as'
unfolding sort_strings
sort_strings-IsAscending [] h = refl
sort_strings-IsAscending (a ∷ as') h =
    rw (sort_strings-IsAscending as' h.1) (insert_sorted-AllAbove a as' h.0)

module _ {ℓ} {V : Type ℓ} where
  keys-AllAbove : (k : Text) (m : Map V) → Above k m → AllAbove k (keys m)
  unfolding keys
  keys-AllAbove k [] h = tt
  keys-AllAbove k ((j, v) ∷ m) h = (h.0, keys-AllAbove k m h.1)

  pub keys-IsAscending : (m : Map V) → IsOrdered m → IsAscending (keys m)
  unfolding keys
  keys-IsAscending [] o = tt
  keys-IsAscending ((k, v) ∷ m) o = (keys-AllAbove k m o.0, keys-IsAscending m o.1)

  pub member-keys : (a : Text) (m : Map V) → member a (keys m) ≡ is_some (get a m)
  unfolding keys get
  member-keys a [] = refl
  member-keys a ((k, v) ∷ m) = ground (arith, member-keys a m)

  -- The test at the entry of a key, if there is one.
  abbrev pub holds : (Text → V → Bool) → Text → Option V → Bool
  holds p k none = false
  holds p k (some v) = p k v

  -- for k, v := range m { if p(k, v) { out = append(out, k) } }
  unfoldable pub keys_where : (Text → V → Bool) → Map V → List Text
  keys_where p [] = []
  keys_where p ((k, v) ∷ m) = let rest = keys_where p m in if p k v then k ∷ rest else rest

  -- The loop collects exactly the keys whose entry passes the test.
  pub member-keys_where :
      (p : Text → V → Bool) (a : Text) (m : Map V)
      → IsOrdered m
      → member a (keys_where p m) ≡ holds p a (get a m)
  unfolding keys_where get
  member-keys_where p a [] o = refl
  member-keys_where p a ((k, v) ∷ m) o =
      ground (arith, member-keys_where p a m o.1, text_eq_iff k a, get-Above k m o.0)

member-insert_sorted :
    (a b : Text) (bs : List Text) → member a (insert_sorted b bs) ≡ (b == a || member a bs)
unfolding insert_sorted
member-insert_sorted a b [] = refl
member-insert_sorted a b (c ∷ bs) = ground (arith, member-insert_sorted a b bs)

-- Sorting keeps the members.
pub member-sort_strings : (a : Text) (bs : List Text) → member a (sort_strings bs) ≡ member a bs
unfolding sort_strings
member-sort_strings a [] = refl
member-sort_strings a (b ∷ bs) =
    member-insert_sorted a b (sort_strings bs) ∙ rw (member-sort_strings a bs)

-- A set built from a list: for _, a := range as { m[a] = v }
unfoldable pub set_of {ℓ} : {V : Type ℓ} → V → List Text → Map V
set_of v [] = []
set_of v (a ∷ as') = put a v (set_of v as')

pub set_of-IsOrdered {ℓ} : {V : Type ℓ} (v : V) (as' : List Text) → IsOrdered (set_of v as')
unfolding set_of
set_of-IsOrdered v [] = tt
set_of-IsOrdered v (a ∷ as') = put-IsOrdered a v (set_of v as') (set_of-IsOrdered v as')

pub member-set_of {ℓ} :
    {V : Type ℓ} (v : V) (a : Text) (as' : List Text)
    → is_some (get a (set_of v as')) ≡ member a as'
unfolding set_of get
member-set_of v a [] = refl
member-set_of v a (b ∷ as') = ground (arith, get-put a b v (set_of v as'), member-set_of v a as')
