-- ===== src/Transfer/Copy.antt =====
-- A copy of internal/mcp/transfer_core.go replaces its target as a whole, and one that stops can go on.
use sshm.Prelude.{
  ℕ, true, [], ◌∷◌, ◌++◌, is_nil, nat_eq, length, ◌≡◌, refl, arith, ap, sym, ◌∙◌, take, drop,
  take-drop, append_assoc, append_nil, suc, zero, Bool-cases, inl, inr,
}
use sshm.Result.{Result, ok, err}
use sshm.Transfer.{
  Bytes, CopyError, Turn, Ending, eof, broken, Reads, last, next, one_turn, ending, and_then,
  copy_loop,
}

-- What a source gives in all.
unfoldable pub delivered : Reads → Bytes
delivered (last t end) = t.chunk
delivered (next t rest) = t.chunk ++ delivered rest

unfoldable pub ends : Reads → Ending
ends (last t end) = end
ends (next t rest) = ends rest

-- The source gives the content from any offset on: a part of it if it breaks, all of it at the end.
abbrev pub IsSourceOf : Bytes → (ℕ → Reads) → Type 0
IsSourceOf content reads =
    (done todo : Bytes)
    → done ++ todo ≡ content
    → (rest : Bytes) × (delivered (reads (length done)) ++ rest ≡ todo)
      × (ends (reads (length done)) ≡ eof → rest ≡ [])

-- What a turn leaves in the partial file is a part of what it was given, and all of it on success.
abbrev pub IsPartOf : Bytes → Bytes → Type 0
IsPartOf part all = (rest : Bytes) × (part ++ rest ≡ all)

one_turn-IsPartOf :
    (t : Turn) (part : Bytes) (copied : ℕ)
    → IsPartOf (one_turn t (part, copied)).0.0 (part ++ t.chunk)
unfolding one_turn
one_turn-IsPartOf t part copied = elim (Bool-cases t.done) [
  | inl e ↦ rw e (t.chunk, refl)
  | inr e ↦ elim (Bool-cases (is_nil t.chunk)) [
    | inl n ↦ rw (e, n) (t.chunk, refl)
    | inr n ↦
        rw (e, n)
          (drop t.written t.chunk, append_assoc part _ _ ∙ rw (take-drop t.written t.chunk) refl)
  ]
]

is_nil-lem : (xs : Bytes) → is_nil xs ≡ true → xs ≡ []
is_nil-lem [] h = refl
is_nil-lem (x ∷ xs) h = cc h

take_all : (n : ℕ) (xs : Bytes) → nat_eq (length xs) (length (take n xs)) ≡ true → take n xs ≡ xs
unfolding take
take_all zero [] h = refl
take_all zero (x ∷ xs) h = ground arith
take_all (suc n) [] h = refl
take_all (suc n) (x ∷ xs) h = ground (arith, take_all n xs)

one_turn-ok :
    (t : Turn) (part : Bytes) (copied : ℕ)
    → (one_turn t (part, copied)).1 ≡ ok tt
    → (one_turn t (part, copied)).0.0 ≡ part ++ t.chunk
unfolding one_turn
one_turn-ok t part copied h =
    ground (arith, take_all t.written t.chunk, is_nil-lem t.chunk, append_nil part)

and_then-ok :
    (x : (Bytes × ℕ) × Result CopyError (Unit {0}))
    (f : Bytes × ℕ → (Bytes × ℕ) × Result CopyError (Unit {0}))
    → (and_then x f).1 ≡ ok tt
    → (x.1 ≡ ok tt) × (and_then x f ≡ f x.0)
and_then-ok (state, err e) f h = cc h
and_then-ok (state, ok _) f h = (refl, refl)

ending-ok : (e : Ending) → ending e ≡ ok tt → e ≡ eof
unfolding ending
ending-ok eof h = refl
ending-ok broken h = cc h

-- A loop that ends well has appended all that the source delivered, up to its end.
pub copy_loop-ok :
    (r : Reads) (part : Bytes) (copied : ℕ)
    → (copy_loop r (part, copied)).1 ≡ ok tt
    → ((copy_loop r (part, copied)).0.0 ≡ part ++ delivered r) × (ends r ≡ eof)
unfolding copy_loop delivered ends
copy_loop-ok (last t end) part copied h =
    let turn = and_then-ok (one_turn t (part, copied)) (λ s. (s, ending end)) h in
    let full = one_turn-ok t part copied turn.0 in
    (ap (λ x. x.0.0) turn.1 ∙ full, ending-ok end (ap (λ x. x.1) (sym turn.1) ∙ h))
copy_loop-ok (next t rest) part copied h =
    let turn = and_then-ok (one_turn t (part, copied)) (λ s. copy_loop rest s) h in
    let full = one_turn-ok t part copied turn.0 in
    let more =
      copy_loop-ok rest (one_turn t (part, copied)).0.0 (one_turn t (part, copied)).0.1
        (ap (λ x. x.1) (sym turn.1) ∙ h) in
    (
      ap (λ x. x.0.0) turn.1
          ∙ more.0
          ∙ ap (λ x. x ++ delivered rest) full
          ∙ append_assoc part t.chunk (delivered rest),
      more.1,
    )

and_then-IsPartOf :
    (x : (Bytes × ℕ) × Result CopyError (Unit {0}))
    (f : Bytes × ℕ → (Bytes × ℕ) × Result CopyError (Unit {0})) (all : Bytes)
    → IsPartOf x.0.0 all
    → (x.1 ≡ ok tt → IsPartOf (f x.0).0.0 all)
    → IsPartOf (and_then x f).0.0 all
and_then-IsPartOf (state, err e) f all a b = a
and_then-IsPartOf (state, ok _) f all a b = b refl

pub longer : (a b c : Bytes) → IsPartOf a b → IsPartOf a (b ++ c)
longer a b c (rest, e) = (rest ++ c, sym (append_assoc a rest c) ∙ ap (λ x. x ++ c) e)

-- However the loop ends, the partial file holds a part of what the source delivered.
pub copy_loop-IsPartOf :
    (r : Reads) (part : Bytes) (copied : ℕ)
    → IsPartOf (copy_loop r (part, copied)).0.0 (part ++ delivered r)
unfolding copy_loop delivered
copy_loop-IsPartOf (last t end) part copied =
    and_then-IsPartOf (one_turn t (part, copied)) (λ s. (s, ending end)) (part ++ t.chunk)
      (one_turn-IsPartOf t part copied) (λ h. one_turn-IsPartOf t part copied)
copy_loop-IsPartOf (next t rest) part copied =
    and_then-IsPartOf (one_turn t (part, copied)) (λ s. copy_loop rest s)
      (part ++ (t.chunk ++ delivered rest))
      (rw (← append_assoc part t.chunk (delivered rest))
        (longer _ (part ++ t.chunk) (delivered rest) (one_turn-IsPartOf t part copied)))
      (λ h.
        rw (← append_assoc part t.chunk (delivered rest), ← one_turn-ok t part copied h)
          (copy_loop-IsPartOf rest (one_turn t (part, copied)).0.0 (one_turn t (part, copied)).0.1))
