-- ===== src/Text/Split.antt =====
-- strings.Join undoes strings.Split.
use sshm.Prelude.{
  ℕ, List, [], ◌∷◌, ◌++◌, ◌≡◌, refl, arith, sym, ap, ◌∙◌, nat_eq, nat_eq_iff, Bool-cases, inl, inr,
  append_assoc, append_nil, is_nil, false,
}
use sshm.Text.{Text, split, split_from, join}

split_from-is_nil : (sep : ℕ) (piece s : Text) → is_nil (split_from sep piece s) ≡ false
unfolding split_from
split_from-is_nil sep piece [] = refl
split_from-is_nil sep piece (c ∷ s) = ground (arith, split_from-is_nil sep (piece ++ (c ∷ [])) s)

join-cons :
    (sep : ℕ) (piece : Text) (rest : List Text)
    → is_nil rest ≡ false
    → join (piece ∷ rest) (sep ∷ []) ≡ piece ++ (sep ∷ join rest (sep ∷ []))
unfolding join
join-cons sep piece [] h = cc h
join-cons sep piece (t ∷ rest) h = refl

join-split_from : (sep : ℕ) (piece s : Text) → join (split_from sep piece s) (sep ∷ []) ≡ piece ++ s
unfolding split_from join
join-split_from sep piece [] = sym (append_nil piece)
join-split_from sep piece (c ∷ s) = elim (Bool-cases (nat_eq c sep)) [
  | inl e ↦ rw e (
      join-cons sep piece (split_from sep [] s) (split_from-is_nil sep [] s)
      ∙ rw (join-split_from sep [] s, (nat_eq_iff c sep).0 e) refl)
  | inr e ↦ rw e (join-split_from sep (piece ++ (c ∷ [])) s ∙ append_assoc piece (c ∷ []) s)
]

pub join-split : (s : Text) (sep : ℕ) → join (split s sep) (sep ∷ []) ≡ s
unfolding split
join-split s sep = join-split_from sep [] s

pub split-injective : (a b : Text) (sep : ℕ) → split a sep ≡ split b sep → a ≡ b
split-injective a b sep h =
    sym (join-split a sep) ∙ ap (λ xs. join xs (sep ∷ [])) h ∙ join-split b sep
