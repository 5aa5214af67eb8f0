-- ===== src/Text/Sort.antt =====
-- sort.Strings. Equal strings cannot be told apart, so any sort gives this result.
use sshm.Prelude.{ℕ, List, [], ◌∷◌, ◌≡◌, arith, refl, ◌∙◌, if◌then◌else◌}
use mathlib.Core.List.{map}
use sshm.Text.Order.{text_ltb}

unfoldable pub insert_sorted : List ℕ → List (List ℕ) → List (List ℕ)
insert_sorted a [] = a ∷ []
insert_sorted a (b ∷ bs) =
    let rest = insert_sorted a bs in if text_ltb b a then b ∷ rest else a ∷ b ∷ bs

unfoldable pub sort_strings : List (List ℕ) → List (List ℕ)
unfolding insert_sorted text_ltb
sort_strings [] = []
sort_strings (a ∷ as') = insert_sorted a (sort_strings as')

-- sort.Slice by a key of type string that no two items share.
module _ {ℓ} {A : Type ℓ} (key : A → List ℕ) where
  unfoldable pub insert_by : A → List A → List A
  insert_by a [] = a ∷ []
  insert_by a (b ∷ bs) =
      let rest = insert_by a bs in if text_ltb (key b) (key a) then b ∷ rest else a ∷ b ∷ bs

  unfoldable pub sort_by : List A → List A
  unfolding insert_by
  sort_by [] = []
  sort_by (a ∷ as') = insert_by a (sort_by as')

module _ {ℓ} {A : Type ℓ} (key : A → List ℕ) where
  map-insert_by :
      (a : A) (bs : List A) → map key (insert_by key a bs) ≡ insert_sorted (key a) (map key bs)
  unfolding insert_by insert_sorted
  map-insert_by a [] = refl
  map-insert_by a (b ∷ bs) = ground (arith, map-insert_by a bs)

  -- The keys of the sorted items are the sorted keys.
  pub map-sort_by : (as' : List A) → map key (sort_by key as') ≡ sort_strings (map key as')
  unfolding sort_by sort_strings
  map-sort_by [] = refl
  map-sort_by (a ∷ as') = map-insert_by a (sort_by key as') ∙ rw (map-sort_by as')
