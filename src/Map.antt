-- ===== src/Map.antt =====
-- Go's `map[string]V` as an association list in the order of its keys, so that two maps with the
-- same entries are equal, as `reflect.DeepEqual` has it. `range` visits the entries in this order.
pub mod Laws
pub mod Keys
use sshm.Prelude.{Bool, true, false, List, [], ◌∷◌, Option, none, some, ◌≡◌, if◌then◌else◌}
use sshm.Text.{Text, ◌==◌}
use sshm.Text.Order.{text_ltb}

abbrev pub Map {ℓ} : Type ℓ → Type ℓ
Map V = List (Text × V)

module _ {ℓ} {V : Type ℓ} where
  -- v, ok := m[k]
  unfoldable pub get : Text → Map V → Option V
  get k [] = none
  get k ((j, v) ∷ m) = if j == k then some v else get k m

  -- m[k] = v
  unfoldable pub put : Text → V → Map V → Map V
  put k v [] = (k, v) ∷ []
  put k v ((j, w) ∷ m) =
      let rest = put k v m in
      if j == k then (k, v) ∷ m else if text_ltb k j then (k, v) ∷ (j, w) ∷ m else (j, w) ∷ rest

  -- delete(m, k)
  unfoldable pub remove : Text → Map V → Map V
  remove k [] = []
  remove k ((j, v) ∷ m) = let rest = remove k m in if j == k then rest else (j, v) ∷ rest

  -- _, ok := m[k]
  abbrev pub is_some : Option V → Bool
  is_some none = false
  is_some (some v) = true

  unfoldable pub keys : Map V → List Text
  keys [] = []
  keys ((k, v) ∷ m) = k ∷ keys m
