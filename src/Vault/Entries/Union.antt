-- ===== src/Vault/Entries/Union.antt =====
-- The union of aliases and of credentials is that of sets: sorted, each text once, and in the order
-- of neither side.
use sshm.Prelude.{
  Bool, true, ◌||◌, List, [], ◌∷◌, ◌++◌, Option, none, some, ◌≡◌, refl, sym, ◌∙◌, ap, arith,
  if◌then◌else◌, elements,
}
use sshm.Text.{Text}
use sshm.Text.Sort.{sort_strings}
use sshm.Map.{Map, get, keys}
use sshm.Map.Laws.{ext, get-put}
use sshm.Map.Keys.{
  member, set_of, set_of-IsOrdered, member-set_of, member-keys, member-sort_strings, IsAscending,
  keys-IsAscending, sort_strings-IsAscending,
}
use sshm.Vault.Entries.{union}

get-set_of :
    (a : Text) (l : List Text) → get a (set_of true l) ≡ (if member a l then some true else none)
unfolding set_of get
get-set_of a [] = refl
get-set_of a (b ∷ l) = ground (arith, get-put a b true (set_of true l), get-set_of a l)

-- Lists with the same members give the same set.
set_of-eq :
    (l m : List Text) → ((a : Text) → member a l ≡ member a m) → set_of true l ≡ set_of true m
set_of-eq l m h =
    ext (set_of true l) (set_of true m) (set_of-IsOrdered true l) (set_of-IsOrdered true m) λ a.
      get-set_of a l ∙ ap (λ (b : Bool). if b then some true else none) (h a) ∙ sym (get-set_of a m)

member-append : (a : Text) (xs ys : List Text) → member a (xs ++ ys) ≡ (member a xs || member a ys)
member-append a [] ys = refl
member-append a (x ∷ xs) ys = ground (arith, member-append a xs ys)

pub member-union :
    (a : Text) (x y : Option (List Text))
    → member a (elements (union x y)) ≡ (member a (elements x) || member a (elements y))
unfolding union
member-union a x y =
    let all = elements x ++ elements y in
    member-sort_strings a (keys {0} (set_of true all))
    ∙ member-keys a (set_of true all)
    ∙ member-set_of true a all
    ∙ member-append a (elements x) (elements y)

union-eq :
    (x y z w : Option (List Text))
    → ((a : Text)
        → (member a (elements x) || member a (elements y))
          ≡ (member a (elements z) || member a (elements w)))
    → union x y ≡ union z w
unfolding union
union-eq x y z w h =
    ap (λ (m : Map Bool). some (sort_strings (keys m)))
      (set_of-eq (elements x ++ elements y) (elements z ++ elements w) λ a.
        member-append a (elements x) (elements y)
        ∙ h a
        ∙ sym (member-append a (elements z) (elements w)))

-- The union has the members of both sides, sorted and without repetition, and is commutative,
-- associative and idempotent on what it returns: merging aliases or credentials again, or in
-- another order, gives the same list.
pub union_semilattice :
    (x y z : Option (List Text))
    → ((a : Text)
        → member a (elements (union x y)) ≡ (member a (elements x) || member a (elements y)))
      × IsAscending (elements (union x y))
      × (union x y ≡ union y x)
      × (union (union x y) z ≡ union x (union y z))
      × (union x (union x y) ≡ union x y)
union_semilattice x y z = (
  (λ a. member-union a x y),
  unfold union in
      (let m = set_of true (elements x ++ elements y) in
        let up = keys-IsAscending m (set_of-IsOrdered true (elements x ++ elements y)) in
        rw (sort_strings-IsAscending (keys m) up) up),
  union-eq x y y x (λ a. ground arith),
  union-eq (union x y) z x (union y z)
      (λ a. ground (arith, member-union a x y, member-union a y z)),
  union-eq x (union x y) x y (λ a. ground (arith, member-union a x y)),
)
