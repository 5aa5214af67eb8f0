-- ===== src/Map/Laws.antt =====
-- The laws of the map operations, and that maps are equal when they hold the same entries.
use sshm.Prelude.{
  true, false, [], ◌∷◌, none, some, ◌≡◌, ◌≢◌, refl, arith, if◌then◌else◌, Bool-cases, inl, inr, sym,
  ◌∙◌,
}
use sshm.Text.{Text, ◌==◌, text_eq, text_eq_iff}
use sshm.Text.Order.{text_ltb, text_ltb_irrefl, text_ltb_trans, text_ltb_total}
use sshm.Map.{Map, get, put, remove}

pub text_eq_refl : (k : Text) → text_eq k k ≡ true
text_eq_refl k = (text_eq_iff k k).1 refl

pub not_equal : (a b : Text) → a ≢ b → (a == b) ≡ false
not_equal a b h = elim (Bool-cases (a == b)) [
  | inl e ↦ elim (h ((text_eq_iff a b).0 e)) [ ]
  | inr e ↦ e
]

module _ {ℓ} {V : Type ℓ} where
  pub get-put :
      (j k : Text) (v : V) (m : Map V) → get j (put k v m) ≡ (if k == j then some v else get j m)
  unfolding get put
  get-put j k v [] = refl
  get-put j k v ((i, w) ∷ m) =
      ground (arith, text_eq_iff k j, text_eq_iff i k, text_eq_iff i j, get-put j k v m)

  pub get-remove :
      (j k : Text) (m : Map V) → get j (remove k m) ≡ (if k == j then none else get j m)
  unfolding get remove
  get-remove j k [] = ground arith
  get-remove j k ((i, w) ∷ m) =
      ground (arith, text_eq_iff k j, text_eq_iff i k, text_eq_iff i j, get-remove j k m)

  pub get-put_self : (k : Text) (v : V) (m : Map V) → get k (put k v m) ≡ some v
  get-put_self k v m = rw (get-put, text_eq_refl)

  pub get-none : (k : Text) → get {V = V} k [] ≡ none
  unfolding get
  get-none k = refl

  abbrev pub Above : Text → Map V → Type 0
  Above k [] = Unit
  Above k ((j, v) ∷ m) = (text_ltb k j ≡ true) × Above k m

  -- What `put` and `remove` keep: ascending keys, each once.
  abbrev pub IsOrdered : Map V → Type 0
  IsOrdered [] = Unit
  IsOrdered ((k, v) ∷ m) = Above k m × IsOrdered m

  pub Above-trans : (a b : Text) (m : Map V) → text_ltb a b ≡ true → Above b m → Above a m
  Above-trans a b [] h l = tt
  Above-trans a b ((k, v) ∷ m) h l = (text_ltb_trans a b k h l.0, Above-trans a b m h l.1)

  pub get-Above : (k : Text) (m : Map V) → Above k m → get k m ≡ none
  unfolding get
  get-Above k [] l = refl
  get-Above k ((j, v) ∷ m) l = ground (arith, text_eq_iff j k, text_ltb_irrefl k, get-Above k m l.1)

  pub get-Above_eq : (a k : Text) → (a == k) ≡ true → (m : Map V) → Above a m → get k m ≡ none
  get-Above_eq a k e m h = rw (sym ((text_eq_iff a k).0 e)) (get-Above a m h)

  Above-put :
      (a k : Text) (v : V) (m : Map V) → text_ltb a k ≡ true → Above a m → Above a (put k v m)
  unfolding put
  Above-put a k v [] h l = (h, tt)
  Above-put a k v ((j, w) ∷ m) h l = ground (arith, Above-put a k v m h l.1)

  pub put-IsOrdered : (k : Text) (v : V) (m : Map V) → IsOrdered m → IsOrdered (put k v m)
  unfolding put
  put-IsOrdered k v [] o = (tt, tt)
  put-IsOrdered k v ((j, w) ∷ m) o = elim (Bool-cases (j == k)) [
    | inl e ↦ rw e (rw ((text_eq_iff j k).0 e) at o)
    | inr e ↦ elim (Bool-cases (text_ltb k j)) [
      | inl l ↦ rw (e, l) ((l, Above-trans k j m l o.0), o)
      | inr l ↦ rw (e, l) (Above-put j k v m (below j k e l) o.0, put-IsOrdered k v m o.1)
    ]
  ]
    where
      below : (a b : Text) → (a == b) ≡ false → text_ltb b a ≡ false → text_ltb a b ≡ true
      below a b e l = elim (Bool-cases (text_ltb a b)) [
        | inl h ↦ h
        | inr h ↦ cc ((text_eq_iff a b).1 (text_ltb_total a b h l), e)
      ]

  Above-remove : (a k : Text) (m : Map V) → Above a m → Above a (remove k m)
  unfolding remove
  Above-remove a k [] l = tt
  Above-remove a k ((j, w) ∷ m) l = ground (arith, Above-remove a k m l.1)

  pub remove-IsOrdered : (k : Text) (m : Map V) → IsOrdered m → IsOrdered (remove k m)
  unfolding remove
  remove-IsOrdered k [] o = tt
  remove-IsOrdered k ((j, w) ∷ m) o =
      ground (arith, Above-remove j k m o.0, remove-IsOrdered k m o.1)

module _ {ℓ} {V : Type ℓ} where
  get-tail :
      (k : Text) (v : V) (m : Map V) (j : Text)
      → Above k m
      → get j m ≡ (if k == j then none else get j ((k, v) ∷ m))
  unfolding get
  get-tail k v m j l = ground (arith, text_eq_iff k j, get-Above k m l)

  get-head : (k : Text) (v : V) (m : Map V) → get k ((k, v) ∷ m) ≡ some v
  unfolding get
  get-head k v m = rw (text_eq_refl k)

  get-before :
      (k j : Text) (w : V) (m : Map V) → text_ltb k j ≡ true → Above j m → get k ((j, w) ∷ m) ≡ none
  get-before k j w m h l = get-Above k ((j, w) ∷ m) (h, Above-trans k j m h l)

  -- Two maps with the same entries are equal.
  pub ext : (a b : Map V) → IsOrdered a → IsOrdered b → ((k : Text) → get k a ≡ get k b) → a ≡ b
  ext [] [] oa ob h = refl
  ext [] ((j, w) ∷ b) oa ob h = cc (h j, get-head j w b, get-none j)
  ext ((k, v) ∷ a) [] oa ob h = cc (h k, get-head k v a, get-none k)
  ext ((k, v) ∷ a) ((j, w) ∷ b) oa ob h = elim (Bool-cases (text_ltb k j)) [
    | inl l ↦ cc (h k, get-head k v a, get-before k j w b l ob.0)
    | inr l ↦ elim (Bool-cases (text_ltb j k)) [
      | inl l' ↦ cc (h j, get-head j w b, get-before j k v a l' oa.0)
      | inr l' ↦
          let e = text_ltb_total k j l l' in
          let tails =
            ext a b oa.1 ob.1
              (λ i. get-tail k v a i oa.0 ∙ same i e ∙ sym (get-tail j w b i ob.0)) in
          cc (h k, get-head k v a, get-head j w b, e, tails)
    ]
  ]
    where
      same :
          (i : Text)
          → k ≡ j
          → (if k == i then none else get i ((k, v) ∷ a))
            ≡ (if j == i then none else get i ((j, w) ∷ b))
      same i e = cc (h i, e)
