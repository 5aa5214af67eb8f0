-- ===== src/Text/Order.antt =====
-- The order of Go's `<` on strings. UTF-8 keeps the order of code points.
use sshm.Prelude.{ℕ, Bool, true, false, List, [], ◌∷◌, ◌≡◌, arith, refl, ltb, nat_eq, if◌then◌else◌}

unfoldable pub text_ltb : List ℕ → List ℕ → Bool
text_ltb [] [] = false
text_ltb [] (y ∷ b) = true
text_ltb (x ∷ a) [] = false
text_ltb (x ∷ a) (y ∷ b) = let rest = text_ltb a b in if nat_eq x y then rest else ltb x y

pub text_ltb_irrefl : (a : List ℕ) → text_ltb a a ≡ false
unfolding text_ltb
text_ltb_irrefl [] = refl
text_ltb_irrefl (x ∷ a) = ground (arith, text_ltb_irrefl a)

pub text_ltb_trans :
    (a b c : List ℕ) → text_ltb a b ≡ true → text_ltb b c ≡ true → text_ltb a c ≡ true
unfolding text_ltb
text_ltb_trans (x ∷ a) (y ∷ b) (z ∷ c) p q = ground (arith, text_ltb_trans a b c)
text_ltb_trans [] [] c p q = ground arith
text_ltb_trans [] (y ∷ b) [] p q = ground arith
text_ltb_trans [] (y ∷ b) (z ∷ c) p q = refl
text_ltb_trans (x ∷ a) [] c p q = ground arith
text_ltb_trans (x ∷ a) (y ∷ b) [] p q = ground arith

pub text_ltb_total : (a b : List ℕ) → text_ltb a b ≡ false → text_ltb b a ≡ false → a ≡ b
unfolding text_ltb
text_ltb_total (x ∷ a) (y ∷ b) p q = ground (arith, text_ltb_total a b)
text_ltb_total _ _ p q = ground arith

pub text_ltb_asymm : (a b : List ℕ) → text_ltb a b ≡ true → text_ltb b a ≡ false
unfolding text_ltb
text_ltb_asymm (x ∷ a) (y ∷ b) p = ground (arith, text_ltb_asymm a b)
text_ltb_asymm _ _ p = ground arith
