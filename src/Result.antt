-- ===== src/Result.antt =====
-- Go's pair of a value and an error: a function returns the one or the other.
use sshm.Prelude.{◌≡◌, refl, Bool, true, false}

pub data Result {κ ℓ} (E : Type κ) (A : Type ℓ) : Type (κ ⊔ ℓ) where
  err : E → Result E A
  ok : A → Result E A

-- if err != nil { return err }
infixl 5 ◌>>=◌ ◌>>◌
abbrev pub ◌>>=◌ {κ ℓ μ} :
    {E : Type κ} {A : Type ℓ} {B : Type μ} → Result E A → (A → Result E B) → Result E B
◌>>=◌ (err e) next = err e
◌>>=◌ (ok a) next = next a

abbrev pub ◌>>◌ {κ ℓ} : {E : Type κ} {B : Type ℓ} → Result E (Unit {0}) → Result E B → Result E B
check >> next = check >>= λ _. next

-- if test { return e }
abbrev pub fail_if {κ} : {E : Type κ} → Bool → E → Result E (Unit {0})
fail_if false e = ok tt
fail_if true e = err e

module _ {κ ℓ μ} {E : Type κ} {A : Type ℓ} {B : Type μ} where
  -- A chain that succeeds got past its first call.
  pub bind-eq-ok :
      (first : Result E A) (next : A → Result E B) {final : B}
      → (first >>= next) ≡ ok final
      → (mid : A) × (first ≡ ok mid) × (next mid ≡ ok final)
  bind-eq-ok (err e) next done = cc
  bind-eq-ok (ok mid) next done = (mid, refl, done)

-- A guard that did not stop its chain.
pub fail_if-eq-ok {κ} :
    {E : Type κ} (b : Bool) (e : E) (u : Unit {0}) → fail_if b e ≡ ok u → b ≡ false
fail_if-eq-ok false e u h = refl
fail_if-eq-ok true e u h = cc h
