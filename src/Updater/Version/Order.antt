-- ===== src/Updater/Version/Order.antt =====
-- Where Compare of internal/updater/update.go is an order.
use sshm.Prelude.{
  ℕ, false, List, [], ◌∷◌, Option, none, some, ◌≡◌, ◌≢◌, refl, arith, sym, ap, ◌∙◌, if◌then◌else◌,
  ltb, is_nil, Bool-cases, inl, inr,
}
use sshm.Text.{Text, ◌==◌, text_eq_iff, parse_uint, split}
use sshm.Text.Order.{text_ltb_total, text_ltb_asymm}
use sshm.Text.Split.{split-injective}
use sshm.Result.{Result, ok, ◌>>=◌, bind-eq-ok}
use sshm.Updater.Version.{
  Parts, Sign, less, same, more, VersionError, number, compare_numerals, compare_read, compare_id,
  compare_ids, compare_pre, unless_same, compare_parts, both, find_version, compare_versions,
}

abbrev pub opposite : Sign → Sign
opposite less = more
opposite same = same
opposite more = less

-- No two different identifiers at one place stand for one number.
abbrev pub IsClear : List Text → List Text → Type 0
IsClear [] ys = Unit
IsClear (x ∷ xs) [] = Unit
IsClear (x ∷ xs) (y ∷ ys) =
    ((n : ℕ) → parse_uint x ≡ some n → parse_uint y ≡ some n → x ≡ y) × IsClear xs ys

swap : List (Text × Text) → List (Text × Text)
swap [] = []
swap ((x, y) ∷ ps) = (y, x) ∷ swap ps

compare_read-opposite :
    (x y : Text) (m n : Option ℕ)
    → x ≢ y
    → ((k : ℕ) → m ≡ some k → n ≡ some k → x ≡ y)
    → compare_read y x n m ≡ opposite (compare_read x y m n)
unfolding compare_read
compare_read-opposite x y (some m) (some n) ne clear = ground (arith, clear m refl)
compare_read-opposite x y (some m) none ne clear = refl
compare_read-opposite x y none (some n) ne clear = refl
compare_read-opposite x y none none ne clear =
    ground (arith, text_ltb_total x y, text_ltb_asymm x y, text_ltb_asymm y x)

compare_ids-opposite :
    (xs ys : List Text) → xs ≢ ys → IsClear xs ys → compare_ids ys xs ≡ opposite (compare_ids xs ys)
unfolding compare_ids compare_id
compare_ids-opposite [] [] ne clear = elim (ne refl) [ ]
compare_ids-opposite [] (y ∷ ys) ne clear = refl
compare_ids-opposite (x ∷ xs) [] ne clear = refl
compare_ids-opposite (x ∷ xs) (y ∷ ys) ne clear = elim (Bool-cases (x == y)) [
  | inl e ↦
      let eq = (text_eq_iff x y).0 e in
      rw (e, (text_eq_iff y x).1 (sym eq))
        (compare_ids-opposite xs ys (λ h. ne (cc (eq, h))) clear.1)
  | inr e ↦
      rw (e, differs y x (λ h. apart x y e (sym h)))
        (compare_read-opposite x y (parse_uint x) (parse_uint y) (apart x y e) clear.0)
]
  where
    apart : (a b : Text) → (a == b) ≡ false → a ≢ b
    apart a b e h = cc ((text_eq_iff a b).1 h, e)

    differs : (a b : Text) → a ≢ b → (a == b) ≡ false
    differs a b h = elim (Bool-cases (a == b)) [
      | inl e ↦ elim (h ((text_eq_iff a b).0 e)) [ ]
      | inr e ↦ e
    ]

compare_pre-opposite :
    (a b : Text)
    → IsClear (split a b'.') (split b b'.')
    → compare_pre b a ≡ opposite (compare_pre a b)
unfolding compare_pre
compare_pre-opposite a b clear = elim (Bool-cases (a == b)) [
  | inl e ↦ rw (e, (text_eq_iff b a).1 (sym ((text_eq_iff a b).0 e))) refl
  | inr e ↦
      rw (e, differs a b e) (unequal a b (λ h. absurd a b e (split-injective a b b'.' h)) clear)
]
  where
    absurd : (a b : Text) → (a == b) ≡ false → a ≢ b
    absurd a b e h = cc ((text_eq_iff a b).1 h, e)

    differs : (a b : Text) → (a == b) ≡ false → (b == a) ≡ false
    differs a b e = elim (Bool-cases (b == a)) [
      | inl h ↦ elim (absurd a b e (sym ((text_eq_iff b a).0 h))) [ ]
      | inr h ↦ h
    ]

    unequal :
        (a b : Text)
        → split a b'.' ≢ split b b'.'
        → IsClear (split a b'.') (split b b'.')
        → (if is_nil b
            then more
            else if is_nil a
            then less
            else compare_ids (split b b'.') (split a b'.'))
          ≡ opposite (
              if is_nil a
              then more
              else if is_nil b
              then less
              else compare_ids (split a b'.') (split b b'.'))
    unequal [] [] ne clear = elim (ne refl) [ ]
    unequal [] (y ∷ b) ne clear = refl
    unequal (x ∷ a) [] ne clear = refl
    unequal (x ∷ a) (y ∷ b) ne clear =
        compare_ids-opposite (split (x ∷ a) b'.') (split (y ∷ b) b'.') ne clear

-- One step of the loop, with the numerals read.
decided-opposite :
    (m n : ℕ) (r t : Result VersionError Sign) (s : Sign)
    → ((u : Sign) → r ≡ ok u → t ≡ ok (opposite u))
    → (if ltb m n then ok less else if ltb n m then ok more else r) ≡ ok s
    → (if ltb n m then ok less else if ltb m n then ok more else t) ≡ ok (opposite s)
decided-opposite m n r t s rest h = ground (arith, h, rest s)

compare_numerals-opposite :
    (ps : List (Text × Text)) (s : Sign)
    → compare_numerals ps ≡ ok s
    → compare_numerals (swap ps) ≡ ok (opposite s)
unfolding compare_numerals swap
compare_numerals-opposite [] s h = cc h
compare_numerals-opposite ((x, y) ∷ ps) s h =
    let m = bind-eq-ok (number x) _ h in
    let n = bind-eq-ok (number y) _ m.2 in
    rw (m.1, n.1)
      (decided-opposite m.0 n.0 (compare_numerals ps) (compare_numerals (swap ps)) s
        (compare_numerals-opposite ps) n.2)

compare_parts-opposite :
    (p q : Parts) (s : Sign)
    → IsClear (split p.pre b'.') (split q.pre b'.')
    → compare_parts p q ≡ ok s
    → compare_parts q p ≡ ok (opposite s)
unfolding compare_parts swap
compare_parts-opposite p q s clear h =
    let numerals = (p.major, q.major) ∷ (p.minor, q.minor) ∷ (p.patch, q.patch) ∷ [] in
    let c = bind-eq-ok (compare_numerals numerals) _ h in
    let back = compare_numerals-opposite numerals c.0 c.1 in
    ap (λ r. r >>= λ u. ok (unless_same u (compare_pre q.pre p.pre))) back
    ∙ ap (λ v. ok (unless_same (opposite c.0) v)) (compare_pre-opposite p.pre q.pre clear)
    ∙ turned c.0 (compare_pre p.pre q.pre) c.2
  where
    turned :
        (u v : Sign)
        → ◌≡◌ {A = Result VersionError Sign} (ok (unless_same u v)) (ok s)
        → ◌≡◌ {A = Result VersionError Sign}
            (ok (unless_same (opposite u) (opposite v)))
            (ok (opposite s))
    turned same v e = cc e
    turned less v e = cc e
    turned more v e = cc e

-- Compare orders two versions the opposite way round when they change places,
-- where no two different identifiers at one place of their prereleases stand for one number.
pub compare_versions-opposite :
    (a b : Text) (p q : Parts) (s : Sign)
    → find_version a ≡ some p
    → find_version b ≡ some q
    → IsClear (split p.pre b'.') (split q.pre b'.')
    → compare_versions a b ≡ ok s
    → compare_versions b a ≡ ok (opposite s)
unfolding compare_versions both
compare_versions-opposite a b p q s hp hq clear h =
    let read = ap (λ x. both x (find_version b)) hp ∙ ap (both (some p)) hq in
    rw (hp, hq) (compare_parts-opposite p q s clear (sym read ∙ h))
