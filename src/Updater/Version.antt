-- ===== src/Updater/Version.antt =====
-- Compare of internal/updater/update.go.
pub mod Order
use sshm.Prelude.{
  ℕ, Bool, true, false, not, ◌&&◌, ◌||◌, List, [], ◌∷◌, ◌++◌, Option, none, some, if◌then◌else◌,
  is_nil, ltb, nat_eq, every, length,
}
use sshm.Text.{Text, ◌==◌, codes}
unfoldable use sshm.Text.{
  text_eq, split, is_digit, take_while, drop_while, parse_uint, contains_rune,
}
unfoldable use sshm.Text.Order.{text_ltb}
use sshm.Result.{Result, ok, err, ◌>>=◌}

-- What versionRE captures: three numerals, and the prerelease, empty if there is none.
pub record Parts : Type 0 where
  pub major : Text
  pub minor : Text
  pub patch : Text
  pub pre : Text

pub data Sign : Type 0 where
  less same more : Sign

pub data VersionError : Type 0 where
  unrecognized out_of_range : VersionError

-- (0|[1-9][0-9]*), as the longest run of digits: what follows it in the pattern is no digit.
unfoldable pub is_numeral : Text → Bool
is_numeral [] = false
is_numeral (c ∷ s) = not (nat_eq c b'0') || is_nil s

-- [0-9A-Za-z.-]+
unfoldable pub is_suffix : Text → Bool
is_suffix s =
    not (is_nil s)
    && every
        (contains_rune (codes "0123456789ABCDEFGHIJKLMNOPQRSTUVWXYZabcdefghijklmnopqrstuvwxyz.-")) s

-- v?
unfoldable pub without_v : Text → Text
without_v [] = []
without_v (c ∷ s) = if nat_eq c b'v' then s else c ∷ s

-- What follows the numerals: (?:-([0-9A-Za-z.-]+))?(?:\+[0-9A-Za-z.-]+)?$
build_ok : Text → Bool
unfolding is_suffix
build_ok [] = true
build_ok (c ∷ s) = is_suffix s

abbrev is_not_plus : ℕ → Bool
is_not_plus c = not (nat_eq c b'+')

unfoldable pub pre_of : Text → Option Text
unfolding is_suffix build_ok take_while drop_while
pre_of [] = some []
pre_of (c ∷ s) =
    if nat_eq c b'-'
    then (if is_suffix (take_while is_not_plus s) && build_ok (drop_while is_not_plus s)
        then some (take_while is_not_plus s)
        else none)
    else if nat_eq c b'+' && is_suffix s
    then some []
    else none

-- One numeral and the dot behind it.
dotted : Text → Option (Text × Text)
unfolding is_numeral take_while drop_while is_digit
dotted s = after (take_while is_digit s) (drop_while is_digit s)
  where
    after : Text → Text → Option (Text × Text)
    after d [] = none
    after d (c ∷ rest) = if is_numeral d && nat_eq c b'.' then some (d, rest) else none

with_pre : Text → Text → Text → Option Text → Option Parts
with_pre a b c none = none
with_pre a b c (some pre) =
    if is_numeral c then some (record { major = a; minor = b; patch = c; pre = pre }) else none

third : Text → Option (Text × Text) → Option Parts
unfolding take_while drop_while is_digit pre_of with_pre
third a none = none
third a (some (b, s)) = with_pre a b (take_while is_digit s) (pre_of (drop_while is_digit s))

second : Option (Text × Text) → Option Parts
unfolding dotted third
second none = none
second (some (a, s)) = third a (dotted s)

-- versionRE.FindStringSubmatch
unfoldable pub find_version : Text → Option Parts
unfolding without_v dotted second
find_version s = second (dotted (without_v s))

abbrev pub number : Text → Result VersionError ℕ
number s = elim (parse_uint s) [ none ↦ err out_of_range | some n ↦ ok n ]

-- The loop over the three numerals.
unfoldable pub compare_numerals : List (Text × Text) → Result VersionError Sign
unfolding parse_uint
compare_numerals [] = ok same
compare_numerals ((s, t) ∷ rest) = do
  x ← number s
  y ← number t
  if ltb x y then ok less else if ltb y x then ok more else compare_numerals rest

-- Two different identifiers of a prerelease.
unfoldable pub compare_read : Text → Text → Option ℕ → Option ℕ → Sign
compare_read x y (some m) (some n) = if ltb m n then less else more
compare_read x y (some m) none = less
compare_read x y none (some n) = more
compare_read x y none none = if text_ltb x y then less else more

unfoldable pub compare_id : Text → Text → Sign
unfolding compare_read parse_uint
compare_id x y = compare_read x y (parse_uint x) (parse_uint y)

-- The loop over the identifiers, and the lengths where they run out.
unfoldable pub compare_ids : List Text → List Text → Sign
unfolding compare_id
compare_ids [] [] = more
compare_ids [] (y ∷ ys) = less
compare_ids (x ∷ xs) [] = more
compare_ids (x ∷ xs) (y ∷ ys) =
    let rest = compare_ids xs ys in if x == y then rest else compare_id x y

unfoldable pub compare_pre : Text → Text → Sign
unfolding compare_ids split
compare_pre a b =
    if a == b
    then same
    else if is_nil a
    then more
    else if is_nil b
    then less
    else compare_ids (split a b'.') (split b b'.')

abbrev pub unless_same : Sign → Sign → Sign
unless_same same s = s
unless_same less s = less
unless_same more s = more

unfoldable pub compare_parts : Parts → Parts → Result VersionError Sign
unfolding compare_numerals compare_pre
compare_parts a b = do
  s ← compare_numerals ((a.major, b.major) ∷ (a.minor, b.minor) ∷ (a.patch, b.patch) ∷ [])
  ok (unless_same s (compare_pre a.pre b.pre))

both : Option Parts → Option Parts → Result VersionError Sign
unfolding compare_parts
both (some a) (some b) = compare_parts a b
both _ _ = err unrecognized

-- Compare
unfoldable pub compare_versions : Text → Text → Result VersionError Sign
unfolding both find_version
compare_versions a b = both (find_version a) (find_version b)
