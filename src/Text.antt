-- ===== src/Text.antt =====
-- Go's strings as sequences of Unicode code points, with the functions of `strings`, `unicode` and
-- `sort` that the program calls. `len` counts the bytes of the UTF-8 encoding.
pub mod Order
pub mod Sort
pub mod Split
pub mod Words
use Prim.Native.Char.{code}
use Prim.Native.String.{String}
use sshm.Prelude.{
  ℕ, ◌+◌, ◌-◌, ◌*◌, ◌^◌, ◌<◌, Bool, true, false, ◌&&◌, ◌||◌, not, List, [], ◌∷◌, ◌++◌, Option, none,
  some, ◌≡◌, ◌↔◌, arith, ltb, leb, nat_eq, if◌then◌else◌, any, every, is_nil, Discrete, ℕ_discrete,
  refl, ap,
}

abbrev pub Text : Type 0
Text = List ℕ

-- A literal, by its code points.
abbrev pub codes : String → Text
codes String.[] = []
codes (String.◌∷◌ c s) = code c ∷ codes s

unfoldable pub text_eq : Text → Text → Bool
text_eq [] [] = true
text_eq (x ∷ a) (y ∷ b) = nat_eq x y && text_eq a b
text_eq _ _ = false

pub text_eq_iff : (a b : Text) → (text_eq a b ≡ true) ↔ (a ≡ b)
unfolding text_eq
text_eq_iff (x ∷ a) (y ∷ b) = ground (arith, text_eq_iff a b)
text_eq_iff _ _ = ground arith

infix 50 ◌==◌
abbrev pub ◌==◌ : Text → Text → Bool
a == b = text_eq a b

-- unicode.IsSpace, the White_Space property.
unfoldable pub is_space : ℕ → Bool
is_space c =
    (leb 9 c && leb c 13)
    || nat_eq c 32
    || nat_eq c 0x85
    || nat_eq c 0xa0
    || nat_eq c 0x1680
    || (leb 0x2000 c && leb c 0x200a)
    || nat_eq c 0x2028
    || nat_eq c 0x2029
    || nat_eq c 0x202f
    || nat_eq c 0x205f
    || nat_eq c 0x3000

pub trim_left : Text → Text
trim_left [] = []
trim_left (c ∷ s) = let rest = trim_left s in if is_space c then rest else c ∷ s

pub trim_right : Text → Text
trim_right [] = []
trim_right (c ∷ s) = let rest = trim_right s in if is_space c && is_nil rest then [] else c ∷ rest

-- strings.TrimSpace
unfoldable pub trim_space : Text → Text
unfolding trim_left trim_right is_space
trim_space s = trim_right (trim_left s)

-- The letters above ASCII are lowered by the tables of package unicode, here the argument `lower`.
unfoldable pub lower_rune : (ℕ → ℕ) → ℕ → ℕ
lower_rune lower c = if ltb c 128 then (if leb b'A' c && leb c b'Z' then c + 32 else c) else lower c

-- strings.ToLower
unfoldable pub to_lower : (ℕ → ℕ) → Text → Text
unfolding lower_rune
to_lower lower [] = []
to_lower lower (c ∷ s) = lower_rune lower c ∷ to_lower lower s

-- strings.ContainsRune
unfoldable pub contains_rune : Text → ℕ → Bool
contains_rune s c = any (λ x. nat_eq x c) s

-- strings.ContainsAny
unfoldable pub contains_any : Text → Text → Bool
unfolding contains_rune
contains_any s chars = any (contains_rune chars) s

-- strings.HasPrefix
unfoldable pub has_prefix : Text → Text → Bool
has_prefix s [] = true
has_prefix [] (c ∷ p) = false
has_prefix (x ∷ s) (c ∷ p) = nat_eq x c && has_prefix s p

-- strings.Contains
unfoldable pub contains : Text → Text → Bool
unfolding has_prefix
contains [] p = has_prefix [] p
contains (c ∷ s) p = has_prefix (c ∷ s) p || contains s p

-- strings.Join
unfoldable pub join : List Text → Text → Text
join [] sep = []
join (s ∷ []) sep = s
join (s ∷ t ∷ rest) sep = s ++ (sep ++ join (t ∷ rest) sep)

-- The bytes of one code point in UTF-8.
unfoldable pub rune_len : ℕ → ℕ
rune_len c = if ltb c 0x80 then 1 else if ltb c 0x800 then 2 else if ltb c 0x10000 then 3 else 4

-- len
unfoldable pub len : Text → ℕ
unfolding rune_len
len [] = 0
len (c ∷ s) = rune_len c + len s

-- strings.Fields, with the word that is being read.
fields_from : Text → Text → List Text
unfolding is_space
fields_from word [] = if is_nil word then [] else word ∷ []
fields_from word (c ∷ s) =
    let skip = fields_from [] s in
    let more = fields_from (word ++ (c ∷ [])) s in
    if is_space c then (if is_nil word then skip else word ∷ skip) else more

unfoldable pub fields : Text → List Text
unfolding fields_from
fields s = fields_from [] s

-- strings.Split at a separator of one character, with the piece that is being read.
split_from : ℕ → Text → Text → List Text
split_from sep piece [] = piece ∷ []
split_from sep piece (c ∷ s) =
    let here = split_from sep [] s in
    let more = split_from sep (piece ++ (c ∷ [])) s in if nat_eq c sep then piece ∷ here else more

unfoldable pub split : Text → ℕ → List Text
unfolding split_from
split s sep = split_from sep [] s

-- The digits that a text starts with, and what follows them.
unfoldable pub is_digit : ℕ → Bool
is_digit c = leb b'0' c && leb c b'9'

unfoldable pub take_while : (ℕ → Bool) → Text → Text
take_while p [] = []
take_while p (c ∷ s) = let rest = take_while p s in if p c then c ∷ rest else []

unfoldable pub drop_while : (ℕ → Bool) → Text → Text
drop_while p [] = []
drop_while p (c ∷ s) = let rest = drop_while p s in if p c then rest else c ∷ s

-- The number that digits stand for, after those that were read.
unfoldable pub digits_value : ℕ → Text → ℕ
digits_value n [] = n
digits_value n (c ∷ s) = digits_value (10 * n + (c - b'0')) s

-- strconv.ParseUint(s, 10, 64)
unfoldable pub parse_uint : Text → Option ℕ
unfolding is_digit digits_value
parse_uint s =
    if is_nil s || not (every is_digit s)
    then none
    else let n = digits_value 0 s in if ltb n (2 ^ 64) then some n else none
