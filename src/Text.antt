-- ===== src/Text.antt =====
-- The string functions of Rust's standard library that src/config.rs and src/lib.rs use, on a string
-- as the codes of its characters.
pub mod Decimal
pub mod Plain
use Prim.Native.Char.{code}
use Prim.Native.String.{String}
use kafka_proxy.Base.{
  ℕ, zero, suc, ◌+◌, ◌-◌, ◌*◌, ◌≤◌, ◌<◌, ◌≡◌, refl, ap, Bool, true, false, ◌&&◌, ◌||◌, List, [],
  ◌∷◌, ◌++◌, Option, none, some, arith, ◌==◌, leb, ltb, is_empty, if◌then◌else◌,
}

abbrev pub Text : Type 0
Text = List ℕ

-- `char::is_whitespace`
unfoldable pub is_whitespace : ℕ → Bool
is_whitespace c =
    (leb 9 c && leb c 13)
    || (c == 32)
    || (c == 0x85)
    || (c == 0xa0)
    || (c == 0x1680)
    || (leb 0x2000 c && leb c 0x200a)
    || (c == 0x2028)
    || (c == 0x2029)
    || (c == 0x202f)
    || (c == 0x205f)
    || (c == 0x3000)

unfoldable pub trim_start : Text → Text
trim_start [] = []
trim_start (c ∷ s) = if is_whitespace c then trim_start s else c ∷ s

unfoldable pub trim_end : Text → Text
trim_end [] = []
trim_end (c ∷ s) = let r = trim_end s in if is_empty r && is_whitespace c then [] else c ∷ r

unfoldable pub trim : Text → Text
unfolding trim_start trim_end is_whitespace
trim s = trim_end (trim_start s)

-- A literal's characters.
abbrev pub codes : String → Text
codes String.[] = []
codes (String.◌∷◌ c s) = code c ∷ codes s

abbrev pub text_eq : Text → Text → Bool
text_eq [] [] = true
text_eq [] (d ∷ t) = false
text_eq (c ∷ s) [] = false
text_eq (c ∷ s) (d ∷ t) = c == d && text_eq s t

-- A piece gets one more character in front.
abbrev pub onto_first : ℕ → List Text → List Text
onto_first c [] = (c ∷ []) ∷ []
onto_first c (piece ∷ pieces) = (c ∷ piece) ∷ pieces

unfoldable pub split : ℕ → Text → List Text
split d [] = [] ∷ []
split d (c ∷ s) = let rest = split d s in if c == d then [] ∷ rest else onto_first c rest

-- At the last occurrence.
unfoldable pub rsplit_once : ℕ → Text → Option (Text × Text)
rsplit_once d [] = none
rsplit_once d (c ∷ s) = elim (rsplit_once d s) [
  | some (before, after) ↦ some (c ∷ before, after)
  | none ↦ if c == d then some ([], s) else none
]

unfoldable pub strip_suffix : Text → Text → Option Text
strip_suffix suffix [] = if is_empty suffix then some [] else none
strip_suffix suffix (c ∷ s) =
    let rest = strip_suffix suffix s in
    if text_eq (c ∷ s) suffix
    then some []
    else elim rest [ none ↦ none | some before ↦ some (c ∷ before) ]

abbrev pub starts_with_char : ℕ → Text → Bool
starts_with_char d [] = false
starts_with_char d (c ∷ s) = c == d

abbrev pub is_digit : ℕ → Bool
is_digit c = leb 48 c && leb c 57

-- The digits behind `value`; nothing at another character or past `max`.
unfoldable pub parse_digits : ℕ → ℕ → Text → Option ℕ
parse_digits max value [] = some value
parse_digits max value (c ∷ s) =
    let rest = parse_digits max (value * 10 + (c - 48)) s in
    if is_digit c && leb (value * 10 + (c - 48)) max then rest else none

-- `parse::<u16>()` and `parse::<u64>()` by their largest value: digits, and a `+` before them.
unfoldable pub parse_unsigned : ℕ → Text → Option ℕ
unfolding parse_digits
parse_unsigned max [] = none
parse_unsigned max (c ∷ s) =
    if c == b'+'
    then (if is_empty s then none else parse_digits max 0 s)
    else parse_digits max 0 (c ∷ s)

parse_digits-le :
    (max value : ℕ) (s : Text) (n : ℕ) → value ≤ max → parse_digits max value s ≡ some n → n ≤ max
unfolding parse_digits
parse_digits-le max value [] n le h = ground arith
parse_digits-le max value (c ∷ s) n le h =
    ground (arith, parse_digits-le max (value * 10 + (c - 48)) s n)

pub parse_unsigned-le : (max : ℕ) (s : Text) (n : ℕ) → parse_unsigned max s ≡ some n → n ≤ max
unfolding parse_unsigned
parse_unsigned-le max [] n h = cc
parse_unsigned-le max (c ∷ s) n h =
    ground (arith, parse_digits-le max 0 s n, parse_digits-le max 0 (c ∷ s) n)

-- A text that is not blank is not empty.
pub trim-not_empty : (s : Text) → is_empty (trim s) ≡ false → is_empty s ≡ false
unfolding trim
trim-not_empty [] h = h
trim-not_empty (c ∷ s) h = refl
