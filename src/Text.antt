-- ===== src/Text.antt =====
-- Text as the list of its code points, with the operations of Rust's `str` and `char` that the crates
-- use on operations, operands and symbols.
use Prim.Native.Char.{code}
use Prim.Native.String.{String}
use apollo_rs.Prelude.{
  ℕ, ◌+◌, ◌-◌, ◌*◌, ◌^◌, ◌≡◌, arith, Bool, true, false, ◌&&◌, ◌||◌, List, [], ◌∷◌, Option, some,
  none, ltb, leb, within, ◌==◌, if◌then◌else◌, ◌↔◌,
}
use apollo_rs.Prelude.Int.{ℤ, pos, neg}

abbrev pub Text : Type 0
Text = List ℕ

abbrev pub codes : String → Text
codes String.[] = []
codes (String.◌∷◌ c s) = code c ∷ codes s

unfoldable pub text_eq : Text → Text → Bool
text_eq [] [] = true
text_eq [] (d ∷ t) = false
text_eq (c ∷ s) [] = false
text_eq (c ∷ s) (d ∷ t) = c == d && text_eq s t

pub text_eq_iff : (s t : Text) → (text_eq s t ≡ true) ↔ (s ≡ t)
unfolding text_eq
text_eq_iff [] [] = ground arith
text_eq_iff [] (d ∷ t) = ground arith
text_eq_iff (c ∷ s) [] = ground arith
text_eq_iff (c ∷ s) (d ∷ t) = ground (arith, text_eq_iff s t)

-- The text is this literal.
unfoldable pub is : Text → String → Bool
unfolding text_eq
is t s = text_eq t (codes s)

-- The text is one of these.
unfoldable pub is_any : Text → List String → Bool
unfolding is
is_any t [] = false
is_any t (s ∷ ss) = is t s || is_any t ss

-- `char::is_whitespace`, the property White_Space of Unicode.
unfoldable pub is_whitespace : ℕ → Bool
is_whitespace c =
    within 9 13 c
    || c == 32
    || c == 0x85
    || c == 0xa0
    || c == 0x1680
    || within 0x2000 0x200a c
    || within 0x2028 0x2029 c
    || c == 0x202f
    || c == 0x205f
    || c == 0x3000

unfoldable pub trim_start : Text → Text
unfolding is_whitespace
trim_start [] = []
trim_start (c ∷ s) = let rest = trim_start s in if is_whitespace c then rest else c ∷ s

-- A text without its last code points that satisfy a test.
unfoldable pub trim_end_by : (ℕ → Bool) → Text → Text
trim_end_by test [] = []
trim_end_by test (c ∷ s) = elim (trim_end_by test s) [
  | [] ↦ if test c then [] else c ∷ []
  | d ∷ r ↦ c ∷ (d ∷ r)
]

unfoldable pub trim : Text → Text
unfolding trim_start trim_end_by
trim s = trim_end_by is_whitespace (trim_start s)

-- `split_whitespace`: the first field of a text, and what is after it.
unfoldable pub first_field : Text → Text × Text
unfolding is_whitespace
first_field [] = ([], [])
first_field (c ∷ s) =
    let (field, rest) = first_field s in if is_whitespace c then ([], s) else (c ∷ field, rest)

-- With as many rounds as the text is long.
unfoldable pub split_fields : Text → Text → List Text
unfolding first_field trim_start
split_fields [] s = []
split_fields (_ ∷ fuel) s = elim (trim_start s) [
  | [] ↦ []
  | c ∷ r ↦ (first_field (c ∷ r)).0 ∷ split_fields fuel (first_field (c ∷ r)).1
]

unfoldable pub split_whitespace : Text → List Text
unfolding split_fields
split_whitespace s = split_fields s s

unfoldable pub all : (ℕ → Bool) → Text → Bool
all test [] = true
all test (c ∷ s) = test c && all test s

unfoldable pub to_ascii_uppercase : Text → Text
to_ascii_uppercase [] = []
to_ascii_uppercase (c ∷ s) = (if within b'a' b'z' c then c - 32 else c) ∷ to_ascii_uppercase s

-- `strip_prefix` and `strip_suffix` of one character.
unfoldable pub strip_prefix : ℕ → Text → Option Text
strip_prefix d [] = none
strip_prefix d (c ∷ s) = if c == d then some s else none

unfoldable pub strip_suffix : ℕ → Text → Option Text
strip_suffix d [] = none
strip_suffix d (c ∷ []) = if c == d then some [] else none
strip_suffix d (c ∷ (e ∷ s)) = elim (strip_suffix d (e ∷ s)) [ none ↦ none | some r ↦ some (c ∷ r) ]

-- `to_digit` for a radix of at most ten.
abbrev digit_of : ℕ → ℕ → Option ℕ
digit_of radix c = if leb b'0' c && ltb c (b'0' + radix) then some (c - b'0') else none

-- The number of some digits after a number.
unfoldable pub digits_value : ℕ → ℕ → Text → Option ℕ
digits_value radix value [] = some value
digits_value radix value (c ∷ s) = elim (digit_of radix c) [
  | none ↦ none
  | some d ↦ digits_value radix (value * radix + d) s
]

-- The digits of a number are at least one.
abbrev magnitude : ℕ → Text → Option ℕ
magnitude radix [] = none
magnitude radix (c ∷ s) = digits_value radix 0 (c ∷ s)

-- `from_str_radix` of a signed type of `bits` bits, with its optional sign and its overflow.
unfoldable pub from_str_radix : ℕ → ℕ → Text → Option ℤ
unfolding digits_value
from_str_radix bits radix [] = none
from_str_radix bits radix (c ∷ s) =
    if c == b'-'
    then elim (magnitude radix s) [
      | none ↦ none
      | some m ↦ if leb m (2 ^ (bits - 1)) then some (neg m) else none
    ]
    else elim (magnitude radix (if c == b'+' then s else c ∷ s)) [
      | none ↦ none
      | some m ↦ if ltb m (2 ^ (bits - 1)) then some (pos m) else none
    ]
