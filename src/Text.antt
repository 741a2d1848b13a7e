-- ===== src/Text.antt =====
-- The parts of Rust's `str` and `u16` that the program calls, on texts as lists of code points.
pub mod Trim
pub mod Split
pub mod Number
pub mod Lines
use Prim.Native.Char.{code}
use Prim.Native.String.{String}
use anne_de_breuil.Prelude.{
  ℕ, zero, suc, ◌+◌, ◌-◌, ◌*◌, ◌/◌, ◌%◌, ◌≡◌, refl, ap, ◌↔◌, Bool, true, false, ◌&&◌, ◌||◌, Option,
  none, some, List, [], ◌∷◌, ◌++◌, map, arith, ltb, leb, ◌==◌, if◌then◌else◌, any, is_empty,
}

abbrev pub Text : Type 0
Text = List ℕ

-- The code points of a literal.
abbrev pub codes : String → Text
codes String.[] = []
codes (String.◌∷◌ c s) = code c ∷ codes s

-- `==` on `str`.
unfoldable pub text_eq : Text → Text → Bool
text_eq [] [] = true
text_eq [] (d ∷ t) = false
text_eq (c ∷ s) [] = false
text_eq (c ∷ s) (d ∷ t) = c == d && text_eq s t

pub text_eq→eq : (s t : Text) → text_eq s t ≡ true → s ≡ t
unfolding text_eq
text_eq→eq [] [] h = refl
text_eq→eq [] (d ∷ t) h = cc
text_eq→eq (c ∷ s) [] h = cc
text_eq→eq (c ∷ s) (d ∷ t) h = ground (arith, text_eq→eq s t)

pub text_eq_refl : (s : Text) → text_eq s s ≡ true
unfolding text_eq
text_eq_refl [] = refl
text_eq_refl (c ∷ s) = ground (arith, text_eq_refl s)

-- `char::is_whitespace`: the Unicode White_Space property.
unfoldable pub is_whitespace : ℕ → Bool
is_whitespace c =
    (leb 0x9 c && leb c 0xd)
    || c == 0x20
    || c == 0x85
    || c == 0xa0
    || c == 0x1680
    || (leb 0x2000 c && leb c 0x200a)
    || c == 0x2028
    || c == 0x2029
    || c == 0x202f
    || c == 0x205f
    || c == 0x3000

pub trim_start : Text → Text
trim_start [] = []
trim_start (c ∷ s) = let rest = trim_start s in if is_whitespace c then rest else c ∷ s

-- One character in front of what `trim_end` leaves of the rest.
trim_end_onto : ℕ → Text → Text
trim_end_onto c [] = if is_whitespace c then [] else c ∷ []
trim_end_onto c (d ∷ s) = c ∷ d ∷ s

pub trim_end : Text → Text
trim_end [] = []
trim_end (c ∷ s) = trim_end_onto c (trim_end s)

unfoldable pub trim : Text → Text
unfolding trim_start trim_end trim_end_onto is_whitespace
trim s = trim_end (trim_start s)

-- `char::to_ascii_lowercase`.
unfoldable pub lower : ℕ → ℕ
lower c = if leb b'A' c && leb c b'Z' then c + 32 else c

unfoldable pub to_ascii_lowercase : Text → Text
unfolding lower
to_ascii_lowercase = map lower

unfoldable pub eq_ignore_ascii_case : Text → Text → Bool
unfolding to_ascii_lowercase text_eq
eq_ignore_ascii_case s t = text_eq (to_ascii_lowercase s) (to_ascii_lowercase t)

-- `contains` at a `char`.
abbrev pub contains : ℕ → Text → Bool
contains c s = any (λ d. d == c) s

-- The first piece grows by one character.
unfoldable pub push_first : ℕ → List Text → List Text
push_first c [] = (c ∷ []) ∷ []
push_first c (s ∷ rest) = (c ∷ s) ∷ rest

-- `split` at a `char`: always at least one piece.
unfoldable pub split : ℕ → Text → List Text
unfolding push_first
split sep [] = [] ∷ []
split sep (c ∷ s) = let rest = split sep s in if c == sep then [] ∷ rest else push_first c rest

push_before : ℕ → Option (Text × Text) → Option (Text × Text)
push_before c none = none
push_before c (some (before, after)) = some (c ∷ before, after)

unfoldable pub split_once : ℕ → Text → Option (Text × Text)
unfolding push_before
split_once sep [] = none
split_once sep (c ∷ s) =
    let rest = split_once sep s in if c == sep then some ([], s) else push_before c rest

-- `char::to_digit` at a radix up to 16.
unfoldable pub to_digit : ℕ → ℕ → Option ℕ
to_digit radix c =
    let value =
      if leb b'0' c && leb c b'9'
      then c - b'0'
      else if leb b'a' c && leb c b'z'
      then c - b'a' + 10
      else if leb b'A' c && leb c b'Z'
      then c - b'A' + 10
      else radix in
    if ltb value radix then some value else none

unfoldable pub digits_onto : ℕ → ℕ → Text → Option ℕ
digits_onto radix acc [] = some acc
digits_onto radix acc (c ∷ s) = elim (to_digit radix c) [
  | none ↦ none
  | some d ↦ digits_onto radix (acc * radix + d) s
]

unfoldable pub digits_value : ℕ → Text → Option ℕ
digits_value radix [] = none
digits_value radix (c ∷ s) = digits_onto radix 0 (c ∷ s)

unfoldable pub below : ℕ → Option ℕ → Option ℕ
below bound none = none
below bound (some n) = if ltb n bound then some n else none

-- `from_str_radix` of an unsigned integer below `bound`: one `+` is allowed, then digits only.
unfoldable pub from_str_radix : ℕ → ℕ → Text → Option ℕ
unfolding digits_onto digits_value below to_digit
from_str_radix bound radix [] = none
from_str_radix bound radix (c ∷ s) =
    below bound (if c == b'+' then digits_value radix s else digits_value radix (c ∷ s))

-- `str::parse::<u16>`.
abbrev pub parse_u16 : Text → Option ℕ
parse_u16 = from_str_radix 0x1_0000 10

-- Decimal digits of `n` in front of `tail`; `suc n` rounds are always enough.
show_onto : ℕ → ℕ → Text → Text
show_onto zero n tail = tail
show_onto (suc f) n tail =
    let more = show_onto f (n / 10) ((b'0' + n % 10) ∷ tail) in
    if ltb n 10 then (b'0' + n) ∷ tail else more

-- `to_string` of an unsigned integer.
unfoldable pub to_string : ℕ → Text
unfolding show_onto
to_string n = show_onto (suc n) n []

-- `join(", ")`.
abbrev pub join : List Text → Text
join [] = []
join (s ∷ []) = s
join (s ∷ t ∷ l) = s ++ (b',' ∷ b' ' ∷ join (t ∷ l))

-- The bytes that UTF-8 takes for a code point.
abbrev utf8_width : ℕ → ℕ
utf8_width c = if ltb c 0x80 then 1 else if ltb c 0x800 then 2 else if ltb c 0x1_0000 then 3 else 4

-- `str::len`.
unfoldable pub utf8_len : Text → ℕ
utf8_len [] = 0
utf8_len (c ∷ s) = utf8_width c + utf8_len s

-- `Ord` on `str` is by bytes; in UTF-8 that is the order of the code points.
unfoldable pub text_leb : Text → Text → Bool
text_leb [] t = true
text_leb (c ∷ s) [] = false
text_leb (c ∷ s) (d ∷ t) = ltb c d || (c == d && text_leb s t)
