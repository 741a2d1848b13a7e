-- ===== src/Text/Number.antt =====
-- Printing and parsing of decimal numbers: `u16::to_string` and `str::parse::<u16>`.
use anne_de_breuil.Prelude.{
  ℕ, zero, suc, ◌+◌, ◌/◌, ◌%◌, ◌<◌, ◌≤◌, ◌≡◌, ◌≢◌, refl, inl, inr, some, [], ◌∷◌, arith, ltb,
  Bool-cases, All,
}
use anne_de_breuil.Text.{
  Text, to_digit, digits_onto, from_str_radix, parse_u16, show_onto, to_string,
}

digits_onto-show_onto :
    (f n : ℕ) (tail : Text) → n < f → digits_onto 10 0 (show_onto f n tail) ≡ digits_onto 10 n tail
unfolding digits_onto show_onto to_digit
digits_onto-show_onto zero n tail h = absurd (omega arith)
digits_onto-show_onto (suc f) n tail h =
    ground (arith, digits_onto-show_onto f (n / 10) ((b'0' + n % 10) ∷ tail))

-- A decimal digit.
abbrev pub IsDigit : ℕ → Type 0
IsDigit c = (b'0' ≤ c) × (c ≤ b'9')

show_onto-IsDigit : (f n : ℕ) (tail : Text) → All IsDigit tail → All IsDigit (show_onto f n tail)
unfolding show_onto
show_onto-IsDigit zero n tail h = h
show_onto-IsDigit (suc f) n tail h = elim (Bool-cases (ltb n 10)) [
  | inl e ↦ rw e ((ground arith, ground arith), h)
  | inr e ↦ rw e (show_onto-IsDigit f (n / 10) _ ((omega arith, omega arith), h))
]

pub to_string-IsDigit : (n : ℕ) → All IsDigit (to_string n)
unfolding to_string
to_string-IsDigit n = show_onto-IsDigit (suc n) n [] tt

show_onto-ne-nil : (f n c : ℕ) (t : Text) → show_onto f n (c ∷ t) ≢ []
unfolding show_onto
show_onto-ne-nil zero n c t = ground arith
show_onto-ne-nil (suc f) n c t = ground (arith, show_onto-ne-nil f (n / 10) (b'0' + n % 10) (c ∷ t))

pub to_string-ne-nil : (n : ℕ) → to_string n ≢ []
unfolding to_string show_onto
to_string-ne-nil n = ground (arith, show_onto-ne-nil n (n / 10) (b'0' + n % 10) [])

-- Digits with a value below the bound are read as that value.
from_str_radix-IsDigit :
    (bound n : ℕ) (s : Text)
    → All IsDigit s
    → digits_onto 10 0 s ≡ some n
    → s ≢ []
    → n < bound
    → from_str_radix bound 10 s ≡ some n
unfolding from_str_radix
from_str_radix-IsDigit bound n [] d e ne h = absurd (ne refl)
from_str_radix-IsDigit bound n (c ∷ s) d e ne h = ground arith

digits_onto-to_string : (n : ℕ) → digits_onto 10 0 (to_string n) ≡ some n
unfolding to_string digits_onto
digits_onto-to_string n = digits_onto-show_onto (suc n) n [] (omega arith)

-- What is printed is read back.
pub parse_u16-to_string : (n : ℕ) → n < 0x1_0000 → parse_u16 (to_string n) ≡ some n
parse_u16-to_string n h =
    from_str_radix-IsDigit 0x1_0000 n (to_string n) (to_string-IsDigit n) (digits_onto-to_string n)
      (to_string-ne-nil n) h

-- No parse gives a number at or above the bound.
pub from_str_radix-lt :
    (bound radix : ℕ) (s : Text) {n : ℕ} → from_str_radix bound radix s ≡ some n → n < bound
unfolding from_str_radix
from_str_radix-lt bound radix [] h = cc
from_str_radix-lt bound radix (c ∷ s) h = ground arith
