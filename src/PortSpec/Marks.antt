-- ===== src/PortSpec/Marks.antt =====
-- The label of one port or range, and how `from_str` reads it
-- (crates/anne-de-breuil/src/domain/port_spec.rs).
use anne_de_breuil.Prelude.{
  append-ne-nil, All-append, ℕ, ◌≤◌, ◌≡◌, refl, ◌∙◌, ◌≢◌, Bool, false, none, [], ◌∷◌, arith, ◌==◌,
  any, All,
}
use anne_de_breuil.Error.{ok}
use anne_de_breuil.Port.{Port, PortRange, port_try_from, range_try_from, range_text}
use anne_de_breuil.PortSpec.{
  PortSpec, PortSpecs, single, range, list, nil, cons, count, display_label, from_str_trimmed,
  parse_part, parse_word, parse_range, from_str,
}
use anne_de_breuil.PortSpec.Equation.{from_str-equation}
use anne_de_breuil.PortSpec.Keyword.{from_name}
use anne_de_breuil.PortSpec.WellFormed.{IsPort}
use anne_de_breuil.Text.{
  Text, text_eq, trim, to_ascii_lowercase, eq_ignore_ascii_case, is_whitespace, split_once,
  to_string,
}
use anne_de_breuil.Text.Number.{IsDigit, to_string-IsDigit, to_string-ne-nil, parse_u16-to_string}
use anne_de_breuil.Text.Split.{Lacks, split_once_cons, split_once-none}
use anne_de_breuil.Text.Trim.{trim_solid}

-- The characters of a port's or a range's label lie between `-` and `9`.
abbrev pub IsMark : ℕ → Type 0
IsMark c = (b'-' ≤ c) × (c ≤ b'9')

pub any-All :
    (P : ℕ → Type 0) (p : ℕ → Bool)
    → ((c : ℕ) → P c → p c ≡ false)
    → (s : Text) → All P s
    → any p s ≡ false
any-All P p f [] h = refl
any-All P p f (c ∷ s) h = rw (f c h.0, any-All P p f s h.1)

IsMark-digits : (s : Text) → All IsDigit s → All IsMark s
IsMark-digits [] h = tt
IsMark-digits (c ∷ s) h = (omega arith, IsMark-digits s h.1)

-- A text of marks is kept by `trim`, and goes past every test of `from_str` to its last step.
pub trim_marks : (s : Text) → All IsMark s → trim s ≡ s
unfolding is_whitespace
trim_marks s h = trim_solid s (any-All IsMark is_whitespace (λ c k. ground arith) s h)

pub Lacks-marks : (s : Text) → All IsMark s → Lacks b',' s
Lacks-marks s h = any-All IsMark (λ d. d == b',') (λ c k. ground arith) s h

from_str_marks : (s : Text) → All IsMark s → s ≢ [] → from_str s ≡ parse_part s
unfolding from_str_trimmed eq_ignore_ascii_case
from_str_marks [] h ne = absurd (ne refl)
from_str_marks (c ∷ s) h ne =
    ground (arith, from_str-equation (c ∷ s), trim_marks (c ∷ s) h, Lacks-marks (c ∷ s) h)

from_name_digits : (s : Text) → All IsDigit s → s ≢ [] → from_name s ≡ none
unfolding from_name to_ascii_lowercase text_eq
from_name_digits [] h ne = absurd (ne refl)
from_name_digits (c ∷ s) h ne = ground arith

-- A port or a range whose numbers are those of a checked port spec.
abbrev pub IsConcrete : PortSpec → Type 0
IsConcrete (single p) = IsPort p.get
IsConcrete (range r) = IsPort r.start × IsPort r.end × (r.start ≤ r.end)
IsConcrete _ = ⊥

abbrev pub AllConcrete : PortSpecs → Type 0
AllConcrete nil = Unit {0}
AllConcrete (cons s l) = IsConcrete s × AllConcrete l

-- Such a spec, or two to four of them in a list.
abbrev pub IsLegible : PortSpec → Type 0
IsLegible (single p) = IsConcrete (single p)
IsLegible (range r) = IsConcrete (range r)
IsLegible (list l) = AllConcrete l × (2 ≤ count l) × (count l ≤ 4)
IsLegible _ = ⊥

split_once_digits : (s : Text) → All IsDigit s → split_once b'-' s ≡ none
split_once_digits s h =
    split_once-none b'-' s (any-All IsDigit (λ d. d == b'-') (λ c k. ground arith) s h)

parse_part_single : (p : Port) → IsPort p.get → parse_part (to_string p.get) ≡ ok (single p)
unfolding parse_part parse_word port_try_from
parse_part_single p h =
    let digits = to_string-IsDigit p.get in
    ground (
      arith,
      split_once_digits (to_string p.get) digits,
      from_name_digits (to_string p.get) digits (to_string-ne-nil p.get),
      parse_u16-to_string p.get h.1,
    )

trim_digits : (n : ℕ) → trim (to_string n) ≡ to_string n
trim_digits n = trim_marks (to_string n) (IsMark-digits (to_string n) (to_string-IsDigit n))

parse_part_range :
    (r : PortRange) → IsConcrete (range r) → parse_part (range_text r.start r.end) ≡ ok (range r)
unfolding parse_part parse_range range_try_from
parse_part_range r h =
    let digits = to_string-IsDigit r.start in
    ground (
      arith,
      split_once_cons b'-' (to_string r.start) (to_string r.end)
          (any-All IsDigit (λ d. d == b'-') (λ c k. ground arith) (to_string r.start) digits),
      trim_digits r.start,
      trim_digits r.end,
      parse_u16-to_string r.start h.0.1,
      parse_u16-to_string r.end h.1.1,
    )

range_text-IsMark : (a b : ℕ) → All IsMark (range_text a b)
range_text-IsMark a b =
    All-append IsMark (to_string a) _ (IsMark-digits (to_string a) (to_string-IsDigit a))
      ((omega arith, omega arith), IsMark-digits (to_string b) (to_string-IsDigit b))

pub label-IsMark :
    (s : PortSpec) → IsConcrete s → All IsMark (display_label s) × (display_label s ≢ [])
unfolding display_label
label-IsMark (single p) h =
    (IsMark-digits (to_string p.get) (to_string-IsDigit p.get), to_string-ne-nil p.get)
label-IsMark (range r) h = (range_text-IsMark r.start r.end, append-ne-nil (to_string r.start) _ _)
label-IsMark _ h = absurd h

pub from_str-label : (s : PortSpec) → IsConcrete s → from_str (display_label s) ≡ ok s
unfolding display_label
from_str-label (single p) h =
    from_str_marks (to_string p.get) (IsMark-digits (to_string p.get) (to_string-IsDigit p.get))
      (to_string-ne-nil p.get)
    ∙ parse_part_single p h
from_str-label (range r) h =
    from_str_marks (range_text r.start r.end) (range_text-IsMark r.start r.end)
      (append-ne-nil (to_string r.start) _ _)
    ∙ parse_part_range r h
from_str-label _ h = absurd h
