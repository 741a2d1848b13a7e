-- ===== src/PortSpec/WellFormed.antt =====
-- What every parsed port spec satisfies (crates/anne-de-breuil/src/domain/port_spec.rs).
use anne_de_breuil.Prelude.{
  ℕ, ◌≤◌, ◌<◌, ◌≡◌, sym, ◌∙◌, ◌⊎◌, inl, inr, true, none, some, List, [], ◌∷◌, arith, ◌==◌,
  Option-cases, length, All,
}
use anne_de_breuil.Error.{ok, >>=-eq-ok, collect}
use anne_de_breuil.Port.{port_try_from, range_try_from}
use anne_de_breuil.PortSpec.{
  PortSpec, PortSpecs, any, single, range, list, dynamic, nil, cons, of_list, count,
  from_str_trimmed, parse_parts, parse_part, parse_word, parse_range, from_str,
}
use anne_de_breuil.PortSpec.Equation.{from_str-equation}
use anne_de_breuil.Text.{Text, trim, contains, split, split_once, parse_u16}
use anne_de_breuil.Text.Number.{from_str_radix-lt}
use anne_de_breuil.Text.Split.{Lacks, split-Lacks, split_two}
use anne_de_breuil.Text.Trim.{any-trim}

-- A port of a `u16` that is not zero.
abbrev pub IsPort : ℕ → Type 0
IsPort n = (0 < n) × (n < 0x1_0000)

-- A spec that is no list, with its numbers in range.
abbrev pub IsAtom : PortSpec → Type 0
IsAtom any = Unit {0}
IsAtom (single p) = IsPort p.get
IsAtom (range r) = IsPort r.start × IsPort r.end × (r.start ≤ r.end)
IsAtom (list l) = ⊥
IsAtom (dynamic k) = Unit {0}

abbrev pub AllAtoms : PortSpecs → Type 0
AllAtoms nil = Unit {0}
AllAtoms (cons s l) = IsAtom s × AllAtoms l

-- An atom, or a list of two atoms or more: lists are never nested.
abbrev pub IsWellFormed : PortSpec → Type 0
IsWellFormed any = Unit {0}
IsWellFormed (single p) = IsAtom (single p)
IsWellFormed (range r) = IsAtom (range r)
IsWellFormed (list l) = AllAtoms l × (2 ≤ count l)
IsWellFormed (dynamic k) = Unit {0}

pub parse_u16-cases :
    (s : Text) → (parse_u16 s ≡ none) ⊎ ((n : ℕ) × (parse_u16 s ≡ some n) × (n < 0x1_0000))
parse_u16-cases s = elim (Option-cases (parse_u16 s)) [
  | inl e ↦ inl e
  | inr (n, e) ↦ inr (n, e, from_str_radix-lt 0x1_0000 10 s e)
]

parse_range-IsAtom :
    (start end original : Text) {spec : PortSpec}
    → parse_range start end original ≡ ok spec
    → IsAtom spec
unfolding parse_range range_try_from
parse_range-IsAtom start end original h =
    ground (arith, parse_u16-cases (trim start), parse_u16-cases (trim end))

parse_word-IsAtom : (s : Text) {spec : PortSpec} → parse_word s ≡ ok spec → IsAtom spec
unfolding parse_word port_try_from
parse_word-IsAtom s h = ground (arith, parse_u16-cases s)

parse_part-IsAtom : (s : Text) {spec : PortSpec} → parse_part s ≡ ok spec → IsAtom spec
unfolding parse_part
parse_part-IsAtom s {spec} h = elim (Option-cases (split_once b'-' s)) [
  | inl e ↦ parse_word-IsAtom s (rw e at h)
  | inr ((a, b), e) ↦ parse_range-IsAtom a b s (rw e at h)
]

-- Without a comma the result is an atom.
from_str-IsAtom :
    (input : Text) {spec : PortSpec} → Lacks b',' input → from_str input ≡ ok spec → IsAtom spec
unfolding from_str_trimmed
from_str-IsAtom input {spec} k h = ground (
  arith,
  from_str-equation input,
  any-trim (λ d. d == b',') input k,
  parse_part-IsAtom (trim input) {spec = spec},
)

collect-AllAtoms :
    (l : List Text) {specs : List PortSpec}
    → All (Lacks b',') l
    → collect (λ part. from_str (trim part)) l ≡ ok specs
    → AllAtoms (of_list specs) × (count (of_list specs) ≡ length l)
collect-AllAtoms [] {specs} k h = ground arith
collect-AllAtoms (s ∷ l) {specs} k h =
    let (b, hb, rest) = >>=-eq-ok (from_str (trim s)) _ h in
    let (bs, hbs, last) = >>=-eq-ok (collect (λ part. from_str (trim part)) l) _ rest in
    let (atoms, size) = collect-AllAtoms l k.1 hbs in
    ground (
      arith,
      from_str-IsAtom (trim s) {spec = b} (any-trim (λ d. d == b',') s k.0) hb,
      atoms,
      size,
      last,
    )

IsAtom→IsWellFormed : (spec : PortSpec) → IsAtom spec → IsWellFormed spec
IsAtom→IsWellFormed any h = tt
IsAtom→IsWellFormed (single p) h = h
IsAtom→IsWellFormed (range r) h = h
IsAtom→IsWellFormed (list l) h = absurd h
IsAtom→IsWellFormed (dynamic k) h = tt

parse_parts-IsWellFormed :
    (s : Text) {spec : PortSpec}
    → contains b',' s ≡ true
    → parse_parts from_str s ≡ ok spec
    → IsWellFormed spec
unfolding parse_parts
parse_parts-IsWellFormed s {spec} k h =
    let (specs, hs, last) = >>=-eq-ok (collect (λ part. from_str (trim part)) (split b',' s)) _ h in
    let (atoms, size) = collect-AllAtoms (split b',' s) (split-Lacks b',' s) hs in
    ground (arith, atoms, size, last, split_two b',' s k)

from_str_trimmed-IsWellFormed :
    (input s : Text) {spec : PortSpec}
    → from_str_trimmed from_str input s ≡ ok spec
    → IsWellFormed spec
unfolding from_str_trimmed
from_str_trimmed-IsWellFormed input s {spec} h = ground (
  arith,
  parse_parts-IsWellFormed s {spec = spec},
  parse_part-IsAtom s {spec = spec},
  IsAtom→IsWellFormed spec,
)

-- Whatever text `from_str` accepts, the spec is well formed: each port is a nonzero `u16`, each
-- range runs upwards, a list has at least two members, and none of them is a list.
pub from_str-IsWellFormed :
    (input : Text) (spec : PortSpec) → from_str input ≡ ok spec → IsWellFormed spec
from_str-IsWellFormed input spec h =
    from_str_trimmed-IsWellFormed input (trim input) (sym (from_str-equation input) ∙ h)
