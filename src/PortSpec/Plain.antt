-- ===== src/PortSpec/Plain.antt =====
-- The last steps of `from_str` give a port, a range or a keyword
-- (crates/anne-de-breuil/src/domain/port_spec.rs).
use anne_de_breuil.Prelude.{◌≡◌, inl, inr, arith, Option-cases}
use anne_de_breuil.Error.{ok}
use anne_de_breuil.Port.{port_try_from, range_try_from}
use anne_de_breuil.PortSpec.{
  PortSpec, any, single, range, list, dynamic, parse_part, parse_word, parse_range,
}
use anne_de_breuil.PortSpec.WellFormed.{parse_u16-cases}
use anne_de_breuil.Text.{Text, trim, split_once}

-- Neither any nor a list.
abbrev pub IsPlain : PortSpec → Type 0
IsPlain any = ⊥
IsPlain (single p) = Unit {0}
IsPlain (range r) = Unit {0}
IsPlain (list l) = ⊥
IsPlain (dynamic k) = Unit {0}

parse_range-IsPlain :
    (start end original : Text) {spec : PortSpec}
    → parse_range start end original ≡ ok spec
    → IsPlain spec
unfolding parse_range range_try_from
parse_range-IsPlain start end original h =
    ground (arith, parse_u16-cases (trim start), parse_u16-cases (trim end))

parse_word-IsPlain : (s : Text) {spec : PortSpec} → parse_word s ≡ ok spec → IsPlain spec
unfolding parse_word port_try_from
parse_word-IsPlain s h = ground (arith, parse_u16-cases s)

pub parse_part-IsPlain : (s : Text) {spec : PortSpec} → parse_part s ≡ ok spec → IsPlain spec
unfolding parse_part
parse_part-IsPlain s {spec} h = elim (Option-cases (split_once b'-' s)) [
  | inl e ↦ parse_word-IsPlain s (rw e at h)
  | inr ((a, b), e) ↦ parse_range-IsPlain a b s (rw e at h)
]
