-- ===== src/PortSpec.antt =====
-- crates/anne-de-breuil/src/domain/port_spec.rs: the grammar of a firewall rule's local ports.
pub mod Keyword
pub mod Equation
pub mod WellFormed
pub mod Plain
pub mod Forms
pub mod Marks
pub mod Labels
use anne_de_breuil.Prelude.{
  ℕ, zero, suc, ◌+◌, ◌-◌, ◌*◌, ◌/◌, ◌%◌, ◌^◌, ◌≤◌, ◌<◌, ◌≡◌, refl, sym, ap, ◌∙◌, subst, ◌≢◌, ◌↔◌,
  ◌⊎◌, inl, inr, Bool, true, false, not, ◌&&◌, ◌||◌, Option, none, some, List, [], ◌∷◌, ◌++◌, map,
  arith, ltb, leb, ◌==◌, if◌then◌else◌, ==_iff, ==_refl, Bool-cases, Option-cases, Bool-ext, length,
  take, drop, is_empty, all, filter, find?, length-append, In, All,
}
use anne_de_breuil.Error.{DomainError, malformed_port_spec, Result, ok, err, ◌>>=◌, collect}
use anne_de_breuil.Port.{Port, PortRange, port_try_from, range_try_from, range_contains, range_text}
use anne_de_breuil.Text.{
  Text, codes, text_eq, trim, eq_ignore_ascii_case, contains, split, split_once, parse_u16,
  to_string, join,
}
use Keyword.{DynamicKeyword, from_name, canonical_name}

-- `PortSpec::List` holds a `Vec` of specs.
mutual
  pub data PortSpec : Type 0 where
    any : PortSpec
    single : Port → PortSpec
    range : PortRange → PortSpec
    list : PortSpecs → PortSpec
    dynamic : DynamicKeyword → PortSpec

  pub data PortSpecs : Type 0 where
    nil : PortSpecs
    cons : PortSpec → PortSpecs → PortSpecs

-- The `Vec` that `collect` builds.
abbrev pub of_list : List PortSpec → PortSpecs
of_list [] = nil
of_list (s ∷ l) = cons s (of_list l)

-- `specs.len()`.
abbrev pub count : PortSpecs → ℕ
count nil = 0
count (cons s l) = suc (count l)

-- `PortSpec::matches`, and its `any` over a list.
unfoldable mutual
  pub matches : PortSpec → Port → Bool
  matches any port = true
  matches (single p) port = p.get == port.get
  matches (range r) port = range_contains r port
  matches (list l) port = any_matches l port
  matches (dynamic k) port = true

  pub any_matches : PortSpecs → Port → Bool
  any_matches nil port = false
  any_matches (cons s l) port = matches s port || any_matches l port

-- `LIST_SUMMARY_THRESHOLD`.
abbrev list_summary_threshold : ℕ
list_summary_threshold = 4

-- `PortSpec::display_label`, and the labels of a list's members.
unfoldable mutual
  pub display_label : PortSpec → Text
  display_label any = codes "any port"
  display_label (single p) = to_string p.get
  display_label (range r) = range_text r.start r.end
  display_label (list l) =
      if ltb list_summary_threshold (count l)
      then to_string (count l) ++ codes " ports (list)"
      else join (labels l)
  display_label (dynamic k) = canonical_name k ++ codes " (dynamic)"

  pub labels : PortSpecs → List Text
  labels nil = []
  labels (cons s l) = display_label s ∷ labels l

-- `parse().map_err(..)` at a `u16`.
parse_or : Text → Text → Result ℕ
parse_or original s = elim (parse_u16 s) [
  | none ↦ err (malformed_port_spec original)
  | some value ↦ ok value
]

parse_range : Text → Text → Text → Result PortSpec
unfolding parse_or
parse_range start end original = do
  s ← parse_or original (trim start)
  e ← parse_or original (trim end)
  r ← range_try_from s e
  ok (range r)

-- The end of `from_str`: a keyword, else a number.
parse_word : Text → Result PortSpec
unfolding parse_or
parse_word s = elim (from_name s) [
  | some k ↦ ok (dynamic k)
  | none ↦ do value ← parse_or s s; p ← port_try_from value; ok (single p)
]

parse_dashed : Text → Option (Text × Text) → Result PortSpec
unfolding parse_range parse_word
parse_dashed s (some (start, end)) = parse_range start end s
parse_dashed s none = parse_word s

-- A trimmed text with no comma and of at least one character, that is not `any`.
pub parse_part : Text → Result PortSpec
unfolding parse_dashed
parse_part s = parse_dashed s (split_once b'-' s)

-- `split(',')`, then `parse` of each part once trimmed; `parse` is `from_str` again.
parse_parts : (Text → Result PortSpec) → Text → Result PortSpec
parse_parts parse s = do
  specs ← collect (λ part. parse (trim part)) (split b',' s)
  ok (list (of_list specs))

-- The body of `from_str` on the trimmed text, with its recursive call as an argument.
pub from_str_trimmed : (Text → Result PortSpec) → Text → Text → Result PortSpec
unfolding parse_parts parse_part
from_str_trimmed parse input s =
    if is_empty s
    then err (malformed_port_spec input)
    else if text_eq s (b'*' ∷ []) || eq_ignore_ascii_case s (codes "any")
    then ok any
    else if contains b',' s
    then parse_parts parse s
    else parse_part s

abbrev pub from_str_body : (Text → Result PortSpec) → Text → Result PortSpec
from_str_body parse input = from_str_trimmed parse input (trim input)

-- `from_str` on fuel, one for each level of its own calls.
pub from_str_fuel : ℕ → Text → Result PortSpec
unfolding from_str_trimmed
from_str_fuel zero input = err (malformed_port_spec input)
from_str_fuel (suc f) input = from_str_body (from_str_fuel f) input

-- `impl FromStr for PortSpec`. Two levels are enough, since a part holds no comma.
unfoldable pub from_str : Text → Result PortSpec
unfolding from_str_fuel
from_str input = from_str_fuel 2 input
