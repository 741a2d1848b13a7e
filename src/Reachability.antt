-- ===== src/Reachability.antt =====
-- crates/anne-de-breuil/src/domain/reachability.rs: one endpoint against a firewall rule set.
pub mod Verdicts
pub mod Expansion
pub mod Rules
use anne_de_breuil.Prelude.{
  Bool, true, false, not, ◌||◌, Option, none, some, List, [], ◌∷◌, ◌++◌, ◌==◌, if◌then◌else◌,
  is_empty, filter, find?, any, ◌≟◌,
}
use anne_de_breuil.Endpoint.{Endpoint, loopback, Exposure-eq}
use anne_de_breuil.Firewall.{FirewallRule, ProfileState, allow, block, RuleAction-eq, Protocol-eq}
use anne_de_breuil.Names.{ProcessPath, ServiceName, ServiceName-eq}
use anne_de_breuil.PortSpec.{PortSpec, dynamic, matches}
use anne_de_breuil.Text.{Text, codes, text_eq, eq_ignore_ascii_case}

pub data Reachability : Type 0 where
  local_only blocked allowed default_action indeterminate : Reachability

pub record ReachabilityVerdict : Type 0 where
  pub reachability : Reachability
  pub matched_rules : List FirewallRule

-- What the loop of `expand_env_vars` writes for a name that a second `%` closed.
expanded : (Text → Option Text) → Text → Text
expanded lookup [] = b'%' ∷ b'%' ∷ []
expanded lookup (c ∷ name) = elim (lookup (c ∷ name)) [
  | some value ↦ value
  | none ↦ b'%' ∷ ((c ∷ name) ++ (b'%' ∷ []))
]

-- `expand_env_vars`; inside a placeholder the second argument holds the name read so far.
unfoldable pub expand_from : (Text → Option Text) → Option Text → Text → Text
unfolding expanded
expand_from lookup none [] = []
expand_from lookup (some name) [] = b'%' ∷ name
expand_from lookup none (c ∷ s) =
    let opened = expand_from lookup (some []) s in
    let plain = c ∷ expand_from lookup none s in if c == b'%' then opened else plain
expand_from lookup (some name) (c ∷ s) =
    let closed = expanded lookup name ++ expand_from lookup none s in
    let longer = expand_from lookup (some (name ++ (c ∷ []))) s in
    if c == b'%' then closed else longer

abbrev pub expand_env_vars : Text → (Text → Option Text) → Text
expand_env_vars input lookup = expand_from lookup none input

-- `SYSTEM_PSEUDO_PATH`.
abbrev system_pseudo_path : Text
system_pseudo_path = codes "System"

-- `compare_program_paths`: the two bodies that `cfg(windows)` chooses between.
unfoldable pub compare_program_paths : Bool → Text → Text → Bool
compare_program_paths windows filter process_path =
    if eq_ignore_ascii_case filter system_pseudo_path
      || eq_ignore_ascii_case process_path system_pseudo_path
    then eq_ignore_ascii_case filter process_path
    else if windows
    then eq_ignore_ascii_case filter process_path
    else text_eq filter process_path

-- `program_filter_matches`: no variable is ever expanded.
unfoldable pub program_filter_matches : Bool → ProcessPath → Option ProcessPath → Bool
unfolding expand_from compare_program_paths
program_filter_matches windows filter none = false
program_filter_matches windows filter (some process_path) =
    compare_program_paths windows (expand_env_vars filter.as_str (λ _. none)) process_path.as_str

-- A filter that is absent lets every endpoint pass.
unfoldable pub program_passes : Bool → Option ProcessPath → Endpoint → Bool
unfolding program_filter_matches
program_passes windows none endpoint = true
program_passes windows (some filter) endpoint =
    program_filter_matches windows filter endpoint.process_path

unfoldable pub service_passes : Option ServiceName → Endpoint → Bool
service_passes none endpoint = true
service_passes (some service) endpoint = any (λ hosted. hosted ≟ service) endpoint.hosted_services

-- `rule_applies`: four conditions, each of which ends the function.
unfoldable pub rule_applies : Bool → FirewallRule → Endpoint → Bool
unfolding program_passes service_passes
rule_applies windows rule endpoint =
    if not (rule.protocol ≟ endpoint.protocol)
    then false
    else if not (matches rule.port_spec endpoint.port)
    then false
    else if not (program_passes windows rule.program_filter endpoint)
    then false
    else if not (service_passes rule.service_filter endpoint)
    then false
    else true

abbrev pub is_dynamic : PortSpec → Bool
is_dynamic (dynamic k) = true
is_dynamic _ = false

-- `evaluate` behind its first test, on the rules that apply.
decide_allows : List FirewallRule → ReachabilityVerdict
decide_allows allows =
    if any (λ rule. is_dynamic rule.port_spec) allows
    then record { reachability = indeterminate; matched_rules = allows }
    else if is_empty allows
    then record { reachability = default_action; matched_rules = [] }
    else record { reachability = allowed; matched_rules = allows }

decide_applicable : List FirewallRule → ReachabilityVerdict
unfolding decide_allows
decide_applicable applicable = elim (find? (λ rule. rule.action ≟ block) applicable) [
  | some rule ↦ record { reachability = blocked; matched_rules = rule ∷ [] }
  | none ↦ decide_allows (filter (λ rule. rule.action ≟ allow) applicable)
]

-- `evaluate`. The profiles are accepted and not read, as in the source.
unfoldable pub evaluate :
    Bool → Endpoint → List FirewallRule → List ProfileState → ReachabilityVerdict
unfolding rule_applies decide_applicable
evaluate windows endpoint rules profiles =
    if endpoint.exposure ≟ loopback
    then record { reachability = local_only; matched_rules = [] }
    else decide_applicable (filter (λ rule. rule_applies windows rule endpoint) rules)
