-- ===== src/FirewallMapping.antt =====
-- The rules of a host as the domain has them:
-- crates/anne-de-breuil-cli/src/application/firewall_mapping.rs, and `RuleId::synthesize` of
-- crates/anne-de-breuil/src/domain/ids.rs. `parse_uuid` and `blake3` stand for the parser of UUIDs
-- and the hash.
pub mod Nftables
pub mod Verdict
use anne_de_breuil.Prelude.{ℕ, Bool, Option, none, some, List, [], ◌∷◌, ◌++◌, take}
use anne_de_breuil.Bytes.{Bytes, to_utf8, from_be_bytes}
use anne_de_breuil.Text.{Text}
use anne_de_breuil.Error.{DomainError, invalid_protocol, Result, ok, err, ◌>>=◌}
use anne_de_breuil.PortSpec.{PortSpec, any, from_str}
use anne_de_breuil.Names.{process_path_try_from, service_name_try_from}
use anne_de_breuil.Firewall.{
  RuleId, FirewallRule, ProfileState, Protocol, tcp, udp, protocol_from_str, direction_from_str,
  rule_action_from_str, policy_store_from_str, profile_kind_from_str,
}
use anne_de_breuil.NftWire.Rules.{RawRule}
use anne_de_breuil.Collect.{Collecting, failed, done, parse}

-- `map(f).transpose()`.
unfoldable pub transposed : {A B : Type 0} → (A → Result B) → Option A → Result (Option B)
transposed f none = ok none
transposed f (some a) = do b ← f a; ok (some b)

-- The port filter of a rule.
unfoldable pub port_spec_of : Option Text → Result PortSpec
port_spec_of none = ok any
port_spec_of (some spec) = from_str spec

-- The rules of one protocol filter, from the rule of each protocol.
unfoldable pub for_protocol :
    (Protocol → FirewallRule) → Result Protocol → Result (List FirewallRule)
for_protocol rule (ok protocol) = ok (rule protocol ∷ [])
for_protocol rule (err (invalid_protocol s)) = ok []
for_protocol rule (err other) = err other

unfoldable pub per_protocol : (Protocol → FirewallRule) → Option Text → Result (List FirewallRule)
unfolding for_protocol
per_protocol rule (some protocol_text) = for_protocol rule (protocol_from_str protocol_text)
per_protocol rule none = ok (rule tcp ∷ rule udp ∷ [])

-- `rules.extend(...)` in front of what the rest of the loop gives.
unfoldable pub extended :
    Result (List FirewallRule) → Collecting (List FirewallRule) → Collecting (List FirewallRule)
extended (err e) rest = failed (parse e)
extended (ok rules) (failed e) = failed e
extended (ok rules) (done rest) = done (rules ++ rest)

pub record RawProfile : Type 0 where
  pub name : Text
  pub enabled : Bool
  pub default_inbound_action : Text
  pub default_outbound_action : Text

unfoldable pub firewall_profile_from_raw : RawProfile → Result ProfileState
firewall_profile_from_raw raw = do
  profile ← profile_kind_from_str raw.name
  default_inbound_action ← rule_action_from_str raw.default_inbound_action
  default_outbound_action ← rule_action_from_str raw.default_outbound_action
  ok (record {
    profile = profile;
    enabled = raw.enabled;
    default_inbound_action = default_inbound_action;
    default_outbound_action = default_outbound_action;
  })

unfoldable pub pushed :
    Result ProfileState → Collecting (List ProfileState) → Collecting (List ProfileState)
pushed (err e) rest = failed (parse e)
pushed (ok profile) (failed e) = failed e
pushed (ok profile) (done rest) = done (profile ∷ rest)

unfoldable pub firewall_profiles_from_raw : List RawProfile → Collecting (List ProfileState)
unfolding firewall_profile_from_raw pushed
firewall_profiles_from_raw [] = done []
firewall_profiles_from_raw (raw ∷ l) =
    pushed (firewall_profile_from_raw raw) (firewall_profiles_from_raw l)

module _ (parse_uuid : Text → Option ℕ) (blake3 : Bytes → Bytes) where
  -- `RuleId::synthesize`.
  unfoldable pub synthesize : Text → RuleId
  synthesize seed = record { as_uuid = from_be_bytes (take 16 (blake3 (to_utf8 seed))) }

  unfoldable pub rule_id_from_raw : Text → RuleId
  unfolding synthesize
  rule_id_from_raw raw_rule_id = elim (parse_uuid raw_rule_id) [
    | none ↦ synthesize raw_rule_id
    | some uuid ↦ record { as_uuid = uuid }
  ]

  unfoldable pub firewall_rule_from_raw : RawRule → Result (List FirewallRule)
  unfolding rule_id_from_raw port_spec_of transposed per_protocol
  firewall_rule_from_raw raw = do
    direction ← direction_from_str raw.direction
    action ← rule_action_from_str raw.action
    port_spec ← port_spec_of raw.local_port_spec
    program_filter ← transposed process_path_try_from raw.program_filter
    service_filter ← transposed service_name_try_from raw.service_filter
    policy_store ← policy_store_from_str raw.policy_store
    per_protocol
        (λ protocol. record {
          rule_id = rule_id_from_raw raw.rule_id;
          display_name = raw.display_name;
          direction = direction;
          action = action;
          protocol = protocol;
          port_spec = port_spec;
          program_filter = program_filter;
          service_filter = service_filter;
          enabled = raw.enabled;
          policy_store = policy_store;
        })
        raw.protocol

  unfoldable pub firewall_rules_from_raw : List RawRule → Collecting (List FirewallRule)
  unfolding firewall_rule_from_raw extended
  firewall_rules_from_raw [] = done []
  firewall_rules_from_raw (raw ∷ l) =
      extended (firewall_rule_from_raw raw) (firewall_rules_from_raw l)
