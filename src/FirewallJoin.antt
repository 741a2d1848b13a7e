-- ===== src/FirewallJoin.antt =====
-- The rules of Windows, joined to their filters:
-- crates/anne-de-breuil/src/adapters/windows_collector/firewall_join.rs.
pub mod Rows
use anne_de_breuil.Prelude.{
  ℕ, Bool, not, Option, none, some, List, [], ◌∷◌, map, ◌==◌, if◌then◌else◌, ◌>>=◌,
}
use anne_de_breuil.Text.{Text, codes, text_eq, eq_ignore_ascii_case, to_string}
use anne_de_breuil.NftWire.Rules.{RawRule}
use anne_de_breuil.FirewallMapping.{RawProfile}

pub record WmiFirewallRule : Type 0 where
  pub instance_id : Text
  pub display_name : Text
  pub direction : ℕ
  pub action : ℕ
  pub enabled : ℕ
  pub policy_store_source_type : ℕ

pub record WmiPortFilter : Type 0 where
  pub instance_id : Text
  pub protocol : Option Text
  pub local_port : Option Text

pub record WmiApplicationFilter : Type 0 where
  pub instance_id : Text
  pub program : Option Text

pub record WmiServiceFilter : Type 0 where
  pub instance_id : Text
  pub service : Option Text

pub record WmiFirewallProfile : Type 0 where
  pub name : Text
  pub enabled : ℕ
  pub default_inbound_action : ℕ
  pub default_outbound_action : ℕ

unfoldable pub direction_text : ℕ → Text
direction_text n =
    if n == 1 then codes "Inbound" else if n == 2 then codes "Outbound" else to_string n

unfoldable pub action_text : ℕ → Text
action_text n = if n == 1 then codes "Allow" else if n == 2 then codes "Block" else to_string n

unfoldable pub policy_store_text : ℕ → Text
policy_store_text n =
    if n == 0
    then codes "Local"
    else if n == 1
    then codes "GroupPolicy"
    else if n == 2
    then codes "Dynamic"
    else if n == 3
    then codes "Static"
    else to_string n

unfoldable pub none_if_any : Option Text → Option Text
none_if_any none = none
none_if_any (some v) = if not (eq_ignore_ascii_case v (codes "any")) then some v else none

-- The maps by instance id: a later row with the same id replaces an earlier one.
unfoldable pub by_instance : {A : Type 0} → (A → Text) → List A → Text → Option A
by_instance id_of [] id = none
by_instance id_of (a ∷ l) id = elim (by_instance id_of l id) [
  | none ↦ if text_eq (id_of a) id then some a else none
  | some b ↦ some b
]

unfoldable pub rule_from_wmi : WmiFirewallRule → Option WmiPortFilter → RawRule
unfolding direction_text action_text policy_store_text none_if_any
rule_from_wmi rule filter = record {
  rule_id = rule.instance_id;
  display_name = rule.display_name;
  direction = direction_text rule.direction;
  action = action_text rule.action;
  protocol = none_if_any (do f ← filter; f.protocol);
  local_port_spec = none_if_any (do f ← filter; f.local_port);
  program_filter = none;
  service_filter = none;
  enabled = not (rule.enabled == 0);
  policy_store = policy_store_text rule.policy_store_source_type;
}

unfoldable pub join_rules_to_filters : List WmiFirewallRule → List WmiPortFilter → List RawRule
unfolding rule_from_wmi by_instance
join_rules_to_filters rules filters =
    map
      (λ (rule : WmiFirewallRule).
        rule_from_wmi rule
          (by_instance (λ (f : WmiPortFilter). f.instance_id) filters rule.instance_id))
      rules

-- The last step of `assemble_rules`: the program and the service of a rule.
unfoldable pub with_filters : List WmiApplicationFilter → List WmiServiceFilter → RawRule → RawRule
unfolding by_instance
with_filters apps services rule = record rule {
  program_filter = (do
    f ← by_instance (λ (f : WmiApplicationFilter). f.instance_id) apps rule.rule_id
    f.program);
  service_filter = (do
    f ← by_instance (λ (f : WmiServiceFilter). f.instance_id) services rule.rule_id
    f.service);
}

unfoldable pub assemble_rules :
    List WmiFirewallRule
    → List WmiPortFilter
    → List WmiApplicationFilter
    → List WmiServiceFilter
    → List RawRule
unfolding join_rules_to_filters with_filters
assemble_rules rules port_filters apps services =
    map (with_filters apps services) (join_rules_to_filters rules port_filters)

unfoldable pub profiles_from_wmi : List WmiFirewallProfile → List RawProfile
unfolding action_text
profiles_from_wmi = map (λ (profile : WmiFirewallProfile). record {
  name = profile.name;
  enabled = not (profile.enabled == 0);
  default_inbound_action = action_text profile.default_inbound_action;
  default_outbound_action = action_text profile.default_outbound_action;
})
