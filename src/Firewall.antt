-- ===== src/Firewall.antt =====
-- Firewall rules and profiles: crates/anne-de-breuil/src/domain/protocol.rs, firewall_rule.rs,
-- policy_store.rs, profile.rs and `RuleId` of ids.rs.
use anne_de_breuil.Prelude.{ℕ, Bool, ◌||◌, Option, if◌then◌else◌, Eq, ℕ_discrete}
use anne_de_breuil.Error.{
  invalid_protocol, invalid_rule_action, invalid_direction, unknown_policy_store,
  invalid_firewall_profile_kind, Result, ok, err,
}
use anne_de_breuil.Names.{ProcessPath, ServiceName}
use anne_de_breuil.PortSpec.{PortSpec}
use anne_de_breuil.Text.{Text, codes, trim, eq_ignore_ascii_case}

pub data Protocol : Type 0 where
  tcp udp : Protocol

unfoldable pub protocol_from_str : Text → Result Protocol
protocol_from_str s =
    let trimmed = trim s in
    if eq_ignore_ascii_case trimmed (codes "tcp")
    then ok tcp
    else if eq_ignore_ascii_case trimmed (codes "udp")
    then ok udp
    else err (invalid_protocol s)

-- `impl Display for Protocol`.
unfoldable pub protocol_display : Protocol → Text
protocol_display tcp = codes "TCP"
protocol_display udp = codes "UDP"

pub data RuleAction : Type 0 where
  allow block : RuleAction

unfoldable pub rule_action_from_str : Text → Result RuleAction
rule_action_from_str s =
    let trimmed = trim s in
    if eq_ignore_ascii_case trimmed (codes "allow")
    then ok allow
    else if eq_ignore_ascii_case trimmed (codes "block")
        || eq_ignore_ascii_case trimmed (codes "deny")
    then ok block
    else err (invalid_rule_action s)

pub data Direction : Type 0 where
  inbound outbound : Direction

unfoldable pub direction_from_str : Text → Result Direction
direction_from_str s =
    let trimmed = trim s in
    if eq_ignore_ascii_case trimmed (codes "inbound") || eq_ignore_ascii_case trimmed (codes "in")
    then ok inbound
    else if eq_ignore_ascii_case trimmed (codes "outbound")
        || eq_ignore_ascii_case trimmed (codes "out")
    then ok outbound
    else err (invalid_direction s)

pub data PolicyStore : Type 0 where
  local group_policy dynamic static : PolicyStore

unfoldable pub policy_store_from_str : Text → Result PolicyStore
policy_store_from_str s =
    let trimmed = trim s in
    if eq_ignore_ascii_case trimmed (codes "local")
      || eq_ignore_ascii_case trimmed (codes "nftables")
    then ok local
    else if eq_ignore_ascii_case trimmed (codes "grouppolicy")
        || eq_ignore_ascii_case trimmed (codes "gpo")
    then ok group_policy
    else if eq_ignore_ascii_case trimmed (codes "dynamic")
    then ok dynamic
    else if eq_ignore_ascii_case trimmed (codes "static")
        || eq_ignore_ascii_case trimmed (codes "persistentstore")
    then ok static
    else err (unknown_policy_store s)

-- A UUID, by the number that its 16 bytes write.
pub record RuleId : Type 0 where
  pub as_uuid : ℕ

pub record FirewallRule : Type 0 where
  pub rule_id : RuleId
  pub display_name : Text
  pub direction : Direction
  pub action : RuleAction
  pub protocol : Protocol
  pub port_spec : PortSpec
  pub program_filter : Option ProcessPath
  pub service_filter : Option ServiceName
  pub enabled : Bool
  pub policy_store : PolicyStore

pub data FirewallProfileKind : Type 0 where
  domain private public : FirewallProfileKind

unfoldable pub profile_kind_from_str : Text → Result FirewallProfileKind
profile_kind_from_str s =
    let trimmed = trim s in
    if eq_ignore_ascii_case trimmed (codes "domain")
    then ok domain
    else if eq_ignore_ascii_case trimmed (codes "private")
    then ok private
    else if eq_ignore_ascii_case trimmed (codes "public")
    then ok public
    else err (invalid_firewall_profile_kind s)

pub record ProfileState : Type 0 where
  pub profile : FirewallProfileKind
  pub enabled : Bool
  pub default_inbound_action : RuleAction
  pub default_outbound_action : RuleAction

unfoldable pub Protocol-discrete : Discrete Protocol
Protocol-discrete = hlevel

instance abbrev pub Protocol-eq : Eq Protocol
Protocol-eq = record { eq_dec = Protocol-discrete }

unfoldable pub RuleAction-discrete : Discrete RuleAction
RuleAction-discrete = hlevel

instance abbrev pub RuleAction-eq : Eq RuleAction
RuleAction-eq = record { eq_dec = RuleAction-discrete }

unfoldable pub Direction-discrete : Discrete Direction
Direction-discrete = hlevel

instance abbrev pub Direction-eq : Eq Direction
Direction-eq = record { eq_dec = Direction-discrete }

unfoldable pub FirewallRule-discrete : Discrete FirewallRule
FirewallRule-discrete = hlevel ℕ_discrete

instance abbrev pub FirewallRule-eq : Eq FirewallRule
FirewallRule-eq = record { eq_dec = FirewallRule-discrete }
