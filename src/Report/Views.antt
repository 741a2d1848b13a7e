-- ===== src/Report/Views.antt =====
-- What a report's reader sees of firewall rules, verdicts and changes: the views of
-- crates/anne-de-breuil/src/domain/report_model.rs. Each mirrors a type of the domain.
use anne_de_breuil.Prelude.{Bool, Option, List, map}
use mathlib.Core.Option
use anne_de_breuil.Text.{Text}
use anne_de_breuil.Endpoint.{BindAddress}
use anne_de_breuil.Port.{Port}
use anne_de_breuil.Names.{ProcessPath, ServiceName}
use anne_de_breuil.Snapshot.{TargetStrategy}
use anne_de_breuil.Firewall.{RuleAction, Direction, FirewallProfileKind, FirewallRule, Protocol}
use anne_de_breuil.PortSpec.{display_label}
use anne_de_breuil.ProfilePorts.{AllowedPortEntry, ProfilePortSummary}
use anne_de_breuil.Reachability.{Reachability}
use anne_de_breuil.Drift.{Severity, EndpointKey, DriftKind, DriftEntry}

pub data Fidelity : Type 0 where
  authoritative inferred : Fidelity

-- `Fidelity::from_strategy`.
unfoldable pub from_strategy : TargetStrategy → Fidelity
from_strategy TargetStrategy.execute = authoritative
from_strategy TargetStrategy.local_only = authoritative
from_strategy TargetStrategy.probe = inferred

pub data ReachabilityView : Type 0 where
  local_only blocked allowed default_action indeterminate : ReachabilityView

unfoldable pub reachability_view : Reachability → ReachabilityView
reachability_view Reachability.local_only = local_only
reachability_view Reachability.blocked = blocked
reachability_view Reachability.allowed = allowed
reachability_view Reachability.default_action = default_action
reachability_view Reachability.indeterminate = indeterminate

pub data RuleActionView : Type 0 where
  allow block : RuleActionView

unfoldable pub rule_action_view : RuleAction → RuleActionView
rule_action_view RuleAction.allow = allow
rule_action_view RuleAction.block = block

pub data DirectionView : Type 0 where
  inbound outbound : DirectionView

unfoldable pub direction_view : Direction → DirectionView
direction_view Direction.inbound = inbound
direction_view Direction.outbound = outbound

pub data FirewallProfileKindView : Type 0 where
  domain private public : FirewallProfileKindView

unfoldable pub profile_kind_view : FirewallProfileKind → FirewallProfileKindView
profile_kind_view FirewallProfileKind.domain = domain
profile_kind_view FirewallProfileKind.private = private
profile_kind_view FirewallProfileKind.public = public

pub record FirewallRuleView : Type 0 where
  pub display_name : Text
  pub direction : DirectionView
  pub action : RuleActionView
  pub protocol : Protocol
  pub port_spec_label : Text
  pub program_filter : Option ProcessPath
  pub service_filter : Option ServiceName
  pub enabled : Bool

unfoldable pub firewall_rule_view : FirewallRule → FirewallRuleView
unfolding direction_view rule_action_view
firewall_rule_view rule = record {
  display_name = rule.display_name;
  direction = direction_view rule.direction;
  action = rule_action_view rule.action;
  protocol = rule.protocol;
  port_spec_label = display_label rule.port_spec;
  program_filter = rule.program_filter;
  service_filter = rule.service_filter;
  enabled = rule.enabled;
}

pub record AllowedPortEntryView : Type 0 where
  pub rule_display_name : Text
  pub port_label : Text

unfoldable pub allowed_port_entry_view : AllowedPortEntry → AllowedPortEntryView
allowed_port_entry_view entry = record {
  rule_display_name = entry.rule_display_name;
  port_label = entry.port_label;
}

pub record ProfilePortSummaryView : Type 0 where
  pub profile : FirewallProfileKindView
  pub enabled : Bool
  pub default_inbound_action : RuleActionView
  pub allowed : List AllowedPortEntryView

unfoldable pub profile_port_summary_view : ProfilePortSummary → ProfilePortSummaryView
unfolding profile_kind_view rule_action_view allowed_port_entry_view
profile_port_summary_view summary = record {
  profile = profile_kind_view summary.profile;
  enabled = summary.enabled;
  default_inbound_action = rule_action_view summary.default_inbound_action;
  allowed = map allowed_port_entry_view summary.allowed;
}

pub data SeverityView : Type 0 where
  low medium high critical : SeverityView

unfoldable pub severity_view : Severity → SeverityView
severity_view Severity.low = low
severity_view Severity.medium = medium
severity_view Severity.high = high
severity_view Severity.critical = critical

pub record EndpointKeyView : Type 0 where
  pub protocol : Protocol
  pub bind_address : BindAddress
  pub port : Port

unfoldable pub endpoint_key_view : EndpointKey → EndpointKeyView
endpoint_key_view key = record {
  protocol = key.protocol;
  bind_address = key.bind_address;
  port = key.port;
}

pub data DriftKindView : Type 0 where
  endpoint_appeared endpoint_disappeared : DriftKindView
  reachability_changed : ReachabilityView → ReachabilityView → DriftKindView
  process_changed signature_changed rule_set_changed : DriftKindView

unfoldable pub drift_kind_view : DriftKind → DriftKindView
unfolding reachability_view
drift_kind_view DriftKind.endpoint_appeared = endpoint_appeared
drift_kind_view DriftKind.endpoint_disappeared = endpoint_disappeared
drift_kind_view (DriftKind.reachability_changed before after) =
    reachability_changed (reachability_view before) (reachability_view after)
drift_kind_view DriftKind.process_changed = process_changed
drift_kind_view DriftKind.signature_changed = signature_changed
drift_kind_view DriftKind.rule_set_changed = rule_set_changed

pub record DriftEntryView : Type 0 where
  pub kind : DriftKindView
  pub endpoint_key : Option EndpointKeyView
  pub severity : SeverityView

unfoldable pub drift_entry_view : DriftEntry → DriftEntryView
unfolding drift_kind_view severity_view endpoint_key_view
drift_entry_view entry = record {
  kind = drift_kind_view entry.kind;
  endpoint_key = Option.map endpoint_key_view entry.endpoint_key;
  severity = severity_view entry.severity;
}
