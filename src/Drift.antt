-- ===== src/Drift.antt =====
-- crates/anne-de-breuil/src/domain/drift.rs: what changed between a baseline scan and a rescan.
pub mod Lookup
pub mod Same
pub mod Kinds
pub mod Appearance
pub mod Disappearance
pub mod Grades
pub mod Identity
use anne_de_breuil.Prelude.{
  ℕ, Bool, true, false, not, ◌&&◌, Option, none, some, List, [], ◌∷◌, ◌++◌, ltb, if◌then◌else◌,
  length, filter, Eq, ◌≟◌, ℕ_discrete,
}
use anne_de_breuil.Endpoint.{
  Endpoint, BindAddress, Exposure, loopback, specific_interface, all_interfaces,
}
use anne_de_breuil.Firewall.{FirewallRule, Protocol, FirewallRule-eq}
use anne_de_breuil.Names.{ProcessPath, SignatureStatus-eq}
use anne_de_breuil.Port.{Port}
use anne_de_breuil.Reachability.{Reachability, allowed, evaluate}
use anne_de_breuil.Snapshot.{ScanSnapshot}

-- `EPHEMERAL_PORT_THRESHOLD`.
abbrev pub ephemeral_port_threshold : ℕ
ephemeral_port_threshold = 49_152

-- What identifies an endpoint across scans; the owning process does not.
pub record EndpointKey : Type 0 where
  pub protocol : Protocol
  pub bind_address : BindAddress
  pub port : Port

-- `impl From<&Endpoint> for EndpointKey`.
abbrev pub key_of : Endpoint → EndpointKey
key_of e = record { protocol = e.protocol; bind_address = e.bind_address; port = e.port }

pub data DriftKind : Type 0 where
  endpoint_appeared endpoint_disappeared : DriftKind
  reachability_changed : Reachability → Reachability → DriftKind
  process_changed signature_changed rule_set_changed : DriftKind

pub data Severity : Type 0 where
  low medium high critical : Severity

pub record DriftEntry : Type 0 where
  pub kind : DriftKind
  pub endpoint_key : Option EndpointKey
  pub severity : Severity

pub record DriftReport : Type 0 where
  pub entries : List DriftEntry
  pub suppressed_ephemeral : ℕ

unfoldable pub EndpointKey-discrete : Discrete EndpointKey
EndpointKey-discrete = hlevel ℕ_discrete

instance abbrev pub EndpointKey-eq : Eq EndpointKey
EndpointKey-eq = record { eq_dec = EndpointKey-discrete }

unfoldable pub Reachability-discrete : Discrete Reachability
Reachability-discrete = hlevel

instance abbrev pub Reachability-eq : Eq Reachability
Reachability-eq = record { eq_dec = Reachability-discrete }

unfoldable pub process_path-discrete : Discrete (Option ProcessPath)
process_path-discrete = hlevel ℕ_discrete

instance abbrev pub process_path-eq : Eq (Option ProcessPath)
process_path-eq = record { eq_dec = process_path-discrete }

unfoldable pub rules-discrete : Discrete (List FirewallRule)
rules-discrete = hlevel ℕ_discrete

instance abbrev pub rules-eq : Eq (List FirewallRule)
rules-eq = record { eq_dec = rules-discrete }

-- By exposure, as `severity_for` grades a new endpoint and a newly allowed one.
abbrev exposed_severity : Exposure → Severity
exposed_severity all_interfaces = critical
exposed_severity specific_interface = high
exposed_severity loopback = low

-- As it grades a changed process or signature.
abbrev changed_severity : Exposure → Severity
changed_severity all_interfaces = high
changed_severity specific_interface = medium
changed_severity loopback = medium

unfoldable pub reachability_change_severity : Reachability → Reachability → Exposure → Severity
reachability_change_severity before after exposure =
    let newly_allowed = (after ≟ allowed) && not (before ≟ allowed) in
    let newly_blocked = (before ≟ allowed) && not (after ≟ allowed) in
    if newly_allowed then exposed_severity exposure else if newly_blocked then low else medium

unfoldable pub severity_for : DriftKind → Exposure → Severity
unfolding reachability_change_severity
severity_for endpoint_appeared exposure = exposed_severity exposure
severity_for endpoint_disappeared exposure = low
severity_for (reachability_changed before after) exposure =
    reachability_change_severity before after exposure
severity_for process_changed exposure = changed_severity exposure
severity_for signature_changed exposure = changed_severity exposure
severity_for rule_set_changed exposure = medium

-- The maps that `diff` collects: a later endpoint with the same key replaces an earlier one.
unfoldable pub get : List Endpoint → EndpointKey → Option Endpoint
get [] key = none
get (e ∷ l) key = elim (get l key) [
  | some found ↦ some found
  | none ↦ if key_of e ≟ key then some e else none
]

-- An entry about an endpoint.
abbrev pub entry_for : DriftKind → Endpoint → DriftEntry
entry_for kind e = record {
  kind = kind;
  endpoint_key = some (key_of e);
  severity = severity_for kind e.exposure;
}

-- The entries that each endpoint of a list adds, in order.
abbrev pub each : (Endpoint → List DriftEntry) → List Endpoint → List DriftEntry
each f [] = []
each f (e ∷ l) = f e ++ each f l

-- The first two loops of `diff`: endpoints whose key the other scan lacks.
abbrev pub missing_from : List Endpoint → DriftKind → Endpoint → List DriftEntry
missing_from other kind e = elim (get other (key_of e)) [
  | none ↦ entry_for kind e ∷ []
  | some _ ↦ []
]

-- An entry if the test holds.
abbrev pub entry_if : Bool → DriftKind → Endpoint → List DriftEntry
entry_if changed kind e = if changed then entry_for kind e ∷ [] else []

-- The verdict on an endpoint under a scan's own rules.
abbrev pub reachable : {Time : Type 0} → Bool → ScanSnapshot Time → Endpoint → Reachability
reachable windows s e = (evaluate windows e s.firewall_rules s.profiles).reachability

-- The three comparisons of two endpoints, given their verdicts.
unfoldable pub entries_between : Reachability → Reachability → Endpoint → Endpoint → List DriftEntry
entries_between before after old e =
    entry_if (not (old.process_path ≟ e.process_path)) process_changed e
    ++ (entry_if (not (old.signature_status ≟ e.signature_status)) signature_changed e
        ++ entry_if (not (before ≟ after)) (reachability_changed before after) e)

module _ {Time : Type 0} (windows : Bool) (baseline current : ScanSnapshot Time) where
  -- The body of the third loop, on an endpoint that both scans have.
  unfoldable pub compare_endpoints : Endpoint → Endpoint → List DriftEntry
  unfolding entries_between
  compare_endpoints old e =
      entries_between (reachable windows baseline old) (reachable windows current e) old e

  unfoldable pub changes_of : Endpoint → List DriftEntry
  unfolding compare_endpoints
  changes_of e = elim (get baseline.endpoints (key_of e)) [
    | none ↦ []
    | some old ↦ compare_endpoints old e
  ]

  unfoldable pub rule_set_entries : List DriftEntry
  rule_set_entries =
      if not (baseline.firewall_rules ≟ current.firewall_rules)
      then record {
        kind = rule_set_changed;
        endpoint_key = none;
        severity = severity_for rule_set_changed specific_interface;
      }
        ∷ []
      else []

  -- All entries, in the order in which `diff` pushes them.
  unfoldable pub all_entries : List DriftEntry
  unfolding changes_of rule_set_entries
  all_entries =
      each (missing_from baseline.endpoints endpoint_appeared) current.endpoints
      ++ (each (missing_from current.endpoints endpoint_disappeared) baseline.endpoints
          ++ (each changes_of current.endpoints ++ rule_set_entries))

abbrev appears_or_disappears : DriftKind → Bool
appears_or_disappears endpoint_appeared = true
appears_or_disappears endpoint_disappeared = true
appears_or_disappears _ = false

abbrev pub is_ephemeral : Option EndpointKey → Bool
is_ephemeral none = false
is_ephemeral (some key) = ltb ephemeral_port_threshold key.port.get

unfoldable pub is_ephemeral_churn : DriftEntry → Bool
is_ephemeral_churn entry = appears_or_disappears entry.kind && is_ephemeral entry.endpoint_key

-- `diff`: the churn of ephemeral ports is taken out of the entries and counted.
unfoldable pub diff : {Time : Type 0} → Bool → ScanSnapshot Time → ScanSnapshot Time → DriftReport
unfolding all_entries is_ephemeral_churn
diff windows baseline current =
    let entries = all_entries windows baseline current in
    record {
      entries = filter (λ entry. not (is_ephemeral_churn entry)) entries;
      suppressed_ephemeral = length (filter is_ephemeral_churn entries);
    }
