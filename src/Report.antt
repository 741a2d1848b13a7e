-- ===== src/Report.antt =====
-- The report model: crates/anne-de-breuil/src/domain/report_model.rs. A command line is the bytes of
-- its text here, as `redact` reads them; `compile` is the library's `Regex::new`.
pub mod Views
pub mod Sums
pub mod Findings
use anne_de_breuil.Prelude.{
  ℕ, zero, suc, ◌+◌, ◌-◌, ◌*◌, ◌/◌, ◌%◌, ◌^◌, ◌≤◌, ◌<◌, ◌≡◌, refl, sym, ap, ◌∙◌, subst, ◌≢◌, ◌↔◌,
  ◌⊎◌, inl, inr, Bool, true, false, not, ◌&&◌, ◌||◌, Option, none, some, List, [], ◌∷◌, ◌++◌, map,
  arith, ltb, leb, ◌==◌, if◌then◌else◌, ==_iff, ==_refl, Bool-cases, Option-cases, Bool-ext, length,
  take, drop, is_empty, all, filter, find?, any, length-append, In, All, Eq, ◌≟◌, ≟→eq, ≟_refl,
  ℕ_discrete,
}
use anne_de_breuil.Bytes.{Bytes, to_utf8}
use anne_de_breuil.Text.{Text}
use anne_de_breuil.Endpoint.{BindAddress, Endpoint, Exposure}
use anne_de_breuil.Port.{Port}
use anne_de_breuil.Names.{ProcessPath, ServiceName, SignatureStatus, SignatureStatus-eq, unsigned}
use anne_de_breuil.Snapshot.{TargetStrategy, ScanSnapshot, HostId, ScanId, key_leb}
use anne_de_breuil.Firewall.{Protocol}
use anne_de_breuil.ProfilePorts.{summarize_inbound_ports}
use anne_de_breuil.Reachability.{Reachability, evaluate}
use anne_de_breuil.Drift.{Severity, DriftEntry, DriftReport}
use anne_de_breuil.Redaction.{FindIter, Redacted, redact}
use anne_de_breuil.Sort.{sort_by}
use anne_de_breuil.Report.Views.{
  Fidelity, from_strategy, ReachabilityView, reachability_view, FirewallRuleView,
  firewall_rule_view, ProfilePortSummaryView, profile_port_summary_view, DriftEntryView,
  drift_entry_view,
}

pub data ReportError : Type 0 where
  redaction_confirmation_required : ReportError

pub record EndpointView : Type 0 where
  pub protocol : Protocol
  pub bind_address : BindAddress
  pub port : Port
  pub process_path : Option ProcessPath
  pub hosted_services : List ServiceName
  pub signature_status : SignatureStatus
  pub exposure : Exposure
  pub reachability : ReachabilityView
  pub matched_rules : List FirewallRuleView
  pub command_line : Option Bytes
  pub command_line_redactions : List Redacted

pub record HostSection (Time : Type 0) : Type 0 where
  pub host_id : HostId
  pub scan_id : ScanId
  pub collected_at : Time
  pub collector_version : Text
  pub strategy : TargetStrategy
  pub fidelity : Fidelity
  pub endpoints : List EndpointView
  pub profile_ports : List ProfilePortSummaryView

pub record ExposureCounts : Type 0 where
  pub loopback : ℕ
  pub specific_interface : ℕ
  pub all_interfaces : ℕ

pub record ReachabilityCounts : Type 0 where
  pub local_only : ℕ
  pub blocked : ℕ
  pub allowed : ℕ
  pub default_action : ℕ
  pub indeterminate : ℕ

pub record DriftSeverityCounts : Type 0 where
  pub low : ℕ
  pub medium : ℕ
  pub high : ℕ
  pub critical : ℕ

pub record Rollup : Type 0 where
  pub hosts_scanned : ℕ
  pub endpoints_by_exposure : ExposureCounts
  pub endpoints_by_reachability : ReachabilityCounts
  pub unsigned_binaries : ℕ
  pub assignment_mismatches : ℕ
  pub certificate_findings : ℕ
  pub drift_by_severity : DriftSeverityCounts

pub record ReportModel (Time : Type 0) : Type 0 where
  pub hosts : List (HostSection Time)
  pub drift : List DriftEntryView
  pub rollup : Rollup
  pub redaction_enabled : Bool

-- `match endpoint.exposure { … += 1 }`, and the same of a verdict and of a severity.
unfoldable pub count_exposure : Exposure → ExposureCounts → ExposureCounts
count_exposure Exposure.loopback c = record c { loopback = c.loopback + 1 }
count_exposure Exposure.specific_interface c = record c {
  specific_interface = c.specific_interface + 1;
}
count_exposure Exposure.all_interfaces c = record c { all_interfaces = c.all_interfaces + 1 }

unfoldable pub count_reachability : Reachability → ReachabilityCounts → ReachabilityCounts
count_reachability Reachability.local_only c = record c { local_only = c.local_only + 1 }
count_reachability Reachability.blocked c = record c { blocked = c.blocked + 1 }
count_reachability Reachability.allowed c = record c { allowed = c.allowed + 1 }
count_reachability Reachability.default_action c = record c {
  default_action = c.default_action + 1;
}
count_reachability Reachability.indeterminate c = record c { indeterminate = c.indeterminate + 1 }

unfoldable pub count_severity : Severity → DriftSeverityCounts → DriftSeverityCounts
count_severity Severity.low c = record c { low = c.low + 1 }
count_severity Severity.medium c = record c { medium = c.medium + 1 }
count_severity Severity.high c = record c { high = c.high + 1 }
count_severity Severity.critical c = record c { critical = c.critical + 1 }

-- The three counters of the loop over the endpoints.
pub record Counters : Type 0 where
  pub by_exposure : ExposureCounts
  pub by_reachability : ReachabilityCounts
  pub unsigned_binaries : ℕ

module _ {Time : Type 0} (windows : Bool) where
  -- The body of the inner loop.
  unfoldable pub count_endpoint : ScanSnapshot Time → Endpoint → Counters → Counters
  unfolding count_exposure count_reachability
  count_endpoint snapshot endpoint c = record {
    by_exposure = count_exposure endpoint.exposure c.by_exposure;
    by_reachability =
        count_reachability
          (evaluate windows endpoint snapshot.firewall_rules snapshot.profiles).reachability
          c.by_reachability;
    unsigned_binaries =
        if endpoint.signature_status ≟ unsigned
        then c.unsigned_binaries + 1
        else c.unsigned_binaries;
  }

  unfoldable pub count_endpoints : ScanSnapshot Time → List Endpoint → Counters → Counters
  unfolding count_endpoint
  count_endpoints snapshot [] c = c
  count_endpoints snapshot (e ∷ l) c = count_endpoints snapshot l (count_endpoint snapshot e c)

  unfoldable pub count_snapshots : List (ScanSnapshot Time) → Counters → Counters
  unfolding count_endpoints
  count_snapshots [] c = c
  count_snapshots (s ∷ l) c = count_snapshots l (count_endpoints s s.endpoints c)

unfoldable pub count_drift : List DriftEntry → DriftSeverityCounts → DriftSeverityCounts
unfolding count_severity
count_drift [] c = c
count_drift (e ∷ l) c = count_drift l (count_severity e.severity c)

-- The `Default`s of the counters.
abbrev pub no_exposures : ExposureCounts
no_exposures = record { loopback = 0; specific_interface = 0; all_interfaces = 0 }

abbrev pub no_verdicts : ReachabilityCounts
no_verdicts = record {
  local_only = 0;
  blocked = 0;
  allowed = 0;
  default_action = 0;
  indeterminate = 0;
}

abbrev pub no_changes : DriftSeverityCounts
no_changes = record { low = 0; medium = 0; high = 0; critical = 0 }

abbrev pub no_counts : Counters
no_counts = record {
  by_exposure = no_exposures;
  by_reachability = no_verdicts;
  unsigned_binaries = 0;
}

-- The entries of a report, if there is one.
abbrev pub entries_of : Option DriftReport → List DriftEntry
entries_of none = []
entries_of (some report) = report.entries

unfoldable pub build_rollup :
    {Time : Type 0} → Bool → List (ScanSnapshot Time) → Option DriftReport → Rollup
unfolding count_snapshots count_drift
build_rollup windows snapshots drift =
    let counters = count_snapshots windows snapshots no_counts in
    record {
      hosts_scanned = length snapshots;
      endpoints_by_exposure = counters.by_exposure;
      endpoints_by_reachability = counters.by_reachability;
      unsigned_binaries = counters.unsigned_binaries;
      assignment_mismatches = 0;
      certificate_findings = 0;
      drift_by_severity = count_drift (entries_of drift) no_changes;
    }

-- The redaction of a command line, if there is one.
unfoldable pub redacted_line : (Text → Option FindIter) → Option Text → Option Bytes × List Redacted
redacted_line compile none = (none, [])
redacted_line compile (some raw) = let out = redact compile (to_utf8 raw) in (some out.0, out.1)

-- The key that the sections are sorted by.
abbrev pub section_leb : {Time : Type 0} → HostSection Time → HostSection Time → Bool
section_leb a b =
    key_leb (a.host_id.as_uuid ∷ a.scan_id.as_uuid ∷ [])
      (b.host_id.as_uuid ∷ b.scan_id.as_uuid ∷ [])

module _ {Time : Type 0} (windows : Bool) (compile : Text → Option FindIter) where
  unfoldable pub build_endpoint_view : ScanSnapshot Time → Endpoint → EndpointView
  unfolding redacted_line
  build_endpoint_view snapshot endpoint =
      let verdict = evaluate windows endpoint snapshot.firewall_rules snapshot.profiles in
      let line = redacted_line compile endpoint.command_line in
      record {
        protocol = endpoint.protocol;
        bind_address = endpoint.bind_address;
        port = endpoint.port;
        process_path = endpoint.process_path;
        hosted_services = endpoint.hosted_services;
        signature_status = endpoint.signature_status;
        exposure = endpoint.exposure;
        reachability = reachability_view verdict.reachability;
        matched_rules = map firewall_rule_view verdict.matched_rules;
        command_line = line.0;
        command_line_redactions = line.1;
      }

  unfoldable pub build_host_section : ScanSnapshot Time → HostSection Time
  unfolding build_endpoint_view
  build_host_section snapshot = record {
    host_id = snapshot.host_id;
    scan_id = snapshot.scan_id;
    collected_at = snapshot.collected_at;
    collector_version = snapshot.collector_version;
    strategy = snapshot.strategy;
    fidelity = from_strategy snapshot.strategy;
    endpoints = map (build_endpoint_view snapshot) snapshot.endpoints;
    profile_ports =
        map profile_port_summary_view
          (summarize_inbound_ports snapshot.firewall_rules snapshot.profiles);
  }

  -- The model once redaction is confirmed.
  unfoldable pub built : List (ScanSnapshot Time) → Option DriftReport → ReportModel Time
  unfolding build_host_section build_rollup
  built snapshots drift = record {
    hosts = sort_by section_leb (map build_host_section snapshots);
    drift = map drift_entry_view (entries_of drift);
    rollup = build_rollup windows snapshots drift;
    redaction_enabled = true;
  }

  -- `ReportModel::build`.
  unfoldable pub build :
      List (ScanSnapshot Time) → Option DriftReport → Bool → ReportError ⊎ ReportModel Time
  unfolding built
  build snapshots drift no_redact_confirmed =
      if not no_redact_confirmed
      then inl redaction_confirmation_required
      else inr (built snapshots drift)
