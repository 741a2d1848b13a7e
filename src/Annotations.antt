-- ===== src/Annotations.antt =====
-- The annotation and the summary of a report: crates/anne-de-breuil/src/domain/annotations.rs. How
-- an address and a UUID are written is a library's: `show_address` and `show_host`.
pub mod Clean
pub mod Summary
use anne_de_breuil.Prelude.{
  ℕ, zero, suc, ◌+◌, ◌-◌, ◌*◌, ◌/◌, ◌%◌, ◌^◌, ◌≤◌, ◌<◌, ◌≡◌, refl, sym, ap, ◌∙◌, subst, ◌≢◌, ◌↔◌,
  ◌⊎◌, inl, inr, Bool, true, false, not, ◌&&◌, ◌||◌, Option, none, some, List, [], ◌∷◌, ◌++◌, map,
  arith, ltb, leb, ◌==◌, if◌then◌else◌, ==_iff, ==_refl, Bool-cases, Option-cases, Bool-ext, length,
  take, drop, is_empty, all, filter, find?, any, length-append, In, All, Eq, ◌≟◌, ≟→eq, ≟_refl,
  ℕ_discrete,
}
use anne_de_breuil.Text.{Text, codes, to_string, text_leb}
use anne_de_breuil.Endpoint.{BindAddress, Exposure, Exposure-eq, all_interfaces}
use anne_de_breuil.Names.{SignatureStatus-eq, unsigned}
use anne_de_breuil.Firewall.{protocol_display}
use anne_de_breuil.Snapshot.{HostId, key_leb}
use anne_de_breuil.Sort.{sort_by}
use anne_de_breuil.Report.{EndpointView, HostSection, Rollup, ReportModel}
use anne_de_breuil.Report.Views.{
  SeverityView, low, medium, high, critical, DriftKindView, endpoint_appeared, endpoint_disappeared,
  reachability_changed, process_changed, signature_changed, rule_set_changed, DriftEntryView,
  EndpointKeyView,
}

pub data DiagramAnchor : Type 0 where
  exposure_map drift_timeline : DiagramAnchor

pub record Annotation : Type 0 where
  pub headline : Text
  pub leader_target : DiagramAnchor

-- The derived order of severities.
abbrev pub severity_number : SeverityView → ℕ
severity_number low = 0
severity_number medium = 1
severity_number high = 2
severity_number critical = 3

-- The loop of `highest_severity_drift`: only a greater severity replaces the best so far.
better : Option DriftEntryView → DriftEntryView → Option DriftEntryView
better none entry = some entry
better (some current) entry =
    if ltb (severity_number current.severity) (severity_number entry.severity)
    then some entry
    else some current

highest_from : Option DriftEntryView → List DriftEntryView → Option DriftEntryView
unfolding better
highest_from best [] = best
highest_from best (entry ∷ l) = highest_from (better best entry) l

unfoldable pub highest_severity_drift : List DriftEntryView → Option DriftEntryView
unfolding highest_from
highest_severity_drift = highest_from none

-- Every endpoint with its host, host by host.
listed : {Time : Type 0} → List (HostSection Time) → List (HostId × EndpointView)
listed [] = []
listed (h ∷ l) = map (λ v. (h.host_id, v)) h.endpoints ++ listed l

abbrev pub is_exposed_unsigned : EndpointView → Bool
is_exposed_unsigned v = (v.signature_status ≟ unsigned) && (v.exposure ≟ all_interfaces)

-- `min_by_key`: the first of the least, by port and host.
listener_key : HostId × EndpointView → List ℕ
listener_key p = p.1.port.get ∷ p.0.as_uuid ∷ []

least_from : HostId × EndpointView → List (HostId × EndpointView) → HostId × EndpointView
unfolding listener_key
least_from best [] = best
least_from best (p ∷ l) =
    least_from (if key_leb (listener_key best) (listener_key p) then best else p) l

least : List (HostId × EndpointView) → Option (HostId × EndpointView)
unfolding least_from
least [] = none
least (p ∷ l) = some (least_from p l)

unfoldable pub most_exposed_unsigned_listener :
    {Time : Type 0} → ReportModel Time → Option (HostId × EndpointView)
unfolding least listed
most_exposed_unsigned_listener model =
    least (filter (λ (p : HostId × EndpointView). is_exposed_unsigned p.1) (listed model.hosts))

unfoldable pub drift_kind_headline : DriftKindView → Text
drift_kind_headline endpoint_appeared = codes "A new endpoint appeared"
drift_kind_headline endpoint_disappeared = codes "An endpoint disappeared"
drift_kind_headline (reachability_changed before after) = codes "Reachability changed"
drift_kind_headline process_changed = codes "The owning process changed"
drift_kind_headline signature_changed = codes "The binary signature changed"
drift_kind_headline rule_set_changed = codes "The firewall rule set changed"

module _ (show_address : BindAddress → Text) (show_host : HostId → Text) where
  where_ : Option EndpointKeyView → Text
  where_ none = codes "the rule set"
  where_ (some key) =
      protocol_display key.protocol
      ++ (codes " " ++ (show_address key.bind_address ++ (codes ":" ++ to_string key.port.get)))

  unfoldable pub annotation_for_drift : DriftEntryView → Annotation
  unfolding where_ drift_kind_headline
  annotation_for_drift entry = record {
    headline =
        drift_kind_headline entry.kind
        ++ (codes " at "
            ++ (where_ entry.endpoint_key
                ++ codes " is the most severe change since the baseline."));
    leader_target = drift_timeline;
  }

  -- `short_host_id`: the first eight characters.
  unfoldable pub short_host_id : HostId → Text
  short_host_id host_id = take 8 (show_host host_id)

  unfoldable pub annotation_for_exposed_listener : HostId → EndpointView → Annotation
  unfolding short_host_id
  annotation_for_exposed_listener host_id endpoint = record {
    headline =
        codes "Port "
        ++ (to_string endpoint.port.get
            ++ (codes " on host "
                ++ (short_host_id host_id
                    ++ codes " is unsigned and reachable on every interface.")));
    leader_target = exposure_map;
  }

  drift_candidates : Option DriftEntryView → List (SeverityView × Annotation)
  unfolding annotation_for_drift
  drift_candidates none = []
  drift_candidates (some entry) = (entry.severity, annotation_for_drift entry) ∷ []

  listener_candidates : Option (HostId × EndpointView) → List (SeverityView × Annotation)
  unfolding annotation_for_exposed_listener
  listener_candidates none = []
  listener_candidates (some p) = (critical, annotation_for_exposed_listener p.0 p.1) ∷ []

  -- The greater severity first, then the headline.
  candidate_leb : SeverityView × Annotation → SeverityView × Annotation → Bool
  candidate_leb a b =
      ltb (severity_number b.0) (severity_number a.0)
      || (severity_number a.0 == severity_number b.0 && text_leb a.1.headline b.1.headline)

  first_annotation : List (SeverityView × Annotation) → Option Annotation
  first_annotation [] = none
  first_annotation (c ∷ l) = some c.1

  unfoldable pub select_annotation : {Time : Type 0} → ReportModel Time → Option Annotation
  unfolding drift_candidates listener_candidates candidate_leb first_annotation
  select_annotation model = first_annotation (
      sort_by candidate_leb (
        drift_candidates (highest_severity_drift model.drift)
        ++ listener_candidates (most_exposed_unsigned_listener model)))

unfoldable pub drift_total : Rollup → ℕ
drift_total rollup =
    rollup.drift_by_severity.low + rollup.drift_by_severity.medium + rollup.drift_by_severity.high
    + rollup.drift_by_severity.critical

unfoldable pub has_no_findings : Rollup → Bool
unfolding drift_total
has_no_findings rollup =
    rollup.endpoints_by_exposure.all_interfaces == 0
    && rollup.unsigned_binaries == 0
    && drift_total rollup == 0

unfoldable pub executive_summary : Rollup → Text
unfolding has_no_findings
executive_summary rollup =
    if has_no_findings rollup
    then codes "Scanned " ++ (to_string rollup.hosts_scanned ++ codes " hosts. No findings.")
    else codes "Scanned "
      ++ (to_string rollup.hosts_scanned
          ++ (codes " hosts and found "
              ++ (to_string rollup.endpoints_by_exposure.all_interfaces
                  ++ (codes " endpoints exposed on all interfaces, "
                      ++ (to_string rollup.unsigned_binaries
                          ++ (codes " unsigned binaries, and "
                              ++ (to_string (drift_total rollup)
                                  ++ codes " drift entries since the baseline.")))))))
