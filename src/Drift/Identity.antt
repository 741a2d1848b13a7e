-- ===== src/Drift/Identity.antt =====
-- Process ids and command lines play no part in drift (crates/anne-de-breuil/src/domain/drift.rs).
use anne_de_breuil.Prelude.{
  ◌≡◌, refl, ap, inl, inr, Bool, Option, none, some, List, [], ◌∷◌, map, arith, Option-cases,
}
use mathlib.Core.Option
use anne_de_breuil.Drift.{
  DriftKind, EndpointKey, EndpointKey-eq, key_of, get, DriftEntry, each, missing_from,
  compare_endpoints, entries_between, changes_of, all_entries, rule_set_entries, diff,
  endpoint_appeared, endpoint_disappeared,
}
use anne_de_breuil.Endpoint.{Endpoint}
use anne_de_breuil.Names.{ProcessId, ProcessPath, ServiceName}
use anne_de_breuil.Firewall.{FirewallRule, ProfileState}
use mathlib.Core.Path.{fun_ext, ap₂}
use anne_de_breuil.Prelude.{ap}
use anne_de_breuil.Reachability.{
  Reachability, ReachabilityVerdict, evaluate, rule_applies, program_passes, service_passes,
}
use anne_de_breuil.Snapshot.{ScanSnapshot}
use anne_de_breuil.Text.{Text}

-- What a restart may change of an endpoint.
pub record Restart : Type 0 where
  pub process_id : Endpoint → Option ProcessId
  pub command_line : Endpoint → Option Text

abbrev pub restarted : Restart → Endpoint → Endpoint
restarted r e = record e { process_id = r.process_id e; command_line = r.command_line e }

abbrev pub restarted_scan : {Time : Type 0} → Restart → ScanSnapshot Time → ScanSnapshot Time
restarted_scan r s = record s { endpoints = map (restarted r) s.endpoints }

get-restarted :
    (r : Restart) (l : List Endpoint) (key : EndpointKey)
    → get (map (restarted r) l) key ≡ Option.map (restarted r) (get l key)
unfolding get
get-restarted r [] key = refl
get-restarted r (e ∷ l) key = ground (arith, get-restarted r l key)

missing_from-restarted :
    (r q : Restart) (l : List Endpoint) (kind : DriftKind) (e : Endpoint)
    → missing_from (map (restarted r) l) kind (restarted q e) ≡ missing_from l kind e
missing_from-restarted r q l kind e = ground (arith, get-restarted r l (key_of e))

each-map :
    (f g : Endpoint → List DriftEntry) (q : Restart) (l : List Endpoint)
    → ((e : Endpoint) → f (restarted q e) ≡ g e)
    → each f (map (restarted q) l) ≡ each g l
each-map f g q [] h = refl
each-map f g q (e ∷ l) h = rw (h e, each-map f g q l h)

module _ (windows : Bool) (q : Restart) (e : Endpoint) where
  program_passes-restarted :
      (filter : Option ProcessPath)
      → program_passes windows filter (restarted q e) ≡ program_passes windows filter e
  unfolding program_passes
  program_passes-restarted none = refl
  program_passes-restarted (some path) = refl

  service_passes-restarted :
      (filter : Option ServiceName)
      → service_passes filter (restarted q e) ≡ service_passes filter e
  unfolding service_passes
  service_passes-restarted none = refl
  service_passes-restarted (some name) = refl

  rule_applies-restarted :
      (rule : FirewallRule)
      → rule_applies windows rule (restarted q e) ≡ rule_applies windows rule e
  unfolding rule_applies
  rule_applies-restarted rule =
      rw
        (program_passes-restarted rule.program_filter, service_passes-restarted rule.service_filter)

  evaluate-restarted :
      (rules : List FirewallRule) (profiles : List ProfileState)
      → evaluate windows (restarted q e) rules profiles ≡ evaluate windows e rules profiles
  unfolding evaluate
  evaluate-restarted rules profiles = rw (fun_ext rule_applies-restarted)

module _ {Time : Type 0} (windows : Bool) (r q : Restart) (a b : ScanSnapshot Time) where
  compare_endpoints-restarted :
      (old e : Endpoint)
      → compare_endpoints windows
          (restarted_scan r a)
          (restarted_scan q b)
          (restarted r old)
          (restarted q e)
        ≡ compare_endpoints windows a b old e
  unfolding compare_endpoints
  compare_endpoints-restarted old e =
      ap₂ (λ before after. entries_between before after old e)
        (ap reachability (evaluate-restarted windows r old a.firewall_rules a.profiles))
        (ap reachability (evaluate-restarted windows q e b.firewall_rules b.profiles))
    where
      reachability : ReachabilityVerdict → Reachability
      reachability v = v.reachability

  changes_of-restarted :
      (e : Endpoint)
      → changes_of windows (restarted_scan r a) (restarted_scan q b) (restarted q e)
        ≡ changes_of windows a b e
  unfolding changes_of
  changes_of-restarted e = elim (Option-cases (get a.endpoints (key_of e))) [
    | inl h ↦ rw (get-restarted r a.endpoints (key_of e), h, changes_of)
    | inr (old, h) ↦
        rw (get-restarted r a.endpoints (key_of e), h, changes_of)
          (compare_endpoints-restarted old e)
  ]

  all_entries-restarted :
      all_entries windows (restarted_scan r a) (restarted_scan q b) ≡ all_entries windows a b
  unfolding all_entries rule_set_entries
  all_entries-restarted = rw (
    each-map _ (missing_from a.endpoints endpoint_appeared) q b.endpoints
        (missing_from-restarted r q a.endpoints endpoint_appeared),
    each-map _ (missing_from b.endpoints endpoint_disappeared) r a.endpoints
        (missing_from-restarted q r b.endpoints endpoint_disappeared),
    each-map _ (changes_of windows a b) q b.endpoints changes_of-restarted,
  )

  -- Whatever process ids and command lines the endpoints of the two scans are given, the report
  -- stays the same.
  pub diff-restarted : diff windows (restarted_scan r a) (restarted_scan q b) ≡ diff windows a b
  unfolding diff
  diff-restarted = rw all_entries-restarted
