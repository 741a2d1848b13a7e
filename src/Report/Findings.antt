-- ===== src/Report/Findings.antt =====
-- The rollup of a report next to its sections (crates/anne-de-breuil/src/domain/report_model.rs).
use anne_de_breuil.Prelude.{
  ℕ, suc, ◌≡◌, refl, sym, ap, ◌∙◌, Bool, Option, List, [], ◌∷◌, map, arith, length, Eq, ◌≟◌,
}
use anne_de_breuil.Text.{Text}
use anne_de_breuil.Sort.{sort_by}
use anne_de_breuil.Sort.Contents.{length-sort_by}
use anne_de_breuil.Endpoint.{Exposure, Exposure-eq}
use anne_de_breuil.Names.{SignatureStatus-eq, unsigned}
use anne_de_breuil.Snapshot.{ScanSnapshot}
use anne_de_breuil.Reachability.{Reachability}
use anne_de_breuil.Redaction.{FindIter}
use anne_de_breuil.Drift.{DriftReport, Reachability-eq, Reachability-discrete}
use anne_de_breuil.Report.{
  EndpointView, HostSection, ReportModel, no_counts, no_exposures, no_verdicts, build_rollup,
  build_endpoint_view, build_host_section, section_leb, built,
}
use anne_de_breuil.Report.Views.{ReachabilityView, reachability_view}
use anne_de_breuil.Report.Sums.{
  sum, sum-sort_by, sum-map, bit, exposed, judged, verdict_on, snapshots_exposed, snapshots_judged,
  snapshots_unsigned,
}

unfoldable pub ReachabilityView-discrete : Discrete ReachabilityView
ReachabilityView-discrete = hlevel

instance abbrev pub ReachabilityView-eq : Eq ReachabilityView
ReachabilityView-eq = record { eq_dec = ReachabilityView-discrete }

-- The views mirror the verdicts one to one.
view_same : (a r : Reachability) → bit (reachability_view a ≟ reachability_view r) ≡ bit (a ≟ r)
unfolding reachability_view ReachabilityView-discrete Reachability-discrete
view_same Reachability.local_only Reachability.local_only = refl
view_same Reachability.local_only Reachability.blocked = refl
view_same Reachability.local_only Reachability.allowed = refl
view_same Reachability.local_only Reachability.default_action = refl
view_same Reachability.local_only Reachability.indeterminate = refl
view_same Reachability.blocked Reachability.local_only = refl
view_same Reachability.blocked Reachability.blocked = refl
view_same Reachability.blocked Reachability.allowed = refl
view_same Reachability.blocked Reachability.default_action = refl
view_same Reachability.blocked Reachability.indeterminate = refl
view_same Reachability.allowed Reachability.local_only = refl
view_same Reachability.allowed Reachability.blocked = refl
view_same Reachability.allowed Reachability.allowed = refl
view_same Reachability.allowed Reachability.default_action = refl
view_same Reachability.allowed Reachability.indeterminate = refl
view_same Reachability.default_action Reachability.local_only = refl
view_same Reachability.default_action Reachability.blocked = refl
view_same Reachability.default_action Reachability.allowed = refl
view_same Reachability.default_action Reachability.default_action = refl
view_same Reachability.default_action Reachability.indeterminate = refl
view_same Reachability.indeterminate Reachability.local_only = refl
view_same Reachability.indeterminate Reachability.blocked = refl
view_same Reachability.indeterminate Reachability.allowed = refl
view_same Reachability.indeterminate Reachability.default_action = refl
view_same Reachability.indeterminate Reachability.indeterminate = refl

-- How many endpoints of all the sections pass a test.
abbrev pub shown : {Time : Type 0} → (EndpointView → Bool) → List (HostSection Time) → ℕ
shown p hosts = sum (λ h. sum (λ v. bit (p v)) h.endpoints) hosts

sum_same : {A : Type 0} (f g : A → ℕ) (l : List A) → ((a : A) → f a ≡ g a) → sum f l ≡ sum g l
unfolding sum
sum_same f g [] h = refl
sum_same f g (x ∷ l) h = omega (arith, h x, sum_same f g l h)

module _ {Time : Type 0} (windows : Bool) (compile : Text → Option FindIter)
    (p : EndpointView → Bool) where
  -- The sections show what the snapshots hold.
  shown_snapshots :
      (snapshots : List (ScanSnapshot Time))
      → shown p (sort_by section_leb (map (build_host_section windows compile) snapshots))
        ≡ sum
            (λ s. sum (λ e. bit (p (build_endpoint_view windows compile s e))) s.endpoints)
            snapshots
  unfolding build_host_section
  shown_snapshots snapshots =
      sum-sort_by (λ (h : HostSection Time). sum (λ v. bit (p v)) h.endpoints) section_leb
        (map (build_host_section windows compile) snapshots)
      ∙ (sum-map (λ (h : HostSection Time). sum (λ v. bit (p v)) h.endpoints)
            (build_host_section windows compile) snapshots
          ∙ sum_same _ _ snapshots
              (λ s. sum-map (λ v. bit (p v)) (build_endpoint_view windows compile s) s.endpoints))

-- The rollup counts what the sections show: as many hosts, and of the endpoints as many of each
-- exposure, with each verdict, and of unsigned binaries.
abbrev pub Agrees : {Time : Type 0} → ReportModel Time → Type 0
Agrees m =
    (m.rollup.hosts_scanned ≡ length m.hosts)
    × ((x : Exposure)
        → exposed x m.rollup.endpoints_by_exposure ≡ shown (λ v. v.exposure ≟ x) m.hosts)
    × ((r : Reachability)
        → judged r m.rollup.endpoints_by_reachability
          ≡ shown (λ v. v.reachability ≟ reachability_view r) m.hosts)
    × (m.rollup.unsigned_binaries ≡ shown (λ v. v.signature_status ≟ unsigned) m.hosts)

pub length-map : {A B : Type 0} (f : A → B) (l : List A) → length (map f l) ≡ length l
length-map f [] = refl
length-map f (x ∷ l) = ap suc (length-map f l)

none_exposed : (x : Exposure) → exposed x no_exposures ≡ 0
none_exposed Exposure.loopback = refl
none_exposed Exposure.specific_interface = refl
none_exposed Exposure.all_interfaces = refl

none_judged : (r : Reachability) → judged r no_verdicts ≡ 0
none_judged Reachability.local_only = refl
none_judged Reachability.blocked = refl
none_judged Reachability.allowed = refl
none_judged Reachability.default_action = refl
none_judged Reachability.indeterminate = refl

module _ {Time : Type 0} (windows : Bool) (compile : Text → Option FindIter) where
  pub built-Agrees :
      (snapshots : List (ScanSnapshot Time)) (drift : Option DriftReport)
      → Agrees (built windows compile snapshots drift)
  unfolding built build_rollup build_endpoint_view
  built-Agrees snapshots drift = (
    sym (
        length-sort_by section_leb (map (build_host_section windows compile) snapshots)
        ∙ length-map (build_host_section windows compile) snapshots),
    (λ x.
        let counted = snapshots_exposed windows x Reachability.blocked snapshots no_counts in
        let seen = shown_snapshots windows compile (λ v. v.exposure ≟ x) snapshots in
        omega (arith, counted, seen, none_exposed x)),
    (λ r.
        let counted = snapshots_judged windows Exposure.loopback r snapshots no_counts in
        let seen =
          shown_snapshots windows compile (λ v. v.reachability ≟ reachability_view r) snapshots in
        let same =
          sum_same _ _ snapshots
            (λ s. sum_same _ _ s.endpoints (λ e. view_same (verdict_on windows s e) r)) in
        omega (arith, counted, seen, same, none_judged r)),
    (let counted =
          snapshots_unsigned windows Exposure.loopback Reachability.blocked snapshots no_counts in
        let seen = shown_snapshots windows compile (λ v. v.signature_status ≟ unsigned) snapshots in
        omega (arith, counted, seen)),
  )
