-- ===== src/Annotations/Clean.antt =====
-- When a report has no findings (crates/anne-de-breuil/src/domain/annotations.rs).
use anne_de_breuil.Prelude.{
  ◌&&◌, ◌==◌, ℕ, suc, ◌+◌, ◌≡◌, refl, sym, ap, ◌∙◌, subst, ◌↔◌, inl, inr, Bool, true, false, ◌&&◌,
  Option, List, [], ◌∷◌, map, arith, ◌==◌, length, In, ◌≟◌,
}
use anne_de_breuil.Text.{Text}
use anne_de_breuil.Endpoint.{Exposure-eq, all_interfaces}
use anne_de_breuil.Names.{SignatureStatus-eq, unsigned}
use anne_de_breuil.Snapshot.{ScanSnapshot}
use anne_de_breuil.Redaction.{FindIter}
use anne_de_breuil.Drift.{DriftReport, DriftEntry, Severity}
use anne_de_breuil.Report.{
  EndpointView, HostSection, Rollup, ReportModel, DriftSeverityCounts, no_changes, count_drift,
  count_severity, entries_of, build_rollup, built, build,
}
use anne_de_breuil.Report.Sums.{sum, bit, exposed}
use anne_de_breuil.Report.Findings.{shown, built-Agrees}
use anne_de_breuil.Report.Views.{drift_entry_view}
use anne_de_breuil.Annotations.{drift_total, has_no_findings}

module _ {A : Type 0} (f : A → ℕ) where
  sum-zero : (l : List A) → sum f l ≡ 0 → (x : A) → In x l → f x ≡ 0
  unfolding sum
  sum-zero [] h x m = absurd m
  sum-zero (y ∷ l) h x (inl m) = let e = ap f m in omega (arith, h, e)
  sum-zero (y ∷ l) h x (inr m) = sum-zero l (omega (arith, h)) x m

  zero-sum : (l : List A) → ((x : A) → In x l → f x ≡ 0) → sum f l ≡ 0
  unfolding sum
  zero-sum [] h = refl
  zero-sum (y ∷ l) h = omega (arith, h y (inl refl), zero-sum l (λ x m. h x (inr m)))

bit_iff : (b : Bool) → (bit b ≡ 0) ↔ (b ≡ false)
bit_iff true = ((λ h. absurd (omega (arith, h))), cc)
bit_iff false = ((λ _. refl), (λ _. refl))

-- None of the endpoints of the sections passes a test.
abbrev pub NoneShown : {Time : Type 0} → (EndpointView → Bool) → List (HostSection Time) → Type 0
NoneShown {Time} p hosts =
    (h : HostSection Time) (v : EndpointView) → In h hosts → In v h.endpoints → p v ≡ false

shown_iff-NoneShown :
    {Time : Type 0} (p : EndpointView → Bool) (hosts : List (HostSection Time))
    → (shown p hosts ≡ 0) ↔ NoneShown p hosts
shown_iff-NoneShown p hosts = (
  (λ e h v m n.
      (bit_iff (p v)).0 (sum-zero (λ w. bit (p w)) h.endpoints (sum-zero _ hosts e h m) v n)),
  (λ k. zero-sum _ hosts (λ h m. zero-sum _ h.endpoints (λ v n. (bit_iff (p v)).1 (k h v m n)))),
)

-- The four counts of severities together.
abbrev pub all_changes : DriftSeverityCounts → ℕ
all_changes c = c.low + c.medium + c.high + c.critical

count_one :
    (s : Severity) (c : DriftSeverityCounts)
    → all_changes (count_severity s c) ≡ suc (all_changes c)
unfolding count_severity
count_one Severity.low c = omega arith
count_one Severity.medium c = omega arith
count_one Severity.high c = omega arith
count_one Severity.critical c = omega arith

pub count_all :
    (l : List DriftEntry) (c : DriftSeverityCounts)
    → all_changes (count_drift l c) ≡ length l + all_changes c
unfolding count_drift
count_all [] c = omega arith
count_all (e ∷ l) c =
    omega (arith, count_all l (count_severity e.severity c), count_one e.severity c)

-- No section shows an endpoint on all interfaces nor one of an unsigned binary, and no change is
-- listed.
abbrev pub Clean : {Time : Type 0} → ReportModel Time → Type 0
Clean m =
    NoneShown (λ v. v.exposure ≟ all_interfaces) m.hosts
    × NoneShown (λ v. v.signature_status ≟ unsigned) m.hosts
    × (m.drift ≡ [])

three_zero : (a b c : ℕ) → ((a == 0 && b == 0 && c == 0) ≡ true) ↔ ((a ≡ 0) × (b ≡ 0) × (c ≡ 0))
three_zero a b c =
    ((λ h. (ground (arith, h), ground (arith, h), ground (arith, h))), (λ h. ground (arith, h)))

pub nil_length : {A : Type 0} (l : List A) → length l ≡ 0 → l ≡ []
nil_length [] h = refl
nil_length (x ∷ l) h = absurd (omega (arith, h))

no_findings_iff :
    (r : Rollup)
    → (has_no_findings r ≡ true) ↔ (
        (exposed all_interfaces r.endpoints_by_exposure ≡ 0)
        × (r.unsigned_binaries ≡ 0)
        × (all_changes r.drift_by_severity ≡ 0))
unfolding has_no_findings drift_total
no_findings_iff r =
    three_zero r.endpoints_by_exposure.all_interfaces r.unsigned_binaries
      (all_changes r.drift_by_severity)

map-nil : (l : List DriftEntry) → map drift_entry_view l ≡ [] → l ≡ []
map-nil [] h = refl
map-nil (x ∷ l) h = cc

-- The changes that are counted are those that are listed.
changes_iff :
    {Time : Type 0} (windows : Bool) (compile : Text → Option FindIter)
    (snapshots : List (ScanSnapshot Time)) (drift : Option DriftReport)
    → (all_changes (built windows compile snapshots drift).rollup.drift_by_severity ≡ 0)
      ↔ ((built windows compile snapshots drift).drift ≡ [])
unfolding built build_rollup
changes_iff windows compile snapshots drift =
    let counted = count_all (entries_of drift) no_changes in
    (
      (λ h. ap (map drift_entry_view) (nil_length (entries_of drift) (omega (arith, counted, h)))),
      (λ h.
          let n = map-nil (entries_of drift) h in let z = ap length n in omega (arith, counted, z)),
    )

module _ {Time : Type 0} (windows : Bool) (compile : Text → Option FindIter) where
  pub built-Clean_iff :
      (snapshots : List (ScanSnapshot Time)) (drift : Option DriftReport)
      → (has_no_findings (built windows compile snapshots drift).rollup ≡ true)
        ↔ Clean (built windows compile snapshots drift)
  built-Clean_iff snapshots drift =
      let m = built windows compile snapshots drift in
      let agrees = built-Agrees windows compile snapshots drift in
      let exposures = shown_iff-NoneShown (λ v. v.exposure ≟ all_interfaces) m.hosts in
      let signatures = shown_iff-NoneShown (λ v. v.signature_status ≟ unsigned) m.hosts in
      let changes = changes_iff windows compile snapshots drift in
      let zero = no_findings_iff m.rollup in
      (
        (λ h.
            let (a, b, c) = zero.0 h in
            (
              exposures.0 (sym (agrees.1 all_interfaces) ∙ a),
              signatures.0 (sym agrees.3 ∙ b),
              changes.0 c,
            )),
        (λ (a, b, c).
            zero.1
              (agrees.1 all_interfaces ∙ exposures.1 a, agrees.3 ∙ signatures.1 b, changes.1 c)),
      )

  -- The rollup of a report that `build` makes has no findings exactly if no
  -- section shows an endpoint on all interfaces nor one of an unsigned binary, and the report lists
  -- no change.
  pub has_no_findings_iff-Clean :
      (snapshots : List (ScanSnapshot Time)) (drift : Option DriftReport) (confirmed : Bool)
      (m : ReportModel Time)
      → build windows compile snapshots drift confirmed ≡ inr m
      → (has_no_findings m.rollup ≡ true) ↔ Clean m
  unfolding build
  has_no_findings_iff-Clean snapshots drift false m h = cc
  has_no_findings_iff-Clean snapshots drift true m h =
      let e : built windows compile snapshots drift ≡ m = cc in
      subst (λ (z : ReportModel Time). (has_no_findings z.rollup ≡ true) ↔ Clean z) e
        (built-Clean_iff snapshots drift)
