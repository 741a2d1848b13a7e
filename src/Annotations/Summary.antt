-- ===== src/Annotations/Summary.antt =====
-- What the summary of a report says (crates/anne-de-breuil/src/domain/annotations.rs).
use anne_de_breuil.Prelude.{
  ℕ, ◌≡◌, refl, sym, ap, ◌∙◌, subst, ◌↔◌, inl, inr, Bool, true, false, Option, List, [], ◌∷◌, ◌++◌,
  arith, length, drop, Bool-cases, ◌≟◌,
}
use anne_de_breuil.Text.{Text, codes, to_string}
use anne_de_breuil.Endpoint.{Exposure-eq, all_interfaces}
use anne_de_breuil.Names.{SignatureStatus-eq, unsigned}
use anne_de_breuil.Snapshot.{ScanSnapshot}
use anne_de_breuil.Redaction.{FindIter}
use anne_de_breuil.Drift.{DriftReport}
use anne_de_breuil.Report.{Rollup, ReportModel, no_changes, entries_of, build_rollup, built, build}
use anne_de_breuil.Report.Findings.{shown, built-Agrees, length-map}
use anne_de_breuil.Report.Views.{drift_entry_view}
use anne_de_breuil.Annotations.{drift_total, has_no_findings, executive_summary}
use anne_de_breuil.Annotations.Clean.{Clean, built-Clean_iff, count_all}

-- The two summaries, by the numbers that they name.
abbrev pub nothing_found : ℕ → Text
nothing_found hosts = codes "Scanned " ++ (to_string hosts ++ codes " hosts. No findings.")

abbrev pub found : ℕ → ℕ → ℕ → ℕ → Text
found hosts open_endpoints unsigned_binaries changes =
    codes "Scanned "
    ++ (to_string hosts
        ++ (codes " hosts and found "
            ++ (to_string open_endpoints
                ++ (codes " endpoints exposed on all interfaces, "
                    ++ (to_string unsigned_binaries
                        ++ (codes " unsigned binaries, and "
                            ++ (to_string changes
                                ++ codes " drift entries since the baseline.")))))))

append_same : (p a b : Text) → p ++ a ≡ p ++ b → a ≡ b
append_same [] a b e = e
append_same (c ∷ p) a b e = append_same p a b (ap (drop 1) e)

first_or_zero : Text → ℕ
first_or_zero [] = 0
first_or_zero (c ∷ s) = c

-- The two differ behind the hosts.
nothing_found-found : (hosts a b c : ℕ) → nothing_found hosts ≡ found hosts a b c → ⊥
unfolding first_or_zero
nothing_found-found hosts a b c e =
    let behind = append_same (to_string hosts) _ _ (append_same (codes "Scanned ") _ _ e) in
    let dot : 46 ≡ 32 = ap (λ s. first_or_zero (drop 6 s)) behind in absurd (omega (arith, dot))

-- The summary is the first of the two exactly if the report is clean; otherwise it names how many hosts
-- the report has, how many of the endpoints that it shows are on all interfaces and how many are of an
-- unsigned binary, and how many changes it lists.
abbrev pub Says : {Time : Type 0} → ReportModel Time → Type 0
Says m =
    ((executive_summary m.rollup ≡ nothing_found (length m.hosts)) ↔ Clean m)
    × (¬ Clean m
        → executive_summary m.rollup
          ≡ found (length m.hosts) (shown (λ v. v.exposure ≟ all_interfaces) m.hosts)
              (shown (λ v. v.signature_status ≟ unsigned) m.hosts) (length m.drift))

found_same : {h i a b u v c d : ℕ} → h ≡ i → a ≡ b → u ≡ v → c ≡ d → found h a u c ≡ found i b v d
found_same {i} {a} {b} {u} {v} {c} {d} p q r s =
    ap (λ n. found n a u c) p
    ∙ (ap (λ n. found i n u c) q ∙ (ap (λ n. found i b n c) r ∙ ap (λ n. found i b v n) s))

quiet :
    (r : Rollup) → has_no_findings r ≡ true → executive_summary r ≡ nothing_found r.hosts_scanned
unfolding executive_summary
quiet r h = rw h refl

loud :
    (r : Rollup)
    → has_no_findings r ≡ false
    → executive_summary r
      ≡ found r.hosts_scanned r.endpoints_by_exposure.all_interfaces r.unsigned_binaries
          (drift_total r)
unfolding executive_summary
loud r h = rw h refl

module _ {Time : Type 0} (windows : Bool) (compile : Text → Option FindIter) where
  drift_total-built :
      (snapshots : List (ScanSnapshot Time)) (drift : Option DriftReport)
      → drift_total (built windows compile snapshots drift).rollup
        ≡ length (built windows compile snapshots drift).drift
  unfolding drift_total built build_rollup
  drift_total-built snapshots drift =
      let counted = count_all (entries_of drift) no_changes in
      let listed = length-map drift_entry_view (entries_of drift) in omega (arith, counted, listed)

  built-Says :
      (snapshots : List (ScanSnapshot Time)) (drift : Option DriftReport)
      → Says (built windows compile snapshots drift)
  built-Says snapshots drift =
      let m = built windows compile snapshots drift in
      let agrees = built-Agrees windows compile snapshots drift in
      let clean = built-Clean_iff windows compile snapshots drift in
      let hosts = ap nothing_found agrees.0 in
      let total = drift_total-built snapshots drift in
      let numbers : found m.rollup.hosts_scanned m.rollup.endpoints_by_exposure.all_interfaces
            m.rollup.unsigned_binaries (drift_total m.rollup)
          ≡ found (length m.hosts) (shown (λ v. v.exposure ≟ all_interfaces) m.hosts)
              (shown (λ v. v.signature_status ≟ unsigned) m.hosts) (length m.drift) =
        found_same agrees.0 (agrees.1 all_interfaces) agrees.3 total in
      (
        (
          (λ e. elim (Bool-cases (has_no_findings m.rollup)) [
            | inl z ↦ clean.0 z
            | inr z ↦
                absurd
                  (nothing_found-found (length m.hosts) _ _ _ (sym e ∙ (loud m.rollup z ∙ numbers)))
          ]),
          (λ c. quiet m.rollup (clean.1 c) ∙ hosts),
        ),
        (λ n. elim (Bool-cases (has_no_findings m.rollup)) [
          | inl z ↦ absurd (n (clean.0 z))
          | inr z ↦ loud m.rollup z ∙ numbers
        ]),
      )

  -- The summary of a report that `build` makes says that there are no findings exactly if no
  -- section shows an endpoint on all interfaces nor one of an unsigned binary, and the report lists
  -- no change; otherwise it gives the numbers of those three. Either way it gives the number of
  -- hosts.
  pub executive_summary-Says :
      (snapshots : List (ScanSnapshot Time)) (drift : Option DriftReport) (confirmed : Bool)
      (m : ReportModel Time)
      → build windows compile snapshots drift confirmed ≡ inr m
      → Says m
  unfolding build
  executive_summary-Says snapshots drift false m h = cc
  executive_summary-Says snapshots drift true m h =
      let e : built windows compile snapshots drift ≡ m = cc in
      subst Says e (built-Says snapshots drift)
