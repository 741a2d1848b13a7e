-- ===== src/Drift/Appearance.antt =====
-- Which endpoints are reported as new or gone (crates/anne-de-breuil/src/domain/drift.rs).
use anne_de_breuil.Prelude.{
  All-In, In-filter, In-append_left, filter-In, In-append, ◌≤◌, ◌≡◌, refl, ap, subst, ◌↔◌, inl, inr,
  Bool, not, some, arith, In,
}
use anne_de_breuil.Drift.Kinds.{
  Reports, Present, IsComparison, missing_from-In, In-missing_from, later-Comparisons,
}
use anne_de_breuil.Drift.Lookup.{Absent, In-each, each-In}
use anne_de_breuil.Drift.{
  rules-eq, process_path-eq, Reachability-eq, EndpointKey, EndpointKey-eq, ephemeral_port_threshold,
  key_of, DriftEntry, entry_for, each, missing_from, all_entries, is_ephemeral_churn, diff,
  endpoint_appeared, endpoint_disappeared,
}
use anne_de_breuil.Endpoint.{Endpoint}
use anne_de_breuil.Names.{SignatureStatus-eq}
use anne_de_breuil.Snapshot.{ScanSnapshot}

module _ {Time : Type 0} (windows : Bool) (a b : ScanSnapshot Time) where
  appeared-In :
      (x : DriftEntry)
      → In x (all_entries windows a b)
      → x.kind ≡ endpoint_appeared
      → (e : Endpoint) × In e b.endpoints
        × (x ≡ entry_for endpoint_appeared e)
        × Absent (key_of e) a.endpoints
  unfolding all_entries
  appeared-In x m k =
      elim (In-append x (each (missing_from a.endpoints endpoint_appeared) b.endpoints) _ m) [
        | inl i ↦
            let (e, j, l) = each-In (missing_from a.endpoints endpoint_appeared) x b.endpoints i in
            let (eq, absent) = missing_from-In a.endpoints endpoint_appeared e x l in
            (e, j, eq, absent)
        | inr i ↦
            elim (In-append x (each (missing_from b.endpoints endpoint_disappeared) a.endpoints) _
              i) [
                | inl g ↦
                    let (e, _, l) =
                      each-In (missing_from b.endpoints endpoint_disappeared) x a.endpoints g in
                    cc (missing_from-In b.endpoints endpoint_disappeared e x l).0
                | inr g ↦ absurd (
                    subst IsComparison k (
                      All-In (λ (y : DriftEntry). IsComparison y.kind) x _
                        (later-Comparisons windows a b) g))
              ]
      ]

  Reports-appeared→ :
      (key : EndpointKey)
      → Reports endpoint_appeared key (diff windows a b).entries
      → Present key b.endpoints × Absent key a.endpoints × (key.port.get ≤ ephemeral_port_threshold)
  unfolding diff is_ephemeral_churn
  Reports-appeared→ key (x, m, k, h) =
      let (m', q) =
        filter-In (λ entry. not (is_ephemeral_churn entry)) x (all_entries windows a b) m in
      let (e, i, eq, absent) = appeared-In x m' k in
      let same : key_of e ≡ key = ground (arith, eq, h) in
      ((e, i, same), rw (← same) absent, ground arith)

  appears-In :
      (e : Endpoint)
      → In e b.endpoints
      → Absent (key_of e) a.endpoints
      → In (entry_for endpoint_appeared e) (all_entries windows a b)
  unfolding all_entries
  appears-In e m n =
      In-append_left _ (each (missing_from a.endpoints endpoint_appeared) b.endpoints) _ (
        In-each (missing_from a.endpoints endpoint_appeared) _ e b.endpoints m
          (In-missing_from a.endpoints endpoint_appeared e n))

  Reports-appeared← :
      (key : EndpointKey)
      → Present key b.endpoints
      → Absent key a.endpoints
      → key.port.get ≤ ephemeral_port_threshold
      → Reports endpoint_appeared key (diff windows a b).entries
  unfolding diff is_ephemeral_churn
  Reports-appeared← key (e, m, h) n p = (
    entry_for endpoint_appeared e,
    In-filter (λ entry. not (is_ephemeral_churn entry)) (entry_for endpoint_appeared e) _
        (appears-In e m (rw h n)) (ground arith),
    refl,
    ap some h,
  )

  -- The report of `diff` says that an endpoint appeared under a key exactly if the rescan has an
  -- endpoint with that key, the baseline has none, and the port is not above the ephemeral
  -- threshold.
  pub Reports-appeared_iff :
      (key : EndpointKey)
      → Reports endpoint_appeared key (diff windows a b).entries ↔ (
          Present key b.endpoints
          × Absent key a.endpoints
          × (key.port.get ≤ ephemeral_port_threshold))
  Reports-appeared_iff key = (Reports-appeared→ key, λ (h, n, p). Reports-appeared← key h n p)
