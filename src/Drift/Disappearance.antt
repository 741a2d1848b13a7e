-- ===== src/Drift/Disappearance.antt =====
-- Endpoints that are gone (crates/anne-de-breuil/src/domain/drift.rs).
use anne_de_breuil.Drift.Appearance.{Reports-appeared_iff}
use anne_de_breuil.Prelude.{
  In-append_left, All-In, In-filter, In-append_right, filter-In, In-append, ◌≤◌, ◌≡◌, refl, ap,
  subst, ◌↔◌, inl, inr, Bool, not, some, arith, In,
}
use anne_de_breuil.Drift.Kinds.{
  Reports, Present, IsComparison, missing_from-In, In-missing_from, later-Comparisons,
}
use anne_de_breuil.Drift.Lookup.{Absent, In-each, each-In}
use anne_de_breuil.Drift.{
  rules-eq, process_path-eq, Reachability-eq, EndpointKey, EndpointKey-eq, ephemeral_port_threshold,
  key_of, DriftEntry, entry_for, each, missing_from, all_entries, is_ephemeral_churn, diff,
  endpoint_appeared, endpoint_disappeared,
}
use anne_de_breuil.Endpoint.{Endpoint}
use anne_de_breuil.Names.{SignatureStatus-eq}
use anne_de_breuil.Snapshot.{ScanSnapshot}

module _ {Time : Type 0} (windows : Bool) (a b : ScanSnapshot Time) where
  disappeared-In :
      (x : DriftEntry)
      → In x (all_entries windows a b)
      → x.kind ≡ endpoint_disappeared
      → (e : Endpoint) × In e a.endpoints
        × (x ≡ entry_for endpoint_disappeared e)
        × Absent (key_of e) b.endpoints
  unfolding all_entries
  disappeared-In x m k =
      elim (In-append x (each (missing_from a.endpoints endpoint_appeared) b.endpoints) _ m) [
        | inl i ↦
            let (e, _, l) = each-In (missing_from a.endpoints endpoint_appeared) x b.endpoints i in
            cc (missing_from-In a.endpoints endpoint_appeared e x l).0
        | inr i ↦
            elim (In-append x (each (missing_from b.endpoints endpoint_disappeared) a.endpoints) _
              i) [
                | inl g ↦
                    let (e, j, l) =
                      each-In (missing_from b.endpoints endpoint_disappeared) x a.endpoints g in
                    let (eq, absent) = missing_from-In b.endpoints endpoint_disappeared e x l in
                    (e, j, eq, absent)
                | inr g ↦ absurd (
                    subst IsComparison k (
                      All-In (λ (y : DriftEntry). IsComparison y.kind) x _
                        (later-Comparisons windows a b) g))
              ]
      ]

  Reports-disappeared→ :
      (key : EndpointKey)
      → Reports endpoint_disappeared key (diff windows a b).entries
      → Present key a.endpoints × Absent key b.endpoints × (key.port.get ≤ ephemeral_port_threshold)
  unfolding diff is_ephemeral_churn
  Reports-disappeared→ key (x, m, k, h) =
      let (m', q) =
        filter-In (λ entry. not (is_ephemeral_churn entry)) x (all_entries windows a b) m in
      let (e, i, eq, absent) = disappeared-In x m' k in
      let same : key_of e ≡ key = ground (arith, eq, h) in
      ((e, i, same), rw (← same) absent, ground arith)

  disappears-In :
      (e : Endpoint)
      → In e a.endpoints
      → Absent (key_of e) b.endpoints
      → In (entry_for endpoint_disappeared e) (all_entries windows a b)
  unfolding all_entries
  disappears-In e m n =
      In-append_right _ (each (missing_from a.endpoints endpoint_appeared) b.endpoints) _ (
        In-append_left _ (each (missing_from b.endpoints endpoint_disappeared) a.endpoints) _ (
          In-each (missing_from b.endpoints endpoint_disappeared) _ e a.endpoints m
            (In-missing_from b.endpoints endpoint_disappeared e n)))

  Reports-disappeared← :
      (key : EndpointKey)
      → Present key a.endpoints
      → Absent key b.endpoints
      → key.port.get ≤ ephemeral_port_threshold
      → Reports endpoint_disappeared key (diff windows a b).entries
  unfolding diff is_ephemeral_churn
  Reports-disappeared← key (e, m, h) n p = (
    entry_for endpoint_disappeared e,
    In-filter (λ entry. not (is_ephemeral_churn entry)) (entry_for endpoint_disappeared e) _
        (disappears-In e m (rw h n)) (ground arith),
    refl,
    ap some h,
  )

  Reports-disappeared_iff :
      (key : EndpointKey)
      → Reports endpoint_disappeared key (diff windows a b).entries ↔ (
          Present key a.endpoints
          × Absent key b.endpoints
          × (key.port.get ≤ ephemeral_port_threshold))
  Reports-disappeared_iff key =
      (Reports-disappeared→ key, λ (h, n, p). Reports-disappeared← key h n p)

module _ {Time : Type 0} (windows : Bool) (a b : ScanSnapshot Time) where
  -- An endpoint is reported as gone from one scan to another exactly if it is reported as new the
  -- other way round.
  pub diff_dual :
      (key : EndpointKey)
      → Reports endpoint_disappeared key (diff windows a b).entries
        ↔ Reports endpoint_appeared key (diff windows b a).entries
  diff_dual key = (
    λ h. (Reports-appeared_iff windows b a key).1 ((Reports-disappeared_iff windows a b key).0 h),
    λ h. (Reports-disappeared_iff windows a b key).1 ((Reports-appeared_iff windows b a key).0 h),
  )
