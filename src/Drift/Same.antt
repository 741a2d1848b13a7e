-- ===== src/Drift/Same.antt =====
-- A scan against itself (crates/anne-de-breuil/src/domain/drift.rs).
use anne_de_breuil.Prelude.{
  In-append_left, In-append_right, In-filter, ne→≟, ◌≡◌, refl, sym, ◌≢◌, ◌++◌, ◌∷◌, List, inl, inr,
  Bool, not, some, [], arith, Option-cases, In, ≟_refl,
}
use anne_de_breuil.Drift.Lookup.{
  Absent, get-last, DistinctKeys, get_self, get→Absent, each_nil, In-each,
}
use anne_de_breuil.Drift.{
  DriftKind, key_of, get, entry_for, each, missing_from, compare_endpoints, changes_of,
  rule_set_entries, all_entries, is_ephemeral_churn, diff, endpoint_appeared, endpoint_disappeared,
  process_changed, process_path-eq, Reachability-eq, rules-eq,
}
use anne_de_breuil.Endpoint.{Endpoint}
use anne_de_breuil.Names.{SignatureStatus-eq}
use anne_de_breuil.Reachability.{evaluate}
use anne_de_breuil.Snapshot.{ScanSnapshot}

module _ {Time : Type 0} (windows : Bool) (s : ScanSnapshot Time) where
  missing_from_self :
      (kind : DriftKind) (e : Endpoint) → In e s.endpoints → missing_from s.endpoints kind e ≡ []
  missing_from_self kind e m = elim (Option-cases (get s.endpoints (key_of e))) [
    | inl n ↦ absurd (get→Absent (key_of e) s.endpoints n e m refl)
    | inr (x, h) ↦ ground (arith, h)
  ]

  compare_endpoints_self : (e : Endpoint) → compare_endpoints windows s s e e ≡ []
  unfolding compare_endpoints
  compare_endpoints_self e = rw (
    ≟_refl e.process_path,
    ≟_refl e.signature_status,
    ≟_refl (evaluate windows e s.firewall_rules s.profiles).reachability,
  )

  changes_of_self :
      (e : Endpoint) → DistinctKeys s.endpoints → In e s.endpoints → changes_of windows s s e ≡ []
  unfolding changes_of
  changes_of_self e d m = rw (get_self s.endpoints e d m, changes_of) (compare_endpoints_self e)

  rule_set_entries_self : rule_set_entries windows s s ≡ []
  unfolding rule_set_entries
  rule_set_entries_self = rw (≟_refl s.firewall_rules)

  all_entries_self : DistinctKeys s.endpoints → all_entries windows s s ≡ []
  unfolding all_entries
  all_entries_self d =
      rw
        (
          each_nil (missing_from s.endpoints endpoint_appeared) s.endpoints
              (missing_from_self endpoint_appeared),
          each_nil (missing_from s.endpoints endpoint_disappeared) s.endpoints
              (missing_from_self endpoint_disappeared),
          each_nil (changes_of windows s s) s.endpoints (λ e m. changes_of_self e d m),
        )
        rule_set_entries_self

  -- A scan in which no two endpoints share protocol, address and port does not differ from itself:
  -- the report has no entry and nothing was suppressed.
  pub diff_self :
      DistinctKeys s.endpoints
      → diff windows s s ≡ record { entries = []; suppressed_ephemeral = 0 }
  unfolding diff
  diff_self d = rw (all_entries_self d)

  process_entry :
      (e x : Endpoint)
      → get s.endpoints (key_of e) ≡ some x
      → x.process_path ≢ e.process_path
      → In (entry_for process_changed e) (changes_of windows s s e)
  unfolding changes_of compare_endpoints
  process_entry e x h ne = rw (h, changes_of, ne→≟ x.process_path e.process_path ne) (inl refl)

  -- Where an endpoint of a scan is followed by no other with its key, every endpoint of the scan
  -- that shares its protocol, address and port and runs another program makes the scan differ from
  -- itself: the report has an entry that says this endpoint's process changed.
  pub diff_self-spurious :
      (before : List Endpoint) (x : Endpoint) (after : List Endpoint) (e : Endpoint)
      → s.endpoints ≡ before ++ x ∷ after
      → Absent (key_of x) after
      → In e s.endpoints
      → key_of e ≡ key_of x
      → e.process_path ≢ x.process_path
      → In (entry_for process_changed e) (diff windows s s).entries
  unfolding diff all_entries
  diff_self-spurious before x after e split last m k ne =
      let found : get s.endpoints (key_of e) ≡ some x =
        rw (split, k) (get-last before x after last) in
      let entry = process_entry e x found (λ q. ne (sym q)) in
      In-filter (λ entry. not (is_ephemeral_churn entry)) (entry_for process_changed e) _
        (In-append_right _ (each (missing_from s.endpoints endpoint_appeared) s.endpoints) _ (
          In-append_right _ (each (missing_from s.endpoints endpoint_disappeared) s.endpoints) _ (
            In-append_left _ (each (changes_of windows s s) s.endpoints) _
              (In-each (changes_of windows s s) _ e s.endpoints m entry))))
        (unfold is_ephemeral_churn in refl)
