-- ===== src/Drift/Kinds.antt =====
-- The kinds of the entries that each loop of `diff` pushes
-- (crates/anne-de-breuil/src/domain/drift.rs).
use anne_de_breuil.Prelude.{
  All-append, ◌≡◌, inl, inr, Bool, true, false, not, some, List, [], ◌∷◌, ◌++◌, arith, Bool-cases,
  Option-cases, In, All, ◌≟◌,
}
use anne_de_breuil.Drift.Lookup.{Absent, get→Absent, Absent→get}
use anne_de_breuil.Drift.{
  rules-eq, process_path-eq, Reachability-eq, DriftKind, EndpointKey, EndpointKey-eq, key_of, get,
  DriftEntry, entry_for, entry_if, each, missing_from, compare_endpoints, reachable, changes_of,
  rule_set_entries, endpoint_appeared, endpoint_disappeared, process_changed, signature_changed,
  reachability_changed,
}
use anne_de_breuil.Endpoint.{Endpoint}
use anne_de_breuil.Names.{SignatureStatus-eq}
use anne_de_breuil.Snapshot.{ScanSnapshot}

-- The report has an entry of the kind about the key.
abbrev pub Reports : DriftKind → EndpointKey → List DriftEntry → Type 0
Reports kind key entries =
    (entry : DriftEntry) × In entry entries × (entry.kind ≡ kind) × (entry.endpoint_key ≡ some key)

abbrev pub Present : EndpointKey → List Endpoint → Type 0
Present key l = (e : Endpoint) × In e l × (key_of e ≡ key)

-- Neither kind of entry comes from the later loops.
abbrev pub IsComparison : DriftKind → Type 0
IsComparison endpoint_appeared = ⊥
IsComparison endpoint_disappeared = ⊥
IsComparison _ = Unit {0}

abbrev pub Comparisons : List DriftEntry → Type 0
Comparisons = All (λ (x : DriftEntry). IsComparison x.kind)

entry_if-Comparisons :
    (changed : Bool) (kind : DriftKind) (e : Endpoint)
    → IsComparison kind
    → Comparisons (entry_if changed kind e)
entry_if-Comparisons true kind e c = (c, tt)
entry_if-Comparisons false kind e c = tt

module _ {Time : Type 0} (windows : Bool) (a b : ScanSnapshot Time) where
  compare_endpoints-Comparisons :
      (old e : Endpoint) → Comparisons (compare_endpoints windows a b old e)
  unfolding compare_endpoints
  compare_endpoints-Comparisons old e =
      let before = reachable windows a old in
      let after = reachable windows b e in
      let process = not (old.process_path ≟ e.process_path) in
      let signature = not (old.signature_status ≟ e.signature_status) in
      let reach = entry_if (not (before ≟ after)) (reachability_changed before after) e in
      All-append _ (entry_if process process_changed e)
        (entry_if signature signature_changed e ++ reach)
        (entry_if-Comparisons process process_changed e tt)
        (All-append _ (entry_if signature signature_changed e) reach
          (entry_if-Comparisons signature signature_changed e tt)
          (entry_if-Comparisons (not (before ≟ after)) (reachability_changed before after) e tt))

  changes_of-Comparisons : (e : Endpoint) → Comparisons (changes_of windows a b e)
  unfolding changes_of
  changes_of-Comparisons e = elim (Option-cases (get a.endpoints (key_of e))) [
    | inl h ↦ rw (h, changes_of) tt
    | inr (old, h) ↦ rw (h, changes_of) (compare_endpoints-Comparisons old e)
  ]

  rule_set_entries-Comparisons : Comparisons (rule_set_entries windows a b)
  unfolding rule_set_entries
  rule_set_entries-Comparisons = elim (Bool-cases (a.firewall_rules ≟ b.firewall_rules)) [
    | inl h ↦ rw h tt
    | inr h ↦ rw h (tt, tt)
  ]

  each-Comparisons : (l : List Endpoint) → Comparisons (each (changes_of windows a b) l)
  each-Comparisons [] = tt
  each-Comparisons (e ∷ l) =
      All-append _ (changes_of windows a b e) _ (changes_of-Comparisons e) (each-Comparisons l)

  pub later-Comparisons :
      Comparisons (each (changes_of windows a b) b.endpoints ++ rule_set_entries windows a b)
  later-Comparisons =
      All-append _ (each (changes_of windows a b) b.endpoints) _ (each-Comparisons b.endpoints)
        rule_set_entries-Comparisons

pub missing_from-In :
    (other : List Endpoint) (kind : DriftKind) (e : Endpoint) (x : DriftEntry)
    → In x (missing_from other kind e)
    → (x ≡ entry_for kind e) × Absent (key_of e) other
missing_from-In other kind e x m = elim (Option-cases (get other (key_of e))) [
  | inl h ↦ (ground (arith, h), get→Absent (key_of e) other h)
  | inr (y, h) ↦ absurd (ground (arith, h))
]

pub In-missing_from :
    (other : List Endpoint) (kind : DriftKind) (e : Endpoint)
    → Absent (key_of e) other
    → In (entry_for kind e) (missing_from other kind e)
In-missing_from other kind e h = ground (arith, Absent→get (key_of e) other h)
