-- ===== src/Report/Sums.antt =====
-- Counts over the endpoints of a report (crates/anne-de-breuil/src/domain/report_model.rs).
use anne_de_breuil.Prelude.{
  if◌then◌else◌, ℕ, ◌+◌, ◌≡◌, refl, inl, inr, Bool, true, false, List, [], ◌∷◌, map, arith,
  Bool-cases, ◌≟◌,
}
use anne_de_breuil.Sort.{insert_by, sort_by}
use anne_de_breuil.Endpoint.{Endpoint, Exposure, Exposure-eq, Exposure-discrete}
use anne_de_breuil.Names.{unsigned, SignatureStatus-eq}
use anne_de_breuil.Reachability.{evaluate, Reachability}
use anne_de_breuil.Drift.{Reachability-eq, Reachability-discrete}
use anne_de_breuil.Report.{
  Counters, count_endpoint, count_endpoints, count_snapshots, ExposureCounts, ReachabilityCounts,
  count_exposure, count_reachability,
}
use anne_de_breuil.Snapshot.{ScanSnapshot}

module _ {A : Type 0} (f : A → ℕ) where
  -- The sum over a list.
  unfoldable pub sum : List A → ℕ
  sum [] = 0
  sum (x ∷ l) = f x + sum l

  sum-insert_by : (le : A → A → Bool) (x : A) (l : List A) → sum (insert_by le x l) ≡ f x + sum l
  unfolding insert_by sum
  sum-insert_by le x [] = refl
  sum-insert_by le x (y ∷ l) = elim (Bool-cases (le x y)) [
    | inl e ↦ rw e refl
    | inr e ↦ rw e (omega (arith, sum-insert_by le x l))
  ]

  pub sum-sort_by : (le : A → A → Bool) (l : List A) → sum (sort_by le l) ≡ sum l
  unfolding sort_by sum
  sum-sort_by le [] = refl
  sum-sort_by le (x ∷ l) = omega (arith, sum-insert_by le x (sort_by le l), sum-sort_by le l)

pub sum-map :
    {A B : Type 0} (f : B → ℕ) (g : A → B) (l : List A) → sum f (map g l) ≡ sum (λ a. f (g a)) l
unfolding sum
sum-map f g [] = refl
sum-map f g (x ∷ l) = omega (arith, sum-map f g l)

-- One if the test holds, else nothing.
abbrev pub bit : Bool → ℕ
bit true = 1
bit false = 0

-- The counter of an exposure, of a verdict.
abbrev pub exposed : Exposure → ExposureCounts → ℕ
exposed Exposure.loopback c = c.loopback
exposed Exposure.specific_interface c = c.specific_interface
exposed Exposure.all_interfaces c = c.all_interfaces

abbrev pub judged : Reachability → ReachabilityCounts → ℕ
judged Reachability.local_only c = c.local_only
judged Reachability.blocked c = c.blocked
judged Reachability.allowed c = c.allowed
judged Reachability.default_action c = c.default_action
judged Reachability.indeterminate c = c.indeterminate

exposed-count :
    (x e : Exposure) (c : ExposureCounts)
    → exposed x (count_exposure e c) ≡ bit (e ≟ x) + exposed x c
unfolding count_exposure Exposure-discrete
exposed-count Exposure.loopback Exposure.loopback c = omega arith
exposed-count Exposure.loopback Exposure.specific_interface c = omega arith
exposed-count Exposure.loopback Exposure.all_interfaces c = omega arith
exposed-count Exposure.specific_interface Exposure.loopback c = omega arith
exposed-count Exposure.specific_interface Exposure.specific_interface c = omega arith
exposed-count Exposure.specific_interface Exposure.all_interfaces c = omega arith
exposed-count Exposure.all_interfaces Exposure.loopback c = omega arith
exposed-count Exposure.all_interfaces Exposure.specific_interface c = omega arith
exposed-count Exposure.all_interfaces Exposure.all_interfaces c = omega arith

judged-count :
    (x e : Reachability) (c : ReachabilityCounts)
    → judged x (count_reachability e c) ≡ bit (e ≟ x) + judged x c
unfolding count_reachability Reachability-discrete
judged-count Reachability.local_only Reachability.local_only c = omega arith
judged-count Reachability.local_only Reachability.blocked c = omega arith
judged-count Reachability.local_only Reachability.allowed c = omega arith
judged-count Reachability.local_only Reachability.default_action c = omega arith
judged-count Reachability.local_only Reachability.indeterminate c = omega arith
judged-count Reachability.blocked Reachability.local_only c = omega arith
judged-count Reachability.blocked Reachability.blocked c = omega arith
judged-count Reachability.blocked Reachability.allowed c = omega arith
judged-count Reachability.blocked Reachability.default_action c = omega arith
judged-count Reachability.blocked Reachability.indeterminate c = omega arith
judged-count Reachability.allowed Reachability.local_only c = omega arith
judged-count Reachability.allowed Reachability.blocked c = omega arith
judged-count Reachability.allowed Reachability.allowed c = omega arith
judged-count Reachability.allowed Reachability.default_action c = omega arith
judged-count Reachability.allowed Reachability.indeterminate c = omega arith
judged-count Reachability.default_action Reachability.local_only c = omega arith
judged-count Reachability.default_action Reachability.blocked c = omega arith
judged-count Reachability.default_action Reachability.allowed c = omega arith
judged-count Reachability.default_action Reachability.default_action c = omega arith
judged-count Reachability.default_action Reachability.indeterminate c = omega arith
judged-count Reachability.indeterminate Reachability.local_only c = omega arith
judged-count Reachability.indeterminate Reachability.blocked c = omega arith
judged-count Reachability.indeterminate Reachability.allowed c = omega arith
judged-count Reachability.indeterminate Reachability.default_action c = omega arith
judged-count Reachability.indeterminate Reachability.indeterminate c = omega arith

-- The verdict on an endpoint under its own host's rules.
abbrev pub verdict_on : {Time : Type 0} → Bool → ScanSnapshot Time → Endpoint → Reachability
verdict_on windows s e = (evaluate windows e s.firewall_rules s.profiles).reachability

one_more : (b : Bool) (n : ℕ) → (if b then n + 1 else n) ≡ bit b + n
one_more true n = omega arith
one_more false n = omega arith

module _ {Time : Type 0} (windows : Bool) (x : Exposure) (r : Reachability) where
  -- What the inner loop adds to the counters.
  endpoints_exposed :
      (s : ScanSnapshot Time) (l : List Endpoint) (c : Counters)
      → exposed x (count_endpoints windows s l c).by_exposure
        ≡ sum (λ e. bit (e.exposure ≟ x)) l + exposed x c.by_exposure
  unfolding count_endpoints count_endpoint sum
  endpoints_exposed s [] c = omega arith
  endpoints_exposed s (e ∷ l) c = omega (
    arith,
    endpoints_exposed s l (count_endpoint windows s e c),
    exposed-count x e.exposure c.by_exposure,
  )

  endpoints_judged :
      (s : ScanSnapshot Time) (l : List Endpoint) (c : Counters)
      → judged r (count_endpoints windows s l c).by_reachability
        ≡ sum (λ e. bit (verdict_on windows s e ≟ r)) l + judged r c.by_reachability
  unfolding count_endpoints count_endpoint sum
  endpoints_judged s [] c = omega arith
  endpoints_judged s (e ∷ l) c = omega (
    arith,
    endpoints_judged s l (count_endpoint windows s e c),
    judged-count r (verdict_on windows s e) c.by_reachability,
  )

  endpoints_unsigned :
      (s : ScanSnapshot Time) (l : List Endpoint) (c : Counters)
      → (count_endpoints windows s l c).unsigned_binaries
        ≡ sum (λ e. bit (e.signature_status ≟ unsigned)) l + c.unsigned_binaries
  unfolding count_endpoints count_endpoint sum
  endpoints_unsigned s [] c = omega arith
  endpoints_unsigned s (e ∷ l) c = omega (
    arith,
    endpoints_unsigned s l (count_endpoint windows s e c),
    one_more (e.signature_status ≟ unsigned) c.unsigned_binaries,
  )

  -- What the outer loop adds.
  pub snapshots_exposed :
      (l : List (ScanSnapshot Time)) (c : Counters)
      → exposed x (count_snapshots windows l c).by_exposure
        ≡ sum (λ s. sum (λ e. bit (e.exposure ≟ x)) s.endpoints) l + exposed x c.by_exposure
  unfolding count_snapshots sum
  snapshots_exposed [] c = omega arith
  snapshots_exposed (s ∷ l) c = omega (
    arith,
    snapshots_exposed l (count_endpoints windows s s.endpoints c),
    endpoints_exposed s s.endpoints c,
  )

  pub snapshots_judged :
      (l : List (ScanSnapshot Time)) (c : Counters)
      → judged r (count_snapshots windows l c).by_reachability
        ≡ sum (λ s. sum (λ e. bit (verdict_on windows s e ≟ r)) s.endpoints) l
          + judged r c.by_reachability
  unfolding count_snapshots sum
  snapshots_judged [] c = omega arith
  snapshots_judged (s ∷ l) c = omega (
    arith,
    snapshots_judged l (count_endpoints windows s s.endpoints c),
    endpoints_judged s s.endpoints c,
  )

  pub snapshots_unsigned :
      (l : List (ScanSnapshot Time)) (c : Counters)
      → (count_snapshots windows l c).unsigned_binaries
        ≡ sum (λ s. sum (λ e. bit (e.signature_status ≟ unsigned)) s.endpoints) l
          + c.unsigned_binaries
  unfolding count_snapshots sum
  snapshots_unsigned [] c = omega arith
  snapshots_unsigned (s ∷ l) c = omega (
    arith,
    snapshots_unsigned l (count_endpoints windows s s.endpoints c),
    endpoints_unsigned s s.endpoints c,
  )
