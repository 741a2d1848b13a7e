-- ===== src/Fanout/Counts.antt =====
-- Sums over the tasks of a fan-out, and counts of a host in its lists
-- (crates/anne-de-breuil/src/application/fanout.rs).
use anne_de_breuil.Prelude.{ℕ, ◌+◌, ◌≡◌, refl, List, [], ◌∷◌, ◌++◌, arith, ◌==◌, if◌then◌else◌}
use anne_de_breuil.Snapshot.{HostId}
use anne_de_breuil.Fanout.{Event, host_started, host_finished, Phase, Task, in_phase}

module _ {StoreError : Type 0} (weight : HostId → Phase StoreError → ℕ) where
  -- The weights of all tasks together.
  unfoldable pub total : List (Task StoreError) → ℕ
  total [] = 0
  total (t ∷ l) = weight t.host t.phase + total l

  -- Wherever a task stands, its weight is one of the summands.
  pub total_middle :
      (b : List (Task StoreError)) (h : HostId) (phase : Phase StoreError)
      (a : List (Task StoreError))
      → total (b ++ (in_phase h phase ∷ a)) ≡ weight h phase + total (b ++ a)
  unfolding total
  total_middle [] h phase a = refl
  total_middle (t ∷ b) h phase a = omega (arith, total_middle b h phase a)

-- One if it is the host, else nothing.
unfoldable pub is_host : HostId → HostId → ℕ
is_host k h = if h.as_uuid == k.as_uuid then 1 else 0

-- How often a host stands in a list, by the host of each element.
unfoldable pub tally : {A : Type 0} → (A → HostId) → HostId → List A → ℕ
tally host k [] = 0
tally host k (x ∷ l) = is_host k (host x) + tally host k l

pub tally-last :
    {A : Type 0} (host : A → HostId) (k : HostId) (l : List A) (x : A)
    → tally host k (l ++ (x ∷ [])) ≡ is_host k (host x) + tally host k l
unfolding tally
tally-last host k [] x = refl
tally-last host k (y ∷ l) x = omega (arith, tally-last host k l x)

module _ {StoreError : Type 0} (k : HostId) where
  -- How often a host was reported as started, and as finished.
  unfoldable pub starts : List (Event StoreError) → ℕ
  starts [] = 0
  starts (host_started h ∷ l) = is_host k h + starts l
  starts (host_finished h outcome ∷ l) = starts l

  unfoldable pub finishes : List (Event StoreError) → ℕ
  finishes [] = 0
  finishes (host_started h ∷ l) = finishes l
  finishes (host_finished h outcome ∷ l) = is_host k h + finishes l

  pub starts_append : (l m : List (Event StoreError)) → starts (l ++ m) ≡ starts l + starts m
  unfolding starts
  starts_append [] m = omega arith
  starts_append (host_started h ∷ l) m = omega (arith, starts_append l m)
  starts_append (host_finished h o ∷ l) m = starts_append l m

  pub finishes_append :
      (l m : List (Event StoreError)) → finishes (l ++ m) ≡ finishes l + finishes m
  unfolding finishes
  finishes_append [] m = omega arith
  finishes_append (host_started h ∷ l) m = finishes_append l m
  finishes_append (host_finished h o ∷ l) m = omega (arith, finishes_append l m)
