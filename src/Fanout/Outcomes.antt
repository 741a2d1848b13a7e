-- ===== src/Fanout/Outcomes.antt =====
-- One result and one pair of reports for each host of a fan-out
-- (crates/anne-de-breuil/src/application/fanout.rs).
use anne_de_breuil.Prelude.{ℕ, ◌+◌, ◌≡◌, refl, ap, ◌∙◌, List, [], ◌∷◌, map, arith, All}
use anne_de_breuil.Snapshot.{HostId}
use anne_de_breuil.Fanout.{
  Phase, waiting, joined, Task, Fanout, in_phase, spawned, Run, stay, further,
}
use anne_de_breuil.Fanout.Counts.{total, is_host, tally, starts, finishes}
use anne_de_breuil.Fanout.Accounts.{
  host_of, owed, unstarted, unfinished, Step-results, Step-starts, Step-finishes,
}

-- Every task has been joined.
abbrev pub AllJoined : {StoreError : Type 0} → Fanout StoreError → Type 0
AllJoined s = All (λ t. t.phase ≡ joined) s.tasks

module _ {StoreError : Type 0} (k : HostId) where
  Run-results :
      (s t : Fanout StoreError)
      → Run s t
      → tally host_of k s.results + total (owed k) s.tasks
        ≡ tally host_of k t.results + total (owed k) t.tasks
  Run-results s t stay = refl
  Run-results s t (further {t = m} run step) = Run-results s m run ∙ Step-results k m t step

  Run-starts :
      (s t : Fanout StoreError)
      → Run s t
      → starts k s.events + total (unstarted k) s.tasks
        ≡ starts k t.events + total (unstarted k) t.tasks
  Run-starts s t stay = refl
  Run-starts s t (further {t = m} run step) = Run-starts s m run ∙ Step-starts k m t step

  Run-finishes :
      (s t : Fanout StoreError)
      → Run s t
      → finishes k s.events + total (unfinished k) s.tasks
        ≡ finishes k t.events + total (unfinished k) t.tasks
  Run-finishes s t stay = refl
  Run-finishes s t (further {t = m} run step) = Run-finishes s m run ∙ Step-finishes k m t step

module _ {StoreError : Type 0} (weight : HostId → Phase StoreError → ℕ) where
  -- Where joined tasks weigh nothing, nothing is left in the end.
  pub total_joined :
      (l : List (Task StoreError))
      → ((h : HostId) → weight h joined ≡ 0)
      → All (λ t. t.phase ≡ joined) l
      → total weight l ≡ 0
  unfolding total
  total_joined [] z j = refl
  total_joined (t ∷ l) z j =
      let e : weight t.host t.phase ≡ 0 = ap (weight t.host) j.0 ∙ z t.host in
      omega (arith, e, total_joined l z j.1)

  -- In the beginning, waiting tasks weigh as much as the inventory counts.
  total_spawned :
      (k : HostId) (inventory : List HostId)
      → ((h : HostId) → weight h waiting ≡ is_host k h)
      → total weight (map (λ host. in_phase host waiting) inventory) ≡ tally (λ h. h) k inventory
  unfolding total tally
  total_spawned k [] w = refl
  total_spawned k (h ∷ l) w = omega (arith, w h, total_spawned k l w)

-- However the tasks of a fan-out take turns: once all are joined, every host of the inventory has
-- as many results as it has places there, and as often it was reported as started and as finished.
pub joined_once :
    {StoreError : Type 0} (inventory : List HostId) (c : ℕ) (s : Fanout StoreError)
    → Run (spawned inventory c) s
    → AllJoined s
    → (k : HostId)
    → (tally host_of k s.results ≡ tally (λ h. h) k inventory)
      × (starts k s.events ≡ tally (λ h. h) k inventory)
      × (finishes k s.events ≡ tally (λ h. h) k inventory)
unfolding spawned owed unstarted unfinished tally starts finishes
joined_once {StoreError} inventory c s run j k =
    let first = spawned {StoreError = StoreError} inventory c in
    (
      omega (
        arith,
        Run-results k first s run,
        total_joined (owed k) s.tasks (λ _. refl) j,
        total_spawned {StoreError = StoreError} (owed k) k inventory (λ _. refl),
      ),
      omega (
        arith,
        Run-starts k first s run,
        total_joined (unstarted k) s.tasks (λ _. refl) j,
        total_spawned {StoreError = StoreError} (unstarted k) k inventory (λ _. refl),
      ),
      omega (
        arith,
        Run-finishes k first s run,
        total_joined (unfinished k) s.tasks (λ _. refl) j,
        total_spawned {StoreError = StoreError} (unfinished k) k inventory (λ _. refl),
      ),
    )
