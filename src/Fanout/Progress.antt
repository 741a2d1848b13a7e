-- ===== src/Fanout/Progress.antt =====
-- Why a fan-out comes to an end
-- (crates/anne-de-breuil/src/application/fanout.rs).
use anne_de_breuil.Prelude.{
  ℕ, zero, suc, ◌+◌, ◌*◌, ◌≤◌, ◌≡◌, refl, ap, ◌⊎◌, inl, inr, List, [], ◌∷◌, ◌++◌, map, arith,
  length, All,
}
use anne_de_breuil.Snapshot.{HostId}
use anne_de_breuil.Fanout.{
  HostResult, Event, Phase, waiting, acquired, scanning, reported, returned, crashed, joined, Task,
  Fanout, unresolved, scan_one_host, in_phase, spawned, with_task, Step, acquire, start, report,
  release, panic, join, join_crashed, Run, stay, further,
}
use anne_de_breuil.Fanout.Counts.{total, total_middle}
use anne_de_breuil.Fanout.Permits.{busy, holds, spawned-permits}
use anne_de_breuil.Fanout.Outcomes.{AllJoined, total_joined}

module _ {StoreError : Type 0} where
  -- How many steps a task has ahead of it at most.
  unfoldable pub ahead : HostId → Phase StoreError → ℕ
  ahead h waiting = 5
  ahead h acquired = 4
  ahead h scanning = 3
  ahead h (reported r) = 2
  ahead h (returned r) = 1
  ahead h (crashed why) = 1
  ahead h joined = 0

  Step-ahead :
      (s t : Fanout StoreError) → Step s t → suc (total ahead t.tasks) ≤ total ahead s.tasks
  unfolding ahead
  Step-ahead s t (acquire b a h p ev rs) =
      omega (arith, total_middle ahead b h waiting a, total_middle ahead b h acquired a)
  Step-ahead s t (start b a h p ev rs) =
      omega (arith, total_middle ahead b h acquired a, total_middle ahead b h scanning a)
  Step-ahead s t (report b a h p ev rs budget) = omega (
    arith,
    total_middle ahead b h scanning a,
    total_middle ahead b h (reported (scan_one_host h budget)) a,
  )
  Step-ahead s t (release b a h p ev rs r) =
      omega (arith, total_middle ahead b h (reported r) a, total_middle ahead b h (returned r) a)
  Step-ahead s t (panic b a h p ev rs why) =
      omega (arith, total_middle ahead b h scanning a, total_middle ahead b h (crashed why) a)
  Step-ahead s t (join b a h p ev rs r) =
      omega (arith, total_middle ahead b h (returned r) a, total_middle ahead b h joined a)
  Step-ahead s t (join_crashed b a h p ev rs why) =
      omega (arith, total_middle ahead b h (crashed why) a, total_middle ahead b h joined a)

  -- How many steps a run has.
  unfoldable pub steps : (s t : Fanout StoreError) → Run s t → ℕ
  steps s t stay = 0
  steps s t (further {t = m} run step) = suc (steps s m run)

  Run-ahead :
      (s t : Fanout StoreError) (run : Run s t)
      → steps s t run + total ahead t.tasks ≤ total ahead s.tasks
  unfolding steps
  Run-ahead s t stay = omega arith
  Run-ahead s t (further {t = m} run step) = omega (arith, Run-ahead s m run, Step-ahead m t step)

  -- A phase that a task leaves by itself.
  abbrev Moves : Phase StoreError → Type 0
  Moves waiting = ⊥
  Moves acquired = Unit {0}
  Moves scanning = Unit {0}
  Moves (reported r) = Unit {0}
  Moves (returned r) = Unit {0}
  Moves (crashed why) = Unit {0}
  Moves joined = ⊥

  abbrev Stands : (Phase StoreError → Type 0) → List (Task StoreError) → Type 0
  Stands P l =
      (b : List (Task StoreError)) × (h : HostId) × (phase : Phase StoreError) × (a : List
        (Task StoreError))
      × (l ≡ (b ++ (in_phase h phase ∷ a)))
      × P phase

  Stands-behind :
      (P : Phase StoreError → Type 0) (t : Task StoreError) (l : List (Task StoreError))
      → Stands P l
      → Stands P (t ∷ l)
  Stands-behind P t l (b, h, phase, a, e, m) = (t ∷ b, h, phase, a, ap (◌∷◌ t) e, m)

  phase-cases : (phase : Phase StoreError) → Moves phase ⊎ ((phase ≡ waiting) ⊎ (phase ≡ joined))
  phase-cases waiting = inr (inl refl)
  phase-cases acquired = inl tt
  phase-cases scanning = inl tt
  phase-cases (reported r) = inl tt
  phase-cases (returned r) = inl tt
  phase-cases (crashed why) = inl tt
  phase-cases joined = inr (inr refl)

  quiet_holds :
      (h : HostId) (phase : Phase StoreError)
      → (phase ≡ waiting) ⊎ (phase ≡ joined)
      → holds h phase ≡ 0
  unfolding holds
  quiet_holds h phase (inl e) = rw e refl
  quiet_holds h phase (inr e) = rw e refl

  -- All are joined, or one moves by itself, or one waits and none holds a permit.
  tasks-cases :
      (l : List (Task StoreError))
      → All (λ t. t.phase ≡ joined) l
        ⊎ (Stands Moves l ⊎ (Stands (λ p. p ≡ waiting) l × (total holds l ≡ 0)))
  unfolding total holds
  tasks-cases [] = inl tt
  tasks-cases (t ∷ l) = elim (phase-cases t.phase) [
    | inl m ↦ inr (inl ([], t.host, t.phase, l, refl, m))
    | inr q ↦ elim (tasks-cases l) [
      | inr r ↦ elim r [
        | inl m ↦ inr (inl (Stands-behind Moves t l m))
        | inr w ↦ inr (
            inr (
              Stands-behind (λ p. p ≡ waiting) t l w.0,
              omega (arith, w.1, quiet_holds t.host t.phase q),
            ))
      ]
      | inl j ↦ elim q [
        | inl e ↦ inr (
            inr (
              ([], t.host, t.phase, l, refl, e),
              omega (arith, total_joined holds l (λ _. refl) j, quiet_holds t.host t.phase (inl e)),
            ))
        | inr e ↦ inl (e, j)
      ]
    ]
  ]

  Moves-Step :
      (b : List (Task StoreError)) (h : HostId) (phase : Phase StoreError)
      (a : List (Task StoreError)) (p : ℕ) (ev : List (Event StoreError))
      (rs : List (HostResult StoreError))
      → Moves phase
      → (t : Fanout StoreError) × Step (with_task b h phase a p ev rs) t
  Moves-Step b h waiting a p ev rs m = absurd m
  Moves-Step b h acquired a p ev rs m = (_, start b a h p ev rs)
  Moves-Step b h scanning a p ev rs m = (_, report b a h p ev rs unresolved)
  Moves-Step b h (reported r) a p ev rs m = (_, release b a h p ev rs r)
  Moves-Step b h (returned r) a p ev rs m = (_, join b a h p ev rs r)
  Moves-Step b h (crashed why) a p ev rs m = (_, join_crashed b a h p ev rs why)
  Moves-Step b h joined a p ev rs m = absurd m

  Stands-Step :
      (P : Phase StoreError → Type 0) (l : List (Task StoreError)) (p : ℕ)
      (ev : List (Event StoreError)) (rs : List (HostResult StoreError))
      → ((b : List (Task StoreError)) (h : HostId) (phase : Phase StoreError)
            (a : List (Task StoreError))
          → P phase
          → (t : Fanout StoreError) × Step (with_task b h phase a p ev rs) t)
      → Stands P l
      → (t : Fanout StoreError) × Step
          (record { tasks = l; permits = p; events = ev; results = rs })
          t
  Stands-Step P l p ev rs move (b, h, phase, a, e, m) = rw e (move b h phase a m)

  -- With a permit to be had, or none held by anybody, something moves unless all is done.
  state-Step :
      (l : List (Task StoreError)) (p : ℕ) (ev : List (Event StoreError))
      (rs : List (HostResult StoreError))
      → 1 ≤ total holds l + p
      → All (λ t. t.phase ≡ joined) l
        ⊎ ((t : Fanout StoreError) × Step
              (record { tasks = l; permits = p; events = ev; results = rs })
              t)
  state-Step l zero ev rs k = elim (tasks-cases l) [
    | inl j ↦ inl j
    | inr r ↦ elim r [
      | inl m ↦
          inr (
            Stands-Step Moves l zero ev rs (λ b h phase a q. Moves-Step b h phase a zero ev rs q) m)
      | inr w ↦ absurd (omega (arith, w.1, k))
    ]
  ]
  state-Step l (suc p) ev rs k = elim (tasks-cases l) [
    | inl j ↦ inl j
    | inr r ↦ elim r [
      | inl m ↦ inr (
          Stands-Step Moves l (suc p) ev rs
            (λ b h phase a q. Moves-Step b h phase a (suc p) ev rs q) m)
      | inr w ↦ inr (
          Stands-Step (λ z. z ≡ waiting) l (suc p) ev rs
            (λ b h phase a q. rw q (_, acquire b a h p ev rs)) w.0)
    ]
  ]

module _ (StoreError : Type 0) where
  total_spawned-ahead :
      (inventory : List HostId)
      → total {StoreError = StoreError} ahead (map (λ host. in_phase host waiting) inventory)
        ≡ 5 * length inventory
  unfolding total ahead
  total_spawned-ahead [] = refl
  total_spawned-ahead (h ∷ l) = omega (arith, total_spawned-ahead l)

-- However the tasks of a fan-out take turns, it never gets stuck: as long as not every task is
-- joined, some step is possible.
pub joined-or-Step :
    {StoreError : Type 0} (inventory : List HostId) (c : ℕ) (s : Fanout StoreError)
    → Run (spawned inventory c) s
    → AllJoined s ⊎ ((t : Fanout StoreError) × Step s t)
unfolding busy
joined-or-Step {StoreError} inventory c s run =
    state-Step s.tasks s.permits s.events s.results
      (omega (arith, spawned-permits StoreError inventory c s run))

-- No run of a fan-out has more than five steps for each host of the inventory.
pub steps_bounded :
    {StoreError : Type 0} (inventory : List HostId) (c : ℕ) (s : Fanout StoreError)
    (run : Run (spawned inventory c) s)
    → steps (spawned inventory c) s run ≤ 5 * length inventory
unfolding spawned
steps_bounded {StoreError} inventory c s run =
    omega (arith, Run-ahead (spawned inventory c) s run, total_spawned-ahead StoreError inventory)
