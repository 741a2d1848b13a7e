-- ===== src/Fanout/Permits.antt =====
-- The permits of a fan-out
-- (crates/anne-de-breuil/src/application/fanout.rs).
use anne_de_breuil.Prelude.{ℕ, ◌+◌, ◌≤◌, ◌≡◌, refl, ◌∙◌, List, [], ◌∷◌, arith}
use anne_de_breuil.Snapshot.{HostId}
use anne_de_breuil.Fanout.{
  Phase, waiting, acquired, scanning, reported, returned, crashed, joined, Fanout, scan_one_host,
  spawned, Step, acquire, start, report, release, panic, join, join_crashed, Run, stay, further,
}
use anne_de_breuil.Fanout.Counts.{total, total_middle}
use Prim.Native.Nat.{max}

module _ {StoreError : Type 0} where
  -- A task holds a permit from its acquisition until it ends.
  unfoldable pub holds : HostId → Phase StoreError → ℕ
  holds h waiting = 0
  holds h acquired = 1
  holds h scanning = 1
  holds h (reported r) = 1
  holds h (returned r) = 0
  holds h (crashed why) = 0
  holds h joined = 0

  unfoldable pub busy : Fanout StoreError → ℕ
  unfolding total holds
  busy s = total holds s.tasks

  Step-permits : (s t : Fanout StoreError) → Step s t → busy s + s.permits ≡ busy t + t.permits
  unfolding busy holds
  Step-permits s t (acquire b a h p ev rs) =
      omega (arith, total_middle holds b h waiting a, total_middle holds b h acquired a)
  Step-permits s t (start b a h p ev rs) =
      omega (arith, total_middle holds b h acquired a, total_middle holds b h scanning a)
  Step-permits s t (report b a h p ev rs budget) = omega (
    arith,
    total_middle holds b h scanning a,
    total_middle holds b h (reported (scan_one_host h budget)) a,
  )
  Step-permits s t (release b a h p ev rs r) =
      omega (arith, total_middle holds b h (reported r) a, total_middle holds b h (returned r) a)
  Step-permits s t (panic b a h p ev rs why) =
      omega (arith, total_middle holds b h scanning a, total_middle holds b h (crashed why) a)
  Step-permits s t (join b a h p ev rs r) =
      omega (arith, total_middle holds b h (returned r) a, total_middle holds b h joined a)
  Step-permits s t (join_crashed b a h p ev rs why) =
      omega (arith, total_middle holds b h (crashed why) a, total_middle holds b h joined a)

  pub Run-permits : (s t : Fanout StoreError) → Run s t → busy s + s.permits ≡ busy t + t.permits
  Run-permits s t stay = refl
  Run-permits s t (further {t = m} run step) = Run-permits s m run ∙ Step-permits m t step

module _ (StoreError : Type 0) where
  spawned-busy :
      (inventory : List HostId) (c : ℕ) → busy (spawned {StoreError = StoreError} inventory c) ≡ 0
  unfolding busy spawned total holds
  spawned-busy [] c = refl
  spawned-busy (h ∷ l) c = omega (arith, spawned-busy l c)

  pub spawned-permits :
      (inventory : List HostId) (c : ℕ) (s : Fanout StoreError)
      → Run (spawned inventory c) s
      → busy s + s.permits ≡ max c 1
  unfolding spawned
  spawned-permits inventory c s run =
      omega (arith, Run-permits (spawned inventory c) s run, spawned-busy inventory c)

-- However the tasks of a fan-out take turns, never more of them hold a permit than the concurrency,
-- or than one where that is 0.
pub busy_bounded :
    {StoreError : Type 0} (inventory : List HostId) (c : ℕ) (s : Fanout StoreError)
    → Run (spawned inventory c) s
    → busy s ≤ max c 1
busy_bounded {StoreError = StoreError} inventory c s run =
    omega (arith, spawned-permits StoreError inventory c s run)
