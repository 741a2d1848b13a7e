-- ===== src/Fanout.antt =====
-- `run_fanout` and `scan_one_host` of crates/anne-de-breuil/src/application/fanout.rs, as steps of
-- the tasks. The runtime chooses the order of the steps; a task holds one permit of the semaphore from
-- its acquisition until it ends. The semaphore is never closed, so that branch has no step. A panic
-- is one of the scanner's or the store's, in the middle of a scan.
pub mod Counts
pub mod Permits
pub mod Accounts
pub mod Outcomes
pub mod Progress
use anne_de_breuil.Prelude.{
  ℕ, zero, suc, ◌+◌, ◌-◌, ◌*◌, ◌/◌, ◌%◌, ◌^◌, ◌≤◌, ◌<◌, ◌≡◌, refl, sym, ap, ◌∙◌, subst, ◌≢◌, ◌↔◌,
  ◌⊎◌, inl, inr, Bool, true, false, not, ◌&&◌, ◌||◌, Option, none, some, List, [], ◌∷◌, ◌++◌, map,
  arith, ltb, leb, ◌==◌, if◌then◌else◌, ==_iff, ==_refl, Bool-cases, Option-cases, Bool-ext, length,
  take, drop, is_empty, all, filter, find?, any, length-append, In, All, Eq, ◌≟◌, ≟→eq, ≟_refl,
  ℕ_discrete,
}
use Prim.Native.Nat.{max}
use anne_de_breuil.Text.{Text}
use anne_de_breuil.Snapshot.{ScanId, HostId, TargetStrategy, probe}
use anne_de_breuil.Retry.{
  HostError, timeout, retryable, fatal, panicked, store, Outcome, scanned, failed,
}

module _ (StoreError : Type 0) where
  pub data HostOutcome : Type 0 where
    succeeded : ScanId → HostOutcome
    host_failed : HostError StoreError → HostOutcome
    timed_out : HostOutcome

  pub record HostResult : Type 0 where
    pub host_id : HostId
    pub strategy_used : TargetStrategy
    pub outcome : HostOutcome

  -- What the progress reporter is told.
  pub data Event : Type 0 where
    host_started : HostId → Event
    host_finished : HostId → HostOutcome → Event

  -- Where a task is: before the semaphore, with a permit, in the scan, behind its last report,
  -- ended one way or the other, and joined.
  pub data Phase : Type 0 where
    waiting acquired scanning : Phase
    reported returned : HostResult → Phase
    crashed : Text → Phase
    joined : Phase

  pub record Task : Type 0 where
    pub host : HostId
    pub phase : Phase

  pub record Fanout : Type 0 where
    pub tasks : List Task
    pub permits : ℕ
    pub events : List Event
    pub results : List HostResult

  -- How far the budget of a host got within the timeout.
  pub data Budget : Type 0 where
    unresolved : Budget
    resolved : TargetStrategy → Option (Outcome StoreError) → Budget

module _ {StoreError : Type 0} where
  -- `attempt_scan`: what the scanner gives, and what the store makes of a snapshot.
  unfoldable pub attempt_scan :
      {Snapshot : Type 0}
      → HostError StoreError ⊎ Snapshot
      → (Snapshot → StoreError ⊎ ScanId)
      → Outcome StoreError
  attempt_scan (inl e) put = failed e
  attempt_scan (inr snapshot) put = elim (put snapshot) [
    | inl e ↦ failed (store e)
    | inr id ↦ scanned id
  ]

  -- The outcome of the budget, or nothing where the timeout came first.
  unfoldable pub outcome_of : Option (Outcome StoreError) → HostOutcome StoreError
  outcome_of none = timed_out
  outcome_of (some (scanned id)) = succeeded id
  outcome_of (some (failed timeout)) = timed_out
  outcome_of (some (failed (retryable reason))) = host_failed (retryable reason)
  outcome_of (some (failed (fatal reason))) = host_failed (fatal reason)
  outcome_of (some (failed (panicked reason))) = host_failed (panicked reason)
  outcome_of (some (failed (store e))) = host_failed (store e)

  -- The result of `scan_one_host`: without a resolved strategy, that of a probe.
  unfoldable pub scan_one_host : HostId → Budget StoreError → HostResult StoreError
  unfolding outcome_of
  scan_one_host host unresolved = record {
    host_id = host;
    strategy_used = probe;
    outcome = outcome_of none;
  }
  scan_one_host host (resolved strategy ended) = record {
    host_id = host;
    strategy_used = strategy;
    outcome = outcome_of ended;
  }

  -- The result that the collecting loop writes for a task that panicked.
  unfoldable pub panic_result : HostId → Text → HostResult StoreError
  panic_result host why = record {
    host_id = host;
    strategy_used = probe;
    outcome = host_failed (panicked why);
  }

  abbrev pub in_phase : HostId → Phase StoreError → Task StoreError
  in_phase host phase = record { host = host; phase = phase }

  -- Every task waits, and there are as many permits as the concurrency, but at least one.
  unfoldable pub spawned : List HostId → ℕ → Fanout StoreError
  spawned inventory concurrency = record {
    tasks = map (λ host. in_phase host waiting) inventory;
    permits = max concurrency 1;
    events = [];
    results = [];
  }

  -- One task among the others.
  abbrev pub with_task :
      List (Task StoreError)
      → HostId
      → Phase StoreError
      → List (Task StoreError)
      → ℕ
      → List (Event StoreError)
      → List (HostResult StoreError)
      → Fanout StoreError
  with_task before host phase after permits events results = record {
    tasks = before ++ (in_phase host phase ∷ after);
    permits = permits;
    events = events;
    results = results;
  }

  -- A step of one task, the others between `b` and `a` unmoved.
  pub data Step : Fanout StoreError → Fanout StoreError → Type 0 where
    acquire :
        (b a : List (Task StoreError)) (h : HostId) (p : ℕ) (ev : List (Event StoreError))
        (rs : List (HostResult StoreError))
        → Step (with_task b h waiting a (suc p) ev rs) (with_task b h acquired a p ev rs)
    start :
        (b a : List (Task StoreError)) (h : HostId) (p : ℕ) (ev : List (Event StoreError))
        (rs : List (HostResult StoreError))
        → Step
            (with_task b h acquired a p ev rs)
            (with_task b h scanning a p (ev ++ (host_started h ∷ [])) rs)
    report :
        (b a : List (Task StoreError)) (h : HostId) (p : ℕ) (ev : List (Event StoreError))
        (rs : List (HostResult StoreError)) (budget : Budget StoreError)
        → Step (with_task b h scanning a p ev rs) (
            with_task b h
              (reported (scan_one_host h budget))
              a
              p
              (ev ++ (host_finished h (scan_one_host h budget).outcome ∷ []))
              rs)
    release :
        (b a : List (Task StoreError)) (h : HostId) (p : ℕ) (ev : List (Event StoreError))
        (rs : List (HostResult StoreError)) (r : HostResult StoreError)
        → Step (with_task b h (reported r) a p ev rs) (with_task b h (returned r) a (suc p) ev rs)
    panic :
        (b a : List (Task StoreError)) (h : HostId) (p : ℕ) (ev : List (Event StoreError))
        (rs : List (HostResult StoreError)) (why : Text)
        → Step (with_task b h scanning a p ev rs) (with_task b h (crashed why) a (suc p) ev rs)
    join :
        (b a : List (Task StoreError)) (h : HostId) (p : ℕ) (ev : List (Event StoreError))
        (rs : List (HostResult StoreError)) (r : HostResult StoreError)
        → Step (with_task b h (returned r) a p ev rs) (with_task b h joined a p ev (rs ++ (r ∷ [])))
    join_crashed :
        (b a : List (Task StoreError)) (h : HostId) (p : ℕ) (ev : List (Event StoreError))
        (rs : List (HostResult StoreError)) (why : Text)
        → Step (with_task b h (crashed why) a p ev rs) (
            with_task b h joined a p
              (ev ++ (host_finished h (panic_result h why).outcome ∷ []))
              (rs ++ (panic_result h why ∷ [])))

  -- Any number of steps.
  pub data Run : Fanout StoreError → Fanout StoreError → Type 0 where
    stay : {s : Fanout StoreError} → Run s s
    further : {s t u : Fanout StoreError} → Run s t → Step t u → Run s u
