-- ===== src/Fanout/Accounts.antt =====
-- What a fan-out owes for each host, step by step
-- (crates/anne-de-breuil/src/application/fanout.rs).
use anne_de_breuil.Prelude.{ℕ, ◌+◌, ◌≡◌, refl, List, [], ◌∷◌, ◌++◌, arith}
use anne_de_breuil.Snapshot.{HostId}
use anne_de_breuil.Fanout.{
  HostOutcome, HostResult, Event, host_started, host_finished, Phase, waiting, acquired, scanning,
  reported, returned, crashed, joined, Fanout, Budget, unresolved, resolved, scan_one_host,
  panic_result, Step, acquire, start, report, release, panic, join, join_crashed,
}
use anne_de_breuil.Fanout.Counts.{
  total, total_middle, is_host, tally, tally-last, starts, finishes, starts_append, finishes_append,
}

-- The host of a result.
abbrev pub host_of : {StoreError : Type 0} → HostResult StoreError → HostId
host_of r = r.host_id

module _ {StoreError : Type 0} (k : HostId) where
  -- The results of the host that are still to come, by the task that owes them.
  unfoldable pub owed : HostId → Phase StoreError → ℕ
  unfolding is_host
  owed h waiting = is_host k h
  owed h acquired = is_host k h
  owed h scanning = is_host k h
  owed h (reported r) = is_host k r.host_id
  owed h (returned r) = is_host k r.host_id
  owed h (crashed why) = is_host k h
  owed h joined = 0

  unfoldable pub unstarted : HostId → Phase StoreError → ℕ
  unfolding is_host
  unstarted h waiting = is_host k h
  unstarted h acquired = is_host k h
  unstarted h scanning = 0
  unstarted h (reported r) = 0
  unstarted h (returned r) = 0
  unstarted h (crashed why) = 0
  unstarted h joined = 0

  unfoldable pub unfinished : HostId → Phase StoreError → ℕ
  unfolding is_host
  unfinished h waiting = is_host k h
  unfinished h acquired = is_host k h
  unfinished h scanning = is_host k h
  unfinished h (reported r) = 0
  unfinished h (returned r) = 0
  unfinished h (crashed why) = is_host k h
  unfinished h joined = 0

  scan_one_host-host :
      (h : HostId) (budget : Budget StoreError)
      → is_host k (scan_one_host h budget).host_id ≡ is_host k h
  unfolding scan_one_host
  scan_one_host-host h unresolved = refl
  scan_one_host-host h (resolved strategy ended) = refl

  starts-one :
      (ev : List (Event StoreError)) (h : HostId)
      → starts k (ev ++ (host_started h ∷ [])) ≡ is_host k h + starts k ev
  unfolding starts
  starts-one ev h = omega (arith, starts_append k ev (host_started h ∷ []))

  starts-other :
      (ev : List (Event StoreError)) (h : HostId) (o : HostOutcome StoreError)
      → starts k (ev ++ (host_finished h o ∷ [])) ≡ starts k ev
  unfolding starts
  starts-other ev h o = omega (arith, starts_append k ev (host_finished h o ∷ []))

  finishes-one :
      (ev : List (Event StoreError)) (h : HostId) (o : HostOutcome StoreError)
      → finishes k (ev ++ (host_finished h o ∷ [])) ≡ is_host k h + finishes k ev
  unfolding finishes
  finishes-one ev h o = omega (arith, finishes_append k ev (host_finished h o ∷ []))

  finishes-other :
      (ev : List (Event StoreError)) (h : HostId)
      → finishes k (ev ++ (host_started h ∷ [])) ≡ finishes k ev
  unfolding finishes
  finishes-other ev h = omega (arith, finishes_append k ev (host_started h ∷ []))

  pub Step-results :
      (s t : Fanout StoreError)
      → Step s t
      → tally host_of k s.results + total owed s.tasks
        ≡ tally host_of k t.results + total owed t.tasks
  unfolding owed panic_result
  Step-results s t (acquire b a h p ev rs) =
      omega (arith, total_middle owed b h waiting a, total_middle owed b h acquired a)
  Step-results s t (start b a h p ev rs) =
      omega (arith, total_middle owed b h acquired a, total_middle owed b h scanning a)
  Step-results s t (report b a h p ev rs budget) = omega (
    arith,
    total_middle owed b h scanning a,
    total_middle owed b h (reported (scan_one_host h budget)) a,
    scan_one_host-host h budget,
  )
  Step-results s t (release b a h p ev rs r) =
      omega (arith, total_middle owed b h (reported r) a, total_middle owed b h (returned r) a)
  Step-results s t (panic b a h p ev rs why) =
      omega (arith, total_middle owed b h scanning a, total_middle owed b h (crashed why) a)
  Step-results s t (join b a h p ev rs r) = omega (
    arith,
    total_middle owed b h (returned r) a,
    total_middle owed b h joined a,
    tally-last host_of k rs r,
  )
  Step-results s t (join_crashed b a h p ev rs why) = omega (
    arith,
    total_middle owed b h (crashed why) a,
    total_middle owed b h joined a,
    tally-last host_of k rs (panic_result h why),
  )

  pub Step-starts :
      (s t : Fanout StoreError)
      → Step s t
      → starts k s.events + total unstarted s.tasks ≡ starts k t.events + total unstarted t.tasks
  unfolding unstarted panic_result
  Step-starts s t (acquire b a h p ev rs) =
      omega (arith, total_middle unstarted b h waiting a, total_middle unstarted b h acquired a)
  Step-starts s t (start b a h p ev rs) = omega (
    arith,
    total_middle unstarted b h acquired a,
    total_middle unstarted b h scanning a,
    starts-one ev h,
  )
  Step-starts s t (report b a h p ev rs budget) = omega (
    arith,
    total_middle unstarted b h scanning a,
    total_middle unstarted b h (reported (scan_one_host h budget)) a,
    starts-other ev h (scan_one_host h budget).outcome,
  )
  Step-starts s t (release b a h p ev rs r) =
      omega (
        arith,
        total_middle unstarted b h (reported r) a,
        total_middle unstarted b h (returned r) a,
      )
  Step-starts s t (panic b a h p ev rs why) =
      omega
        (arith, total_middle unstarted b h scanning a, total_middle unstarted b h (crashed why) a)
  Step-starts s t (join b a h p ev rs r) =
      omega (arith, total_middle unstarted b h (returned r) a, total_middle unstarted b h joined a)
  Step-starts s t (join_crashed b a h p ev rs why) = omega (
    arith,
    total_middle unstarted b h (crashed why) a,
    total_middle unstarted b h joined a,
    starts-other ev h (panic_result h why).outcome,
  )

  pub Step-finishes :
      (s t : Fanout StoreError)
      → Step s t
      → finishes k s.events + total unfinished s.tasks
        ≡ finishes k t.events + total unfinished t.tasks
  unfolding unfinished panic_result
  Step-finishes s t (acquire b a h p ev rs) =
      omega (arith, total_middle unfinished b h waiting a, total_middle unfinished b h acquired a)
  Step-finishes s t (start b a h p ev rs) = omega (
    arith,
    total_middle unfinished b h acquired a,
    total_middle unfinished b h scanning a,
    finishes-other ev h,
  )
  Step-finishes s t (report b a h p ev rs budget) = omega (
    arith,
    total_middle unfinished b h scanning a,
    total_middle unfinished b h (reported (scan_one_host h budget)) a,
    finishes-one ev h (scan_one_host h budget).outcome,
  )
  Step-finishes s t (release b a h p ev rs r) = omega (
    arith,
    total_middle unfinished b h (reported r) a,
    total_middle unfinished b h (returned r) a,
  )
  Step-finishes s t (panic b a h p ev rs why) =
      omega
        (arith, total_middle unfinished b h scanning a, total_middle unfinished b h (crashed why) a)
  Step-finishes s t (join b a h p ev rs r) =
      omega
        (arith, total_middle unfinished b h (returned r) a, total_middle unfinished b h joined a)
  Step-finishes s t (join_crashed b a h p ev rs why) = omega (
    arith,
    total_middle unfinished b h (crashed why) a,
    total_middle unfinished b h joined a,
    finishes-one ev h (panic_result h why).outcome,
  )
