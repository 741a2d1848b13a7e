-- ===== src/Tests/Fleet.antt =====
-- A fan-out over two hosts, and a report of two scans.
use anne_de_breuil.Prelude.{ℕ, ◌≤◌, ◌≡◌, refl, ◌⊎◌, Option, none, List, [], ◌∷◌}
use Prim.Native.Nat.{max}
use anne_de_breuil.Text.{Text}
use anne_de_breuil.Snapshot.{HostId, ScanSnapshot}
use anne_de_breuil.Fanout.{
  Fanout, Step, Run, stay, further, start, acquire, report, release, join, spawned, in_phase,
  waiting, joined, unresolved, scan_one_host, HostResult,
}
use anne_de_breuil.Fanout.Counts.{tally, starts, finishes}
use anne_de_breuil.Fanout.Accounts.{host_of}
use anne_de_breuil.Fanout.Outcomes.{AllJoined, joined_once}
use anne_de_breuil.Fanout.Permits.{busy, busy_bounded}
use anne_de_breuil.Fanout.Progress.{joined-or-Step}
use anne_de_breuil.Redaction.{FindIter}
use anne_de_breuil.Tests.Data.{scan, ssh, local_http}

abbrev host : ℕ → HostId
host n = record { as_uuid = n }

-- The error type of a store that never fails.
abbrev NoError : Type 0
NoError = ⊥

-- Two hosts, one permit: the second one has started to scan.
abbrev one_busy : Fanout NoError
one_busy = record {
  tasks = in_phase (host 1) waiting ∷ in_phase (host 2) anne_de_breuil.Fanout.acquired ∷ [];
  permits = 0;
  events = [];
  results = [];
}

abbrev two : List HostId
two = host 1 ∷ host 2 ∷ []

second_acquires : Run (spawned {StoreError = NoError} two 0) one_busy
unfolding spawned
second_acquires = further stay (acquire (in_phase (host 1) waiting ∷ []) [] (host 2) 0 [] [])

busy_bounded_example : busy one_busy ≤ max 0 1
busy_bounded_example = busy_bounded two 0 one_busy second_acquires

joined-or-Step_example : AllJoined one_busy ⊎ ((t : Fanout NoError) × Step one_busy t)
joined-or-Step_example = joined-or-Step two 0 one_busy second_acquires

-- One host, from the start to the end.
abbrev result : HostResult NoError
result = scan_one_host (host 1) unresolved

abbrev all_done : Fanout NoError
all_done = record {
  tasks = in_phase (host 1) joined ∷ [];
  permits = 1;
  events =
      anne_de_breuil.Fanout.host_started (host 1)
      ∷ anne_de_breuil.Fanout.host_finished (host 1) result.outcome
      ∷ [];
  results = result ∷ [];
}

one_scan : Run (spawned {StoreError = NoError} (host 1 ∷ []) 1) all_done
unfolding spawned
one_scan =
    further
      (further
        (further
          (further (further stay (acquire [] [] (host 1) 0 [] [])) (start [] [] (host 1) 0 [] []))
          (report [] [] (host 1) 0 (anne_de_breuil.Fanout.host_started (host 1) ∷ []) []
            unresolved))
        (release [] [] (host 1) 0 _ [] result))
      (join [] [] (host 1) 1 _ [] result)

joined_once_example :
    (tally host_of (host 1) all_done.results ≡ tally (λ h. h) (host 1) (host 1 ∷ []))
    × (starts (host 1) all_done.events ≡ tally (λ h. h) (host 1) (host 1 ∷ []))
    × (finishes (host 1) all_done.events ≡ tally (λ h. h) (host 1) (host 1 ∷ []))
joined_once_example = joined_once (host 1 ∷ []) 1 all_done one_scan (refl, tt) (host 1)

abbrev nothing_secret : Text → Option FindIter
nothing_secret pattern = none

abbrev scans : List (ScanSnapshot ℕ)
scans = scan (ssh ∷ local_http ∷ []) [] ∷ []
