-- ===== src/Tests/ServerRuns.antt =====
-- Runs of the loops that accept connections.
use hcache.Base.{ℕ, ◌≤◌, ◌<◌, ◌≡◌, refl, true, false, List, [], ◌∷◌, ◌++◌, arith}
use hcache.Servers.{
  tokio_local, failed, comes, running, panicked, Event, arrives, begins, glommio, run_worker,
  Happening, at_worker, at_peers, new_process, process_run, peer_step, step, taken, accept_peer,
}
use hcache.Servers.Counts.{Fares, worker_counts}
use hcache.Servers.Deaf.{events_at, process_outlives_workers, unnamed_peer_ends}

abbrev one_then_error : List Event
one_then_error = arrives (comes true true) ∷ begins ∷ arrives failed ∷ []

worker_counts_example :
    ((run_worker glommio one_then_error).serving ≤ 1024)
    × Fares glommio one_then_error (run_worker glommio one_then_error)
worker_counts_example = worker_counts glommio one_then_error

-- the first worker fails to accept, and a peer connects
abbrev first_fails : List Happening
first_fails = at_worker 0 (arrives failed) ∷ at_peers (arrives (comes true true)) ∷ []

process_outlives_workers_example :
    ((process_run first_fails new_process).peers.loop ≡ running)
    × ((process_run first_fails new_process).peers.serving ≤ 1000)
    × ((i : ℕ)
        → Fares tokio_local
            (events_at i first_fails)
            ((process_run first_fails new_process).workers i))
process_outlives_workers_example = process_outlives_workers first_fails (refl, tt)

first_fails_room : (process_run first_fails new_process).peers.serving < 1000
unfolding process_run peer_step step taken accept_peer
first_fails_room = omega arith

unnamed_peer_ends_example :
    ((process_run
        (first_fails ++ at_peers (arrives (comes false true)) ∷ [])
        new_process).peers.loop
      ≡ panicked)
    × ((i : ℕ)
        → (process_run
              (first_fails ++ at_peers (arrives (comes false true)) ∷ [])
              new_process).workers
            i
          ≡ (process_run first_fails new_process).workers i)
unnamed_peer_ends_example = unnamed_peer_ends first_fails [] true (refl, tt) first_fails_room
