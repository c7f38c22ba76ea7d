-- ===== src/Servers.antt =====
-- The loops that accept connections: `tokio_local_run`, `tokio_uring_run` of rust/src/hcache.rs,
-- rust/src/glommio_hyper.rs with `glommio_run`, rust/src/monoio_hyper.rs with `monoio_run`,
-- rust/src/monoio_parser.rs and `cluster_server` of rust/src/cluster.rs. The sockets and the runtimes are
-- a sequence of events; what a connection asks is the matter of Router and of Peer.
pub mod Counts
pub mod Counted
pub mod Deaf
use hcache.Base.{
  ℕ, suc, ◌+◌, ◌-◌, Bool, true, ◌&&◌, Option, none, some, List, [], ◌∷◌, ltb, if◌then◌else◌, ite,
  ℕ_discrete,
}

-- What `accept` gives: an error, or a connection, of which the address can be read or not, and the
-- option TCP_NODELAY be set or not.
pub data Arrival : Type 0 where
  failed : Arrival
  comes : (named nodelay : Bool) → Arrival

-- The loop goes on; or it is over, by its end or by a panic.
pub data Loop : Type 0 where
  running ended panicked : Loop

-- What a loop does with an arrival: a task serves it, or it is passed over, or the loop is left, by its
-- end or by a panic.
pub data Turn : Type 0 where
  spawns skips ends panics : Turn

-- `while let Ok(…)`, and `set_nodelay(true).unwrap()`
unfoldable pub accept_tokio_local : Arrival → Turn
accept_tokio_local failed = ends
accept_tokio_local (comes named nodelay) = if nodelay then spawns else panics

unfoldable pub accept_tokio_uring : Arrival → Turn
accept_tokio_uring failed = ends
accept_tokio_uring (comes named nodelay) = spawns

-- `serve_http` returns the error, which `glommio_run` unwraps; `local_addr().unwrap()`
unfoldable pub accept_glommio : Arrival → Turn
accept_glommio failed = panics
accept_glommio (comes named nodelay) = if named then spawns else panics

-- `serve_http` returns the error, which `monoio_run` unwraps
unfoldable pub accept_monoio : Arrival → Turn
accept_monoio failed = panics
accept_monoio (comes named nodelay) = spawns

-- `accept().await.unwrap()`
unfoldable pub accept_monoio_parser : Arrival → Turn
accept_monoio_parser failed = panics
accept_monoio_parser (comes named nodelay) = spawns

-- the ways to run the server that have such a loop of their own
pub data Runtime : Type 0 where
  tokio_local tokio_uring glommio monoio monoio_parser : Runtime

unfoldable pub accept_of : Runtime → Arrival → Turn
unfolding accept_tokio_local accept_tokio_uring accept_glommio accept_monoio accept_monoio_parser
accept_of tokio_local = accept_tokio_local
accept_of tokio_uring = accept_tokio_uring
accept_of glommio = accept_glommio
accept_of monoio = accept_monoio
accept_of monoio_parser = accept_monoio_parser

-- `Semaphore::new(max_connections)`
unfoldable pub permits_of : Runtime → Option ℕ
permits_of tokio_local = none
permits_of tokio_uring = none
permits_of glommio = some 1024
permits_of monoio = none
permits_of monoio_parser = none

-- `filter_map(|r| future::ready(r.ok()))`, and `peer_addr().unwrap()`
unfoldable pub accept_peer : Arrival → Turn
accept_peer failed = skips
accept_peer (comes named nodelay) = if named then spawns else panics

-- One worker: its loop, the tasks that wait for a permit, those that serve a connection, those that are
-- done, and those that were dropped with the runtime of the worker when its loop was over.
pub record Worker : Type 0 where
  pub loop : Loop
  pub queued : ℕ
  pub serving : ℕ
  pub done : ℕ
  pub dropped : ℕ

abbrev pub new_worker : Worker
new_worker = record { loop = running; queued = 0; serving = 0; done = 0; dropped = 0 }

-- `accept` returns; a task gets a permit; a connection ends, and its permit is given back.
pub data Event : Type 0 where
  arrives : Arrival → Event
  begins finishes : Event

left : Loop → Worker → Worker
left l wk = record wk {
  loop = l;
  queued = 0;
  serving = 0;
  dropped = wk.dropped + (wk.queued + wk.serving);
}

turn : Turn → Worker → Worker
unfolding left
turn spawns wk = record wk { queued = suc wk.queued }
turn skips wk = wk
turn ends wk = left ended wk
turn panics wk = left panicked wk

-- A loop that is over takes nothing.
unfoldable pub taken : Loop → Turn → Worker → Worker
unfolding turn
taken running t wk = turn t wk
taken ended t wk = wk
taken panicked t wk = wk

-- `limit` is the number of permits, `max_connections`, if there is a semaphore
has_permit : Option ℕ → ℕ → Bool
has_permit none serving = true
has_permit (some permits) serving = ltb serving permits

unfoldable pub step : (Arrival → Turn) → Option ℕ → Event → Worker → Worker
unfolding taken has_permit
step accept limit (arrives a) wk = taken wk.loop (accept a) wk
step accept limit begins wk =
    if ltb 0 wk.queued && has_permit limit wk.serving
    then record wk { queued = wk.queued - 1; serving = suc wk.serving }
    else wk
step accept limit finishes wk =
    if ltb 0 wk.serving then record wk { serving = wk.serving - 1; done = suc wk.done } else wk

unfoldable pub run : (Arrival → Turn) → Option ℕ → List Event → Worker → Worker
unfolding step
run accept limit [] wk = wk
run accept limit (e ∷ events) wk = run accept limit events (step accept limit e wk)

unfoldable pub run_worker : Runtime → List Event → Worker
unfolding run accept_of permits_of
run_worker runtime events = run (accept_of runtime) (permits_of runtime) events new_worker

-- `buffer_unordered(1000)`: the next channel is taken when fewer than 1000 are under way.
unfoldable pub peer_step : Event → Worker → Worker
unfolding taken step
peer_step (arrives a) wk =
    if ltb wk.serving 1000
    then step accept_peer none begins (taken wk.loop (accept_peer a) wk)
    else wk
peer_step begins wk = wk
peer_step finishes wk = step accept_peer none finishes wk

-- `tokio_local_run`: a worker for each core, and the thread of `cluster_server`. It joins that thread
-- alone, and once `try_load_peers` has returned, which is where this begins, a panic there ends the process:
-- `f.await.unwrap()` and `join().unwrap()` pass it on.
pub record Process : Type 0 where
  pub workers : ℕ → Worker
  pub peers : Worker

pub data Happening : Type 0 where
  at_worker : ℕ → Event → Happening
  at_peers : Event → Happening

abbrev pub new_process : Process
new_process = record { workers = λ i. new_worker; peers = new_worker }

unfoldable pub process_step : Happening → Process → Process
unfolding step accept_tokio_local peer_step
process_step (at_worker i e) p = record p {
  workers = λ j. ite (ℕ_discrete i j) (step accept_tokio_local none e (p.workers j)) (p.workers j);
}
process_step (at_peers e) p = record p { peers = peer_step e p.peers }

while_up : Loop → Process → Process → Process
while_up running next p = next
while_up ended next p = p
while_up panicked next p = p

-- What happens while the process is there.
unfoldable pub process_run : List Happening → Process → Process
unfolding process_step while_up
process_run [] p = p
process_run (e ∷ events) p =
    let rest = process_run events (process_step e p) in while_up p.peers.loop rest p
