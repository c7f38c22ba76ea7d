-- ===== src/Servers/Counts.antt =====
-- One worker of the servers: what it has taken, and how many connections it serves at once.
use hcache.Base.{
  ap, suc, ◌&&◌, if◌then◌else◌, ℕ, ◌≤◌, ◌≡◌, ◌≢◌, ◌⊎◌, inl, inr, ◌∙◌, Bool, refl, arith, true,
  false, Option, some, List, [], ◌∷◌,
}
use hcache.Servers.{
  Arrival, failed, comes, Runtime, tokio_local, tokio_uring, glommio, monoio, monoio_parser,
  accept_of, permits_of, run_worker, running, Turn, spawns, ends, panics, Worker, new_worker, Event,
  arrives, begins, finishes, has_permit, step, run,
}
use hcache.Servers.Counted.{
  more, way_out, accepted, outcome, total, IsOver, ended_apart, panicked_apart, run-Counted,
  taken-serving,
}

module _ (accept : Arrival → Turn) (permits : ℕ) where
  step-serving :
      (e : Event) (wk : Worker)
      → wk.serving ≤ permits
      → (step accept (some permits) e wk).serving ≤ permits
  unfolding step has_permit
  step-serving (arrives a) wk le = omega (arith, le, taken-serving wk.loop (accept a) wk)
  step-serving begins wk le = ground arith
  step-serving finishes wk le = ground arith

  run-serving :
      (events : List Event) (wk : Worker)
      → wk.serving ≤ permits
      → (run accept (some permits) events wk).serving ≤ permits
  unfolding run
  run-serving [] wk le = le
  run-serving (e ∷ events) wk le =
      run-serving events (step accept (some permits) e wk) (step-serving e wk le)

-- An arrival that a worker goes on after: `accept` succeeded, and so did the call on the connection
-- whose result the worker unwraps, if there is one: `set_nodelay` of `tokio_local_run`, `local_addr` of
-- `serve_http` for glommio.
unfoldable pub survives : Runtime → Arrival → Bool
survives runtime failed = false
survives tokio_local (comes named nodelay) = nodelay
survives glommio (comes named nodelay) = named
survives tokio_uring (comes named nodelay) = true
survives monoio (comes named nodelay) = true
survives monoio_parser (comes named nodelay) = true

unfoldable pub all_survived : Runtime → List Event → Bool
unfolding survives
all_survived runtime [] = true
all_survived runtime (arrives a ∷ events) = survives runtime a && all_survived runtime events
all_survived runtime (begins ∷ events) = all_survived runtime events
all_survived runtime (finishes ∷ events) = all_survived runtime events

-- The connections that come before the first arrival that the worker does not go on after.
unfoldable pub taken_before : Runtime → List Event → ℕ
unfolding survives
taken_before runtime [] = 0
taken_before runtime (arrives a ∷ events) =
    let rest = taken_before runtime events in if survives runtime a then suc rest else 0
taken_before runtime (begins ∷ events) = taken_before runtime events
taken_before runtime (finishes ∷ events) = taken_before runtime events

-- The loop of a worker goes on, or it is over and the worker has no task, by what has come to it.
abbrev pub Fares : Runtime → List Event → Worker → Type 0
Fares runtime events wk =
    (total wk ≡ taken_before runtime events)
    × (((all_survived runtime events ≡ true) × (wk.loop ≡ running))
        ⊎ ((all_survived runtime events ≡ false) × IsOver wk))

-- what a runtime does with an arrival
abbrev Turns : Bool → Turn → Type 0
Turns survived t =
    ((survived ≡ true) × (t ≡ spawns)) ⊎ ((survived ≡ false) × ((t ≡ ends) ⊎ (t ≡ panics)))

unwrapped-Turns : (b : Bool) → Turns b (if b then spawns else panics)
unwrapped-Turns true = inl (refl, refl)
unwrapped-Turns false = inr (refl, inr refl)

accept_of-Turns :
    (runtime : Runtime) (a : Arrival) → Turns (survives runtime a) (accept_of runtime a)
unfolding accept_of survives
accept_of-Turns tokio_local failed = inr (refl, inl refl)
accept_of-Turns tokio_uring failed = inr (refl, inl refl)
accept_of-Turns glommio failed = inr (refl, inr refl)
accept_of-Turns monoio failed = inr (refl, inr refl)
accept_of-Turns monoio_parser failed = inr (refl, inr refl)
accept_of-Turns tokio_local (comes named nodelay) = unwrapped-Turns nodelay
accept_of-Turns tokio_uring (comes named nodelay) = inl (refl, refl)
accept_of-Turns glommio (comes named nodelay) = unwrapped-Turns named
accept_of-Turns monoio (comes named nodelay) = inl (refl, refl)
accept_of-Turns monoio_parser (comes named nodelay) = inl (refl, refl)

abbrev Judged : Runtime → List Event → Type 0
Judged runtime events =
    (accepted (accept_of runtime) events ≡ taken_before runtime events)
    × (((all_survived runtime events ≡ true) × (outcome (accept_of runtime) events ≡ running))
        ⊎ ((all_survived runtime events ≡ false) × (outcome (accept_of runtime) events ≢ running)))

events-Judged : (runtime : Runtime) (events : List Event) → Judged runtime events
unfolding accepted outcome taken_before all_survived more way_out
events-Judged runtime [] = (refl, inl (refl, refl))
events-Judged runtime (arrives a ∷ events) = elim (accept_of-Turns runtime a) [
  | inl (live, e) ↦
      let (n, judged) = events-Judged runtime events in rw (live, e) (ap suc n, judged)
  | inr (lost, inl e) ↦ rw (lost, e) (refl, inr (refl, ended_apart))
  | inr (lost, inr e) ↦ rw (lost, e) (refl, inr (refl, panicked_apart))
]
events-Judged runtime (begins ∷ events) = events-Judged runtime events
events-Judged runtime (finishes ∷ events) = events-Judged runtime events

-- A worker of any of the runtimes.
pub run-Fares :
    (runtime : Runtime) (limit : Option ℕ) (events : List Event)
    → Fares runtime events (run (accept_of runtime) limit events new_worker)
run-Fares runtime limit events =
    let (n, l, over) = run-Counted (accept_of runtime) limit events new_worker refl in
    let (m, judged) = events-Judged runtime events in
    (
      omega (arith, n, m),
      elim judged [
        | inl (all, e) ↦ inl (all, l ∙ e)
        | inr (some_lost, ne) ↦ inr (some_lost, over ne)
      ],
    )

-- Whatever happens, in whatever order: a worker of glommio serves at most 1024 connections at once.
-- Each connection that came to a worker of any of the five runtimes before the first arrival that
-- it does not go on after is waiting for a permit, served, done, or was dropped when its loop was
-- left; from that arrival on, an error of `accept`, or a connection on which the call fails that it
-- unwraps, its loop is over and it has no task; until then its loop goes on.
pub worker_counts :
    (runtime : Runtime) (events : List Event)
    → ((run_worker glommio events).serving ≤ 1024)
      × Fares runtime events (run_worker runtime events)
unfolding run_worker permits_of
worker_counts runtime events = (
  run-serving (accept_of glommio) 1024 events new_worker (omega arith),
  run-Fares runtime (permits_of runtime) events,
)
