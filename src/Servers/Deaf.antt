-- ===== src/Servers/Deaf.antt =====
-- The process of `tokio_local_run`: what ends a worker, and what ends the process.
use hcache.Base.{
  ℕ, ◌≤◌, ◌<◌, ◌≡◌, refl, sym, ap, ◌∙◌, arith, Bool, true, false, ite, if_pos, if_neg, ℕ_discrete,
  none, List, [], ◌∷◌, ◌++◌,
}
use hcache.Servers.{
  failed, comes, running, panicked, Worker, tokio_local, accept_of, Event, arrives, begins,
  finishes, left, turn, taken, has_permit, step, run, accept_peer, accept_tokio_local, peer_step,
  Process, Happening, at_worker, at_peers, new_process, process_step, process_run, while_up,
}
use hcache.Servers.Counted.{taken-serving}
use hcache.Servers.Counts.{Fares, run-Fares}
use mathlib.Core.Path.{subst}

-- What happens at one worker.
unfoldable pub events_at : ℕ → List Happening → List Event
events_at i [] = []
events_at i (at_worker j e ∷ l) = let rest = events_at i l in ite (ℕ_discrete j i) (e ∷ rest) rest
events_at i (at_peers e ∷ l) = events_at i l

-- The address of every peer that connects can be read.
abbrev pub Named : List Happening → Type 0
Named [] = Unit
Named (at_worker j e ∷ l) = Named l
Named (at_peers (arrives (comes named nodelay)) ∷ l) = (named ≡ true) × Named l
Named (at_peers e ∷ l) = Named l

peer_step-running :
    (e : Event) (l : List Happening) (wk : Worker)
    → Named (at_peers e ∷ l)
    → wk.loop ≡ running
    → ((peer_step e wk).loop ≡ running) × Named l
unfolding peer_step step taken turn left accept_peer has_permit
peer_step-running (arrives failed) l wk named live = (ground (arith, live), named)
peer_step-running (arrives (comes b nodelay)) l wk (known, named) live =
    (ground (arith, live, known), named)
peer_step-running begins l wk named live = (live, named)
peer_step-running finishes l wk named live = (ground (arith, live), named)

peer_step-serving : (e : Event) (wk : Worker) → wk.serving ≤ 1000 → (peer_step e wk).serving ≤ 1000
unfolding peer_step step has_permit
peer_step-serving (arrives a) wk le = ground (arith, le, taken-serving wk.loop (accept_peer a) wk)
peer_step-serving begins wk le = le
peer_step-serving finishes wk le = ground arith

process_run-up :
    (e : Happening) (l : List Happening) (p : Process)
    → p.peers.loop ≡ running
    → process_run (e ∷ l) p ≡ process_run l (process_step e p)
unfolding process_run
process_run-up e l p live = ap (λ x. while_up x (process_run l (process_step e p)) p) live

unnamed-panicked :
    (wk : Worker) (nodelay : Bool)
    → wk.loop ≡ running
    → wk.serving < 1000
    → (peer_step (arrives (comes false nodelay)) wk).loop ≡ panicked
unfolding peer_step step taken turn left accept_peer has_permit
unnamed-panicked wk nodelay live room = ground (arith, live, room)

-- each worker has its own events, and the process goes on
abbrev Goes : List Happening → Process → Process → Type 0
Goes l p q =
    (q.peers.loop ≡ running)
    × (q.peers.serving ≤ 1000)
    × ((i : ℕ) → q.workers i ≡ run accept_tokio_local none (events_at i l) (p.workers i))

process_run-Goes :
    (l : List Happening) (p : Process)
    → Named l
    → p.peers.loop ≡ running
    → p.peers.serving ≤ 1000
    → Goes l p (process_run l p)
unfolding process_run process_step events_at run
process_run-Goes [] p named live le = (live, le, λ i. refl)
process_run-Goes (at_worker j e ∷ l) p named live le =
    let q = process_step (at_worker j e) p in
    let (live', le', each) = process_run-Goes l q named live le in
    subst (Goes (at_worker j e ∷ l) p) (sym (process_run-up (at_worker j e) l p live)) (
      live',
      le',
      λ i. elim (ℕ_discrete j i) [
        | yes same ↦
            each i
            ∙ ap (run accept_tokio_local none (events_at i l)) (
                if_pos (ℕ_discrete j i) same (step accept_tokio_local none e (p.workers i))
                  (p.workers i))
            ∙ ap (λ m. run accept_tokio_local none m (p.workers i))
                (sym (if_pos (ℕ_discrete j i) same (e ∷ events_at i l) (events_at i l)))
        | no differ ↦
            each i
            ∙ ap (run accept_tokio_local none (events_at i l)) (
                if_neg (ℕ_discrete j i) differ (step accept_tokio_local none e (p.workers i))
                  (p.workers i))
            ∙ ap (λ m. run accept_tokio_local none m (p.workers i))
                (sym (if_neg (ℕ_discrete j i) differ (e ∷ events_at i l) (events_at i l)))
      ],
    )
process_run-Goes (at_peers e ∷ l) p named live le =
    let q = process_step (at_peers e) p in
    let (goes_on, rest) = peer_step-running e l p.peers named live in
    subst (Goes (at_peers e ∷ l) p) (sym (process_run-up (at_peers e) l p live))
      (process_run-Goes l q rest goes_on (peer_step-serving e p.peers le))

-- While the address of every peer that connects can be read, the process of `tokio_local_run` goes
-- on and serves at most 1000 peers at once, whatever happens to its workers. Each connection that
-- came to a worker before the first arrival that is an error of its `accept`, or a connection whose
-- TCP_NODELAY cannot be set, is waiting, served, done or dropped; from that arrival on the loop of
-- the worker is over and it has no task, while the process stays; until then its loop goes on.
pub process_outlives_workers :
    (l : List Happening)
    → Named l
    → ((process_run l new_process).peers.loop ≡ running)
      × ((process_run l new_process).peers.serving ≤ 1000)
      × ((i : ℕ) → Fares tokio_local (events_at i l) ((process_run l new_process).workers i))
unfolding accept_of
process_outlives_workers l named =
    let (live, le, each) = process_run-Goes l new_process named refl (omega arith) in
    (
      live,
      le,
      λ i.
          subst (Fares tokio_local (events_at i l)) (sym (each i))
            (run-Fares tokio_local none (events_at i l)),
    )

process_run_over :
    (l : List Happening) (p : Process) → p.peers.loop ≡ panicked → process_run l p ≡ p
unfolding process_run
process_run_over [] p out = refl
process_run_over (e ∷ l) p out = ap (λ x. while_up x (process_run l (process_step e p)) p) out

process_run-append :
    (l l' : List Happening) (p : Process)
    → Named l
    → p.peers.loop ≡ running
    → p.peers.serving ≤ 1000
    → process_run (l ++ l') p ≡ process_run l' (process_run l p)
unfolding process_run process_step
process_run-append [] l' p named live le = refl
process_run-append (at_worker j e ∷ l) l' p named live le =
    process_run-up (at_worker j e) (l ++ l') p live
    ∙ process_run-append l l' (process_step (at_worker j e) p) named live le
    ∙ ap (process_run l') (sym (process_run-up (at_worker j e) l p live))
process_run-append (at_peers e ∷ l) l' p named live le =
    let (goes_on, rest) = peer_step-running e l p.peers named live in
    process_run-up (at_peers e) (l ++ l') p live
    ∙ process_run-append l l' (process_step (at_peers e) p) rest goes_on
        (peer_step-serving e p.peers le)
    ∙ ap (process_run l') (sym (process_run-up (at_peers e) l p live))

-- A peer whose address cannot be read when its connection is taken, while fewer than 1000 are
-- served, ends the process of `tokio_local_run`, whatever would have come after it: the workers are
-- left as they are.
pub unnamed_peer_ends :
    (l l' : List Happening) (nodelay : Bool)
    → Named l
    → (process_run l new_process).peers.serving < 1000
    → ((process_run (l ++ at_peers (arrives (comes false nodelay)) ∷ l') new_process).peers.loop
        ≡ panicked)
      × ((i : ℕ)
          → (process_run (l ++ at_peers (arrives (comes false nodelay)) ∷ l') new_process).workers i
            ≡ (process_run l new_process).workers i)
unfolding process_step
unnamed_peer_ends l l' nodelay named room =
    let p = process_run l new_process in
    let e = at_peers (arrives (comes false nodelay)) in
    let (live, le, each) = process_run-Goes l new_process named refl (omega arith) in
    let out : (process_step e p).peers.loop ≡ panicked =
      unnamed-panicked p.peers nodelay live room in
    let all : process_run (l ++ e ∷ l') new_process ≡ process_step e p =
      process_run-append l (e ∷ l') new_process named refl (omega arith)
      ∙ process_run-up e l' p live
      ∙ process_run_over l' (process_step e p) out in
    (ap (λ q. q.peers.loop) all ∙ out, λ i. ap (λ q. q.workers i) all)
