-- ===== src/Servers/Counted.antt =====
-- What one worker of the servers has taken, and what it comes to when its loop is left.
use hcache.Base.{
  ℕ, suc, ◌+◌, ◌≤◌, ◌≡◌, ◌≢◌, ◌⊎◌, ◌&&◌, refl, sym, ap, ◌∙◌, arith, Bool-cases, inl, inr, Option,
  List, [], ◌∷◌, ltb,
}
use hcache.Servers.{
  Arrival, Loop, running, ended, panicked, Turn, spawns, skips, ends, panics, Worker, Event,
  arrives, begins, finishes, left, turn, taken, has_permit, step, run,
}
use mathlib.Core.Path.{subst}

unfoldable pub more : Turn → ℕ → ℕ
more spawns rest = suc rest
more skips rest = rest
more ends rest = 0
more panics rest = 0

unfoldable pub way_out : Turn → Loop → Loop
way_out spawns rest = rest
way_out skips rest = rest
way_out ends rest = ended
way_out panics rest = panicked

-- The connections that a loop takes, up to the arrival at which it is left.
unfoldable pub accepted : (Arrival → Turn) → List Event → ℕ
unfolding more
accepted accept [] = 0
accepted accept (arrives a ∷ events) = let rest = accepted accept events in more (accept a) rest
accepted accept (begins ∷ events) = accepted accept events
accepted accept (finishes ∷ events) = accepted accept events

-- How the loop is left, if it is.
unfoldable pub outcome : (Arrival → Turn) → List Event → Loop
unfolding way_out
outcome accept [] = running
outcome accept (arrives a ∷ events) = let rest = outcome accept events in way_out (accept a) rest
outcome accept (begins ∷ events) = outcome accept events
outcome accept (finishes ∷ events) = outcome accept events

abbrev pub total : Worker → ℕ
total wk = wk.queued + wk.serving + wk.done + wk.dropped

-- A worker whose loop is over, and that has no task.
pub record IsOver (wk : Worker) : Type 0 where
  pub out : wk.loop ≢ running
  pub none_queued : wk.queued ≡ 0
  pub none_serving : wk.serving ≡ 0

taken_over : (l : Loop) (t : Turn) (wk : Worker) → l ≢ running → taken l t wk ≡ wk
unfolding taken
taken_over running t wk out = absurd (out refl)
taken_over ended t wk out = refl
taken_over panicked t wk out = refl

step_over :
    (accept : Arrival → Turn) (limit : Option ℕ) (e : Event) (wk : Worker)
    → IsOver wk
    → step accept limit e wk ≡ wk
unfolding step
step_over accept limit (arrives a) wk over = taken_over wk.loop (accept a) wk over.out
step_over accept limit begins wk over = ground arith
step_over accept limit finishes wk over = ground arith

run_over :
    (accept : Arrival → Turn) (limit : Option ℕ) (events : List Event) (wk : Worker)
    → IsOver wk
    → run accept limit events wk ≡ wk
unfolding run
run_over accept limit [] wk over = refl
run_over accept limit (e ∷ events) wk over =
    rw (step_over accept limit e wk over) (run_over accept limit events wk over)

-- What a worker whose loop is running comes to.
abbrev Counted : (Arrival → Turn) → List Event → Worker → Worker → Type 0
Counted accept events wk wk' =
    (total wk' ≡ total wk + accepted accept events)
    × (wk'.loop ≡ outcome accept events)
    × (outcome accept events ≢ running → IsOver wk')

Turn-cases : (t : Turn) → (t ≡ spawns) ⊎ (t ≡ skips) ⊎ (t ≡ ends) ⊎ (t ≡ panics)
Turn-cases spawns = inl refl
Turn-cases skips = inr (inl refl)
Turn-cases ends = inr (inr (inl refl))
Turn-cases panics = inr (inr (inr refl))

left-IsOver : (l : Loop) (wk : Worker) → l ≢ running → IsOver (left l wk)
unfolding left
left-IsOver l wk ne = record { out = ne; none_queued = refl; none_serving = refl }

pub ended_apart : ended ≢ running
ended_apart e = cc

pub panicked_apart : panicked ≢ running
panicked_apart e = cc

module _ (accept : Arrival → Turn) (limit : Option ℕ) where
  step-turn :
      (a : Arrival) (wk : Worker) (t : Turn)
      → wk.loop ≡ running
      → accept a ≡ t
      → step accept limit (arrives a) wk ≡ turn t wk
  unfolding step taken
  step-turn a wk t live e = ap (λ l. taken l (accept a) wk) live ∙ ap (λ u. turn u wk) e

  step-begins :
      (wk : Worker)
      → (total (step accept limit begins wk) ≡ total wk)
        × ((step accept limit begins wk).loop ≡ wk.loop)
  unfolding step
  step-begins wk = elim (Bool-cases (ltb 0 wk.queued && has_permit limit wk.serving)) [
    | inl e ↦ rw e (ground arith, refl)
    | inr e ↦ rw e (refl, refl)
  ]

  step-finishes :
      (wk : Worker)
      → (total (step accept limit finishes wk) ≡ total wk)
        × ((step accept limit finishes wk).loop ≡ wk.loop)
  unfolding step
  step-finishes wk = elim (Bool-cases (ltb 0 wk.serving)) [
    | inl e ↦ rw e (ground arith, refl)
    | inr e ↦ rw e (refl, refl)
  ]

  -- the loop is left
  run-left :
      (l : Loop) (events : List Event) (wk : Worker)
      → l ≢ running
      → (total (run accept limit events (left l wk)) ≡ total wk)
        × ((run accept limit events (left l wk)).loop ≡ l)
        × IsOver (run accept limit events (left l wk))
  unfolding left
  run-left l events wk ne =
      let over = left-IsOver l wk ne in
      rw (run_over accept limit events (left l wk) over) (omega arith, refl, over)

  -- the worker after an arrival is what its turn makes of it
  after_turn :
      (a : Arrival) (events : List Event) (wk : Worker) (t : Turn)
      → wk.loop ≡ running
      → accept a ≡ t
      → Counted accept (arrives a ∷ events) wk (run accept limit events (turn t wk))
      → Counted accept (arrives a ∷ events) wk (run accept limit (arrives a ∷ events) wk)
  unfolding run
  after_turn a events wk t live e =
      subst (λ x. Counted accept (arrives a ∷ events) wk (run accept limit events x))
        (sym (step-turn a wk t live e))

  pub run-Counted :
      (events : List Event) (wk : Worker)
      → wk.loop ≡ running
      → Counted accept events wk (run accept limit events wk)
  unfolding run accepted outcome turn more way_out
  run-Counted [] wk live = (omega arith, live, λ ne. absurd (ne refl))
  run-Counted (arrives a ∷ events) wk live = elim (Turn-cases (accept a)) [
    | inl e ↦
        let (n, l, over) = run-Counted events (turn spawns wk) live in
        after_turn a events wk spawns live e (rw e (omega (arith, n), l, over))
    | inr (inl e) ↦ after_turn a events wk skips live e (rw e (run-Counted events wk live))
    | inr (inr (inl e)) ↦
        let (n, l, over) = run-left ended events wk ended_apart in
        after_turn a events wk ends live e (rw e (omega (arith, n), l, λ _. over))
    | inr (inr (inr e)) ↦
        let (n, l, over) = run-left panicked events wk panicked_apart in
        after_turn a events wk panics live e (rw e (omega (arith, n), l, λ _. over))
  ]
  run-Counted (begins ∷ events) wk live =
      let (same, goes_on) = step-begins wk in
      let (n, l, over) = run-Counted events (step accept limit begins wk) (goes_on ∙ live) in
      (omega (arith, n, same), l, over)
  run-Counted (finishes ∷ events) wk live =
      let (same, goes_on) = step-finishes wk in
      let (n, l, over) = run-Counted events (step accept limit finishes wk) (goes_on ∙ live) in
      (omega (arith, n, same), l, over)

pub taken-serving : (l : Loop) (t : Turn) (wk : Worker) → (taken l t wk).serving ≤ wk.serving
unfolding taken turn left
taken-serving running spawns wk = omega arith
taken-serving running skips wk = omega arith
taken-serving running ends wk = omega arith
taken-serving running panics wk = omega arith
taken-serving ended t wk = omega arith
taken-serving panicked t wk = omega arith
