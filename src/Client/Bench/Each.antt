-- ===== src/Client/Bench/Each.antt =====
-- The tasks of a benchmark of client/src/client.rs, each once, in any order.
use hcache.Base.{ℕ, zero, suc, ◌+◌, ◌≤◌, ◌<◌, ◌≡◌, refl, ◌∙◌, ite, arith, List, [], ◌∷◌, ℕ_discrete}
use hcache.Base.Run.{Run, ok}
use hcache.External.Cuckoo.{Cuckoo}
use hcache.External.Rocks.{Rocks}
use hcache.Std.Walk.{Walk}
use hcache.Cluster.{World}
use hcache.Client.Spec.{Cache}
use hcache.Client.Bench.{numbers, run_each, spawn_each}
use mathlib.Core.List.{Permᴰ}
use mathlib.Core.Logic.{∥∥₁_elim}
use native.Mathlib.Nat.{ℕ_set}

-- how often a number stands in a list
unfoldable pub among : ℕ → List ℕ → ℕ
among i [] = 0
among i (j ∷ l) = ite (ℕ_discrete j i) 1 0 + among i l

among-Permᴰ : (i : ℕ) {xs ys : List ℕ} → Permᴰ xs ys → among i xs ≡ among i ys
unfolding among
among-Permᴰ i Permᴰ.nil = refl
among-Permᴰ i (Permᴰ.cons e p) = rw (e, among-Permᴰ i p) refl
among-Permᴰ i (Permᴰ.swap e f) = rw (e, f) (omega arith)
among-Permᴰ i (Permᴰ.trans p q) = among-Permᴰ i p ∙ among-Permᴰ i q

among-visit : (tasks : Walk) (i : ℕ) (l : List ℕ) → among i (tasks.visit l) ≡ among i l
among-visit tasks i l = ∥∥₁_elim (tasks.visit-perm l) (ℕ_set _ _) (among-Permᴰ i)

among-numbers : (i s left : ℕ) → 0 < among i (numbers s left) → (s ≤ i) × (i < s + left)
unfolding among numbers
among-numbers i s zero found = absurd (omega (arith, found))
among-numbers i s (suc left) found = elim (ℕ_discrete s i) [
  | yes p ↦ (omega (arith, p), omega (arith, p))
  | no p ↦
      let (lo, hi) = among-numbers i (suc s) left (ground (arith, found)) in
      (omega (arith, lo), omega (arith, hi))
]

among-numbers-lt : (i n : ℕ) → 0 < among i (numbers 0 n) → i < n
among-numbers-lt i n found = let (lo, hi) = among-numbers i 0 n found in omega (arith, hi)

numbers-among : (i s left : ℕ) → s ≤ i → i < s + left → 0 < among i (numbers s left)
unfolding among numbers
numbers-among i s zero lo hi = absurd (omega (arith, lo, hi))
numbers-among i s (suc left) lo hi = elim (ℕ_discrete s i) [
  | yes p ↦ ground arith
  | no p ↦
      let later = numbers-among i (suc s) left (omega (arith, lo, p)) (omega (arith, hi)) in
      ground (arith, later)
]

module _ ⦃c : Cuckoo⦄ ⦃r : Rocks⦄ (Now : Cache → World → Type 0) (R : Cache → Type 0)
    (Q : ℕ → Cache → Type 0) (n : ℕ) (task : ℕ → World → Run World) where
  -- A task runs without a panic: what holds before it and is kept by all, holds after it; what the
  -- task is for holds then, and what other tasks are for is kept.
  abbrev pub Does : Type 0
  Does =
      (i : ℕ) (a : Cache) (w : World)
      → i < n
      → R a
      → Now a w
      → (w' : World) × (a' : Cache) × (task i w ≡ ok w')
        × R a'
        × Q i a'
        × ((j : ℕ) → Q j a → Q j a')
        × Now a' w'

  run_each-Holds :
      Does
      → (l : List ℕ) (a : Cache) (w : World) → ((i : ℕ) → 0 < among i l → i < n)
      → R a
      → Now a w
      → (w' : World) × (a' : Cache) × (run_each task l w ≡ ok w')
        × R a'
        × ((j : ℕ) → 0 < among j l → Q j a')
        × ((j : ℕ) → Q j a → Q j a')
        × Now a' w'
  unfolding run_each among
  run_each-Holds does [] a w below kept now =
      (w, a, refl, kept, λ j found. absurd (omega (arith, found)), λ j q. q, now)
  run_each-Holds does (i ∷ l) a w below kept now =
      let (w₁, b, run, kept₁, own, others, now₁) = does i a w (below i (ground arith)) kept now in
      let (w₂, a', run', kept₂, rest, others', now₂) =
        run_each-Holds does l b w₁ (λ j found. below j (ground (arith, found))) kept₁ now₁ in
      (
        w₂,
        a',
        rw run run',
        kept₂,
        λ j found. elim (ℕ_discrete i j) [
          | yes p ↦ others' j (rw (← p) own)
          | no p ↦ rest j (ground (arith, found))
        ],
        λ j q. others' j (others j q),
        now₂,
      )

  pub spawn_each-Holds :
      (tasks : Walk)
      → Does
      → (a : Cache) (w : World) → R a
      → Now a w
      → (w' : World) × (a' : Cache) × (spawn_each tasks task n w ≡ ok w')
        × R a'
        × ((j : ℕ) → j < n → Q j a')
        × Now a' w'
  unfolding spawn_each
  spawn_each-Holds tasks does a w kept now =
      let (w', a', run, kept', all, _, now') =
        run_each-Holds does (tasks.visit (numbers 0 n)) a w
          (λ i found.
            among-numbers-lt i n (omega (arith, found, among-visit tasks i (numbers 0 n))))
          kept now in
      (
        w',
        a',
        run,
        kept',
        λ j lt. all j (
            omega (
              arith,
              numbers-among j 0 n (omega arith) (omega (arith, lt)),
              among-visit tasks j (numbers 0 n),
            )),
        now',
      )

  -- the same, in order
  pub run_all-Holds :
      Does
      → (a : Cache) (w : World) → R a
      → Now a w
      → (w' : World) × (a' : Cache) × (run_each task (numbers 0 n) w ≡ ok w') × R a' × Now a' w'
  run_all-Holds does a w kept now =
      let (w', a', run, kept', _, _, now') =
        run_each-Holds does (numbers 0 n) a w (λ i found. among-numbers-lt i n found) kept now in
      (w', a', run, kept', now')
