-- ===== src/Handlers/Times.antt =====
-- Groups by nodes, walked in any order: how often each node stands in them.
use hcache.Base.{ℕ, ◌+◌, ◌≤◌, ◌≡◌, refl, ◌∙◌, ite, none, List, [], ◌∷◌, arith, ℕ_discrete}
use hcache.Std.BTreeMap
use hcache.Std.Walk.{Walk}
use mathlib.Core.List.{Permᴰ}
use mathlib.Core.Logic.{∥∥₁_elim}
use native.Mathlib.Nat.{ℕ_set}

module _ {V : Type 0} where
  -- How often a node stands in the groups.
  abbrev pub times : ℕ → List (ℕ × V) → ℕ
  times j [] = 0
  times j ((s, kvs) ∷ m) = ite (ℕ_discrete s j) 1 0 + times j m

  pub times-Permᴰ : (j : ℕ) {xs ys : List (ℕ × V)} → Permᴰ xs ys → times j xs ≡ times j ys
  times-Permᴰ j Permᴰ.nil = refl
  times-Permᴰ j (Permᴰ.cons e p) = rw (e, times-Permᴰ j p) refl
  times-Permᴰ j (Permᴰ.swap e f) = rw (e, f) (omega arith)
  times-Permᴰ j (Permᴰ.trans p q) = times-Permᴰ j p ∙ times-Permᴰ j q

  pub times-Above : (j b : ℕ) (m : List (ℕ × V)) → j ≤ b → BTreeMap.Above b m → times j m ≡ 0
  times-Above j b [] le a = refl
  times-Above j b ((s, kvs) ∷ m) le a = ground (arith, times-Above j b m le a.1, a.0)

  pub times-IsAscending :
      (j : ℕ) (m : List (ℕ × V))
      → BTreeMap.IsAscending m
      → (times j m ≤ 1) × (BTreeMap.get j m ≡ none → times j m ≡ 0)
  unfolding BTreeMap.get
  times-IsAscending j [] a = (omega arith, λ e. refl)
  times-IsAscending j ((s, kvs) ∷ m) a =
      let (once, absent) = times-IsAscending j m a.1 in
      (ground (arith, once, times-Above s s m (omega arith) a.0), λ e. ground (arith, absent))

  module _ ⦃walk : Walk⦄ where
    pub times-visit : (j : ℕ) (m : List (ℕ × V)) → times j (walk.visit m) ≡ times j m
    times-visit j m = ∥∥₁_elim (walk.visit-perm m) (ℕ_set _ _) (times-Permᴰ j)
