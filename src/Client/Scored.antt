-- ===== src/Client/Scored.antt =====
-- What the checks of sorted sets in client/src/client.rs expect.
use hcache.Base.{
  ℕ, zero, suc, ◌+◌, ◌≤◌, ◌<◌, ◌≡◌, ◌⊎◌, inl, inr, refl, sym, ap, ◌∙◌, if_pos, Option, some, List,
  [], ◌∷◌, arith, Text, text_discrete, ℕ_discrete, leb, ◌&&◌, if◌then◌else◌,
}
use hcache.Base.Run.{ok, fault, panicked}
use hcache.Dto.{ScoreValue}
use hcache.External.Cuckoo.{Cuckoo}
use hcache.External.Rocks.{Rocks}
use hcache.Std.Decimal.{decimal}
use hcache.Cluster.{World}
use hcache.ZSet.Range.{count_item}
use hcache.Client.Spec.{Scores, score_in, scored}
use hcache.Client.CheckSets.{expect_scores, expect_items}
use hcache.Client.Ranked.{ranked, items_from, count_item-items_from, scores}
use hcache.Client.Expected.{expect-true}

cons_inj : {m n : ℕ} {l l' : List ℕ} → m ∷ l ≡ n ∷ l' → (m ≡ n) × (l ≡ l')
cons_inj e = (cc, cc)

ranked-some :
    (score : ℕ → ℕ) (i left : ℕ) (g : Scores)
    → (f : Scores) × (ranked score i left (some g) ≡ some f)
unfolding ranked
ranked-some score i zero g = (g, refl)
ranked-some score i (suc left) g =
    ranked-some score (suc i) left (scored (decimal i) (score i) (some g))

pub ranked-set :
    (score : ℕ → ℕ) (i left : ℕ) (o : Option Scores)
    → 0 < left
    → (f : Scores) × (ranked score i left o ≡ some f)
unfolding ranked
ranked-set score i zero o lt = absurd (omega (arith, lt))
ranked-set score i (suc left) o lt = ranked-some score (suc i) left (scored (decimal i) (score i) o)

-- what stands in the set, or is added to it
pub ranked-within :
    (score : ℕ → ℕ) (i left : ℕ) (o : Option Scores) (v : Text)
    → (score_in (ranked score i left o) v ≡ score_in o v)
      ⊎ ((j : ℕ) × (i ≤ j) × (j < i + left) × (decimal j ≡ v))
unfolding ranked
ranked-within score i zero o v = inl refl
ranked-within score i (suc left) o v = elim (text_discrete (decimal i) v) [
  | yes p ↦ inr (i, omega arith, omega arith, p)
  | no p ↦ elim (ranked-within score (suc i) left (some (scored (decimal i) (score i) o)) v) [
    | inl e ↦ inl (ground (arith, e))
    | inr (j, lo, hi, e) ↦ inr (j, omega (arith, lo), omega (arith, hi), e)
  ]
]

-- the range of a set of numbers that is asked for in whole
pub ranked-range :
    (score : ℕ → ℕ) (count hi s : ℕ) (v : Text)
    → ((j : ℕ) → j < count → score j ≤ hi)
    → (if leb 0 s && leb s hi then count_item s v (items_from score 0 count) else 0)
      ≡ count_item s v (items_from score 0 count)
ranked-range score count hi s v below =
    elim (ℕ_discrete (count_item s v (items_from score 0 count)) 0) [
      | yes p ↦ ground (arith, p)
      | no p ↦
          let (j, lo, up, e, f) = count_item-items_from score s v 0 count (omega (arith, p)) in
          let le : s ≤ hi = omega (arith, e, below j (omega (arith, up))) in ground (arith, le)
    ]

module _ ⦃c : Cuckoo⦄ ⦃r : Rocks⦄ where
  pub expect_scores-numbered :
      (score : ℕ → ℕ) (i left : ℕ) (l : List ScoreValue) (w : World)
      → scores l ≡ scores (items_from score i left)
      → expect_scores score i l w ≡ ok w
  unfolding expect_scores scores items_from
  expect_scores-numbered score i left [] w same = refl
  expect_scores-numbered score i zero (x ∷ l) w same = cc
  expect_scores-numbered score i (suc left) (x ∷ l) w same =
      let (e, rest) = cons_inj same in
      rw (expect-true x.score (score i) w e) (expect_scores-numbered score (suc i) left l w rest)

  pub expect_items-numbered :
      (score : ℕ → ℕ) (i left : ℕ) (l : List ScoreValue) (w : World)
      → ((j k : ℕ) → score j ≡ score k → j ≡ k)
      → scores l ≡ scores (items_from score i left)
      → ((s : ℕ) (v : Text) → 0 < count_item s v l → (j : ℕ) × (score j ≡ s) × (decimal j ≡ v))
      → expect_items score i l w ≡ ok w
  unfolding expect_items scores items_from
  expect_items-numbered score i left [] w inj same numbered = refl
  expect_items-numbered score i zero (x ∷ l) w inj same numbered = cc
  expect_items-numbered score i (suc left) (x ∷ l) w inj same numbered =
      let (e, rest) = cons_inj same in
      let (j, f, g) = numbered x.score x.value (ground arith) in
      let value : x.value ≡ decimal i = sym g ∙ ap decimal (inj j i (f ∙ e)) in
      rw
        (
          expect-true x.score (score i) w e,
          if_pos (text_discrete x.value (decimal i)) value (ok w) (fault panicked),
        )
        (expect_items-numbered score (suc i) left l w inj rest
          (λ s v found. numbered s v (ground (arith, found))))
