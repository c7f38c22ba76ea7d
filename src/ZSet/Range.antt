-- ===== src/ZSet/Range.antt =====
-- `zrange` (rust/src/storage.rs) on one set.
use hcache.Base.{
  ℕ, ◌+◌, ◌≤◌, ◌<◌, ◌≡◌, refl, ite, Bool-cases, inl, inr, List, [], ◌∷◌, ◌++◌, map, arith, Text,
  text_discrete, ℕ_discrete, leb, ◌&&◌, if◌then◌else◌, ◌∙◌,
}
use hcache.Base.Run.{ok, fault, panicked}
use hcache.Dto.{ScoreValue, ScoreRange}
use hcache.External.Cuckoo.{Cuckoo}
use hcache.Std.BTreeMap
use hcache.Std.HashSet
use hcache.Std.Walk.{Walk}
use hcache.ZSet.{ZSet, scored, zrange, score_of, bucket, at_score, IsConsistent}
use mathlib.Core.List.{Permᴰ}
use mathlib.Core.Logic.{∥∥₁_elim}
use native.Mathlib.Nat.{ℕ_set}

-- How often a value stands in a reply with a score.
abbrev pub count_item : ℕ → Text → List ScoreValue → ℕ
count_item s v [] = 0
count_item s v (x ∷ xs) =
    ite (ℕ_discrete x.score s) (ite (text_discrete x.value v) 1 0) 0 + count_item s v xs

-- The scores are in ascending order, and none is below `lo`.
abbrev pub AscendsFrom : ℕ → List ScoreValue → Type 0
AscendsFrom lo [] = Unit
AscendsFrom lo (x ∷ xs) = (lo ≤ x.score) × AscendsFrom x.score xs

count_item-append :
    (s : ℕ) (v : Text) (xs ys : List ScoreValue)
    → count_item s v (xs ++ ys) ≡ count_item s v xs + count_item s v ys
count_item-append s v [] ys = omega arith
count_item-append s v (x ∷ xs) ys = omega (arith, count_item-append s v xs ys)

occurs-Permᴰ :
    (v : Text) {xs ys : List Text} → Permᴰ xs ys → HashSet.occurs v xs ≡ HashSet.occurs v ys
unfolding HashSet.occurs
occurs-Permᴰ v Permᴰ.nil = refl
occurs-Permᴰ v (Permᴰ.cons e p) = rw (e, occurs-Permᴰ v p)
occurs-Permᴰ v (Permᴰ.swap e f) = rw (e, f) (omega arith)
occurs-Permᴰ v (Permᴰ.trans p q) = occurs-Permᴰ v p ∙ occurs-Permᴰ v q

module _ ⦃w : Walk⦄ where
  pub occurs-visit :
      (v : Text) (xs : List Text) → HashSet.occurs v (w.visit xs) ≡ HashSet.occurs v xs
  occurs-visit v xs = ∥∥₁_elim (w.visit-perm xs) (ℕ_set _ _) (occurs-Permᴰ v)

  count_item-map :
      (k s : ℕ) (v : Text) (xs : List Text)
      → count_item s v (map (λ x. record { score = k; value = x }) xs)
        ≡ ite (ℕ_discrete k s) (HashSet.occurs v xs) 0
  unfolding HashSet.occurs
  count_item-map k s v [] = ground arith
  count_item-map k s v (x ∷ xs) = ground (arith, count_item-map k s v xs)

  count_item-scored :
      (s : ℕ) (v : Text) (m : List (ℕ × List Text))
      → BTreeMap.IsAscending m
      → count_item s v (scored m) ≡ HashSet.occurs v (bucket s m)
  unfolding scored bucket BTreeMap.get HashSet.occurs
  count_item-scored s v [] a = refl
  count_item-scored s v ((k, xs) ∷ m) a =
      rw
        (
          count_item-append s v (map (λ x. record { score = k; value = x }) (w.visit xs))
              (scored m),
          count_item-map k s v (w.visit xs),
          occurs-visit v xs,
        )
        (ground (arith, count_item-scored s v m a.1, BTreeMap.get-Above k k m))

  AscendsFrom-map :
      (lo k : ℕ) (xs : List Text) (rest : List ScoreValue)
      → lo ≤ k
      → AscendsFrom k rest
      → AscendsFrom lo (map (λ x. record { score = k; value = x }) xs ++ rest)
  AscendsFrom-map lo k [] [] h a = tt
  AscendsFrom-map lo k [] (y ∷ rest) h a = (omega arith, a.1)
  AscendsFrom-map lo k (x ∷ xs) rest h a = (h, AscendsFrom-map k k xs rest (omega arith) a)

  abbrev From : ℕ → List (ℕ × List Text) → Type 0
  From b [] = Unit
  From b ((k, xs) ∷ m) = (b ≤ k) × From b m

  From-Above : (b : ℕ) (m : List (ℕ × List Text)) → BTreeMap.Above b m → From b m
  From-Above b [] a = tt
  From-Above b ((k, xs) ∷ m) a = (omega arith, From-Above b m a.1)

  From-range : (lo hi : ℕ) (m : List (ℕ × List Text)) → From lo (BTreeMap.range lo hi m)
  unfolding BTreeMap.range
  From-range lo hi [] = tt
  From-range lo hi ((k, xs) ∷ m) = elim (Bool-cases (leb lo k && leb k hi)) [
    | inl e ↦ rw e (ground arith, From-range lo hi m)
    | inr e ↦ rw e (From-range lo hi m)
  ]

  AscendsFrom-scored :
      (lo : ℕ) (m : List (ℕ × List Text))
      → From lo m
      → BTreeMap.IsAscending m
      → AscendsFrom lo (scored m)
  unfolding scored
  AscendsFrom-scored lo [] f a = tt
  AscendsFrom-scored lo ((k, xs) ∷ m) f a =
      AscendsFrom-map lo k (w.visit xs) (scored m) f.0
        (AscendsFrom-scored k m (From-Above k m a.0) a.1)

  module _ ⦃c : Cuckoo⦄ where
    -- What a range query returns: the values with a score in the range, each once.
    pub record Lists (z : ZSet) (r : ScoreRange) (items : List ScoreValue) : Type 0 where
      pub sorted : AscendsFrom r.min_score items
      pub counted :
          (s : ℕ) (v : Text)
          → count_item s v items
            ≡ (if leb r.min_score s && leb s r.max_score then at_score (score_of z v) s else 0)

    -- If the two indexes of a sorted set agree and the range is not reversed, a range query returns
    -- a list in ascending order of scores that has each value with a score in the range exactly
    -- once and nothing else, in whatever order a `HashSet` is walked.
    pub zrange-Lists :
        (z : ZSet) (r : ScoreRange)
        → IsConsistent z
        → r.min_score ≤ r.max_score
        → (items : List ScoreValue) × (zrange z r ≡ ok items) × Lists z r items
    unfolding zrange bucket HashSet.occurs
    zrange-Lists z r h le =
        let m = BTreeMap.range r.min_score r.max_score z.score_to_values in
        let a = BTreeMap.range-IsAscending r.min_score r.max_score z.score_to_values h.ascending in
        (
          scored m,
          ground arith,
          record {
            sorted = AscendsFrom-scored r.min_score m (From-range r.min_score r.max_score _) a;
            counted = λ s v. rw (count_item-scored s v m a) (
                ground (
                  arith,
                  h.agree v s,
                  BTreeMap.get-range r.min_score r.max_score s z.score_to_values,
                ));
          },
        )

    pub zrange_reversed :
        (z : ZSet) (r : ScoreRange) → r.max_score < r.min_score → zrange z r ≡ fault panicked
    unfolding zrange
    zrange_reversed z r h = ground arith
