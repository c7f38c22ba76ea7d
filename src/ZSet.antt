-- ===== src/ZSet.antt =====
-- rust/src/storage.rs, `ZSet`: the two indexes of a sorted set, and the parts of `zadd_memory`,
-- `zrange` and `zrmv` that work on one set.
pub mod Add
pub mod Range
pub mod Race
use hcache.Base.{
  ℕ, ◌+◌, ◌≡◌, ite, Option, none, some, List, [], ◌∷◌, ◌++◌, map, Text, ℕ_discrete, ltb,
  if◌then◌else◌,
}
use hcache.Base.Run.{Run, ok, fault, panicked}
use hcache.Dto.{ScoreValue, ScoreRange}
use hcache.External.Cuckoo.{Cuckoo}
use hcache.Std.BTreeMap
use hcache.Std.HashSet
use hcache.Std.Walk.{Walk}
use mathlib.Core.Option.{get_or}

-- `.map(|(score, assoc_values)| …).flatten().collect()`
unfoldable pub scored : ⦃w : Walk⦄ → List (ℕ × List Text) → List ScoreValue
scored ⦃w⦄ [] = []
scored ⦃w⦄ ((s, values) ∷ m) =
    map (λ v. record { score = s; value = v }) (w.visit values) ++ scored m

unfoldable pub bucket : ℕ → List (ℕ × List Text) → List Text
bucket s m = get_or (BTreeMap.get s m) []

-- 1 at the score that is given, and 0 at any other
abbrev pub at_score : Option ℕ → ℕ → ℕ
at_score none s = 0
at_score (some t) s = ite (ℕ_discrete t s) 1 0

module _ ⦃c : Cuckoo⦄ where
  pub record ZSet : Type 0 where
    pub value_to_score : c.Table ℕ
    pub score_to_values : List (ℕ × List Text)

  unfoldable pub empty : ZSet
  empty = record { value_to_score = c.new; score_to_values = [] }

  -- the second half of `zadd_memory`: both indexes take the new score
  unfoldable pub add_new : ZSet → Text → ℕ → ZSet
  add_new z value new_score = record {
    value_to_score = c.insert z.value_to_score value new_score;
    score_to_values = BTreeMap.upsert new_score [] (HashSet.insert value) z.score_to_values;
  }

  unfoldable pub move_score : ZSet → Text → ℕ → ℕ → ZSet
  move_score z value score new_score = record {
    value_to_score = c.insert z.value_to_score value new_score;
    score_to_values =
        BTreeMap.upsert new_score [] (HashSet.insert value)
          (BTreeMap.and_modify score (HashSet.remove value) z.score_to_values);
  }

  -- `zadd_memory`, from the read of the old score on
  unfoldable pub add : ZSet → Text → ℕ → ZSet
  unfolding add_new move_score
  add z value new_score = elim (c.get z.value_to_score value) [
    | some score ↦ ite (ℕ_discrete score new_score) z (move_score z value score new_score)
    | none ↦ add_new z value new_score
  ]

  -- the body of `zrmv` on the set of its key: the score that was removed, and the set
  unfoldable pub rmv : ZSet → Text → Option ℕ × ZSet
  rmv z value =
      let (score, scores) = c.remove_with_guard z.value_to_score value in
      elim score [
        | some s ↦ (
          some s,
          record {
            value_to_score = scores;
            score_to_values = BTreeMap.and_modify s (HashSet.remove value) z.score_to_values;
          },
        )
        | none ↦ (none, record z { value_to_score = scores })
      ]

  -- `BTreeMap::range` panics on a range whose start is above its end
  unfoldable pub zrange : ⦃w : Walk⦄ → ZSet → ScoreRange → Run (List ScoreValue)
  zrange z r =
      if ltb r.max_score r.min_score
      then fault panicked
      else ok (scored (BTreeMap.range r.min_score r.max_score z.score_to_values))

  -- What a set holds: the score of each value.
  unfoldable pub score_of : ZSet → Text → Option ℕ
  score_of z v = c.get z.value_to_score v

  -- The two indexes agree: a value stands once in the bucket of its score, and in no other.
  pub record IsConsistent (z : ZSet) : Type 0 where
    pub ascending : BTreeMap.IsAscending z.score_to_values
    pub agree :
        (v : Text) (s : ℕ)
        → HashSet.occurs v (bucket s z.score_to_values) ≡ at_score (score_of z v) s
