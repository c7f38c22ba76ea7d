-- ===== src/ZSet/Add.antt =====
-- `zadd_memory` and `zrmv` (rust/src/storage.rs) on the two indexes of one set.
use hcache.Base.{
  ℕ, ◌≡◌, ◌≢◌, ite, if_pos, if_neg, inl, inr, none, some, List, [], arith, Text, text_discrete,
  ℕ_discrete, Option-cases,
}
use Prim.Native.Nat.{max}
use hcache.External.Cuckoo.{Cuckoo}
use hcache.Std.BTreeMap
use hcache.Std.HashSet
use hcache.ZSet.{ZSet, empty, add_new, move_score, add, rmv, score_of, bucket, IsConsistent}

module _ ⦃c : Cuckoo⦄ where
  pub empty-IsConsistent : IsConsistent empty
  unfolding empty score_of bucket BTreeMap.get HashSet.occurs
  empty-IsConsistent = record { ascending = tt; agree = λ v s. rw (c.get-new v) }

  -- A zadd sets the score of its value and of no other.
  pub score_of-add :
      (z : ZSet) (v j : Text) (s : ℕ)
      → score_of (add z v s) j ≡ ite (text_discrete v j) (some s) (score_of z j)
  unfolding add score_of
  score_of-add z v j s = ground (arith, c.get-insert z.value_to_score v j s)

  pub score_of-rmv :
      (z : ZSet) (v j : Text) → score_of (rmv z v).1 j ≡ ite (text_discrete v j) none (score_of z j)
  unfolding rmv score_of
  score_of-rmv z v j =
      ground (arith, c.remove_with_guard-eq z.value_to_score v, c.get-remove z.value_to_score v j)

  pub score-rmv : (z : ZSet) (v : Text) → (rmv z v).0 ≡ score_of z v
  unfolding rmv score_of
  score-rmv z v = ground (arith, c.remove_with_guard-eq z.value_to_score v)

  pub bucket-upsert :
      (k s : ℕ) (v j : Text) (m : List (ℕ × List Text))
      → BTreeMap.IsAscending m
      → HashSet.occurs j (bucket s (BTreeMap.upsert k [] (HashSet.insert v) m))
        ≡ ite
            (ℕ_discrete k s)
            (ite
              (text_discrete v j)
              (max 1 (HashSet.occurs j (bucket s m)))
              (HashSet.occurs j (bucket s m)))
            (HashSet.occurs j (bucket s m))
  unfolding bucket HashSet.occurs
  bucket-upsert k s v j m a = ground (
    arith,
    BTreeMap.get-upsert k s [] (HashSet.insert v) m,
    HashSet.occurs-insert v j (bucket s m),
  )

  pub bucket-and_modify :
      (k s : ℕ) (v j : Text) (m : List (ℕ × List Text))
      → HashSet.occurs j (bucket s (BTreeMap.and_modify k (HashSet.remove v) m))
        ≡ ite
            (ℕ_discrete k s)
            (ite (text_discrete v j) 0 (HashSet.occurs j (bucket s m)))
            (HashSet.occurs j (bucket s m))
  unfolding bucket HashSet.occurs
  bucket-and_modify k s v j m = ground (
    arith,
    BTreeMap.get-and_modify k s (HashSet.remove v) m,
    HashSet.occurs-remove v j (bucket s m),
  )

  -- Each update keeps the two indexes in agreement.
  module _ {z : ZSet} (h : IsConsistent z) (v : Text) where
    add_new-IsConsistent : (s : ℕ) → score_of z v ≡ none → IsConsistent (add_new z v s)
    unfolding add_new score_of
    add_new-IsConsistent s absent = record {
      ascending = BTreeMap.upsert-IsAscending s [] (HashSet.insert v) _ h.ascending;
      agree = λ j t.
          rw (bucket-upsert s t v j z.score_to_values h.ascending)
            (ground (arith, h.agree j t, h.agree v t, c.get-insert z.value_to_score v j s));
    }

    move_score-IsConsistent :
        (old new : ℕ) → old ≢ new → score_of z v ≡ some old → IsConsistent (move_score z v old new)
    unfolding move_score score_of
    move_score-IsConsistent old new ne e =
        let less = BTreeMap.and_modify old (HashSet.remove v) z.score_to_values in
        let a =
          BTreeMap.and_modify-IsAscending old (HashSet.remove v) z.score_to_values h.ascending in
        record {
          ascending = BTreeMap.upsert-IsAscending new [] (HashSet.insert v) less a;
          agree = λ j t.
              rw (bucket-upsert new t v j less a, bucket-and_modify old t v j z.score_to_values)
                (ground (arith, h.agree j t, h.agree v t, c.get-insert z.value_to_score v j new));
        }

    -- If the two indexes of a sorted set agree, they agree after a zadd of any value with any
    -- score, in each of its three cases: a new value, a new score of a value, and the score that
    -- the value has.
    pub add-IsConsistent : (s : ℕ) → IsConsistent (add z v s)
    unfolding add score_of
    add-IsConsistent s = elim (Option-cases (c.get z.value_to_score v)) [
      | inl e ↦ rw (e, add) (add_new-IsConsistent s e)
      | inr (old, e) ↦
          rw (e, add)
            (elim (ℕ_discrete old s) [
              | yes p ↦ rw (if_pos _ p) h
              | no p ↦ rw (if_neg _ p) (move_score-IsConsistent old s p e)
            ])
    ]

    -- If the two indexes of a sorted set agree, they agree after a zrmv of any value, whether the
    -- set has it or not.
    pub rmv-IsConsistent : IsConsistent (rmv z v).1
    unfolding rmv score_of
    rmv-IsConsistent = elim (Option-cases (c.get z.value_to_score v)) [
      | inl e ↦
          rw (c.remove_with_guard-eq z.value_to_score v, e, rmv)
            (record {
              ascending = h.ascending;
              agree = λ j t. ground (
                arith,
                h.agree j t,
                c.remove_with_guard-eq z.value_to_score v,
                c.get-remove z.value_to_score v j,
              );
            })
      | inr (old, e) ↦
          rw (c.remove_with_guard-eq z.value_to_score v, e, rmv)
            (record {
              ascending = BTreeMap.and_modify-IsAscending old (HashSet.remove v) _ h.ascending;
              agree = λ j t. rw (bucket-and_modify old t v j z.score_to_values) (
                  ground (
                    arith,
                    h.agree j t,
                    h.agree v t,
                    c.remove_with_guard-eq z.value_to_score v,
                    c.get-remove z.value_to_score v j,
                  ));
            })
    ]
