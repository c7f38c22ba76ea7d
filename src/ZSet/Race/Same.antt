-- ===== src/ZSet/Race/Same.antt =====
-- `zadd_memory` (rust/src/storage.rs) twice at once for one new value of a set.
use hcache.Base.{ℕ, ◌≡◌, ◌≢◌, refl, Bool, true, false, none, some, [], arith, Text}
use hcache.External.Cuckoo.{Cuckoo}
use hcache.Std.BTreeMap
use hcache.Std.HashSet
use hcache.ZSet.{ZSet, score_of, bucket, IsConsistent}
use hcache.ZSet.Add.{bucket-upsert}
use hcache.ZSet.Race.{
  Pc, idle, adding, naming, indexing, move, read_score, System, Step, moved, Reach, here, next,
}

module _ ⦃c : Cuckoo⦄ where
  -- two requests for the value, where they are, and the set
  abbrev pub both : Pc → Pc → Bool → Pc
  both p q false = p
  both p q true = q

  abbrev pub two : Pc → Pc → ZSet → System Bool
  two p q z = record { pcs = both p q; set = z }

  module _ (v : Text) where
    first-Step :
        (p p' q : Pc) (z z' : ZSet)
        → p' ≡ (move v p z).0
        → z' ≡ (move v p z).1
        → Step (λ i. v) (two p q z) (two p' q z')
    first-Step p p' q z z' pc set =
        moved (two p q z) (two p' q z') false pc set (λ j ne. other j ne)
      where
        other : (j : Bool) → j ≢ false → both p' q j ≡ both p q j
        other false ne = absurd (ne refl)
        other true ne = refl

    second-Step :
        (p q q' : Pc) (z z' : ZSet)
        → q' ≡ (move v q z).0
        → z' ≡ (move v q z).1
        → Step (λ i. v) (two p q z) (two p q' z')
    second-Step p q q' z z' pc set =
        moved (two p q z) (two p q' z') true pc set (λ j ne. other j ne)
      where
        other : (j : Bool) → j ≢ true → both p q' j ≡ both p q j
        other false ne = refl
        other true ne = absurd (ne refl)

    named : ZSet → ℕ → ZSet
    named z new = record z { value_to_score = c.insert z.value_to_score v new }

    indexed : ZSet → ℕ → ZSet
    indexed z new = record z {
      score_to_values = BTreeMap.upsert new [] (HashSet.insert v) z.score_to_values;
    }

    -- Both read that the value is new; both write its score; both put it in the bucket of theirs.
    overlap :
        (z : ZSet) (a b : ℕ)
        → score_of z v ≡ none
        → Reach
            (λ i. v)
            (two (adding a) (adding b) z)
            (two idle idle (indexed (indexed (named (named z a) b) a) b))
    unfolding move score_of read_score named indexed
    overlap z a b absent =
        next
          (next
            (next
              (next
                (next
                  (next here
                    (first-Step (adding a) (naming a) (adding b) z z (rw absent refl) refl))
                  (second-Step (naming a) (adding b) (naming b) z z (rw absent refl) refl))
                (first-Step (naming a) (indexing a) (naming b) z (named z a) refl refl))
              (second-Step (indexing a) (naming b) (indexing b) (named z a) (named (named z a) b)
                refl refl))
            (first-Step (indexing a) idle (indexing b) (named (named z a) b)
              (indexed (named (named z a) b) a) refl refl))
          (second-Step idle (indexing b) idle (indexed (named (named z a) b) a)
            (indexed (indexed (named (named z a) b) a) b) refl refl)

    -- If two zadds for one new value with different scores are at work at once on a set whose
    -- indexes agree, some order of their steps ends with the value in the buckets of both scores,
    -- while `value_to_score` has the second.
    pub value_at_two_scores :
        (z : ZSet) (a b : ℕ)
        → a ≢ b
        → IsConsistent z
        → score_of z v ≡ none
        → (z' : ZSet) × Reach (λ i. v) (two (adding a) (adding b) z) (two idle idle z')
          × (HashSet.occurs v (bucket a z'.score_to_values) ≡ 1)
          × (HashSet.occurs v (bucket b z'.score_to_values) ≡ 1)
          × (score_of z' v ≡ some b)
    unfolding indexed named score_of
    value_at_two_scores z a b differ h absent =
        let m = z.score_to_values in
        let m' = BTreeMap.upsert a [] (HashSet.insert v) m in
        let asc = BTreeMap.upsert-IsAscending a [] (HashSet.insert v) m h.ascending in
        (
          indexed (indexed (named (named z a) b) a) b,
          overlap z a b absent,
          ground (
            arith,
            bucket-upsert b a v v m' asc,
            bucket-upsert a a v v m h.ascending,
            h.agree v a,
          ),
          ground (
            arith,
            bucket-upsert b b v v m' asc,
            bucket-upsert a b v v m h.ascending,
            h.agree v b,
          ),
          ground (arith, c.get-insert (c.insert z.value_to_score v a) v v b),
        )
