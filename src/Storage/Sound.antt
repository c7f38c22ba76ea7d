-- ===== src/Storage/Sound.antt =====
-- The sorted sets of a node (rust/src/storage.rs) as a table of sets: the agreement of their
-- indexes.
use hcache.Base.{
  ℕ, ◌≤◌, ◌≡◌, ◌≢◌, inl, inr, Option-cases, none, some, List, arith, Text, text_discrete, leb, ◌&&◌,
  if◌then◌else◌,
}
use hcache.Base.Run.{ok}
use hcache.Dto.{ScoreValue, ScoreRange}
use hcache.External.Cuckoo.{Cuckoo}
use hcache.External.Rocks.{Rocks}
use hcache.Std.Walk.{Walk}
use hcache.ZSet
use hcache.ZSet.{ZSet, at_score}
use hcache.ZSet.Add.{empty-IsConsistent, add-IsConsistent, rmv-IsConsistent}
use hcache.ZSet.Range.{count_item, AscendsFrom, zrange-Lists}
use hcache.Storage.{Storage, insert_kv, put_member, zadd_memory, zadd, zrmv, zrange, zscore}
use mathlib.Core.Option.{get_or}
use mathlib.Core.Path.{subst}

module _ ⦃c : Cuckoo⦄ ⦃r : Rocks⦄ where
  -- Every sorted set of the table has indexes that agree.
  pub record AllConsistent (t : c.Table ZSet) : Type 0 where
    pub at_key : (k : Text) (z : ZSet) → c.get t k ≡ some z → ZSet.IsConsistent z

  abbrev pub IsSound : Storage → Type 0
  IsSound st = AllConsistent st.zsets

  insert-AllConsistent :
      (t : c.Table ZSet) (k : Text) (z : ZSet)
      → ((j : Text) (y : ZSet) → k ≢ j → c.get t j ≡ some y → ZSet.IsConsistent y)
      → ZSet.IsConsistent z
      → AllConsistent (c.insert t k z)
  insert-AllConsistent t k z h hz = record {
    at_key = λ j y e. elim (text_discrete k j) [
      | yes p ↦
          let same : z ≡ y = ground (arith, c.get-insert t k j z) in subst ZSet.IsConsistent same hz
      | no p ↦ h j y p (ground (arith, c.get-insert t k j z))
    ];
  }

  get_or-IsConsistent :
      (t : c.Table ZSet) (k : Text)
      → AllConsistent t
      → ZSet.IsConsistent (get_or (c.get t k) ZSet.empty)
  get_or-IsConsistent t k h = elim (Option-cases (c.get t k)) [
    | inl e ↦ rw e empty-IsConsistent
    | inr (z, e) ↦ rw e (h.at_key k z e)
  ]

  pub zadd_memory-IsSound :
      (st : Storage) (k : Text) (sv : ScoreValue) → IsSound st → IsSound (zadd_memory st k sv)
  unfolding zadd_memory
  zadd_memory-IsSound st k sv h =
      insert-AllConsistent (c.get_or_insert st.zsets k ZSet.empty).1 k _
        (λ j y ne e. h.at_key j y (ground (arith, c.get-get_or_insert st.zsets k j ZSet.empty)))
        (add-IsConsistent
          (rw (c.get_or_insert-value st.zsets k ZSet.empty) (get_or-IsConsistent st.zsets k h))
          sv.value sv.score)

  -- If the indexes of every sorted set of a node agree, they agree after a zadd, also the one that
  -- creates a set.
  pub zadd-IsSound :
      (st : Storage) (k : Text) (sv : ScoreValue) → IsSound st → IsSound (zadd st k sv)
  unfolding zadd put_member
  zadd-IsSound st k sv h = zadd_memory-IsSound (put_member st k sv) k sv h

  -- If the indexes of every sorted set of a node agree, they agree after a zrmv.
  pub zrmv-IsSound : (st : Storage) (k v : Text) → IsSound st → IsSound (zrmv st k v)
  unfolding zrmv
  zrmv-IsSound st k v h = elim (Option-cases (c.get st.zsets k)) [
    | inl e ↦ rw (e, zrmv) h
    | inr (z, e) ↦
        rw (e, zrmv)
          (insert-AllConsistent st.zsets k _ (λ j y ne f. h.at_key j y f)
            (rmv-IsConsistent (h.at_key k z e) v))
  ]

  pub insert_kv-IsSound : (st : Storage) (k w : Text) → IsSound st → IsSound (insert_kv st k w)
  unfolding insert_kv
  insert_kv-IsSound st k w h = record {
    at_key = λ j y e. h.at_key j y (ground (arith, c.get-remove st.zsets k j));
  }

  -- What a range query of a key returns.
  pub record ListsKey (st : Storage) (k : Text) (range : ScoreRange) (items : List ScoreValue)
      : Type 0 where
    pub sorted : AscendsFrom range.min_score items
    pub counted :
        (s : ℕ) (v : Text)
        → count_item s v items ≡ (
            if leb range.min_score s && leb s range.max_score
            then at_score (zscore st k v) s
            else 0)

  module _ ⦃w : Walk⦄ where
    pub zrange-ListsKey :
        (st : Storage) (k : Text) (range : ScoreRange)
        → IsSound st
        → range.min_score ≤ range.max_score
        → c.get st.zsets k ≢ none
        → (items : List ScoreValue) × (zrange st k range ≡ ok (some items))
          × ListsKey st k range items
    unfolding zrange zscore
    zrange-ListsKey st k range h le present = elim (Option-cases (c.get st.zsets k)) [
      | inl e ↦ absurd (present e)
      | inr (z, e) ↦
          let (items, run, l) = zrange-Lists z range (h.at_key k z e) le in
          (
            items,
            rw (e, zrange, run),
            record { sorted = l.sorted; counted = λ s v. ground (arith, l.counted s v) },
          )
    ]
