-- ===== src/Handlers/Ranges.antt =====
-- /zrange after /zadd and /zrmv (rust/src/hcache.rs) on the same key.
use hcache.Base.{
  ◌<◌, ap, sym, inl, inr, Option-cases, leb, ◌&&◌, if◌then◌else◌, ℕ, ◌≤◌, ◌≡◌, ◌≢◌, ◌∙◌, ite, some,
  none, List, [], arith, Text, text_discrete,
}
use hcache.Base.Run.{ok}
use hcache.Dto.{ScoreValue}
use hcache.External.Cuckoo.{Cuckoo}
use hcache.External.Rocks.{Rocks}
use hcache.External.Hasher.{Hasher}
use hcache.External.Serde.{Serde}
use hcache.Std.Walk.{Walk}
use hcache.Storage
use hcache.Storage.{Storage, get_kv, insert_kv, zscore, remove_key}
use hcache.Storage.Views.{zscore-zadd, zscore-zrmv}
use hcache.Shard.{shard_of}
use hcache.Cluster.{Net, World}
use hcache.Http.{success}
use hcache.Handlers.{handle_zadd, handle_zrmv}
use hcache.Handlers.Routed.{IsServing, handle_zadd-Updates, handle_zrmv-Updates}
use hcache.Dto.{ScoreRange}
use hcache.Storage.Sound.{IsSound, AllConsistent, ListsKey, zadd-IsSound, zrmv-IsSound}
use hcache.Handlers.{handle_zrange, items_found}
use hcache.ZSet
use hcache.ZSet.{at_score}
use hcache.ZSet.Range.{count_item, AscendsFrom}
use hcache.Cluster.Ready.{Updates}
use mathlib.Core.Path.{subst}
use hcache.Handlers.Scores.{zrange_lists}

module _ ⦃c : Cuckoo⦄ ⦃r : Rocks⦄ where
  -- a removal leaves a set, which may be empty, and an addition makes one
  zrmv_keeps :
      (st : Storage) (key value : Text)
      → c.get st.zsets key ≢ none
      → c.get (Storage.zrmv st key value).zsets key ≢ none
  unfolding Storage.zrmv
  zrmv_keeps st key value present = elim (Option-cases (c.get st.zsets key)) [
    | inl e ↦ absurd (present e)
    | inr (z, e) ↦
        rw (e, Storage.zrmv)
          (λ f. ground (arith, c.get-insert st.zsets key key (ZSet.rmv z value).1))
  ]

  zadd_makes :
      (st : Storage) (key : Text) (sv : ScoreValue)
      → c.get (Storage.zadd st key sv).zsets key ≢ none
  unfolding Storage.zadd Storage.zadd_memory Storage.put_member
  zadd_makes st key sv e = ground (
    arith,
    c.get-insert (c.get_or_insert st.zsets key ZSet.empty).1 key key
        (ZSet.add (c.get_or_insert st.zsets key ZSet.empty).0 sv.value sv.score),
  )

module _ ⦃c : Cuckoo⦄ ⦃r : Rocks⦄ ⦃h : Hasher⦄ ⦃s : Serde⦄ ⦃walk : Walk⦄ where
  -- What a /zrange finds after a request that has written the owner's data.
  zrange_lists_after :
      (net : Net) (n node reader : ℕ) (w w' : World) (serving : IsServing net n node w)
      → reader < n
      → (key bytes : Text) (range : ScoreRange) (st : Storage)
      → s.read_score_range bytes ≡ some range
      → range.min_score ≤ range.max_score
      → Updates net n (shard_of key n) st w w'
      → IsSound st
      → c.get st.zsets key ≢ none
      → (items : List ScoreValue) × (w'' : World) × (handle_zrange net reader key (some bytes) w'
          ≡ ok (items_found (some items), w''))
        × ListsKey st key range items
  unfolding zscore
  zrange_lists_after net n node reader w w' serving lt key bytes range st read le u sound present =
      let served : IsServing net n reader w' = record {
        formed = u.formed;
        delivers = serving.delivers;
        member = lt;
        small = serving.small;
      } in
      let own = w' (shard_of key n) in
      let same : st.zsets ≡ own.zsets = sym u.own.zsets in
      let (items, w'', run, lists) =
        zrange_lists net n reader w' served key bytes range read le (subst AllConsistent same sound)
          (subst (λ t. c.get t key ≢ none) same present) in
      (
        items,
        w'',
        run,
        record {
          sorted = lists.sorted;
          counted = λ sc v.
              lists.counted sc v
              ∙ ap
                  (λ t.
                    if leb range.min_score sc && leb sc range.max_score
                    then at_score (zscore (record st { zsets = t }) key v) sc
                    else 0)
                  u.own.zsets;
        },
      )

  module _ (net : Net) (n node reader : ℕ) (w : World) (serving : IsServing net n node w)
      (reads : reader < n) (key bytes : Text) (range : ScoreRange)
      (read : s.read_score_range bytes ≡ some range) (le : range.min_score ≤ range.max_score)
      (sound : IsSound (w (shard_of key n))) where
    -- In a formed cluster of at most 2 ^ 32 nodes, with every call delivered, if the owner's
    -- indexes agree and the key has a sorted set: a /zrmv through one node is answered with 200,
    -- and a /zrange through any node, whose body is read and whose range is not reversed, is then
    -- answered with a list in ascending order of scores that has each value of the key with a score
    -- in the range exactly once, but not the value that was removed.
    pub zrange_after_zrmv :
        (value : Text)
        → c.get (w (shard_of key n)).zsets key ≢ none
        → (w' : World) × (items : List ScoreValue) × (w'' : World) × (handle_zrmv net node key value
              w
            ≡ ok (success [], w'))
          × (handle_zrange net reader key (some bytes) w' ≡ ok (items_found (some items), w''))
          × AscendsFrom range.min_score items
          × ((sc : ℕ) (v : Text)
              → count_item sc v items ≡ (
                  if leb range.min_score sc && leb sc range.max_score
                  then at_score
                      (ite (text_discrete value v) none (zscore (w (shard_of key n)) key v))
                      sc
                  else 0))
    zrange_after_zrmv value present =
        let own = w (shard_of key n) in
        let (w', run, u) = handle_zrmv-Updates net n node w serving key value in
        let (items, w'', found, lists) =
          zrange_lists_after net n node reader w w' serving reads key bytes range
            (Storage.zrmv own key value) read le u (zrmv-IsSound own key value sound)
            (zrmv_keeps own key value present) in
        (
          w',
          items,
          w'',
          run,
          found,
          lists.sorted,
          λ sc v. lists.counted sc v ∙ ground (arith, zscore-zrmv own key value key v),
        )

    -- In a formed cluster of at most 2 ^ 32 nodes, with every call delivered, if the owner's
    -- indexes agree: a /zadd through one node, whose body is read, is answered with 200, and a
    -- /zrange of its key through any node, whose body is read and whose range is not reversed, is
    -- then answered with a list in ascending order of scores that has each value of the key with a
    -- score in the range exactly once, the value of the /zadd with its new score alone. This is so
    -- also if the key has a value.
    pub zrange_after_zadd :
        (body : Text) (sv : ScoreValue)
        → s.read_score_value body ≡ some sv
        → (w' : World) × (items : List ScoreValue) × (w'' : World) × (handle_zadd net node key
              (some body)
              w
            ≡ ok (success [], w'))
          × (handle_zrange net reader key (some bytes) w' ≡ ok (items_found (some items), w''))
          × AscendsFrom range.min_score items
          × ((sc : ℕ) (v : Text)
              → count_item sc v items ≡ (
                  if leb range.min_score sc && leb sc range.max_score
                  then at_score
                      (ite
                        (text_discrete sv.value v)
                        (some sv.score)
                        (zscore (w (shard_of key n)) key v))
                      sc
                  else 0))
    zrange_after_zadd body sv body_read =
        let own = w (shard_of key n) in
        let (w', run, u) = handle_zadd-Updates net n node w serving key body sv body_read in
        let (items, w'', found, lists) =
          zrange_lists_after net n node reader w w' serving reads key bytes range
            (Storage.zadd own key sv) read le u (zadd-IsSound own key sv sound)
            (zadd_makes own key sv) in
        (
          w',
          items,
          w'',
          run,
          found,
          lists.sorted,
          λ sc v. lists.counted sc v ∙ ground (arith, zscore-zadd own key sv key v),
        )
