-- ===== src/Handlers/Scores.antt =====
-- /zadd, /zrmv, /zrange and /del (rust/src/hcache.rs) on the sorted sets of the cluster.
use hcache.Base.{ℕ, ◌≤◌, ◌≡◌, ◌≢◌, ite, some, none, List, [], arith, Text, text_discrete}
use hcache.Base.Run.{ok}
use hcache.Dto.{ScoreValue}
use hcache.External.Cuckoo.{Cuckoo}
use hcache.External.Rocks.{Rocks}
use hcache.External.Hasher.{Hasher}
use hcache.External.Serde.{Serde}
use hcache.Std.Walk.{Walk}
use hcache.Storage
use hcache.Storage.{Storage, get_kv, insert_kv, zscore, remove_key}
use hcache.Shard.{shard_of}
use hcache.Peer.{remove_all}
use hcache.Cluster.{Net, World}
use hcache.Http.{success}
use hcache.Handlers.{handle_del}
use hcache.Handlers.Routed.{IsServing, handle_del-Updates}
use hcache.Dto.{ScoreRange}
use hcache.Storage.Sound.{IsSound, ListsKey, zrange-ListsKey}
use hcache.Handlers.{handle_zrange, items_found}
use hcache.Handlers.Routed.{handle_zrange-Updates}
use hcache.Handlers.Map.{cluster_score, cluster_score-Updates}

module _ ⦃c : Cuckoo⦄ ⦃r : Rocks⦄ ⦃h : Hasher⦄ ⦃s : Serde⦄ ⦃walk : Walk⦄ where
  module _ (net : Net) (n node : ℕ) (w : World) (serving : IsServing net n node w) where
    zscore-remove_all :
        (key k v : Text) (st : Storage)
        → zscore (remove_all key st) k v ≡ ite (text_discrete key k) none (zscore st k v)
    unfolding remove_all zscore remove_key
    zscore-remove_all key k v st = ground (arith, c.get-remove st.zsets key k)

    -- In a formed cluster of at most 2 ^ 32 nodes, with every call delivered, a /del through one
    -- node is answered with 200 and takes every score of its key from the cluster's memory; every
    -- other score stays.
    pub score_after_del :
        (key : Text)
        → (w' : World) × (handle_del net node key w ≡ ok (success [], w'))
          × ((k v : Text)
              → cluster_score n w' k v ≡ ite (text_discrete key k) none (cluster_score n w k v))
    score_after_del key =
        let own = shard_of key n in
        let (w', run, u) = handle_del-Updates net n node w serving key in
        (
          w',
          run,
          cluster_score-Updates net n w w' key (remove_all key (w own)) u (λ _. none)
              (λ j v. zscore-remove_all key j v (w own)),
        )

    -- In a formed cluster of at most 2 ^ 32 nodes, with every call delivered, if the owner's
    -- indexes agree, the key has a sorted set and the range is not reversed, a /zrange through any
    -- node, whose body is read, is answered with a list in ascending order of scores that has each
    -- value of the key with a score in the range exactly once.
    pub zrange_lists :
        (key bytes : Text) (range : ScoreRange)
        → s.read_score_range bytes ≡ some range
        → range.min_score ≤ range.max_score
        → IsSound (w (shard_of key n))
        → c.get (w (shard_of key n)).zsets key ≢ none
        → (items : List ScoreValue) × (w' : World) × (handle_zrange net node key (some bytes) w
            ≡ ok (items_found (some items), w'))
          × ListsKey (w (shard_of key n)) key range items
    zrange_lists key bytes range read le sound present =
        let own = shard_of key n in
        let (items, runs, lists) = zrange-ListsKey (w own) key range sound le present in
        let (w', run, u) =
          handle_zrange-Updates net n node w serving key bytes range (some items) read runs in
        (items, w', run, lists)
