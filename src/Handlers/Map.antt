-- ===== src/Handlers/Map.antt =====
-- /query, /add and /del (rust/src/hcache.rs) on the cluster as one map.
use hcache.Base.{
  ℕ, ◌<◌, ◌≡◌, refl, ite, Option, some, none, [], arith, Text, text_discrete, ℕ_discrete,
}
use hcache.Base.Run.{ok}
use hcache.Dto.{InsrtRequest}
use hcache.External.Cuckoo.{Cuckoo}
use hcache.External.Rocks.{Rocks}
use hcache.External.Hasher.{Hasher}
use hcache.External.Serde.{Serde}
use hcache.Std.Walk.{Walk}
use hcache.Storage.{Storage, get_kv, insert_kv, zscore, remove_key}
use hcache.Storage.Views.{get_kv-insert_kv}
use hcache.Shard.{shard_of}
use hcache.Peer.{remove_all}
use hcache.Cluster.{Net, World}
use hcache.Cluster.Ready.{SameData, Updates}
use hcache.Http.{success}
use hcache.Handlers.{found, handle_query, handle_del, handle_add}
use hcache.Handlers.Routed.{IsServing, handle_query-Updates, handle_add-Updates, handle_del-Updates}

module _ ⦃c : Cuckoo⦄ ⦃r : Rocks⦄ ⦃h : Hasher⦄ where
  -- The value of a key in the cluster: what its owner holds.
  unfoldable pub cluster_get : ℕ → World → Text → Option Text
  cluster_get n w key = get_kv (w (shard_of key n)) key

  -- The score of a value of a key in the cluster.
  unfoldable pub cluster_score : ℕ → World → Text → Text → Option ℕ
  cluster_score n w key value = zscore (w (shard_of key n)) key value

  pub get_kv-SameData : (a b : Storage) (k : Text) → SameData a b → get_kv b k ≡ get_kv a k
  unfolding get_kv
  get_kv-SameData a b k same = rw same.kv refl

  zscore-SameData : (a b : Storage) (k v : Text) → SameData a b → zscore b k v ≡ zscore a k v
  unfolding zscore
  zscore-SameData a b k v same = ground (arith, same.zsets)

  module _ (net : Net) (n : ℕ) (w w' : World) (key : Text) (st : Storage)
      (u : Updates net n (shard_of key n) st w w') where
    -- a change of the owner's keys at `key` alone is a change of the cluster's map at `key` alone
    pub cluster_get-Updates :
        (value : Option Text)
        → ((k : Text)
            → get_kv st k ≡ ite (text_discrete key k) value (get_kv (w (shard_of key n)) k))
        → (k : Text) → cluster_get n w' k ≡ ite (text_discrete key k) value (cluster_get n w k)
    unfolding cluster_get
    cluster_get-Updates value changes k = elim (ℕ_discrete (shard_of k n) (shard_of key n)) [
      | yes p ↦ ground (arith, get_kv-SameData st (w' (shard_of key n)) k u.own, changes k)
      | no p ↦ ground (
        arith,
        get_kv-SameData (w (shard_of k n)) (w' (shard_of k n)) k (u.others (shard_of k n) p),
      )
    ]

    pub cluster_score-Updates :
        (new : Text → Option ℕ)
        → ((k v : Text)
            → zscore st k v ≡ ite (text_discrete key k) (new v) (zscore (w (shard_of key n)) k v))
        → (k v : Text)
        → cluster_score n w' k v ≡ ite (text_discrete key k) (new v) (cluster_score n w k v)
    unfolding cluster_score
    cluster_score-Updates new changes k v = elim (ℕ_discrete (shard_of k n) (shard_of key n)) [
      | yes p ↦ ground (arith, zscore-SameData st (w' (shard_of key n)) k v u.own, changes k v)
      | no p ↦ ground (
        arith,
        zscore-SameData (w (shard_of k n)) (w' (shard_of k n)) k v (u.others (shard_of k n) p),
      )
    ]

module _ ⦃c : Cuckoo⦄ ⦃r : Rocks⦄ ⦃h : Hasher⦄ ⦃s : Serde⦄ ⦃walk : Walk⦄ where
  module _ (net : Net) (n node : ℕ) (w : World) (serving : IsServing net n node w) where
    -- A later /query through any node, in a world that the request left.
    module _ (node₂ : ℕ) (member : node₂ < n) where
      query_then :
          (owner : ℕ) (st : Storage) (w' : World) (k : Text)
          → Updates net n owner st w w'
          → (w'' : World) × (handle_query net node₂ k w' ≡ ok (found (cluster_get n w' k), w''))
      unfolding cluster_get
      query_then owner st w' k u =
          let (w'', run, v) =
            handle_query-Updates net n node₂ w'
              (record {
                formed = u.formed;
                delivers = serving.delivers;
                member = member;
                small = serving.small;
              })
              k in
          (w'', run)

      -- In a formed cluster of at most 2 ^ 32 nodes, with every call delivered, an /add through one
      -- node, whose body is read, is answered with 200, and a /query through any node then answers
      -- with the new value at its key, and as before at every other key.
      pub query_after_add :
          (bytes : Text) (kv : InsrtRequest) (k : Text)
          → s.read_insrt bytes ≡ some kv
          → (w' : World) × (w'' : World) × (handle_add net node (some bytes) w
              ≡ ok (success [], w'))
            × (handle_query net node₂ k w'
                ≡ ok
                    (found (ite (text_discrete kv.key k) (some kv.value) (cluster_get n w k)), w''))
      query_after_add bytes kv k read =
          let own = shard_of kv.key n in
          let (w', run, u) = handle_add-Updates net n node w serving bytes kv read in
          let (w'', answer) = query_then own (insert_kv (w own) kv.key kv.value) w' k u in
          (
            w',
            w'',
            run,
            rw
                (cluster_get-Updates net n w w' kv.key (insert_kv (w own) kv.key kv.value) u
                  (some kv.value) (get_kv-insert_kv (w own) kv.key kv.value) k)
                at answer,
          )

      get_kv-remove_all :
          (key k : Text) (st : Storage)
          → get_kv (remove_all key st) k ≡ ite (text_discrete key k) none (get_kv st k)
      unfolding remove_all get_kv remove_key
      get_kv-remove_all key k st = c.get-remove st.kv key k

      -- In a formed cluster of at most 2 ^ 32 nodes, with every call delivered, a /del through one
      -- node is answered with 200, and a /query through any node then answers with 404 at its key,
      -- and as before at every other key.
      pub query_after_del :
          (key k : Text)
          → (w' : World) × (w'' : World) × (handle_del net node key w ≡ ok (success [], w'))
            × (handle_query net node₂ k w'
                ≡ ok (found (ite (text_discrete key k) none (cluster_get n w k)), w''))
      query_after_del key k =
          let own = shard_of key n in
          let (w', run, u) = handle_del-Updates net n node w serving key in
          let (w'', answer) = query_then own (remove_all key (w own)) w' k u in
          (
            w',
            w'',
            run,
            rw
                (cluster_get-Updates net n w w' key (remove_all key (w own)) u none
                  (λ j. get_kv-remove_all key j (w own)) k)
                at answer,
          )
