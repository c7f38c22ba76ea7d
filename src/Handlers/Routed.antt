-- ===== src/Handlers/Routed.antt =====
-- The handlers of one key (rust/src/hcache.rs) from any node to the owner of the key: responses and
-- changes of data.
use hcache.Base.{
  ℕ, ◌≤◌, ◌<◌, ◌^◌, ◌≡◌, ◌≢◌, refl, sym, inl, inr, Bool-cases, Option, some, List, [], arith, Text,
  ◌==◌, if◌then◌else◌,
}
use hcache.Base.Run.{ok, ◌>>=◌}
use hcache.Dto.{InsrtRequest, ScoreValue, ScoreRange}
use hcache.External.Cuckoo.{Cuckoo}
use hcache.External.Rocks.{Rocks}
use hcache.External.Hasher.{Hasher}
use hcache.External.Serde.{Serde}
use hcache.Std.Walk.{Walk}
use hcache.Storage
use hcache.Storage.{Storage, get_kv, insert_kv, remove_key}
use hcache.Shard.{shard_of}
use hcache.Peer
use hcache.Peer.{remove_all}
use hcache.Cluster.{
  Net, delivered, World, set_node, call_peer, get_kv_remote, insert_kv_remote, remove_key_remote,
  zadd_remote, zrmv_remote, zrange_remote,
}
use hcache.Cluster.Ready.{
  IsFormed, SamePlace, Updates, set_node-Updates, same-Updates, call_peer-Updates,
}
use hcache.Http.{success}
use hcache.Handlers.Owner.{own_shard-lt, own_shard-eq}
use hcache.Handlers.{
  found, remote_done, remote_found, handle_query, handle_del, handle_add, handle_zadd, handle_zrmv,
  handle_zrange, items_found, remote_items,
}

-- A cluster on which every call is delivered, and one node of it.
pub record IsServing ⦃c : Cuckoo⦄ ⦃r : Rocks⦄ (net : Net) (n node : ℕ) (w : World) : Type 0 where
  pub formed : IsFormed net n w
  pub delivers : (i : ℕ) → net.delivery i ≡ delivered
  pub member : node < n
  pub small : n ≤ 2 ^ 32

module _ ⦃c : Cuckoo⦄ ⦃r : Rocks⦄ ⦃h : Hasher⦄ ⦃s : Serde⦄ ⦃walk : Walk⦄ where
  module _ (net : Net) (n node : ℕ) (w : World) (serving : IsServing net n node w) where
    open serving use {formed, delivers, member, small}

    -- the shape of the handlers that write
    written :
        (own : ℕ) (g : Storage → Storage)
        → own < n
        → SamePlace (w own) (g (w own))
        → (w' : World) × ((if own == (w node).me
              then ok (success [], set_node w node (g (w node)))
              else (call_peer net node own (λ st. ok (tt, g st)) w >>= remote_done))
            ≡ ok (success [], w'))
          × Updates net n own (g (w own)) w w'
    unfolding remote_done
    written own g lt place = elim (Bool-cases (own == (w node).me)) [
      | inl e ↦
          let here : own ≡ node = ground (arith, formed.me node member) in
          (
            set_node w node (g (w node)),
            rw e refl,
            rw here (set_node-Updates net n w node (g (w node)) formed (rw (sym here) place)),
          )
      | inr e ↦
          let there : own ≢ node = ground (arith, formed.me node member) in
          let (w', run, updates) =
            call_peer-Updates net n w node own (λ st. ok (tt, g st)) tt (g (w own)) formed member lt
              there (delivers own) refl place in
          (w', rw (e, run) refl, updates)
    ]

    -- A /add changes the owner's data as `insert_kv` does, and answers 200.
    pub handle_add-Updates :
        (bytes : Text) (kv : InsrtRequest)
        → s.read_insrt bytes ≡ some kv
        → (w' : World) × (handle_add net node (some bytes) w ≡ ok (success [], w'))
          × Updates net n
              (shard_of kv.key n)
              (insert_kv (w (shard_of kv.key n)) kv.key kv.value)
              w
              w'
    unfolding handle_add insert_kv_remote Peer.add insert_kv
    handle_add-Updates bytes kv read =
        rw (read, own_shard-eq formed member kv.key)
          (written (shard_of kv.key n) (λ st. insert_kv st kv.key kv.value)
            (own_shard-lt formed member small kv.key)
            (record { count = refl; me = refl; pool = refl }))

    -- A /del takes the key and its sorted set from the owner's memory, and answers 200.
    pub handle_del-Updates :
        (key : Text)
        → (w' : World) × (handle_del net node key w ≡ ok (success [], w'))
          × Updates net n (shard_of key n) (remove_all key (w (shard_of key n))) w w'
    unfolding handle_del remove_key_remote Peer.del remove_all remove_key
    handle_del-Updates key = rw (own_shard-eq formed member key) (
        written (shard_of key n) (remove_all key) (own_shard-lt formed member small key)
          (record { count = refl; me = refl; pool = refl }))

    pub handle_zadd-Updates :
        (key bytes : Text) (sv : ScoreValue)
        → s.read_score_value bytes ≡ some sv
        → (w' : World) × (handle_zadd net node key (some bytes) w ≡ ok (success [], w'))
          × Updates net n (shard_of key n) (Storage.zadd (w (shard_of key n)) key sv) w w'
    unfolding handle_zadd zadd_remote Peer.zadd Storage.zadd Storage.zadd_memory Storage.put_member
    handle_zadd-Updates key bytes sv read =
        rw (read, own_shard-eq formed member key)
          (written (shard_of key n) (λ st. Storage.zadd st key sv)
            (own_shard-lt formed member small key)
            (record { count = refl; me = refl; pool = refl }))

    zrmv-SamePlace : (st : Storage) (key value : Text) → SamePlace st (Storage.zrmv st key value)
    unfolding Storage.zrmv
    zrmv-SamePlace st key value = record {
      count = ground arith;
      me = ground arith;
      pool = ground arith;
    }

    pub handle_zrmv-Updates :
        (key value : Text)
        → (w' : World) × (handle_zrmv net node key value w ≡ ok (success [], w'))
          × Updates net n (shard_of key n) (Storage.zrmv (w (shard_of key n)) key value) w w'
    unfolding handle_zrmv zrmv_remote Peer.zrmv
    handle_zrmv-Updates key value = rw (own_shard-eq formed member key) (
        written (shard_of key n) (λ st. Storage.zrmv st key value)
          (own_shard-lt formed member small key) (zrmv-SamePlace (w (shard_of key n)) key value))

    -- A /query answers with what the owner holds, and changes no data.
    pub handle_query-Updates :
        (key : Text)
        → (w' : World) × (handle_query net node key w
            ≡ ok (found (get_kv (w (shard_of key n)) key), w'))
          × Updates net n (shard_of key n) (w (shard_of key n)) w w'
    unfolding handle_query get_kv_remote Peer.query remote_found
    handle_query-Updates key =
        let own = shard_of key n in
        let same : SamePlace (w own) (w own) = record { count = refl; me = refl; pool = refl } in
        rw (own_shard-eq formed member key) (elim (Bool-cases (own == (w node).me)) [
          | inl e ↦
              let here : own ≡ node = ground (arith, formed.me node member) in
              (w, rw (e, here) refl, same-Updates net n w own formed)
          | inr e ↦
              let there : own ≢ node = ground (arith, formed.me node member) in
              let (w', run, updates) =
                call_peer-Updates net n w node own (Peer.query key) (get_kv (w own) key) (w own)
                  formed member (own_shard-lt formed member small key) there (delivers own) refl
                  same in
              (w', rw (e, run) refl, updates)
        ])

    pub handle_zrange-Updates :
        (key bytes : Text) (range : ScoreRange) (items : Option (List ScoreValue))
        → s.read_score_range bytes ≡ some range
        → Storage.zrange (w (shard_of key n)) key range ≡ ok items
        → (w' : World) × (handle_zrange net node key (some bytes) w ≡ ok (items_found items, w'))
          × Updates net n (shard_of key n) (w (shard_of key n)) w w'
    unfolding handle_zrange zrange_remote remote_items
    handle_zrange-Updates key bytes range items read runs =
        let own = shard_of key n in
        let same : SamePlace (w own) (w own) = record { count = refl; me = refl; pool = refl } in
        rw (read, own_shard-eq formed member key)
          (elim (Bool-cases (own == (w node).me)) [
            | inl e ↦
                let here : own ≡ node = ground (arith, formed.me node member) in
                (w, rw (e, ← here, runs) refl, same-Updates net n w own formed)
            | inr e ↦
                let there : own ≢ node = ground (arith, formed.me node member) in
                let (w', run, updates) =
                  call_peer-Updates net n w node own (Peer.zrange key range) items (w own) formed
                    member (own_shard-lt formed member small key) there (delivers own)
                    (unfold Peer.zrange in rw runs refl) same in
                (w', rw (e, run) refl, updates)
          ])
