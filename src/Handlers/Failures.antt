-- ===== src/Handlers/Failures.antt =====
-- The handlers of rust/src/hcache.rs where the call of the owner, or the work on it, fails.
use hcache.Base.{
  ℕ, ◌≤◌, ◌<◌, ◌^◌, ◌≡◌, ◌≢◌, refl, ◌∙◌, ite, inl, inr, Option-cases, some, none, arith, Text,
  text_discrete, ◌==◌, false, true,
}
use hcache.Base.Run.{ok, fault, panicked}
use hcache.Dto.{InsrtRequest, ScoreValue, ScoreRange}
use hcache.External.Cuckoo.{Cuckoo}
use hcache.External.Rocks.{Rocks}
use hcache.External.Hasher.{Hasher}
use hcache.External.Serde.{Serde}
use hcache.Std.Walk.{Walk}
use hcache.ZSet.Range.{zrange_reversed}
use hcache.Storage
use hcache.Storage.{Storage, zscore}
use hcache.Storage.Views.{zscore-zadd}
use hcache.Shard.{shard_of}
use hcache.Peer
use hcache.Cluster.{
  Net, World, delivered, request_lost, reply_lost, insert_kv_remote, zadd_remote, zrange_remote,
}
use hcache.Cluster.Ready.{IsFormed}
use hcache.Cluster.Losses.{Keeps, call_peer_request_lost, call_peer_reply_lost, call_peer_panics}
use hcache.Http.{server_error}
use hcache.Handlers.{handle_add, handle_zadd, handle_zrange, remote_done, remote_items}
use hcache.Handlers.Owner.{own_shard-lt, own_shard-eq}
use hcache.Handlers.Map.{cluster_score, cluster_score-Updates}

module _ ⦃c : Cuckoo⦄ ⦃r : Rocks⦄ ⦃h : Hasher⦄ ⦃s : Serde⦄ ⦃walk : Walk⦄ where
  module _ (net : Net) (n node : ℕ) (w : World) (formed : IsFormed net n w) (member : node < n)
      (small : n ≤ 2 ^ 32) where
    -- the test of the handlers, where the key belongs to another node
    elsewhere : (own : ℕ) → own ≢ node → (own == (w node).me) ≡ false
    elsewhere own there = ground (arith, formed.me node member)

    itself : (own : ℕ) → own ≡ node → (own == (w node).me) ≡ true
    itself own here = ground (arith, formed.me node member)

    -- In a formed cluster of at most 2 ^ 32 nodes, if another node owns the key of an /add, whose
    -- body is read, and the call of it is lost on its way, the request is answered with 500, and no
    -- node's data changes.
    pub add_unreached :
        (bytes : Text) (kv : InsrtRequest)
        → s.read_insrt bytes ≡ some kv
        → shard_of kv.key n ≢ node
        → net.delivery (shard_of kv.key n) ≡ request_lost
        → (w' : World) × (handle_add net node (some bytes) w ≡ ok (server_error, w'))
          × Keeps net n w w'
    unfolding handle_add insert_kv_remote remote_done
    add_unreached bytes kv read there lost =
        let own = shard_of kv.key n in
        let (w', run, keeps) =
          call_peer_request_lost net n w node own (Peer.add kv.key kv.value) formed member
            (own_shard-lt formed member small kv.key) lost in
        (w', rw (read, own_shard-eq formed member kv.key, elsewhere own there, run) refl, keeps)

    -- In a formed cluster of at most 2 ^ 32 nodes, if another node owns the key of a /zadd, whose
    -- body is read, and the answer of its call is lost, the request is answered with 500, and the
    -- score is set all the same, also if the key has a value; every other score of the cluster
    -- stays.
    pub zadd_unconfirmed :
        (key bytes : Text) (sv : ScoreValue)
        → s.read_score_value bytes ≡ some sv
        → shard_of key n ≢ node
        → net.delivery (shard_of key n) ≡ reply_lost
        → (w' : World) × (handle_zadd net node key (some bytes) w ≡ ok (server_error, w'))
          × ((k v : Text)
              → cluster_score n w' k v
                ≡ ite
                    (text_discrete key k)
                    (ite (text_discrete sv.value v) (some sv.score) (cluster_score n w k v))
                    (cluster_score n w k v))
    unfolding handle_zadd zadd_remote remote_done cluster_score Peer.zadd Storage.zadd
        Storage.zadd_memory Storage.put_member
    zadd_unconfirmed key bytes sv read there lost =
        let own = shard_of key n in
        let (w', run, u) =
          call_peer_reply_lost net n w node own (Peer.zadd key sv) formed member
            (own_shard-lt formed member small key) tt (Storage.zadd (w own) key sv) lost there refl
            (record { count = refl; me = refl; pool = refl }) in
        (
          w',
          rw (read, own_shard-eq formed member key, elsewhere own there, run) refl,
          λ k v.
              cluster_score-Updates net n w w' key (Storage.zadd (w own) key sv) u
                (λ v. ite (text_discrete sv.value v) (some sv.score) (zscore (w own) key v))
                (λ j u. ground (arith, zscore-zadd (w own) key sv j u)) k v
              ∙ ground arith,
        )

    zrange-reversed :
        (st : Storage) (key : Text) (range : ScoreRange)
        → range.max_score < range.min_score
        → c.get st.zsets key ≢ none
        → Storage.zrange st key range ≡ fault panicked
    unfolding Storage.zrange
    zrange-reversed st key range lt present = elim (Option-cases (c.get st.zsets key)) [
      | inl e ↦ absurd (present e)
      | inr (z, e) ↦ rw (e, Storage.zrange, zrange_reversed z range lt) refl
    ]

    -- In a formed cluster of at most 2 ^ 32 nodes, a /zrange, whose body is read, with a reversed
    -- range at another node than the one that owns its key, whose call is delivered, is answered
    -- with 500 if the key has a sorted set; no node's data changes.
    pub zrange_panics_there :
        (key bytes : Text) (range : ScoreRange)
        → s.read_score_range bytes ≡ some range
        → range.max_score < range.min_score
        → shard_of key n ≢ node
        → net.delivery (shard_of key n) ≡ delivered
        → c.get (w (shard_of key n)).zsets key ≢ none
        → (w' : World) × (handle_zrange net node key (some bytes) w ≡ ok (server_error, w'))
          × Keeps net n w w'
    unfolding handle_zrange zrange_remote remote_items Peer.zrange
    zrange_panics_there key bytes range read lt there arrived present =
        let own = shard_of key n in
        let (w', run, keeps) =
          call_peer_panics net n w node own (Peer.zrange key range) formed member
            (own_shard-lt formed member small key) panicked arrived there
            (rw (zrange-reversed (w own) key range lt present) refl) in
        (w', rw (read, own_shard-eq formed member key, elsewhere own there, run) refl, keeps)
