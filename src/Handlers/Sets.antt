-- ===== src/Handlers/Sets.antt =====
-- `handle_batch` (rust/src/hcache.rs) in a formed cluster: what becomes of the sorted sets.
use hcache.Base.{
  ℕ, ◌≤◌, ◌<◌, ◌^◌, ◌≡◌, ◌≢◌, refl, sym, ◌∙◌, ite, false, Option, none, some, List, [], ◌∷◌, arith,
  Text, text_discrete, ℕ_discrete, ◌==◌,
}
use hcache.Dto.{InsrtRequest}
use hcache.External.Cuckoo.{Cuckoo}
use hcache.External.Rocks.{Rocks}
use hcache.External.Hasher.{Hasher}
use hcache.External.Serde.{Serde}
use hcache.Std.BTreeMap
use hcache.Std.Walk.{Walk}
use hcache.ZSet.{ZSet}
use hcache.Storage.{Storage, insert_kv, batch_insert_kv}
use hcache.Storage.Views.{last_value, unless, unless-last_value}
use hcache.Shard.{shard_of}
use hcache.Peer.{insert_each}
use hcache.Cluster.{Net, World, delivered}
use hcache.Cluster.Ready.{IsFormed, Updates}
use hcache.Base.Run.{ok}
use hcache.Http.{success}
use hcache.Handlers.Routed.{IsServing}
use hcache.Handlers.{send_batches, shard_batch, detached, handle_batch}
use hcache.Handlers.Times.{times, times-IsAscending}
use hcache.Handlers.Grouped.{
  Groups, after_groups, after_groups-visit, after_groups-IsAscending, shard_batch-owner,
}
use hcache.Handlers.Batches.{
  send_one, peers_groups, grouped, peers_groups-targets, handle_batch-batched, batched,
  batched-Updates,
}
use mathlib.Core.Option.{get_or}

unless-after_groups :
    {B : Type 0} (j : ℕ) (k : Text) (l : Groups) (x : Option Text) (old : Option B)
    → unless (after_groups j k l x) old ≡ unless (after_groups j k l none) (unless x old)
unless-after_groups j k [] x old = refl
unless-after_groups j k ((s, kvs) ∷ l) x old = elim (ℕ_discrete s j) [
  | yes p ↦ ground (
    arith,
    unless-after_groups j k l (last_value k kvs x) old,
    unless-after_groups j k l (last_value k kvs none) (unless x old),
    unless-last_value k kvs x old,
  )
  | no p ↦ ground (arith, unless-after_groups j k l x old)
]

module _ ⦃c : Cuckoo⦄ ⦃r : Rocks⦄ where
  -- the sorted set of a key at a node
  unfoldable pub zset_of : Storage → Text → Option ZSet
  zset_of st k = c.get st.zsets k

  zset_of-insert_each :
      (kvs : List InsrtRequest) (st : Storage) (k : Text)
      → zset_of (insert_each kvs st) k ≡ unless (last_value k kvs none) (zset_of st k)
  unfolding insert_each zset_of insert_kv
  zset_of-insert_each [] st k = refl
  zset_of-insert_each (kv ∷ kvs) st k = elim (text_discrete kv.key k) [
    | yes p ↦ ground (
      arith,
      zset_of-insert_each kvs (insert_kv st kv.key kv.value) k,
      unless-last_value k kvs (some kv.value) (c.get st.zsets k),
      c.get-remove st.zsets kv.key k,
    )
    | no p ↦ ground (
      arith,
      zset_of-insert_each kvs (insert_kv st kv.key kv.value) k,
      c.get-remove st.zsets kv.key k,
    )
  ]

module _ ⦃c : Cuckoo⦄ ⦃r : Rocks⦄ ⦃h : Hasher⦄ ⦃s : Serde⦄ ⦃walk : Walk⦄ where
  module _ (net : Net) (n node : ℕ) (member : node < n)
      (delivers : (i : ℕ) → net.delivery i ≡ delivered) where
    zset_of-sent :
        (w w' : World) (shard : ℕ) (kvs : List InsrtRequest)
        → Updates net n shard (insert_each kvs (w shard)) w w'
        → (j : ℕ) (k : Text)
        → zset_of (w' j) k
          ≡ ite
              (ℕ_discrete shard j)
              (unless (last_value k kvs none) (zset_of (w j) k))
              (zset_of (w j) k)
    unfolding zset_of
    zset_of-sent w w' shard kvs u j k = elim (ℕ_discrete shard j) [
      | yes p ↦ ground (arith, u.own.zsets, zset_of-insert_each kvs (w shard) k)
      | no p ↦ ground (arith, (u.others j (λ e. p (sym e))).zsets)
    ]

    zset_of-send_batches :
        (l : Groups) (w : World)
        → IsFormed net n w
        → ((j : ℕ) → 0 < times j l → (j < n) × (j ≢ node))
        → (j : ℕ) (k : Text)
        → zset_of (send_batches net node l w j) k
          ≡ unless (after_groups j k l none) (zset_of (w j) k)
    unfolding send_batches detached
    zset_of-send_batches [] w formed targets j k = refl
    zset_of-send_batches ((shard, kvs) ∷ l) w formed targets j k =
        let (lt, there) = targets shard (ground arith) in
        let (w₁, run, u) = send_one net n node member delivers w shard kvs formed lt there in
        let rest =
          zset_of-send_batches l w₁ u.formed
            (λ i some_times. targets i (ground (arith, some_times))) j k in
        let one = zset_of-sent w w₁ shard kvs u j k in
        let e : (shard == (w node).me) ≡ false = ground (arith, formed.me node member) in
        rw (e, run, detached)
          (elim (ℕ_discrete shard j) [
            | yes p ↦ ground (
              arith,
              rest,
              one,
              unless-after_groups j k l (last_value k kvs none) (zset_of (w j) k),
            )
            | no p ↦ ground (arith, rest, one)
          ])

    module _ (w : World) (formed : IsFormed net n w) (small : n ≤ 2 ^ 32)
        (kvs : List InsrtRequest) where
      -- The set of a key at any node goes if the parts of the batch that the node takes name it.
      pub zset_of-batched_at :
          (j : ℕ) (k : Text)
          → zset_of (batched net n node member delivers w formed small kvs j) k
            ≡ unless
                (last_value k
                  (get_or
                    (BTreeMap.get j (peers_groups net n node member delivers w formed small kvs))
                    [])
                  none)
                (zset_of (w j) k)
      unfolding zset_of batch_insert_kv
      zset_of-batched_at j k =
          let groups = peers_groups net n node member delivers w formed small kvs in
          let asc : BTreeMap.IsAscending groups =
            unfold peers_groups in
            BTreeMap.remove-IsAscending node (shard_batch net node n kvs [])
              (grouped net n node member delivers w formed small kvs) in
          let sent =
            zset_of-send_batches (walk.visit groups) w formed
              (peers_groups-targets net n node member delivers w formed small kvs) j k in
          let order =
            after_groups-visit j k groups none (times-IsAscending j groups asc).0
            ∙ after_groups-IsAscending j k groups none asc in
          let u = batched-Updates net n node member delivers w formed small kvs in
          elim (ℕ_discrete j node) [
            | yes p ↦ ground (arith, sent, order, u.own.zsets)
            | no p ↦ ground (arith, sent, order, (u.others j p).zsets)
          ]

      -- A batch takes the sorted sets of its keys away, but for the keys of the node itself.
      pub zset_of-batched :
          (k : Text)
          → zset_of (batched net n node member delivers w formed small kvs (shard_of k n)) k
            ≡ ite
                (ℕ_discrete (shard_of k n) node)
                (zset_of (w (shard_of k n)) k)
                (unless (last_value k kvs none) (zset_of (w (shard_of k n)) k))
      unfolding peers_groups BTreeMap.get
      zset_of-batched k =
          let own = shard_of k n in
          let m = shard_batch net node n kvs [] in
          let at_owner = zset_of-batched_at own k in
          let owner = shard_batch-owner net node n kvs [] k none tt in
          let got = BTreeMap.get-remove node own m in
          elim (ℕ_discrete own node) [
            | yes p ↦ ground (arith, at_owner, owner, got)
            | no p ↦ ground (arith, at_owner, owner, got)
          ]

  -- In a formed cluster of at most 2 ^ 32 nodes, with every call delivered, a /batch through one
  -- node, whose body is read, is answered with 200; then the owner of a key has the sorted set of
  -- the key as before if it is that node or the batch does not name the key, and has none
  -- otherwise.
  pub sets_after_batch :
      (net : Net) (n node : ℕ) (w : World) (bytes : Text) (kvs : List InsrtRequest)
      → IsServing net n node w
      → s.read_batch bytes ≡ some kvs
      → (w' : World) × (handle_batch net node (some bytes) w ≡ ok (success [], w'))
        × ((k : Text)
            → zset_of (w' (shard_of k n)) k
              ≡ ite
                  (ℕ_discrete (shard_of k n) node)
                  (zset_of (w (shard_of k n)) k)
                  (unless (last_value k kvs none) (zset_of (w (shard_of k n)) k)))
  sets_after_batch net n node w bytes kvs serving read = (
    batched net n node serving.member serving.delivers w serving.formed serving.small kvs,
    handle_batch-batched net n node w serving bytes kvs read,
    zset_of-batched net n node serving.member serving.delivers w serving.formed serving.small kvs,
  )
