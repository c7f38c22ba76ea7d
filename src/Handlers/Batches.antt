-- ===== src/Handlers/Batches.antt =====
-- `handle_batch` (rust/src/hcache.rs) in a formed cluster.
use hcache.Base.{
  ℕ, ◌≤◌, ◌<◌, ◌^◌, ◌≡◌, ◌≢◌, refl, sym, ap, ◌∙◌, ite, false, none, some, List, [], ◌∷◌, arith,
  Text, ℕ_discrete, ◌==◌,
}
use hcache.Base.Run.{ok}
use hcache.Dto.{InsrtRequest}
use hcache.External.Cuckoo.{Cuckoo}
use hcache.External.Rocks.{Rocks}
use hcache.External.Hasher.{Hasher}
use hcache.External.Serde.{Serde}
use hcache.Std.BTreeMap
use hcache.Std.Walk.{Walk}
use hcache.Storage.{Storage, get_kv, insert_kv, batch_insert_kv}
use hcache.Storage.Views.{last_value, get_kv-insert_kv, get_kv-batch_insert_kv}
use hcache.Shard.{shard_of}
use hcache.Peer
use hcache.Peer.{insert_each}
use hcache.Cluster.{Net, World, delivered, set_node, batch_insert_kv_remote}
use hcache.Cluster.Ready.{IsFormed, SamePlace, Updates, call_peer-Updates, set_node-Updates}
use hcache.Http.{success}
use hcache.Handlers.{send_batches, shard_batch, handle_batch, detached}
use hcache.Handlers.Routed.{IsServing}
use hcache.Handlers.Map.{cluster_get, get_kv-SameData}
use hcache.Handlers.Times.{times, times-visit, times-IsAscending}
use hcache.Handlers.Grouped.{
  Groups, after_groups, after_groups-visit, after_groups-IsAscending, shard_batch-IsAscending,
  shard_batch-owner, shard_batch-lt,
}
use mathlib.Core.Option.{get_or}

module _ ⦃c : Cuckoo⦄ ⦃r : Rocks⦄ where
  get_kv-insert_each :
      (kvs : List InsrtRequest) (st : Storage) (k : Text)
      → get_kv (insert_each kvs st) k ≡ last_value k kvs (get_kv st k)
  unfolding insert_each
  get_kv-insert_each [] st k = refl
  get_kv-insert_each (kv ∷ kvs) st k =
      get_kv-insert_each kvs (insert_kv st kv.key kv.value) k
      ∙ ap (last_value k kvs) (get_kv-insert_kv st kv.key kv.value k)

  insert_each-SamePlace :
      (kvs : List InsrtRequest) (st : Storage) → SamePlace st (insert_each kvs st)
  unfolding insert_each insert_kv
  insert_each-SamePlace [] st = record { count = refl; me = refl; pool = refl }
  insert_each-SamePlace (kv ∷ kvs) st =
      let rest = insert_each-SamePlace kvs (insert_kv st kv.key kv.value) in
      record { count = rest.count; me = rest.me; pool = rest.pool }

module _ ⦃c : Cuckoo⦄ ⦃r : Rocks⦄ ⦃h : Hasher⦄ ⦃s : Serde⦄ ⦃walk : Walk⦄ where
  module _ (net : Net) (n node : ℕ) (member : node < n)
      (delivers : (i : ℕ) → net.delivery i ≡ delivered) where
    -- one call of a peer with its part of the batch
    pub send_one :
        (w : World) (shard : ℕ) (kvs : List InsrtRequest)
        → IsFormed net n w
        → shard < n
        → shard ≢ node
        → (w' : World) × (batch_insert_kv_remote net node kvs shard w ≡ ok (some tt, w'))
          × Updates net n shard (insert_each kvs (w shard)) w w'
    unfolding batch_insert_kv_remote Peer.batch
    send_one w shard kvs formed lt there =
        call_peer-Updates net n w node shard (Peer.batch kvs) tt (insert_each kvs (w shard)) formed
          member lt there (delivers shard) refl (insert_each-SamePlace kvs (w shard))

    get_kv-sent :
        (w w' : World) (shard : ℕ) (kvs : List InsrtRequest)
        → Updates net n shard (insert_each kvs (w shard)) w w'
        → (j : ℕ) (k : Text)
        → get_kv (w' j) k
          ≡ ite (ℕ_discrete shard j) (last_value k kvs (get_kv (w j) k)) (get_kv (w j) k)
    get_kv-sent w w' shard kvs u j k = elim (ℕ_discrete shard j) [
      | yes p ↦ ground (
        arith,
        get_kv-SameData (insert_each kvs (w shard)) (w' shard) k u.own,
        get_kv-insert_each kvs (w shard) k,
      )
      | no p ↦ ground (arith, get_kv-SameData (w j) (w' j) k (u.others j (λ e. p (sym e))))
    ]

    send_batches-after_groups :
        (l : Groups) (w : World)
        → IsFormed net n w
        → ((j : ℕ) → 0 < times j l → (j < n) × (j ≢ node))
        → IsFormed net n (send_batches net node l w)
          × ((j : ℕ) (k : Text)
              → get_kv (send_batches net node l w j) k ≡ after_groups j k l (get_kv (w j) k))
    unfolding send_batches detached
    send_batches-after_groups [] w formed targets = (formed, λ j k. refl)
    send_batches-after_groups ((shard, kvs) ∷ l) w formed targets =
        let (lt, there) = targets shard (ground arith) in
        let (w₁, run, u) = send_one w shard kvs formed lt there in
        let (formed', rest) =
          send_batches-after_groups l w₁ u.formed
            (λ j some_times. targets j (ground (arith, some_times))) in
        let e : (shard == (w node).me) ≡ false = ground (arith, formed.me node member) in
        rw (e, run, detached)
          (formed', λ j k. rest j k ∙ ap (after_groups j k l) (get_kv-sent w w₁ shard kvs u j k))

    module _ (w : World) (formed : IsFormed net n w) (small : n ≤ 2 ^ 32)
        (kvs : List InsrtRequest) where
      -- the groups of the peers, as `handle_batch` has them
      unfoldable pub peers_groups : Groups
      peers_groups = BTreeMap.remove node (shard_batch net node n kvs [])

      pub grouped : BTreeMap.IsAscending (shard_batch net node n kvs [])
      grouped = shard_batch-IsAscending net node n kvs [] tt

      pub peers_groups-targets :
          (j : ℕ) → 0 < times j (walk.visit peers_groups) → (j < n) × (j ≢ node)
      unfolding peers_groups
      peers_groups-targets j found =
          let asc = BTreeMap.remove-IsAscending node (shard_batch net node n kvs []) grouped in
          let in_groups : BTreeMap.get j peers_groups ≢ none = λ e. omega (
            arith,
            found,
            times-visit j peers_groups,
            (times-IsAscending j peers_groups asc).1 e,
          ) in
          let get = BTreeMap.get-remove node j (shard_batch net node n kvs []) in
          (
            shard_batch-lt net node n kvs [] j (omega (arith, member)) small tt
                (λ e. absurd (e (unfold BTreeMap.get in refl)))
                (λ e. in_groups (ground (arith, get, e))),
            λ e. in_groups (ground (arith, get, e)),
          )

      sent :
          IsFormed net n (send_batches net node (walk.visit peers_groups) w)
          × ((j : ℕ) (k : Text)
              → get_kv (send_batches net node (walk.visit peers_groups) w j) k
                ≡ last_value k (get_or (BTreeMap.get j peers_groups) []) (get_kv (w j) k))
      unfolding peers_groups
      sent =
          let (formed', after) =
            send_batches-after_groups (walk.visit peers_groups) w formed peers_groups-targets in
          let asc = BTreeMap.remove-IsAscending node (shard_batch net node n kvs []) grouped in
          (
            formed',
            λ j k.
                after j k
                ∙ after_groups-visit j k peers_groups (get_kv (w j) k)
                    (times-IsAscending j peers_groups asc).0
                ∙ after_groups-IsAscending j k peers_groups (get_kv (w j) k) asc,
          )

      -- the world that `handle_batch` leaves
      unfoldable pub batched : World
      batched =
          let ws = send_batches net node (walk.visit peers_groups) w in
          set_node ws node (
            batch_insert_kv (ws node)
              (get_or (BTreeMap.get node (shard_batch net node n kvs [])) []))

      pub batched-Updates :
          let ws = send_batches net node (walk.visit peers_groups) w in
          Updates net n node
            (batch_insert_kv
              (ws node)
              (get_or (BTreeMap.get node (shard_batch net node n kvs [])) []))
            ws
            batched
      unfolding batched batch_insert_kv
      batched-Updates =
          set_node-Updates net n (send_batches net node (walk.visit peers_groups) w) node _ sent.0
            (record { count = refl; me = refl; pool = refl })

      pub cluster_get-batched :
          (k : Text) → cluster_get n batched k ≡ last_value k kvs (cluster_get n w k)
      unfolding cluster_get peers_groups BTreeMap.get
      cluster_get-batched k =
          let ws = send_batches net node (walk.visit peers_groups) w in
          let own = shard_of k n in
          let mine = get_or (BTreeMap.get node (shard_batch net node n kvs [])) [] in
          let old = get_kv (w own) k in
          let owner = shard_batch-owner net node n kvs [] k old tt in
          let got = BTreeMap.get-remove node own (shard_batch net node n kvs []) in
          elim (ℕ_discrete own node) [
            | yes p ↦ ground (
              arith,
              owner,
              got,
              sent.1 own k,
              get_kv-SameData (batch_insert_kv (ws node) mine) (batched node) k batched-Updates.own,
              get_kv-batch_insert_kv (ws node) mine k,
            )
            | no p ↦ ground (
              arith,
              owner,
              got,
              sent.1 own k,
              get_kv-SameData (ws own) (batched own) k (batched-Updates.others own p),
            )
          ]

  module _ (net : Net) (n node : ℕ) (w : World) (serving : IsServing net n node w) where
    -- the world that a batch leaves
    pub handle_batch-batched :
        (bytes : Text) (kvs : List InsrtRequest)
        → s.read_batch bytes ≡ some kvs
        → handle_batch net node (some bytes) w
          ≡ ok (
            success [],
            batched net n node serving.member serving.delivers w serving.formed serving.small kvs,
          )
    unfolding handle_batch batched peers_groups
    handle_batch-batched bytes kvs read =
        rw (read, serving.formed.count node serving.member, serving.formed.me node serving.member)
          refl

    -- In a formed cluster of at most 2 ^ 32 nodes, with every call delivered, a /batch through one
    -- node, whose body is read, is answered with 200, and then every key has in the cluster the
    -- last value that the batch gives it, or else the one that it had, in whatever order the parts
    -- of the batch are sent; the cluster stays formed.
    pub cluster_get_after_batch :
        (bytes : Text) (kvs : List InsrtRequest)
        → s.read_batch bytes ≡ some kvs
        → (w' : World) × (handle_batch net node (some bytes) w ≡ ok (success [], w'))
          × IsFormed net n w'
          × ((k : Text) → cluster_get n w' k ≡ last_value k kvs (cluster_get n w k))
    cluster_get_after_batch bytes kvs read = (
      batched net n node serving.member serving.delivers w serving.formed serving.small kvs,
      handle_batch-batched bytes kvs read,
      (batched-Updates net n node serving.member serving.delivers w serving.formed serving.small
          kvs).formed,
      cluster_get-batched net n node serving.member serving.delivers w serving.formed serving.small
          kvs,
    )
