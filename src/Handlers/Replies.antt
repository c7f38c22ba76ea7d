-- ===== src/Handlers/Replies.antt =====
-- `handle_list` (rust/src/hcache.rs) in a formed cluster.
use hcache.Base.{
  ℕ, ◌≤◌, ◌<◌, ◌^◌, ◌≡◌, ◌≢◌, refl, sym, ap, ◌∙◌, false, none, some, List, [], ◌∷◌, ◌++◌, arith,
  Text, ℕ_discrete, ◌==◌,
}
use Prim.Native.Nat.{min}
use hcache.Base.Run.{ok}
use hcache.Dto.{InsrtRequest}
use hcache.External.Cuckoo.{Cuckoo}
use hcache.External.Rocks.{Rocks}
use hcache.External.Hasher.{Hasher}
use hcache.External.Serde.{Serde}
use hcache.Std.BTreeMap
use hcache.Std.HashSet
use hcache.Std.Walk.{Walk}
use hcache.ZSet.Range.{occurs-visit}
use hcache.Storage.{get_kv, list_keys}
use hcache.Shard.{shard_of}
use hcache.Peer
use hcache.Peer.{listed}
use hcache.Cluster.{Net, World, delivered, list_keys_remote}
use hcache.Cluster.Ready.{IsFormed, SameData, SameData-refl, SameData-trans, call_peer-Updates}
use hcache.Handlers.{ask_peers, awaited, shard_keys, handle_list, entries_found}
use hcache.Handlers.Routed.{IsServing}
use hcache.Handlers.Map.{cluster_get, get_kv-SameData}
use hcache.Handlers.Times.{times, times-visit, times-IsAscending}
use hcache.Handlers.Listed.{
  KeyGroups, count_entry, count_entry-append, if_value, if_value-zero, total, OnlyAt,
  total-IsAscending, OnlyAt-remove, OnlyAt-get, count_entry-filter_found, count_entry-listed, held,
  held-OnlyAt, held-visit,
}
use hcache.Handlers.Listed.Owners.{
  shard_keys-IsAscending, shard_keys-OnlyAt, shard_keys-owner, shard_keys-lt,
}
use mathlib.Core.Option.{get_or}
use mathlib.Core.Path.{subst}

module _ ⦃c : Cuckoo⦄ ⦃r : Rocks⦄ where
  held-same :
      (w w' : World) (k v : Text) (m : KeyGroups)
      → ((j : ℕ) → get_kv (w' j) k ≡ get_kv (w j) k)
      → held w' k v m ≡ held w k v m
  held-same w w' k v [] same = refl
  held-same w w' k v ((s, ks) ∷ m) same = rw (same s, held-same w w' k v m same) refl

module _ ⦃c : Cuckoo⦄ ⦃r : Rocks⦄ ⦃h : Hasher⦄ ⦃s : Serde⦄ ⦃walk : Walk⦄ where
  module _ (net : Net) (n node : ℕ) (member : node < n)
      (delivers : (i : ℕ) → net.delivery i ≡ delivered) where
    -- one call of a peer for its keys
    ask_one :
        (w : World) (shard : ℕ) (keys : List Text)
        → IsFormed net n w
        → shard < n
        → shard ≢ node
        → (w' : World) × (list_keys_remote net node keys shard w
            ≡ ok (some (listed keys (w shard)), w'))
          × IsFormed net n w'
          × ((j : ℕ) → SameData (w j) (w' j))
    unfolding list_keys_remote Peer.list
    ask_one w shard keys formed lt there =
        let (w', run, u) =
          call_peer-Updates net n w node shard (Peer.list keys) (listed keys (w shard)) (w shard)
            formed member lt there (delivers shard) refl
            (record { count = refl; me = refl; pool = refl }) in
        (
          w',
          run,
          u.formed,
          λ j. elim (ℕ_discrete j shard) [
            | yes p ↦ subst (λ i. SameData (w i) (w' i)) (sym p) u.own
            | no p ↦ u.others j p
          ],
        )

    -- the calls change no data
    ask_peers-same :
        (l : KeyGroups) (w : World)
        → IsFormed net n w
        → ((j : ℕ) → 0 < times j l → (j < n) × (j ≢ node))
        → IsFormed net n (ask_peers net node l w).1
          × ((j : ℕ) → SameData (w j) ((ask_peers net node l w).1 j))
    unfolding ask_peers awaited
    ask_peers-same [] w formed targets = (formed, λ j. SameData-refl (w j))
    ask_peers-same ((shard, ks) ∷ l) w formed targets =
        let (lt, there) = targets shard (ground arith) in
        let (w₁, run, formed₁, same) = ask_one w shard (walk.visit ks) formed lt there in
        let (formed', rest) =
          ask_peers-same l w₁ formed₁ (λ j some_times. targets j (ground (arith, some_times))) in
        let e : (shard == (w node).me) ≡ false = ground (arith, formed.me node member) in
        rw (e, run, awaited) (formed', λ j. SameData-trans (same j) (rest j))

    ask_peers-held :
        (l : KeyGroups) (w : World)
        → IsFormed net n w
        → ((j : ℕ) → 0 < times j l → (j < n) × (j ≢ node))
        → (k v : Text) → count_entry k v (ask_peers net node l w).0 ≡ held w k v l
    unfolding ask_peers awaited
    ask_peers-held [] w formed targets k v = refl
    ask_peers-held ((shard, ks) ∷ l) w formed targets k v =
        let (lt, there) = targets shard (ground arith) in
        let (w₁, run, formed₁, same) = ask_one w shard (walk.visit ks) formed lt there in
        let rest =
          ask_peers-held l w₁ formed₁ (λ j some_times. targets j (ground (arith, some_times))) k
            v in
        let e : (shard == (w node).me) ≡ false = ground (arith, formed.me node member) in
        rw (e, run, awaited)
          (count_entry-append k v (listed (walk.visit ks) (w shard)) (ask_peers net node l w₁).0
            ∙ ground (
              arith,
              rest,
              held-same w w₁ k v l (λ j. get_kv-SameData (w j) (w₁ j) k (same j)),
              count_entry-listed (w shard) (walk.visit ks) k v,
              occurs-visit k ks,
            ))

    module _ (w : World) (formed : IsFormed net n w) (small : n ≤ 2 ^ 32) (keys : List Text) where
      asked : KeyGroups
      asked = BTreeMap.remove node (shard_keys net node n keys [])

      sharded-IsAscending : BTreeMap.IsAscending (shard_keys net node n keys [])
      sharded-IsAscending = shard_keys-IsAscending net node n keys [] tt

      asked-targets : (j : ℕ) → 0 < times j (walk.visit asked) → (j < n) × (j ≢ node)
      unfolding asked
      asked-targets j found =
          let asc =
            BTreeMap.remove-IsAscending node (shard_keys net node n keys []) sharded-IsAscending in
          let in_groups : BTreeMap.get j asked ≢ none =
            λ e. omega (arith, found, times-visit j asked, (times-IsAscending j asked asc).1 e) in
          let get = BTreeMap.get-remove node j (shard_keys net node n keys []) in
          (
            shard_keys-lt net node n keys [] j (omega (arith, member)) small tt
                (λ e. absurd (e (unfold BTreeMap.get in refl)))
                (λ e. in_groups (ground (arith, get, e))),
            λ e. in_groups (ground (arith, get, e)),
          )

      -- the entries of the reply, before it is written
      entries : List InsrtRequest
      entries =
          list_keys (w node) (get_or (BTreeMap.get node (shard_keys net node n keys [])) [])
          ++ (ask_peers net node (walk.visit asked) w).0

      count_entry-entries :
          (k v : Text)
          → count_entry k v entries ≡ if_value v (cluster_get n w k) (min 1 (HashSet.occurs k keys))
      unfolding entries asked list_keys cluster_get BTreeMap.get HashSet.occurs
      count_entry-entries k v =
          let own = shard_of k n in
          let m = shard_keys net node n keys [] in
          let mine = get_or (BTreeMap.get node m) [] in
          let only : OnlyAt k own m = shard_keys-OnlyAt net node n keys [] k tt in
          let asc = BTreeMap.remove-IsAscending node m sharded-IsAscending in
          let owner = shard_keys-owner net node n keys [] k tt in
          let got = BTreeMap.get-remove node own m in
          let peers =
            ask_peers-held (walk.visit asked) w formed asked-targets k v
            ∙ held-visit w k v asked
            ∙ held-OnlyAt w k v own asked (OnlyAt-remove k own node m only) in
          let all = total-IsAscending k own asked asc (OnlyAt-remove k own node m only) in
          let here = count_entry-filter_found (w node) (walk.visit mine) k v in
          let visited = occurs-visit k mine in
          count_entry-append k v (list_keys (w node) mine)
            (ask_peers net node (walk.visit asked) w).0
          ∙ elim (ℕ_discrete node own) [
            | yes p ↦
                let count : HashSet.occurs k (walk.visit mine) ≡ min 1 (HashSet.occurs k keys) =
                  visited
                  ∙ ap (λ j. HashSet.occurs k (get_or (BTreeMap.get j m) [])) p
                  ∙ owner
                  ∙ omega arith in
                let none_asked : total k asked ≡ 0 = ground (arith, all, got, p) in
                let mine_found : count_entry k v (list_keys (w node) mine)
                    ≡ if_value v (cluster_get n w k) (min 1 (HashSet.occurs k keys)) =
                  here
                  ∙ ap (if_value v (get_kv (w node) k)) count
                  ∙ ap (λ j. if_value v (get_kv (w j) k) (min 1 (HashSet.occurs k keys))) p in
                omega (
                  arith,
                  mine_found,
                  peers
                      ∙ ap (if_value v (get_kv (w own) k)) none_asked
                      ∙ if_value-zero v (get_kv (w own) k),
                )
            | no p ↦
                let count : HashSet.occurs k (walk.visit mine) ≡ 0 =
                  visited ∙ OnlyAt-get k own node m only p in
                let asked_once : total k asked ≡ min 1 (HashSet.occurs k keys) =
                  ground (arith, all, got, owner) in
                omega (
                  arith,
                  here
                      ∙ ap (if_value v (get_kv (w node) k)) count
                      ∙ if_value-zero v (get_kv (w node) k),
                  peers ∙ ap (if_value v (get_kv (w own) k)) asked_once,
                )
          ]

  module _ (net : Net) (n node : ℕ) (w : World) (serving : IsServing net n node w) where
    -- In a formed cluster of at most 2 ^ 32 nodes, with every call delivered, a /list through any
    -- node, whose body is read, is answered with a list that has an entry exactly once if its key
    -- is in the request, however often, and its value is the one that the key has in the cluster,
    -- and no other entry, and changes no data of the cluster; the list is written as 200, or as 404
    -- if it is empty.
    pub list_found :
        (bytes : Text) (keys : List Text)
        → s.read_keys bytes ≡ some keys
        → (items : List InsrtRequest) × (w' : World) × (handle_list net node (some bytes) w
            ≡ ok (entries_found net node items, w'))
          × ((k v : Text)
              → count_entry k v items
                ≡ if_value v (cluster_get n w k) (min 1 (HashSet.occurs k keys)))
          × IsFormed net n w'
          × ((j : ℕ) → SameData (w j) (w' j))
    unfolding handle_list entries asked
    list_found bytes keys read =
        let (formed', same) =
          ask_peers-same net n node serving.member serving.delivers
            (walk.visit (
              asked net n node serving.member serving.delivers w serving.formed serving.small keys))
            w serving.formed
            (asked-targets net n node serving.member serving.delivers w serving.formed serving.small
              keys) in
        (
          entries net n node serving.member serving.delivers w serving.formed serving.small keys,
          (ask_peers net node
              (walk.visit (
                asked net n node serving.member serving.delivers w serving.formed serving.small
                  keys))
              w).1,
          rw (read, serving.formed.count node serving.member, serving.formed.me node serving.member)
              refl,
          count_entry-entries net n node serving.member serving.delivers w serving.formed
              serving.small keys,
          formed',
          same,
        )
