-- ===== src/Handlers.antt =====
-- rust/src/hcache.rs: the handlers of the requests. Each runs on one node of the cluster and returns
-- its response and the cluster after it; a panic ends the connection.
pub mod Owner
pub mod Routed
pub mod Map
pub mod Scores
pub mod Ranges
pub mod Failures
pub mod Times
pub mod Grouped
pub mod Batches
pub mod Sets
pub mod Listed
pub mod Replies
use hcache.Base.{ℕ, Option, none, some, List, [], ◌∷◌, ◌++◌, Text, ◌==◌, if◌then◌else◌}
use hcache.Base.Run.{Run, ok, fault, ◌>>=◌}
use hcache.Dto.{InsrtRequest, ScoreValue}
use hcache.External.Cuckoo.{Cuckoo}
use hcache.External.Rocks.{Rocks}
use hcache.External.Hasher.{Hasher}
use hcache.External.Serde.{Serde}
use hcache.Std.BTreeMap
use hcache.Std.HashSet
use hcache.Std.Walk.{Walk}
use hcache.Storage
use hcache.Storage.{Storage, get_kv, insert_kv, batch_insert_kv, list_keys}
use hcache.Shard.{shard_of}
use hcache.Peer.{remove_all}
use hcache.Cluster.{
  Net, World, set_node, get_kv_remote, insert_kv_remote, batch_insert_kv_remote, list_keys_remote,
  remove_key_remote, zadd_remote, zrange_remote, zrmv_remote,
}
use hcache.Http.{Response, success, not_found, server_error, to_bytes, unwrap}
use mathlib.Core.Option.{get_or}

-- `map_or_else`: 404 for nothing
abbrev pub found : Option Text → Response
found none = not_found
found (some value) = success value

-- 200 for `Ok`, 500 for `Err`
abbrev pub acknowledged : Option (Unit {0}) → Response
acknowledged none = server_error
acknowledged (some u) = success []

unfoldable pub items_found : ⦃s : Serde⦄ → Option (List ScoreValue) → Response
items_found none = not_found
items_found ⦃s⦄ (some items) = success (s.write_scores items)

module _ ⦃c : Cuckoo⦄ ⦃r : Rocks⦄ where
  unfoldable pub remote_found : Option (Option Text) × World → Response × World
  remote_found (none, w) = (server_error, w)
  remote_found (some value, w) = (found value, w)

  unfoldable pub remote_done : Option (Unit {0}) × World → Run (Response × World)
  remote_done (res, w) = ok (acknowledged res, w)

  unfoldable pub remote_items :
      ⦃s : Serde⦄ → Option (Option (List ScoreValue)) × World → Run (Response × World)
  unfolding items_found
  remote_items (none, w) = ok (server_error, w)
  remote_items (some items, w) = ok (items_found items, w)

  -- a spawned task whose result, or panic, nobody reads
  unfoldable pub detached : {A : Type 0} → Run (A × World) → World → World
  detached (ok (a, w')) w = w'
  detached (fault e) w = w

  -- a spawned task that is awaited: what it returned, if it returned `Ok`
  unfoldable pub awaited :
      Run (Option (List InsrtRequest) × World) → World → List InsrtRequest × World
  awaited (ok (some entries, w')) w = (entries, w')
  awaited (ok (none, w')) w = ([], w')
  awaited (fault e) w = ([], w)

module _ ⦃c : Cuckoo⦄ ⦃r : Rocks⦄ ⦃h : Hasher⦄ ⦃s : Serde⦄ ⦃walk : Walk⦄ (net : Net)
    (node : ℕ) where
  -- the shard of a key, as the node sees the cluster
  unfoldable pub own_shard : World → Text → ℕ
  unfolding shard_of
  own_shard w key = shard_of key (w node).count

  unfoldable pub handle_query : Text → World → Run (Response × World)
  unfolding remote_found
  handle_query key w =
      let shard = own_shard w key in
      if shard == (w node).me
      then ok (found (get_kv (w node) key), w)
      else (get_kv_remote net node key shard w >>= λ res. ok (remote_found res))

  unfoldable pub handle_del : Text → World → Run (Response × World)
  unfolding remote_done
  handle_del key w =
      let shard = own_shard w key in
      if shard == (w node).me
      then ok (success [], set_node w node (remove_all key (w node)))
      else (remove_key_remote net node key shard w >>= remote_done)

  unfoldable pub handle_add : Option Text → World → Run (Response × World)
  unfolding remote_done
  handle_add body w = do
    bytes ← to_bytes body
    kv ← unwrap (s.read_insrt bytes)
    let shard = own_shard w kv.key
    if shard == (w node).me
        then ok (success [], set_node w node (insert_kv (w node) kv.key kv.value))
        else (insert_kv_remote net node kv.key kv.value shard w >>= remote_done)

  unfoldable pub handle_zadd : Text → Option Text → World → Run (Response × World)
  unfolding remote_done
  handle_zadd key body w = do
    bytes ← to_bytes body
    sv ← unwrap (s.read_score_value bytes)
    let shard = own_shard w key
    if shard == (w node).me
        then ok (success [], set_node w node (Storage.zadd (w node) key sv))
        else (zadd_remote net node key sv shard w >>= remote_done)

  unfoldable pub handle_zrange : Text → Option Text → World → Run (Response × World)
  unfolding remote_items items_found
  handle_zrange key body w = do
    bytes ← to_bytes body
    range ← unwrap (s.read_score_range bytes)
    let shard = own_shard w key
    if shard == (w node).me
        then (Storage.zrange (w node) key range >>= λ items. ok (items_found items, w))
        else (zrange_remote net node key range shard w >>= remote_items)

  unfoldable pub handle_zrmv : Text → Text → World → Run (Response × World)
  unfolding remote_done
  handle_zrmv key value w =
      let shard = own_shard w key in
      if shard == (w node).me
      then ok (success [], set_node w node (Storage.zrmv (w node) key value))
      else (zrmv_remote net node key value shard w >>= remote_done)

  -- `acc.entry(shard).or_insert_with(Vec::new).push(kv)`, for each kv
  unfoldable pub shard_batch :
      ℕ → List InsrtRequest → List (ℕ × List InsrtRequest) → List (ℕ × List InsrtRequest)
  shard_batch count [] acc = acc
  shard_batch count (kv ∷ kvs) acc =
      shard_batch count kvs (BTreeMap.upsert (shard_of kv.key count) [] (λ v. v ++ kv ∷ []) acc)

  unfoldable pub send_batches : List (ℕ × List InsrtRequest) → World → World
  unfolding detached
  send_batches [] w = w
  send_batches ((shard, kvs) ∷ sharded) w =
      send_batches sharded (
        if shard == (w node).me
        then w
        else detached (batch_insert_kv_remote net node kvs shard w) w)

  unfoldable pub handle_batch : Option Text → World → Run (Response × World)
  handle_batch body w = do
    bytes ← to_bytes body
    kvs ← unwrap (s.read_batch bytes)
    let sharded = shard_batch (w node).count kvs []
    let me = (w node).me
    let my_keys = get_or (BTreeMap.get me sharded) []
    let w' = send_batches (walk.visit (BTreeMap.remove me sharded)) w
    ok (success [], set_node w' node (batch_insert_kv (w' node) my_keys))

  unfoldable pub shard_keys : ℕ → List Text → List (ℕ × List Text) → List (ℕ × List Text)
  shard_keys count [] acc = acc
  shard_keys count (key ∷ keys) acc =
      shard_keys count keys (BTreeMap.upsert (shard_of key count) [] (HashSet.insert key) acc)

  unfoldable pub ask_peers : List (ℕ × List Text) → World → List InsrtRequest × World
  unfolding awaited
  ask_peers [] w = ([], w)
  ask_peers ((shard, keys) ∷ sharded) w =
      let (entries, w') : List InsrtRequest × World =
        (if shard == (w node).me
          then ([], w)
          else awaited (list_keys_remote net node (walk.visit keys) shard w) w) in
      let (rest, w'') = ask_peers sharded w' in (entries ++ rest, w'')

  unfoldable pub entries_found : List InsrtRequest → Response
  entries_found [] = not_found
  entries_found (entry ∷ entries) = success (s.write_entries (entry ∷ entries))

  unfoldable pub handle_list : Option Text → World → Run (Response × World)
  unfolding entries_found
  handle_list body w = do
    bytes ← to_bytes body
    keys ← unwrap (s.read_keys bytes)
    let sharded = shard_keys (w node).count keys []
    let me = (w node).me
    let my_keys = get_or (BTreeMap.get me sharded) []
    let mine = list_keys (w node) my_keys
    let (entries, w') = ask_peers (walk.visit (BTreeMap.remove me sharded)) w
    ok (entries_found (mine ++ entries), w')
