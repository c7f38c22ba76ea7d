-- ===== src/Peer.antt =====
-- rust/src/cluster.rs, `CachePeerServer`: what a node does for a call of a peer. Each returns the
-- reply and the node after it.
use hcache.Base.{Option, none, some, List, [], ◌∷◌, Text}
use hcache.Base.Run.{Run, ok, ◌>>=◌}
use hcache.Dto.{InsrtRequest, ScoreValue, ScoreRange}
use hcache.External.Cuckoo.{Cuckoo}
use hcache.External.Rocks.{Rocks}
use hcache.Std.Walk.{Walk}
use hcache.Storage
use hcache.Storage.{Storage, get_kv, insert_kv, remove_key}

module _ ⦃c : Cuckoo⦄ ⦃r : Rocks⦄ where
  unfoldable pub query : Text → Storage → Run (Option Text × Storage)
  query key st = ok (get_kv st key, st)

  unfoldable pub add : Text → Text → Storage → Run (Unit {0} × Storage)
  add key value st = ok (tt, insert_kv st key value)

  -- `remove_key`, and `zsets.remove`
  unfoldable pub remove_all : Text → Storage → Storage
  remove_all key st = let st' = remove_key st key in record st' { zsets = c.remove st'.zsets key }

  unfoldable pub del : Text → Storage → Run (Unit {0} × Storage)
  unfolding remove_all
  del key st = ok (tt, remove_all key st)

  push_found : Text → Option Text → List InsrtRequest → List InsrtRequest
  push_found key none rest = rest
  push_found key (some value) rest = record { key = key; value = value } ∷ rest

  unfoldable pub listed : List Text → Storage → List InsrtRequest
  unfolding push_found
  listed [] st = []
  listed (key ∷ keys) st = push_found key (get_kv st key) (listed keys st)

  unfoldable pub list : List Text → Storage → Run (List InsrtRequest × Storage)
  list keys st = ok (listed keys st, st)

  unfoldable pub insert_each : List InsrtRequest → Storage → Storage
  insert_each [] st = st
  insert_each (kv ∷ kvs) st = insert_each kvs (insert_kv st kv.key kv.value)

  unfoldable pub batch : List InsrtRequest → Storage → Run (Unit {0} × Storage)
  batch kvs st = ok (tt, insert_each kvs st)

  unfoldable pub zadd : Text → ScoreValue → Storage → Run (Unit {0} × Storage)
  zadd key sv st = ok (tt, Storage.zadd st key sv)

  unfoldable pub zrange :
      ⦃w : Walk⦄ → Text → ScoreRange → Storage → Run (Option (List ScoreValue) × Storage)
  zrange key range st = Storage.zrange st key range >>= λ items. ok (items, st)

  unfoldable pub zrmv : Text → Text → Storage → Run (Unit {0} × Storage)
  zrmv key value st = ok (tt, Storage.zrmv st key value)
