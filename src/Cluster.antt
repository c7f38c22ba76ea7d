-- ===== src/Cluster.antt =====
-- The nodes of a cluster, and the calls of one to another: the `*_remote` functions of
-- rust/src/storage.rs. The transport (tarpc over TCP) is a parameter: it says what becomes of each
-- message, and which node has an address. Calls are taken one after the other.
pub mod Ready
pub mod Losses
use hcache.Base.{ℕ, Option, none, some, List, Text, ite, ℕ_discrete}
use hcache.Base.Run.{Run, ok, fault, ◌>>=◌}
use hcache.Dto.{InsrtRequest, ScoreValue, ScoreRange}
use hcache.External.Cuckoo.{Cuckoo}
use hcache.External.Rocks.{Rocks}
use hcache.Std.Walk.{Walk}
use hcache.Storage.{Storage}
use hcache.Pool.{CachePeerClient, PeerClientPool, pool_get_client}
use hcache.Peer

-- A call is answered; or it is lost on its way; or the peer runs it, and its answer is lost.
pub data Delivery : Type 0 where
  delivered request_lost reply_lost : Delivery

pub record Net : Type 0 where
  pub delivery : ℕ → Delivery
  pub locate : Text → ℕ

module _ ⦃c : Cuckoo⦄ ⦃r : Rocks⦄ where
  -- The nodes by their numbers.
  abbrev pub World : Type 0
  World = ℕ → Storage

  unfoldable pub set_node : World → ℕ → Storage → World
  set_node w i st j = ite (ℕ_discrete i j) st (w j)

  module _ {A : Type 0} where
    -- A call whose server panics gets no answer, and ends with an error. The only panic of a server is
    -- that of `zrange`, which changes nothing.
    unfoldable pub served : World → ℕ → Run (A × Storage) → Option A × World
    served w dest (ok (a, st)) = (some a, set_node w dest st)
    served w dest (fault e) = (none, w)

    unfoldable pub transmit :
        Delivery → World → ℕ → (Storage → Run (A × Storage)) → Option A × World
    unfolding served
    transmit delivered w dest f = served w dest (f (w dest))
    transmit request_lost w dest f = (none, w)
    transmit reply_lost w dest f = (none, (served w dest (f (w dest))).1)

    -- The shape of every `*_remote` function: a client of the pool, the call, `Ok` or `Err(())`.
    -- `put_client` does nothing.
    unfoldable pub call_peer :
        Net → ℕ → ℕ → (Storage → Run (A × Storage)) → World → Run (Option A × World)
    unfolding transmit
    call_peer net me shard f w = do
      (client, pool) ← pool_get_client (w me).pool shard
      let dest = net.locate client.addr
      ok (transmit (net.delivery dest) (set_node w me (record (w me) { pool = pool })) dest f)

  module _ (net : Net) (me : ℕ) where
    unfoldable pub get_kv_remote : Text → ℕ → World → Run (Option (Option Text) × World)
    get_kv_remote key shard = call_peer net me shard (Peer.query key)

    unfoldable pub insert_kv_remote : Text → Text → ℕ → World → Run (Option (Unit {0}) × World)
    insert_kv_remote key value shard = call_peer net me shard (Peer.add key value)

    unfoldable pub batch_insert_kv_remote :
        List InsrtRequest → ℕ → World → Run (Option (Unit {0}) × World)
    batch_insert_kv_remote kvs shard = call_peer net me shard (Peer.batch kvs)

    unfoldable pub list_keys_remote :
        List Text → ℕ → World → Run (Option (List InsrtRequest) × World)
    list_keys_remote keys shard = call_peer net me shard (Peer.list keys)

    unfoldable pub remove_key_remote : Text → ℕ → World → Run (Option (Unit {0}) × World)
    remove_key_remote key shard = call_peer net me shard (Peer.del key)

    unfoldable pub zadd_remote : Text → ScoreValue → ℕ → World → Run (Option (Unit {0}) × World)
    zadd_remote key sv shard = call_peer net me shard (Peer.zadd key sv)

    unfoldable pub zrange_remote :
        ⦃w : Walk⦄ → Text → ScoreRange → ℕ → World → Run (Option (Option (List ScoreValue)) × World)
    zrange_remote key range shard = call_peer net me shard (Peer.zrange key range)

    unfoldable pub zrmv_remote : Text → Text → ℕ → World → Run (Option (Unit {0}) × World)
    zrmv_remote key value shard = call_peer net me shard (Peer.zrmv key value)
