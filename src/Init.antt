-- ===== src/Init.antt =====
-- rust/src/hcache.rs and storage.rs: how a node learns of its cluster (`try_load_peers`,
-- `update_peers`, /updateCluster), and how it is loaded (/init). The file /data/cluster.json is the
-- text that it holds, or `none`.
pub mod Peers
pub mod Loader
use hcache.Base.{
  ℕ, ◌+◌, ◌-◌, ◌%◌, ◌^◌, Bool, true, Option, none, some, List, [], ◌∷◌, ◌++◌, Text, codes,
  if◌then◌else◌, length,
}
use hcache.Base.Run.{Run, ok, fault, panicked, ◌>>=◌}
use hcache.External.Cuckoo.{Cuckoo}
use hcache.External.Rocks.{Rocks}
use hcache.External.Serde.{Serde}
use hcache.Http.{Response, success, to_bytes}
use hcache.Pool.{PeerClientQueue, PeerClientPool, connect_all}
use hcache.Storage.{Storage}

-- Which addresses parse as a `SocketAddr`, and how each attempt to connect to one ends.
pub record Dialer : Type 0 where
  pub is_addr : Text → Bool
  pub attempts : Text → List Bool

-- What a call that waits for connections comes to: it returns, or it still waits.
pub data Waiting (A : Type 0) : Type 0 where
  returned : A → Waiting A
  waits : Waiting A

-- `PeerClientQueue::new(addr, 16)`
unfoldable pub new_queue : Dialer → Text → Waiting PeerClientQueue
new_queue d addr = elim (connect_all addr 16 (d.attempts addr) []) [
  | none ↦ waits
  | some clients ↦ returned (record { addr = addr; clients = clients; capacity = 16; next = 0 })
]

-- `PeerClientPool::new`: the queues in the order of the peers. `parse().unwrap()` panics.
unfoldable pub new_pool : Dialer → List Text → List PeerClientQueue → Run (Waiting PeerClientPool)
new_pool d [] clients = ok (returned (record { clients = clients }))
new_pool d (peer ∷ peers) clients =
    let addr = peer ++ codes ":58080" in
    let next = λ (q : PeerClientQueue). new_pool d peers (clients ++ q ∷ []) in
    if d.is_addr addr
    then elim (new_queue d addr) [ waits ↦ ok waits | returned q ↦ next q ]
    else fault panicked

module _ ⦃c : Cuckoo⦄ ⦃r : Rocks⦄ where
  -- `me - 1` of `u32`, with the wrap-around of a release build; `count` is stored before the pool.
  unfoldable pub place : Storage → List Text → ℕ → Storage
  place st peers me = record st {
    peer_updated = true;
    me = (me + 2 ^ 32 - 1) % 2 ^ 32;
    count = length peers;
  }

  take_pool : Storage → Waiting PeerClientPool → Waiting Storage
  take_pool st waits = waits
  take_pool st (returned pool) = returned (record st { pool = pool })

  unfoldable pub update_peers : Dialer → Storage → List Text → ℕ → Run (Waiting Storage)
  unfolding place take_pool
  update_peers d st peers me =
      new_pool d peers [] >>= λ pool. ok (take_pool (place st peers me) pool)

  -- `compare_exchange(false, true)` on `peer_updated`
  unfoldable pub try_load_peers :
      ⦃s : Serde⦄ → Dialer → Option Text → Storage → Run (Waiting Storage)
  unfolding update_peers
  try_load_peers ⦃s⦄ d none st = ok (returned st)
  try_load_peers ⦃s⦄ d (some json) st = elim (s.read_cluster json) [
    | none ↦ ok (returned st)
    | some info ↦
        if st.peer_updated
        then ok (returned st)
        else update_peers d (record st { peer_updated = true }) info.hosts info.index
  ]

-- `created` says whether the file could be created.
unfoldable pub handle_updatecluster :
    Bool → Option Text → Option Text → Run (Response × Option Text)
handle_updatecluster created body file = to_bytes body >>= λ bytes.
    if created then ok (success (codes "ok"), some bytes) else ok (success (codes "fail"), file)
