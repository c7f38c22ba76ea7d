-- ===== src/Pool.antt =====
-- rust/src/storage.rs, `PeerClientQueue` and `PeerClientPool`: the connections to the peers.
pub mod Clients
use hcache.Base.{
  ℕ, zero, suc, ◌+◌, ◌%◌, ◌^◌, Bool, Option, none, some, List, [], ◌∷◌, ◌++◌, Text, ltb,
  if◌then◌else◌, length, get_elem?, set,
}
use hcache.Base.Run.{Run, ok, fault, panicked, ◌>>=◌}

-- A connection, named by its peer and by the number of those that were opened before it.
pub record CachePeerClient : Type 0 where
  pub addr : Text
  pub id : ℕ

pub record PeerClientQueue : Type 0 where
  pub addr : Text
  pub clients : List CachePeerClient
  pub capacity : ℕ
  pub next : ℕ

pub record PeerClientPool : Type 0 where
  pub clients : List PeerClientQueue

-- Whether each call of `connect` succeeds is `attempts`; a failed call is repeated after a pause.
-- `none` means that the given attempts were not enough.
unfoldable pub connect_all :
    Text → ℕ → List Bool → List CachePeerClient → Option (List CachePeerClient)
connect_all addr capacity [] clients = if ltb (length clients) capacity then none else some clients
connect_all addr capacity (attempt ∷ attempts) clients =
    let next =
      connect_all addr capacity attempts (
        if attempt then clients ++ record { addr = addr; id = length clients } ∷ [] else clients) in
    if ltb (length clients) capacity then next else some clients

-- `next` is an `AtomicUsize`: it wraps around. A remainder by 0 panics, and so does an index that is
-- out of bounds.
unfoldable pub get_client : PeerClientQueue → Run (CachePeerClient × PeerClientQueue)
get_client q = elim q.capacity [
  | zero ↦ fault panicked
  | suc n ↦ elim (get_elem? q.clients (q.next % suc n)) [
    | none ↦ fault panicked
    | some client ↦ ok (client, record q { next = (q.next + 1) % 2 ^ 64 })
  ]
]

-- `self.clients[idx].get_client()` of the pool
unfoldable pub pool_get_client : PeerClientPool → ℕ → Run (CachePeerClient × PeerClientPool)
unfolding get_client
pool_get_client p idx = elim (get_elem? p.clients idx) [
  | none ↦ fault panicked
  | some q ↦ do (client, q') ← get_client q; ok (client, record { clients = set p.clients idx q' })
]
