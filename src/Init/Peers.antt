-- ===== src/Init/Peers.antt =====
-- `try_load_peers` (rust/src/hcache.rs) and `update_peers` (rust/src/storage.rs) on all nodes of a
-- cluster.
use hcache.Base.{
  ℕ, zero, suc, ◌+◌, ◌^◌, ◌<◌, ◌≤◌, ◌≡◌, refl, true, false, none, some, Option, Option-cases, inl,
  inr, List, [], ◌∷◌, ◌++◌, arith, Text, codes, length, length-append, get_elem?,
}
use mathlib.Core.Path.{subst}
use hcache.Base.Run.{ok}
use hcache.External.Cuckoo.{Cuckoo}
use hcache.External.Rocks.{Rocks}
use hcache.External.Serde.{Serde}
use hcache.Pool.{CachePeerClient, PeerClientQueue, PeerClientPool}
use hcache.Pool.Clients.{AllTo, successes, connect_all-fills}
use hcache.Storage.{Storage}
use hcache.Cluster.{Net, World}
use hcache.Cluster.Ready.{Serves, IsConnected, IsFormed, SameData}
use hcache.Init.{
  Dialer, returned, new_queue, new_pool, place, update_peers, try_load_peers, take_pool,
}

-- Every host has an address that parses, and lets sixteen attempts to connect succeed.
abbrev pub AllReachable : Dialer → List Text → Type 0
AllReachable d [] = Unit
AllReachable d (peer ∷ peers) =
    (d.is_addr (peer ++ codes ":58080") ≡ true)
    × (16 ≤ successes (d.attempts (peer ++ codes ":58080")))
    × AllReachable d peers

-- The address of each host is that of the node with its number, from the one that is given.
abbrev pub AllLocated : Net → ℕ → List Text → Type 0
AllLocated net k [] = Unit
AllLocated net k (peer ∷ peers) =
    (net.locate (peer ++ codes ":58080") ≡ k) × AllLocated net (suc k) peers

-- Each queue serves the node with its number, from the one that is given.
abbrev AllServe : Net → ℕ → List PeerClientQueue → Type 0
AllServe net k [] = Unit
AllServe net k (q ∷ qs) = Serves net k q × AllServe net (suc k) qs

module _ (net : Net) where
  AllServe-append :
      (k : ℕ) (qs : List PeerClientQueue) (q : PeerClientQueue)
      → AllServe net k qs
      → Serves net (k + length qs) q
      → AllServe net k (qs ++ q ∷ [])
  AllServe-append k [] q all new =
      let e : k + 0 ≡ k = omega arith in (subst (λ i. Serves net i q) e new, tt)
  AllServe-append k (x ∷ qs) q all new =
      let e : k + suc (length qs) ≡ suc k + length qs = omega arith in
      (all.0, AllServe-append (suc k) qs q all.1 (subst (λ i. Serves net i q) e new))

  get_elem?-AllServe :
      (k i : ℕ) (qs : List PeerClientQueue)
      → AllServe net k qs
      → i < length qs
      → (q : PeerClientQueue) × (get_elem? qs i ≡ some q) × Serves net (k + i) q
  get_elem?-AllServe k i [] all lt = absurd (omega arith)
  get_elem?-AllServe k zero (q ∷ qs) all lt =
      let e : k ≡ k + 0 = omega arith in (q, refl, subst (λ i. Serves net i q) e all.0)
  get_elem?-AllServe k (suc i) (q ∷ qs) all lt =
      let (q', at, serves) = get_elem?-AllServe (suc k) i qs all.1 (omega arith) in
      let e : suc k + i ≡ k + suc i = omega arith in (q', at, subst (λ i. Serves net i q') e serves)

  get_elem?-AllTo :
      (addr : Text) (cs : List CachePeerClient) (i : ℕ) (client : CachePeerClient)
      → AllTo addr cs
      → get_elem? cs i ≡ some client
      → client.addr ≡ addr
  get_elem?-AllTo addr [] i client all e = cc
  get_elem?-AllTo addr (x ∷ cs) zero client all e = ground (arith, all.0)
  get_elem?-AllTo addr (x ∷ cs) (suc i) client all e = get_elem?-AllTo addr cs i client all.1 e

  new_queue-Serves :
      (d : Dialer) (addr : Text) (k : ℕ)
      → 16 ≤ successes (d.attempts addr)
      → net.locate addr ≡ k
      → (q : PeerClientQueue) × (new_queue d addr ≡ returned q) × Serves net k q
  unfolding new_queue
  new_queue-Serves d addr k enough located =
      let (cs, run, len, to) =
        connect_all-fills addr 16 (d.attempts addr) [] (omega arith) (omega (arith, enough)) tt in
      (
        record { addr = addr; clients = cs; capacity = 16; next = 0 },
        rw (new_queue, run) refl,
        record {
          is_full = record { positive = omega arith; full = len };
          toward = λ i client e. rw (get_elem?-AllTo addr cs i client to e) located;
        },
      )

  new_pool-AllServe :
      (d : Dialer) (peers : List Text) (qs : List PeerClientQueue)
      → AllReachable d peers
      → AllLocated net (length qs) peers
      → AllServe net 0 qs
      → (pool : PeerClientPool) × (new_pool d peers qs ≡ ok (returned pool))
        × AllServe net 0 pool.clients
        × (length pool.clients ≡ length qs + length peers)
  unfolding new_pool
  new_pool-AllServe d [] qs reach located all = (record { clients = qs }, refl, all, omega arith)
  new_pool-AllServe d (peer ∷ peers) qs reach located all =
      let (q, run, serves) =
        new_queue-Serves d (peer ++ codes ":58080") (length qs) reach.1 located.0 in
      let e : suc (length qs) ≡ length (qs ++ q ∷ []) = omega (arith, length-append qs (q ∷ [])) in
      let (pool, run', all', len) =
        new_pool-AllServe d peers (qs ++ q ∷ []) reach.2
          (subst (λ i. AllLocated net i peers) e located.1)
          (AllServe-append 0 qs q all (subst (λ i. Serves net i q) (omega arith) serves)) in
      (pool, rw (reach.0, run) run', all', omega (arith, e))

module _ ⦃c : Cuckoo⦄ ⦃r : Rocks⦄ (net : Net) (d : Dialer) (hosts : List Text) where
  module _ (reach : AllReachable d hosts) (located : AllLocated net 0 hosts)
      (small : length hosts ≤ 2 ^ 32) where
    -- the pool that every node builds
    full_pool :
        (pool : PeerClientPool) × (new_pool d hosts [] ≡ ok (returned pool))
        × IsConnected net (length hosts) pool
    full_pool =
        let (pool, run, all, len) = new_pool-AllServe net d hosts [] reach located tt in
        (
          pool,
          run,
          record {
            queue = λ dest lt.
                let (q, at, serves) =
                  get_elem?-AllServe net 0 dest pool.clients all (omega (arith, len)) in
                let e : 0 + dest ≡ dest = omega arith in
                (q, at, subst (λ i. Serves net i q) e serves);
          },
        )

    -- If every host has an address that parses and lets sixteen attempts to connect succeed, the
    -- address of each host leads to the node with its position, the hosts are at most 2 ^ 32, and
    -- each node reads a file with the same hosts and its own number, counted from 1, and was not
    -- placed before, then `try_load_peers` returns on every node, the nodes form a cluster, and no
    -- node's data changes.
    pub try_load_peers-IsFormed :
        ⦃s : Serde⦄ (w : World) (json : ℕ → Text)
        → ((i : ℕ)
            → i < length hosts
            → s.read_cluster (json i) ≡ some (record { hosts = hosts; index = suc i }))
        → ((i : ℕ) → i < length hosts → (w i).peer_updated ≡ false)
        → (w' : World) × ((i : ℕ)
            → i < length hosts
            → try_load_peers d (some (json i)) (w i) ≡ ok (returned (w' i)))
          × IsFormed net (length hosts) w'
          × ((i : ℕ) → SameData (w i) (w' i))
    unfolding try_load_peers update_peers place take_pool
    try_load_peers-IsFormed w json read fresh =
        let (pool, run, connected) = full_pool in
        (
          λ i. record (place (w i) hosts (suc i)) { pool = pool },
          λ i lt. rw (try_load_peers, read i lt, fresh i lt, run) refl,
          record {
            count = λ i lt. refl;
            me = λ i lt. omega (arith, lt, small);
            connected = λ i lt. connected;
          },
          λ i. record { kv = refl; zsets = refl; db = refl; zset_db = refl },
        )

  -- Once a node has its place, the file is not looked at again.
  pub try_load_peers_again :
      ⦃s : Serde⦄ (st : Storage) (file : Option Text)
      → st.peer_updated ≡ true
      → try_load_peers d file st ≡ ok (returned st)
  unfolding try_load_peers
  try_load_peers_again ⦃s⦄ st none done = refl
  try_load_peers_again ⦃s⦄ st (some json) done = elim (Option-cases (s.read_cluster json)) [
    | inl e ↦ rw (try_load_peers, e) refl
    | inr (info, e) ↦ rw (try_load_peers, e, done) refl
  ]
