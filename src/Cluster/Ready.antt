-- ===== src/Cluster/Ready.antt =====
-- Calls of one node to another in a cluster that is formed (`*_remote` in rust/src/storage.rs): the
-- terms, and delivered calls.
use hcache.Base.{
  ℕ, ◌<◌, ◌+◌, ◌%◌, ◌^◌, ◌≡◌, ◌≢◌, refl, sym, ap, ◌∙◌, some, arith, ℕ_discrete, get_elem?,
  get_elem?-set, set,
}
use hcache.Base.Run.{Run, ok}
use hcache.External.Cuckoo.{Cuckoo}
use hcache.External.Rocks.{Rocks}
use hcache.Pool.{CachePeerClient, PeerClientQueue, PeerClientPool, pool_get_client}
use hcache.Pool.Clients.{IsFull, get_client-IsFull}
use hcache.Storage.{Storage}
use hcache.Cluster.{Net, delivered, World, set_node, transmit, call_peer}

-- A queue whose clients are connections to one node.
pub record Serves (net : Net) (dest : ℕ) (q : PeerClientQueue) : Type 0 where
  pub is_full : IsFull q
  pub toward :
      (i : ℕ) (client : CachePeerClient)
      → get_elem? q.clients i ≡ some client
      → net.locate client.addr ≡ dest

-- A pool with a queue for each node.
pub record IsConnected (net : Net) (n : ℕ) (p : PeerClientPool) : Type 0 where
  pub queue :
      (dest : ℕ)
      → dest < n
      → (q : PeerClientQueue) × (get_elem? p.clients dest ≡ some q) × Serves net dest q

pub pool_get_client-IsConnected :
    (net : Net) (n : ℕ) (p : PeerClientPool) (dest : ℕ)
    → IsConnected net n p
    → dest < n
    → (client : CachePeerClient) × (p' : PeerClientPool) × (pool_get_client p dest
        ≡ ok (client, p'))
      × (net.locate client.addr ≡ dest)
      × IsConnected net n p'
unfolding pool_get_client
pool_get_client-IsConnected net n p dest h lt =
    let (q, at, serves) = h.queue dest lt in
    let (client, run, found) = get_client-IsFull q serves.is_full in
    let q' : PeerClientQueue = record q { next = (q.next + 1) % 2 ^ 64 } in
    (
      client,
      record { clients = set p.clients dest q' },
      rw (at, pool_get_client, run),
      serves.toward (q.next % q.capacity) client found,
      record {
        queue = λ j lt'. elim (ℕ_discrete dest j) [
          | yes same ↦ (
            q',
            ground (arith, get_elem?-set p.clients dest j q' q at),
            record {
              is_full = record { positive = serves.is_full.positive; full = serves.is_full.full };
              toward = λ i cl e. rw (← same) (serves.toward i cl e);
            },
          )
          | no differ ↦
              let (q₂, at₂, serves₂) = h.queue j lt' in
              (q₂, ground (arith, get_elem?-set p.clients dest j q' q at), serves₂)
        ];
      },
    )

module _ ⦃c : Cuckoo⦄ ⦃r : Rocks⦄ where
  -- The nodes agree on the size of the cluster, know their own numbers, and are connected.
  pub record IsFormed (net : Net) (n : ℕ) (w : World) : Type 0 where
    pub count : (i : ℕ) → i < n → (w i).count ≡ n
    pub me : (i : ℕ) → i < n → (w i).me ≡ i
    pub connected : (i : ℕ) → i < n → IsConnected net n (w i).pool

  -- The two nodes hold the same data: all but the connections and the place in the cluster.
  pub record SameData (a b : Storage) : Type 0 where
    pub kv : b.kv ≡ a.kv
    pub zsets : b.zsets ≡ a.zsets
    pub db : b.db ≡ a.db
    pub zset_db : b.zset_db ≡ a.zset_db

  pub SameData-refl : (a : Storage) → SameData a a
  SameData-refl a = record { kv = refl; zsets = refl; db = refl; zset_db = refl }

  -- The place in the cluster and the connections are kept.
  pub record SamePlace (a b : Storage) : Type 0 where
    pub count : b.count ≡ a.count
    pub me : b.me ≡ a.me
    pub pool : b.pool ≡ a.pool

  -- From `w` to `w'` the data of the node `owner` becomes that of `st`, and no other data changes;
  -- the cluster stays formed.
  pub record Updates (net : Net) (n owner : ℕ) (st : Storage) (w w' : World) : Type 0 where
    pub formed : IsFormed net n w'
    pub own : SameData st (w' owner)
    pub others : (j : ℕ) → j ≢ owner → SameData (w j) (w' j)

  set_node-eq : (w : World) (i j : ℕ) (st : Storage) → i ≡ j → set_node w i st j ≡ st
  unfolding set_node
  set_node-eq w i j st e = ground arith

  pub set_node-ne : (w : World) (i j : ℕ) (st : Storage) → i ≢ j → set_node w i st j ≡ w j
  unfolding set_node
  set_node-ne w i j st e = ground arith

  -- To prove something of every node after a write, prove it of the new node and of the others.
  pub set_node_at :
      (P : Storage → Type 0) (w : World) (i j : ℕ) (st : Storage)
      → (i ≡ j → P st)
      → (i ≢ j → P (w j))
      → P (set_node w i st j)
  set_node_at P w i j st here there = elim (ℕ_discrete i j) [
    | yes p ↦ rw (set_node-eq w i j st p) (here p)
    | no p ↦ rw (set_node-ne w i j st p) (there p)
  ]

  pub SameData-trans : {x y z : Storage} → SameData x y → SameData y z → SameData x z
  SameData-trans a b = record {
    kv = b.kv ∙ a.kv;
    zsets = b.zsets ∙ a.zsets;
    db = b.db ∙ a.db;
    zset_db = b.zset_db ∙ a.zset_db;
  }

  module _ (net : Net) (n : ℕ) where
    pub set_node-IsFormed :
        (w : World) (i : ℕ) (st : Storage)
        → IsFormed net n w
        → st.count ≡ (w i).count
        → st.me ≡ (w i).me
        → (i < n → IsConnected net n st.pool)
        → IsFormed net n (set_node w i st)
    set_node-IsFormed w i st formed count me pool = record {
      count = λ j lt.
          set_node_at (λ x. x.count ≡ n) w i j st
            (λ e. count ∙ (ap (λ k. (w k).count) e ∙ formed.count j lt)) (λ ne. formed.count j lt);
      me = λ j lt.
          set_node_at (λ x. x.me ≡ j) w i j st (λ e. me ∙ (ap (λ k. (w k).me) e ∙ formed.me j lt))
            (λ ne. formed.me j lt);
      connected = λ j lt.
          set_node_at (λ x. IsConnected net n x.pool) w i j st (λ e. pool (rw e lt))
            (λ ne. formed.connected j lt);
    }

    -- A write of `st` at the owner, in a world that holds the same data as `w`.
    pub write-Updates :
        (w w₀ : World) (owner : ℕ) (st : Storage)
        → IsFormed net n w₀
        → ((j : ℕ) → SameData (w j) (w₀ j))
        → SamePlace (w₀ owner) st
        → Updates net n owner st w (set_node w₀ owner st)
    write-Updates w w₀ owner st formed same place = record {
      formed =
          set_node-IsFormed w₀ owner st formed place.count place.me
            (λ lt. rw place.pool (formed.connected owner lt));
      own = rw (set_node-eq w₀ owner owner st refl) (SameData-refl st);
      others = λ j ne. rw (set_node-ne w₀ owner j st (λ e. ne (sym e))) (same j);
    }

    -- The owner does the work itself.
    pub set_node-Updates :
        (w : World) (owner : ℕ) (st : Storage)
        → IsFormed net n w
        → SamePlace (w owner) st
        → Updates net n owner st w (set_node w owner st)
    set_node-Updates w owner st formed place =
        write-Updates w w owner st formed (λ j. SameData-refl (w j)) place

    -- Nothing changes.
    pub same-Updates :
        (w : World) (owner : ℕ) → IsFormed net n w → Updates net n owner (w owner) w w
    same-Updates w owner formed = record {
      formed = formed;
      own = SameData-refl (w owner);
      others = λ j ne. SameData-refl (w j);
    }

    -- In a formed cluster, a delivered call of one node to another, whose work does not panic and
    -- keeps the peer's place and connections, runs on the node that it is meant for: it returns
    -- what the peer's work returns, changes the data of that peer as its work does and no other
    -- data, and leaves the cluster formed.
    pub call_peer-Updates :
        {A : Type 0} (w : World) (node owner : ℕ) (f : Storage → Run (A × Storage)) (a : A)
        (st : Storage)
        → IsFormed net n w
        → node < n
        → owner < n
        → owner ≢ node
        → net.delivery owner ≡ delivered
        → f (w owner) ≡ ok (a, st)
        → SamePlace (w owner) st
        → (w' : World) × (call_peer net node owner f w ≡ ok (some a, w'))
          × Updates net n owner st w w'
    unfolding call_peer
    call_peer-Updates w node owner f a st formed lt lt' ne sent run place =
        let (client, pool, got, located, connected) =
          pool_get_client-IsConnected net n (w node).pool owner (formed.connected node lt) lt' in
        let st₀ : Storage = record (w node) { pool = pool } in
        let w₀ : World = set_node w node st₀ in
        let same : w₀ owner ≡ w owner = set_node-ne w node owner st₀ (λ e. ne (sym e)) in
        (
          set_node w₀ owner st,
          rw (got, call_peer, located, sent, transmit, same, run) refl,
          write-Updates w w₀ owner st
              (set_node-IsFormed w node st₀ formed refl refl (λ _. connected))
              (λ j.
                set_node_at (SameData (w j)) w node j st₀
                  (λ e. rw e (record { kv = refl; zsets = refl; db = refl; zset_db = refl }))
                  (λ _. SameData-refl (w j)))
              (rw same place),
        )
