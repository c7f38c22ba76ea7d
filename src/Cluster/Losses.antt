-- ===== src/Cluster/Losses.antt =====
-- Calls of the `*_remote` functions (rust/src/storage.rs) that fail: a message that is lost on
-- either way, and a panic of the peer.
use hcache.Base.{ℕ, ◌<◌, ◌≡◌, ◌≢◌, refl, sym, none}
use hcache.Base.Run.{Run, ok, fault, Fault}
use hcache.External.Cuckoo.{Cuckoo}
use hcache.External.Rocks.{Rocks}
use hcache.Storage.{Storage}
use hcache.Cluster.{
  Net, delivered, request_lost, reply_lost, World, set_node, transmit, served, call_peer,
}
use hcache.Cluster.Ready.{
  IsFormed, SameData, SameData-refl, SamePlace, Updates, pool_get_client-IsConnected, set_node-ne,
  set_node_at, set_node-IsFormed, write-Updates,
}

module _ ⦃c : Cuckoo⦄ ⦃r : Rocks⦄ where
  -- The cluster stays formed, and no data changes.
  pub record Keeps (net : Net) (n : ℕ) (w w' : World) : Type 0 where
    pub formed : IsFormed net n w'
    pub same : (j : ℕ) → SameData (w j) (w' j)

  module _ {A : Type 0} (net : Net) (n : ℕ) (w : World) (node owner : ℕ)
      (f : Storage → Run (A × Storage)) (formed : IsFormed net n w) (member : node < n)
      (lt : owner < n) where
    -- the node after it took a client for the call, and the call
    sent :
        (w₀ : World) × Keeps net n w w₀
        × (owner ≢ node → w₀ owner ≡ w owner)
        × (call_peer net node owner f w ≡ ok (transmit (net.delivery owner) w₀ owner f))
    unfolding call_peer
    sent =
        let (client, pool, got, located, connected) =
          pool_get_client-IsConnected net n (w node).pool owner (formed.connected node member) lt in
        let st₀ : Storage = record (w node) { pool = pool } in
        (
          set_node w node st₀,
          record {
            formed = set_node-IsFormed net n w node st₀ formed refl refl (λ _. connected);
            same = λ j.
                set_node_at (SameData (w j)) w node j st₀
                  (λ e. rw e (record { kv = refl; zsets = refl; db = refl; zset_db = refl }))
                  (λ _. SameData-refl (w j));
          },
          λ ne. set_node-ne w node owner st₀ (λ e. ne (sym e)),
          rw (got, call_peer, located) refl,
        )

    pub call_peer_request_lost :
        net.delivery owner ≡ request_lost
        → (w' : World) × (call_peer net node owner f w ≡ ok (none, w')) × Keeps net n w w'
    unfolding transmit
    call_peer_request_lost lost =
        let (w₀, keeps, same, run) = sent in (w₀, rw (run, lost) refl, keeps)

    -- the peer panics
    pub call_peer_panics :
        (e : Fault)
        → net.delivery owner ≡ delivered
        → owner ≢ node
        → f (w owner) ≡ fault e
        → (w' : World) × (call_peer net node owner f w ≡ ok (none, w')) × Keeps net n w w'
    unfolding transmit served
    call_peer_panics e arrived there panic =
        let (w₀, keeps, same, run) = sent in
        (w₀, rw (run, arrived, transmit, same there, panic) refl, keeps)

    -- the peer does its work, and its answer is lost
    pub call_peer_reply_lost :
        (a : A) (st : Storage)
        → net.delivery owner ≡ reply_lost
        → owner ≢ node
        → f (w owner) ≡ ok (a, st)
        → SamePlace (w owner) st
        → (w' : World) × (call_peer net node owner f w ≡ ok (none, w'))
          × Updates net n owner st w w'
    unfolding transmit served
    call_peer_reply_lost a st lost there works place =
        let (w₀, keeps, same, run) = sent in
        (
          set_node w₀ owner st,
          rw (run, lost, transmit, same there, works) refl,
          write-Updates net n w w₀ owner st keeps.formed keeps.same (rw (same there) place),
        )
