-- ===== src/Pool/Clients.antt =====
-- `PeerClientQueue` (rust/src/storage.rs): how a queue is filled, and which client it hands out.
use hcache.Base.{
  ℕ, zero, suc, ◌+◌, ◌-◌, ◌%◌, ◌^◌, ◌≤◌, ◌<◌, ◌≡◌, refl, inl, inr, Bool, true, false, Bool-cases,
  some, List, [], ◌∷◌, ◌++◌, arith, Text, ltb, length, length-append, get_elem?, get_elem?-lt,
}
use hcache.Base.Run.{Run, ok, ◌>>=◌}
use hcache.Pool.{CachePeerClient, PeerClientQueue, connect_all, get_client}

-- How many attempts succeed.
abbrev pub successes : List Bool → ℕ
successes [] = 0
successes (true ∷ attempts) = suc (successes attempts)
successes (false ∷ attempts) = successes attempts

-- Every client is a connection to `addr`.
abbrev pub AllTo : Text → List CachePeerClient → Type 0
AllTo addr [] = Unit
AllTo addr (client ∷ clients) = (client.addr ≡ addr) × AllTo addr clients

AllTo-append :
    (addr : Text) (xs ys : List CachePeerClient)
    → AllTo addr xs
    → AllTo addr ys
    → AllTo addr (xs ++ ys)
AllTo-append addr [] ys hx hy = hy
AllTo-append addr (x ∷ xs) ys hx hy = (hx.0, AllTo-append addr xs ys hx.1 hy)

-- If a queue has at most as many clients as its capacity says, each connected to its address, and
-- as many attempts to connect succeed as there are clients missing, the loop of
-- `PeerClientQueue::new` ends, with exactly as many clients as the capacity says, each connected to
-- the queue's address.
pub connect_all-fills :
    (addr : Text) (capacity : ℕ) (attempts : List Bool) (clients : List CachePeerClient)
    → length clients ≤ capacity
    → capacity ≤ length clients + successes attempts
    → AllTo addr clients
    → (cs : List CachePeerClient) × (connect_all addr capacity attempts clients ≡ some cs)
      × (length cs ≡ capacity)
      × AllTo addr cs
unfolding connect_all
connect_all-fills addr capacity [] clients fits enough to = (clients, ground arith, omega arith, to)
connect_all-fills addr capacity (false ∷ attempts) clients fits enough to =
    elim (Bool-cases (ltb (length clients) capacity)) [
      | inr full ↦ (clients, rw full, ground arith, to)
      | inl more ↦ rw more (connect_all-fills addr capacity attempts clients fits enough to)
    ]
connect_all-fills addr capacity (true ∷ attempts) clients fits enough to =
    let client : CachePeerClient = record { addr = addr; id = length clients } in
    elim (Bool-cases (ltb (length clients) capacity)) [
      | inr full ↦ (clients, rw full, ground arith, to)
      | inl more ↦ rw more (
          connect_all-fills addr capacity attempts (clients ++ client ∷ [])
            (ground (arith, length-append clients (client ∷ [])))
            (omega (arith, length-append clients (client ∷ [])))
            (AllTo-append addr clients (client ∷ []) to (refl, tt)))
    ]

-- A queue as `PeerClientQueue::new` leaves it.
pub record IsFull (q : PeerClientQueue) : Type 0 where
  pub positive : 0 < q.capacity
  pub full : length q.clients ≡ q.capacity

-- A full queue hands out the client that `next` points at, and moves on.
pub get_client-IsFull :
    (q : PeerClientQueue)
    → IsFull q
    → (client : CachePeerClient) × (get_client q
        ≡ ok (client, record q { next = (q.next + 1) % 2 ^ 64 }))
      × (get_elem? q.clients (q.next % q.capacity) ≡ some client)
unfolding get_client
get_client-IsFull q h =
    let e : q.capacity ≡ suc (q.capacity - 1) = omega (arith, h.positive) in
    let (client, found) =
      get_elem?-lt q.clients (q.next % q.capacity) (omega (arith, h.full, h.positive)) in
    (client, ground arith, found)

-- The queue after some calls of `get_client`.
pub after : ℕ → PeerClientQueue → Run PeerClientQueue
after zero q = ok q
after (suc i) q = get_client q >>= λ p. after i p.1

-- With sixteen clients, as each queue of the pool has, the calls of `get_client` go round and none
-- panics: the i-th call from now takes the client i places on, also where the counter wraps around.
pub get_client-after :
    (q : PeerClientQueue) (i : ℕ)
    → q.capacity ≡ 16
    → length q.clients ≡ 16
    → (client : CachePeerClient) × (q' : PeerClientQueue) × ((after i q >>= get_client)
        ≡ ok (client, q'))
      × (get_elem? q.clients ((q.next + i) % 16) ≡ some client)
unfolding after
get_client-after q zero cap len =
    let h : IsFull q = record { positive = omega arith; full = omega arith } in
    let (client, run, found) = get_client-IsFull q h in
    let place : q.next % q.capacity ≡ (q.next + 0) % 16 = rw cap (omega arith) in
    (client, record q { next = (q.next + 1) % 2 ^ 64 }, run, rw place at found)
get_client-after q (suc i) cap len =
    let h : IsFull q = record { positive = omega arith; full = omega arith } in
    let (client, run, found) = get_client-IsFull q h in
    let q₁ : PeerClientQueue = record q { next = (q.next + 1) % 2 ^ 64 } in
    let (client', q', run', found') = get_client-after q₁ i cap len in
    let place : (q₁.next + i) % 16 ≡ (q.next + suc i) % 16 = omega arith in
    (client', q', rw run run', rw place at found')
