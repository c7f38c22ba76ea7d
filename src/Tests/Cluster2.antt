-- ===== src/Tests/Cluster2.antt =====
-- A cluster of two nodes, each with one sorted set, and a reader of bodies in a plain format.
use hcache.Base.{
  ℕ, zero, suc, ◌<◌, ◌≡◌, ◌≢◌, refl, none, some, [], ◌∷◌, arith, Text, codes, text_discrete,
  get_elem?,
}
use hcache.Dto.{ScoreValue}
use hcache.External.Rocks.{find_entry}
use hcache.Pool.{CachePeerClient, PeerClientQueue, PeerClientPool}
use hcache.Storage.{Storage, new_storage, zadd, put_member, zadd_memory, insert_kv, get_kv, zscore}
use hcache.Storage.Views.{zscore-zadd}
use hcache.Storage.Sound.{IsSound, zadd-IsSound}
use hcache.Storage.Durable.{IsDurable}
use hcache.Storage.Durable.Writes.{zadd-IsDurable}
use hcache.Cluster.{Net, Delivery, delivered, World}
use hcache.Cluster.Ready.{IsConnected, IsFormed, Serves}
use hcache.Handlers.Routed.{IsServing}
use hcache.Tests.Bodies.{plain_bodies}
use hcache.Tests.Instances.{function_map, list_db, list_db-IsReliable, in_order, byte_sum}

-- An address is the number of its node.
abbrev pub number_of : Text → ℕ
number_of [] = 0
number_of (i ∷ t) = i

abbrev pub net_of : Delivery → Net
net_of how = record { delivery = λ i. how; locate = number_of }

abbrev pub all_delivered : Net
all_delivered = net_of delivered

abbrev pub queue_to : ℕ → PeerClientQueue
queue_to i = record {
  addr = i ∷ [];
  clients = record { addr = i ∷ []; id = 0 } ∷ [];
  capacity = 1;
  next = 0;
}

abbrev pub two_queues : PeerClientPool
two_queues = record { clients = queue_to 0 ∷ queue_to 1 ∷ [] }

clients-toward :
    (i j : ℕ) (client : CachePeerClient)
    → get_elem? (queue_to i).clients j ≡ some client
    → number_of client.addr ≡ i
clients-toward i zero client e = ground arith
clients-toward i (suc j) client e = ground arith

queue_to-Serves : (how : Delivery) (i : ℕ) → Serves (net_of how) i (queue_to i)
queue_to-Serves how i = record {
  is_full = record { positive = omega arith; full = refl };
  toward = clients-toward i;
}

queue_at :
    (how : Delivery) (dest : ℕ)
    → dest < 2
    → (q : PeerClientQueue) × (get_elem? two_queues.clients dest ≡ some q)
      × Serves (net_of how) dest q
queue_at how zero lt = (queue_to 0, refl, queue_to-Serves how 0)
queue_at how (suc zero) lt = (queue_to 1, refl, queue_to-Serves how 1)
queue_at how (suc (suc dest)) lt = absurd (omega arith)

pub two_queues-IsConnected : (how : Delivery) → IsConnected (net_of how) 2 two_queues
two_queues-IsConnected how = record { queue = queue_at how }

abbrev pub fresh_node : Storage
fresh_node = new_storage ([], tt) ([], tt)

abbrev pub seven : ScoreValue
seven = record { score = 7; value = codes "v" }

-- A node that has one sorted set, with one member.
abbrev pub scored_node : Storage
scored_node = zadd fresh_node (codes "z") seven

abbrev pub two_nodes : World
two_nodes i = record scored_node { me = i; count = 2; pool = two_queues }

pub two_nodes-IsFormed : (how : Delivery) → IsFormed (net_of how) 2 two_nodes
two_nodes-IsFormed how = record {
  count = λ i lt. refl;
  me = λ i lt. refl;
  connected = λ i lt. two_queues-IsConnected how;
}

pub two_nodes-IsServing : IsServing all_delivered 2 0 two_nodes
two_nodes-IsServing = record {
  formed = two_nodes-IsFormed delivered;
  delivers = λ i. refl;
  member = omega arith;
  small = omega arith;
}

pub fresh_node-IsSound : IsSound fresh_node
fresh_node-IsSound = record { at_key = λ k z e. unfold new_storage in cc }

pub scored_node-IsSound : IsSound scored_node
scored_node-IsSound = zadd-IsSound fresh_node (codes "z") seven fresh_node-IsSound

pub two_nodes-IsSound : (i : ℕ) → IsSound (two_nodes i)
two_nodes-IsSound i = record { at_key = scored_node-IsSound.at_key }

pub scored_node-present : (i : ℕ) → function_map.get (two_nodes i).zsets (codes "z") ≢ none
unfolding zadd zadd_memory put_member text_discrete
scored_node-present i e = cc

pub fresh_node-IsDurable : IsDurable fresh_node
unfolding new_storage get_kv zscore find_entry
fresh_node-IsDurable = record {
  kv_disk = λ k. refl;
  zset_disk = λ k v name. refl;
  members = λ f b e. cc;
  small = λ k v s name e. cc;
}

pub scored_node-IsDurable : IsDurable scored_node
scored_node-IsDurable =
    zadd-IsDurable list_db-IsReliable fresh_node-IsDurable (codes "z") seven (omega arith)
      (omega arith)

pub scored_node-score : zscore scored_node (codes "z") (codes "v") ≡ some 7
unfolding text_discrete
scored_node-score = zscore-zadd fresh_node (codes "z") seven (codes "z") (codes "v")

-- The two nodes with the same key and value in both; a /list takes it from the owner alone.
abbrev pub keyed_nodes : World
keyed_nodes i = insert_kv (two_nodes i) (codes "k") (codes "old")

pub keyed_nodes-IsServing : IsServing all_delivered 2 0 keyed_nodes
unfolding insert_kv
keyed_nodes-IsServing = record {
  formed = record {
    count = λ i lt. refl;
    me = λ i lt. refl;
    connected = λ i lt. two_queues-IsConnected delivered;
  };
  delivers = λ i. refl;
  member = omega arith;
  small = omega arith;
}
