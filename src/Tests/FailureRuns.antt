-- ===== src/Tests/FailureRuns.antt =====
-- Calls that fail in the cluster of two nodes, and how a cluster is formed.
use hcache.Base.{
  ℕ, suc, ◌<◌, ◌≡◌, refl, ite, true, false, some, List, [], ◌∷◌, arith, Text, codes, text_discrete,
  ℕ_discrete,
}
use hcache.Base.Run.{ok}
use hcache.Dto.{InsrtRequest, ScoreValue}
use hcache.Std.Split.{split_once}
use hcache.Storage.{new_storage}
use hcache.Shard.{shard_of, get_shard, hash_key_str, as_u32}
use hcache.Cluster.{World, delivered, request_lost, reply_lost}
use hcache.Cluster.Ready.{IsFormed, SameData}
use hcache.Cluster.Losses.{Keeps}
use hcache.Http.{server_error}
use hcache.Handlers.{handle_add, handle_zadd}
use hcache.Handlers.Map.{cluster_score}
use hcache.Handlers.Failures.{add_unreached, zadd_unconfirmed}
use hcache.Init.{Dialer, returned, try_load_peers}
use hcache.Init.Peers.{try_load_peers-IsFormed}
use hcache.Tests.Instances.{function_map, list_db, in_order, byte_sum, sum_bytes}
use hcache.Tests.Bodies.{plain_bodies}
use hcache.Tests.Cluster2.{net_of, two_nodes, two_nodes-IsFormed, fresh_node}

-- the key "z" belongs to node 1, the key "k" to node 0
z_owner : shard_of (codes "z") 2 ≡ 1
unfolding shard_of get_shard hash_key_str as_u32 sum_bytes
z_owner = refl

k_owner : shard_of (codes "k") 2 ≡ 0
unfolding shard_of get_shard hash_key_str as_u32 sum_bytes
k_owner = refl

abbrev entry : InsrtRequest
entry = record { key = codes "k"; value = codes "new" }

add_unreached_example :
    (w' : World) × (handle_add
        (net_of request_lost)
        1
        (some (plain_bodies.write_insrt entry))
        two_nodes
      ≡ ok (server_error, w'))
    × Keeps (net_of request_lost) 2 two_nodes w'
unfolding split_once ℕ_discrete
add_unreached_example =
    add_unreached (net_of request_lost) 2 1 two_nodes (two_nodes-IsFormed request_lost)
      (omega arith) (omega arith) (plain_bodies.write_insrt entry) entry
      (plain_bodies.read-write_insrt entry) (λ e. omega (arith, e, k_owner)) refl

abbrev three : ScoreValue
three = record { score = 3; value = codes "u" }

zadd_unconfirmed_example :
    (w' : World) × (handle_zadd
        (net_of reply_lost)
        0
        (codes "z")
        (some (plain_bodies.write_score_value three))
        two_nodes
      ≡ ok (server_error, w'))
    × ((k v : Text)
        → cluster_score 2 w' k v
          ≡ ite
              (text_discrete (codes "z") k)
              (ite (text_discrete (codes "u") v) (some 3) (cluster_score 2 two_nodes k v))
              (cluster_score 2 two_nodes k v))
zadd_unconfirmed_example =
    zadd_unconfirmed (net_of reply_lost) 2 0 two_nodes (two_nodes-IsFormed reply_lost) (omega arith)
      (omega arith) (codes "z") (plain_bodies.write_score_value three) three
      (plain_bodies.read-write_score_value three (omega arith)) (λ e. omega (arith, e, z_owner))
      refl

-- A dialer whose fourth attempt fails, and no other.
abbrev seventeen_attempts : Dialer
seventeen_attempts = record {
  is_addr = λ addr. true;
  attempts = λ addr.
      true ∷ true ∷ true ∷ false ∷ true ∷ true ∷ true ∷ true ∷ true ∷ true ∷ true ∷ true ∷ true
      ∷ true ∷ true ∷ true ∷ true ∷ [];
}

abbrev hosts : List Text
hosts = (0 ∷ []) ∷ (1 ∷ []) ∷ []

abbrev fresh_nodes : World
fresh_nodes i = fresh_node

try_load_peers-IsFormed_example :
    (w' : World) × ((i : ℕ)
      → i < 2
      → try_load_peers seventeen_attempts (some (suc i ∷ [])) (fresh_nodes i)
        ≡ ok (returned (w' i)))
    × IsFormed (net_of delivered) 2 w'
    × ((i : ℕ) → SameData (fresh_nodes i) (w' i))
unfolding new_storage
try_load_peers-IsFormed_example =
    try_load_peers-IsFormed (net_of delivered) seventeen_attempts hosts
      (refl, omega arith, (refl, omega arith, tt)) (refl, (refl, tt)) (omega arith) fresh_nodes
      (λ i. suc i ∷ []) (λ i lt. refl) (λ i lt. refl)
