-- ===== src/Tests/ClusterRuns.antt =====
-- Requests to the cluster of two nodes.
use hcache.Base.{
  if◌then◌else◌, leb, ◌&&◌, ℕ, ◌≡◌, refl, ite, none, some, List, [], ◌∷◌, arith, Text, codes,
  text_discrete,
}
use hcache.Base.Run.{ok}
use hcache.Dto.{InsrtRequest, ScoreValue, ScoreRange}
use hcache.Std.Split.{split_once}
use hcache.Storage.Sound.{ListsKey}
use hcache.Shard.{shard_of}
use hcache.Cluster.{World}
use hcache.Cluster.Ready.{IsFormed, SameData}
use hcache.Http.{success}
use hcache.Handlers.{
  found, items_found, handle_query, handle_del, handle_add, handle_zadd, handle_zrange, handle_zrmv,
  handle_batch, handle_list, entries_found,
}
use hcache.Handlers.Batches.{cluster_get_after_batch}
use hcache.Storage.Views.{last_value}
use hcache.Std.HashSet
use Prim.Native.Nat.{min}
use hcache.Handlers.Listed.{count_entry, if_value}
use hcache.Handlers.Replies.{list_found}
use hcache.Handlers.Map.{cluster_score, cluster_get, query_after_add, query_after_del}
use hcache.Handlers.Ranges.{zrange_after_zadd, zrange_after_zrmv}
use hcache.ZSet.{at_score}
use hcache.ZSet.Range.{count_item, AscendsFrom}
use hcache.Storage.{zscore}
use hcache.Handlers.Scores.{score_after_del, zrange_lists}
use hcache.Tests.Instances.{function_map, list_db, in_order, byte_sum}
use hcache.Tests.Bodies.{plain_bodies}
use hcache.Tests.Cluster2.{
  keyed_nodes, keyed_nodes-IsServing, all_delivered, two_nodes, two_nodes-IsServing,
  two_nodes-IsSound, scored_node-present,
}

abbrev entry : InsrtRequest
entry = record { key = codes "k"; value = codes "new" }

query_after_add_example :
    (w' : World) × (w'' : World) × (handle_add all_delivered 0
        (some (plain_bodies.write_insrt entry))
        two_nodes
      ≡ ok (success [], w'))
    × (handle_query all_delivered 1 (codes "k") w' ≡ ok (found (some (codes "new")), w''))
unfolding split_once text_discrete
query_after_add_example =
    query_after_add all_delivered 2 0 two_nodes two_nodes-IsServing 1 (omega arith)
      (plain_bodies.write_insrt entry) entry (codes "k") (plain_bodies.read-write_insrt entry)

query_after_del_example :
    (w' : World) × (w'' : World) × (handle_del all_delivered 0 (codes "k") two_nodes
      ≡ ok (success [], w'))
    × (handle_query all_delivered 1 (codes "k") w' ≡ ok (found none, w''))
unfolding text_discrete
query_after_del_example =
    query_after_del all_delivered 2 0 two_nodes two_nodes-IsServing 1 (omega arith) (codes "k")
      (codes "k")

abbrev three : ScoreValue
three = record { score = 3; value = codes "u" }

score_after_del_example :
    (w' : World) × (handle_del all_delivered 0 (codes "z") two_nodes ≡ ok (success [], w'))
    × ((k v : Text)
        → cluster_score 2 w' k v
          ≡ ite (text_discrete (codes "z") k) none (cluster_score 2 two_nodes k v))
score_after_del_example =
    score_after_del all_delivered 2 0 two_nodes two_nodes-IsServing (codes "z")

abbrev two_to_nine : ScoreRange
two_to_nine = record { min_score = 2; max_score = 9 }

zrange_lists_example :
    (items : List ScoreValue) × (w' : World) × (handle_zrange all_delivered 0
        (codes "z")
        (some (plain_bodies.write_score_range two_to_nine))
        two_nodes
      ≡ ok (items_found (some items), w'))
    × ListsKey (two_nodes (shard_of (codes "z") 2)) (codes "z") two_to_nine items
zrange_lists_example =
    zrange_lists all_delivered 2 0 two_nodes two_nodes-IsServing (codes "z")
      (plain_bodies.write_score_range two_to_nine) two_to_nine refl (omega arith)
      (two_nodes-IsSound (shard_of (codes "z") 2)) (scored_node-present (shard_of (codes "z") 2))

zrange_after_zrmv_example :
    (w' : World) × (items : List ScoreValue) × (w'' : World) × (handle_zrmv all_delivered 0
        (codes "z")
        (codes "v")
        two_nodes
      ≡ ok (success [], w'))
    × (handle_zrange all_delivered 1
          (codes "z")
          (some (plain_bodies.write_score_range two_to_nine))
          w'
        ≡ ok (items_found (some items), w''))
    × AscendsFrom 2 items
    × ((sc : ℕ) (v : Text)
        → count_item sc v items ≡ (
            if leb 2 sc && leb sc 9
            then at_score
                (ite
                  (text_discrete (codes "v") v)
                  none
                  (zscore (two_nodes (shard_of (codes "z") 2)) (codes "z") v))
                sc
            else 0))
zrange_after_zrmv_example =
    zrange_after_zrmv all_delivered 2 0 1 two_nodes two_nodes-IsServing (omega arith) (codes "z")
      (plain_bodies.write_score_range two_to_nine) two_to_nine refl (omega arith)
      (two_nodes-IsSound (shard_of (codes "z") 2)) (codes "v")
      (scored_node-present (shard_of (codes "z") 2))

zrange_after_zadd_example :
    (w' : World) × (items : List ScoreValue) × (w'' : World) × (handle_zadd all_delivered 0
        (codes "z")
        (some (plain_bodies.write_score_value three))
        two_nodes
      ≡ ok (success [], w'))
    × (handle_zrange all_delivered 1
          (codes "z")
          (some (plain_bodies.write_score_range two_to_nine))
          w'
        ≡ ok (items_found (some items), w''))
    × AscendsFrom 2 items
    × ((sc : ℕ) (v : Text)
        → count_item sc v items ≡ (
            if leb 2 sc && leb sc 9
            then at_score
                (ite
                  (text_discrete (codes "u") v)
                  (some 3)
                  (zscore (two_nodes (shard_of (codes "z") 2)) (codes "z") v))
                sc
            else 0))
zrange_after_zadd_example =
    zrange_after_zadd all_delivered 2 0 1 two_nodes two_nodes-IsServing (omega arith) (codes "z")
      (plain_bodies.write_score_range two_to_nine) two_to_nine refl (omega arith)
      (two_nodes-IsSound (shard_of (codes "z") 2)) (plain_bodies.write_score_value three) three
      (plain_bodies.read-write_score_value three (omega arith))

abbrev three_entries : List InsrtRequest
three_entries = entry ∷ record { key = codes "z"; value = codes "z" } ∷ entry ∷ []

cluster_get_after_batch_example :
    (w' : World) × (handle_batch all_delivered 0
        (some (plain_bodies.write_entries three_entries))
        two_nodes
      ≡ ok (success [], w'))
    × IsFormed all_delivered 2 w'
    × ((k : Text) → cluster_get 2 w' k ≡ last_value k three_entries (cluster_get 2 two_nodes k))
cluster_get_after_batch_example =
    cluster_get_after_batch all_delivered 2 0 two_nodes two_nodes-IsServing
      (plain_bodies.write_entries three_entries) three_entries
      (plain_bodies.read-write_entries three_entries)

abbrev three_keys : List Text
three_keys = codes "k" ∷ codes "z" ∷ codes "k" ∷ []

list_found_example :
    (items : List InsrtRequest) × (w' : World) × (handle_list all_delivered 0
        (some (plain_bodies.write_keys three_keys))
        keyed_nodes
      ≡ ok (entries_found all_delivered 0 items, w'))
    × ((k v : Text)
        → count_entry k v items
          ≡ if_value v (cluster_get 2 keyed_nodes k) (min 1 (HashSet.occurs k three_keys)))
    × IsFormed all_delivered 2 w'
    × ((j : ℕ) → SameData (keyed_nodes j) (w' j))
list_found_example =
    list_found all_delivered 2 0 keyed_nodes keyed_nodes-IsServing
      (plain_bodies.write_keys three_keys) three_keys (plain_bodies.read-write_keys three_keys)
