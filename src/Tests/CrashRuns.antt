-- ===== src/Tests/CrashRuns.antt =====
-- A node that is flushed and crashes, a database that is filled, and nodes that load one.
use hcache.Base.{
  ◌≡◌, refl, some, none, [], ◌∷◌, arith, Text, codes, text_discrete, ◌==◌, if◌then◌else◌,
}
use hcache.Base.Run.{ok}
use hcache.External.Rocks.{batch_value, find_entry}
use hcache.Std.Decimal.{decimal}
use hcache.Storage.{
  Storage, start, new_storage, load_from_disk, load_keys, load_members, insert_kv, zadd,
  zadd_memory, put_member, get_kv,
}
use hcache.Storage.Durable.{IsDurable}
use hcache.Storage.Durable.Life.{
  Life, started, wrote, flushed_sets, inserts, adds, Recovered, crash_recovers,
}
use hcache.Storage.Race
use hcache.Storage.Race.{over, unsets, adds_part}
use hcache.Shard.{shard_of, shard_of_slice}
use hcache.Cluster.{World}
use hcache.Handlers.{found, handle_query}
use hcache.Handlers.Map.{cluster_get}
use hcache.Init.Loader.Loaded.{load_nodes, query_after_load}
use hcache.Gendata
use hcache.Gendata.{numbered, main-reads}
use hcache.Tests.Bodies.{plain_bodies}
use hcache.Tests.Instances.{function_map, list_db, list_db-IsReliable, in_order, byte_sum}
use hcache.Tests.Cluster2.{
  all_delivered, fresh_node, scored_node, scored_node-IsDurable, seven, two_nodes,
  two_nodes-IsServing,
}
use mathlib.Core.Option.{or_else}

decimal_test : decimal 1203 ≡ codes "1203"
unfolding decimal
decimal_test = refl

abbrev with_key : Storage
with_key = insert_kv scored_node (codes "k") (codes "new")

-- A node with a score that was flushed and a key that was not.
with_key-Life : Life ([], tt) ([], tt) with_key fresh_node scored_node
unfolding start load_from_disk load_keys load_members new_storage text_discrete zadd zadd_memory
    put_member
with_key-Life =
    wrote scored_node fresh_node scored_node (inserts (codes "k") (codes "new"))
      (flushed_sets scored_node fresh_node fresh_node (
        wrote fresh_node fresh_node fresh_node (adds (codes "z") seven) (started fresh_node refl)
          ((omega arith, tt), omega arith)))
      refl

none_apart : {b : Text} → ¬ (none ≡ some b)
none_apart e = cc

crash_recovers_example :
    (st' : Storage) × (start fresh_node.db scored_node.zset_db ≡ ok st')
    × Recovered fresh_node scored_node st'
    × IsDurable st'
unfolding find_entry
crash_recovers_example =
    crash_recovers list_db-IsReliable ([], tt) ([], tt) (λ f b e. absurd (none_apart e))
      with_key-Life

main-reads_example :
    (db' : list_db.Db) × (Gendata.main (codes "p") 5 ([], tt) ≡ ok db')
    × (list_db.get db' (numbered (codes "p") 3) ≡ some (numbered (codes "p") 3))
    × (list_db.get db' [] ≡ list_db.get ([], tt) [])
unfolding numbered
main-reads_example =
    main-reads list_db-IsReliable (codes "p") 5 ([], tt) 3 [] (omega arith) (λ i e. cc)

-- The str "ab" belongs to node 0, the slice to node 1.
query_after_load_example :
    (w' : World) × (handle_query all_delivered 0
        (codes "ab")
        (load_nodes ((codes "ab", codes "v") ∷ []) two_nodes)
      ≡ ok (
        found (
            if shard_of_slice (codes "ab") 2 == shard_of (codes "ab") 2
            then or_else
                (batch_value (codes "ab") ((codes "ab", codes "v") ∷ []))
                (cluster_get 2 two_nodes (codes "ab"))
            else cluster_get 2 two_nodes (codes "ab")),
        w',
      ))
query_after_load_example =
    query_after_load all_delivered 2 0 two_nodes two_nodes-IsServing ((codes "ab", codes "v") ∷ [])
      (codes "ab")

adds_part_example :
    (st' : Storage) × Race.Reach
      (codes "k")
      (record { left = unsets (codes "a"); right = unsets (codes "b"); st = scored_node })
      (record { left = over; right = over; st = st' })
    × (get_kv st' (codes "k") ≡ some (codes "a"))
    × ((st'' : Storage) × (start st'.db st'.zset_db ≡ ok st'')
        × (get_kv st'' (codes "k") ≡ some (codes "b")))
adds_part_example =
    adds_part (codes "k") scored_node (codes "a") (codes "b") list_db-IsReliable
      scored_node-IsDurable.members
