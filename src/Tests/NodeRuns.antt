-- ===== src/Tests/NodeRuns.antt =====
-- One node: its sorted sets, its databases, and a restart.
use hcache.Base.{
  ℕ, ◌≤◌, Option, Text, ◌≡◌, refl, none, some, List, [], ◌∷◌, arith, codes, text_discrete,
}
use hcache.Base.Run.{ok}
use hcache.Dto.{InsrtRequest, ScoreValue, ScoreRange}
use hcache.ZSet
use hcache.ZSet.Add.{empty-IsConsistent, add-IsConsistent, rmv-IsConsistent}
use hcache.ZSet.Range.{count_item, AscendsFrom, Lists, zrange-Lists}
use hcache.Storage.{
  get_kv, insert_kv, Storage, start, zscore, zadd, zadd_memory, put_member, new_storage, zrange,
}
use hcache.Std.Split.{Lacks}
use hcache.Storage.Views.{zscore-zadd}
use hcache.Storage.Sound.{ListsKey, zrange-ListsKey}
use hcache.Storage.Durable.Reads.{restart_keeps_reads}
use mathlib.Core.Option.{get_or}
use hcache.Storage.Durable.{IsDurable, Started, start-Started}
use hcache.Storage.Durable.Stale.{score_after_del_restart, score_after_insert_restart}
use hcache.Peer.{remove_all}
use hcache.Tests.Instances.{function_map, list_db, in_order}
use hcache.Tests.Cluster2.{
  scored_node, scored_node-IsSound, scored_node-IsDurable, scored_node-score, two_nodes,
  scored_node-present,
}

abbrev two_to_nine : ScoreRange
two_to_nine = record { min_score = 2; max_score = 9 }

abbrev eight : ScoreValue
eight = record { score = 8; value = codes "v" }

abbrev two_entries : List InsrtRequest
two_entries =
    record { key = codes "a"; value = codes "1" }
    ∷ record { key = codes "a"; value = codes "2" }
    ∷ []

-- the value moves from one score to another, and goes
add-IsConsistent_example :
    ZSet.IsConsistent (ZSet.add (ZSet.add ZSet.empty (codes "v") 7) (codes "v") 8)
add-IsConsistent_example =
    add-IsConsistent (add-IsConsistent empty-IsConsistent (codes "v") 7) (codes "v") 8

rmv-IsConsistent_example :
    ZSet.IsConsistent (ZSet.rmv (ZSet.add ZSet.empty (codes "v") 7) (codes "v")).1
rmv-IsConsistent_example =
    rmv-IsConsistent (add-IsConsistent empty-IsConsistent (codes "v") 7) (codes "v")

zrange-Lists_example :
    (items : List ScoreValue) × (ZSet.zrange (ZSet.add ZSet.empty (codes "v") 7) two_to_nine
      ≡ ok items)
    × Lists (ZSet.add ZSet.empty (codes "v") 7) two_to_nine items
zrange-Lists_example =
    zrange-Lists (ZSet.add ZSet.empty (codes "v") 7) two_to_nine
      (add-IsConsistent empty-IsConsistent (codes "v") 7) (omega arith)

zrange-ListsKey_example :
    (items : List ScoreValue) × (zrange (two_nodes 0) (codes "z") two_to_nine ≡ ok (some items))
    × ListsKey (two_nodes 0) (codes "z") two_to_nine items
zrange-ListsKey_example =
    zrange-ListsKey (two_nodes 0) (codes "z") two_to_nine
      (record { at_key = scored_node-IsSound.at_key }) (omega arith) (scored_node-present 0)

zscore-zadd_example : zscore (zadd scored_node (codes "z") eight) (codes "z") (codes "v") ≡ some 8
unfolding text_discrete
zscore-zadd_example = zscore-zadd scored_node (codes "z") eight (codes "z") (codes "v")

absent_y : function_map.get scored_node.zsets (codes "y") ≡ none
unfolding zadd zadd_memory put_member new_storage text_discrete
absent_y = refl

restart_keeps_reads_example :
    (st' : Storage) × (start scored_node.db scored_node.zset_db ≡ ok st')
    × ((k : Text) → get_kv st' k ≡ get_kv scored_node k)
    × ((k : Text) (range : ScoreRange)
        → Lacks 0 k
        → range.min_score ≤ range.max_score
        → (x x' : Option (List ScoreValue)) × (zrange scored_node k range ≡ ok x)
          × (zrange st' k range ≡ ok x')
          × AscendsFrom range.min_score (get_or x' [])
          × ((s : ℕ) (v : Text) → count_item s v (get_or x' []) ≡ count_item s v (get_or x [])))
    × IsDurable st'
restart_keeps_reads_example =
    restart_keeps_reads scored_node scored_node-IsDurable
      (record { at_key = scored_node-IsSound.at_key })

start-Started_example :
    (st : Storage) × (start scored_node.db scored_node.zset_db ≡ ok st)
    × Started scored_node.db scored_node.zset_db st
start-Started_example =
    start-Started scored_node.db scored_node.zset_db (scored_node-IsDurable.members)

score_after_del_restart_example :
    (zscore (remove_all (codes "z") scored_node) (codes "z") (codes "v") ≡ none)
    × ((st' : Storage) × (start
            (remove_all (codes "z") scored_node).db
            (remove_all (codes "z") scored_node).zset_db
          ≡ ok st')
        × (zscore st' (codes "z") (codes "v") ≡ some 7))
score_after_del_restart_example =
    score_after_del_restart scored_node-IsDurable (codes "z") (codes "v") 7 (omega arith)
      scored_node-score

score_after_insert_restart_example :
    (zscore (insert_kv scored_node (codes "z") (codes "w")) (codes "z") (codes "v") ≡ none)
    × ((st' : Storage) × (start
            (insert_kv scored_node (codes "z") (codes "w")).db
            (insert_kv scored_node (codes "z") (codes "w")).zset_db
          ≡ ok st')
        × (zscore st' (codes "z") (codes "v") ≡ some 7))
score_after_insert_restart_example =
    score_after_insert_restart scored_node-IsDurable (codes "z") (codes "v") 7 (omega arith)
      scored_node-score (codes "w")
