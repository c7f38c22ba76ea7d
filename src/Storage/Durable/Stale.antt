-- ===== src/Storage/Durable/Stale.antt =====
-- The members that `remove_key`, `insert_kv` (rust/src/storage.rs) and `handle_del`
-- (rust/src/hcache.rs) leave in `zset_db`.
use hcache.Base.{ℕ, ◌≡◌, none, some, arith, Text}
use hcache.Base.Run.{ok}
use hcache.External.Cuckoo.{Cuckoo}
use hcache.External.Rocks.{Rocks}
use hcache.Peer.{remove_all}
use hcache.Std.Bytes.{from_le_bytes-to_le_bytes}
use hcache.Std.Split.{Lacks}
use hcache.Storage.{Storage, insert_kv, remove_key, start, zscore}
use hcache.Storage.Durable.{IsDurable, start-Started}

module _ ⦃c : Cuckoo⦄ ⦃r : Rocks⦄ where
  module _ {st : Storage} (h : IsDurable st) (k v : Text) (s : ℕ) (name : Lacks 0 k)
      (had : zscore st k v ≡ some s) where
    -- any database for the keys beside the sorted sets of a node whose databases are in step
    start_again :
        (db : r.Db) → (st' : Storage) × (start db st.zset_db ≡ ok st') × (zscore st' k v ≡ some s)
    start_again db =
        let (st', run, started) = start-Started db st.zset_db h.members in
        (
          st',
          run,
          ground (
            arith,
            started.scores k v name,
            h.zset_disk k v name,
            from_le_bytes-to_le_bytes s (h.small k v s name had),
          ),
        )

    -- If the databases of a node hold what its memory holds, a score that its memory has under a
    -- key with no zero byte is gone from the memory after the node's part of a /del of the key, and
    -- is there again after a restart.
    pub score_after_del_restart :
        (zscore (remove_all k st) k v ≡ none)
        × ((st' : Storage) × (start (remove_all k st).db (remove_all k st).zset_db ≡ ok st')
            × (zscore st' k v ≡ some s))
    unfolding remove_all remove_key zscore
    score_after_del_restart =
        (ground (arith, c.get-remove st.zsets k k), start_again (r.delete_opt st.db k).1)

    -- If the databases of a node hold what its memory holds, a score that its memory has under a
    -- key with no zero byte is gone from the memory after an insert_kv of the key, and is there
    -- again after a restart.
    pub score_after_insert_restart :
        (w : Text)
        → (zscore (insert_kv st k w) k v ≡ none)
          × ((st' : Storage) × (start (insert_kv st k w).db (insert_kv st k w).zset_db ≡ ok st')
              × (zscore st' k v ≡ some s))
    unfolding insert_kv zscore
    score_after_insert_restart w =
        (ground (arith, c.get-remove st.zsets k k), start_again (r.put_opt st.db k w).1)
