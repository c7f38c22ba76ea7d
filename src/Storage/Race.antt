-- ===== src/Storage/Race.antt =====
-- `insert_kv` of rust/src/storage.rs, twice at once for one key on one node: its three writes are under
-- no lock.
use hcache.Base.{◌≡◌, ◌∙◌, refl, some, arith, Text}
use hcache.Base.Run.{ok}
use hcache.External.Cuckoo.{Cuckoo}
use hcache.External.Rocks.{Rocks, IsReliable}
use hcache.Storage.{Storage, get_kv, insert_kv, start}
use hcache.Storage.Recovery.{IsMember}
use hcache.Storage.Durable.{start-Started}

-- Where a request is: done; before the removal of the sorted set in memory; before the write to the
-- database; before the write to the keys in memory.
pub data Stage : Type 0 where
  over : Stage
  unsets stores caches : Text → Stage

module _ ⦃c : Cuckoo⦄ ⦃r : Rocks⦄ where
  -- the node and two requests
  pub record Adds : Type 0 where
    pub left : Stage
    pub right : Stage
    pub st : Storage

  module _ (key : Text) where
    -- the next write of a request
    unfoldable pub write : Stage → Storage → Stage × Storage
    write over st = (over, st)
    write (unsets value) st = (stores value, record st { zsets = c.remove st.zsets key })
    write (stores value) st = (caches value, record st { db = (r.put_opt st.db key value).1 })
    write (caches value) st = (over, record st { kv = c.insert st.kv key value })

    pub data Step : Adds → Adds → Type 0 where
      left_writes :
          (x : Adds)
          → Step x
              (record { left = (write x.left x.st).0; right = x.right; st = (write x.left x.st).1 })
      right_writes :
          (x : Adds)
          → Step x (record {
            left = x.left;
            right = (write x.right x.st).0;
            st = (write x.right x.st).1;
          })

    pub data Reach (x : Adds) : Adds → Type 0 where
      here : Reach x x
      next : {y z : Adds} → Reach x y → Step y z → Reach x z

    -- The writes of one request alone are those of `insert_kv`.
    write-insert_kv :
        (value : Text) (st : Storage)
        → write
            (write (write (unsets value) st).0 (write (unsets value) st).1).0
            (write (write (unsets value) st).0 (write (unsets value) st).1).1
          ≡ (over, insert_kv st key value)
    unfolding write insert_kv
    write-insert_kv value st = refl

    -- If no write to its databases fails, and the one of sorted sets has only entries of the form
    -- that `zadd` writes, two insert_kv at once for one key on one node can both end with the value
    -- of one of them in memory and that of the other on the disk, which a restart then brings back.
    pub adds_part :
        (st : Storage) (a b : Text)
        → IsReliable
        → ((f bytes : Text) → r.get st.zset_db f ≡ some bytes → IsMember f bytes)
        → (st' : Storage) × Reach
            (record { left = unsets a; right = unsets b; st = st })
            (record { left = over; right = over; st = st' })
          × (get_kv st' key ≡ some a)
          × ((st'' : Storage) × (start st'.db st'.zset_db ≡ ok st'') × (get_kv st'' key ≡ some b))
    unfolding write get_kv
    adds_part st a b reliable members =
        let db = (r.put_opt (r.put_opt st.db key a).1 key b).1 in
        let st' : Storage = record st {
          zsets = c.remove (c.remove st.zsets key) key;
          db = db;
          kv = c.insert (c.insert st.kv key b) key a;
        } in
        let (st'', run, started) = start-Started db st.zset_db members in
        (
          st',
          next
              (next
                (next (next (next (next here (left_writes _)) (right_writes _)) (left_writes _))
                  (right_writes _))
                (right_writes _))
              (left_writes _),
          ground (arith, c.get-insert (c.insert st.kv key b) key key a),
          (
            st'',
            run,
            started.keys key
                ∙ ground (
                  arith,
                  r.get-put_opt (r.put_opt st.db key a).1 key key b,
                  reliable.puts (r.put_opt st.db key a).1 key b,
                ),
          ),
        )
