-- ===== src/Storage/Durable/Life.antt =====
-- rust/src/hcache.rs, `main`: a node from its start on. Its writes skip the log of the databases, and
-- a thread flushes these now and then, so a crash leaves what the last flush of each wrote.
use hcache.Base.{◌<◌, ◌^◌, ◌≡◌, ◌∙◌, none, some, List, arith, Text}
use hcache.Base.Run.{ok}
use hcache.Dto.{ScoreValue, InsrtRequest}
use hcache.External.Cuckoo.{Cuckoo}
use hcache.External.Rocks.{Rocks, IsReliable}
use hcache.Std.Split.{Lacks}
use hcache.Storage.{
  Storage, get_kv, insert_kv, batch_insert_kv, remove_key, zadd, zrmv, zscore, start,
}
use hcache.Storage.Recovery.{IsMember}
use hcache.Storage.Durable.{IsDurable, start-Started, Started-IsDurable, read-map}
use hcache.Storage.Durable.Writes.{
  zadd-IsDurable, zrmv-IsDurable, insert_kv-IsDurable, remove_key-IsDurable,
  batch_insert_kv-IsDurable,
}
use hcache.Peer.{remove_all}
use mathlib.Core.Path.{subst}

-- The writes of a node.
pub data Write : Type 0 where
  inserts : Text → Text → Write
  batches : List InsrtRequest → Write
  removes : Text → Write
  adds : Text → ScoreValue → Write
  drops : Text → Text → Write

module _ ⦃c : Cuckoo⦄ ⦃r : Rocks⦄ where
  abbrev pub apply : Write → Storage → Storage
  apply (inserts key value) st = insert_kv st key value
  apply (batches kvs) st = batch_insert_kv st kvs
  apply (removes key) st = remove_all key st
  apply (adds key sv) st = zadd st key sv
  apply (drops key value) st = zrmv st key value

  -- A write that sets or removes no key that has a sorted set, and names a set without a zero byte.
  abbrev pub IsTidy : Write → Storage → Type 0
  IsTidy (inserts key value) st = c.get st.zsets key ≡ none
  IsTidy (batches kvs) st = Unit
  IsTidy (removes key) st = c.get st.zsets key ≡ none
  IsTidy (adds key sv) st = Lacks 0 key × (sv.score < 2 ^ 32)
  IsTidy (drops key value) st = Lacks 0 key

  -- The life of a node: what it holds now, and what it held when `db` and when `zset_db` was last
  -- flushed.
  pub data Life (db zset_db : r.Db) : Storage → Storage → Storage → Type 0 where
    started : (st : Storage) → start db zset_db ≡ ok st → Life db zset_db st st st
    wrote :
        (st keys sets : Storage) (op : Write)
        → Life db zset_db st keys sets
        → IsTidy op st
        → Life db zset_db (apply op st) keys sets
    flushed_keys :
        (st keys sets : Storage) → Life db zset_db st keys sets → Life db zset_db st st sets
    flushed_sets :
        (st keys sets : Storage) → Life db zset_db st keys sets → Life db zset_db st keys st
    crashed :
        (st keys sets st' : Storage)
        → Life db zset_db st keys sets
        → start keys.db sets.zset_db ≡ ok st'
        → Life db zset_db st' keys sets

  -- The keys of one node, and the scores of another under the keys with no zero byte.
  pub record Recovered (keys sets st : Storage) : Type 0 where
    pub same_keys : (k : Text) → get_kv st k ≡ get_kv keys k
    pub same_scores : (k v : Text) → Lacks 0 k → zscore st k v ≡ zscore sets k v

  remove_all-IsDurable :
      IsReliable
      → (key : Text) (st : Storage) → c.get st.zsets key ≡ none
      → IsDurable st
      → IsDurable (remove_all key st)
  unfolding remove_all remove_key zscore get_kv
  remove_all-IsDurable reliable key st absent h =
      let h' = remove_key-IsDurable reliable h key in
      record {
        kv_disk = h'.kv_disk;
        zset_disk = λ j u name. ground (arith, h.zset_disk j u name, c.get-remove st.zsets key j);
        members = h.members;
        small = λ j u s name e. ground (arith, h.small j u s name, c.get-remove st.zsets key j);
      }

  apply-IsDurable :
      IsReliable
      → (op : Write) (st : Storage) → IsTidy op st
      → IsDurable st
      → IsDurable (apply op st)
  apply-IsDurable reliable (inserts key value) st tidy h =
      insert_kv-IsDurable reliable h key value tidy
  apply-IsDurable reliable (batches kvs) st tidy h = batch_insert_kv-IsDurable reliable h kvs
  apply-IsDurable reliable (removes key) st tidy h = remove_all-IsDurable reliable key st tidy h
  apply-IsDurable reliable (adds key sv) st tidy h = zadd-IsDurable reliable h key sv tidy.0 tidy.1
  apply-IsDurable reliable (drops key value) st tidy h = zrmv-IsDurable reliable h key value tidy

  module _ (reliable : IsReliable) (db zset_db : r.Db)
      (members : (f b : Text) → r.get zset_db f ≡ some b → IsMember f b) where
    -- a start over the databases of two nodes that are in step
    start-both :
        (keys sets : Storage)
        → IsDurable keys
        → IsDurable sets
        → (st' : Storage) × (start keys.db sets.zset_db ≡ ok st')
          × Recovered keys sets st'
          × IsDurable st'
    start-both keys sets hk hs =
        let (st', run, begun) = start-Started keys.db sets.zset_db hs.members in
        (
          st',
          run,
          record {
            same_keys = λ k. begun.keys k ∙ hk.kv_disk k;
            same_scores = λ k v name.
                begun.scores k v name
                ∙ rw (hs.zset_disk k v name)
                    (read-map (zscore sets k v) (λ s. hs.small k v s name));
          },
          Started-IsDurable keys.db sets.zset_db st' hs.members begun,
        )

    -- all three are in step
    Life-IsDurable :
        {st keys sets : Storage}
        → Life db zset_db st keys sets
        → IsDurable st × IsDurable keys × IsDurable sets
    Life-IsDurable (started st e) =
        let (st', run, h) = start-Started db zset_db members in
        let same : st' ≡ st = cc in
        let all = subst IsDurable same (Started-IsDurable db zset_db st' members h) in
        (all, all, all)
    Life-IsDurable (wrote st keys sets op life tidy) =
        let (now, hk, hs) = Life-IsDurable life in (apply-IsDurable reliable op st tidy now, hk, hs)
    Life-IsDurable (flushed_keys st keys sets life) =
        let (now, hk, hs) = Life-IsDurable life in (now, now, hs)
    Life-IsDurable (flushed_sets st keys sets life) =
        let (now, hk, hs) = Life-IsDurable life in (now, hk, now)
    Life-IsDurable (crashed st keys sets st' life e) =
        let (now, hk, hs) = Life-IsDurable life in
        let (st₁, run, recovered, h) = start-both keys sets hk hs in
        let same : st₁ ≡ st' = cc in (subst IsDurable same h, hk, hs)

    -- On a device where no write fails, a node that was started over a database of sorted sets with
    -- only entries of the form that `zadd` writes, and then wrote, was flushed and crashed in any
    -- order, where no write set or removed a key that had a sorted set, and each zadd and zrmv was
    -- under a key with no zero byte and each score a `u32`: a start after a crash ends without a
    -- panic, in a node that has the keys of the last flush of one database and the scores, under
    -- the keys with no zero byte, of the last flush of the other, with its databases in step with
    -- its memory.
    pub crash_recovers :
        {st keys sets : Storage}
        → Life db zset_db st keys sets
        → (st' : Storage) × (start keys.db sets.zset_db ≡ ok st')
          × Recovered keys sets st'
          × IsDurable st'
    crash_recovers {keys = keys} {sets = sets} life =
        let (now, hk, hs) = Life-IsDurable life in start-both keys sets hk hs
