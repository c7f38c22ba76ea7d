-- ===== src/Storage/Durable.antt =====
-- `load_from_disk` (rust/src/storage.rs) and `main` (rust/src/hcache.rs): databases in step with
-- the memory, and a restart over them.
pub mod Writes
pub mod Stale
pub mod Life
pub mod Reads
use hcache.Base.{
  ℕ, ◌<◌, ◌^◌, ◌≡◌, refl, sym, ◌∙◌, inl, inr, Option-cases, Option, none, some, arith, Text,
}
use hcache.Base.Run.{ok}
use hcache.External.Cuckoo.{Cuckoo}
use hcache.External.Rocks.{Rocks, find_entry}
use hcache.Std.Bytes.{to_le_bytes, from_le_bytes-to_le_bytes}
use hcache.Std.Split.{Lacks}
use hcache.ZSet
use hcache.Storage.{Storage, get_zset_key, get_kv, load_keys, new_storage, start, zscore}
use hcache.Storage.Recovery.{
  IsMember, find_entry-AllMembers, read_score, get-load_keys, load_members-Loaded,
}
use mathlib.Core.Option
use mathlib.Core.Option.{or_else}

module _ ⦃c : Cuckoo⦄ ⦃r : Rocks⦄ where
  -- The databases hold what the memory holds.
  pub record IsDurable (st : Storage) : Type 0 where
    pub kv_disk : (k : Text) → r.get st.db k ≡ get_kv st k
    pub zset_disk :
        (k v : Text)
        → Lacks 0 k
        → r.get st.zset_db (get_zset_key k v) ≡ Option.map to_le_bytes (zscore st k v)
    pub members : (f b : Text) → r.get st.zset_db f ≡ some b → IsMember f b
    pub small : (k v : Text) (s : ℕ) → Lacks 0 k → zscore st k v ≡ some s → s < 2 ^ 32

  -- The two nodes have the same keys, and the same score of each value.
  pub record SameReads (st st' : Storage) : Type 0 where
    pub keys : (k : Text) → get_kv st' k ≡ get_kv st k
    pub scores : (k v : Text) → Lacks 0 k → zscore st' k v ≡ zscore st k v

  -- The node that `main` builds over two databases.
  pub record Started (db zset_db : r.Db) (st : Storage) : Type 0 where
    pub keys : (k : Text) → get_kv st k ≡ r.get db k
    pub scores :
        (k v : Text) → Lacks 0 k → zscore st k v ≡ read_score (r.get zset_db (get_zset_key k v))
    pub db_same : st.db ≡ db
    pub zset_db_same : st.zset_db ≡ zset_db

  zscore-new :
      (db zset_db : r.Db) (t : c.Table Text) (k v : Text)
      → zscore (record (new_storage db zset_db) { kv = t }) k v ≡ none
  unfolding zscore new_storage
  zscore-new db zset_db t k v = rw (c.get-new k, zscore)

  -- Over a database of sorted sets that has only entries of the form that `zadd` writes, `main`
  -- loads both databases without a panic: every key has its value on the disk, and every score
  -- under a key with no zero byte is the one that its four bytes on the disk stand for.
  pub start-Started :
      (db zset_db : r.Db)
      → ((f b : Text) → r.get zset_db f ≡ some b → IsMember f b)
      → (st : Storage) × (start db zset_db ≡ ok st) × Started db zset_db st
  unfolding start get_kv new_storage or_else
  start-Started db zset_db members =
      let st₀ : Storage = record (new_storage db zset_db) { kv = load_keys c.new (r.entries db) } in
      let all =
        find_entry-AllMembers (r.entries zset_db) (r.entries-IsKeyed zset_db)
          (λ f b e. members f b (sym (r.find_entry-entries zset_db f) ∙ e)) in
      let (st, run, loaded) =
        load_members-Loaded st₀ (r.entries zset_db) (r.entries-IsKeyed zset_db) all in
      (
        st,
        run,
        record {
          keys = λ k. ground (
            arith,
            loaded.kv,
            get-load_keys c.new (r.entries db) k (r.entries-IsKeyed db),
            r.find_entry-entries db k,
            c.get-new {V = Text} k,
          );
          scores = λ k v h. ground (
            arith,
            loaded.scores k v h,
            r.find_entry-entries zset_db (get_zset_key k v),
            zscore-new db zset_db (load_keys c.new (r.entries db)) k v,
          );
          db_same = loaded.db;
          zset_db_same = loaded.zset_db;
        },
      )

  read-IsMember :
      (f b : Text)
      → IsMember f b
      → (some b ≡ Option.map to_le_bytes (read_score (some b)))
        × ((s : ℕ) → read_score (some b) ≡ some s → s < 2 ^ 32)
  read-IsMember f b (k, v, s₀, name, small, ef, eb) = (
    ground (arith, from_le_bytes-to_le_bytes s₀ small),
    λ s h. ground (arith, from_le_bytes-to_le_bytes s₀ small),
  )

  -- A member on the disk is read back as the score that was written.
  read-member :
      (db : r.Db) (members : (f b : Text) → r.get db f ≡ some b → IsMember f b)
      → (f : Text)
      → (r.get db f ≡ Option.map to_le_bytes (read_score (r.get db f)))
        × ((s : ℕ) → read_score (r.get db f) ≡ some s → s < 2 ^ 32)
  read-member db members f = elim (Option-cases (r.get db f)) [
    | inl e ↦ rw e (refl, λ s h. cc)
    | inr (b, e) ↦ rw e (read-IsMember f b (members f b e))
  ]

  -- A node that was just started has its databases in step with its memory.
  pub Started-IsDurable :
      (db zset_db : r.Db) (st : Storage)
      → ((f b : Text) → r.get zset_db f ≡ some b → IsMember f b)
      → Started db zset_db st
      → IsDurable st
  unfolding get_kv get_zset_key zscore
  Started-IsDurable db zset_db st members h = record {
    kv_disk = λ k. rw (h.db_same, h.keys k);
    zset_disk = λ k v name.
        rw (h.zset_db_same, h.scores k v name) (read-member zset_db members (get_zset_key k v)).0;
    members = λ f b e. members f b (rw h.zset_db_same at e);
    small = λ k v s name e.
        (read-member zset_db members (get_zset_key k v)).1 s (sym (h.scores k v name) ∙ e);
  }

  read-map :
      (o : Option ℕ)
      → ((s : ℕ) → o ≡ some s → s < 2 ^ 32)
      → read_score (Option.map to_le_bytes o) ≡ o
  read-map none small = refl
  read-map (some s) small = ground (arith, from_le_bytes-to_le_bytes s (small s refl))

  -- If the databases of a node hold what its memory holds, a restart over them ends, without a
  -- panic, in a node with the same keys, and the same scores under every key with no zero byte; and
  -- its databases are in step again.
  pub restart-SameReads :
      (st : Storage)
      → IsDurable st
      → (st' : Storage) × (start st.db st.zset_db ≡ ok st') × SameReads st st' × IsDurable st'
  restart-SameReads st h =
      let (st', run, started) = start-Started st.db st.zset_db h.members in
      (
        st',
        run,
        record {
          keys = λ k. started.keys k ∙ h.kv_disk k;
          scores = λ k v name.
              started.scores k v name
              ∙ (rw (h.zset_disk k v name) (read-map (zscore st k v) (λ s. h.small k v s name)));
        },
        Started-IsDurable st.db st.zset_db st' h.members started,
      )
