-- ===== src/Storage.antt =====
-- rust/src/storage.rs, with the feature `memory`: the state of one node, and the operations on its
-- keys and sorted sets. What two threads do at once to one key is not modelled: an operation is one
-- step.
pub mod Views
pub mod Sound
pub mod ZsetKey
pub mod Recovery
pub mod Race
pub mod Durable
use hcache.Base.{ℕ, Bool, false, Option, none, some, List, [], ◌∷◌, ◌++◌, Text}
use hcache.Base.Run.{Run, ok, fault, panicked, ◌>>=◌}
use hcache.Dto.{InsrtRequest, ScoreValue, ScoreRange}
use hcache.External.Cuckoo.{Cuckoo}
use hcache.External.Rocks.{Rocks}
use hcache.Std.Walk.{Walk}
use hcache.Std.Split.{splitn}
use hcache.Std.Bytes.{to_le_bytes, from_le_bytes}
use hcache.ZSet
use hcache.ZSet.{ZSet}
use hcache.Pool.{PeerClientPool}

abbrev pub load_state_init : ℕ
load_state_init = 0

abbrev pub load_state_loading : ℕ
load_state_loading = 1

abbrev pub load_state_loaded : ℕ
load_state_loaded = 2

unfoldable pub get_zset_key : Text → Text → Text
get_zset_key zkey value = zkey ++ 0 ∷ value

-- `parts.next().unwrap()`, twice
unwrap_two : List Text → Run (Text × Text)
unwrap_two (zkey ∷ value ∷ rest) = ok (zkey, value)
unwrap_two _ = fault panicked

unfoldable pub decode_zset_key : Text → Run (Text × Text)
unfolding unwrap_two
decode_zset_key key = unwrap_two (splitn 2 0 key)

module _ ⦃c : Cuckoo⦄ ⦃r : Rocks⦄ where
  pub record Storage : Type 0 where
    pub kv : c.Table Text
    pub zsets : c.Table ZSet
    pub pool : PeerClientPool
    pub me : ℕ
    pub count : ℕ
    pub peer_updated : Bool
    pub load_state : ℕ
    pub db : r.Db
    pub zset_db : r.Db

  unfoldable pub get_kv : Storage → Text → Option Text
  get_kv st key = c.get st.kv key

  -- The results of the writes to the databases are dropped.
  unfoldable pub insert_kv : Storage → Text → Text → Storage
  insert_kv st key value = record st {
    zsets = c.remove st.zsets key;
    db = (r.put_opt st.db key value).1;
    kv = c.insert st.kv key value;
  }

  unfoldable pub insert_all : c.Table Text → List InsrtRequest → c.Table Text
  insert_all t [] = t
  insert_all t (kv ∷ kvs) = insert_all (c.insert t kv.key kv.value) kvs

  unfoldable pub write_batch : List InsrtRequest → List (Text × Text)
  write_batch [] = []
  write_batch (kv ∷ kvs) = (kv.key, kv.value) ∷ write_batch kvs

  unfoldable pub batch_insert_kv : Storage → List InsrtRequest → Storage
  unfolding insert_all write_batch
  batch_insert_kv st kvs = record st {
    kv = insert_all st.kv kvs;
    db = (r.write_opt st.db (write_batch kvs)).1;
  }

  found_entry : Text → Option Text → List InsrtRequest → List InsrtRequest
  found_entry key none rest = rest
  found_entry key (some value) rest = record { key = key; value = value } ∷ rest

  unfoldable pub filter_found : Storage → List Text → List InsrtRequest
  unfolding found_entry
  filter_found st [] = []
  filter_found st (key ∷ keys) = found_entry key (c.get st.kv key) (filter_found st keys)

  -- `keys` is a `HashSet`
  unfoldable pub list_keys : ⦃w : Walk⦄ → Storage → List Text → List InsrtRequest
  unfolding filter_found
  list_keys ⦃w⦄ st keys = filter_found st (w.visit keys)

  unfoldable pub remove_key : Storage → Text → Storage
  remove_key st key = record st { db = (r.delete_opt st.db key).1; kv = c.remove st.kv key }

  unfoldable pub zadd_memory : Storage → Text → ScoreValue → Storage
  zadd_memory st key sv =
      let (zset, zsets) = c.get_or_insert st.zsets key ZSet.empty in
      record st { zsets = c.insert zsets key (ZSet.add zset sv.value sv.score) }

  -- the `put_opt` of `zadd`
  unfoldable pub put_member : Storage → Text → ScoreValue → Storage
  put_member st key sv = record st {
    zset_db = (r.put_opt st.zset_db (get_zset_key key sv.value) (to_le_bytes sv.score)).1;
  }

  unfoldable pub zadd : Storage → Text → ScoreValue → Storage
  zadd st key sv = zadd_memory (put_member st key sv) key sv

  unfoldable pub zrange : ⦃w : Walk⦄ → Storage → Text → ScoreRange → Run (Option (List ScoreValue))
  zrange ⦃w⦄ st key range = elim (c.get st.zsets key) [
    | none ↦ ok none
    | some z ↦ ZSet.zrange z range >>= λ items. ok (some items)
  ]

  -- the part of `zrmv` under `if let Some(score) = score`, on the disk
  unfoldable pub drop_member : r.Db → Text → Text → Option ℕ → r.Db
  drop_member db key value none = db
  drop_member db key value (some score) = (r.delete_opt db (get_zset_key key value)).1

  unfoldable pub zrmv : Storage → Text → Text → Storage
  unfolding drop_member
  zrmv st key value = elim (c.get st.zsets key) [
    | none ↦ st
    | some z ↦
        let (score, z') = ZSet.rmv z value in
        record st {
          zsets = c.insert st.zsets key z';
          zset_db = drop_member st.zset_db key value score;
        }
  ]

  -- the two loops of `load_from_disk`
  unfoldable pub load_keys : c.Table Text → List (Text × Text) → c.Table Text
  load_keys t [] = t
  load_keys t ((key, value) ∷ entries) = load_keys (c.insert t key value) entries

  unfoldable pub load_members : Storage → List (Text × Text) → Run Storage
  load_members st [] = ok st
  load_members st ((key, value) ∷ entries) = do
    (zkey, zvalue) ← decode_zset_key key
    score ← from_le_bytes value
    load_members (zadd_memory st zkey (record { score = score; value = zvalue })) entries

  unfoldable pub load_from_disk : Storage → Run Storage
  load_from_disk st =
      load_members (record st { kv = load_keys st.kv (r.entries st.db) }) (r.entries st.zset_db)

  -- The `Storage` that `main` builds over its two databases.
  unfoldable pub new_storage : r.Db → r.Db → Storage
  new_storage db zset_db = record {
    kv = c.new;
    zsets = c.new;
    pool = record { clients = [] };
    me = 0;
    count = 0;
    peer_updated = false;
    load_state = 0;
    db = db;
    zset_db = zset_db;
  }

  -- `main` up to the server loop.
  unfoldable pub start : r.Db → r.Db → Run Storage
  unfolding new_storage load_from_disk
  start db zset_db = load_from_disk (new_storage db zset_db)

  -- What a node holds of sorted sets: the score of each value under each key.
  unfoldable pub zscore : Storage → Text → Text → Option ℕ
  zscore st key value = elim (c.get st.zsets key) [ none ↦ none | some z ↦ ZSet.score_of z value ]
