-- ===== src/Client/Spec.antt =====
-- What the clients of client/src/client.rs see of the cluster: one map of keys and one of sorted
-- sets, and a command that reads or changes them at once.
use hcache.Base.{
  ℕ, ◌≤◌, ◌<◌, ◌^◌, ◌≡◌, ite, Option, none, some, List, [], ◌∷◌, ◌++◌, Text, codes, text_discrete,
  leb, ◌&&◌, if◌then◌else◌, Bool,
}
use Prim.Native.Nat.{min}
use hcache.Dto.{InsrtRequest, ScoreValue}
use hcache.External.Uri.{Fits}
use hcache.Std.HashSet
use hcache.Std.Split.{Lacks}
use hcache.ZSet.{at_score}
use hcache.ZSet.Range.{count_item, AscendsFrom}
use hcache.Storage.Views.{last_value, unless}
use hcache.Handlers.Listed.{count_entry, if_value}
use hcache.Client.{keyed}
use mathlib.Core.Option

pub data Command : Type 0 where
  query del : Text → Command
  add : Text → Text → Command
  batch : List InsrtRequest → Command
  list : List Text → Command
  zadd : Text → ℕ → Text → Command
  zrange : Text → ℕ → ℕ → Command
  zrmv : Text → Text → Command

-- What a call of the client returns.
pub data Reply : Type 0 where
  got : Option Text → Reply
  answered : Option (Unit {0}) → Reply
  listing : Option (List InsrtRequest) → Reply
  ranking : Option (List ScoreValue) → Reply

-- The scores of a sorted set.
abbrev pub Scores : Type 0
Scores = Text → Option ℕ

pub record Cache : Type 0 where
  pub keys : Text → Option Text
  pub sets : Text → Option Scores

abbrev pub score_in : Option Scores → Text → Option ℕ
score_in none v = none
score_in (some f) v = f v

abbrev pub scored : Text → ℕ → Option Scores → Scores
scored value score set v = ite (text_discrete value v) (some score) (score_in set v)

abbrev pub without : Text → Scores → Scores
without value f v = ite (text_discrete value v) none (f v)

abbrev pub put : {A : Type 0} → Text → Option A → (Text → Option A) → Text → Option A
put key a m k = ite (text_discrete key k) a (m k)

-- The cache after a command. Setting a key takes its sorted set away, but a batch leaves the sets
-- of the keys of the node that it is sent to, which `mine` tells.
abbrev pub next : (Text → Bool) → Command → Cache → Cache
next mine (query key) a = a
next mine (del key) a = record { keys = put key none a.keys; sets = put key none a.sets }
next mine (add key value) a = record {
  keys = put key (some value) a.keys;
  sets = put key none a.sets;
}
next mine (batch kvs) a = record {
  keys = λ k. last_value k kvs (a.keys k);
  sets = λ k. if mine k then a.sets k else unless (last_value k kvs none) (a.sets k);
}
next mine (list keys) a = a
next mine (zadd key score value) a = record {
  keys = a.keys;
  sets = put key (some (scored value score (a.sets key))) a.sets;
}
next mine (zrange key min_score max_score) a = a
next mine (zrmv key value) a = record {
  keys = a.keys;
  sets = put key (Option.map (without value) (a.sets key)) a.sets;
}

-- The list that /list replies with: `Err` if nothing was found.
abbrev pub nonempty : List InsrtRequest → Option (List InsrtRequest)
nonempty [] = none
nonempty (entry ∷ entries) = some (entry ∷ entries)

-- The replies that a cache allows.
pub data Answers (a : Cache) : Command → Reply → Type 0 where
  looked_up : (key : Text) → Answers a (query key) (got (a.keys key))
  deleted : (key : Text) → Answers a (del key) (answered (some tt))
  added : (key value : Text) → Answers a (add key value) (answered (some tt))
  batched : (kvs : List InsrtRequest) → Answers a (batch kvs) (answered (some tt))
  -- each key that is found, once
  collected :
      (keys : List Text) (entries : List InsrtRequest)
      → ((k v : Text)
          → count_entry k v entries ≡ if_value v (a.keys k) (min 1 (HashSet.occurs k keys)))
      → Answers a (list keys) (listing (nonempty entries))
  set_score :
      (key : Text) (score : ℕ) (value : Text)
      → Answers a (zadd key score value) (answered (some tt))
  no_set :
      (key : Text) (lo hi : ℕ) → a.sets key ≡ none → Answers a (zrange key lo hi) (ranking none)
  -- in ascending order, each value with a score in the range, once
  ranged :
      (key : Text) (lo hi : ℕ) (items : List ScoreValue) (f : Scores)
      → a.sets key ≡ some f
      → AscendsFrom lo items
      → ((s : ℕ) (v : Text)
          → count_item s v items ≡ (if leb lo s && leb s hi then at_score (f v) s else 0))
      → Answers a (zrange key lo hi) (ranking (some items))
  removed : (key value : Text) → Answers a (zrmv key value) (answered (some tt))

-- The commands that a client can spell: paths of plain bytes, no slash in the key of a GET, scores
-- that are `u32`, a range that is not reversed.
abbrev pub Allowed : Text → Command → Type 0
Allowed host (query key) = Lacks 0x2f key × Fits host (keyed (codes "query") key)
Allowed host (del key) = Lacks 0x2f key × Fits host (keyed (codes "del") key)
Allowed host (add key value) = Fits host (codes "/add")
Allowed host (batch kvs) = Fits host (codes "/batch")
Allowed host (list keys) = Fits host (codes "/list")
Allowed host (zadd key score value) = (score < 2 ^ 32) × Fits host (keyed (codes "zadd") key)
Allowed host (zrange key lo hi) = (lo ≤ hi) × (hi < 2 ^ 32) × Fits host (keyed (codes "zrange") key)
Allowed host (zrmv key value) =
    Lacks 0x2f key × Fits host (keyed (codes "zrmv") (key ++ 0x2f ∷ value))
