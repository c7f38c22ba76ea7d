-- ===== src/External/Cuckoo.antt =====
-- `lockfree_cuckoohash::LockFreeCuckooHash<String, V>`: one map, seen by one thread at a time.
-- A write through the reference that `get` or `get_or_insert` returns is an `insert` of the new
-- value under the same key.
use hcache.Base.{◌≡◌, ite, Option, none, some, Text, text_discrete}
use mathlib.Core.Option.{get_or}

pub record Cuckoo : Type 1 where
  pub Table : Type 0 → Type 0
  pub new : {V : Type 0} → Table V
  pub get : {V : Type 0} → Table V → Text → Option V
  pub insert : {V : Type 0} → Table V → Text → V → Table V
  pub remove : {V : Type 0} → Table V → Text → Table V
  -- the value that was removed, and the map without it
  pub remove_with_guard : {V : Type 0} → Table V → Text → Option V × Table V
  -- the value that the key has, the given one if it had none
  pub get_or_insert : {V : Type 0} → Table V → Text → V → V × Table V
  pub get-new : {V : Type 0} (k : Text) → get (new {V = V}) k ≡ none
  pub get-insert :
      {V : Type 0} (t : Table V) (k j : Text) (v : V)
      → get (insert t k v) j ≡ ite (text_discrete k j) (some v) (get t j)
  pub get-remove :
      {V : Type 0} (t : Table V) (k j : Text)
      → get (remove t k) j ≡ ite (text_discrete k j) none (get t j)
  pub remove_with_guard-eq :
      {V : Type 0} (t : Table V) (k : Text) → remove_with_guard t k ≡ (get t k, remove t k)
  pub get_or_insert-value :
      {V : Type 0} (t : Table V) (k : Text) (v : V) → (get_or_insert t k v).0 ≡ get_or (get t k) v
  pub get-get_or_insert :
      {V : Type 0} (t : Table V) (k j : Text) (v : V)
      → get (get_or_insert t k v).1 j
        ≡ ite (text_discrete k j) (some (get_or (get t k) v)) (get t j)
