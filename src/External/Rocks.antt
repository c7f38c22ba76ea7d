-- ===== src/External/Rocks.antt =====
-- `rocksdb::DBWithThreadMode`: a durable map from byte strings to byte strings. A write returns
-- whether it succeeded, and leaves the database as it was if it failed.
use hcache.Base.{
  ◌≡◌, ite, Bool, true, false, Option, none, some, List, [], ◌∷◌, Text, text_discrete,
}
use mathlib.Core.Option.{or_else}

-- The value of the first entry with the key.
unfoldable pub find_entry : Text → List (Text × Text) → Option Text
find_entry k [] = none
find_entry k ((j, v) ∷ l) = ite (text_discrete j k) (some v) (find_entry k l)

-- A `WriteBatch` holds puts in order; the last one of a key counts.
unfoldable pub batch_value : Text → List (Text × Text) → Option Text
batch_value k [] = none
batch_value k ((j, v) ∷ l) = or_else (batch_value k l) (ite (text_discrete j k) (some v) none)

-- No key stands twice.
abbrev pub Fresh : Text → List (Text × Text) → Type 0
Fresh k l = find_entry k l ≡ none

abbrev pub IsKeyed : List (Text × Text) → Type 0
IsKeyed [] = Unit
IsKeyed ((k, v) ∷ l) = Fresh k l × IsKeyed l

pub record Rocks : Type 1 where
  pub Db : Type 0
  pub get : Db → Text → Option Text
  pub put_opt : Db → Text → Text → Bool × Db
  pub delete_opt : Db → Text → Bool × Db
  pub write_opt : Db → List (Text × Text) → Bool × Db
  -- what a raw iterator yields from `seek_to_first` on
  pub entries : Db → List (Text × Text)
  pub get-put_opt :
      (d : Db) (k j v : Text)
      → (put_opt d k v).0 ≡ true
      → get (put_opt d k v).1 j ≡ ite (text_discrete k j) (some v) (get d j)
  pub put_opt_failed : (d : Db) (k v : Text) → (put_opt d k v).0 ≡ false → (put_opt d k v).1 ≡ d
  pub get-delete_opt :
      (d : Db) (k j : Text)
      → (delete_opt d k).0 ≡ true
      → get (delete_opt d k).1 j ≡ ite (text_discrete k j) none (get d j)
  pub delete_opt_failed : (d : Db) (k : Text) → (delete_opt d k).0 ≡ false → (delete_opt d k).1 ≡ d
  pub get-write_opt :
      (d : Db) (b : List (Text × Text)) (j : Text)
      → (write_opt d b).0 ≡ true
      → get (write_opt d b).1 j ≡ or_else (batch_value j b) (get d j)
  pub write_opt_failed :
      (d : Db) (b : List (Text × Text)) → (write_opt d b).0 ≡ false → (write_opt d b).1 ≡ d
  pub entries-IsKeyed : (d : Db) → IsKeyed (entries d)
  pub find_entry-entries : (d : Db) (k : Text) → find_entry k (entries d) ≡ get d k

-- A device on which no write fails.
pub record IsReliable ⦃r : Rocks⦄ : Type 0 where
  pub puts : (d : r.Db) (k v : Text) → (r.put_opt d k v).0 ≡ true
  pub deletes : (d : r.Db) (k : Text) → (r.delete_opt d k).0 ≡ true
  pub writes : (d : r.Db) (b : List (Text × Text)) → (r.write_opt d b).0 ≡ true
