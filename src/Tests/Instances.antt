-- ===== src/Tests/Instances.antt =====
-- Executable instances of the packages: a map is a function, a database an association list with no
-- key twice, and no write fails.
use hcache.Base.{
  ℕ, ◌+◌, ◌%◌, ◌^◌, ◌<◌, ◌≡◌, refl, ite, if_pos, if_neg, true, Option, none, some, List, [], ◌∷◌,
  arith, Text, text_discrete,
}
use hcache.External.Cuckoo.{Cuckoo}
use hcache.External.Hasher.{Hasher}
use hcache.External.Rocks.{Rocks, IsReliable, IsKeyed, Fresh, find_entry, batch_value}
use hcache.Std.Walk.{Walk}
use mathlib.Core.List.Perm
use mathlib.Core.Option.{get_or, or_else}

-- A map as the function from its keys.
instance abbrev pub function_map : Cuckoo
function_map = record {
  Table = λ V. Text → Option V;
  new = λ k. none;
  get = λ t k. t k;
  insert = λ t k v j. ite (text_discrete k j) (some v) (t j);
  remove = λ t k j. ite (text_discrete k j) none (t j);
  remove_with_guard = λ t k. (t k, λ j. ite (text_discrete k j) none (t j));
  get_or_insert =
      λ t k v. (get_or (t k) v, λ j. ite (text_discrete k j) (some (get_or (t k) v)) (t j));
  get-new = λ k. refl;
  get-insert = λ t k j v. refl;
  get-remove = λ t k j. refl;
  remove_with_guard-eq = λ t k. refl;
  get_or_insert-value = λ t k v. refl;
  get-get_or_insert = λ t k j v. refl;
}

abbrev pub Entries : Type 0
Entries = List (Text × Text)

unfoldable pub without : Text → Entries → Entries
without k [] = []
without k ((j, v) ∷ l) = let rest = without k l in ite (text_discrete j k) rest ((j, v) ∷ rest)

pub find_entry-without :
    (k j : Text) (l : Entries)
    → find_entry j (without k l) ≡ ite (text_discrete k j) none (find_entry j l)
unfolding find_entry without
find_entry-without k j [] = ground arith
find_entry-without k j ((i, v) ∷ l) = ground (arith, find_entry-without k j l)

pub without-IsKeyed : (k : Text) (l : Entries) → IsKeyed l → IsKeyed (without k l)
unfolding without
without-IsKeyed k [] h = tt
without-IsKeyed k ((j, v) ∷ l) h = elim (text_discrete j k) [
  | yes p ↦ rw (if_pos _ p) (without-IsKeyed k l h.1)
  | no p ↦ rw (if_neg _ p) (ground (arith, find_entry-without k j l, h.0), without-IsKeyed k l h.1)
]

abbrev pub Keyed : Type 0
Keyed = (l : Entries) × IsKeyed l

pub without-Fresh : (k : Text) (l : Entries) → Fresh k (without k l)
without-Fresh k l = ground (arith, find_entry-without k k l)

unfoldable pub put : Keyed → Text → Text → Keyed
put (l, h) k v = ((k, v) ∷ without k l, (without-Fresh k l, without-IsKeyed k l h))

unfoldable pub delete : Keyed → Text → Keyed
delete (l, h) k = (without k l, without-IsKeyed k l h)

unfoldable pub write : Keyed → Entries → Keyed
write d [] = d
write d ((k, v) ∷ b) = write (put d k v) b

pub find_entry-put :
    (d : Keyed) (k j v : Text)
    → find_entry j (put d k v).0 ≡ ite (text_discrete k j) (some v) (find_entry j d.0)
unfolding find_entry put
find_entry-put (l, h) k j v = ground (arith, find_entry-without k j l)

pub find_entry-delete :
    (d : Keyed) (k j : Text)
    → find_entry j (delete d k).0 ≡ ite (text_discrete k j) none (find_entry j d.0)
unfolding delete
find_entry-delete (l, h) k j = find_entry-without k j l

pub find_entry-write :
    (d : Keyed) (b : Entries) (j : Text)
    → find_entry j (write d b).0 ≡ or_else (batch_value j b) (find_entry j d.0)
unfolding write batch_value or_else
find_entry-write d [] j = refl
find_entry-write d ((k, v) ∷ b) j =
    ground (arith, find_entry-write (put d k v) b j, find_entry-put d k j v)

-- A database as an association list.
instance abbrev pub list_db : Rocks
list_db = record {
  Db = Keyed;
  get = λ d k. find_entry k d.0;
  put_opt = λ d k v. (true, put d k v);
  delete_opt = λ d k. (true, delete d k);
  write_opt = λ d b. (true, write d b);
  entries = λ d. d.0;
  get-put_opt = λ d k j v e. find_entry-put d k j v;
  put_opt_failed = λ d k v e. cc;
  get-delete_opt = λ d k j e. find_entry-delete d k j;
  delete_opt_failed = λ d k e. cc;
  get-write_opt = λ d b j e. find_entry-write d b j;
  write_opt_failed = λ d b e. cc;
  entries-IsKeyed = λ d. d.1;
  find_entry-entries = λ d k. refl;
}

pub list_db-IsReliable : IsReliable
list_db-IsReliable = record { puts = λ d k v. refl; deletes = λ d k. refl; writes = λ d b. refl }

-- Collections walked from the front.
instance abbrev pub in_order : Walk
in_order = record { visit = λ xs. xs; visit-perm = λ xs. Perm.refl xs }

-- A hash that counts what it is fed.
unfoldable pub sum_bytes : Text → ℕ
sum_bytes [] = 0
sum_bytes (b ∷ t) = (b + sum_bytes t) % 2 ^ 64

pub sum_bytes-lt : (t : Text) → sum_bytes t < 2 ^ 64
unfolding sum_bytes
sum_bytes-lt [] = omega arith
sum_bytes-lt (b ∷ t) = omega arith

instance abbrev pub byte_sum : Hasher
byte_sum = record { finish = sum_bytes; finish-lt = sum_bytes-lt }
