-- ===== src/Storage/Views.antt =====
-- The keys and the scores of a node before and after each operation of rust/src/storage.rs.
use hcache.Base.{
  ◌≡◌, refl, ite, inl, inr, Option-cases, Option, none, some, List, [], ◌∷◌, arith, Text,
  text_discrete,
}
use hcache.Dto.{ScoreValue, InsrtRequest}
use hcache.External.Cuckoo.{Cuckoo}
use hcache.External.Rocks.{Rocks}
use hcache.ZSet
use hcache.ZSet.Add.{score_of-add, score_of-rmv}
use hcache.Storage.{
  Storage, get_kv, insert_kv, insert_all, batch_insert_kv, remove_key, put_member, zadd_memory,
  zadd, zrmv, zscore,
}

-- The last value of a batch for a key.
abbrev pub last_value : Text → List InsrtRequest → Option Text → Option Text
last_value k [] old = old
last_value k (kv ∷ kvs) old = last_value k kvs (ite (text_discrete kv.key k) (some kv.value) old)

-- Nothing, if there is a first value.
abbrev pub unless : {A B : Type 0} → Option A → Option B → Option B
unless none old = old
unless (some a) old = none

-- A batch that starts from a value, or from none.
pub unless-last_value :
    {B : Type 0} (k : Text) (kvs : List InsrtRequest) (x : Option Text) (old : Option B)
    → unless (last_value k kvs x) old ≡ unless (last_value k kvs none) (unless x old)
unless-last_value k [] x old = refl
unless-last_value k (kv ∷ kvs) x old = elim (text_discrete kv.key k) [
  | yes p ↦ ground (
    arith,
    unless-last_value k kvs (some kv.value) old,
    unless-last_value k kvs (some kv.value) (unless x old),
  )
  | no p ↦ ground (arith, unless-last_value k kvs x old)
]

module _ ⦃c : Cuckoo⦄ ⦃r : Rocks⦄ where
  pub score_of-empty : (v : Text) → ZSet.score_of ZSet.empty v ≡ none
  unfolding ZSet.score_of ZSet.empty
  score_of-empty v = c.get-new v

  -- A zadd gives its value the new score, and changes no other score under any key.
  pub zscore-zadd_memory :
      (st : Storage) (k : Text) (sv : ScoreValue) (j v : Text)
      → zscore (zadd_memory st k sv) j v
        ≡ ite
            (text_discrete k j)
            (ite (text_discrete sv.value v) (some sv.score) (zscore st j v))
            (zscore st j v)
  unfolding zscore zadd_memory
  zscore-zadd_memory st k sv j v = ground (
    arith,
    c.get-insert (c.get_or_insert st.zsets k ZSet.empty).1 k j
        (ZSet.add (c.get_or_insert st.zsets k ZSet.empty).0 sv.value sv.score),
    c.get_or_insert-value st.zsets k ZSet.empty,
    c.get-get_or_insert st.zsets k j ZSet.empty,
    score_of-add (c.get_or_insert st.zsets k ZSet.empty).0 sv.value v sv.score,
    score_of-empty v,
  )

  pub zscore-zadd :
      (st : Storage) (k : Text) (sv : ScoreValue) (j v : Text)
      → zscore (zadd st k sv) j v
        ≡ ite
            (text_discrete k j)
            (ite (text_discrete sv.value v) (some sv.score) (zscore st j v))
            (zscore st j v)
  unfolding zscore zadd put_member
  zscore-zadd st k sv j v = zscore-zadd_memory (put_member st k sv) k sv j v

  -- A zrmv takes away the score of its value under its key, and no other.
  pub zscore-zrmv :
      (st : Storage) (k v j u : Text)
      → zscore (zrmv st k v) j u
        ≡ ite (text_discrete k j) (ite (text_discrete v u) none (zscore st j u)) (zscore st j u)
  unfolding zscore zrmv
  zscore-zrmv st k v j u = elim (Option-cases (c.get st.zsets k)) [
    | inl e ↦ ground arith
    | inr (z, e) ↦ ground (arith, c.get-insert st.zsets k j (ZSet.rmv z v).1, score_of-rmv z v u)
  ]

  -- An insert_kv takes away the sorted set of its key.
  pub zscore-insert_kv :
      (st : Storage) (k w j u : Text)
      → zscore (insert_kv st k w) j u ≡ ite (text_discrete k j) none (zscore st j u)
  unfolding zscore insert_kv
  zscore-insert_kv st k w j u = ground (arith, c.get-remove st.zsets k j)

  pub get_kv-insert_kv :
      (st : Storage) (k w j : Text)
      → get_kv (insert_kv st k w) j ≡ ite (text_discrete k j) (some w) (get_kv st j)
  unfolding get_kv insert_kv
  get_kv-insert_kv st k w j = ground (arith, c.get-insert st.kv k j w)

  pub get_kv-remove_key :
      (st : Storage) (k j : Text)
      → get_kv (remove_key st k) j ≡ ite (text_discrete k j) none (get_kv st j)
  unfolding get_kv remove_key
  get_kv-remove_key st k j = ground (arith, c.get-remove st.kv k j)

  get-insert_all :
      (t : c.Table Text) (kvs : List InsrtRequest) (j : Text)
      → c.get (insert_all t kvs) j ≡ last_value j kvs (c.get t j)
  unfolding insert_all
  get-insert_all t [] j = refl
  get-insert_all t (kv ∷ kvs) j =
      rw (get-insert_all (c.insert t kv.key kv.value) kvs j, c.get-insert t kv.key j kv.value)

  -- After a batch a key has the last value that the batch gives it, or else the one that it had.
  pub get_kv-batch_insert_kv :
      (st : Storage) (kvs : List InsrtRequest) (j : Text)
      → get_kv (batch_insert_kv st kvs) j ≡ last_value j kvs (get_kv st j)
  unfolding get_kv batch_insert_kv
  get_kv-batch_insert_kv st kvs j = get-insert_all st.kv kvs j
