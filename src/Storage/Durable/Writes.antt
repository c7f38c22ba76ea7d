-- ===== src/Storage/Durable/Writes.antt =====
-- The writes of a node (rust/src/storage.rs) to its databases, on a device where no write fails.
use hcache.Base.{
  ◌<◌, ◌^◌, ◌≡◌, refl, sym, ap, ◌∙◌, ite, inl, inr, Option-cases, Option, none, some, List, [], ◌∷◌,
  arith, Text, text_discrete,
}
use hcache.Dto.{ScoreValue, InsrtRequest}
use hcache.External.Cuckoo.{Cuckoo}
use hcache.External.Rocks.{Rocks, IsReliable, batch_value}
use hcache.Std.Bytes.{to_le_bytes}
use hcache.Std.Split.{Lacks}
use hcache.ZSet.Add.{score-rmv}
use hcache.Storage.{
  Storage, write_batch, batch_insert_kv, get_zset_key, get_kv, insert_kv, remove_key, put_member,
  zadd_memory, zadd, drop_member, zrmv, zscore,
}
use hcache.Storage.Views.{last_value, get_kv-batch_insert_kv, zscore-zadd, zscore-zrmv}
use hcache.Storage.ZsetKey.{get_zset_key_inj}
use mathlib.Core.Option.{or_else}
use hcache.Storage.Durable.{IsDurable}

module _ ⦃c : Cuckoo⦄ ⦃r : Rocks⦄ where
  module _ (reliable : IsReliable) {st : Storage} (h : IsDurable st) where
    -- On a device where no write fails, a zadd of a `u32` score under a key with no zero byte keeps
    -- the databases in step with the memory.
    pub zadd-IsDurable :
        (k : Text) (sv : ScoreValue) → Lacks 0 k → sv.score < 2 ^ 32 → IsDurable (zadd st k sv)
    unfolding zadd put_member zadd_memory get_kv
    zadd-IsDurable k sv name fits = record {
      kv_disk = h.kv_disk;
      zset_disk = λ j v name'. ground (
        arith,
        r.get-put_opt st.zset_db (get_zset_key k sv.value) (get_zset_key j v)
            (to_le_bytes sv.score),
        reliable.puts st.zset_db (get_zset_key k sv.value) (to_le_bytes sv.score),
        h.zset_disk j v name',
        zscore-zadd st k sv j v,
        get_zset_key_inj k sv.value j v name name',
      );
      members = λ f b e. elim (text_discrete (get_zset_key k sv.value) f) [
        | yes p ↦ (
          k,
          sv.value,
          sv.score,
          name,
          fits,
          sym p,
          ground (
            arith,
            r.get-put_opt st.zset_db (get_zset_key k sv.value) f (to_le_bytes sv.score),
            reliable.puts st.zset_db (get_zset_key k sv.value) (to_le_bytes sv.score),
          ),
        )
        | no p ↦ h.members f b (
            ground (
              arith,
              r.get-put_opt st.zset_db (get_zset_key k sv.value) f (to_le_bytes sv.score),
              reliable.puts st.zset_db (get_zset_key k sv.value) (to_le_bytes sv.score),
            ))
      ];
      small = λ j v s name' e. ground (arith, zscore-zadd st k sv j v, h.small j v s name');
    }

    -- what `zrmv` leaves on the disk
    zrmv-disk :
        (k v f : Text)
        → r.get (zrmv st k v).zset_db f ≡ elim (zscore st k v) [
          | none ↦ r.get st.zset_db f
          | some s ↦ ite (text_discrete (get_zset_key k v) f) none (r.get st.zset_db f)
        ]
    unfolding zrmv zscore drop_member
    zrmv-disk k v f = elim (Option-cases (c.get st.zsets k)) [
      | inl e ↦ ground arith
      | inr (z, e) ↦ ground (
        arith,
        score-rmv z v,
        r.get-delete_opt st.zset_db (get_zset_key k v) f,
        reliable.deletes st.zset_db (get_zset_key k v),
      )
    ]

    zrmv-keys : (k v : Text) → ((zrmv st k v).db ≡ st.db) × ((zrmv st k v).kv ≡ st.kv)
    unfolding zrmv
    zrmv-keys k v = (ground arith, ground arith)

    -- On a device where no write fails, a zrmv under a key with no zero byte keeps the databases in
    -- step with the memory.
    pub zrmv-IsDurable : (k v : Text) → Lacks 0 k → IsDurable (zrmv st k v)
    unfolding get_kv
    zrmv-IsDurable k v name = record {
      kv_disk = λ j. ground (arith, zrmv-keys k v, h.kv_disk j);
      zset_disk = λ j u name'. ground (
        arith,
        zrmv-disk k v (get_zset_key j u),
        h.zset_disk j u name',
        h.zset_disk k v name,
        zscore-zrmv st k v j u,
        get_zset_key_inj k v j u name name',
      );
      members = λ f b e. h.members f b (ground (arith, zrmv-disk k v f));
      small = λ j u s name' e. ground (arith, zscore-zrmv st k v j u, h.small j u s name');
    }

    -- On a device where no write fails, an insert_kv under a key that has no sorted set keeps the
    -- databases in step with the memory.
    pub insert_kv-IsDurable : (k w : Text) → c.get st.zsets k ≡ none → IsDurable (insert_kv st k w)
    unfolding insert_kv get_kv zscore
    insert_kv-IsDurable k w absent = record {
      kv_disk = λ j. ground (
        arith,
        h.kv_disk j,
        r.get-put_opt st.db k j w,
        reliable.puts st.db k w,
        c.get-insert st.kv k j w,
      );
      zset_disk = λ j u name. ground (arith, h.zset_disk j u name, c.get-remove st.zsets k j);
      members = h.members;
      small = λ j u s name e. ground (arith, h.small j u s name, c.get-remove st.zsets k j);
    }

    -- On a device where no write fails, a remove_key keeps the databases in step with the memory.
    pub remove_key-IsDurable : (k : Text) → IsDurable (remove_key st k)
    unfolding remove_key get_kv zscore
    remove_key-IsDurable k = record {
      kv_disk = λ j. ground (
        arith,
        h.kv_disk j,
        r.get-delete_opt st.db k j,
        reliable.deletes st.db k,
        c.get-remove st.kv k j,
      );
      zset_disk = h.zset_disk;
      members = h.members;
      small = h.small;
    }

    last_value-batch_value :
        (j : Text) (kvs : List InsrtRequest) (old : Option Text)
        → or_else (batch_value j (write_batch kvs)) old ≡ last_value j kvs old
    unfolding batch_value write_batch or_else
    last_value-batch_value j [] old = refl
    last_value-batch_value j (kv ∷ kvs) old =
        ground
          (arith, last_value-batch_value j kvs old, last_value-batch_value j kvs (some kv.value))

    -- On a device where no write fails, a batch keeps the databases in step with the memory, also
    -- where it gives a key more than one value.
    pub batch_insert_kv-IsDurable : (kvs : List InsrtRequest) → IsDurable (batch_insert_kv st kvs)
    unfolding batch_insert_kv zscore
    batch_insert_kv-IsDurable kvs = record {
      kv_disk = λ j.
          r.get-write_opt st.db (write_batch kvs) j (reliable.writes st.db (write_batch kvs))
          ∙ last_value-batch_value j kvs (r.get st.db j)
          ∙ ap (last_value j kvs) (h.kv_disk j)
          ∙ sym (get_kv-batch_insert_kv st kvs j);
      zset_disk = h.zset_disk;
      members = h.members;
      small = h.small;
    }
