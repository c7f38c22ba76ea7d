-- ===== src/Storage/Recovery.antt =====
-- `load_from_disk` (rust/src/storage.rs): what its two loops make of the entries of the databases.
use hcache.Base.{
  ℕ, ◌<◌, ◌^◌, ◌≡◌, refl, sym, ◌∙◌, Option, none, some, List, [], ◌∷◌, arith, Text, text_discrete,
}
use hcache.Base.Run.{ok, fault}
use hcache.Dto.{ScoreValue}
use hcache.External.Cuckoo.{Cuckoo}
use hcache.External.Rocks.{Rocks, find_entry, IsKeyed}
use hcache.Std.Bytes.{to_le_bytes, from_le_bytes, from_le_bytes-to_le_bytes}
use hcache.Std.Split.{Lacks}
use hcache.Storage.{Storage, get_zset_key, zadd_memory, load_keys, load_members, zscore}
use hcache.Storage.Views.{zscore-zadd_memory}
use hcache.Storage.ZsetKey.{decode-get_zset_key, get_zset_key_inj}
use mathlib.Core.Option.{or_else}

-- An entry of the database of sorted sets that `zadd` writes for a set whose name has no zero byte.
abbrev pub IsMember : Text → Text → Type 0
IsMember f b =
    (k : Text) × (v : Text) × (s : ℕ) × Lacks 0 k
    × (s < 2 ^ 32)
    × (f ≡ get_zset_key k v)
    × (b ≡ to_le_bytes s)

abbrev pub AllMembers : List (Text × Text) → Type 0
AllMembers [] = Unit
AllMembers ((f, b) ∷ l) = IsMember f b × AllMembers l

pub find_entry-AllMembers :
    (l : List (Text × Text))
    → IsKeyed l
    → ((f b : Text) → find_entry f l ≡ some b → IsMember f b)
    → AllMembers l
unfolding find_entry
find_entry-AllMembers [] keyed h = tt
find_entry-AllMembers ((f, b) ∷ l) keyed h =
    (h f b (ground arith), find_entry-AllMembers l keyed.1 (λ g d e. h g d (ground arith)))

-- The score that four bytes on the disk stand for.
abbrev pub read_score : Option Text → Option ℕ
read_score none = none
read_score (some b) = elim (from_le_bytes b) [ ok s ↦ some s | fault e ↦ none ]

module _ ⦃c : Cuckoo⦄ ⦃r : Rocks⦄ where
  pub get-load_keys :
      (t : c.Table Text) (l : List (Text × Text)) (j : Text)
      → IsKeyed l
      → c.get (load_keys t l) j ≡ or_else (find_entry j l) (c.get t j)
  unfolding load_keys find_entry or_else
  get-load_keys t [] j keyed = refl
  get-load_keys t ((k, w) ∷ l) j keyed =
      rw (get-load_keys (c.insert t k w) l j keyed.1) (ground (arith, c.get-insert t k j w))

  -- What the second loop of `load_from_disk` makes of the entries.
  pub record Loaded (st : Storage) (l : List (Text × Text)) (st' : Storage) : Type 0 where
    pub kv : st'.kv ≡ st.kv
    pub db : st'.db ≡ st.db
    pub zset_db : st'.zset_db ≡ st.zset_db
    pub scores :
        (k v : Text)
        → Lacks 0 k
        → zscore st' k v ≡ or_else (read_score (find_entry (get_zset_key k v) l)) (zscore st k v)

  -- One more entry in front counts where the entries behind it say nothing of its key.
  scores-cons :
      (st : Storage) (f b : Text) (l : List (Text × Text))
      → find_entry f l ≡ none
      → (m : IsMember f b) → (k v : Text) → Lacks 0 k
      → or_else
          (read_score (find_entry (get_zset_key k v) l))
          (zscore (zadd_memory st m.0 (record { score = m.2; value = m.1 })) k v)
        ≡ or_else (read_score (find_entry (get_zset_key k v) ((f, b) ∷ l))) (zscore st k v)
  unfolding find_entry or_else
  scores-cons st f b l fresh (k₀, v₀, s₀, name, small, ef, eb) k v h =
      rw (zscore-zadd_memory st k₀ (record { score = s₀; value = v₀ }) k v)
        (elim (text_discrete f (get_zset_key k v)) [
          | yes p ↦
              let same = get_zset_key_inj k₀ v₀ k v name h (sym ef ∙ p) in
              let gone : find_entry (get_zset_key k v) l ≡ none = rw (← p) fresh in
              ground (arith, from_le_bytes-to_le_bytes s₀ small)
          | no p ↦ ground arith
        ])

  pub load_members-Loaded :
      (st : Storage) (l : List (Text × Text))
      → IsKeyed l
      → AllMembers l
      → (st' : Storage) × (load_members st l ≡ ok st') × Loaded st l st'
  unfolding load_members find_entry zadd_memory or_else zscore
  load_members-Loaded st [] keyed all =
      (st, refl, record { kv = refl; db = refl; zset_db = refl; scores = λ k v h. refl })
  load_members-Loaded st ((f, b) ∷ l) keyed ((k₀, v₀, s₀, name, small, ef, eb), all) =
      let sv : ScoreValue = record { score = s₀; value = v₀ } in
      let (st', run, loaded) = load_members-Loaded (zadd_memory st k₀ sv) l keyed.1 all in
      (
        st',
        rw (ef, eb, decode-get_zset_key k₀ v₀ name, from_le_bytes-to_le_bytes s₀ small) run,
        record {
          kv = loaded.kv;
          db = loaded.db;
          zset_db = loaded.zset_db;
          scores = λ k v h.
              loaded.scores k v h
              ∙ scores-cons st f b l keyed.0 (k₀, v₀, s₀, name, small, ef, eb) k v h;
        },
      )
