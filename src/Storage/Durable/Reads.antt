-- ===== src/Storage/Durable/Reads.antt =====
-- `main` (rust/src/hcache.rs) over the databases of a node: what the requests that read find after a
-- restart.
use hcache.Base.{
  ℕ, ◌≤◌, ◌≡◌, refl, sym, ap, ◌∙◌, inl, inr, Option-cases, Option, none, some, List, [], ◌∷◌, arith,
  Text, leb, ◌&&◌, if◌then◌else◌,
}
use hcache.Base.Run.{Run, ok, fault, ◌>>=◌}
use hcache.Dto.{ScoreValue, ScoreRange}
use hcache.External.Cuckoo.{Cuckoo}
use hcache.External.Rocks.{Rocks}
use hcache.Std.Bytes.{from_le_bytes}
use hcache.Std.Split.{Lacks}
use hcache.Std.Walk.{Walk}
use hcache.ZSet.{ZSet, at_score}
use hcache.ZSet.Range.{count_item, AscendsFrom}
use hcache.Storage.{
  Storage, decode_zset_key, get_kv, load_keys, load_members, new_storage, start, zadd_memory,
  zrange, zscore,
}
use hcache.Storage.Sound.{IsSound, zadd_memory-IsSound, zrange-ListsKey}
use hcache.Storage.Durable.{IsDurable, restart-SameReads}
use mathlib.Core.Option.{get_or}
use mathlib.Core.Path.{subst}

module _ ⦃c : Cuckoo⦄ ⦃r : Rocks⦄ where
  -- one more entry, if the rest of them keeps the agreement of the indexes
  entry-IsSound :
      (st st' : Storage) (l : List (Text × Text)) (name : Run (Text × Text)) (score : Run ℕ)
      → ((st₀ : Storage) → load_members st₀ l ≡ ok st' → IsSound st₀ → IsSound st')
      → (name >>= λ p.
          score >>= λ n. load_members (zadd_memory st p.0 (record { score = n; value = p.1 })) l)
        ≡ ok st'
      → IsSound st
      → IsSound st'
  entry-IsSound st st' l (fault e) score rest run sound = cc
  entry-IsSound st st' l (ok p) (fault e) rest run sound = cc
  entry-IsSound st st' l (ok (zkey, zvalue)) (ok n) rest run sound =
      let sv : ScoreValue = record { score = n; value = zvalue } in
      rest (zadd_memory st zkey sv) run (zadd_memory-IsSound st zkey sv sound)

  load_members-IsSound :
      (st st' : Storage) (l : List (Text × Text))
      → load_members st l ≡ ok st'
      → IsSound st
      → IsSound st'
  unfolding load_members
  load_members-IsSound st st' [] run sound = let same : st ≡ st' = cc in subst IsSound same sound
  load_members-IsSound st st' ((key, value) ∷ l) run sound =
      entry-IsSound st st' l (decode_zset_key key) (from_le_bytes value)
        (λ st₀ more. load_members-IsSound st₀ st' l more) run sound

  start-IsSound : (db zset_db : r.Db) (st : Storage) → start db zset_db ≡ ok st → IsSound st
  unfolding start new_storage
  start-IsSound db zset_db st run =
      load_members-IsSound (record (new_storage db zset_db) { kv = load_keys c.new (r.entries db) })
        st (r.entries zset_db) run
        (record { at_key = λ k z e. absurd (ground (arith, e, c.get-new {V = ZSet} k)) })

  module _ ⦃w : Walk⦄ where
    -- A read of a range: a list in order, that has a value for each score; nothing if there is no set.
    abbrev Lists : Storage → Text → ScoreRange → Option (List ScoreValue) → Type 0
    Lists st key range x =
        (zrange st key range ≡ ok x)
        × AscendsFrom range.min_score (get_or x [])
        × ((s : ℕ) (v : Text)
            → count_item s v (get_or x []) ≡ (
                if leb range.min_score s && leb s range.max_score
                then at_score (zscore st key v) s
                else 0))

    zrange_in :
        (st : Storage) (key : Text) (range : ScoreRange)
        → IsSound st
        → range.min_score ≤ range.max_score
        → (x : Option (List ScoreValue)) × Lists st key range x
    unfolding zrange zscore
    zrange_in st key range sound le = elim (Option-cases (c.get st.zsets key)) [
      | inl e ↦ (none, (rw (e, zrange) refl, tt, λ s v. ground (arith, e)))
      | inr (z, e) ↦
          let (items, run, lists) =
            zrange-ListsKey st key range sound le (λ f. ground (arith, e, f)) in
          (some items, (run, lists.sorted, lists.counted))
    ]

    -- If the databases of a node hold what its memory holds and its indexes agree, a restart over
    -- them ends, without a panic, in a node that finds every key as before, and of which a range
    -- query that is not reversed, of a key with no zero byte, lists what it listed before, in
    -- ascending order of scores, where no set lists nothing, as a set that was emptied does; and
    -- its databases are in step again.
    pub restart_keeps_reads :
        (st : Storage)
        → IsDurable st
        → IsSound st
        → (st' : Storage) × (start st.db st.zset_db ≡ ok st')
          × ((k : Text) → get_kv st' k ≡ get_kv st k)
          × ((k : Text) (range : ScoreRange)
              → Lacks 0 k
              → range.min_score ≤ range.max_score
              → (x x' : Option (List ScoreValue)) × (zrange st k range ≡ ok x)
                × (zrange st' k range ≡ ok x')
                × AscendsFrom range.min_score (get_or x' [])
                × ((s : ℕ) (v : Text)
                    → count_item s v (get_or x' []) ≡ count_item s v (get_or x [])))
          × IsDurable st'
    restart_keeps_reads st durable sound =
        let (st', run, same, durable') = restart-SameReads st durable in
        (
          st',
          run,
          same.keys,
          λ k range name le.
              let (x, (found, sorted, counted)) = zrange_in st k range sound le in
              let (x', (found', sorted', counted')) =
                zrange_in st' k range (start-IsSound st.db st.zset_db st' run) le in
              (
                x,
                x',
                found,
                found',
                sorted',
                λ s v.
                    counted' s v
                    ∙ ap
                        (λ o.
                          if leb range.min_score s && leb s range.max_score
                          then at_score o s
                          else 0)
                        (same.scores k v name)
                    ∙ sym (counted s v),
              ),
          durable',
        )
