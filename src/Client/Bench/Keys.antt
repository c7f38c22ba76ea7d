-- ===== src/Client/Bench/Keys.antt =====
-- client/src/client.rs, `main`: its benchmarks of /add, /query, /del, /batch and /list, made against a
-- cluster.
use hcache.Base.{
  ℕ, ◌+◌, ◌*◌, ◌/◌, ◌≤◌, ◌<◌, ◌^◌, ◌≡◌, refl, sym, ap, ◌∙◌, none, some, arith, Text, codes,
  ℕ_discrete, length,
}
use Prim.Native.Nat.{min}
use hcache.Base.Run.{ok}
use hcache.External.Cuckoo.{Cuckoo}
use hcache.External.Rocks.{Rocks}
use hcache.External.Hasher.{Hasher}
use hcache.External.Serde.{Serde}
use hcache.External.Uri.{Site, all_plain}
use hcache.Std.HashSet
use hcache.Std.Walk.{Walk}
use hcache.Storage.Views.{last_value}
use hcache.Cluster.{Net, World, delivered}
use hcache.Handlers.Listed.{count_entry, if_value}
use hcache.Client.{Startup}
use hcache.Client.Spec.{Command, Cache, next}
use hcache.Client.View.{owns}
use hcache.Client.Known.{Holds, add-Holds, del-Holds, batch-Holds, query-Holds, list-Holds}
use hcache.Client.Check.{done, value, entries_from, keys_from}
use hcache.Client.Numbered.{
  last_value-absent, if_value-entries_from, length-entries_from, occurs-keys_from,
}
use hcache.Client.Lengths.{length-count_entry}
use hcache.Client.Expected.{Fits-short, put-same, expect-true, nonempty-some}
use hcache.Client.Bench.{
  long_key, filler, chunks, task_add, task_query, task_del, task_batch, list_chunk, bench_keys,
}
use hcache.Client.Bench.Names.{long_key-inj, long_key-Lacks, Fits-query, Fits-del}
use hcache.Client.Bench.Chunks.{
  size_of, chunk-long_entries, chunk-long_keys, length-keys_from, last_value-keeps, last_value-gets,
}
use hcache.Client.Bench.Each.{Does, spawn_each-Holds, run_all-Holds}
use hcache.Client.Bench.Kept.{
  Untouched, Added, AllAdded, put-apart, put-keeps, apart-last_value, kept_set,
}

module _ ⦃c : Cuckoo⦄ ⦃r : Rocks⦄ ⦃h : Hasher⦄ ⦃s : Serde⦄ ⦃walk : Walk⦄ (site : Site) (net : Net)
    (startup : Startup) (n node : ℕ) (small : n ≤ 2 ^ 32) (member : node < n)
    (delivers : (i : ℕ) → net.delivery i ≡ delivered) (low : length site.host ≤ 64000) (a₀ : Cache)
    (count : ℕ) (few : count ≤ 2 ^ 32) where
  abbrev Now : Cache → World → Type 0
  Now a w = Holds site net startup n node small member delivers a w

  task_add-Does : Does Now (Untouched a₀) Added count (task_add site net startup node)
  unfolding task_add done all_plain filler
  task_add-Does i a w lt kept now =
      let (w', run, now') =
        add-Holds site net startup n node small member delivers a w (long_key i) (filler i) now
          (Fits-short site.host (codes "/add") refl (omega arith) (omega (arith, low))) in
      (
        w',
        next (owns n node) (Command.add (long_key i) (filler i)) a,
        rw run refl,
        λ k keys sets.
            let (e, f) = kept k keys sets in
            (
              put-apart (long_key i) (some (filler i)) a.keys k (keys i) ∙ e,
              put-apart (long_key i) none a.sets k (keys i) ∙ f,
            ),
        put-same (long_key i) (some (filler i)) a.keys,
        λ j q. put-keeps (long_key i) (some (filler i)) a.keys (long_key j) q,
        now',
      )

  abbrev Filled : Cache → Type 0
  Filled a = Untouched a₀ a × AllAdded count a

  task_query-Does : Does Now Filled (λ i a. Unit {0}) count (task_query site net startup node)
  unfolding task_query value
  task_query-Does i a w lt kept now =
      let (w', run, now') =
        query-Holds site net startup n node small member delivers a w (long_key i) now
          (long_key-Lacks i, Fits-query site.host low i (omega (arith, lt, few))) in
      (w', a, rw (run, kept.1 i lt) refl, kept, tt, λ j q. tt, now')

  task_del-Does : Does Now (Untouched a₀) (λ i a. Unit {0}) count (task_del site net startup node)
  unfolding task_del done
  task_del-Does i a w lt kept now =
      let (w', run, now') =
        del-Holds site net startup n node small member delivers a w (long_key i) now
          (long_key-Lacks i, Fits-del site.host low i (omega (arith, lt, few))) in
      (
        w',
        next (owns n node) (Command.del (long_key i)) a,
        rw run refl,
        λ k keys sets.
            let (e, f) = kept k keys sets in
            (
              put-apart (long_key i) none a.keys k (keys i) ∙ e,
              put-apart (long_key i) none a.sets k (keys i) ∙ f,
            ),
        tt,
        λ j q. tt,
        now',
      )

  -- the entries of the `j`-th chunk are there
  abbrev ChunkAdded : ℕ → Cache → Type 0
  ChunkAdded j a = (i : ℕ) → 1000 * j ≤ i → i < 1000 * j + size_of count j → Added i a

  task_batch-Does :
      Does Now (Untouched a₀) ChunkAdded (chunks count) (task_batch site net startup node count)
  unfolding task_batch done all_plain
  task_batch-Does j a w lt kept now =
      let kvs = entries_from long_key filler (1000 * j) (size_of count j) in
      let (w', run, now') =
        batch-Holds site net startup n node small member delivers a w kvs now
          (Fits-short site.host (codes "/batch") refl (omega arith) (omega (arith, low))) in
      (
        w',
        next (owns n node) (Command.batch kvs) a,
        rw (chunk-long_entries count j, run) refl,
        λ k keys sets.
            let (e, f) = kept k keys sets in
            (
              apart-last_value k (1000 * j) (size_of count j) (a.keys k) keys ∙ e,
              kept_set (owns n node k) (last_value k kvs none) (a.sets k)
                    (apart-last_value k (1000 * j) (size_of count j) none keys)
                  ∙ f,
            ),
        λ i lo hi. last_value-gets i (1000 * j) (size_of count j) (a.keys (long_key i)) lo hi,
        λ m q i lo hi.
            last_value-keeps (long_key i) (1000 * j) (size_of count j) (a.keys (long_key i))
              (q i lo hi),
        now',
      )

  -- every key of a chunk is found
  list_chunk-Does :
      Does Now Filled (λ j a. Unit {0}) (chunks count) (list_chunk site net startup node count)
  unfolding list_chunk value chunks filler all_plain
  list_chunk-Does j a w lt kept now =
      let size = size_of count j in
      let some_key : 0 < size = omega (arith, lt) in
      let keys = keys_from long_key (1000 * j) size in
      let (entries, w', run, lists, now') =
        list-Holds site net startup n node small member delivers a w keys now
          (Fits-short site.host (codes "/list") refl (omega arith) (omega (arith, low))) in
      let there : (k : Text)
          → a.keys k ≡ last_value k (entries_from long_key filler (1000 * j) size) (a.keys k) =
        λ k. elim (ℕ_discrete (HashSet.occurs k keys) 0) [
          | yes p ↦
              sym (last_value-absent long_key filler long_key-inj k (1000 * j) size (a.keys k) p)
          | no p ↦
              let (i, lo, hi, e) =
                occurs-keys_from long_key filler long_key-inj k (1000 * j) size
                  (omega (arith, p)) in
              let held : a.keys k ≡ some (filler 0) =
                ap a.keys (sym e) ∙ kept.1 i (omega (arith, lo, hi, lt)) in
              held ∙ sym (last_value-keeps k (1000 * j) size (a.keys k) held)
        ] in
      let counts : (k v : Text)
          → count_entry k v entries
            ≡ count_entry k v (entries_from long_key filler (1000 * j) size) =
        λ k v.
          lists k v
          ∙ ap (λ o. if_value v o (min 1 (HashSet.occurs k keys))) (there k)
          ∙ if_value-entries_from long_key filler long_key-inj k v (1000 * j) size (a.keys k) in
      let all : length entries ≡ size =
        length-count_entry entries (entries_from long_key filler (1000 * j) size) counts
        ∙ length-entries_from long_key filler long_key-inj (1000 * j) size in
      (
        w',
        a,
        rw
            (
              chunk-long_keys count j,
              run,
              nonempty-some entries (omega (arith, all, some_key)),
              length-keys_from long_key (1000 * j) size,
            )
            (expect-true (length entries) size w' all),
        kept,
        tt,
        λ m q. tt,
        now',
      )

  -- an entry stands in its chunk
  chunked : (a : Cache) → ((j : ℕ) → j < chunks count → ChunkAdded j a) → AllAdded count a
  unfolding chunks
  chunked a all i lt = all (i / 1000) (omega (arith, lt)) i (omega arith) (omega (arith, lt))

  pub bench_keys-Holds :
      (tasks : Walk) (a : Cache) (w : World)
      → Untouched a₀ a
      → Now a w
      → (w' : World) × (a' : Cache) × (bench_keys tasks site net startup node count w ≡ ok w')
        × Untouched a₀ a'
        × Now a' w'
  unfolding bench_keys
  bench_keys-Holds tasks a w kept now =
      let (w₁, a₁, run₁, kept₁, all₁, now₁) =
        spawn_each-Holds Now (Untouched a₀) Added count (task_add site net startup node) tasks
          task_add-Does a w kept now in
      let (w₂, a₂, run₂, kept₂, _, now₂) =
        spawn_each-Holds Now Filled (λ i x. Unit {0}) count (task_query site net startup node) tasks
          task_query-Does a₁ w₁ (kept₁, all₁) now₁ in
      let (w₃, a₃, run₃, kept₃, _, now₃) =
        spawn_each-Holds Now (Untouched a₀) (λ i x. Unit {0}) count (task_del site net startup node)
          tasks task_del-Does a₂ w₂ kept₂.0 now₂ in
      let (w₄, a₄, run₄, kept₄, all₄, now₄) =
        spawn_each-Holds Now (Untouched a₀) ChunkAdded (chunks count)
          (task_batch site net startup node count) tasks task_batch-Does a₃ w₃ kept₃ now₃ in
      let (w₅, a₅, run₅, kept₅, now₅) =
        run_all-Holds Now Filled (λ j x. Unit {0}) (chunks count)
          (list_chunk site net startup node count) list_chunk-Does a₄ w₄ (kept₄, chunked a₄ all₄)
          now₄ in
      (w₅, a₅, rw (run₁, run₂, run₃, run₄, run₅) refl, kept₅.0, now₅)
