-- ===== src/Client/Bench/Sets.antt =====
-- client/src/client.rs, `main`: its benchmarks of /zadd, /zrange and /zrmv and its cleanup, made against a
-- cluster, behind those of keys.
use hcache.Base.{
  ℕ, ◌≤◌, ◌<◌, ◌^◌, ◌≡◌, refl, sym, ◌∙◌, arith, Option, none, some, Text, text_discrete, length,
}
use hcache.Base.Run.{ok}
use hcache.External.Cuckoo.{Cuckoo}
use hcache.External.Rocks.{Rocks}
use hcache.External.Hasher.{Hasher}
use hcache.External.Serde.{Serde}
use hcache.External.Uri.{Site}
use hcache.Std.Walk.{Walk}
use hcache.Shard.{as_u32}
use hcache.Cluster.{Net, World, delivered}
use hcache.Client.{Startup}
use hcache.Client.Spec.{Command, Cache, next, put, Scores, scored, without}
use hcache.Client.View.{view, owns}
use hcache.Client.Commands.{IsUp}
use hcache.Client.Reads.{IsSmall}
use hcache.Client.Known.{Holds, del-Holds, zadd-Holds, zrmv-Holds, zrange-Holds}
use hcache.Client.Check.{done, value}
use hcache.Client.Expected.{put-same}
use hcache.Client.Bench.{
  long_key, long_zset, long_value, task_zadd, task_zrange, task_zrmv, task_cleanup, bench_sets,
  benchmarks,
}
use hcache.Client.Bench.Names.{
  long_key-Lacks, long_zset-Lacks, Fits-del, Fits-del_set, Fits-zadd, Fits-zrange, Fits-zrmv,
}
use hcache.Client.Bench.Kept.{Untouched, put-apart, put-keeps}
use hcache.Client.Bench.Each.{Does, spawn_each-Holds}
use hcache.Client.Bench.Keys.{bench_keys-Holds}
use mathlib.Core.Option
use mathlib.Core.Path.{subst}

abbrev HasSet : ℕ → Cache → Type 0
HasSet i a = (f : Scores) × (a.sets (long_zset i) ≡ some f)

-- The keys of the benchmarks have neither a value nor a set.
abbrev pub Cleared : ℕ → Cache → Type 0
Cleared i a =
    (a.keys (long_key i) ≡ none)
    × (a.sets (long_key i) ≡ none)
    × (a.keys (long_zset i) ≡ none)
    × (a.sets (long_zset i) ≡ none)

put-HasSet :
    (k : Text) (g : Scores) (sets : Text → Option Scores) (j : Text) (f : Scores)
    → sets j ≡ some f
    → (f' : Scores) × (put k (some g) sets j ≡ some f')
put-HasSet k g sets j f e = elim (text_discrete k j) [
  | yes p ↦ (g, ground (arith, p))
  | no p ↦ (f, put-apart k (some g) sets j p ∙ e)
]

module _ ⦃c : Cuckoo⦄ ⦃r : Rocks⦄ ⦃h : Hasher⦄ ⦃s : Serde⦄ ⦃walk : Walk⦄ (site : Site) (net : Net)
    (startup : Startup) (n node : ℕ) (small : n ≤ 2 ^ 32) (member : node < n)
    (delivers : (i : ℕ) → net.delivery i ≡ delivered) (low : length site.host ≤ 64000) where
  abbrev Now : Cache → World → Type 0
  Now a w = Holds site net startup n node small member delivers a w

  module _ (a₀ : Cache) (count : ℕ) (few : count ≤ 2 ^ 32) where
    task_zadd-Does : Does Now (Untouched a₀) HasSet count (task_zadd site net startup node)
    unfolding task_zadd done as_u32
    task_zadd-Does i a w lt kept now =
        let (w', run, now') =
          zadd-Holds site net startup n node small member delivers a w (long_zset i) (as_u32 i)
            (long_value i) now (omega arith, Fits-zadd site.host low i (omega (arith, lt, few))) in
        let g = scored (long_value i) (as_u32 i) (a.sets (long_zset i)) in
        (
          w',
          next (owns n node) (Command.zadd (long_zset i) (as_u32 i) (long_value i)) a,
          rw run refl,
          λ k keys sets.
              let (e, f) = kept k keys sets in
              (e, put-apart (long_zset i) (some g) a.sets k (sets i) ∙ f),
          (g, put-same (long_zset i) (some g) a.sets),
          λ j q. put-HasSet (long_zset i) g a.sets (long_zset j) q.0 q.1,
          now',
        )

    abbrev Filled : Cache → Type 0
    Filled a = Untouched a₀ a × ((i : ℕ) → i < count → HasSet i a)

    task_zrange-Does : Does Now Filled (λ i a. Unit {0}) count (task_zrange site net startup node)
    unfolding task_zrange value as_u32
    task_zrange-Does i a w lt kept now =
        let (f, set) = kept.1 i lt in
        let (items, w', run, ranks, now') =
          zrange-Holds site net startup n node small member delivers a w (long_zset i) (as_u32 i)
            (as_u32 i) f now
            (omega arith, omega arith, Fits-zrange site.host low i (omega (arith, lt, few))) set in
        (w', a, rw run refl, kept, tt, λ j q. tt, now')

    task_zrmv-Does :
        Does Now (Untouched a₀) (λ i a. Unit {0}) count (task_zrmv site net startup node)
    unfolding task_zrmv done
    task_zrmv-Does i a w lt kept now =
        let (w', run, now') =
          zrmv-Holds site net startup n node small member delivers a w (long_zset i) (long_value i)
            now (long_zset-Lacks i, Fits-zrmv site.host low i (omega (arith, lt, few))) in
        (
          w',
          next (owns n node) (Command.zrmv (long_zset i) (long_value i)) a,
          rw run refl,
          λ k keys sets.
              let (e, f) = kept k keys sets in
              (
                e,
                put-apart (long_zset i) (Option.map (without (long_value i)) (a.sets (long_zset i)))
                      a.sets k (sets i)
                    ∙ f,
              ),
          tt,
          λ j q. tt,
          now',
        )

    task_cleanup-Does : Does Now (Untouched a₀) Cleared count (task_cleanup site net startup node)
    unfolding task_cleanup done
    task_cleanup-Does i a w lt kept now =
        let (w₁, run, now₁) =
          del-Holds site net startup n node small member delivers a w (long_key i) now
            (long_key-Lacks i, Fits-del site.host low i (omega (arith, lt, few))) in
        let b = next (owns n node) (Command.del (long_key i)) a in
        let (w₂, run', now₂) =
          del-Holds site net startup n node small member delivers b w₁ (long_zset i) now₁
            (long_zset-Lacks i, Fits-del_set site.host low i (omega (arith, lt, few))) in
        (
          w₂,
          next (owns n node) (Command.del (long_zset i)) b,
          rw (run, run') refl,
          λ k keys sets.
              let (e, f) = kept k keys sets in
              (
                put-apart (long_zset i) none b.keys k (sets i)
                    ∙ put-apart (long_key i) none a.keys k (keys i)
                    ∙ e,
                put-apart (long_zset i) none b.sets k (sets i)
                    ∙ put-apart (long_key i) none a.sets k (keys i)
                    ∙ f,
              ),
          (
            put-keeps (long_zset i) none b.keys (long_key i) (put-same (long_key i) none a.keys),
            put-keeps (long_zset i) none b.sets (long_key i) (put-same (long_key i) none a.sets),
            put-same (long_zset i) none b.keys,
            put-same (long_zset i) none b.sets,
          ),
          λ j q. (
            put-keeps (long_zset i) none b.keys (long_key j)
                (put-keeps (long_key i) none a.keys (long_key j) q.0),
            put-keeps (long_zset i) none b.sets (long_key j)
                (put-keeps (long_key i) none a.sets (long_key j) q.1),
            put-keeps (long_zset i) none b.keys (long_zset j)
                (put-keeps (long_key i) none a.keys (long_zset j) q.2),
            put-keeps (long_zset i) none b.sets (long_zset j)
                (put-keeps (long_key i) none a.sets (long_zset j) q.3),
          ),
          now₂,
        )

    bench_sets-Holds :
        (tasks : Walk) (a : Cache) (w : World)
        → Untouched a₀ a
        → Now a w
        → (w' : World) × (a' : Cache) × (bench_sets tasks site net startup node count w ≡ ok w')
          × Untouched a₀ a'
          × Now a' w'
    unfolding bench_sets
    bench_sets-Holds tasks a w kept now =
        let (w₁, a₁, run₁, kept₁, all₁, now₁) =
          spawn_each-Holds Now (Untouched a₀) HasSet count (task_zadd site net startup node) tasks
            task_zadd-Does a w kept now in
        let (w₂, a₂, run₂, kept₂, _, now₂) =
          spawn_each-Holds Now Filled (λ i x. Unit {0}) count (task_zrange site net startup node)
            tasks task_zrange-Does a₁ w₁ (kept₁, all₁) now₁ in
        let (w₃, a₃, run₃, kept₃, _, now₃) =
          spawn_each-Holds Now (Untouched a₀) (λ i x. Unit {0}) count
            (task_zrmv site net startup node) tasks task_zrmv-Does a₂ w₂ kept₂.0 now₂ in
        (w₃, a₃, rw (run₁, run₂, run₃) refl, kept₃, now₃)

  -- In a formed cluster of at most 2 ^ 32 nodes, with every call delivered, sorted sets whose
  -- indexes agree, scores that are `u32` and a host of at most 64000 bytes, if the keys of the
  -- benchmarks' sorted sets have no value, the benchmarks of the client run without a panic,
  -- through any node, for any count of keys up to 2 ^ 32, in whatever order the tasks of each
  -- benchmark run; they leave no value and no sorted set at their own keys, and every other key as
  -- it was; and the cluster is left formed, with indexes that agree.
  pub benchmarks-pass :
      (tasks : Walk) (count : ℕ) (w : World)
      → count ≤ 2 ^ 32
      → IsUp net n w
      → IsSmall (view n w)
      → ((i : ℕ) → i < count → (view n w).keys (long_zset i) ≡ none)
      → (w' : World) × (benchmarks tasks site net startup node count w ≡ ok w')
        × ((i : ℕ) → i < count → Cleared i (view n w'))
        × Untouched (view n w) (view n w')
        × IsUp net n w'
  unfolding benchmarks
  benchmarks-pass tasks count w few up below unset =
      let a = view n w in
      let now : Now a w = record { up = up; same = refl; below = below } in
      let kept : Untouched a a = λ k keys sets. (refl, refl) in
      let (w₁, a₁, run₁, kept₁, now₁) =
        bench_keys-Holds site net startup n node small member delivers low a count few tasks a w
          kept now in
      let (w₂, a₂, run₂, kept₂, now₂) = bench_sets-Holds a count few tasks a₁ w₁ kept₁ now₁ in
      let (w₃, a₃, run₃, kept₃, all₃, now₃) =
        spawn_each-Holds Now (Untouched a) Cleared count (task_cleanup site net startup node) tasks
          (task_cleanup-Does a count few) a₂ w₂ kept₂ now₂ in
      (
        w₃,
        rw (run₁, run₂, run₃) refl,
        λ i lt. subst (Cleared i) (sym now₃.same) (all₃ i lt),
        subst (Untouched a) (sym now₃.same) kept₃,
        now₃.up,
      )
