-- ===== src/Client/Bench.antt =====
-- client/src/client.rs, `main`: its benchmarks. Each spawns its requests as tasks, waits for all of them,
-- and panics if one has panicked. A task is one step here, and the order of the tasks is a parameter, so
-- that the permits that bound the tasks under way decide nothing; the times that it takes are left out.
pub mod Names
pub mod Chunks
pub mod Each
pub mod Kept
pub mod Keys
pub mod Sets
use hcache.Base.{ℕ, zero, suc, ◌+◌, ◌*◌, ◌/◌, List, [], ◌∷◌, ◌++◌, Text, codes, length, ◌==◌}
use hcache.Base.Run.{Run, ok, ◌>>=◌}
use hcache.Dto.{InsrtRequest}
use hcache.External.Cuckoo.{Cuckoo}
use hcache.External.Rocks.{Rocks}
use hcache.External.Hasher.{Hasher}
use hcache.External.Serde.{Serde}
use hcache.External.Uri.{Site}
use hcache.Std.Decimal.{decimal}
use hcache.Std.Repeat.{repeat}
use hcache.Std.Walk.{Walk}
use hcache.Shard.{as_u32}
use hcache.Cluster.{Net, World}
use hcache.Client
use hcache.Client.{Startup}
use hcache.Client.Check.{key_of, entries_from, keys_from, done, value, expect}

-- `format!("key{}", i).repeat(16)`
unfoldable pub long_key : ℕ → Text
unfolding key_of
long_key i = repeat 16 (key_of i)

-- `format!("zset{}", i).repeat(16)`
unfoldable pub long_zset : ℕ → Text
long_zset i = repeat 16 (codes "zset" ++ decimal i)

-- `format!("{}", i).repeat(32)`
unfoldable pub long_value : ℕ → Text
long_value i = repeat 32 (decimal i)

-- 1024 times `a`
unfoldable pub filler : ℕ → Text
filler i = repeat 1024 (codes "a")

-- `i..i + left`
unfoldable pub numbers : ℕ → ℕ → List ℕ
numbers i zero = []
numbers i (suc left) = i ∷ numbers (suc i) left

unfoldable pub take {ℓ} : {A : Type ℓ} → ℕ → List A → List A
take zero l = []
take (suc n) [] = []
take (suc n) (x ∷ l) = x ∷ take n l

unfoldable pub drop {ℓ} : {A : Type ℓ} → ℕ → List A → List A
drop zero l = l
drop (suc n) [] = []
drop (suc n) (x ∷ l) = drop n l

-- the `j`-th of `chunks(1000)`, and how many there are
unfoldable pub chunk {ℓ} : {A : Type ℓ} → List A → ℕ → List A
unfolding take drop
chunk l j = take 1000 (drop (1000 * j) l)

unfoldable pub chunks : ℕ → ℕ
chunks n = (n + 999) / 1000

unfoldable pub long_entries : ℕ → List InsrtRequest
unfolding entries_from
long_entries n = entries_from long_key filler 0 n

unfoldable pub long_keys : ℕ → List Text
unfolding keys_from
long_keys n = keys_from long_key 0 n

module _ ⦃c : Cuckoo⦄ ⦃r : Rocks⦄ where
  unfoldable pub run_each : (ℕ → World → Run World) → List ℕ → World → Run World
  run_each task [] w = ok w
  run_each task (i ∷ rest) w = task i w >>= run_each task rest

  -- the tasks `0..n`, in any order
  unfoldable pub spawn_each : Walk → (ℕ → World → Run World) → ℕ → World → Run World
  unfolding run_each numbers
  spawn_each tasks task n = run_each task (tasks.visit (numbers 0 n))

  abbrev pub forgotten : {A : Type 0} → A × World → Run World
  forgotten p = ok p.1

module _ ⦃c : Cuckoo⦄ ⦃r : Rocks⦄ ⦃h : Hasher⦄ ⦃s : Serde⦄ ⦃walk : Walk⦄ (site : Site) (net : Net)
    (startup : Startup) (node : ℕ) where
  unfoldable pub task_add : ℕ → World → Run World
  unfolding done
  task_add i w = done (Client.add site net startup node (long_key i) (filler i) w)

  unfoldable pub task_query : ℕ → World → Run World
  unfolding value
  task_query i w = value (Client.query site net startup node (long_key i) w) >>= forgotten

  unfoldable pub task_del : ℕ → World → Run World
  unfolding done
  task_del i w = done (Client.del site net startup node (long_key i) w)

  unfoldable pub task_batch : ℕ → ℕ → World → Run World
  unfolding done chunk long_entries
  task_batch n j w = done (Client.batch site net startup node (chunk (long_entries n) j) w)

  unfoldable pub list_chunk : ℕ → ℕ → World → Run World
  unfolding value expect chunk long_keys
  list_chunk n j w = value (Client.list site net startup node (chunk (long_keys n) j) w) >>= λ p.
      expect (length p.0 == length (chunk (long_keys n) j)) p.1

  unfoldable pub task_zadd : ℕ → World → Run World
  unfolding done as_u32
  task_zadd i w = done (Client.zadd site net startup node (long_zset i) (as_u32 i) (long_value i) w)

  unfoldable pub task_zrange : ℕ → World → Run World
  unfolding value as_u32
  task_zrange i w =
      value (Client.zrange site net startup node (long_zset i) (as_u32 i) (as_u32 i) w)
      >>= forgotten

  unfoldable pub task_zrmv : ℕ → World → Run World
  unfolding done
  task_zrmv i w = done (Client.zrmv site net startup node (long_zset i) (long_value i) w)

  unfoldable pub task_cleanup : ℕ → World → Run World
  unfolding done
  task_cleanup i w = done (Client.del site net startup node (long_key i) w) >>= λ w₁.
      done (Client.del site net startup node (long_zset i) w₁)

module _ ⦃c : Cuckoo⦄ ⦃r : Rocks⦄ ⦃h : Hasher⦄ ⦃s : Serde⦄ ⦃walk : Walk⦄ (tasks : Walk)
    (site : Site) (net : Net) (startup : Startup) (node : ℕ) where
  unfoldable pub bench_keys : ℕ → World → Run World
  unfolding spawn_each run_each numbers chunks
  bench_keys n w =
      spawn_each tasks (task_add site net startup node) n w
      >>= spawn_each tasks (task_query site net startup node) n
      >>= spawn_each tasks (task_del site net startup node) n
      >>= spawn_each tasks (task_batch site net startup node n) (chunks n)
      >>= run_each (list_chunk site net startup node n) (numbers 0 (chunks n))

  unfoldable pub bench_sets : ℕ → World → Run World
  unfolding spawn_each
  bench_sets n w =
      spawn_each tasks (task_zadd site net startup node) n w
      >>= spawn_each tasks (task_zrange site net startup node) n
      >>= spawn_each tasks (task_zrmv site net startup node) n

  unfoldable pub benchmarks : ℕ → World → Run World
  unfolding bench_keys bench_sets spawn_each
  benchmarks n w =
      bench_keys n w >>= bench_sets n >>= spawn_each tasks (task_cleanup site net startup node) n
