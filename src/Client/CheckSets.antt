-- ===== src/Client/CheckSets.antt =====
-- client/src/client.rs, `main`: the checks of sorted sets that it makes before its benchmarks.
use hcache.Base.{
  ℕ, zero, suc, ◌-◌, ◌*◌, ◌/◌, ite, List, [], ◌∷◌, Text, codes, text_discrete, length, ◌==◌,
}
use hcache.Base.Run.{Run, ok, fault, panicked, ◌>>=◌}
use hcache.Dto.{ScoreValue}
use hcache.External.Cuckoo.{Cuckoo}
use hcache.External.Rocks.{Rocks}
use hcache.External.Hasher.{Hasher}
use hcache.External.Serde.{Serde}
use hcache.External.Uri.{Site}
use hcache.Std.Decimal.{decimal}
use hcache.Std.Walk.{Walk}
use hcache.Cluster.{Net, World}
use hcache.Client
use hcache.Client.{Startup}
use hcache.Client.Check.{done, value, missing, expect}

abbrev pub zset : Text
zset = codes "zset"

-- `i / 2` and `i * 2`, for the numbers below 2 ^ 31, which the cast to `u32` leaves as they are
unfoldable pub half : ℕ → ℕ
half i = i / 2

unfoldable pub twice : ℕ → ℕ
twice i = i * 2

module _ ⦃c : Cuckoo⦄ ⦃r : Rocks⦄ where
  -- the loop over the scores, from the `i`-th on
  unfoldable pub expect_scores : (ℕ → ℕ) → ℕ → List ScoreValue → World → Run World
  unfolding expect
  expect_scores score i [] w = ok w
  expect_scores score i (x ∷ items) w =
      expect (x.score == score i) w >>= expect_scores score (suc i) items

  -- the loop over the scores and the values
  unfoldable pub expect_items : (ℕ → ℕ) → ℕ → List ScoreValue → World → Run World
  unfolding expect
  expect_items score i [] w = ok w
  expect_items score i (x ∷ items) w = expect (x.score == score i) w >>= λ w₁.
      ite (text_discrete x.value (decimal i)) (ok w₁) (fault panicked)
      >>= expect_items score (suc i) items

module _ ⦃c : Cuckoo⦄ ⦃r : Rocks⦄ ⦃h : Hasher⦄ ⦃s : Serde⦄ ⦃walk : Walk⦄ (site : Site) (net : Net)
    (startup : Startup) (node : ℕ) where
  unfoldable pub zadd_each : (ℕ → ℕ) → ℕ → ℕ → World → Run World
  unfolding done
  zadd_each score i zero w = ok w
  zadd_each score i (suc left) w =
      done (Client.zadd site net startup node zset (score i) (decimal i) w)
      >>= zadd_each score (suc i) left

  -- `count` is 100, and the last score is 49
  unfoldable pub check_zadd : ℕ → World → Run World
  unfolding value expect half zadd_each expect_scores
  check_zadd count w = zadd_each half 0 count w >>= λ w₁.
      value (Client.zrange site net startup node zset 0 (half (count - 1)) w₁) >>= λ p.
      expect (length p.0 == count) p.1 >>= expect_scores half 0 p.0

  -- the last score is 198
  unfoldable pub check_zadd_again : ℕ → World → Run World
  unfolding value expect twice zadd_each expect_items
  check_zadd_again count w = zadd_each twice 0 count w >>= λ w₁.
      value (Client.zrange site net startup node zset 0 (twice (count - 1)) w₁) >>= λ p.
      expect (length p.0 == count) p.1 >>= expect_items twice 0 p.0

  unfoldable pub check_scores : ℕ → World → Run World
  unfolding check_zadd check_zadd_again
  check_scores count w = check_zadd count w >>= check_zadd_again count

  -- the first check of this is an `if` with a panic of its own
  unfoldable pub expect_empty : World → Run World
  unfolding value expect
  expect_empty w =
      value (Client.zrange site net startup node zset 0 0 w) >>= λ p. expect (length p.0 == 0) p.1

  unfoldable pub zrmv_each : ℕ → ℕ → World → Run World
  unfolding done
  zrmv_each i zero w = ok w
  zrmv_each i (suc left) w =
      done (Client.zrmv site net startup node zset (decimal i) w) >>= zrmv_each (suc i) left

  unfoldable pub check_zrmv : ℕ → World → Run World
  unfolding done expect_empty zrmv_each
  check_zrmv count w =
      done (Client.zrmv site net startup node zset (codes "0") w)
      >>= expect_empty
      >>= zrmv_each 1 (count - 1)
      >>= expect_empty

  unfoldable pub check_del_set : World → Run World
  unfolding done missing
  check_del_set w = done (Client.del site net startup node zset w) >>= λ w₁.
      missing (Client.zrange site net startup node zset 0 0 w₁)

  unfoldable pub check_sets : ℕ → World → Run World
  unfolding check_scores check_zrmv check_del_set
  check_sets count w = check_scores count w >>= check_zrmv count >>= check_del_set
