-- ===== src/Client/Flood/Bound.antt =====
-- The permits of the loop of client/src/batch-forever.rs.
use hcache.Base.{ℕ, ◌+◌, ◌≤◌, ◌≡◌, refl, List, arith}
use hcache.Dto.{InsrtRequest}
use hcache.External.Cuckoo.{Cuckoo}
use hcache.External.Rocks.{Rocks}
use hcache.External.Hasher.{Hasher}
use hcache.External.Serde.{Serde}
use hcache.External.Uri.{Site}
use hcache.Std.Walk.{Walk}
use hcache.Cluster.{Net, World}
use hcache.Client.{Startup}
use hcache.Client.Flood.{Flood, new_flood, Step, Reach, sends, returns, panics, here, next}

module _ ⦃c : Cuckoo⦄ ⦃r : Rocks⦄ ⦃h : Hasher⦄ ⦃s : Serde⦄ ⦃walk : Walk⦄ where
  module _ (site : Site) (net : Net) (startup : Startup) (node : ℕ)
      (chunk : List InsrtRequest) where
    abbrev Takes : Flood → Flood → Type 0
    Takes = Step site net startup node chunk

    abbrev Reaches : Flood → Flood → Type 0
    Reaches = Reach site net startup node chunk

    Step-total :
        {x y : Flood}
        → Takes x y
        → y.permits + y.flying + y.panicked ≡ x.permits + x.flying + x.panicked
    Step-total (sends x p e) = omega (arith, e)
    Step-total (returns x p res w e run) = omega (arith, e)
    Step-total (panics x p why e run) = omega (arith, e)

    pub Reach-total :
        {x y : Flood}
        → Reaches x y
        → y.permits + y.flying + y.panicked ≡ x.permits + x.flying + x.panicked
    Reach-total here = refl
    Reach-total (next steps step) = omega (arith, Reach-total steps, Step-total step)

    -- At any time of the loop that sends batches forever, the requests under way and those that
    -- have panicked are together no more than the permits of its semaphore.
    pub flood_bound :
        {n : ℕ} {w : World} {x : Flood} → Reaches (new_flood n w) x → x.flying + x.panicked ≤ n
    flood_bound steps = omega (arith, Reach-total steps)

    -- When every permit has gone with a request that panicked, nothing happens any more.
    pub flood_stuck :
        {n : ℕ} {w : World} {x : Flood}
        → Reaches (new_flood n w) x
        → x.panicked ≡ n
        → (y : Flood) → ¬ Takes x y
    flood_stuck steps all y (sends _ p e) = omega (arith, Reach-total steps, all, e)
    flood_stuck steps all y (returns _ p res w e run) = omega (arith, Reach-total steps, all, e)
    flood_stuck steps all y (panics _ p why e run) = omega (arith, Reach-total steps, all, e)
