-- ===== src/Client/Flood.antt =====
-- client/src/batch-forever.rs: `main` sends one batch after another. A semaphore bounds the requests
-- under way: the loop takes a permit and forgets it, and the task of the request adds one when
-- `batch` has returned.
pub mod Bound
pub mod Stored
pub mod Again
use hcache.Base.{ℕ, suc, ◌≡◌, Option, List}
use hcache.Base.Run.{Fault, ok, fault}
use hcache.Dto.{InsrtRequest}
use hcache.External.Cuckoo.{Cuckoo}
use hcache.External.Rocks.{Rocks}
use hcache.External.Hasher.{Hasher}
use hcache.External.Serde.{Serde}
use hcache.External.Uri.{Site}
use hcache.Std.Walk.{Walk}
use hcache.Cluster.{Net, World}
use hcache.Client.Check.{entries_from}
use hcache.Client.Bench.{long_key, filler}
use hcache.Client
use hcache.Client.{Startup}

-- `chunk` of `main`: 1000 keys, each with 1024 times `a`
unfoldable pub flood_chunk : List InsrtRequest
unfolding entries_from
flood_chunk = entries_from long_key filler 0 1000

module _ ⦃c : Cuckoo⦄ ⦃r : Rocks⦄ ⦃h : Hasher⦄ ⦃s : Serde⦄ ⦃walk : Walk⦄ where
  -- The permits of the semaphore, the tasks under way, those in which `batch` has returned, those that
  -- ended in a panic, and the cluster.
  pub record Flood : Type 0 where
    pub permits : ℕ
    pub flying : ℕ
    pub returned : ℕ
    pub panicked : ℕ
    pub world : World

  -- `Semaphore::new(n)`
  abbrev pub new_flood : ℕ → World → Flood
  new_flood n w = record { permits = n; flying = 0; returned = 0; panicked = 0; world = w }

  module _ (site : Site) (net : Net) (startup : Startup) (node : ℕ)
      (chunk : List InsrtRequest) where
    pub data Step : Flood → Flood → Type 0 where
      -- `acquire().forget()`, and `spawn`
      sends :
          (x : Flood) (p : ℕ)
          → x.permits ≡ suc p
          → Step x (record x { permits = p; flying = suc x.flying })
      -- `batch` returns, whatever it returns, and `add_permits(1)`
      returns :
          (x : Flood) (p : ℕ) (res : Option (Unit {0})) (w : World)
          → x.flying ≡ suc p
          → Client.batch site net startup node chunk x.world ≡ ok (res, w)
          → Step x (record x {
            permits = suc x.permits;
            flying = p;
            returned = suc x.returned;
            world = w;
          })
      -- `batch` panics, and no permit is added
      panics :
          (x : Flood) (p : ℕ) (e : Fault)
          → x.flying ≡ suc p
          → Client.batch site net startup node chunk x.world ≡ fault e
          → Step x (record x { flying = p; panicked = suc x.panicked })

    pub data Reach (x : Flood) : Flood → Type 0 where
      here : Reach x x
      next : {y z : Flood} → Reach x y → Step y z → Reach x z
