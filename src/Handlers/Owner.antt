-- ===== src/Handlers/Owner.antt =====
-- The shard that the handlers of rust/src/hcache.rs compute, in a formed cluster.
use hcache.Base.{ℕ, ◌≤◌, ◌<◌, ◌^◌, ◌≡◌, refl, arith, Text}
use hcache.External.Cuckoo.{Cuckoo}
use hcache.External.Rocks.{Rocks}
use hcache.External.Hasher.{Hasher}
use hcache.External.Serde.{Serde}
use hcache.Std.Walk.{Walk}
use hcache.Shard.{shard_of}
use hcache.Shard.Bounds.{shard_of-lt}
use hcache.Cluster.{Net, World}
use hcache.Cluster.Ready.{IsFormed}
use hcache.Handlers.{own_shard}

module _ ⦃c : Cuckoo⦄ ⦃r : Rocks⦄ ⦃h : Hasher⦄ ⦃s : Serde⦄ ⦃walk : Walk⦄ where
  module _ {net : Net} {n node : ℕ} {w : World} (formed : IsFormed net n w)
      (member : node < n) where
    pub own_shard-lt : n ≤ 2 ^ 32 → (key : Text) → shard_of key n < n
    own_shard-lt small key = (shard_of-lt key n (omega (arith, member)) small).0

    pub own_shard-eq : (key : Text) → own_shard net node w key ≡ shard_of key n
    unfolding own_shard
    own_shard-eq key = rw (formed.count node member) refl
