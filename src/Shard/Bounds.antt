-- ===== src/Shard/Bounds.antt =====
-- `get_shard` (rust/src/storage.rs) and the cast of its result to `u32` (rust/src/hcache.rs).
use hcache.Base.{ℕ, ◌≤◌, ◌<◌, ◌%◌, ◌^◌, ◌≡◌, arith, Text}
use hcache.External.Hasher.{Hasher}
use hcache.Shard.{hash_key_str, shard_of}

module _ ⦃h : Hasher⦄ where
  -- In a cluster of at least one and at most 2 ^ 32 nodes the shard of a key is the number of a
  -- node, and the cast to `u32` loses nothing: it is the remainder of the key's hash.
  pub shard_of-lt :
      (key : Text) (count : ℕ)
      → 0 < count
      → count ≤ 2 ^ 32
      → (shard_of key count < count) × (shard_of key count ≡ hash_key_str key % count)
  unfolding shard_of
  shard_of-lt key count pos small = ground arith

  -- Before any cluster is known every key is the node's own.
  pub shard_of-zero : (key : Text) → shard_of key 0 ≡ 0
  unfolding shard_of
  shard_of-zero key = ground arith
