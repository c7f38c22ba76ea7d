-- ===== src/Shard.antt =====
-- rust/src/storage.rs, `hash_key` and `get_shard`: which node a key belongs to.
pub mod Bounds
use hcache.Base.{ℕ, ◌/◌, ◌%◌, ◌^◌, [], ◌∷◌, ◌++◌, Text, length, ◌==◌, if◌then◌else◌}
use hcache.External.Hasher.{Hasher}

-- `usize::to_ne_bytes` of a little-endian machine
unfoldable pub usize_bytes : ℕ → Text
usize_bytes n =
    n % 256
    ∷ n / 256 % 256
    ∷ n / 65536 % 256
    ∷ n / 16777216 % 256
    ∷ n / 4294967296 % 256
    ∷ n / 1099511627776 % 256
    ∷ n / 281474976710656 % 256
    ∷ n / 72057594037927936 % 256
    ∷ []

-- The count of nodes is a `u64`, and so is the hash; the remainder fits a `usize`.
unfoldable pub get_shard : (Text → ℕ) → Text → ℕ → ℕ
get_shard hash_key key count = if count == 0 then 0 else hash_key key % count

-- `as u32`
unfoldable pub as_u32 : ℕ → ℕ
as_u32 n = n % 2 ^ 32

module _ ⦃h : Hasher⦄ where
  -- `hash_key` of a `str` or a `String`: `Hash for str` writes its bytes and 0xff.
  unfoldable pub hash_key_str : Text → ℕ
  hash_key_str key = h.finish (key ++ 0xff ∷ [])

  -- `hash_key` of a `[u8]`: `Hash for [T]` writes the length and the bytes.
  unfoldable pub hash_key_slice : Text → ℕ
  unfolding usize_bytes
  hash_key_slice key = h.finish (usize_bytes (length key) ++ key)

  -- `get_shard(key, count) as u32` in the handlers
  unfoldable pub shard_of : Text → ℕ → ℕ
  unfolding get_shard as_u32 hash_key_str
  shard_of key count = as_u32 (get_shard hash_key_str key count)

  -- the same in the loader threads of `handle_init`, where the key is a slice
  unfoldable pub shard_of_slice : Text → ℕ → ℕ
  unfolding get_shard as_u32 hash_key_slice
  shard_of_slice key count = as_u32 (get_shard hash_key_slice key count)
