-- ===== src/External/Hasher.antt =====
-- `std::collections::hash_map::DefaultHasher` with its fixed keys: a function of the bytes that are
-- written to it. Its 64-bit mixing is not modelled.
use hcache.Base.{ℕ, ◌<◌, ◌^◌, Text}

pub record Hasher : Type 0 where
  pub finish : Text → ℕ
  pub finish-lt : (bytes : Text) → finish bytes < 2 ^ 64
