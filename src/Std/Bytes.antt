-- ===== src/Std/Bytes.antt =====
-- `u32::to_le_bytes` and `u32::from_le_bytes`.
use hcache.Base.{ℕ, ◌+◌, ◌*◌, ◌/◌, ◌%◌, ◌<◌, ◌^◌, ◌≡◌, [], ◌∷◌, arith, Text}
use hcache.Base.Run.{Run, ok, fault, panicked}

unfoldable pub to_le_bytes : ℕ → Text
to_le_bytes n = n % 256 ∷ n / 256 % 256 ∷ n / 65536 % 256 ∷ n / 16777216 % 256 ∷ []

-- `copy_from_slice` into a buffer of four bytes panics on any other length.
unfoldable pub from_le_bytes : Text → Run ℕ
from_le_bytes (a ∷ b ∷ c ∷ d ∷ []) = ok (a + 256 * b + 65536 * c + 16777216 * d)
from_le_bytes _ = fault panicked

-- The four bytes in which a `u32` score is stored are read back as the score.
pub from_le_bytes-to_le_bytes : (n : ℕ) → n < 2 ^ 32 → from_le_bytes (to_le_bytes n) ≡ ok n
unfolding to_le_bytes from_le_bytes
from_le_bytes-to_le_bytes n h = ground arith
