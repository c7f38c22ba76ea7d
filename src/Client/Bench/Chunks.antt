-- ===== src/Client/Bench/Chunks.antt =====
-- The chunks of the benchmarks of client/src/client.rs, and what a batch of numbered entries leaves.
use hcache.Base.{
  ℕ, zero, suc, ◌+◌, ◌-◌, ◌*◌, ◌≤◌, ◌<◌, ◌≡◌, refl, sym, ap, ◌∙◌, ite, arith, Option, some, ◌∷◌,
  Text, text_discrete, ℕ_discrete, length,
}
use Prim.Native.Nat.{min}
use hcache.Storage.Views.{last_value}
use hcache.Client.Check.{entries_from, keys_from}
use hcache.Client.Bench.{take, drop, chunk, long_entries, long_keys, long_key, filler}

module _ (name content : ℕ → Text) where
  drop-entries_from :
      (d i left : ℕ)
      → drop d (entries_from name content i left) ≡ entries_from name content (i + d) (left - d)
  unfolding drop entries_from
  drop-entries_from zero i left =
      let e : i + 0 ≡ i = omega arith in
      let f : left - 0 ≡ left = omega arith in
      ap (λ m. entries_from name content m left) (sym e)
      ∙ ap (entries_from name content (i + 0)) (sym f)
  drop-entries_from (suc d) i zero =
      let f : 0 - suc d ≡ 0 = omega arith in ap (entries_from name content (i + suc d)) (sym f)
  drop-entries_from (suc d) i (suc left) =
      let e : suc i + d ≡ i + suc d = omega arith in
      let f : left - d ≡ suc left - suc d = omega arith in
      drop-entries_from d (suc i) left
      ∙ ap (λ m. entries_from name content m (left - d)) e
      ∙ ap (entries_from name content (i + suc d)) f

  take-entries_from :
      (t i left : ℕ)
      → take t (entries_from name content i left) ≡ entries_from name content i (min t left)
  unfolding take entries_from
  take-entries_from zero i left =
      let f : 0 ≡ min 0 left = omega arith in ap (entries_from name content i) f
  take-entries_from (suc t) i zero =
      let f : 0 ≡ min (suc t) 0 = omega arith in ap (entries_from name content i) f
  take-entries_from (suc t) i (suc left) =
      let f : suc (min t left) ≡ min (suc t) (suc left) = omega arith in
      ap (λ l. record { key = name i; value = content i } ∷ l) (take-entries_from t (suc i) left)
      ∙ ap (entries_from name content i) f

module _ (name : ℕ → Text) where
  drop-keys_from :
      (d i left : ℕ) → drop d (keys_from name i left) ≡ keys_from name (i + d) (left - d)
  unfolding drop keys_from
  drop-keys_from zero i left =
      let e : i + 0 ≡ i = omega arith in
      let f : left - 0 ≡ left = omega arith in
      ap (λ m. keys_from name m left) (sym e) ∙ ap (keys_from name (i + 0)) (sym f)
  drop-keys_from (suc d) i zero =
      let f : 0 - suc d ≡ 0 = omega arith in ap (keys_from name (i + suc d)) (sym f)
  drop-keys_from (suc d) i (suc left) =
      let e : suc i + d ≡ i + suc d = omega arith in
      let f : left - d ≡ suc left - suc d = omega arith in
      drop-keys_from d (suc i) left
      ∙ ap (λ m. keys_from name m (left - d)) e
      ∙ ap (keys_from name (i + suc d)) f

  take-keys_from : (t i left : ℕ) → take t (keys_from name i left) ≡ keys_from name i (min t left)
  unfolding take keys_from
  take-keys_from zero i left = let f : 0 ≡ min 0 left = omega arith in ap (keys_from name i) f
  take-keys_from (suc t) i zero = let f : 0 ≡ min (suc t) 0 = omega arith in ap (keys_from name i) f
  take-keys_from (suc t) i (suc left) =
      let f : suc (min t left) ≡ min (suc t) (suc left) = omega arith in
      ap (λ l. name i ∷ l) (take-keys_from t (suc i) left) ∙ ap (keys_from name i) f

  pub length-keys_from : (i left : ℕ) → length (keys_from name i left) ≡ left
  unfolding keys_from
  length-keys_from i zero = refl
  length-keys_from i (suc left) = omega (arith, length-keys_from (suc i) left)

-- how many entries the `j`-th chunk has
abbrev pub size_of : ℕ → ℕ → ℕ
size_of n j = min 1000 (n - 1000 * j)

pub chunk-long_entries :
    (n j : ℕ) → chunk (long_entries n) j ≡ entries_from long_key filler (1000 * j) (size_of n j)
unfolding chunk long_entries
chunk-long_entries n j =
    let e : 0 + 1000 * j ≡ 1000 * j = omega arith in
    ap (take 1000) (drop-entries_from long_key filler (1000 * j) 0 n)
    ∙ take-entries_from long_key filler 1000 (0 + 1000 * j) (n - 1000 * j)
    ∙ ap (λ m. entries_from long_key filler m (size_of n j)) e

pub chunk-long_keys :
    (n j : ℕ) → chunk (long_keys n) j ≡ keys_from long_key (1000 * j) (size_of n j)
unfolding chunk long_keys
chunk-long_keys n j =
    let e : 0 + 1000 * j ≡ 1000 * j = omega arith in
    ap (take 1000) (drop-keys_from long_key (1000 * j) 0 n)
    ∙ take-keys_from long_key 1000 (0 + 1000 * j) (n - 1000 * j)
    ∙ ap (λ m. keys_from long_key m (size_of n j)) e

-- Every entry has the same value: a key that has it keeps it, and the keys of the entries get it.
pub last_value-keeps :
    (k : Text) (s left : ℕ) (old : Option Text)
    → old ≡ some (filler 0)
    → last_value k (entries_from long_key filler s left) old ≡ some (filler 0)
unfolding entries_from filler
last_value-keeps k s zero old e = e
last_value-keeps k s (suc left) old e =
    last_value-keeps k (suc s) left (ite (text_discrete (long_key s) k) (some (filler s)) old)
      (ground (arith, e))

pub last_value-gets :
    (i s left : ℕ) (old : Option Text)
    → s ≤ i
    → i < s + left
    → last_value (long_key i) (entries_from long_key filler s left) old ≡ some (filler 0)
unfolding entries_from filler
last_value-gets i s zero old lo hi = absurd (omega (arith, lo, hi))
last_value-gets i s (suc left) old lo hi = elim (ℕ_discrete s i) [
  | yes p ↦
      last_value-keeps (long_key i) (suc s) left
        (ite (text_discrete (long_key s) (long_key i)) (some (filler s)) old)
        (let same : long_key s ≡ long_key i = ap long_key p in ground (arith, same))
  | no p ↦
      last_value-gets i (suc s) left
        (ite (text_discrete (long_key s) (long_key i)) (some (filler s)) old) (omega (arith, lo, p))
        (omega (arith, hi))
]
