-- ===== src/Client/Check.antt =====
-- client/src/client.rs, `main`: the checks of /add, /query, /del, /batch and /list that it makes before
-- its benchmarks. A check that fails panics.
use hcache.Base.{
  ℕ, zero, suc, ◌+◌, ite, Option, none, some, List, [], ◌∷◌, ◌++◌, Text, codes, text_discrete,
  length, Bool, ◌==◌, if◌then◌else◌,
}
use hcache.Base.Run.{Run, ok, fault, panicked, ◌>>=◌}
use hcache.Dto.{InsrtRequest}
use hcache.External.Cuckoo.{Cuckoo}
use hcache.External.Rocks.{Rocks}
use hcache.External.Hasher.{Hasher}
use hcache.External.Serde.{Serde}
use hcache.External.Uri.{Site}
use hcache.Std.Decimal.{decimal}
use hcache.Std.Walk.{Walk}
use hcache.Cluster.{Net, World}
use hcache.Client
use hcache.Client.{Startup}

-- `format!("key{}", i)` and `format!("value{}", i)`
unfoldable pub key_of : ℕ → Text
key_of i = codes "key" ++ decimal i

unfoldable pub value_of_number : ℕ → Text
value_of_number i = codes "value" ++ decimal i

abbrev pub entry_of : ℕ → InsrtRequest
entry_of i = record { key = key_of i; value = value_of_number i }

-- `(i..i + left).map(…).collect()`
unfoldable pub entries_from : (ℕ → Text) → (ℕ → Text) → ℕ → ℕ → List InsrtRequest
entries_from name content i zero = []
entries_from name content i (suc left) =
    record { key = name i; value = content i } ∷ entries_from name content (suc i) left

unfoldable pub keys_from : (ℕ → Text) → ℕ → ℕ → List Text
keys_from name i zero = []
keys_from name i (suc left) = name i ∷ keys_from name (suc i) left

unfoldable pub repeated : ℕ → Text → List Text
repeated zero key = []
repeated (suc n) key = key ∷ repeated n key

-- `&key[3..]`
unfoldable pub after_three : Text → Option Text
after_three (x ∷ y ∷ z ∷ t) = some t
after_three _ = none

module _ ⦃c : Cuckoo⦄ ⦃r : Rocks⦄ where
  -- `.unwrap()` of `Ok(())`
  unfoldable pub done : Run (Option (Unit {0}) × World) → Run World
  done (ok (some u, w)) = ok w
  done (ok (none, w)) = fault panicked
  done (fault e) = fault e

  -- `.unwrap()` of a value
  unfoldable pub value : {A : Type 0} → Run (Option A × World) → Run (A × World)
  value (ok (some a, w)) = ok (a, w)
  value (ok (none, w)) = fault panicked
  value (fault e) = fault e

  -- nothing was found
  unfoldable pub missing : {A : Type 0} → Run (Option A × World) → Run World
  missing (ok (some a, w)) = fault panicked
  missing (ok (none, w)) = ok w
  missing (fault e) = fault e

  unfoldable pub expect : Bool → World → Run World
  expect holds w = if holds then ok w else fault panicked

  -- the value of an entry is that of its number
  unfoldable pub expect_value : InsrtRequest → World → Run World
  unfolding after_three
  expect_value entry w = elim (after_three entry.key) [
    | none ↦ fault panicked
    | some number ↦
        ite (text_discrete entry.value (codes "value" ++ number)) (ok w) (fault panicked)
  ]

  unfoldable pub expect_values : List InsrtRequest → World → Run World
  unfolding expect_value
  expect_values [] w = ok w
  expect_values (entry ∷ entries) w = expect_value entry w >>= expect_values entries

module _ ⦃c : Cuckoo⦄ ⦃r : Rocks⦄ ⦃h : Hasher⦄ ⦃s : Serde⦄ ⦃walk : Walk⦄ (site : Site) (net : Net)
    (startup : Startup) (node : ℕ) where
  unfoldable pub check_add : World → Run World
  unfolding done value
  check_add w = done (Client.add site net startup node (codes "hello") (codes "world") w) >>= λ w₁.
      value (Client.query site net startup node (codes "hello") w₁) >>= λ p.
      ite (text_discrete p.0 (codes "world")) (ok p.1) (fault panicked)

  unfoldable pub check_del : World → Run World
  unfolding done missing
  check_del w = done (Client.del site net startup node (codes "hello") w) >>= λ w₁.
      missing (Client.query site net startup node (codes "hello") w₁)

  -- `count` is 100
  unfoldable pub check_list : ℕ → World → Run World
  unfolding done value expect expect_values entries_from keys_from
  check_list count w =
      done (Client.batch site net startup node (entries_from key_of value_of_number 0 count) w)
      >>= λ w₁. value (Client.list site net startup node (keys_from key_of 0 count) w₁) >>= λ p.
          expect (length p.0 == count) p.1 >>= expect_values p.0

  unfoldable pub check_partial : ℕ → World → Run World
  unfolding value expect keys_from
  check_partial count w =
      value (Client.list site net startup node (keys_from key_of 0 (count + count)) w) >>= λ p.
      expect (length p.0 == count) p.1

  unfoldable pub check_miss : ℕ → World → Run World
  unfolding missing keys_from
  check_miss count w = missing (Client.list site net startup node (keys_from key_of count count) w)

  unfoldable pub check_repeated : ℕ → World → Run World
  unfolding value expect repeated
  check_repeated count w =
      value (Client.list site net startup node (repeated count (key_of 0)) w) >>= λ p.
      expect (length p.0 == 1) p.1

  unfoldable pub check_keys : ℕ → World → Run World
  unfolding check_add check_del check_list check_partial check_miss check_repeated
  check_keys count w =
      check_add w
      >>= check_del
      >>= check_list count
      >>= check_partial count
      >>= check_miss count
      >>= check_repeated count
