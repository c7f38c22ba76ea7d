-- ===== src/Client/Expected.antt =====
-- What the checks of keys in client/src/client.rs expect.
use hcache.Base.{
  ℕ, ◌+◌, ◌≤◌, ◌<◌, ◌≡◌, ◌≢◌, refl, ap, ite, if_pos, true, Option, none, some, List, [], ◌∷◌, arith,
  Text, codes, text_discrete, length, length-append, ◌==◌,
}
use hcache.Base.Run.{ok, fault, panicked}
use hcache.Dto.{InsrtRequest}
use hcache.External.Cuckoo.{Cuckoo}
use hcache.External.Rocks.{Rocks}
use hcache.External.Uri.{Fits, all_plain}
use hcache.Cluster.{World}
use hcache.Handlers.Listed.{count_entry}
use hcache.Client.Spec.{Cache, put, nonempty}
use hcache.Client.Check.{
  key_of, value_of_number, after_three, value, expect, expect_value, expect_values,
}

pub Fits-short :
    (host t : Text) → all_plain t ≡ true → length t ≤ 500 → length host ≤ 65000 → Fits host t
Fits-short host t plain short low = record {
  plain = plain;
  short = omega (arith, length-append host t, short, low);
}

pub nonempty-some : (l : List InsrtRequest) → 0 < length l → nonempty l ≡ some l
nonempty-some [] found = absurd (omega (arith, found))
nonempty-some (x ∷ l) found = refl

pub nonempty-none :
    (l : List InsrtRequest) → ((k v : Text) → count_entry k v l ≡ 0) → nonempty l ≡ none
nonempty-none [] zero_each = refl
nonempty-none (x ∷ l) zero_each = absurd (ground (arith, zero_each x.key x.value))

pub ite-same : {A : Type 0} (t : Text) (x y : A) → ite (text_discrete t t) x y ≡ x
ite-same t x y = if_pos (text_discrete t t) refl x y

first : Text → ℕ
first [] = 0
first (b ∷ t) = b

module _ ⦃c : Cuckoo⦄ ⦃r : Rocks⦄ where
  pub expect-true : (m n : ℕ) (w : World) → m ≡ n → expect (m == n) w ≡ ok w
  unfolding expect
  expect-true m n w e = ground (arith, e)

  expect_value-entry :
      (x : InsrtRequest) (i : ℕ) (w : World)
      → key_of i ≡ x.key
      → value_of_number i ≡ x.value
      → expect_value x w ≡ ok w
  unfolding expect_value after_three key_of value_of_number
  expect_value-entry x i w key value =
      rw (← key, ← value) (ite-same (value_of_number i) (ok w) (fault panicked))

  pub expect_values-numbered :
      (l : List InsrtRequest) (w : World)
      → ((k v : Text) → 0 < count_entry k v l → (i : ℕ) × (key_of i ≡ k) × (value_of_number i ≡ v))
      → expect_values l w ≡ ok w
  unfolding expect_values
  expect_values-numbered [] w numbered = refl
  expect_values-numbered (x ∷ l) w numbered =
      let (i, key, value) = numbered x.key x.value (ground arith) in
      rw (expect_value-entry x i w key value)
        (expect_values-numbered l w (λ k v found. numbered k v (ground (arith, found))))

-- the entry at its own key
pub put-same : {A : Type 0} (k : Text) (x : Option A) (m : Text → Option A) → put k x m k ≡ x
put-same k x m = ground arith

-- no key of the second half of the numbers has a value
abbrev pub Fresh : ℕ → Cache → Type 0
Fresh count a = (j : ℕ) → count ≤ j → j < count + count → a.keys (key_of j) ≡ none

abbrev pub hello : Text
hello = codes "hello"

abbrev pub world : Text
world = codes "world"

pub hello-key_of : (i : ℕ) → hello ≢ key_of i
unfolding key_of first
hello-key_of i e = let f : 104 ≡ 107 = ap first e in omega (arith, f)
