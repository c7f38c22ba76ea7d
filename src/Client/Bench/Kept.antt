-- ===== src/Client/Bench/Kept.antt =====
-- What the benchmarks of client/src/client.rs keep of a cache.
use hcache.Base.{
  ℕ, ◌<◌, ◌≡◌, ◌≢◌, if_neg, Option, none, some, arith, Text, text_discrete, ℕ_discrete,
  if◌then◌else◌, Bool,
}
use hcache.Std.HashSet
use hcache.Storage.Views.{last_value, unless}
use hcache.Client.Spec.{Cache, put}
use hcache.Client.Check.{entries_from, keys_from}
use hcache.Client.Numbered.{last_value-absent, occurs-keys_from}
use hcache.Client.Bench.{long_key, long_zset, filler}
use hcache.Client.Bench.Names.{long_key-inj}

-- The keys that are none of the benchmarks' have kept what they had.
abbrev pub Untouched : Cache → Cache → Type 0
Untouched a₀ a =
    (k : Text)
    → ((i : ℕ) → long_key i ≢ k)
    → ((i : ℕ) → long_zset i ≢ k)
    → (a.keys k ≡ a₀.keys k) × (a.sets k ≡ a₀.sets k)

abbrev pub Added : ℕ → Cache → Type 0
Added i a = a.keys (long_key i) ≡ some (filler 0)

abbrev pub AllAdded : ℕ → Cache → Type 0
AllAdded n a = (i : ℕ) → i < n → Added i a

pub put-apart :
    {A : Type 0} (k : Text) (x : Option A) (m : Text → Option A) (j : Text)
    → k ≢ j
    → put k x m j ≡ m j
put-apart k x m j ne = if_neg (text_discrete k j) ne x (m j)

pub put-keeps :
    {A : Type 0} (k : Text) (x : Option A) (m : Text → Option A) (j : Text)
    → m j ≡ x
    → put k x m j ≡ x
put-keeps k x m j e = ground (arith, e)

-- a key that is none of those of a chunk
apart-absent :
    (k : Text) (s left : ℕ)
    → ((i : ℕ) → long_key i ≢ k)
    → HashSet.occurs k (keys_from long_key s left) ≡ 0
apart-absent k s left apart = elim (ℕ_discrete (HashSet.occurs k (keys_from long_key s left)) 0) [
  | yes p ↦ p
  | no p ↦
      let (j, lo, hi, e) =
        occurs-keys_from long_key filler long_key-inj k s left (omega (arith, p)) in
      absurd (apart j e)
]

pub apart-last_value :
    (k : Text) (s left : ℕ) (old : Option Text)
    → ((i : ℕ) → long_key i ≢ k)
    → last_value k (entries_from long_key filler s left) old ≡ old
apart-last_value k s left old apart =
    last_value-absent long_key filler long_key-inj k s left old (apart-absent k s left apart)

pub kept_set :
    {A : Type 0} (mine : Bool) (x : Option Text) (old : Option A)
    → x ≡ none
    → (if mine then old else unless x old) ≡ old
kept_set mine x old e = ground (arith, e)
