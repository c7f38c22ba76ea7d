-- ===== src/Handlers/Listed/Owners.antt =====
-- `handle_list` (rust/src/hcache.rs): the groups that it makes of its keys.
use hcache.Base.{
  ℕ, ◌≤◌, ◌<◌, ◌^◌, ◌≡◌, ◌≢◌, sym, ap, ◌∙◌, none, List, [], ◌∷◌, arith, Text, ℕ_discrete,
}
use Prim.Native.Nat.{max, min}
use hcache.External.Cuckoo.{Cuckoo}
use hcache.External.Rocks.{Rocks}
use hcache.External.Hasher.{Hasher}
use hcache.External.Serde.{Serde}
use hcache.Std.BTreeMap
use hcache.Std.HashSet
use hcache.Std.Walk.{Walk}
use hcache.Shard.{shard_of}
use hcache.Shard.Bounds.{shard_of-lt}
use hcache.Cluster.{Net}
use hcache.Handlers.{shard_keys}
use hcache.Handlers.Listed.{KeyGroups, OnlyAt, OnlyAt-upsert}
use mathlib.Core.Option.{get_or}

module _ ⦃c : Cuckoo⦄ ⦃r : Rocks⦄ ⦃h : Hasher⦄ ⦃s : Serde⦄ ⦃walk : Walk⦄ (net : Net)
    (node n : ℕ) where
  pub shard_keys-IsAscending :
      (keys : List Text) (m : KeyGroups)
      → BTreeMap.IsAscending m
      → BTreeMap.IsAscending (shard_keys net node n keys m)
  unfolding shard_keys
  shard_keys-IsAscending [] m a = a
  shard_keys-IsAscending (key ∷ keys) m a =
      shard_keys-IsAscending keys _
        (BTreeMap.upsert-IsAscending (shard_of key n) [] (HashSet.insert key) m a)

  pub shard_keys-OnlyAt :
      (keys : List Text) (m : KeyGroups) (k : Text)
      → OnlyAt k (shard_of k n) m
      → OnlyAt k (shard_of k n) (shard_keys net node n keys m)
  unfolding shard_keys
  shard_keys-OnlyAt [] m k only = only
  shard_keys-OnlyAt (key ∷ keys) m k only = shard_keys-OnlyAt keys _ k (
      OnlyAt-upsert k key (shard_of k n) (shard_of key n) m (λ e. ap (λ x. shard_of x n) (sym e))
        only)

  -- The owner of a key is asked for it once if the request has it, however often.
  pub shard_keys-owner :
      (keys : List Text) (m : KeyGroups) (k : Text)
      → BTreeMap.IsAscending m
      → HashSet.occurs k (get_or (BTreeMap.get (shard_of k n) (shard_keys net node n keys m)) [])
        ≡ max
            (HashSet.occurs k (get_or (BTreeMap.get (shard_of k n) m) []))
            (min 1 (HashSet.occurs k keys))
  unfolding shard_keys HashSet.occurs
  shard_keys-owner [] m k a = omega arith
  shard_keys-owner (key ∷ keys) m k a =
      let own = shard_of key n in
      let m' = BTreeMap.upsert own [] (HashSet.insert key) m in
      shard_keys-owner keys m' k (BTreeMap.upsert-IsAscending own [] (HashSet.insert key) m a)
      ∙ ground (
        arith,
        BTreeMap.get-upsert own (shard_of k n) [] (HashSet.insert key) m a,
        HashSet.occurs-insert key k (get_or (BTreeMap.get (shard_of k n) m) []),
      )

  pub shard_keys-lt :
      (keys : List Text) (m : KeyGroups) (j : ℕ)
      → 0 < n
      → n ≤ 2 ^ 32
      → BTreeMap.IsAscending m
      → (BTreeMap.get j m ≢ none → j < n)
      → BTreeMap.get j (shard_keys net node n keys m) ≢ none
      → j < n
  unfolding shard_keys
  shard_keys-lt [] m j pos small a lt there = lt there
  shard_keys-lt (key ∷ keys) m j pos small a lt there =
      let own = shard_of key n in
      shard_keys-lt keys _ j pos small (BTreeMap.upsert-IsAscending own [] (HashSet.insert key) m a)
        (λ in_m'. elim (ℕ_discrete own j) [
          | yes p ↦ omega (arith, p, shard_of-lt key n pos small)
          | no p ↦ lt (λ e.
              in_m' (ground (arith, BTreeMap.get-upsert own j [] (HashSet.insert key) m a, e)))
        ])
        there
