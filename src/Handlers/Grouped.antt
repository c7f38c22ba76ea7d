-- ===== src/Handlers/Grouped.antt =====
-- `handle_batch` (rust/src/hcache.rs): a batch grouped by the owners of its keys, and walked in any
-- order.
use hcache.Base.{
  ℕ, ◌≤◌, ◌<◌, ◌^◌, ◌≡◌, ◌≢◌, refl, ap, ◌∙◌, ite, Option, none, List, [], ◌∷◌, ◌++◌, arith, Text,
  ℕ_discrete,
}
use hcache.Dto.{InsrtRequest}
use hcache.External.Cuckoo.{Cuckoo}
use hcache.External.Rocks.{Rocks}
use hcache.External.Hasher.{Hasher}
use hcache.External.Serde.{Serde}
use hcache.Std.BTreeMap
use hcache.Std.Walk.{Walk}
use hcache.Shard.{shard_of}
use hcache.Shard.Bounds.{shard_of-lt}
use hcache.Storage.Views.{last_value}
use hcache.Cluster.{Net}
use hcache.Handlers.{shard_batch}
use hcache.Handlers.Times.{times, times-Permᴰ, times-visit}
use mathlib.Core.List.{Permᴰ}
use mathlib.Core.Logic.{∥∥₁_elim}
use mathlib.Core.Option.{get_or}
use native.Mathlib.Nat.{ℕ_set}

abbrev pub Groups : Type 0
Groups = List (ℕ × List InsrtRequest)

-- What the groups of a node make of the value of a key.
abbrev pub after_groups : ℕ → Text → Groups → Option Text → Option Text
after_groups j k [] old = old
after_groups j k ((s, kvs) ∷ m) old =
    after_groups j k m (ite (ℕ_discrete s j) (last_value k kvs old) old)

after_groups-swap :
    (j : ℕ) (k : Text) (x y : ℕ × List InsrtRequest) (m : Groups) (old : Option Text)
    → times j (x ∷ y ∷ m) ≤ 1
    → after_groups j k (x ∷ y ∷ m) old ≡ after_groups j k (y ∷ x ∷ m) old
after_groups-swap j k (s, us) (t, vs) m old once = ap (after_groups j k m) (ground (arith, once))

-- The order does not matter where no node stands twice.
after_groups-Permᴰ :
    (j : ℕ) (k : Text) {xs ys : Groups}
    → Permᴰ xs ys
    → times j xs ≤ 1
    → (old : Option Text) → after_groups j k xs old ≡ after_groups j k ys old
after_groups-Permᴰ j k Permᴰ.nil once old = refl
after_groups-Permᴰ j k (Permᴰ.cons e p) once old =
    rw e (after_groups-Permᴰ j k p (ground (arith, once)) _)
after_groups-Permᴰ j k (Permᴰ.swap {a' = x} {b' = y} {l = m} e f) once old =
    rw (e, f) (after_groups-swap j k y x m old (rw (e, f) at once))
after_groups-Permᴰ j k (Permᴰ.trans p q) once old =
    after_groups-Permᴰ j k p once old
    ∙ after_groups-Permᴰ j k q (omega (arith, times-Permᴰ j p, once)) old

pub after_groups-IsAscending :
    (j : ℕ) (k : Text) (m : Groups) (old : Option Text)
    → BTreeMap.IsAscending m
    → after_groups j k m old ≡ last_value k (get_or (BTreeMap.get j m) []) old
unfolding BTreeMap.get
after_groups-IsAscending j k [] old a = refl
after_groups-IsAscending j k ((s, kvs) ∷ m) old a = elim (ℕ_discrete s j) [
  | yes p ↦ ground (
    arith,
    after_groups-IsAscending j k m (last_value k kvs old) a.1,
    BTreeMap.get-Above j s m (omega arith) a.0,
  )
  | no p ↦ ground (arith, after_groups-IsAscending j k m old a.1)
]

last_value-append :
    (k : Text) (xs ys : List InsrtRequest) (old : Option Text)
    → last_value k (xs ++ ys) old ≡ last_value k ys (last_value k xs old)
last_value-append k [] ys old = refl
last_value-append k (x ∷ xs) ys old = last_value-append k xs ys _

module _ ⦃walk : Walk⦄ where
  pub after_groups-visit :
      (j : ℕ) (k : Text) (m : Groups) (old : Option Text)
      → times j m ≤ 1
      → after_groups j k (walk.visit m) old ≡ after_groups j k m old
  after_groups-visit j k m old once =
      ∥∥₁_elim (walk.visit-perm m) (hlevel ℕ_set)
        (λ p. after_groups-Permᴰ j k p (omega (arith, once, times-visit j m)) old)

-- The batch of a node, as `handle_batch` groups it.
module _ ⦃c : Cuckoo⦄ ⦃r : Rocks⦄ ⦃h : Hasher⦄ ⦃s : Serde⦄ ⦃walk : Walk⦄ (net : Net)
    (node n : ℕ) where
  pub shard_batch-IsAscending :
      (kvs : List InsrtRequest) (m : Groups)
      → BTreeMap.IsAscending m
      → BTreeMap.IsAscending (shard_batch net node n kvs m)
  unfolding shard_batch
  shard_batch-IsAscending [] m a = a
  shard_batch-IsAscending (kv ∷ kvs) m a =
      shard_batch-IsAscending kvs _
        (BTreeMap.upsert-IsAscending (shard_of kv.key n) [] (λ v. v ++ kv ∷ []) m a)

  -- The owner of a key gets all that the batch has for it, in the batch's order.
  pub shard_batch-owner :
      (kvs : List InsrtRequest) (m : Groups) (k : Text) (old : Option Text)
      → BTreeMap.IsAscending m
      → last_value k (get_or (BTreeMap.get (shard_of k n) (shard_batch net node n kvs m)) []) old
        ≡ last_value k kvs (last_value k (get_or (BTreeMap.get (shard_of k n) m) []) old)
  unfolding shard_batch
  shard_batch-owner [] m k old a = refl
  shard_batch-owner (kv ∷ kvs) m k old a =
      let m' = BTreeMap.upsert (shard_of kv.key n) [] (λ v. v ++ kv ∷ []) m in
      shard_batch-owner kvs m' k old
        (BTreeMap.upsert-IsAscending (shard_of kv.key n) [] (λ v. v ++ kv ∷ []) m a)
      ∙ ap (last_value k kvs) (
          ground (
            arith,
            BTreeMap.get-upsert (shard_of kv.key n) (shard_of k n) [] (λ v. v ++ kv ∷ []) m a,
            last_value-append k (get_or (BTreeMap.get (shard_of k n) m) []) (kv ∷ []) old,
          ))

  pub shard_batch-lt :
      (kvs : List InsrtRequest) (m : Groups) (j : ℕ)
      → 0 < n
      → n ≤ 2 ^ 32
      → BTreeMap.IsAscending m
      → (BTreeMap.get j m ≢ none → j < n)
      → BTreeMap.get j (shard_batch net node n kvs m) ≢ none
      → j < n
  unfolding shard_batch
  shard_batch-lt [] m j pos small a lt there = lt there
  shard_batch-lt (kv ∷ kvs) m j pos small a lt there =
      let own = shard_of kv.key n in
      shard_batch-lt kvs _ j pos small (BTreeMap.upsert-IsAscending own [] (λ v. v ++ kv ∷ []) m a)
        (λ in_m'. elim (ℕ_discrete own j) [
          | yes p ↦ omega (arith, p, shard_of-lt kv.key n pos small)
          | no p ↦
              lt (λ e.
                in_m' (ground (arith, BTreeMap.get-upsert own j [] (λ v. v ++ kv ∷ []) m a, e)))
        ])
        there
