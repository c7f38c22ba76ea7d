-- ===== src/ZSet/Race.antt =====
-- `zadd_memory` and `zrmv` (rust/src/storage.rs) on one set at once: each works on the two indexes one
-- after the other, and holds the lock of `score_to_values` for a part of it only.
pub mod Apart
pub mod Same
use hcache.Base.{
  ℕ, ◌≡◌, ◌≢◌, refl, inl, inr, Option-cases, ite, if_pos, if_neg, Option, none, some, [], arith,
  Text, ℕ_discrete,
}
use hcache.External.Cuckoo.{Cuckoo}
use hcache.Std.BTreeMap
use hcache.Std.HashSet
use hcache.ZSet.{ZSet, add, add_new, move_score, rmv}

-- Where a request for a value is: it reads the old score; it found none, and writes `value_to_score`
-- and then `score_to_values`; it found another score, and moves the value under the lock and then
-- writes `value_to_score`; it removes the value, and then clears the bucket of the score it had.
pub data Pc : Type 0 where
  idle : Pc
  adding : ℕ → Pc
  naming : ℕ → Pc
  indexing : ℕ → Pc
  moving : ℕ → ℕ → Pc
  renaming : ℕ → Pc
  removing : Pc
  clearing : ℕ → Pc

module _ ⦃c : Cuckoo⦄ where
  -- what the read of the old score leads to
  read_score : ℕ → Option ℕ → Pc
  read_score new none = naming new
  read_score new (some old) = ite (ℕ_discrete old new) idle (moving old new)

  cleared : Option ℕ → Pc
  cleared none = idle
  cleared (some score) = clearing score

  -- the next step of a request for a value
  unfoldable pub move : Text → Pc → ZSet → Pc × ZSet
  unfolding read_score cleared
  move v idle z = (idle, z)
  move v (adding new) z = (read_score new (c.get z.value_to_score v), z)
  move v (naming new) z =
      (indexing new, record z { value_to_score = c.insert z.value_to_score v new })
  move v (indexing new) z = (
    idle,
    record z { score_to_values = BTreeMap.upsert new [] (HashSet.insert v) z.score_to_values },
  )
  move v (moving old new) z = (
    renaming new,
    record z {
      score_to_values =
          BTreeMap.upsert new [] (HashSet.insert v)
            (BTreeMap.and_modify old (HashSet.remove v) z.score_to_values);
    },
  )
  move v (renaming new) z = (idle, record z { value_to_score = c.insert z.value_to_score v new })
  move v removing z =
      let (score, scores) = c.remove_with_guard z.value_to_score v in
      (cleared score, record z { value_to_score = scores })
  move v (clearing score) z = (
    idle,
    record z { score_to_values = BTreeMap.and_modify score (HashSet.remove v) z.score_to_values },
  )

  abbrev pub move_on : Text → Pc × ZSet → Pc × ZSet
  move_on v (pc, z) = move v pc z

  -- A request that works on a set alone, step by step, comes after at most three steps of a zadd,
  -- and two of a zrmv, to the set that the whole operation gives.
  pub alone-eq :
      (z : ZSet) (v : Text)
      → ((new : ℕ) → move_on v (move_on v (move v (adding new) z)) ≡ (idle, add z v new))
        × (move_on v (move v removing z) ≡ (idle, (rmv z v).1))
  unfolding move add add_new move_score rmv read_score cleared
  alone-eq z v = (
    λ new. elim (Option-cases (c.get z.value_to_score v)) [
      | inl e ↦ rw (e, add) refl
      | inr (old, e) ↦ elim (ℕ_discrete old new) [
        | yes p ↦ rw (e, add, if_pos _ p, if_pos _ p) refl
        | no p ↦ rw (e, add, if_neg _ p, if_neg _ p) refl
      ]
    ],
    elim (Option-cases (c.get z.value_to_score v)) [
      | inl e ↦ ground (arith, c.remove_with_guard-eq z.value_to_score v)
      | inr (old, e) ↦ ground (arith, c.remove_with_guard-eq z.value_to_score v)
    ],
  )

  -- Some requests, each for a value, and the set that they share.
  pub record System (I : Type 0) : Type 0 where
    pub pcs : I → Pc
    pub set : ZSet

  module _ {I : Type 0} (value : I → Text) where
    -- A request comes, or one makes its next step.
    pub data Step : System I → System I → Type 0 where
      asked_add :
          (x y : System I) (i : I) (new : ℕ)
          → x.pcs i ≡ idle
          → y.pcs i ≡ adding new
          → ((j : I) → j ≢ i → y.pcs j ≡ x.pcs j)
          → y.set ≡ x.set
          → Step x y
      asked_remove :
          (x y : System I) (i : I)
          → x.pcs i ≡ idle
          → y.pcs i ≡ removing
          → ((j : I) → j ≢ i → y.pcs j ≡ x.pcs j)
          → y.set ≡ x.set
          → Step x y
      moved :
          (x y : System I) (i : I)
          → y.pcs i ≡ (move (value i) (x.pcs i) x.set).0
          → y.set ≡ (move (value i) (x.pcs i) x.set).1
          → ((j : I) → j ≢ i → y.pcs j ≡ x.pcs j)
          → Step x y

    pub data Reach (x : System I) : System I → Type 0 where
      here : Reach x x
      next : {y z : System I} → Reach x y → Step y z → Reach x z
