-- ===== src/Std/BTreeMap.antt =====
-- `std::collections::BTreeMap<u32, V>` as the list of its entries in ascending order of the keys.
use hcache.Base.{
  ℕ, ◌≤◌, ◌<◌, ◌≡◌, refl, ite, ◌&&◌, inl, inr, if_pos, if_neg, Bool-cases, Option, none, some, List,
  [], ◌∷◌, arith, leb, if◌then◌else◌, ℕ_discrete, dec_lt,
}
use mathlib.Core.Option.{get_or}
use mathlib.Core.Option

module _ {V : Type 0} where
  unfoldable pub get : ℕ → List (ℕ × V) → Option V
  get k [] = none
  get k ((j, v) ∷ m) = ite (ℕ_discrete j k) (some v) (get k m)

  -- `entry(k).and_modify(f)`
  unfoldable pub and_modify : ℕ → (V → V) → List (ℕ × V) → List (ℕ × V)
  and_modify k f [] = []
  and_modify k f ((j, v) ∷ m) = ite (ℕ_discrete j k) ((j, f v) ∷ m) ((j, v) ∷ and_modify k f m)

  -- `entry(k).or_insert_with(d)`, and a write of `f` through the reference that it returns
  unfoldable pub upsert : ℕ → V → (V → V) → List (ℕ × V) → List (ℕ × V)
  upsert k d f [] = (k, f d) ∷ []
  upsert k d f ((j, v) ∷ m) =
      ite (dec_lt k j) ((k, f d) ∷ (j, v) ∷ m)
        (ite (ℕ_discrete j k) ((j, f v) ∷ m) ((j, v) ∷ upsert k d f m))

  -- `range(lo..=hi)`, for `lo` not above `hi`
  unfoldable pub range : ℕ → ℕ → List (ℕ × V) → List (ℕ × V)
  range lo hi [] = []
  range lo hi ((j, v) ∷ m) =
      let rest = range lo hi m in if leb lo j && leb j hi then (j, v) ∷ rest else rest

  unfoldable pub remove : ℕ → List (ℕ × V) → List (ℕ × V)
  remove k [] = []
  remove k ((j, v) ∷ m) = let rest = remove k m in ite (ℕ_discrete j k) rest ((j, v) ∷ rest)

  -- every key is above `b`
  abbrev pub Above : ℕ → List (ℕ × V) → Type 0
  Above b [] = Unit
  Above b ((j, v) ∷ m) = (b < j) × Above b m

  abbrev pub IsAscending : List (ℕ × V) → Type 0
  IsAscending [] = Unit
  IsAscending ((j, v) ∷ m) = Above j m × IsAscending m

  pub get-Above : (k b : ℕ) (m : List (ℕ × V)) → k ≤ b → Above b m → get k m ≡ none
  unfolding get
  get-Above k b [] h a = refl
  get-Above k b ((j, v) ∷ m) h a = ground (arith, get-Above k b m)

  Above-le : (b c : ℕ) (m : List (ℕ × V)) → b ≤ c → Above c m → Above b m
  Above-le b c [] h a = tt
  Above-le b c ((j, v) ∷ m) h a = (omega arith, Above-le b c m h a.1)

  -- Reads after each operation.
  pub get-and_modify :
      (k j : ℕ) (f : V → V) (m : List (ℕ × V))
      → get j (and_modify k f m) ≡ ite (ℕ_discrete k j) (Option.map f (get j m)) (get j m)
  unfolding get and_modify
  get-and_modify k j f [] = ground arith
  get-and_modify k j f ((i, v) ∷ m) = ground (arith, get-and_modify k j f m)

  pub get-upsert :
      (k j : ℕ) (d : V) (f : V → V) (m : List (ℕ × V))
      → IsAscending m
      → get j (upsert k d f m) ≡ ite (ℕ_discrete k j) (some (f (get_or (get k m) d))) (get j m)
  unfolding get upsert
  get-upsert k j d f [] a = ground arith
  get-upsert k j d f ((i, v) ∷ m) a = ground (arith, get-upsert k j d f m, get-Above k i m)

  pub get-range :
      (lo hi j : ℕ) (m : List (ℕ × V))
      → get j (range lo hi m) ≡ (if leb lo j && leb j hi then get j m else none)
  unfolding get range
  get-range lo hi j [] = ground arith
  get-range lo hi j ((i, v) ∷ m) = ground (arith, get-range lo hi j m)

  pub get-remove :
      (k j : ℕ) (m : List (ℕ × V)) → get j (remove k m) ≡ ite (ℕ_discrete k j) none (get j m)
  unfolding get remove
  get-remove k j [] = ground arith
  get-remove k j ((i, v) ∷ m) = ground (arith, get-remove k j m)

  -- Each operation keeps the keys ascending.
  Above-and_modify :
      (k b : ℕ) (f : V → V) (m : List (ℕ × V)) → Above b m → Above b (and_modify k f m)
  unfolding and_modify
  Above-and_modify k b f [] a = tt
  Above-and_modify k b f ((j, v) ∷ m) a = elim (ℕ_discrete j k) [
    | yes p ↦ rw (if_pos _ p) (a.0, a.1)
    | no p ↦ rw (if_neg _ p) (a.0, Above-and_modify k b f m a.1)
  ]

  pub and_modify-IsAscending :
      (k : ℕ) (f : V → V) (m : List (ℕ × V)) → IsAscending m → IsAscending (and_modify k f m)
  unfolding and_modify
  and_modify-IsAscending k f [] a = tt
  and_modify-IsAscending k f ((j, v) ∷ m) a = elim (ℕ_discrete j k) [
    | yes p ↦ rw (if_pos _ p) (a.0, a.1)
    | no p ↦ rw (if_neg _ p) (Above-and_modify k j f m a.0, and_modify-IsAscending k f m a.1)
  ]

  Above-upsert :
      (k b : ℕ) (d : V) (f : V → V) (m : List (ℕ × V))
      → b < k
      → Above b m
      → Above b (upsert k d f m)
  unfolding upsert
  Above-upsert k b d f [] h a = (h, tt)
  Above-upsert k b d f ((j, v) ∷ m) h a = elim (dec_lt k j) [
    | yes p ↦ rw (if_pos _ p) (h, a)
    | no p ↦ rw (if_neg _ p) (elim (ℕ_discrete j k) [
      | yes q ↦ rw (if_pos _ q) (a.0, a.1)
      | no q ↦ rw (if_neg _ q) (a.0, Above-upsert k b d f m h a.1)
    ])
  ]

  pub upsert-IsAscending :
      (k : ℕ) (d : V) (f : V → V) (m : List (ℕ × V)) → IsAscending m → IsAscending (upsert k d f m)
  unfolding upsert
  upsert-IsAscending k d f [] a = (tt, tt)
  upsert-IsAscending k d f ((j, v) ∷ m) a = elim (dec_lt k j) [
    | yes p ↦ rw (if_pos _ p) ((p, Above-le k j m (omega arith) a.0), a)
    | no p ↦ rw (if_neg _ p) (elim (ℕ_discrete j k) [
      | yes q ↦ rw (if_pos _ q) (a.0, a.1)
      | no q ↦
          rw (if_neg _ q) (Above-upsert k j d f m (omega arith) a.0, upsert-IsAscending k d f m a.1)
    ])
  ]

  Above-range : (lo hi b : ℕ) (m : List (ℕ × V)) → Above b m → Above b (range lo hi m)
  unfolding range
  Above-range lo hi b [] a = tt
  Above-range lo hi b ((j, v) ∷ m) a = elim (Bool-cases (leb lo j && leb j hi)) [
    | inl e ↦ rw e (a.0, Above-range lo hi b m a.1)
    | inr e ↦ rw e (Above-range lo hi b m a.1)
  ]

  pub range-IsAscending :
      (lo hi : ℕ) (m : List (ℕ × V)) → IsAscending m → IsAscending (range lo hi m)
  unfolding range
  range-IsAscending lo hi [] a = tt
  range-IsAscending lo hi ((j, v) ∷ m) a = elim (Bool-cases (leb lo j && leb j hi)) [
    | inl e ↦ rw e (Above-range lo hi j m a.0, range-IsAscending lo hi m a.1)
    | inr e ↦ rw e (range-IsAscending lo hi m a.1)
  ]

  Above-remove : (k b : ℕ) (m : List (ℕ × V)) → Above b m → Above b (remove k m)
  unfolding remove
  Above-remove k b [] a = tt
  Above-remove k b ((j, v) ∷ m) a = elim (ℕ_discrete j k) [
    | yes p ↦ rw (if_pos _ p) (Above-remove k b m a.1)
    | no p ↦ rw (if_neg _ p) (a.0, Above-remove k b m a.1)
  ]

  pub remove-IsAscending : (k : ℕ) (m : List (ℕ × V)) → IsAscending m → IsAscending (remove k m)
  unfolding remove
  remove-IsAscending k [] a = tt
  remove-IsAscending k ((j, v) ∷ m) a = elim (ℕ_discrete j k) [
    | yes p ↦ rw (if_pos _ p) (remove-IsAscending k m a.1)
    | no p ↦ rw (if_neg _ p) (Above-remove k j m a.0, remove-IsAscending k m a.1)
  ]
