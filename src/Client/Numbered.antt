-- ===== src/Client/Numbered.antt =====
-- client/src/client.rs, `main`: the entries that it numbers, and how often they stand in a list.
use hcache.Base.{
  ℕ, zero, suc, ◌+◌, ◌≤◌, ◌<◌, ◌≡◌, refl, sym, ap, ◌∙◌, ite, Option, none, some, [], ◌∷◌, arith,
  Text, text_discrete, ℕ_discrete, length,
}
use Prim.Native.Nat.{min}
use hcache.Std.Decimal.{decimal-inj}
use hcache.Std.HashSet
use hcache.Storage.Views.{last_value}
use hcache.Handlers.Listed.{count_entry, if_value, if_value-zero}
use hcache.Client.Check.{key_of, entries_from, keys_from, repeated}

pub key_of-inj : (i j : ℕ) → key_of i ≡ key_of j → i ≡ j
unfolding key_of
key_of-inj i j e = decimal-inj i j cc

-- Entries that are numbered, each with a key of its own.
module _ (name content : ℕ → Text) (name-inj : (i j : ℕ) → name i ≡ name j → i ≡ j) where
  -- a key that stands among the numbered ones
  pub occurs-keys_from :
      (k : Text) (i left : ℕ)
      → 0 < HashSet.occurs k (keys_from name i left)
      → (j : ℕ) × (i ≤ j) × (j < i + left) × (name j ≡ k)
  unfolding keys_from HashSet.occurs
  occurs-keys_from k i zero found = absurd (omega (arith, found))
  occurs-keys_from k i (suc left) found = elim (text_discrete (name i) k) [
    | yes p ↦ (i, omega arith, omega arith, p)
    | no p ↦
        let (j, lo, hi, e) = occurs-keys_from k (suc i) left (ground (arith, found)) in
        (j, omega (arith, lo), omega (arith, hi), e)
  ]

  occurs-before : (i j left : ℕ) → i < j → HashSet.occurs (name i) (keys_from name j left) ≡ 0
  occurs-before i j left lt =
      elim (ℕ_discrete (HashSet.occurs (name i) (keys_from name j left)) 0) [
        | yes p ↦ p
        | no p ↦
            let (m, lo, hi, e) = occurs-keys_from (name i) j left (omega (arith, p)) in
            absurd (omega (arith, lt, lo, name-inj m i e))
      ]

  pub last_value-absent :
      (k : Text) (i left : ℕ) (old : Option Text)
      → HashSet.occurs k (keys_from name i left) ≡ 0
      → last_value k (entries_from name content i left) old ≡ old
  unfolding keys_from entries_from HashSet.occurs
  last_value-absent k i zero old e = refl
  last_value-absent k i (suc left) old e = elim (text_discrete (name i) k) [
    | yes p ↦ absurd (ground (arith, e))
    | no p ↦ ground (arith, last_value-absent k (suc i) left old (ground (arith, e)))
  ]

  -- After a batch of numbered entries, a list of their keys has each of them once.
  pub if_value-entries_from :
      (k v : Text) (i left : ℕ) (old : Option Text)
      → if_value v
          (last_value k (entries_from name content i left) old)
          (min 1 (HashSet.occurs k (keys_from name i left)))
        ≡ count_entry k v (entries_from name content i left)
  unfolding keys_from entries_from HashSet.occurs
  if_value-entries_from k v i zero old = ground arith
  if_value-entries_from k v i (suc left) old = elim (text_discrete (name i) k) [
    | yes p ↦
        let absent : HashSet.occurs k (keys_from name (suc i) left) ≡ 0 =
          ap (λ x. HashSet.occurs x (keys_from name (suc i) left)) (sym p)
          ∙ occurs-before i (suc i) left (omega arith) in
        ground (
          arith,
          absent,
          if_value-entries_from k v (suc i) left (some (content i)),
          last_value-absent k (suc i) left (some (content i)) absent,
        )
    | no p ↦ ground (arith, if_value-entries_from k v (suc i) left old)
  ]

  pub length-entries_from : (i left : ℕ) → length (entries_from name content i left) ≡ left
  unfolding entries_from
  length-entries_from i zero = refl
  length-entries_from i (suc left) = omega (arith, length-entries_from (suc i) left)

  -- an entry that stands among the numbered ones
  pub count_entry-entries_from :
      (k v : Text) (i left : ℕ)
      → 0 < count_entry k v (entries_from name content i left)
      → (j : ℕ) × (name j ≡ k) × (content j ≡ v)
  unfolding entries_from
  count_entry-entries_from k v i zero found = absurd (omega (arith, found))
  count_entry-entries_from k v i (suc left) found = elim (text_discrete (name i) k) [
    | yes p ↦ elim (text_discrete (content i) v) [
      | yes q ↦ (i, p, q)
      | no q ↦ count_entry-entries_from k v (suc i) left (ground (arith, found))
    ]
    | no p ↦ count_entry-entries_from k v (suc i) left (ground (arith, found))
  ]

  occurs-split :
      (k : Text) (i m left : ℕ)
      → HashSet.occurs k (keys_from name i (m + left))
        ≡ HashSet.occurs k (keys_from name i m) + HashSet.occurs k (keys_from name (i + m) left)
  unfolding keys_from HashSet.occurs
  occurs-split k i zero left =
      let e : i + 0 ≡ i = omega arith in
      let f : 0 + left ≡ left = omega arith in
      omega (
        arith,
        ap (λ j. HashSet.occurs k (keys_from name j left)) e,
        ap (λ m. HashSet.occurs k (keys_from name i m)) f,
      )
  occurs-split k i (suc m) left =
      let e : suc i + m ≡ i + suc m = omega arith in
      let f : suc m + left ≡ suc (m + left) = omega arith in
      omega (
        arith,
        occurs-split k (suc i) m left,
        ap (λ j. HashSet.occurs k (keys_from name j left)) e,
        ap (λ n. HashSet.occurs k (keys_from name i n)) f,
      )

  module _ (old : Text → Option Text) (count : ℕ)
      (fresh : (j : ℕ) → count ≤ j → j < count + count → old (name j) ≡ none) where
    -- a key of the second half is none of the first, and has no value
    later-key :
        (k : Text)
        → 0 < HashSet.occurs k (keys_from name count count)
        → (HashSet.occurs k (keys_from name 0 count) ≡ 0) × (old k ≡ none)
    later-key k found =
        let (j, lo, hi, e) = occurs-keys_from k count count found in
        (
          elim (ℕ_discrete (HashSet.occurs k (keys_from name 0 count)) 0) [
            | yes p ↦ p
            | no p ↦
                let (m, lo', hi', e') = occurs-keys_from k 0 count (omega (arith, p)) in
                absurd (omega (arith, lo, hi', name-inj m j (e' ∙ sym e)))
          ],
          ap old (sym e) ∙ fresh j lo hi,
        )

    pub partial-count :
        (k v : Text)
        → if_value v
            (last_value k (entries_from name content 0 count) (old k))
            (min 1 (HashSet.occurs k (keys_from name 0 (count + count))))
          ≡ count_entry k v (entries_from name content 0 count)
    partial-count k v = elim (ℕ_discrete (HashSet.occurs k (keys_from name count count)) 0) [
      | yes p ↦
          ground (arith, occurs-split k 0 count count, if_value-entries_from k v 0 count (old k))
      | no p ↦
          let (absent, nothing) = later-key k (omega (arith, p)) in
          ground (
            arith,
            nothing,
            last_value-absent k 0 count (old k) absent,
            if_value-entries_from k v 0 count (old k),
          )
    ]

    pub miss-count :
        (k v : Text)
        → if_value v
            (last_value k (entries_from name content 0 count) (old k))
            (min 1 (HashSet.occurs k (keys_from name count count)))
          ≡ 0
    miss-count k v = elim (ℕ_discrete (HashSet.occurs k (keys_from name count count)) 0) [
      | yes p ↦
          ap (λ m. if_value v (last_value k (entries_from name content 0 count) (old k)) (min 1 m))
            p
          ∙ if_value-zero v (last_value k (entries_from name content 0 count) (old k))
      | no p ↦
          let (absent, nothing) = later-key k (omega (arith, p)) in
          ground (arith, nothing, last_value-absent k 0 count (old k) absent)
    ]

  occurs-repeated :
      (n : ℕ) (key k : Text) → HashSet.occurs k (repeated n key) ≡ ite (text_discrete key k) n 0
  unfolding repeated HashSet.occurs
  occurs-repeated zero key k = ground arith
  occurs-repeated (suc n) key k = ground (arith, occurs-repeated n key k)

  pub repeated-count :
      (k v : Text) (n : ℕ) (old : Option Text)
      → 0 < n
      → if_value v
          (last_value k (entries_from name content 0 n) old)
          (min 1 (HashSet.occurs k (repeated n (name 0))))
        ≡ count_entry k v (record { key = name 0; value = content 0 } ∷ [])
  unfolding entries_from
  repeated-count k v zero old some_key = absurd (omega (arith, some_key))
  repeated-count k v (suc n) old some_key = elim (text_discrete (name 0) k) [
    | yes p ↦
        let absent : HashSet.occurs k (keys_from name 1 n) ≡ 0 =
          ap (λ x. HashSet.occurs x (keys_from name 1 n)) (sym p)
          ∙ occurs-before 0 1 n (omega arith) in
        ground (
          arith,
          occurs-repeated (suc n) (name 0) k,
          last_value-absent k 1 n (some (content 0)) absent,
        )
    | no p ↦
        let absent : HashSet.occurs k (repeated (suc n) (name 0)) ≡ 0 =
          ground (arith, occurs-repeated (suc n) (name 0) k) in
        ap (λ m. if_value v (last_value k (entries_from name content 0 (suc n)) old) (min 1 m))
          absent
        ∙ if_value-zero v (last_value k (entries_from name content 0 (suc n)) old)
        ∙ ground arith
  ]
