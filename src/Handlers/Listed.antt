-- ===== src/Handlers/Listed.antt =====
-- `handle_list` (rust/src/hcache.rs): the keys grouped by their owners, and what the nodes hold of
-- them.
pub mod Owners
use hcache.Base.{
  ℕ, ◌+◌, ◌≤◌, ◌≡◌, ◌≢◌, refl, sym, ◌∙◌, ite, if_pos, if_neg, inl, inr, Option, none, some, List,
  [], ◌∷◌, ◌++◌, arith, Text, text_discrete, ℕ_discrete, dec_lt, Option-cases,
}
use hcache.Dto.{InsrtRequest}
use hcache.External.Cuckoo.{Cuckoo}
use hcache.External.Rocks.{Rocks}
use hcache.Std.BTreeMap
use hcache.Std.HashSet
use hcache.Std.Walk.{Walk}
use hcache.Storage.{Storage, get_kv, filter_found}
use hcache.Peer.{listed}
use hcache.Cluster.{World}
use mathlib.Core.List.{Permᴰ}
use mathlib.Core.Logic.{∥∥₁_elim}
use mathlib.Core.Option.{get_or}
use native.Mathlib.Nat.{ℕ_set}

abbrev pub KeyGroups : Type 0
KeyGroups = List (ℕ × List Text)

-- How often an entry stands in a reply.
abbrev pub count_entry : Text → Text → List InsrtRequest → ℕ
count_entry k v [] = 0
count_entry k v (x ∷ xs) =
    ite (text_discrete x.key k) (ite (text_discrete x.value v) 1 0) 0 + count_entry k v xs

pub count_entry-append :
    (k v : Text) (xs ys : List InsrtRequest)
    → count_entry k v (xs ++ ys) ≡ count_entry k v xs + count_entry k v ys
count_entry-append k v [] ys = omega arith
count_entry-append k v (x ∷ xs) ys = omega (arith, count_entry-append k v xs ys)

-- The number, if the value is the one that is given, and else 0.
abbrev pub if_value : Text → Option Text → ℕ → ℕ
if_value v none n = 0
if_value v (some u) n = ite (text_discrete u v) n 0

if_value-add :
    (v : Text) (o : Option Text) (m n : ℕ) → if_value v o (m + n) ≡ if_value v o m + if_value v o n
if_value-add v none m n = refl
if_value-add v (some u) m n = ground arith

pub if_value-zero : (v : Text) (o : Option Text) → if_value v o 0 ≡ 0
if_value-zero v none = refl
if_value-zero v (some u) = ground arith

-- How often a key stands in the groups of all nodes.
abbrev pub total : Text → KeyGroups → ℕ
total k [] = 0
total k ((s, ks) ∷ m) = HashSet.occurs k ks + total k m

-- A key stands in no group but that of the node that is given.
abbrev pub OnlyAt : Text → ℕ → KeyGroups → Type 0
OnlyAt k own [] = Unit
OnlyAt k own ((s, ks) ∷ m) = (s ≢ own → HashSet.occurs k ks ≡ 0) × OnlyAt k own m

total-Permᴰ : (k : Text) {xs ys : KeyGroups} → Permᴰ xs ys → total k xs ≡ total k ys
total-Permᴰ k Permᴰ.nil = refl
total-Permᴰ k (Permᴰ.cons e p) = rw (e, total-Permᴰ k p) refl
total-Permᴰ k (Permᴰ.swap e f) = rw (e, f) (omega arith)
total-Permᴰ k (Permᴰ.trans p q) = total-Permᴰ k p ∙ total-Permᴰ k q

total-Above :
    (k : Text) (own b : ℕ) (m : KeyGroups)
    → own ≤ b
    → BTreeMap.Above b m
    → OnlyAt k own m
    → total k m ≡ 0
total-Above k own b [] le a only = refl
total-Above k own b ((s, ks) ∷ m) le a only =
    omega (arith, only.0 (λ e. omega (arith, e, le, a.0)), total-Above k own b m le a.1 only.1)

pub total-IsAscending :
    (k : Text) (own : ℕ) (m : KeyGroups)
    → BTreeMap.IsAscending m
    → OnlyAt k own m
    → total k m ≡ HashSet.occurs k (get_or (BTreeMap.get own m) [])
unfolding BTreeMap.get HashSet.occurs
total-IsAscending k own [] a only = refl
total-IsAscending k own ((s, ks) ∷ m) a only = elim (ℕ_discrete s own) [
  | yes p ↦ ground (arith, total-Above k own s m (omega (arith, p)) a.0 only.1)
  | no p ↦ ground (arith, only.0 p, total-IsAscending k own m a.1 only.1)
]

pub OnlyAt-remove :
    (k : Text) (own j : ℕ) (m : KeyGroups) → OnlyAt k own m → OnlyAt k own (BTreeMap.remove j m)
unfolding BTreeMap.remove
OnlyAt-remove k own j [] only = tt
OnlyAt-remove k own j ((s, ks) ∷ m) only = elim (ℕ_discrete s j) [
  | yes p ↦ rw (if_pos _ p) (OnlyAt-remove k own j m only.1)
  | no p ↦ rw (if_neg _ p) (only.0, OnlyAt-remove k own j m only.1)
]

pub OnlyAt-get :
    (k : Text) (own j : ℕ) (m : KeyGroups)
    → OnlyAt k own m
    → j ≢ own
    → HashSet.occurs k (get_or (BTreeMap.get j m) []) ≡ 0
unfolding BTreeMap.get HashSet.occurs
OnlyAt-get k own j [] only ne = refl
OnlyAt-get k own j ((s, ks) ∷ m) only ne = elim (ℕ_discrete s j) [
  | yes p ↦ ground (arith, only.0 (λ e. ne (sym p ∙ e)))
  | no p ↦ ground (arith, OnlyAt-get k own j m only.1 ne)
]

pub OnlyAt-upsert :
    (k key : Text) (own s : ℕ) (m : KeyGroups)
    → (k ≡ key → s ≡ own)
    → OnlyAt k own m
    → OnlyAt k own (BTreeMap.upsert s [] (HashSet.insert key) m)
unfolding BTreeMap.upsert HashSet.occurs
OnlyAt-upsert k key own s [] at only =
    (λ ne. ground (arith, HashSet.occurs-insert key k [], at), tt)
OnlyAt-upsert k key own s ((t, ks) ∷ m) at only = elim (dec_lt s t) [
  | yes p ↦ rw (if_pos _ p) (λ ne. ground (arith, HashSet.occurs-insert key k [], at), only)
  | no p ↦ rw (if_neg _ p) (elim (ℕ_discrete t s) [
    | yes q ↦
        rw (if_pos _ q)
          (λ ne. ground (arith, HashSet.occurs-insert key k ks, at, only.0 ne), only.1)
    | no q ↦ rw (if_neg _ q) (only.0, OnlyAt-upsert k key own s m at only.1)
  ])
]

module _ ⦃c : Cuckoo⦄ ⦃r : Rocks⦄ where
  pub count_entry-filter_found :
      (st : Storage) (keys : List Text) (k v : Text)
      → count_entry k v (filter_found st keys) ≡ if_value v (get_kv st k) (HashSet.occurs k keys)
  unfolding filter_found get_kv HashSet.occurs
  count_entry-filter_found st [] k v = ground arith
  count_entry-filter_found st (x ∷ keys) k v = elim (Option-cases (c.get st.kv x)) [
    | inl e ↦ ground (arith, count_entry-filter_found st keys k v)
    | inr (u, e) ↦ ground (arith, count_entry-filter_found st keys k v)
  ]

  pub count_entry-listed :
      (st : Storage) (keys : List Text) (k v : Text)
      → count_entry k v (listed keys st) ≡ if_value v (get_kv st k) (HashSet.occurs k keys)
  unfolding listed HashSet.occurs
  count_entry-listed st [] k v = ground arith
  count_entry-listed st (x ∷ keys) k v = elim (Option-cases (get_kv st x)) [
    | inl e ↦ ground (arith, count_entry-listed st keys k v)
    | inr (u, e) ↦ ground (arith, count_entry-listed st keys k v)
  ]

  -- what the nodes hold of an entry whose key is in their groups
  abbrev pub held : World → Text → Text → KeyGroups → ℕ
  held w k v [] = 0
  held w k v ((s, ks) ∷ m) = if_value v (get_kv (w s) k) (HashSet.occurs k ks) + held w k v m

  held-Permᴰ :
      (w : World) (k v : Text) {xs ys : KeyGroups} → Permᴰ xs ys → held w k v xs ≡ held w k v ys
  held-Permᴰ w k v Permᴰ.nil = refl
  held-Permᴰ w k v (Permᴰ.cons e p) = rw (e, held-Permᴰ w k v p) refl
  held-Permᴰ w k v (Permᴰ.swap e f) = rw (e, f) (omega arith)
  held-Permᴰ w k v (Permᴰ.trans p q) = held-Permᴰ w k v p ∙ held-Permᴰ w k v q

  pub held-OnlyAt :
      (w : World) (k v : Text) (own : ℕ) (m : KeyGroups)
      → OnlyAt k own m
      → held w k v m ≡ if_value v (get_kv (w own) k) (total k m)
  held-OnlyAt w k v own [] only = ground arith
  held-OnlyAt w k v own ((s, ks) ∷ m) only = elim (ℕ_discrete s own) [
    | yes p ↦ ground (
      arith,
      held-OnlyAt w k v own m only.1,
      if_value-add v (get_kv (w own) k) (HashSet.occurs k ks) (total k m),
    )
    | no p ↦ ground (arith, held-OnlyAt w k v own m only.1, only.0 p)
  ]

  module _ ⦃walk : Walk⦄ where
    pub held-visit :
        (w : World) (k v : Text) (m : KeyGroups) → held w k v (walk.visit m) ≡ held w k v m
    held-visit w k v m = ∥∥₁_elim (walk.visit-perm m) (ℕ_set _ _) (held-Permᴰ w k v)
