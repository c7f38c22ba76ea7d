-- ===== src/Std/Split.antt =====
-- `splitn` by one byte, of slices and of `&str`.
use hcache.Base.{
  ℕ, zero, suc, ◌≡◌, ◌≢◌, refl, ite, Option, none, some, List, [], ◌∷◌, ◌++◌, arith, Text,
  ℕ_discrete,
}

-- What stands before the first `sep`, and what stands after it.
unfoldable pub split_once : ℕ → Text → Text × Option Text
split_once sep [] = ([], none)
split_once sep (b ∷ t) =
    let (before, after) = split_once sep t in
    ite (ℕ_discrete b sep) ([], some t) (b ∷ before, after)

-- At most `n` parts; the last one keeps the separators that are left.
unfoldable pub splitn : ℕ → ℕ → Text → List Text
splitn zero sep t = []
splitn (suc zero) sep t = t ∷ []
splitn (suc (suc n)) sep t =
    let (before, after) = split_once sep t in
    elim after [ none ↦ before ∷ [] | some rest ↦ before ∷ splitn (suc n) sep rest ]

abbrev pub Lacks : ℕ → Text → Type 0
Lacks sep [] = Unit
Lacks sep (b ∷ t) = (b ≢ sep) × Lacks sep t

pub split_once-append :
    (sep : ℕ) (a t : Text) → Lacks sep a → split_once sep (a ++ sep ∷ t) ≡ (a, some t)
unfolding split_once
split_once-append sep [] t h = ground arith
split_once-append sep (b ∷ a) t h = rw (split_once-append sep a t h.1) (ground arith)

pub split_once-Lacks : (sep : ℕ) (a : Text) → Lacks sep a → split_once sep a ≡ (a, none)
unfolding split_once
split_once-Lacks sep [] h = refl
split_once-Lacks sep (b ∷ a) h = rw (split_once-Lacks sep a h.1) (ground arith)

module _ (sep : ℕ) (a : Text) (h : Lacks sep a) where
  -- The first part ends at the first separator.
  pub splitn-append :
      (n : ℕ) (t : Text) → splitn (suc (suc n)) sep (a ++ sep ∷ t) ≡ a ∷ splitn (suc n) sep t
  unfolding splitn
  splitn-append n t = ground (arith, split_once-append sep a t h)

  pub splitn-Lacks : (n : ℕ) → splitn (suc n) sep a ≡ a ∷ []
  unfolding splitn
  splitn-Lacks zero = refl
  splitn-Lacks (suc n) = ground (arith, split_once-Lacks sep a h)
