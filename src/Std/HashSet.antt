-- ===== src/Std/HashSet.antt =====
-- `std::collections::HashSet<String>` as a list of its elements.
use hcache.Base.{ℕ, ◌+◌, ◌≡◌, ite, if_pos, if_neg, List, [], ◌∷◌, arith, Text, text_discrete}
use Prim.Native.Nat.{max}

-- How often `v` stands in the list; at most once in a set.
unfoldable pub occurs : Text → List Text → ℕ
occurs v [] = 0
occurs v (x ∷ xs) = ite (text_discrete x v) 1 0 + occurs v xs

unfoldable pub insert : Text → List Text → List Text
insert v [] = v ∷ []
insert v (x ∷ xs) = ite (text_discrete x v) (x ∷ xs) (x ∷ insert v xs)

unfoldable pub remove : Text → List Text → List Text
remove v [] = []
remove v (x ∷ xs) = let rest = remove v xs in ite (text_discrete x v) rest (x ∷ rest)

pub occurs-insert :
    (v j : Text) (xs : List Text)
    → occurs j (insert v xs) ≡ ite (text_discrete v j) (max 1 (occurs j xs)) (occurs j xs)
unfolding occurs insert
occurs-insert v j [] = ground arith
occurs-insert v j (x ∷ xs) = elim (text_discrete x v) [
  | yes p ↦ rw (if_pos _ p, p) (ground arith)
  | no p ↦ rw (if_neg _ p, occurs-insert v j xs) (ground arith)
]

pub occurs-remove :
    (v j : Text) (xs : List Text) → occurs j (remove v xs) ≡ ite (text_discrete v j) 0 (occurs j xs)
unfolding occurs remove
occurs-remove v j [] = ground arith
occurs-remove v j (x ∷ xs) = elim (text_discrete x v) [
  | yes p ↦ rw (if_pos _ p, p, occurs-remove v j xs) (ground arith)
  | no p ↦ rw (if_neg _ p, occurs-remove v j xs) (ground arith)
]
