-- ===== src/Std/Walk.antt =====
-- The order in which `HashSet` and `HashMap` are walked is not specified: it is a parameter.
use hcache.Base.{List}
use mathlib.Core.List.{Perm}

-- `into_iter` yields every element once, in some order.
pub record Walk : Type 1 where
  pub visit : {A : Type 0} → List A → List A
  pub visit-perm : {A : Type 0} (xs : List A) → Perm (visit xs) xs
