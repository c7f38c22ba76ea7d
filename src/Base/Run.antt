-- ===== src/Base/Run.antt =====
-- Code that may panic, or may end in the error of a request body.

-- `panicked` is an `unwrap` of nothing or an index out of range; `body_lost` is the
-- `hyper::Error` that `hyper::body::to_bytes(body).await?` passes on.
pub data Fault : Type 0 where
  panicked body_lost : Fault

pub data Run {ℓ} (A : Type ℓ) : Type ℓ where
  ok : A → Run A
  fault : Fault → Run A

infixl 5 ◌>>=◌
abbrev pub ◌>>=◌ {ℓ κ} : {A : Type ℓ} {B : Type κ} → Run A → (A → Run B) → Run B
ok a >>= f = f a
fault e >>= f = fault e
