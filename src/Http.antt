-- ===== src/Http.antt =====
-- What the server takes of `hyper`: a method, a path and a body, and a status with a body. A body that
-- fails to arrive is `none`.
use hcache.Base.{ℕ, Option, none, some, [], Text}
use hcache.Base.Run.{Run, ok, fault, panicked, body_lost}

pub data Method : Type 0 where
  get post other : Method

pub record Request : Type 0 where
  pub method : Method
  pub path : Text
  pub body : Option Text

pub record Response : Type 0 where
  pub status : ℕ
  pub body : Text

-- `Response::new(body)`
abbrev pub success : Text → Response
success body = record { status = 200; body = body }

abbrev pub not_found : Response
not_found = record { status = 404; body = [] }

abbrev pub server_error : Response
server_error = record { status = 500; body = [] }

-- `hyper::body::to_bytes(body).await?`
abbrev pub to_bytes : Option Text → Run Text
to_bytes none = fault body_lost
to_bytes (some bytes) = ok bytes

-- `unwrap` of what `serde_json` read
abbrev pub unwrap : {A : Type 0} → Option A → Run A
unwrap none = fault panicked
unwrap (some a) = ok a
