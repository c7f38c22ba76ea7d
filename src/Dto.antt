-- ===== src/Dto.antt =====
-- rust/src/dto.rs: the bodies of requests and replies. A `u32` is a number below 2 ^ 32.
use hcache.Base.{ℕ, List, Text}

pub record InsrtRequest : Type 0 where
  pub key : Text
  pub value : Text

pub record ScoreValue : Type 0 where
  pub score : ℕ
  pub value : Text

pub record ScoreRange : Type 0 where
  pub min_score : ℕ
  pub max_score : ℕ

pub record UpdateCluster : Type 0 where
  pub hosts : List Text
  pub index : ℕ
