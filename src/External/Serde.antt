-- ===== src/External/Serde.antt =====
-- `serde_json` at the types of the bodies: `from_slice` or `from_str`, and `to_string`. What is
-- written is read back; a score that is written or read is a `u32`.
use hcache.Base.{◌<◌, ◌^◌, ◌≡◌, Option, some, List, [], ◌∷◌, Text}
use hcache.Dto.{InsrtRequest, ScoreValue, ScoreRange, UpdateCluster}

abbrev pub AllSmall : List ScoreValue → Type 0
AllSmall [] = Unit
AllSmall (x ∷ xs) = (x.score < 2 ^ 32) × AllSmall xs

pub record Serde : Type 0 where
  pub read_insrt : Text → Option InsrtRequest
  pub read_batch : Text → Option (List InsrtRequest)
  pub read_keys : Text → Option (List Text)
  pub read_score_value : Text → Option ScoreValue
  pub read_score_range : Text → Option ScoreRange
  pub read_scores : Text → Option (List ScoreValue)
  pub read_cluster : Text → Option UpdateCluster
  pub write_insrt : InsrtRequest → Text
  pub write_entries : List InsrtRequest → Text
  pub write_keys : List Text → Text
  pub write_score_value : ScoreValue → Text
  pub write_score_range : ScoreRange → Text
  pub write_scores : List ScoreValue → Text
  pub score-lt : (t : Text) (sv : ScoreValue) → read_score_value t ≡ some sv → sv.score < 2 ^ 32
  pub read-write_insrt : (kv : InsrtRequest) → read_insrt (write_insrt kv) ≡ some kv
  pub read-write_entries : (kvs : List InsrtRequest) → read_batch (write_entries kvs) ≡ some kvs
  pub read-write_keys : (keys : List Text) → read_keys (write_keys keys) ≡ some keys
  pub read-write_score_value :
      (sv : ScoreValue) → sv.score < 2 ^ 32 → read_score_value (write_score_value sv) ≡ some sv
  pub read-write_score_range :
      (range : ScoreRange)
      → range.min_score < 2 ^ 32
      → range.max_score < 2 ^ 32
      → read_score_range (write_score_range range) ≡ some range
  pub read-write_scores :
      (items : List ScoreValue) → AllSmall items → read_scores (write_scores items) ≡ some items
