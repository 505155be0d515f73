-- ===== src/Model/Sources.antt =====
-- Sources, submissions, the links of submissions to news, and uploads.
-- Code: models/source.py, models/submission.py, models/news_source_link.py,
-- models/upload_intent.py.
use rd_news.Prelude.{ℕ, String, Bool, true, false, Option, List}

pub record Source : Type 0 where
  pub slug : String
  pub enabled : Bool
  pub skip_classification : Bool
  pub default_labels : List (String × List String)

pub record Submission : Type 0 where
  pub source_id : Option ℕ
  pub external_id : Option String
  pub idempotency_key : Option String
  pub payload_hash : String
  pub news_id : Option ℕ
  pub received_at : ℕ

pub data Relation : Type 0 where
  origin merged split : Relation

pub record NewsSourceLink : Type 0 where
  pub news_id : ℕ
  pub submission_id : ℕ
  pub relation : Relation

-- `UploadIntent.status`
pub data UploadStatus : Type 0 where
  pending completed expired : UploadStatus

pub record UploadIntent : Type 0 where
  pub owner_id : String
  pub temp_key : String
  pub final_key : Option String
  pub expected_size : ℕ
  pub content_type : String
  pub sha256 : Option String
  pub status : UploadStatus
  pub expires_at : ℕ
  pub completed_at : Option ℕ
  pub attachment_id : Option ℕ

-- `status == "completed"`
abbrev pub is_completed : UploadStatus → Bool
is_completed UploadStatus.completed = true
is_completed _ = false
