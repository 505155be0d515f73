-- ===== src/Model/News.antt =====
-- News and their attachments. Code: models/news.py, models/news_version.py,
-- models/attachment.py.
use rd_news.Prelude.{ℕ, String, Bool, Option, List}
use rd_news.Model.Status.{NewsState}

pub record News : Type 0 where
  pub status : NewsState
  pub current_version_id : Option ℕ
  pub current_attempt_id : Option ℕ
  pub revision : ℕ
  pub visibility_revision : ℕ
  pub urgency : ℕ
  pub impact : ℕ
  pub editorial_priority : ℕ
  pub importance : ℕ
  pub manual_facets : List String
  pub published_at : Option ℕ
  pub deleted_at : Option ℕ

-- A version of a news item; a value stands as the text of its JSON.
pub record NewsVersion : Type 0 where
  pub news_id : ℕ
  pub number : ℕ
  pub created_by : String
  pub values : String → String

-- `Attachment.status`
pub data FileStatus : Type 0 where
  waiting stored failed : FileStatus

pub record Attachment : Type 0 where
  pub news_id : Option ℕ
  pub submission_id : Option ℕ
  pub object_key : Option String
  pub original_url : Option String
  pub active : Bool
  pub content_type : Option String
  pub size : Option ℕ
  pub sha256 : Option String
  pub extracted_text : Option String
  pub status : FileStatus
  pub error : Option String
