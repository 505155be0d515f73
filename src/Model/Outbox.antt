-- ===== src/Model/Outbox.antt =====
-- Outbox events and the audit log. Code: models/outbox_event.py, models/audit_log.py.
use rd_news.Prelude.{ℕ, String, Option}
use rd_news.Model.Status.{NewsState}

-- The keys of the payloads that the services write.
pub record EventPayload : Type 0 where
  pub news_id : Option ℕ
  pub revision : ℕ
  pub status : Option NewsState
  pub job_id : Option ℕ
  pub submission_id : Option ℕ

pub record AuditEntry : Type 0 where
  pub actor : String
  pub action : String
  pub entity_id : ℕ
