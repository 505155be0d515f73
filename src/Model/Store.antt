-- ===== src/Model/Store.antt =====
-- The relational store: the tables, and the next fresh UUID.
use rd_news.Prelude.{ℕ, suc, String, Bool, Option, none, List, [], ◌∷◌, ◌++◌}
use rd_news.Table
use rd_news.Table.{Table}
use rd_news.Model.Job.{Job, ProcessingAttempt}
use rd_news.Model.News.{News, NewsVersion, Attachment}
use rd_news.Model.Taxonomy.{Facet, FacetValue, Classifier, EditorialRule}
use rd_news.Model.Labels.{NewsLabel, NewsEffectiveLabel, ManualLabelDecision}
use rd_news.Model.Sources.{Source, Submission, NewsSourceLink, UploadIntent}
use rd_news.Model.Outbox.{EventPayload, AuditEntry}

-- A new event, as `session.add(OutboxEvent(...))` records it.
pub record NewEvent : Type 0 where
  pub topic : String
  pub aggregate_id : ℕ
  pub payload : EventPayload

pub record Store : Type 0 where
  pub jobs : Table Job
  pub attempts : Table ProcessingAttempt
  pub news : Table News
  pub versions : Table NewsVersion
  pub attachments : Table Attachment
  pub facets : Table Facet
  pub facet_values : Table FacetValue
  pub classifiers : Table Classifier
  pub labels : Table NewsLabel
  pub effective : List NewsEffectiveLabel
  pub decisions : Table ManualLabelDecision
  pub rules : Table EditorialRule
  pub sources : Table Source
  pub submissions : Table Submission
  pub uploads : Table UploadIntent
  pub links : List NewsSourceLink
  pub events : List NewEvent
  pub audit : List AuditEntry
  pub auto_publish : Option Bool
  pub next_id : ℕ

abbrev pub empty_store : Store
empty_store = record {
  jobs = Table.empty;
  attempts = Table.empty;
  news = Table.empty;
  versions = Table.empty;
  attachments = Table.empty;
  facets = Table.empty;
  facet_values = Table.empty;
  classifiers = Table.empty;
  labels = Table.empty;
  effective = [];
  decisions = Table.empty;
  rules = Table.empty;
  sources = Table.empty;
  submissions = Table.empty;
  uploads = Table.empty;
  links = [];
  events = [];
  audit = [];
  auto_publish = none;
  next_id = 1;
}

abbrev pub set_job : ℕ → Job → Store → Store
set_job k job db = record db { jobs = Table.put k job db.jobs }

abbrev pub set_attempt : ℕ → ProcessingAttempt → Store → Store
set_attempt k attempt db = record db { attempts = Table.put k attempt db.attempts }

abbrev pub set_news : ℕ → News → Store → Store
set_news k news db = record db { news = Table.put k news db.news }

-- `session.add(row)` and `session.flush()`: the row gets the next UUID.
abbrev pub add_job : Job → Store → Store
add_job job db = record db { jobs = Table.put db.next_id job db.jobs; next_id = suc db.next_id }

abbrev pub add_attempt : ProcessingAttempt → Store → Store
add_attempt attempt db = record db {
  attempts = Table.put db.next_id attempt db.attempts;
  next_id = suc db.next_id;
}

abbrev pub add_event : NewEvent → Store → Store
add_event event db = record db { events = db.events ++ (event ∷ []) }

abbrev pub add_label : NewsLabel → Store → Store
add_label label db = record db {
  labels = Table.put db.next_id label db.labels;
  next_id = suc db.next_id;
}

abbrev pub add_decision : ManualLabelDecision → Store → Store
add_decision decision db = record db {
  decisions = Table.put db.next_id decision db.decisions;
  next_id = suc db.next_id;
}

abbrev pub add_version : NewsVersion → Store → Store
add_version version db = record db {
  versions = Table.put db.next_id version db.versions;
  next_id = suc db.next_id;
}

abbrev pub add_audit : AuditEntry → Store → Store
add_audit entry db = record db { audit = db.audit ++ (entry ∷ []) }

abbrev pub add_news : News → Store → Store
add_news news db = record db { news = Table.put db.next_id news db.news; next_id = suc db.next_id }

abbrev pub add_submission : Submission → Store → Store
add_submission submission db = record db {
  submissions = Table.put db.next_id submission db.submissions;
  next_id = suc db.next_id;
}

abbrev pub add_attachment : Attachment → Store → Store
add_attachment attachment db = record db {
  attachments = Table.put db.next_id attachment db.attachments;
  next_id = suc db.next_id;
}

abbrev pub set_submission : ℕ → Submission → Store → Store
set_submission k submission db = record db { submissions = Table.put k submission db.submissions }

abbrev pub set_upload : ℕ → UploadIntent → Store → Store
set_upload k intent db = record db { uploads = Table.put k intent db.uploads }

abbrev pub add_link : NewsSourceLink → Store → Store
add_link link db = record db { links = db.links ++ (link ∷ []) }
