-- ===== src/Coordinator.antt =====
-- The pipeline coordinator, which leads a news item through the download of its attachments and its
-- classification, and publishes it or leaves it to a reviewer.
-- Code: services/main/lib/infra/storage/postgres/pipeline_coordinator_storage.py.
pub mod Ending
pub mod Advance
pub mod Finish
pub mod Children
use rd_news.Prelude.{
  ℕ, suc, ◌+◌, ◌*◌, String, Bool, true, false, not, ◌&&◌, ◌||◌, Option, none, some, List, [], ◌∷◌,
  ◌++◌, leb, ltb, ◌==◌, same_option, is_none, is_some, any_of, all_of, keep, map, max,
  if◌then◌else◌,
}
use rd_news.Prelude.Sort.{sorted}
use rd_news.Table
use rd_news.Table.{first_by, select}
use rd_news.Model.Status.{
  JobKind, JobStatus, AttemptStatus, NewsState, same_kind, is_open, is_pending, is_succeeded,
}
use rd_news.Model.Result.{Error, Result, ok, err, key_error}
use rd_news.Model.Job.{
  Job, ProcessingAttempt, JobResult, pipeline_result, no_result, Outcome, Payload, no_payload,
  Stage, IdText, id_text, bad_text,
}
use rd_news.Model.News.{News, Attachment}
use rd_news.Model.Taxonomy.{Classifier, Facet}
use rd_news.Model.Store.{
  Store, NewEvent, set_job, set_attempt, set_news, add_job, add_attempt, add_event,
}

-- The settings of the coordinator.
pub record Coordinator : Type 0 where
  pub node_id : String
  pub max_attempts : ℕ
  pub cooldown : ℕ
  pub lease : ℕ

-- `status in ("pending", "running", "waiting_children")`
abbrev pub is_advancing : JobStatus → Bool
is_advancing JobStatus.pending = true
is_advancing JobStatus.running = true
is_advancing JobStatus.waiting_children = true
is_advancing _ = false

unfoldable pub advanceable : ℕ → ℕ → Job → Bool
advanceable now k job =
    same_kind job.kind JobKind.pipeline && is_advancing job.status && leb job.available_at now

-- `order_by(Job.available_at, Job.created_at)`
abbrev pub job_before : ℕ × Job → ℕ × Job → Bool
job_before (i, a) (j, b) =
    ltb a.available_at b.available_at
    || a.available_at == b.available_at && ltb a.created_at b.created_at

abbrev pub next_parent : ℕ → Store → Option (ℕ × Job)
next_parent now db = first_by job_before (select (advanceable now) db.jobs)

-- `dead`
abbrev pub dead : ℕ → String → Job → Job
dead now reason parent = record parent {
  status = JobStatus.dead_letter;
  last_error = some reason;
  completed_at = some now;
}

-- A job as the coordinator creates one.
abbrev pub child_job : Coordinator → ℕ → JobKind → Job
child_job c now kind = record {
  kind = kind;
  status = JobStatus.pending;
  submission_id = none;
  news_id = none;
  classifier_id = none;
  current_attempt_id = none;
  generation = 1;
  attempt_count = 0;
  max_attempts = c.max_attempts;
  available_at = now;
  created_at = now;
  lease_until = none;
  owner = none;
  payload = no_payload;
  result = no_result;
  last_error = none;
  completed_at = none;
}

abbrev pub attachment_job : Coordinator → ℕ → ℕ → ℕ → ℕ → Attachment → Job
attachment_job c now news_id attempt_id attachment_id attachment =
    record (child_job c now JobKind.attachment) {
      news_id = some news_id;
      submission_id = attachment.submission_id;
      payload = record no_payload {
        attachment_id = some (id_text attachment_id);
        pipeline_attempt_id = some attempt_id;
      };
    }

-- The jobs of one stage are added one after the other; the ids are returned in that order.
unfoldable pub add_jobs : List Job → Store → List ℕ × Store
add_jobs [] db = ([], db)
add_jobs (job ∷ rest) db =
    let (ids, db') = add_jobs rest (add_job job db) in (db.next_id ∷ ids, db')

abbrev pub pending_attachments : ℕ → Store → List (ℕ × Attachment)
pending_attachments news_id db =
    select
      (λ k a.
        same_option a.news_id (some news_id)
        && a.active
        && is_none a.object_key
        && is_some a.original_url)
      db.attachments

abbrev day : ℕ
day = 24 * 60 * 60

abbrev pub pipeline_attempt : Coordinator → ℕ → ℕ → Job → ℕ → ℕ → ProcessingAttempt
pipeline_attempt c now parent_id parent news_id version_id = record {
  job_id = parent_id;
  news_id = some news_id;
  version_id = some version_id;
  classifier_id = none;
  generation = suc parent.generation;
  status = AttemptStatus.running;
  callback_token_hash = none;
  callback_received_at = none;
  raw_payload_encrypted = none;
  validated_result = no_result;
  error_code = none;
  error_detail = none;
  started_at = now;
  deadline_at = now + max c.lease day;
  completed_at = none;
}

abbrev pub started_parent : Coordinator → ℕ → ℕ → List ℕ → Job → Job
started_parent c now attempt_id children parent = record parent {
  generation = suc parent.generation;
  attempt_count = suc parent.attempt_count;
  current_attempt_id = some attempt_id;
  payload = record no_payload {
    stage = some Stage.attachments;
    children = map id_text children;
    pipeline_attempt_id = some attempt_id;
  };
  status = JobStatus.waiting_children;
  available_at = now + c.cooldown;
  lease_until = none;
  owner = none;
}

abbrev pub started_news : ℕ → News → News
started_news attempt_id news = record news {
  current_attempt_id = some attempt_id;
  status = NewsState.processing;
}

-- `start`, once the news item and its version are there.
unfoldable pub start_on : Coordinator → ℕ → ℕ → Job → ℕ → News → ℕ → Store → Store
unfolding add_jobs
start_on c now parent_id parent news_id news version_id db =
    let attempt_id = db.next_id in
    let begun =
      set_news news_id (started_news attempt_id news)
        (add_attempt (pipeline_attempt c now parent_id parent news_id version_id) db) in
    let (children, db') =
      add_jobs
        (map (λ (k, a). attachment_job c now news_id attempt_id k a)
          (pending_attachments news_id db))
        begun in
    set_job parent_id (started_parent c now attempt_id children parent) db'

abbrev pub start_news : Coordinator → ℕ → ℕ → Job → ℕ → Option News → Store → Store
start_news c now parent_id parent news_id none db =
    set_job parent_id (dead now "pipeline news or version is missing" parent) db
start_news c now parent_id parent news_id (some news) db = elim news.current_version_id [
  | none ↦ set_job parent_id (dead now "pipeline news or version is missing" parent) db
  | some version_id ↦ start_on c now parent_id parent news_id news version_id db
]

unfoldable pub start : Coordinator → ℕ → ℕ → Job → Store → Store
start c now parent_id parent db = elim parent.news_id [
  | none ↦ set_job parent_id (dead now "pipeline job has no news" parent) db
  | some news_id ↦ start_news c now parent_id parent news_id (Table.get news_id db.news) db
]
