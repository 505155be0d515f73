-- ===== src/Attachments.antt =====
-- `SqlAlchemyAttachmentProcessingStorage` of attachment_processing_storage.py: an attachment is
-- claimed in one transaction, fetched, stored and read outside any, and finished in another one.
-- What the fetcher, the object store and the text extraction give is an argument.
pub mod Finishing
pub mod Claims
pub mod Laws
use rd_news.Prelude.{
  ℕ, suc, ◌+◌, String, Bool, true, false, ◌&&◌, ◌||◌, Option, none, some, leb, ltb, ◌==◌,
  same_option, is_some, if◌then◌else◌,
}
use rd_news.Table
use rd_news.Table.{first_by, select}
use rd_news.Model.Status.{JobKind, JobStatus, AttemptStatus, same_kind, is_pending}
use rd_news.Model.Result.{Error, error_name}
use rd_news.Model.Job.{
  Job, ProcessingAttempt, JobResult, FileResult, no_result, IdText, id_text, bad_text,
}
use rd_news.Model.News.{News, Attachment, FileStatus}
use rd_news.Model.Store.{Store, set_job, set_attempt, add_attempt}
use rd_news.Pipeline.Claiming.{lease_over, version_of}
use rd_news.Pipeline.Finalizer.{retry_delay}

pub record AttachmentClaim : Type 0 where
  pub job_id : ℕ
  pub attempt_id : ℕ
  pub generation : ℕ
  pub attachment_id : ℕ

-- The settings of an attachment worker.
pub record AttachmentWorker : Type 0 where
  pub node_id : String
  pub lease_seconds : ℕ
  pub cooldown : ℕ

-- What the object store returns, and the text that was read, where one was.
pub record Stored : Type 0 where
  pub key : String
  pub size : ℕ
  pub sha256 : String
  pub content_type : String
  pub text : Option String

abbrev pub set_attachment : ℕ → Attachment → Store → Store
set_attachment k attachment db = record db { attachments = Table.put k attachment db.attachments }

abbrev is_running : JobStatus → Bool
is_running JobStatus.running = true
is_running _ = false

abbrev attempt_running : AttemptStatus → Bool
attempt_running AttemptStatus.running = true
attempt_running _ = false

unfoldable pub claimable : ℕ → ℕ → Job → Bool
claimable now id job =
    same_kind job.kind JobKind.attachment
    && (is_pending job.status || is_running job.status)
    && leb job.available_at now
    && (is_pending job.status || lease_over now job.lease_until)

-- `order_by(Job.available_at, Job.created_at)`
abbrev pub job_before : ℕ × Job → ℕ × Job → Bool
job_before (i, a) (j, b) =
    ltb a.available_at b.available_at
    || a.available_at == b.available_at && ltb a.created_at b.created_at

abbrev pub next_claimable : ℕ → Store → Option (ℕ × Job)
next_claimable now db = first_by job_before (select (claimable now) db.jobs)

abbrev pub expired : ℕ → ProcessingAttempt → ProcessingAttempt
expired now previous = record previous {
  status = AttemptStatus.timed_out;
  completed_at = some now;
  error_code = some "lease_expired";
}

abbrev close_running : ℕ → ℕ → Option ProcessingAttempt → Store → Store
close_running now k none db = db
close_running now k (some previous) db =
    if attempt_running previous.status then set_attempt k (expired now previous) db else db

abbrev pub close_previous : ℕ → Option ℕ → Store → Store
close_previous now none db = db
close_previous now (some k) db = close_running now k (Table.get k db.attempts) db

-- `uuid.UUID(str(job.payload["attachment_id"]))`
abbrev pub attachment_of : Option IdText → Option ℕ
attachment_of (some (id_text k)) = some k
attachment_of _ = none

abbrev pub exhausted_job : ℕ → Job → Job
exhausted_job now job = record job { status = JobStatus.dead_letter; completed_at = some now }

abbrev pub broken_job : ℕ → Job → Job
broken_job now job = record job {
  status = JobStatus.dead_letter;
  last_error = some "attachment job has no valid attachment_id";
  completed_at = some now;
}

abbrev pub new_attempt : AttachmentWorker → ℕ → ℕ → Job → Option ℕ → ProcessingAttempt
new_attempt worker now id job version = record {
  job_id = id;
  news_id = job.news_id;
  version_id = version;
  classifier_id = none;
  generation = suc job.generation;
  status = AttemptStatus.running;
  callback_token_hash = none;
  callback_received_at = none;
  raw_payload_encrypted = none;
  validated_result = no_result;
  error_code = none;
  error_detail = none;
  started_at = now;
  deadline_at = now + worker.lease_seconds;
  completed_at = none;
}

abbrev pub claimed_job : AttachmentWorker → ℕ → ℕ → Job → Job
claimed_job worker now attempt_id job = record job {
  generation = suc job.generation;
  attempt_count = suc job.attempt_count;
  current_attempt_id = some attempt_id;
  status = JobStatus.running;
  owner = some worker.node_id;
  lease_until = some (now + worker.lease_seconds);
}

abbrev pub start_attempt :
    AttachmentWorker → ℕ → ℕ → Job → ℕ → Store → Option AttachmentClaim × Store
start_attempt worker now id job attachment_id db = (
  some (record {
    job_id = id;
    attempt_id = db.next_id;
    generation = suc job.generation;
    attachment_id = attachment_id;
  }),
  set_job id (claimed_job worker now db.next_id job)
      (add_attempt (new_attempt worker now id job (version_of job.news_id db)) db),
)

abbrev pub start_on :
    AttachmentWorker → ℕ → ℕ → Job → Option ℕ → Store → Option AttachmentClaim × Store
start_on worker now id job none db = (none, set_job id (broken_job now job) db)
start_on worker now id job (some attachment_id) db =
    start_attempt worker now id job attachment_id (close_previous now job.current_attempt_id db)

abbrev pub claim_job : AttachmentWorker → ℕ → ℕ → Job → Store → Option AttachmentClaim × Store
claim_job worker now id job db =
    if leb job.max_attempts job.attempt_count
    then (none, set_job id (exhausted_job now job) db)
    else start_on worker now id job (attachment_of job.payload.attachment_id) db

abbrev pub claim_next :
    AttachmentWorker → ℕ → Option (ℕ × Job) → Store → Option AttachmentClaim × Store
claim_next worker now none db = (none, db)
claim_next worker now (some (id, job)) db = claim_job worker now id job db

unfoldable pub claim : AttachmentWorker → ℕ → Store → Option AttachmentClaim × Store
claim worker now db = claim_next worker now (next_claimable now db) db
