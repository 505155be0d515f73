-- ===== src/Attachments/Finishing.antt =====
-- The end of an attachment's attempt: the last transaction of `process`, and `fail`, of
-- attachment_processing_storage.py.
use rd_news.Prelude.{
  ℕ, ◌+◌, Bool, true, false, ◌&&◌, Option, none, some, leb, ◌==◌, same_option, is_some,
  if◌then◌else◌,
}
use rd_news.Table
use rd_news.Table.{first_by, select}
use rd_news.Model.Status.{JobStatus, AttemptStatus}
use rd_news.Model.Result.{Error, error_name}
use rd_news.Model.Job.{Job, ProcessingAttempt, JobResult}
use rd_news.Model.News.{News, Attachment, FileStatus}
use rd_news.Model.Store.{Store, set_job, set_attempt}
use rd_news.Pipeline.Finalizer.{retry_delay}
use rd_news.Attachments.{AttachmentClaim, AttachmentWorker, Stored, set_attachment}

-- `matches`: the status of the job is not asked for.
unfoldable pub matches : Job → AttachmentClaim → Bool
matches job claim =
    same_option job.current_attempt_id (some claim.attempt_id) && job.generation == claim.generation

-- The item is on the pipeline run of the job.
abbrev pub same_run : ℕ → Option News → Bool
same_run expected none = false
same_run expected (some news) = same_option news.current_attempt_id (some expected)

abbrev pub on_run : Option ℕ → Option ℕ → Store → Bool
on_run (some expected) (some news_id) db = same_run expected (Table.get news_id db.news)
on_run _ _ db = true

abbrev pub file_result : ℕ → Stored → JobResult
file_result attachment_id stored = JobResult.file_result (record {
  attachment_id = attachment_id;
  size = stored.size;
  sha256 = stored.sha256;
  content_type = stored.content_type;
  text_extracted = is_some stored.text;
})

abbrev pub stored_attachment : Stored → Attachment → Attachment
stored_attachment stored attachment = record attachment {
  object_key = some stored.key;
  size = some stored.size;
  sha256 = some stored.sha256;
  content_type = some stored.content_type;
  extracted_text = stored.text;
  status = FileStatus.stored;
  error = none;
}

abbrev pub stored_attempt : ℕ → ℕ → Stored → ProcessingAttempt → ProcessingAttempt
stored_attempt now attachment_id stored attempt = record attempt {
  status = AttemptStatus.succeeded;
  completed_at = some now;
  validated_result = file_result attachment_id stored;
}

abbrev pub stored_job : ℕ → ℕ → Stored → Job → Job
stored_job now attachment_id stored job = record job {
  status = JobStatus.succeeded;
  result = file_result attachment_id stored;
  completed_at = some now;
  owner = none;
  lease_until = none;
}

abbrev pub store_rows :
    ℕ
    → AttachmentClaim
    → Stored
    → Option Job
    → Option ProcessingAttempt
    → Option Attachment
    → Store
    → Store
store_rows now c stored (some job) (some attempt) (some attachment) db =
    if matches job c && on_run job.payload.pipeline_attempt_id job.news_id db
    then set_job c.job_id (stored_job now c.attachment_id stored job) (
        set_attempt c.attempt_id (stored_attempt now c.attachment_id stored attempt)
          (set_attachment c.attachment_id (stored_attachment stored attachment) db))
    else db
store_rows now c stored _ _ _ db = db

-- The last transaction of `process`.
unfoldable pub store_file : ℕ → AttachmentClaim → Stored → Store → Store
store_file now c stored db =
    store_rows now c stored (Table.get c.job_id db.jobs) (Table.get c.attempt_id db.attempts)
      (Table.get c.attachment_id db.attachments) db

abbrev pub failed_attempt : ℕ → Error → ProcessingAttempt → ProcessingAttempt
failed_attempt now error attempt = record attempt {
  status = AttemptStatus.failed;
  completed_at = some now;
  error_code = some (error_name error);
  error_detail = some (error_name error);
}

abbrev pub failed_job : AttachmentWorker → ℕ → Error → Job → Job
failed_job worker now error job =
    let released = record job {
      last_error = some (error_name error);
      owner = none;
      lease_until = none;
    } in
    if leb job.max_attempts job.attempt_count
    then record released { status = JobStatus.dead_letter; completed_at = some now }
    else record released {
      status = JobStatus.pending;
      available_at = now + retry_delay worker.cooldown job.attempt_count;
    }

abbrev pub mark_failed : Error → ℕ → Option Attachment → Store → Store
mark_failed error k none db = db
mark_failed error k (some attachment) db =
    set_attachment k
      (record attachment { status = FileStatus.failed; error = some (error_name error) }) db

abbrev pub fail_rows :
    AttachmentWorker
    → ℕ
    → AttachmentClaim
    → Error
    → Option Job
    → Option ProcessingAttempt
    → Option Attachment
    → Store
    → Store
fail_rows worker now c error (some job) (some attempt) attachment db =
    if matches job c
    then set_job c.job_id (failed_job worker now error job) (
        set_attempt c.attempt_id (failed_attempt now error attempt)
          (mark_failed error c.attachment_id attachment db))
    else db
fail_rows worker now c error _ _ attachment db = db

unfoldable pub fail : AttachmentWorker → ℕ → AttachmentClaim → Error → Store → Store
fail worker now c error db =
    fail_rows worker now c error (Table.get c.job_id db.jobs) (Table.get c.attempt_id db.attempts)
      (Table.get c.attachment_id db.attachments) db
