-- ===== src/Pipeline/Claiming.antt =====
-- `PipelineClaiming.claim` of pipeline/claiming.py. `now` is the time at the start of the
-- transaction.
pub mod Laws
pub mod Lease
use rd_news.Prelude.{
  ℕ, suc, ◌+◌, String, Bool, true, false, ◌&&◌, ◌||◌, Option, none, some, leb, ltb, ◌==◌,
  if◌then◌else◌,
}
use rd_news.Table
use rd_news.Table.{first_by, select}
use rd_news.Model.Status.{
  JobStatus, AttemptStatus, JobKind, same_kind, is_pending, is_claimed, is_live,
}
use rd_news.Model.Job.{
  Job, ProcessingAttempt, ClaimedAttempt, PipelineRuntime, JobResult, no_result,
}
use rd_news.Model.News.{News}
use rd_news.Model.Store.{Store, set_job, set_attempt, add_attempt}

-- `lease_until IS NULL OR lease_until < now`
abbrev pub lease_over : ℕ → Option ℕ → Bool
lease_over now none = true
lease_over now (some until) = ltb until now

unfoldable pub claimable : ℕ → ℕ → Job → Bool
claimable now id job =
    same_kind job.kind JobKind.classification
    && (is_pending job.status || is_claimed job.status)
    && leb job.available_at now
    && (is_pending job.status || lease_over now job.lease_until)

-- `order_by(Job.available_at, Job.created_at, Job.id)`
abbrev pub job_before : ℕ × Job → ℕ × Job → Bool
job_before (i, a) (j, b) =
    ltb a.available_at b.available_at
    || a.available_at == b.available_at
      && (ltb a.created_at b.created_at || a.created_at == b.created_at && ltb i j)

abbrev pub next_claimable : ℕ → Store → Option (ℕ × Job)
next_claimable now db = first_by job_before (select (claimable now) db.jobs)

-- The previous attempt of the job is closed, if it is still live.
abbrev pub timed_out : ℕ → ProcessingAttempt → ProcessingAttempt
timed_out now previous = record previous {
  status = AttemptStatus.timed_out;
  completed_at = some now;
  error_code = some "deadline_exceeded";
  error_detail = some "attempt lease or callback deadline expired";
}

abbrev pub close_live : ℕ → ℕ → Option ProcessingAttempt → Store → Store
close_live now k none db = db
close_live now k (some previous) db =
    if is_live previous.status then set_attempt k (timed_out now previous) db else db

abbrev pub close_previous : ℕ → Option ℕ → Store → Store
close_previous now none db = db
close_previous now (some k) db = close_live now k (Table.get k db.attempts) db

-- `news.current_version_id`, where the job has a news item that is there
abbrev pub version_of : Option ℕ → Store → Option ℕ
version_of news_id db = elim (Table.get_opt news_id db.news) [
  | none ↦ none
  | some news ↦ news.current_version_id
]

abbrev pub new_attempt : PipelineRuntime → ℕ → ℕ → Job → Option ℕ → ProcessingAttempt
new_attempt runtime now id job version = record {
  job_id = id;
  news_id = job.news_id;
  version_id = version;
  classifier_id = job.classifier_id;
  generation = suc job.generation;
  status = AttemptStatus.running;
  callback_token_hash = none;
  callback_received_at = none;
  raw_payload_encrypted = none;
  validated_result = no_result;
  error_code = none;
  error_detail = none;
  started_at = now;
  deadline_at = now + runtime.callback_timeout;
  completed_at = none;
}

abbrev pub claimed_job : PipelineRuntime → ℕ → ℕ → Job → Job
claimed_job runtime now attempt_id job = record job {
  generation = suc job.generation;
  attempt_count = suc job.attempt_count;
  current_attempt_id = some attempt_id;
  status = JobStatus.running;
  owner = some runtime.node_id;
  lease_until = some (now + runtime.lease_seconds);
  last_error = none;
}

abbrev pub exhausted_job : ℕ → Job → Job
exhausted_job now job = record job {
  status = JobStatus.dead_letter;
  completed_at = some now;
  owner = none;
  lease_until = none;
}

abbrev pub start_attempt : PipelineRuntime → ℕ → ℕ → Job → Store → Option ClaimedAttempt × Store
start_attempt runtime now id job db = (
  some (record { job_id = id; attempt_id = db.next_id; generation = suc job.generation }),
  set_job id (claimed_job runtime now db.next_id job)
      (add_attempt (new_attempt runtime now id job (version_of job.news_id db)) db),
)

-- The part of `claim` after the query.
unfoldable pub claim_job : PipelineRuntime → ℕ → ℕ → Job → Store → Option ClaimedAttempt × Store
claim_job runtime now id job db =
    let closed = close_previous now job.current_attempt_id db in
    if leb job.max_attempts job.attempt_count
    then (none, set_job id (exhausted_job now job) closed)
    else start_attempt runtime now id job closed

abbrev pub claim_next :
    PipelineRuntime → ℕ → Option (ℕ × Job) → Store → Option ClaimedAttempt × Store
claim_next runtime now none db = (none, db)
claim_next runtime now (some (id, job)) db = claim_job runtime now id job db

unfoldable pub claim : PipelineRuntime → ℕ → Store → Option ClaimedAttempt × Store
claim runtime now db = claim_next runtime now (next_claimable now db) db
