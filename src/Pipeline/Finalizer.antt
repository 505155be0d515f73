-- ===== src/Pipeline/Finalizer.antt =====
-- `PipelineFinalizer` of pipeline/finalizer.py.
pub mod Laws
use rd_news.Prelude.{
  ℕ, ◌+◌, ◌-◌, ◌*◌, ◌^◌, String, Bool, true, false, not, ◌||◌, Option, none, some, List, [], ◌∷◌,
  leb, ltb, min, str_eq, if◌then◌else◌,
}
use rd_news.Model.Status.{JobStatus, AttemptStatus}
use rd_news.Model.Result.{Error, Result, ok, err, stale_attempt, classifier_protocol, error_name}
use rd_news.Model.Job.{Job, ProcessingAttempt, ClaimedAttempt, PipelineRuntime}
use rd_news.Model.Store.{Store, set_job, set_attempt}
use rd_news.Pipeline.Fence.{locked}

-- `if raw_body and runtime.protector is not None: encrypt`
abbrev pub protect : PipelineRuntime → List ℕ → ProcessingAttempt → ProcessingAttempt
protect runtime [] attempt = attempt
protect runtime (b ∷ body) attempt = elim runtime.protector [
  | none ↦ attempt
  | some encrypt ↦ record attempt { raw_payload_encrypted = some (encrypt (b ∷ body)) }
]

abbrev pub waiting_attempt : PipelineRuntime → List ℕ → ProcessingAttempt → ProcessingAttempt
waiting_attempt runtime raw_body attempt =
    protect runtime raw_body (record attempt { status = AttemptStatus.waiting_callback })

abbrev pub waiting_job : ProcessingAttempt → Job → Job
waiting_job attempt job = record job {
  status = JobStatus.waiting_callback;
  lease_until = some attempt.deadline_at;
}

abbrev pub mark_locked :
    PipelineRuntime
    → ClaimedAttempt
    → List ℕ
    → Option (Job × ProcessingAttempt)
    → Store
    → Result Store
mark_locked runtime claimed raw_body none db = err stale_attempt
mark_locked runtime claimed raw_body (some (job, attempt)) db = ok (
    set_job claimed.job_id (waiting_job attempt job)
      (set_attempt claimed.attempt_id (waiting_attempt runtime raw_body attempt) db))

unfoldable pub mark_waiting : PipelineRuntime → ClaimedAttempt → List ℕ → Store → Result Store
mark_waiting runtime claimed raw_body db =
    mark_locked runtime claimed raw_body (locked claimed db) db

-- What a callback's token is to the attempt: none was given or it is recorded now, it was recorded
-- before, or it is refused.
pub data Token : Type 0 where
  accepted : ProcessingAttempt → Token
  repeated : Token
  refused : Error → Token

abbrev pub new_token : ℕ → String → ProcessingAttempt → Option String → Token
new_token now hash attempt (some old) =
    if str_eq old hash
    then Token.repeated
    else Token.refused (classifier_protocol "callback token was already used")
new_token now hash attempt none =
    if ltb attempt.deadline_at now
    then Token.refused stale_attempt
    else Token.accepted
        (record attempt { callback_token_hash = some hash; callback_received_at = some now })

abbrev pub check_token : ℕ → Option String → ProcessingAttempt → Token
check_token now none attempt = Token.accepted attempt
check_token now (some hash) attempt = new_token now hash attempt attempt.callback_token_hash

-- `cooldown * 2 ** min(max(attempt_count - 1, 0), 8)`
unfoldable pub retry_delay : ℕ → ℕ → ℕ
retry_delay cooldown attempt_count = cooldown * 2 ^ min (attempt_count - 1) 8

abbrev pub failed_attempt : ℕ → Error → ProcessingAttempt → ProcessingAttempt
failed_attempt now error attempt = record attempt {
  status = AttemptStatus.failed;
  completed_at = some now;
  error_code = some (error_name error);
  error_detail = some (error_name error);
}

abbrev pub failed_job : PipelineRuntime → ℕ → Error → Bool → Job → Job
failed_job runtime now error retryable job =
    let released = record job {
      last_error = some (error_name error);
      owner = none;
      lease_until = none;
    } in
    if not retryable || leb job.max_attempts job.attempt_count
    then record released { status = JobStatus.dead_letter; completed_at = some now }
    else record released {
      status = JobStatus.pending;
      available_at = now + retry_delay runtime.cooldown job.attempt_count;
    }

abbrev pub fail_with :
    PipelineRuntime
    → ℕ
    → ClaimedAttempt
    → Error
    → List ℕ
    → Bool
    → Job
    → Token
    → Store
    → Result Store
fail_with runtime now claimed error raw_body retryable job (Token.refused e) db = err e
fail_with runtime now claimed error raw_body retryable job Token.repeated db = ok db
fail_with runtime now claimed error raw_body retryable job (Token.accepted attempt) db = ok (
    set_job claimed.job_id (failed_job runtime now error retryable job) (
      set_attempt claimed.attempt_id (failed_attempt now error (protect runtime raw_body attempt))
        db))

abbrev pub fail_locked :
    PipelineRuntime
    → ℕ
    → ClaimedAttempt
    → Error
    → Option String
    → List ℕ
    → Bool
    → Option (Job × ProcessingAttempt)
    → Store
    → Result Store
fail_locked runtime now claimed error hash raw_body retryable none db = ok db
fail_locked runtime now claimed error hash raw_body retryable (some (job, attempt)) db =
    fail_with runtime now claimed error raw_body retryable job (check_token now hash attempt) db

-- A raw body of `None` is the empty one: both leave the stored payload alone.
unfoldable pub fail :
    PipelineRuntime
    → ℕ
    → ClaimedAttempt
    → Error
    → Option String
    → List ℕ
    → Bool
    → Store
    → Result Store
fail runtime now claimed error hash raw_body retryable db =
    fail_locked runtime now claimed error hash raw_body retryable (locked claimed db) db
