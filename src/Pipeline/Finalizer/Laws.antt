-- ===== src/Pipeline/Finalizer/Laws.antt =====
-- What a failure leaves behind, and when the job is tried again.
use native.Mathlib.Nat.{pow-succ', mul_left_comm}
use rd_news.Prelude.{
  ℕ, suc, ◌+◌, ◌-◌, ◌*◌, ◌^◌, ◌≤◌, ◌<◌, ◌≡◌, refl, ap, ◌∙◌, Bool, true, false, none, some, List,
  arith, ◌⊎◌, min, ==_iff,
}
use rd_news.Table
use rd_news.Model.Status.{JobStatus, AttemptStatus}
use rd_news.Model.Result.{Error, ok, error_name}
use rd_news.Model.Job.{Job, ProcessingAttempt, ClaimedAttempt, PipelineRuntime}
use rd_news.Model.Store.{Store, set_job, set_attempt}
use rd_news.Pipeline.Fence.{locked}
use rd_news.Pipeline.Finalizer.{fail, failed_job, failed_attempt, retry_delay, protect}

pow_step : (cooldown k : ℕ) → cooldown * 2 ^ suc k ≡ 2 * (cooldown * 2 ^ k)
pow_step cooldown k = ap (λ p. cooldown * p) (pow-succ' 2 k) ∙ mul_left_comm cooldown 2 (2 ^ k)

-- The delay before a job is tried again: the cooldown after the first attempt, twice as long after
-- each further one up to the ninth, and 256 times the cooldown from there on.
retry_delay-doubles :
    (cooldown : ℕ)
    → (retry_delay cooldown 1 ≡ cooldown)
      × ((n : ℕ) → 1 ≤ n → n < 9 → retry_delay cooldown (suc n) ≡ 2 * retry_delay cooldown n)
      × ((n : ℕ) → 9 ≤ n → retry_delay cooldown n ≡ 256 * cooldown)
unfolding retry_delay
retry_delay-doubles cooldown = (
  omega arith,
  λ n low high.
      let later : min (suc n - 1) 8 ≡ suc (n - 1) = omega arith in
      let now : min (n - 1) 8 ≡ n - 1 = omega arith in rw (later, now) (pow_step cooldown (n - 1)),
  λ n high. let last : min (n - 1) 8 ≡ 8 = omega arith in rw last (omega arith),
)

-- What a failed attempt leaves: the attempt has failed with the error, and no worker owns the job.
-- The job goes back to pending if the error is retryable and attempts are left, after the delay of
-- its attempt count; else it is given up.
pub record FailedAs (runtime : PipelineRuntime) (now : ℕ) (c : ClaimedAttempt) (error : Error)
    (retryable : Bool) (job : Job) (db : Store) : Type 0 where
  pub job' : Job
  pub attempt' : ProcessingAttempt
  pub job_there : Table.get c.job_id db.jobs ≡ some job'
  pub attempt_there : Table.get c.attempt_id db.attempts ≡ some attempt'
  pub ended : attempt'.status ≡ AttemptStatus.failed
  pub code : attempt'.error_code ≡ some (error_name error)
  pub free : (job'.owner ≡ none) × (job'.lease_until ≡ none)
  pub attempts : job'.attempt_count ≡ job.attempt_count
  pub retried :
      retryable ≡ true
      → job.attempt_count < job.max_attempts
      → (job'.status ≡ JobStatus.pending)
        × (job'.available_at ≡ now + retry_delay runtime.cooldown job.attempt_count)
  pub given_up :
      (retryable ≡ false) ⊎ (job.max_attempts ≤ job.attempt_count)
      → (job'.status ≡ JobStatus.dead_letter) × (job'.completed_at ≡ some now)

failed_job-cases :
    (runtime : PipelineRuntime) (now : ℕ) (c : ClaimedAttempt) (error : Error) (retryable : Bool)
    (job : Job) (attempt : ProcessingAttempt) (db : Store)
    → FailedAs runtime now c error retryable job (
        set_job c.job_id
          (failed_job runtime now error retryable job)
          (set_attempt c.attempt_id (failed_attempt now error attempt) db))
failed_job-cases runtime now c error retryable job attempt db = record {
  job' = failed_job runtime now error retryable job;
  attempt' = failed_attempt now error attempt;
  job_there = rw ((==_iff c.job_id c.job_id).1 refl) refl;
  attempt_there = rw ((==_iff c.attempt_id c.attempt_id).1 refl) refl;
  ended = refl;
  code = refl;
  free = ground arith;
  attempts = ground arith;
  retried = λ good left. ground arith;
  given_up = λ h. ground arith;
}

-- A failure that a worker reports while the fence accepts its claim commits, and leaves the job to
-- be tried again or given up by whether a retry may help and attempts are left.
pub fail-FailedAs :
    (runtime : PipelineRuntime) (now : ℕ) (c : ClaimedAttempt) (error : Error) (raw_body : List ℕ)
    (retryable : Bool) (job : Job) (attempt : ProcessingAttempt) (db : Store)
    → locked c db ≡ some (job, attempt)
    → (db' : Store) × (fail runtime now c error none raw_body retryable db ≡ ok db')
      × FailedAs runtime now c error retryable job db'
unfolding fail
fail-FailedAs runtime now c error raw_body retryable job attempt db held = (
  _,
  rw held refl,
  failed_job-cases runtime now c error retryable job (protect runtime raw_body attempt) db,
)
