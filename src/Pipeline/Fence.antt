-- ===== src/Pipeline/Fence.antt =====
-- `PipelineFence` of pipeline/fence.py, and the prologue that the transactions on a claimed attempt
-- share.
pub mod Laws
use rd_news.Prelude.{
  ℕ, ◌≡◌, refl, Bool, true, false, ◌&&◌, Option, none, some, ◌==◌, same_option, arith,
  if◌then◌else◌, ap,
}
use rd_news.Table
use rd_news.Model.Status.{is_claimed, is_live}
use rd_news.Model.Job.{Job, ProcessingAttempt, ClaimedAttempt}
use rd_news.Model.News.{News}
use rd_news.Model.Store.{Store}

unfoldable pub matches : Job → ClaimedAttempt → Bool
matches job claimed =
    same_option job.current_attempt_id (some claimed.attempt_id)
    && job.generation == claimed.generation
    && is_claimed job.status

unfoldable pub matches_news : News → Job → Bool
matches_news news job = elim job.payload.pipeline_attempt_id [
  | none ↦ true
  | some expected ↦ same_option news.current_attempt_id (some expected)
]

abbrev pub live_attempt : Job → Option ProcessingAttempt → Option (Job × ProcessingAttempt)
live_attempt job none = none
live_attempt job (some attempt) = if is_live attempt.status then some (job, attempt) else none

abbrev pub fenced :
    ClaimedAttempt → Option Job → Option ProcessingAttempt → Option (Job × ProcessingAttempt)
fenced claimed none attempt = none
fenced claimed (some job) attempt = if matches job claimed then live_attempt job attempt else none

-- The job and the attempt of a claim, locked, if the claim still stands and the attempt is live.
unfoldable pub locked : ClaimedAttempt → Store → Option (Job × ProcessingAttempt)
locked claimed db =
    fenced claimed (Table.get claimed.job_id db.jobs) (Table.get claimed.attempt_id db.attempts)
