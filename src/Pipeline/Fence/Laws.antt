-- ===== src/Pipeline/Fence/Laws.antt =====
-- What the fence checks: a claim is accepted while its generation is the job's and a worker holds
-- it.
use rd_news.Prelude.{◌≡◌, ◌≢◌, true, false, Option, none, some, arith}
use rd_news.Table
use rd_news.Model.Status.{is_open, is_claimed, is_live}
use rd_news.Model.Job.{Job, ProcessingAttempt, ClaimedAttempt}
use rd_news.Model.Store.{Store}
use rd_news.Pipeline.Fence.{matches, locked, fenced}

-- What `locked` found.
pub record Held (claimed : ClaimedAttempt) (db : Store) (job : Job) (attempt : ProcessingAttempt)
    : Type 0 where
  pub job_there : Table.get claimed.job_id db.jobs ≡ some job
  pub attempt_there : Table.get claimed.attempt_id db.attempts ≡ some attempt
  pub stands : matches job claimed ≡ true
  pub live : is_live attempt.status ≡ true

fenced-some :
    (claimed : ClaimedAttempt) (o : Option Job) (p : Option ProcessingAttempt) (job : Job)
    (attempt : ProcessingAttempt)
    → fenced claimed o p ≡ some (job, attempt)
    → (o ≡ some job)
      × (p ≡ some attempt)
      × (matches job claimed ≡ true)
      × (is_live attempt.status ≡ true)
fenced-some claimed none p job attempt h = cc
fenced-some claimed (some j) none job attempt h = ground arith
fenced-some claimed (some j) (some a) job attempt h = ground arith

pub locked-Held :
    (claimed : ClaimedAttempt) (db : Store) {job : Job} {attempt : ProcessingAttempt}
    → locked claimed db ≡ some (job, attempt)
    → Held claimed db job attempt
unfolding locked
locked-Held claimed db h =
    let (j, a, m, l) =
      fenced-some claimed (Table.get claimed.job_id db.jobs)
        (Table.get claimed.attempt_id db.attempts) _ _ h in
    record { job_there = j; attempt_there = a; stands = m; live = l }

pub matches-claimed :
    (job : Job) (claimed : ClaimedAttempt)
    → matches job claimed ≡ true
    → is_claimed job.status ≡ true
unfolding matches
matches-claimed job claimed h = ground arith

pub matches-generation :
    (job : Job) (claimed : ClaimedAttempt)
    → matches job claimed ≡ true
    → job.generation ≡ claimed.generation
unfolding matches
matches-generation job claimed h = ground arith

pub claimed-open : (job : Job) → is_claimed job.status ≡ true → is_open job.status ≡ true
claimed-open job h = ground arith

pub fenced-not_claimed :
    (claimed : ClaimedAttempt) (job : Job) (p : Option ProcessingAttempt)
    → is_claimed job.status ≡ false
    → fenced claimed (some job) p ≡ none
unfolding matches
fenced-not_claimed claimed job p h = ground arith

pub fenced-superseded :
    (claimed : ClaimedAttempt) (job : Job) (p : Option ProcessingAttempt)
    → claimed.generation ≢ job.generation
    → fenced claimed (some job) p ≡ none
unfolding matches
fenced-superseded claimed job p h = ground arith
