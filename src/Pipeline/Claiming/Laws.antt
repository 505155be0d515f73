-- ===== src/Pipeline/Claiming/Laws.antt =====
-- What a successful claim says of the job and its attempt.
use rd_news.Prelude.{
  ℕ, suc, ◌+◌, ◌<◌, ◌≡◌, refl, ap, Bool, true, false, Option, none, some, arith, All, ==_iff, leb,
  if◌then◌else◌,
}
use mathlib.Core.Path.{subst₂}
use mathlib.Core.Option.{some-injective}
use rd_news.Table
use rd_news.Table.{select, first_by}
use rd_news.Table.Laws.{IsRow, first_by-select, first_by-least}
use rd_news.Model.Status.{AttemptStatus}
use rd_news.Model.Job.{Job, ProcessingAttempt, ClaimedAttempt, PipelineRuntime}
use rd_news.Model.Store.{Store, set_job}
use rd_news.Pipeline.Fence.{matches, locked}
use rd_news.Pipeline.Claiming.{
  claim, claim_job, claimable, next_claimable, claim_next, job_before, new_attempt, claimed_job,
  version_of, close_previous, start_attempt, exhausted_job,
}

-- The claim names a job that was claimable in `before` with attempts left, its next generation, and
-- an attempt that the fence accepts in `after`.
pub record Claimed (runtime : PipelineRuntime) (now : ℕ) (before after : Store) (c : ClaimedAttempt)
    : Type 0 where
  pub job : Job
  pub attempt : ProcessingAttempt
  pub was_there : Table.get c.job_id before.jobs ≡ some job
  pub was_claimable : claimable now c.job_id job ≡ true
  pub earliest :
      All (λ x. job_before x (c.job_id, job) ≡ false) (select (claimable now) before.jobs)
  pub attempts_left : job.attempt_count < job.max_attempts
  pub next_generation : c.generation ≡ suc job.generation
  pub accepted : locked c after ≡ some (claimed_job runtime now c.attempt_id job, attempt)
  pub fresh : c.attempt_id ≡ before.next_id
  pub running : attempt.status ≡ AttemptStatus.running
  pub deadline : attempt.deadline_at ≡ now + runtime.callback_timeout

close_previous-next_id :
    (now : ℕ) (k : Option ℕ) (db : Store) → (close_previous now k db).next_id ≡ db.next_id
close_previous-next_id now none db = refl
close_previous-next_id now (some k) db = ground arith

module _ (runtime : PipelineRuntime) (now : ℕ) where
  abbrev claim_of : ℕ → Job → Store → ClaimedAttempt
  claim_of id job db = record {
    job_id = id;
    attempt_id = db.next_id;
    generation = suc job.generation;
  }

  claim_of-matches :
      (id : ℕ) (job : Job) (db : Store)
      → matches (claimed_job runtime now db.next_id job) (claim_of id job db) ≡ true
  unfolding matches
  claim_of-matches id job db = ground arith

  claim_of-locked :
      (id : ℕ) (job : Job) (db : Store)
      → locked (claim_of id job db) (start_attempt runtime now id job db).1
        ≡ some (
          claimed_job runtime now db.next_id job,
          new_attempt runtime now id job (version_of job.news_id db),
        )
  unfolding locked
  claim_of-locked id job db =
      rw ((==_iff id id).1 refl, (==_iff db.next_id db.next_id).1 refl)
        (rw (claim_of-matches id job db) refl)

  start_attempt-Claimed :
      (id : ℕ) (job : Job) (db closed : Store)
      → Table.get id db.jobs ≡ some job
      → claimable now id job ≡ true
      → All (λ x. job_before x (id, job) ≡ false) (select (claimable now) db.jobs)
      → leb job.max_attempts job.attempt_count ≡ false
      → closed.next_id ≡ db.next_id
      → Claimed runtime now db (start_attempt runtime now id job closed).1 (claim_of id job closed)
  start_attempt-Claimed id job db closed there fits first left same = record {
    job = job;
    attempt = new_attempt runtime now id job (version_of job.news_id closed);
    was_there = there;
    was_claimable = fits;
    earliest = first;
    attempts_left = ground arith;
    next_generation = refl;
    accepted = claim_of-locked id job closed;
    fresh = same;
    running = refl;
    deadline = refl;
  }

  claim_job-Claimed :
      (id : ℕ) (job : Job) (db after : Store) (c : ClaimedAttempt)
      → Table.get id db.jobs ≡ some job
      → claimable now id job ≡ true
      → All (λ x. job_before x (id, job) ≡ false) (select (claimable now) db.jobs)
      → claim_job runtime now id job db ≡ (some c, after)
      → Claimed runtime now db after c
  unfolding claim_job
  claim_job-Claimed id job db after c there fits first e =
      go (leb job.max_attempts job.attempt_count) refl e
    where
      closed : Store
      closed = close_previous now job.current_attempt_id db

      go :
          (b : Bool)
          → leb job.max_attempts job.attempt_count ≡ b
          → (if b
              then (none, set_job id (exhausted_job now job) closed)
              else start_attempt runtime now id job closed)
            ≡ (some c, after)
          → Claimed runtime now db after c
      go true left e = cc
      go false left e =
          subst₂ (Claimed runtime now db) (ap (λ p. p.1) e) (some-injective _ _ (ap (λ p. p.0) e)) (
            start_attempt-Claimed id job db closed there fits first left
              (close_previous-next_id now job.current_attempt_id db))

job_before-asym : (x y : ℕ × Job) → job_before x y ≡ true → job_before y x ≡ false
job_before-asym x y h = ground arith

job_before-weak :
    (x y z : ℕ × Job) → job_before x y ≡ false → job_before y z ≡ false → job_before x z ≡ false
job_before-weak x y z h k = ground arith

job_before_irrefl : (x : ℕ × Job) → job_before x x ≡ false
job_before_irrefl x = ground arith

-- A claim that succeeds: the job was a classification job of the store that was due, with its lease
-- over if it had been claimed, and with attempts left; no claimable job comes before it in the
-- order of the query; it gets the next generation and a fresh running attempt with the callback's
-- deadline; and the fence accepts the claim in the new store.
pub claim-Claimed :
    (runtime : PipelineRuntime) (now : ℕ) (db after : Store) (c : ClaimedAttempt)
    → claim runtime now db ≡ (some c, after)
    → Claimed runtime now db after c
unfolding claim
claim-Claimed runtime now db after c e = go (next_claimable now db) refl e
  where
    go :
        (next : Option (ℕ × Job))
        → next_claimable now db ≡ next
        → claim_next runtime now next db ≡ (some c, after)
        → Claimed runtime now db after c
    go none f e = cc
    go (some (id, job)) f e =
        claim_job-Claimed runtime now id job db after c row.there row.fits
          (first_by-least job_before job_before-asym job_before-weak job_before_irrefl
            (select (claimable now) db.jobs) (id, job) f)
          e
      where
        row : IsRow (claimable now) db.jobs.row (id, job)
        row = first_by-select job_before (claimable now) db.jobs (id, job) f
