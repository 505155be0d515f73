-- ===== src/Attachments/Claims.antt =====
-- What a successful claim of an attachment job says of the job and its attempt.
use mathlib.Core.Path.{subst₂}
use mathlib.Core.Option.{some-injective}
use rd_news.Prelude.{
  ℕ, suc, ◌+◌, ◌<◌, ◌≡◌, refl, ap, Bool, true, false, Option, none, some, arith, leb, ==_iff,
  if◌then◌else◌,
}
use rd_news.Table
use rd_news.Table.Laws.{IsRow, first_by-select}
use rd_news.Model.Status.{JobStatus, AttemptStatus}
use rd_news.Model.Job.{Job, ProcessingAttempt}
use rd_news.Model.Store.{Store, set_job}
use rd_news.Pipeline.Claiming.{version_of}
use rd_news.Attachments.{
  AttachmentClaim, AttachmentWorker, claim, claim_next, claim_job, claimable, next_claimable,
  job_before, start_on, start_attempt, claimed_job, new_attempt, close_previous, exhausted_job,
  attachment_of,
}
use rd_news.Attachments.Finishing.{matches}

-- A claim that succeeds.
pub record Started (worker : AttachmentWorker) (now : ℕ) (before after : Store)
    (c : AttachmentClaim) : Type 0 where
  pub job : Job
  pub job' : Job
  pub attempt' : ProcessingAttempt
  pub was_there : Table.get c.job_id before.jobs ≡ some job
  pub was_claimable : claimable now c.job_id job ≡ true
  pub attempts_left : job.attempt_count < job.max_attempts
  pub names : attachment_of job.payload.attachment_id ≡ some c.attachment_id
  pub next_generation : c.generation ≡ suc job.generation
  pub fresh : c.attempt_id ≡ before.next_id
  pub taken_id : after.next_id ≡ suc before.next_id
  pub job_there : Table.get c.job_id after.jobs ≡ some job'
  pub attempt_there : Table.get c.attempt_id after.attempts ≡ some attempt'
  pub accepted : matches job' c ≡ true
  pub running : (job'.status ≡ JobStatus.running) × (attempt'.status ≡ AttemptStatus.running)
  pub lease :
      (job'.lease_until ≡ some (now + worker.lease_seconds))
      × (attempt'.deadline_at ≡ now + worker.lease_seconds)

close_previous-next_id :
    (now : ℕ) (k : Option ℕ) (db : Store) → (close_previous now k db).next_id ≡ db.next_id
close_previous-next_id now none db = refl
close_previous-next_id now (some k) db = ground arith

module _ (worker : AttachmentWorker) (now : ℕ) (id : ℕ) (job : Job) where
  start_attempt-Started :
      (attachment_id : ℕ) (db closed : Store)
      → closed.next_id ≡ db.next_id
      → Table.get id db.jobs ≡ some job
      → claimable now id job ≡ true
      → leb job.max_attempts job.attempt_count ≡ false
      → attachment_of job.payload.attachment_id ≡ some attachment_id
      → Started worker now db (start_attempt worker now id job attachment_id closed).1 (record {
        job_id = id;
        attempt_id = closed.next_id;
        generation = suc job.generation;
        attachment_id = attachment_id;
      })
  unfolding matches
  start_attempt-Started attachment_id db closed same there fits left names = record {
    job = job;
    job' = claimed_job worker now closed.next_id job;
    attempt' = new_attempt worker now id job (version_of job.news_id closed);
    was_there = there;
    was_claimable = fits;
    attempts_left = ground arith;
    names = names;
    next_generation = refl;
    fresh = same;
    taken_id = ap suc same;
    job_there = rw ((==_iff id id).1 refl) refl;
    attempt_there = rw ((==_iff closed.next_id closed.next_id).1 refl) refl;
    accepted = ground arith;
    running = (refl, refl);
    lease = (refl, refl);
  }

  claim_job-Started :
      (db after : Store) (c : AttachmentClaim)
      → Table.get id db.jobs ≡ some job
      → claimable now id job ≡ true
      → claim_job worker now id job db ≡ (some c, after)
      → Started worker now db after c
  claim_job-Started db after c there fits e =
      go (leb job.max_attempts job.attempt_count) refl (attachment_of job.payload.attachment_id)
        refl e
    where
      go :
          (b : Bool)
          → leb job.max_attempts job.attempt_count ≡ b
          → (o : Option ℕ) → attachment_of job.payload.attachment_id ≡ o
          → (if b
              then (none, set_job id (exhausted_job now job) db)
              else start_on worker now id job o db)
            ≡ (some c, after)
          → Started worker now db after c
      go true left o names e = cc
      go false left none names e = cc
      go false left (some attachment_id) names e =
          subst₂ (Started worker now db) (ap (λ p. p.1) e) (some-injective _ _ (ap (λ p. p.0) e)) (
            start_attempt-Started attachment_id db (close_previous now job.current_attempt_id db)
              (close_previous-next_id now job.current_attempt_id db) there fits left names)

-- A claim of an attachment job: the job was due, with its lease over if it was running, it had
-- attempts left and named an attachment; it runs with the next generation and an attempt of
-- the next id that the store gives out, under one lease; and the claim is accepted in the new store.
pub claim-Started :
    (worker : AttachmentWorker) (now : ℕ) (db after : Store) (c : AttachmentClaim)
    → claim worker now db ≡ (some c, after)
    → Started worker now db after c
unfolding claim
claim-Started worker now db after c e = go (next_claimable now db) refl e
  where
    go :
        (next : Option (ℕ × Job))
        → next_claimable now db ≡ next
        → claim_next worker now next db ≡ (some c, after)
        → Started worker now db after c
    go none f e = cc
    go (some (id, job)) f e =
        let row : IsRow (claimable now) db.jobs.row (id, job) =
          first_by-select job_before (claimable now) db.jobs (id, job) f in
        claim_job-Started worker now id job db after c row.there row.fits e
