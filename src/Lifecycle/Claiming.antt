-- ===== src/Lifecycle/Claiming.antt =====
-- A claim moves every job by a step.
use rd_news.Prelude.{ℕ, ◌≡◌, refl, Bool, true, false, Option, none, some, arith, leb, if◌then◌else◌}
use rd_news.Table
use rd_news.Table.Laws.{IsRow, first_by-select}
use rd_news.Model.Status.{is_open}
use rd_news.Model.Job.{Job, PipelineRuntime}
use rd_news.Model.Store.{Store, set_job}
use rd_news.Pipeline.Claiming.{
  claim, claim_job, claim_next, claimable, next_claimable, job_before, close_previous, claimed_job,
  exhausted_job, start_attempt,
}
use rd_news.Lifecycle.Moves.{set_job-Moves, JobStep, Moves, Moves-refl, Moves-trans, Moves-same}

claimed_job-JobStep :
    (runtime : PipelineRuntime) (now k : ℕ) (job : Job)
    → is_open job.status ≡ true
    → leb job.max_attempts job.attempt_count ≡ false
    → JobStep job (claimed_job runtime now k job)
claimed_job-JobStep runtime now k job h left = record {
  generation = omega arith;
  taken = λ e c. absurd (omega arith);
  closed = λ c. cc;
  counted = λ _ _. ground arith;
  kind = refl;
  allowed = refl;
}

exhausted_job-JobStep :
    (now : ℕ) (job : Job) → is_open job.status ≡ true → JobStep job (exhausted_job now job)
exhausted_job-JobStep now job h = record {
  generation = omega arith;
  taken = λ e c. refl;
  closed = λ c. cc;
  counted = λ _ a. a;
  kind = refl;
  allowed = refl;
}

claimable-open : (now k : ℕ) (job : Job) → claimable now k job ≡ true → is_open job.status ≡ true
unfolding claimable
claimable-open now k job h = ground arith

close_previous-jobs :
    (now : ℕ) (k : Option ℕ) (db : Store)
    → ((close_previous now k db).jobs ≡ db.jobs) × ((close_previous now k db).next_id ≡ db.next_id)
close_previous-jobs now none db = (refl, refl)
close_previous-jobs now (some k) db = (ground arith, ground arith)

module _ (runtime : PipelineRuntime) (now : ℕ) where
  start_attempt-Moves :
      (id : ℕ) (job : Job) (db closed : Store)
      → Table.get id db.jobs ≡ some job
      → is_open job.status ≡ true
      → leb job.max_attempts job.attempt_count ≡ false
      → closed.jobs ≡ db.jobs
      → closed.next_id ≡ db.next_id
      → Moves db (start_attempt runtime now id job closed).1
  start_attempt-Moves id job db closed there open_job left same ids =
      Moves-trans (Moves-same db closed same (omega arith)) (
        set_job-Moves id job _ closed _ (rw same there)
          (claimed_job-JobStep runtime now closed.next_id job open_job left) refl (omega arith))

  claim_job-Moves :
      (id : ℕ) (job : Job) (db : Store)
      → Table.get id db.jobs ≡ some job
      → is_open job.status ≡ true
      → Moves db (claim_job runtime now id job db).1
  unfolding claim_job
  claim_job-Moves id job db there open_job = go (leb job.max_attempts job.attempt_count) refl
    where
      closed : Store
      closed = close_previous now job.current_attempt_id db

      same : (closed.jobs ≡ db.jobs) × (closed.next_id ≡ db.next_id)
      same = close_previous-jobs now job.current_attempt_id db

      go :
          (b : Bool)
          → leb job.max_attempts job.attempt_count ≡ b
          → Moves db
              (if b
                then (none, set_job id (exhausted_job now job) closed)
                else start_attempt runtime now id job closed).1
      go true left =
          set_job-Moves id job _ db closed there (exhausted_job-JobStep now job open_job) same.0
            (omega (arith, same.1))
      go false left = start_attempt-Moves id job db closed there open_job left same.0 same.1

  pub claim-Moves : (db : Store) → Moves db (claim runtime now db).1
  unfolding claim
  claim-Moves db = go (next_claimable now db) refl
    where
      go :
          (next : Option (ℕ × Job))
          → next_claimable now db ≡ next
          → Moves db (claim_next runtime now next db).1
      go none f = Moves-refl db
      go (some (id, job)) f =
          let row : IsRow (claimable now) db.jobs.row (id, job) =
            first_by-select job_before (claimable now) db.jobs (id, job) f in
          claim_job-Moves id job db row.there (claimable-open now id job row.fits)
