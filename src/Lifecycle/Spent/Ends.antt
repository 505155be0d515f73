-- ===== src/Lifecycle/Spent/Ends.antt =====
-- The attempt of a claim ends once: with a result, or with a failure.
use rd_news.Prelude.{
  ℕ, ◌<◌, String, ◌≡◌, refl, ◌∙◌, Bool, true, false, Option, none, some, List, arith, is_none,
  ==_iff,
}
use mathlib.Core.Path.{subst}
use rd_news.Table
use rd_news.Model.Status.{is_claimed}
use rd_news.Model.Result.{Error, Result, ok, err, ok-injective, stale_attempt, guard, ◌>>◌}
use rd_news.Model.Job.{Job, ProcessingAttempt, ClaimedAttempt, PipelineRuntime}
use rd_news.Model.News.{News}
use rd_news.Model.Taxonomy.{Classifier}
use rd_news.Model.Store.{Store, set_job}
use rd_news.Pipeline.Fence.{locked}
use rd_news.Pipeline.Fence.Laws.{locked-Held, matches-generation}
use rd_news.Pipeline.Finalizer.{fail, failed_job, Token, check_token}
use rd_news.Pipeline.Applier.{
  Response, apply, apply_locked, apply_with, apply_labels, apply_registered, failure,
  failed_response, is_current, is_registered, wrong_identity, store_labels, normalized,
}
use rd_news.Lifecycle.Spent.{Spent, Refused, Spent-Refused}
use rd_news.Lifecycle.Moves.{MovesOk-Moves}
use rd_news.Lifecycle.Reach.{Reach}
use rd_news.Lifecycle.Pipeline.{fail-MovesOk, apply-MovesOk}

failed_job-unheld :
    (runtime : PipelineRuntime) (now : ℕ) (error : Error) (retryable : Bool) (job : Job)
    → (is_claimed (failed_job runtime now error retryable job).status ≡ false)
      × ((failed_job runtime now error retryable job).generation ≡ job.generation)
failed_job-unheld runtime now error retryable job = (ground arith, ground arith)

-- The job of the claim is left with the claim's generation and without a worker.
record Left (c : ClaimedAttempt) (db : Store) : Type 0 where
  job : Job
  there : Table.get c.job_id db.jobs ≡ some job
  generation : job.generation ≡ c.generation
  unheld : is_claimed job.status ≡ false

Left-Spent : {c : ClaimedAttempt} {db : Store} → c.job_id < db.next_id → Left c db → Spent c db
Left-Spent known l = record {
  known = known;
  job = l.job;
  there = l.there;
  passed = omega (arith, l.generation);
  unheld = λ e. l.unheld;
}

set_job-Left :
    (c : ClaimedAttempt) (job : Job) (db : Store)
    → job.generation ≡ c.generation
    → is_claimed job.status ≡ false
    → Left c (set_job c.job_id job db)
set_job-Left c job db g u = record {
  job = job;
  there = rw ((==_iff c.job_id c.job_id).1 refl) refl;
  generation = g;
  unheld = u;
}

-- What a result leaves behind, if there is one.
abbrev LeftOk : ClaimedAttempt → Result Store → Type 0
LeftOk c (ok db) = Left c db
LeftOk c (err e) = Unit

LeftOk-Left :
    {c : ClaimedAttempt} {db : Store} (r : Result Store) → LeftOk c r → r ≡ ok db → Left c db
LeftOk-Left {c} (ok x) l e = subst (Left c) (ok-injective e) l
LeftOk-Left (err x) l e = cc

guard-LeftOk :
    (c : ClaimedAttempt) (b : Bool) (e : Error) (r : Result Store)
    → LeftOk c r
    → LeftOk c (guard b e >> r)
guard-LeftOk c true e r l = l
guard-LeftOk c false e r l = tt

module _ (runtime : PipelineRuntime) (now : ℕ) (c : ClaimedAttempt) (raw_body : List ℕ)
    (db : Store) where
  fail-Left :
      (error : Error) (hash : Option String) (retryable : Bool) {job : Job}
      {attempt kept : ProcessingAttempt} {db' : Store}
      → locked c db ≡ some (job, attempt)
      → check_token now hash attempt ≡ Token.accepted kept
      → fail runtime now c error hash raw_body retryable db ≡ ok db'
      → Left c db'
  unfolding fail
  fail-Left error hash retryable {job} {attempt} {kept} {db'} held token e =
      let (unheld, same) = failed_job-unheld runtime now error retryable job in
      LeftOk-Left _
        (set_job-Left c (failed_job runtime now error retryable job) _
          (same ∙ matches-generation job c (locked-Held c db held).stands) unheld)
        (rw token at (rw held at e))

  module _ (response : Response) (hash : Option String) where
    apply_labels-LeftOk :
        (job : Job) (attempt : ProcessingAttempt) (news_id : ℕ) (news : Option News)
        (classifier : Option Classifier)
        → job.generation ≡ c.generation
        → LeftOk c
            (apply_labels runtime now c response raw_body job attempt news_id news classifier db)
    unfolding apply_labels
    apply_labels-LeftOk job attempt news_id none classifier g = tt
    apply_labels-LeftOk job attempt news_id (some news) none g = tt
    apply_labels-LeftOk job attempt news_id (some news) (some classifier) g =
        guard-LeftOk c (is_current news job attempt) stale_attempt
          (apply_registered runtime now c response raw_body job attempt news_id news classifier db)
          (guard-LeftOk c (is_registered response classifier) wrong_identity
            (ok (
              store_labels runtime now c response raw_body job attempt news_id news classifier
                (normalized classifier response db) db))
            (set_job-Left c _ _ g refl))

    apply_with-LeftOk :
        (job : Job) (token : Token)
        → job.generation ≡ c.generation
        → LeftOk c (apply_with runtime now c response raw_body job token db)
    apply_with-LeftOk job (Token.refused e) g = tt
    apply_with-LeftOk job Token.repeated g = tt
    apply_with-LeftOk job (Token.accepted attempt) g = apply_labels-LeftOk job attempt _ _ _ g

    apply_locked-LeftOk :
        (o : Option (Job × ProcessingAttempt))
        → locked c db ≡ o
        → LeftOk c (apply_locked runtime now c response raw_body hash o db)
    apply_locked-LeftOk none e = tt
    apply_locked-LeftOk (some (job, attempt)) e =
        apply_with-LeftOk job (check_token now hash attempt)
          (matches-generation job c (locked-Held c db e).stands)

    apply-Left : {db' : Store} → apply runtime now c response raw_body hash db ≡ ok db' → Left c db'
    unfolding apply
    apply-Left e =
        LeftOk-Left _
          (guard-LeftOk c (is_none (failure response)) failed_response
            (apply_locked runtime now c response raw_body hash (locked c db) db)
            (apply_locked-LeftOk (locked c db) refl))
          e

-- A result that is applied ends the attempt of its claim, for a job whose id the store gave out:
-- after any further transactions no second result, failure or wait of the claim is accepted.
apply-Refused :
    (runtime : PipelineRuntime) (now : ℕ) (c : ClaimedAttempt) (response : Response)
    (raw_body : List ℕ) (hash : Option String) (db db' later : Store)
    → c.job_id < db.next_id
    → apply runtime now c response raw_body hash db ≡ ok db'
    → Reach db' later
    → Refused c later
apply-Refused runtime now c response raw_body hash db db' later known e r =
    Spent-Refused c db' later
      (Left-Spent
        (omega (
          arith,
          known,
          (MovesOk-Moves db _ (apply-MovesOk runtime now c raw_body hash db response) e).ids,
        ))
        (apply-Left runtime now c raw_body db response hash e))
      r

-- A failure that a worker or a callback reports while the fence accepts its claim, and the
-- attempt the token of the callback, also one that leaves the job
-- to be tried again, ends the attempt, for a job whose id the store gave out: after any further
-- transactions no result, failure or wait of the claim is accepted.
fail-Refused :
    (runtime : PipelineRuntime) (now : ℕ) (c : ClaimedAttempt) (error : Error) (raw_body : List ℕ)
    (hash : Option String) (retryable : Bool) (job : Job) (attempt kept : ProcessingAttempt)
    (db db' later : Store)
    → c.job_id < db.next_id
    → locked c db ≡ some (job, attempt)
    → check_token now hash attempt ≡ Token.accepted kept
    → fail runtime now c error hash raw_body retryable db ≡ ok db'
    → Reach db' later
    → Refused c later
fail-Refused runtime now c error raw_body hash retryable job attempt kept db db' later known held
      token e r =
    Spent-Refused c db' later
      (Left-Spent
        (omega (
          arith,
          known,
          (MovesOk-Moves db _ (fail-MovesOk runtime now c raw_body hash db error retryable) e).ids,
        ))
        (fail-Left runtime now c raw_body db error hash retryable held token e))
      r

-- A transaction that ends the attempt of a claim: a result that is applied, or a failure that is
-- reported, by a worker or a callback, while the fence accepts the claim and the attempt the token
-- of the callback, also one that leaves the job to be tried again.
pub data Ending (runtime : PipelineRuntime) (now : ℕ) (c : ClaimedAttempt) (db db' : Store)
    : Type 0 where
  applied :
      (response : Response) (raw_body : List ℕ) (hash : Option String)
      → apply runtime now c response raw_body hash db ≡ ok db'
      → Ending runtime now c db db'
  failed :
      (error : Error) (raw_body : List ℕ) (hash : Option String) (retryable : Bool) (job : Job)
      (attempt kept : ProcessingAttempt)
      → locked c db ≡ some (job, attempt)
      → check_token now hash attempt ≡ Token.accepted kept
      → fail runtime now c error hash raw_body retryable db ≡ ok db'
      → Ending runtime now c db db'

-- Once a claim has ended, by a result that was applied or by a failure that the fence accepted,
-- reported by a worker or by a callback with a token that was accepted, for a job whose id the store
-- gave out, no result, failure or wait of the claim is accepted any more,
-- after any further transactions.
pub end-Refused :
    (runtime : PipelineRuntime) (now : ℕ) (c : ClaimedAttempt) (db db' later : Store)
    → c.job_id < db.next_id
    → Ending runtime now c db db'
    → Reach db' later
    → Refused c later
end-Refused runtime now c db db' later known (applied response raw_body hash e) r =
    apply-Refused runtime now c response raw_body hash db db' later known e r
end-Refused runtime now c db db' later known
      (failed error raw_body hash retryable job attempt kept held token e) r =
    fail-Refused runtime now c error raw_body hash retryable job attempt kept db db' later known
      held token e r
