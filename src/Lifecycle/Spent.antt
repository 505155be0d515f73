-- ===== src/Lifecycle/Spent.antt =====
-- A claim that the fence no longer accepts, because the job was claimed again or because its
-- attempt ended, is never accepted again.
pub mod Ends
use rd_news.Prelude.{
  ℕ, suc, ◌≤◌, ◌<◌, String, ◌≡◌, ◌≢◌, refl, sym, ◌∙◌, ap, Bool, true, false, Option, none, some,
  List, arith, is_none, ◌==◌, ==_iff,
}
use mathlib.Core.Option.{some-injective}
use rd_news.Table
use rd_news.Model.Status.{is_claimed}
use rd_news.Model.Result.{Error, Result, ok, err, stale_attempt, guard, ◌>>◌}
use rd_news.Model.Job.{Job, ProcessingAttempt, ClaimedAttempt, PipelineRuntime}
use rd_news.Model.Store.{Store}
use rd_news.Pipeline.Fence.{locked, fenced}
use rd_news.Pipeline.Fence.Laws.{
  Held, locked-Held, matches-generation, fenced-not_claimed, fenced-superseded,
}
use rd_news.Pipeline.Claiming.{claim, claimed_job}
use rd_news.Pipeline.Claiming.Laws.{Claimed, claim-Claimed}
use rd_news.Pipeline.Finalizer.{mark_waiting, mark_locked, fail, fail_locked}
use rd_news.Pipeline.Applier.{Response, apply, apply_locked, failure, failed_response}
use rd_news.Lifecycle.Moves.{Moves, JobStep}
use rd_news.Lifecycle.Reach.{Reach, followed, claims, Reach-Moves}

-- The job has passed the claim's generation, or has it and no worker holds the job.
pub record Spent (c : ClaimedAttempt) (db : Store) : Type 0 where
  pub known : c.job_id < db.next_id
  pub job : Job
  pub there : Table.get c.job_id db.jobs ≡ some job
  pub passed : c.generation ≤ job.generation
  pub unheld : job.generation ≡ c.generation → is_claimed job.status ≡ false

-- Every transaction that a worker may end its attempt with: it is refused, or changes nothing.
pub record Refused (c : ClaimedAttempt) (db : Store) : Type 0 where
  pub wait :
      (runtime : PipelineRuntime) (raw_body : List ℕ)
      → mark_waiting runtime c raw_body db ≡ err stale_attempt
  pub failing :
      (runtime : PipelineRuntime) (now : ℕ) (error : Error) (hash : Option String)
      (raw_body : List ℕ) (retryable : Bool)
      → fail runtime now c error hash raw_body retryable db ≡ ok db
  pub result :
      (runtime : PipelineRuntime) (now : ℕ) (response : Response) (raw_body : List ℕ)
      (hash : Option String)
      → failure response ≡ none
      → apply runtime now c response raw_body hash db ≡ err stale_attempt

Spent-Moves : {c : ClaimedAttempt} {db db' : Store} → Moves db db' → Spent c db → Spent c db'
Spent-Moves {c} {db} {db'} moves s =
    let (job, there, step) = moves.rows c.job_id s.job s.known s.there in
    record {
      known = omega (arith, moves.ids, s.known);
      job = job;
      there = there;
      passed = omega (arith, step.generation, s.passed);
      unheld = λ e.
          let same : job.generation ≡ s.job.generation =
            omega (arith, e, step.generation, s.passed) in
          step.taken same (s.unheld (sym same ∙ e));
    }

Spent-locked : (c : ClaimedAttempt) (db : Store) → Spent c db → locked c db ≡ none
unfolding locked
Spent-locked c db s = rw s.there (go (s.job.generation == c.generation) refl)
  where
    go :
        (b : Bool)
        → (s.job.generation == c.generation) ≡ b
        → fenced c (some s.job) (Table.get c.attempt_id db.attempts) ≡ none
    go true e = fenced-not_claimed c s.job _ (s.unheld ((==_iff _ _).0 e))
    go false e = fenced-superseded c s.job _ (λ same. ground arith)

locked-Refused : (c : ClaimedAttempt) (db : Store) → locked c db ≡ none → Refused c db
unfolding mark_waiting fail apply
locked-Refused c db h = record {
  wait = λ runtime raw_body. rw h refl;
  failing = λ runtime now error hash raw_body retryable. rw h refl;
  result = λ runtime now response raw_body hash good. rw (good, h) refl;
}

pub Spent-Refused :
    (c : ClaimedAttempt) (db db' : Store) → Spent c db → Reach db db' → Refused c db'
Spent-Refused c db db' s r =
    locked-Refused c db' (Spent-locked c db' (Spent-Moves (Reach-Moves r) s))

-- A worker claims a job, whose id is one that the store gave out; after any transactions another
-- one, or the same, claims the same job. The second claim has the greater generation, and after any
-- further transactions the first claim is refused: it can neither wait for a callback, nor apply a
-- result, and its failure changes nothing.
pub claim-Refused :
    (runtime : PipelineRuntime) (now : ℕ) (db db₁ : Store) (c : ClaimedAttempt)
    (later_runtime : PipelineRuntime) (later : ℕ) (db₂ db₃ : Store) (d : ClaimedAttempt)
    (db₄ : Store)
    → claim runtime now db ≡ (some c, db₁)
    → c.job_id < db₁.next_id
    → Reach db₁ db₂
    → claim later_runtime later db₂ ≡ (some d, db₃)
    → d.job_id ≡ c.job_id
    → Reach db₃ db₄
    → (c.generation < d.generation) × Refused c db₄
claim-Refused runtime now db db₁ c later_runtime later db₂ db₃ d db₄ first known r second same r' =
    (newer, Spent-Refused c db₃ db₄ spent r')
  where
    o : Claimed runtime now db db₁ c
    o = claim-Claimed runtime now db db₁ c first

    p : Claimed later_runtime later db₂ db₃ d
    p = claim-Claimed later_runtime later db₂ db₃ d second

    held : Held d db₃ (claimed_job later_runtime later d.attempt_id p.job) p.attempt
    held = locked-Held d db₃ p.accepted

    newer : c.generation < d.generation
    newer =
        let was = (locked-Held c db₁ o.accepted).job_there in
        let (job, there, step) = (Reach-Moves r).rows c.job_id _ known was in
        let one_job : job ≡ p.job =
          some-injective _ _
            (sym there ∙ ap (λ i. Table.get i db₂.jobs) (sym same) ∙ p.was_there) in
        let gone : suc o.job.generation ≤ job.generation = step.generation in
        omega (arith, o.next_generation, p.next_generation, gone, ap (λ j. j.generation) one_job)

    spent : Spent c db₃
    spent =
        let g : suc p.job.generation ≡ d.generation = sym p.next_generation in
        record {
          known =
              omega
                (arith, known, (Reach-Moves (followed (claims later_runtime later second) r)).ids);
          job = claimed_job later_runtime later d.attempt_id p.job;
          there = ap (λ i. Table.get i db₃.jobs) (sym same) ∙ held.job_there;
          passed = omega (arith, newer, g);
          unheld = λ e. absurd (omega (arith, newer, g, e));
        }
