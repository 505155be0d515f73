-- ===== src/Pipeline/Claiming/Lease.antt =====
-- A job that a worker holds is not claimed before its lease or its callback's deadline is over.
use rd_news.Prelude.{
  ℕ, ◌+◌, ◌≤◌, ◌≡◌, ◌≢◌, refl, sym, ap, ◌∙◌, true, false, Option, none, some, List, arith, ==_iff,
}
use mathlib.Core.Path.{subst}
use mathlib.Core.Option.{some-injective}
use rd_news.Table
use rd_news.Table.Laws.{IsRow, first_by-select}
use rd_news.Model.Status.{is_pending}
use rd_news.Model.Result.{ok, ok-injective}
use rd_news.Model.Job.{Job, ProcessingAttempt, ClaimedAttempt, PipelineRuntime}
use rd_news.Model.Store.{Store}
use rd_news.Pipeline.Fence.{locked}
use rd_news.Pipeline.Fence.Laws.{locked-Held}
use rd_news.Pipeline.Claiming.{claim, claimable, next_claimable, claimed_job, job_before}
use rd_news.Pipeline.Claiming.Laws.{Claimed, claim-Claimed}
use rd_news.Pipeline.Finalizer.{mark_waiting, mark_locked, waiting_job}

-- The job of the row is leased until a time.
pub record LeasedUntil (k until : ℕ) (db : Store) : Type 0 where
  pub job : Job
  pub there : Table.get k db.jobs ≡ some job
  pub taken : is_pending job.status ≡ false
  pub lease : job.lease_until ≡ some until

held_back :
    (job : Job) (k now until : ℕ)
    → now ≤ until
    → is_pending job.status ≡ false
    → job.lease_until ≡ some until
    → claimable now k job ≡ true
    → ⊥
unfolding claimable
held_back job k now until early taken lease fits = ground arith

-- No claim takes the job of that row while it is leased.
pub LeasedUntil-not_next :
    (k until now : ℕ) (db : Store) (job : Job)
    → LeasedUntil k until db
    → now ≤ until
    → next_claimable now db ≢ some (k, job)
unfolding claimable
LeasedUntil-not_next k until now db job l early e =
    let row : IsRow (claimable now) db.jobs.row (k, job) =
      first_by-select job_before (claimable now) db.jobs (k, job) e in
    let same : l.job ≡ job = some-injective _ _ (sym l.there ∙ row.there) in
    let taken : is_pending job.status ≡ false =
      ap (λ j. is_pending j.status) (sym same) ∙ l.taken in
    let lease : job.lease_until ≡ some until = ap (λ j. j.lease_until) (sym same) ∙ l.lease in
    held_back job k now until early taken lease row.fits

leased_claim :
    (runtime : PipelineRuntime) (now : ℕ) (db after : Store) (c : ClaimedAttempt)
    → Claimed runtime now db after c
    → LeasedUntil c.job_id (now + runtime.lease_seconds) after
leased_claim runtime now db after c o = record {
  job = claimed_job runtime now c.attempt_id o.job;
  there = (locked-Held c after o.accepted).job_there;
  taken = refl;
  lease = refl;
}

-- The hand-over of an attempt to a callback leases the job until the deadline of the attempt.
leased_waiting :
    (runtime : PipelineRuntime) (c : ClaimedAttempt) (raw_body : List ℕ)
    (attempt : ProcessingAttempt) (db db' : Store)
    → mark_waiting runtime c raw_body db ≡ ok db'
    → Table.get c.attempt_id db.attempts ≡ some attempt
    → LeasedUntil c.job_id attempt.deadline_at db'
unfolding mark_waiting
leased_waiting runtime c raw_body attempt db db' e there = go (locked c db) refl e
  where
    go :
        (o : Option (Job × ProcessingAttempt))
        → locked c db ≡ o
        → mark_locked runtime c raw_body o db ≡ ok db'
        → LeasedUntil c.job_id attempt.deadline_at db'
    go none held e = cc
    go (some (was, other)) held e =
        let same : other ≡ attempt =
          some-injective _ _ (sym (locked-Held c db held).attempt_there ∙ there) in
        subst (λ a. LeasedUntil c.job_id a.deadline_at db') same
          (subst (LeasedUntil c.job_id other.deadline_at) (ok-injective e) (record {
            job = waiting_job other was;
            there = rw ((==_iff c.job_id c.job_id).1 refl) refl;
            taken = refl;
            lease = refl;
          }))

-- The lease of a row goes with the row.
LeasedUntil-kept :
    (k until : ℕ) (db later : Store)
    → LeasedUntil k until db
    → Table.get k later.jobs ≡ Table.get k db.jobs
    → LeasedUntil k until later
LeasedUntil-kept k until db later l kept = record {
  job = l.job;
  there = kept ∙ l.there;
  taken = l.taken;
  lease = l.lease;
}

-- A transaction that leases a job to a worker until a time: a claim, or the hand-over of an attempt
-- to a callback, which may come until the deadline of the attempt.
pub data Leasing (runtime : PipelineRuntime) (now : ℕ) (c : ClaimedAttempt) (db db' : Store)
    : ℕ → Type 0 where
  claimed :
      claim runtime now db ≡ (some c, db')
      → Leasing runtime now c db db' (now + runtime.lease_seconds)
  handed_over :
      (raw_body : List ℕ) (attempt : ProcessingAttempt)
      → mark_waiting runtime c raw_body db ≡ ok db'
      → Table.get c.attempt_id db.attempts ≡ some attempt
      → Leasing runtime now c db db' attempt.deadline_at

Leasing-LeasedUntil :
    (runtime : PipelineRuntime) (now until : ℕ) (c : ClaimedAttempt) (db db' : Store)
    → Leasing runtime now c db db' until
    → LeasedUntil c.job_id until db'
Leasing-LeasedUntil runtime now _ c db db' (claimed e) =
    leased_claim runtime now db db' c (claim-Claimed runtime now db db' c e)
Leasing-LeasedUntil runtime now _ c db db' (handed_over raw_body attempt e there) =
    leased_waiting runtime c raw_body attempt db db' e there

-- Whatever becomes of the rest of the store after a claim, or after the hand-over of an attempt to a
-- callback: as long as the row of the job stays as that left it, which the end of the attempt
-- changes, no worker gets the job before the lease, or the deadline of the attempt, is over.
pub lease-exclusive :
    (runtime : PipelineRuntime) (now until moment : ℕ) (c : ClaimedAttempt) (job : Job)
    (db db' later : Store)
    → Leasing runtime now c db db' until
    → Table.get c.job_id later.jobs ≡ Table.get c.job_id db'.jobs
    → moment ≤ until
    → next_claimable moment later ≢ some (c.job_id, job)
lease-exclusive runtime now until moment c job db db' later leasing kept early =
    LeasedUntil-not_next c.job_id until moment later job
      (LeasedUntil-kept c.job_id until db' later
        (Leasing-LeasedUntil runtime now until c db db' leasing) kept)
      early
