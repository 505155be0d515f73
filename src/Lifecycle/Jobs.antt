-- ===== src/Lifecycle/Jobs.antt =====
-- What holds of one job under any transactions.
use rd_news.Prelude.{ℕ, ◌≤◌, ◌<◌, ◌≡◌, true, false, some, arith}
use rd_news.Table
use rd_news.Model.Status.{JobKind, same_kind, is_open}
use rd_news.Model.Job.{Job}
use rd_news.Model.Store.{Store}
use rd_news.Lifecycle.Reach.{Reach, Reach-Moves}

-- A job with an id that the store gave out, and that succeeded, was given up or was cancelled,
-- stays as it is, to the last column, whatever claims, results, failures, callbacks and rounds of
-- the coordinator follow.
pub Reach-closed :
    (db db' : Store) (k : ℕ) (job : Job)
    → k < db.next_id
    → Table.get k db.jobs ≡ some job
    → is_open job.status ≡ false
    → Reach db db'
    → Table.get k db'.jobs ≡ some job
Reach-closed db db' k job small there closed r =
    let (job', there', step) = (Reach-Moves r).rows k job small there in
    rw (step.closed closed) at there'

-- A classification job, with an id that the store gave out, that is within its attempts, as a new
-- one is, is never lost, its generation never falls, and it never uses more attempts than it is
-- allowed.
pub Reach-attempts :
    (db db' : Store) (k : ℕ) (job : Job)
    → k < db.next_id
    → Table.get k db.jobs ≡ some job
    → same_kind job.kind JobKind.classification ≡ true
    → job.attempt_count ≤ job.max_attempts
    → Reach db db'
    → (job' : Job) × (Table.get k db'.jobs ≡ some job')
      × (job.generation ≤ job'.generation)
      × (job'.attempt_count ≤ job.max_attempts)
Reach-attempts db db' k job small there kind within r =
    let (job', there', step) = (Reach-Moves r).rows k job small there in
    (job', there', step.generation, omega (arith, step.counted kind within, step.allowed))
