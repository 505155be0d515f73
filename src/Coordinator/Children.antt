-- ===== src/Coordinator/Children.antt =====
-- The children of a pipeline run: the jobs that it starts, and the wait for them.

use mathlib.Core.Option.{some-injective}
use rd_news.Prelude.{
  ℕ, suc, ◌≤◌, ◌<◌, ◌≡◌, refl, sym, ◌∙◌, ap, Bool, true, false, ◌&&◌, Option, none, some, List, [],
  ◌∷◌, arith, All, any_of-All, map, ◌==◌, ==_iff, if◌then◌else◌,
}
use rd_news.Table
use rd_news.Model.Status.{is_open, is_succeeded}
use rd_news.Model.Result.{ok, ok-injective}
use rd_news.Model.Job.{Job, id_text}
use rd_news.Model.News.{News}
use rd_news.Model.Store.{Store, set_job, set_news, add_job, add_attempt}
use rd_news.Coordinator.{
  Coordinator, add_jobs, attachment_job, pending_attachments, start_on, started_parent,
  started_news, pipeline_attempt, dead,
}
use rd_news.Coordinator.Ending.{finish, failed_children, is_empty_list}
use rd_news.Coordinator.Advance.{
  advance, advance_with, child_ids, children_of, any_open, postponed, is_attachments,
  start_classifiers,
}
use rd_news.Lifecycle.Coordinator.{add_jobs-Moves}

-- Each job is the row of its id, and the ids are new.
abbrev pub Rows : ℕ → List ℕ → List Job → (ℕ → Option Job) → Type 0
Rows bound [] [] row = Unit
Rows bound (i ∷ ids) (job ∷ jobs) row = (bound ≤ i) × (row i ≡ some job) × Rows bound ids jobs row
Rows bound _ _ row = ⊥

Rows-below :
    (low high : ℕ) (ids : List ℕ) (jobs : List Job) (row : ℕ → Option Job)
    → low ≤ high
    → Rows high ids jobs row
    → Rows low ids jobs row
Rows-below low high [] [] row h r = tt
Rows-below low high [] (job ∷ jobs) row h r = elim r [ ]
Rows-below low high (i ∷ ids) [] row h r = elim r [ ]
Rows-below low high (i ∷ ids) (job ∷ jobs) row h r =
    (omega (arith, h, r.0), r.1, Rows-below low high ids jobs row h r.2)

Rows-set_job :
    (k : ℕ) (new : Job) (bound : ℕ) (ids : List ℕ) (jobs : List Job) (db : Store)
    → k < bound
    → Rows bound ids jobs db.jobs.row
    → Rows bound ids jobs (set_job k new db).jobs.row
Rows-set_job k new bound [] [] db h r = tt
Rows-set_job k new bound [] (job ∷ jobs) db h r = elim r [ ]
Rows-set_job k new bound (i ∷ ids) [] db h r = elim r [ ]
Rows-set_job k new bound (i ∷ ids) (job ∷ jobs) db h r =
    let other : (k == i) ≡ false = ground arith in
    (r.0, rw other r.1, Rows-set_job k new bound ids jobs db h r.2)

add_jobs-Rows :
    (jobs : List Job) (db : Store)
    → Rows db.next_id (add_jobs jobs db).0 jobs (add_jobs jobs db).1.jobs.row
unfolding add_jobs
add_jobs-Rows [] db = tt
add_jobs-Rows (job ∷ rest) db =
    let (moves, rows) = add_jobs-Moves rest (add_job job db) in
    (
      omega arith,
      rows db.next_id (omega arith) ∙ rw ((==_iff db.next_id db.next_id).1 refl) refl,
      Rows-below db.next_id (suc db.next_id) _ rest _ (omega arith)
          (add_jobs-Rows rest (add_job job db)),
    )

child_ids-id_text : (ids : List ℕ) → child_ids (map id_text ids) ≡ some ids
unfolding child_ids
child_ids-id_text [] = refl
child_ids-id_text (i ∷ ids) = rw (child_ids-id_text ids) refl

-- The start of a run, by a job whose id the store gave out, creates one job for each attachment
-- that is still to be fetched, and the run's list of children, as the next round reads it, is the
-- list of these jobs.
pub start_on-Rows :
    (c : Coordinator) (now k : ℕ) (job : Job) (news_id : ℕ) (news : News) (version_id : ℕ)
    (db : Store)
    → k < db.next_id
    → let db' = start_on c now k job news_id news version_id db in
      (parent : Job) × (ids : List ℕ) × (Table.get k db'.jobs ≡ some parent)
      × (child_ids parent.payload.children ≡ some ids)
      × Rows db.next_id ids
          (map
            (λ (a, x). attachment_job c now news_id db.next_id a x)
            (pending_attachments news_id db))
          db'.jobs.row
unfolding start_on
start_on-Rows c now k job news_id news version_id db small =
    let begun =
      set_news news_id (started_news db.next_id news)
        (add_attempt (pipeline_attempt c now k job news_id version_id) db) in
    let added =
      add_jobs
        (map (λ (a, x). attachment_job c now news_id db.next_id a x)
          (pending_attachments news_id db))
        begun in
    (
      started_parent c now db.next_id added.0 job,
      added.0,
      rw ((==_iff k k).1 refl) refl,
      child_ids-id_text added.0,
      Rows-set_job k _ db.next_id _ _ added.1 small
          (Rows-below db.next_id (suc db.next_id) _ _ _ (omega arith) (add_jobs-Rows _ begun)),
    )

-- A store whose job was set to one that has not succeeded.
not_done :
    (k : ℕ) (kept : Job) (db db' : Store) (job' : Job)
    → is_succeeded kept.status ≡ false
    → ok (set_job k kept db) ≡ ok db'
    → Table.get k db'.jobs ≡ some job'
    → is_succeeded job'.status ≡ true
    → ⊥
not_done k kept db db' job' still e there done =
    let here : Table.get k (set_job k kept db).jobs ≡ some kept = rw ((==_iff k k).1 refl) refl in
    let same : kept ≡ job' =
      some-injective _ _ (sym here ∙ ap (λ s. Table.get k s.jobs) (ok-injective e) ∙ there) in
    let state = ap (λ j. is_succeeded j.status) same in cc

open_not_done : (job : Job) → is_open job.status ≡ true → is_succeeded job.status ≡ false
open_not_done job h = ground arith

-- A round that ends a run with success found every child of the run closed: the run waits for its
-- children, however many rounds come before.
pub advance-waits :
    (c : Coordinator) (now k : ℕ) (job : Job) (db db' : Store) (job' : Job)
    → is_open job.status ≡ true
    → advance c now k job db ≡ ok db'
    → Table.get k db'.jobs ≡ some job'
    → is_succeeded job'.status ≡ true
    → (ids : List ℕ) × (child_ids job.payload.children ≡ some ids)
      × All (λ x. is_open x.1.status ≡ false) (children_of ids db)
unfolding advance
advance-waits c now k job db db' job' open_job e there done =
    go (child_ids job.payload.children) refl e
  where
    go_open :
        (ids : List ℕ) (b : Bool)
        → any_open (children_of ids db) ≡ b
        → (if b
            then ok (set_job k (postponed c now job) db)
            else if is_attachments job.payload.stage
                && is_empty_list (failed_children (children_of ids db))
            then start_classifiers c now k job db
            else ok (finish now k job (children_of ids db) db))
          ≡ ok db'
        → All (λ x. is_open x.1.status ≡ false) (children_of ids db)
    go_open ids true f e =
        absurd
          (not_done k (postponed c now job) db db' job' (open_not_done job open_job) e there done)
    go_open ids false f e = any_of-All (λ x. is_open x.1.status) _ f

    go :
        (o : Option (List ℕ))
        → child_ids job.payload.children ≡ o
        → elim o [
          | none ↦ ok (set_job k (dead now "pipeline child list is invalid" job) db)
          | some ids ↦ advance_with c now k job (children_of ids db) db
        ]
          ≡ ok db'
        → (ids : List ℕ) × (o ≡ some ids)
          × All (λ x. is_open x.1.status ≡ false) (children_of ids db)
    go none f e =
        absurd
          (not_done k (dead now "pipeline child list is invalid" job) db db' job' refl e there done)
    go (some ids) f e = (ids, refl, go_open ids (any_open (children_of ids db)) refl e)
