-- ===== src/Lifecycle/Coordinator.antt =====
-- The transactions of the coordinator move every job by a step.
use mathlib.Core.Path.{subst}
use rd_news.Prelude.{
  ℕ, ◌≤◌, ◌<◌, String, ◌≡◌, refl, ◌∙◌, ap, Bool, true, false, ◌&&◌, ◌||◌, Option, none, some, List,
  [], ◌∷◌, arith, is_none, map, if◌then◌else◌,
}
use rd_news.Table
use rd_news.Table.Laws.{IsRow, first_by-select}
use rd_news.Model.Status.{JobKind, same_kind, is_open, is_claimed, is_pending}
use rd_news.Model.Result.{Result, ok, err, ok-injective, ◌>>=◌}
use rd_news.Model.Job.{Job}
use rd_news.Model.News.{News}
use rd_news.Model.Taxonomy.{Classifier}
use rd_news.Model.Store.{Store, set_job, set_news, add_job, add_attempt}
use rd_news.Coordinator.{
  Coordinator, advanceable, next_parent, job_before, dead, add_jobs, started_parent, start_on,
  start_news, start, attachment_job, started_news, pipeline_attempt, pending_attachments,
}
use rd_news.Coordinator.Ending.{
  finish, finish_found, Current, finished_parent, cancelled, current_of, auto_publish_allowed,
  failed_children, is_empty_list,
}
use rd_news.Coordinator.Advance.{
  start_classifiers, classify_on, add_classifications, classifying_parent, enabled_classifiers,
  has_private_source, child_ids, children_of, any_open, is_attachments, postponed, advance_with,
  advance, advance_parent, advance_one, advance_next, done,
}
use rd_news.Lifecycle.Moves.{
  Moves-jobs, add_job-row, JobStep, Moves, Moves-refl, Moves-trans, Moves-same, Moves-set_job,
  Moves-set_job_after, Moves-add_job, MovesOk,
}

-- The job is one that the coordinator may advance.
record Parent (k : ℕ) (job : Job) (db : Store) : Type 0 where
  there : Table.get k db.jobs ≡ some job
  open_job : is_open job.status ≡ true
  pipeline : same_kind job.kind JobKind.classification ≡ false

-- A step of such a job to one that no worker holds.
to_unheld :
    (job job' : Job)
    → is_open job.status ≡ true
    → same_kind job.kind JobKind.classification ≡ false
    → job.generation ≤ job'.generation
    → is_claimed job'.status ≡ false
    → job'.kind ≡ job.kind
    → job'.max_attempts ≡ job.max_attempts
    → JobStep job job'
to_unheld job job' open_job pipeline grows unheld kind allowed = record {
  generation = grows;
  taken = λ _ _. unheld;
  closed = λ c. cc;
  counted = λ k _. cc;
  kind = kind;
  allowed = allowed;
}

pub add_jobs-Moves :
    (jobs : List Job) (db : Store)
    → Moves db (add_jobs jobs db).1
      × ((i : ℕ) → i < db.next_id → Table.get i (add_jobs jobs db).1.jobs ≡ Table.get i db.jobs)
unfolding add_jobs
add_jobs-Moves [] db = (Moves-refl db, λ i small. refl)
add_jobs-Moves (job ∷ rest) db =
    let (moves, rows) = add_jobs-Moves rest (add_job job db) in
    (
      Moves-trans (Moves-add_job job db) moves,
      λ i small. rows i (omega arith) ∙ add_job-row job db i small,
    )

module _ (now k : ℕ) (job : Job) (db : Store) (p : Parent k job db) where
  to_dead : (reason : String) → Moves db (set_job k (dead now reason job) db)
  to_dead reason =
      Moves-set_job k job (dead now reason job) db (λ _. p.there)
        (to_unheld job _ p.open_job p.pipeline (omega arith) refl refl refl)

  finish-Moves : (children : List (ℕ × Job)) → Moves db (finish now k job children db)
  unfolding finish
  finish-Moves children = go (
      current_of job.news_id job.current_attempt_id (Table.get_opt job.news_id db.news)
        (Table.get_opt job.current_attempt_id db.attempts))
    where
      go : (o : Option Current) → Moves db (finish_found now k job children o db)
      go none =
          Moves-set_job k job (cancelled now job) db (λ _. p.there)
            (to_unheld job _ p.open_job p.pipeline (omega arith) refl refl refl)
      go (some r) =
          let can_publish =
            is_empty_list (failed_children children) && auto_publish_allowed r.news_id db in
          Moves-jobs (set_job k (finished_parent now children can_publish job) db)
            (Moves-set_job k job _ db (λ _. p.there)
              (to_unheld job _ p.open_job p.pipeline (omega arith) refl refl refl))
            refl (omega arith)

  module _ (c : Coordinator) where
    start_on-Moves :
        (news_id : ℕ) (news : News) (version_id : ℕ)
        → Moves db (start_on c now k job news_id news version_id db)
    unfolding start_on
    start_on-Moves news_id news version_id =
        let begun =
          set_news news_id (started_news db.next_id news)
            (add_attempt (pipeline_attempt c now k job news_id version_id) db) in
        let jobs =
          map (λ (j, a). attachment_job c now news_id db.next_id j a)
            (pending_attachments news_id db) in
        let (moves, rows) = add_jobs-Moves jobs begun in
        Moves-set_job_after k job (started_parent c now db.next_id (add_jobs jobs begun).0 job) db
          (add_jobs jobs begun).1 (Moves-trans (Moves-same db begun refl (omega arith)) moves)
          p.there (to_unheld job _ p.open_job p.pipeline (omega arith) refl refl refl)

    start-Moves : Moves db (start c now k job db)
    unfolding start
    start-Moves = go job.news_id
      where
        missing : String
        missing = "pipeline news or version is missing"

        with_version :
            (news_id : ℕ) (news : News) (v : Option ℕ)
            → Moves db (elim v [
              | none ↦ set_job k (dead now "pipeline news or version is missing" job) db
              | some version_id ↦ start_on c now k job news_id news version_id db
            ])
        with_version news_id news none = to_dead "pipeline news or version is missing"
        with_version news_id news (some version_id) = start_on-Moves news_id news version_id

        with_news : (news_id : ℕ) (o : Option News) → Moves db (start_news c now k job news_id o db)
        with_news news_id none = to_dead "pipeline news or version is missing"
        with_news news_id (some news) = with_version news_id news news.current_version_id

        go :
            (o : Option ℕ)
            → Moves db (elim o [
              | none ↦ set_job k (dead now "pipeline job has no news" job) db
              | some news_id ↦ start_news c now k job news_id (Table.get news_id db.news) db
            ])
        go none = to_dead "pipeline job has no news"
        go (some news_id) = with_news news_id (Table.get news_id db.news)

    kept_status :
        (job' : Job)
        → job'.status ≡ job.status
        → job'.generation ≡ job.generation
        → job'.attempt_count ≡ job.attempt_count
        → job'.kind ≡ job.kind
        → job'.max_attempts ≡ job.max_attempts
        → JobStep job job'
    kept_status job' s g n kind allowed = record {
      generation = omega (arith, g);
      taken = λ e h. rw s h;
      closed = λ h. let o = p.open_job in cc;
      counted = λ k h. let q = p.pipeline in cc;
      kind = kind;
      allowed = allowed;
    }

    classified-MovesOk :
        (news_id : ℕ) (a : Option ℕ) (xs : List (ℕ × Classifier))
        → MovesOk db (do
          (children, db') ← add_classifications c now k news_id a xs db
          ok (set_job k (classifying_parent c now children job) db'))
    classified-MovesOk news_id a [] =
        Moves-set_job_after k job _ db db (Moves-refl db) p.there
          (kept_status _ refl refl refl refl refl)
    classified-MovesOk news_id none (x ∷ xs) = tt
    classified-MovesOk news_id (some attempt_id) (x ∷ xs) =
        Moves-set_job_after k job _ db _ (add_jobs-Moves _ db).0 p.there
          (kept_status _ refl refl refl refl refl)

    classify_on-MovesOk : (news_id : ℕ) → MovesOk db (classify_on c now k job news_id db)
    classify_on-MovesOk news_id = go (has_private_source news_id db)
      where
        go :
            (b : Bool)
            → MovesOk db (
                if b then ok (finish now k job [] db) else do
                  (children, db') ←
                      add_classifications c now k news_id job.payload.pipeline_attempt_id
                        (enabled_classifiers db)
                        db
                  ok (set_job k (classifying_parent c now children job) db'))
        go true = finish-Moves []
        go false =
            classified-MovesOk news_id job.payload.pipeline_attempt_id (enabled_classifiers db)

    start_classifiers-MovesOk : MovesOk db (start_classifiers c now k job db)
    unfolding start_classifiers
    start_classifiers-MovesOk = go job.news_id
      where
        go :
            (o : Option ℕ)
            → MovesOk db (elim o [
              | none ↦ ok (set_job k (dead now "pipeline news is missing" job) db)
              | some news_id ↦ classify_on c now k job news_id db
            ])
        go none = to_dead "pipeline news is missing"
        go (some news_id) = classify_on-MovesOk news_id

    advance_with-MovesOk :
        (children : List (ℕ × Job)) → MovesOk db (advance_with c now k job children db)
    advance_with-MovesOk children =
        go (any_open children)
          (is_attachments job.payload.stage && is_empty_list (failed_children children))
      where
        go :
            (b d : Bool)
            → MovesOk db (
                if b
                then ok (set_job k (postponed c now job) db)
                else if d
                then start_classifiers c now k job db
                else ok (finish now k job children db))
        go true d =
            Moves-set_job_after k job _ db db (Moves-refl db) p.there
              (kept_status _ refl refl refl refl refl)
        go false true = start_classifiers-MovesOk
        go false false = finish-Moves children

    advance-MovesOk : MovesOk db (advance c now k job db)
    unfolding advance
    advance-MovesOk = go (child_ids job.payload.children)
      where
        go :
            (o : Option (List ℕ))
            → MovesOk db (elim o [
              | none ↦ ok (set_job k (dead now "pipeline child list is invalid" job) db)
              | some ids ↦ advance_with c now k job (children_of ids db) db
            ])
        go none = to_dead "pipeline child list is invalid"
        go (some ids) = advance_with-MovesOk (children_of ids db)

    advance_parent-MovesOk : MovesOk db (advance_parent c now k job db)
    advance_parent-MovesOk = go (is_pending job.status || is_none job.payload.stage)
      where
        go :
            (b : Bool)
            → MovesOk db (if b then ok (start c now k job db) else advance c now k job db)
        go true = start-Moves
        go false = advance-MovesOk

row-Parent :
    (now : ℕ) (db : Store) (x : ℕ × Job) → IsRow (advanceable now) db.jobs.row x → Parent x.0 x.1 db
unfolding advanceable
row-Parent now db (k, job) r =
    let f = r.fits in record { there = r.there; open_job = ground arith; pipeline = ground arith }

pub advance_one-Moves :
    (c : Coordinator) (now : ℕ) (db : Store) {b : Bool} {db' : Store}
    → advance_one c now db ≡ ok (b, db')
    → Moves db db'
unfolding advance_one
advance_one-Moves c now db {b} {db'} e = go (next_parent now db) refl e
  where
    after : (r : Result Store) → MovesOk db r → done r ≡ ok (b, db') → Moves db db'
    after (ok s) m e = subst (Moves db) (ap (λ x. x.1) (ok-injective e)) m
    after (err x) m e = cc

    go :
        (o : Option (ℕ × Job))
        → next_parent now db ≡ o
        → advance_next c now o db ≡ ok (b, db')
        → Moves db db'
    go none f e = subst (Moves db) (ap (λ x. x.1) (ok-injective e)) (Moves-refl db)
    go (some (k, job)) f e =
        after (advance_parent c now k job db)
          (advance_parent-MovesOk now k job db
            (row-Parent now db (k, job)
              (first_by-select job_before (advanceable now) db.jobs (k, job) f))
            c)
          e
