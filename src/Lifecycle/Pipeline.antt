-- ===== src/Lifecycle/Pipeline.antt =====
-- The transactions of the classification pipeline move every job by a step.
use rd_news.Prelude.{is_none, ℕ, String, ◌≡◌, refl, Bool, true, Option, none, some, List, arith}
use rd_news.Pipeline.Fence.Laws.{Held, locked-Held, matches-claimed}
use rd_news.Table
use rd_news.Model.Status.{is_claimed}
use rd_news.Pipeline.OpinionWriter.Frame.{SameRows, append-SameRows}
use rd_news.Pipeline.Taxonomy.{load_axes}
use rd_news.Model.Result.{stale_attempt, Error, ok}
use rd_news.Model.Job.{Job, ProcessingAttempt, ClaimedAttempt, PipelineRuntime}
use rd_news.Model.News.{News}
use rd_news.Model.Taxonomy.{Classifier}
use rd_news.Model.Store.{Store, set_attempt}
use rd_news.Labels.Normalization.{NormalizedLabel}
use rd_news.Labels.Materializer.{recompute}
use rd_news.Pipeline.Fence.{locked}
use rd_news.Pipeline.Finalizer.{
  mark_waiting, mark_locked, waiting_job, fail, fail_locked, fail_with, failed_job, Token,
  check_token,
}
use rd_news.Pipeline.Applier.{
  failure, failed_response, is_current, is_registered, wrong_identity, normalized, apply_registered,
  Response, apply, apply_locked, apply_with, apply_labels, succeeded_job, succeeded_attempt,
  store_labels,
}
use rd_news.Lifecycle.Moves.{MovesOk, guard-MovesOk, set_job-Moves, JobStep, Moves, Moves-refl}

waiting_job-JobStep :
    (attempt : ProcessingAttempt) (job : Job)
    → is_claimed job.status ≡ true
    → JobStep job (waiting_job attempt job)
waiting_job-JobStep attempt job h = record {
  generation = omega arith;
  taken = λ e c. cc;
  closed = λ c. ground arith;
  counted = λ _ a. a;
  kind = refl;
  allowed = refl;
}

failed_job-JobStep :
    (runtime : PipelineRuntime) (now : ℕ) (error : Error) (retryable : Bool) (job : Job)
    → is_claimed job.status ≡ true
    → JobStep job (failed_job runtime now error retryable job)
failed_job-JobStep runtime now error retryable job h = record {
  generation = ground arith;
  taken = λ e c. cc;
  closed = λ c. ground arith;
  counted = λ k a. ground arith;
  kind = ground arith;
  allowed = ground arith;
}

succeeded_job-JobStep :
    (now : ℕ) (claimed : ClaimedAttempt) (labels : List NormalizedLabel) (job : Job)
    → is_claimed job.status ≡ true
    → JobStep job (succeeded_job now claimed labels job)
succeeded_job-JobStep now claimed labels job h = record {
  generation = omega arith;
  taken = λ e c. cc;
  closed = λ c. ground arith;
  counted = λ _ a. a;
  kind = refl;
  allowed = refl;
}

module _ (runtime : PipelineRuntime) (claimed : ClaimedAttempt) (raw_body : List ℕ)
    (db : Store) where
  mark_locked-MovesOk :
      (o : Option (Job × ProcessingAttempt))
      → locked claimed db ≡ o
      → MovesOk db (mark_locked runtime claimed raw_body o db)
  mark_locked-MovesOk none e = tt
  mark_locked-MovesOk (some (job, attempt)) e =
      let held : Held claimed db job attempt = locked-Held claimed db e in
      set_job-Moves claimed.job_id job _ db _ held.job_there
        (waiting_job-JobStep attempt job (matches-claimed job claimed held.stands)) refl
        (omega arith)

  pub mark_waiting-MovesOk : MovesOk db (mark_waiting runtime claimed raw_body db)
  unfolding mark_waiting
  mark_waiting-MovesOk = mark_locked-MovesOk (locked claimed db) refl

module _ (runtime : PipelineRuntime) (now : ℕ) (claimed : ClaimedAttempt) (raw_body : List ℕ)
    (hash : Option String) (db : Store) where
  module _ (error : Error) (retryable : Bool) where
    fail_with-MovesOk :
        (job : Job) (token : Token)
        → Table.get claimed.job_id db.jobs ≡ some job
        → is_claimed job.status ≡ true
        → MovesOk db (fail_with runtime now claimed error raw_body retryable job token db)
    fail_with-MovesOk job (Token.refused e) there h = tt
    fail_with-MovesOk job Token.repeated there h = Moves-refl db
    fail_with-MovesOk job (Token.accepted attempt) there h =
        set_job-Moves claimed.job_id job _ db _ there
          (failed_job-JobStep runtime now error retryable job h) refl (omega arith)

    fail_locked-MovesOk :
        (o : Option (Job × ProcessingAttempt))
        → locked claimed db ≡ o
        → MovesOk db (fail_locked runtime now claimed error hash raw_body retryable o db)
    fail_locked-MovesOk none e = Moves-refl db
    fail_locked-MovesOk (some (job, attempt)) e =
        let held : Held claimed db job attempt = locked-Held claimed db e in
        fail_with-MovesOk job (check_token now hash attempt) held.job_there
          (matches-claimed job claimed held.stands)

    pub fail-MovesOk : MovesOk db (fail runtime now claimed error hash raw_body retryable db)
    unfolding fail
    fail-MovesOk = fail_locked-MovesOk (locked claimed db) refl

  module _ (response : Response) where
    store_labels-Moves :
        (job : Job) (attempt : ProcessingAttempt) (news_id : ℕ) (news : News)
        (classifier : Classifier) (labels : List NormalizedLabel)
        → Table.get claimed.job_id db.jobs ≡ some job
        → is_claimed job.status ≡ true
        → Moves db (
            store_labels runtime now claimed response raw_body job attempt news_id news classifier
              labels db)
    unfolding recompute
    store_labels-Moves job attempt news_id news classifier labels there h =
        let same : SameRows _ _ =
          append-SameRows news_id attempt.version_id claimed.attempt_id classifier (load_axes db)
            labels
            (set_attempt claimed.attempt_id
              (succeeded_attempt runtime now response raw_body labels attempt) db) in
        set_job-Moves claimed.job_id job _ db _ there
          (succeeded_job-JobStep now claimed labels job h) same.jobs same.ids

    apply_labels-MovesOk :
        (job : Job) (attempt : ProcessingAttempt) (news_id : ℕ) (news : Option News)
        (classifier : Option Classifier)
        → Table.get claimed.job_id db.jobs ≡ some job
        → is_claimed job.status ≡ true
        → MovesOk db (
            apply_labels runtime now claimed response raw_body job attempt news_id news classifier
              db)
    unfolding apply_labels
    apply_labels-MovesOk job attempt news_id none classifier there h = tt
    apply_labels-MovesOk job attempt news_id (some news) none there h = tt
    apply_labels-MovesOk job attempt news_id (some news) (some classifier) there h =
        guard-MovesOk db (is_current news job attempt) stale_attempt
          (apply_registered runtime now claimed response raw_body job attempt news_id news
            classifier db)
          (guard-MovesOk db (is_registered response classifier) wrong_identity
            (ok (
              store_labels runtime now claimed response raw_body job attempt news_id news classifier
                (normalized classifier response db) db))
            (store_labels-Moves job attempt news_id news classifier
              (normalized classifier response db) there h))

    apply_with-MovesOk :
        (job : Job) (token : Token)
        → Table.get claimed.job_id db.jobs ≡ some job
        → is_claimed job.status ≡ true
        → MovesOk db (apply_with runtime now claimed response raw_body job token db)
    apply_with-MovesOk job (Token.refused e) there h = tt
    apply_with-MovesOk job Token.repeated there h = tt
    apply_with-MovesOk job (Token.accepted attempt) there h =
        apply_labels-MovesOk job attempt _ _ _ there h

    apply_locked-MovesOk :
        (o : Option (Job × ProcessingAttempt))
        → locked claimed db ≡ o
        → MovesOk db (apply_locked runtime now claimed response raw_body hash o db)
    apply_locked-MovesOk none e = tt
    apply_locked-MovesOk (some (job, attempt)) e =
        let held : Held claimed db job attempt = locked-Held claimed db e in
        apply_with-MovesOk job (check_token now hash attempt) held.job_there
          (matches-claimed job claimed held.stands)

    pub apply-MovesOk : MovesOk db (apply runtime now claimed response raw_body hash db)
    unfolding apply
    apply-MovesOk =
        guard-MovesOk db (is_none (failure response)) failed_response
          (apply_locked runtime now claimed response raw_body hash (locked claimed db) db)
          (apply_locked-MovesOk (locked claimed db) refl)
