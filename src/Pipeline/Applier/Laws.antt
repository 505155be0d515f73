-- ===== src/Pipeline/Applier/Laws.antt =====
-- What a result that is applied went through, and what it leaves.
use mathlib.Core.Path.{subst}
use rd_news.Prelude.{
  ℕ, ◌≤◌, String, ◌≡◌, ◌≢◌, refl, sym, ap, ◌∙◌, Bool, true, false, Option, none, some, List, arith,
  map, ltb, ==_iff, is_none, str_eq, eq_iff, eq_refl, Bool-cases, inl, inr, if◌then◌else◌,
}
use rd_news.Table
use rd_news.Model.Status.{JobStatus, AttemptStatus}
use rd_news.Model.Result.{
  Error, Result, ok, err, ok-injective, stale_attempt, classifier_protocol, guard, ◌>>◌,
}
use rd_news.Model.Job.{Job, ProcessingAttempt, ClaimedAttempt, PipelineRuntime, JobResult}
use rd_news.Model.News.{News}
use rd_news.Model.Taxonomy.{Classifier}
use rd_news.Model.Store.{Store, set_attempt}
use rd_news.Labels.Materializer.{recompute}
use rd_news.Pipeline.Fence.{locked}
use rd_news.Pipeline.Finalizer.{Token, check_token, new_token}
use rd_news.Pipeline.OpinionWriter.Frame.{SameRows, append-SameRows}
use rd_news.Pipeline.Taxonomy.{load_axes}
use rd_news.Pipeline.Callback.{judge, duplicate}
use rd_news.Pipeline.Applier.{
  Response, apply, apply_locked, apply_with, apply_labels, failure, failed_response, is_current,
  is_registered, store_labels, succeeded_job, succeeded_attempt, validated_result, normalized,
  label_json,
}

-- The checks that were passed, and the rows that are left.
pub record Applied (c : ClaimedAttempt) (response : Response) (job : Job)
    (attempt : ProcessingAttempt) (before after : Store) : Type 0 where
  pub news : News
  pub classifier : Classifier
  pub news_there : Table.get_opt job.news_id before.news ≡ some news
  pub classifier_there : Table.get_opt job.classifier_id before.classifiers ≡ some classifier
  pub current : is_current news job attempt ≡ true
  pub registered : is_registered response classifier ≡ true
  pub job' : Job
  pub attempt' : ProcessingAttempt
  pub job_there : Table.get c.job_id after.jobs ≡ some job'
  pub attempt_there : Table.get c.attempt_id after.attempts ≡ some attempt'
  pub job_done : job'.status ≡ JobStatus.succeeded
  pub attempt_done : attempt'.status ≡ AttemptStatus.succeeded
  pub result :
      job'.result
      ≡ JobResult.labels_result c.attempt_id
          (map label_json (normalized classifier response before))
  pub kept_answer :
      attempt'.validated_result ≡ validated_result response (normalized classifier response before)
  pub token_kept : attempt'.callback_token_hash ≡ attempt.callback_token_hash

module _ (runtime : PipelineRuntime) (now : ℕ) (c : ClaimedAttempt) (response : Response)
    (raw_body : List ℕ) (db : Store) where
  store_labels-rows :
      (job : Job) (attempt : ProcessingAttempt) (news_id : ℕ) (news : News)
      (classifier : Classifier)
      → let after =
          store_labels runtime now c response raw_body job attempt news_id news classifier
            (normalized classifier response db)
            db in
        (Table.get c.job_id after.jobs
          ≡ some (succeeded_job now c (normalized classifier response db) job))
        × (Table.get c.attempt_id after.attempts
            ≡ some (
                succeeded_attempt runtime now response raw_body
                  (normalized classifier response db)
                  attempt))
  unfolding recompute
  store_labels-rows job attempt news_id news classifier =
      let labels = normalized classifier response db in
      let same : SameRows _ _ =
        append-SameRows news_id attempt.version_id c.attempt_id classifier (load_axes db) labels (
          set_attempt c.attempt_id (succeeded_attempt runtime now response raw_body labels attempt)
            db) in
      (
        rw ((==_iff c.job_id c.job_id).1 refl) refl,
        ap (λ t. Table.get c.attempt_id t) same.attempts
            ∙ rw ((==_iff c.attempt_id c.attempt_id).1 refl) refl,
      )

  guarded :
      (b : Bool) (e : Error) (r : Result Store) {db' : Store}
      → (guard b e >> r) ≡ ok db'
      → (b ≡ true) × (r ≡ ok db')
  guarded true e r h = (refl, h)
  guarded false e r h = cc

  apply_labels-Applied :
      (job : Job) (attempt : ProcessingAttempt) (news_id : ℕ) (o : Option News)
      (p : Option Classifier) {db' : Store}
      → Table.get_opt job.news_id db.news ≡ o
      → Table.get_opt job.classifier_id db.classifiers ≡ p
      → apply_labels runtime now c response raw_body job attempt news_id o p db ≡ ok db'
      → Applied c response job attempt db db'
  unfolding apply_labels
  apply_labels-Applied job attempt news_id none p n k e = cc
  apply_labels-Applied job attempt news_id (some news) none n k e = cc
  apply_labels-Applied job attempt news_id (some news) (some classifier) {db'} n k e =
      let (current, e₁) = guarded _ _ _ e in
      let (registered, e₂) = guarded _ _ _ e₁ in
      let (job_row, attempt_row) = store_labels-rows job attempt news_id news classifier in
      subst (Applied c response job attempt db) (ok-injective e₂) (record {
        news = news;
        classifier = classifier;
        news_there = n;
        classifier_there = k;
        current = current;
        registered = registered;
        job' = succeeded_job now c (normalized classifier response db) job;
        attempt' =
            succeeded_attempt runtime now response raw_body (normalized classifier response db)
              attempt;
        job_there = job_row;
        attempt_there = attempt_row;
        job_done = refl;
        attempt_done = refl;
        result = refl;
        kept_answer = refl;
        token_kept = refl;
      })

-- The attempt with the token that came with the result, if one came.
abbrev pub with_token : ℕ → Option String → ProcessingAttempt → ProcessingAttempt
with_token now none attempt = attempt
with_token now (some hash) attempt = record attempt {
  callback_token_hash = some hash;
  callback_received_at = some now;
}

-- The token is the first one, and in time.
abbrev pub IsFresh : ℕ → Option String → ProcessingAttempt → Type 0
IsFresh now none attempt = Unit
IsFresh now (some hash) attempt = (attempt.callback_token_hash ≡ none) × (now ≤ attempt.deadline_at)

module _ (runtime : PipelineRuntime) (now : ℕ) (c : ClaimedAttempt) (response : Response)
    (raw_body : List ℕ) (job : Job) (attempt : ProcessingAttempt) (db db' : Store) where
  abbrev Taken : Option String → Type 0
  Taken hash =
      IsFresh now hash attempt × Applied c response job (with_token now hash attempt) db db'

  new_token-Taken :
      (hash : String) (old : Option String)
      → attempt.callback_token_hash ≡ old
      → apply_with runtime now c response raw_body job (new_token now hash attempt old) db ≡ ok db'
      → Taken (some hash)
  new_token-Taken hash (some old) f e = go (str_eq old hash) e
    where
      go :
          (b : Bool)
          → apply_with runtime now c response raw_body job
              (if b
                then Token.repeated
                else Token.refused (classifier_protocol "callback token was already used"))
              db
            ≡ ok db'
          → Taken (some hash)
      go true e = cc
      go false e = cc
  new_token-Taken hash none f e = go (ltb attempt.deadline_at now) refl e
    where
      go :
          (b : Bool)
          → ltb attempt.deadline_at now ≡ b
          → apply_with runtime now c response raw_body job
              (if b
                then Token.refused stale_attempt
                else Token.accepted (with_token now (some hash) attempt))
              db
            ≡ ok db'
          → Taken (some hash)
      go true late e = cc
      go false late e = (
        (f, ground arith),
        apply_labels-Applied runtime now c response raw_body db job
            (with_token now (some hash) attempt) _ _ _ refl refl e,
      )

  check_token-Taken :
      (hash : Option String)
      → apply_with runtime now c response raw_body job (check_token now hash attempt) db ≡ ok db'
      → Taken hash
  check_token-Taken none e =
      (tt, apply_labels-Applied runtime now c response raw_body db job attempt _ _ _ refl refl e)
  check_token-Taken (some hash) e = new_token-Taken hash attempt.callback_token_hash refl e

-- A result that is applied: the answer was no failure; the fence accepted the claim; a callback's
-- token was the attempt's first one and in time; the item was still at the attempt's version and on
-- the run that created the job; and the answer named the registered classifier and its node. The
-- job and the attempt succeeded, with the normalized labels as the job's result; the attempt keeps
-- the token, and the answer with these labels and without the bodies in its trace.
pub apply-Applied :
    (runtime : PipelineRuntime) (now : ℕ) (c : ClaimedAttempt) (response : Response)
    (raw_body : List ℕ) (hash : Option String) (db db' : Store)
    → apply runtime now c response raw_body hash db ≡ ok db'
    → (failure response ≡ none)
      × (job : Job) × (attempt : ProcessingAttempt) × (locked c db ≡ some (job, attempt))
      × IsFresh now hash attempt
      × Applied c response job (with_token now hash attempt) db db'
unfolding apply
apply-Applied runtime now c response raw_body hash db db' e =
    let (good, e₁) =
      guarded runtime now c response raw_body db (is_none (failure response)) failed_response
        (apply_locked runtime now c response raw_body hash (locked c db) db) e in
    let (job, attempt, held, fresh, applied) = go (locked c db) refl e₁ in
    (no_failure (failure response) good, job, attempt, held, fresh, applied)
  where
    no_failure : (o : Option (Error × Bool)) → is_none o ≡ true → o ≡ none
    no_failure none h = refl
    no_failure (some x) h = cc

    go :
        (o : Option (Job × ProcessingAttempt))
        → locked c db ≡ o
        → apply_locked runtime now c response raw_body hash o db ≡ ok db'
        → (job : Job) × (attempt : ProcessingAttempt) × (locked c db ≡ some (job, attempt))
          × IsFresh now hash attempt
          × Applied c response job (with_token now hash attempt) db db'
    go none held e = cc
    go (some (job, attempt)) held e =
        let (fresh, applied) =
          check_token-Taken runtime now c response raw_body job attempt db db' hash e in
        (job, attempt, held, fresh, applied)

-- After a callback is applied, the same token on the same attempt is a duplicate, and any other
-- token is refused.
pub apply-judge :
    (runtime : PipelineRuntime) (now : ℕ) (c : ClaimedAttempt) (response : Response)
    (raw_body : List ℕ) (hash : String) (db db' : Store)
    → apply runtime now c response raw_body (some hash) db ≡ ok db'
    → (attempt : ProcessingAttempt) × (Table.get c.attempt_id db'.attempts ≡ some attempt)
      × (judge c attempt hash attempt.callback_token_hash ≡ ok duplicate)
      × ((other : String)
          → other ≢ hash
          → judge c attempt other attempt.callback_token_hash
            ≡ err (classifier_protocol "callback token was already used"))
apply-judge runtime now c response raw_body hash db db' e =
    let (good, job, attempt, held, fresh, a) =
      apply-Applied runtime now c response raw_body (some hash) db db' e in
    (
      a.attempt',
      a.attempt_there,
      rw (a.token_kept, eq_refl hash, a.attempt_done) refl,
      λ other h. rw a.token_kept (rw (differs hash other h) refl),
    )
  where
    differs : (s t : String) → t ≢ s → str_eq s t ≡ false
    differs s t h = elim (Bool-cases (str_eq s t)) [
      | inl e ↦ absurd (h (sym ((eq_iff s t).0 e)))
      | inr e ↦ e
    ]
