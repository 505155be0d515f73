-- ===== src/Lifecycle/Workers.antt =====
-- A worker's handling of a claim is a sequence of the pipeline's transactions, and never raises.
use rd_news.Prelude.{ℕ, ◌≡◌, refl, Bool, true, false, Option, none, some, List, arith, ap, ◌∙◌}
use rd_news.Model.Result.{
  Error, Result, ok, err, stale_attempt, classifier_protocol, permission, conflict, not_found,
  validation, key_error, other_error,
}
use rd_news.Model.Job.{Job, ProcessingAttempt, ClaimedAttempt, PipelineRuntime}
use rd_news.Model.Store.{Store}
use rd_news.Pipeline.Fence.{locked}
use rd_news.Pipeline.Finalizer.Laws.{FailedAs, fail-FailedAs}
use rd_news.Pipeline.Finalizer.{mark_waiting, fail, fail_locked}
use rd_news.Pipeline.Applier.{Response, failure}
use rd_news.Pipeline.Worker.{Dispatch, raised, dispatched, settle, respond, respond_as, process}
use rd_news.Lifecycle.Reach.{Step, waits, fails, applies, Reach, unmoved, followed}

module _ (runtime : PipelineRuntime) (now : ℕ) (claimed : ClaimedAttempt) where
  -- Without a callback token, recording a failure never raises.
  fail-ok :
      (error : Error) (raw_body : List ℕ) (retryable : Bool) (db : Store)
      → (db' : Store) × (fail runtime now claimed error none raw_body retryable db ≡ ok db')
  unfolding fail
  fail-ok error raw_body retryable db = go (locked claimed db)
    where
      go :
          (row : Option (Job × ProcessingAttempt))
          → (db' : Store) × (fail_locked runtime now claimed error none raw_body retryable row db
              ≡ ok db')
      go none = (db, refl)
      go (some (job, attempt)) = (_, refl)

  -- The result is a store that transactions of the pipeline lead to.
  abbrev Ends : Store → Result Store → Type 0
  Ends db result = (db' : Store) × (result ≡ ok db') × Reach db db'

  failed-Ends :
      (error : Error) (raw_body : List ℕ) (retryable : Bool) (db later : Store)
      → Reach db later
      → Ends db (fail runtime now claimed error none raw_body retryable later)
  failed-Ends error raw_body retryable db later reach =
      let (db', e) = fail-ok error raw_body retryable later in
      (db', e, followed (fails runtime now claimed error none raw_body retryable e) reach)

  settle-Ends :
      (raw_body : List ℕ) (db later : Store) (result : Result Store)
      → Reach db later
      → ((db' : Store) → result ≡ ok db' → Step db db')
      → Ends db (settle runtime now claimed raw_body later result)
  settle-Ends raw_body db later (ok db') reach step = (db', refl, followed (step db' refl) unmoved)
  settle-Ends raw_body db later (err stale_attempt) reach step = (later, refl, reach)
  settle-Ends raw_body db later (err (classifier_protocol s)) reach step =
      failed-Ends (classifier_protocol s) raw_body true db later reach
  settle-Ends raw_body db later (err (permission s)) reach step =
      failed-Ends (permission s) raw_body true db later reach
  settle-Ends raw_body db later (err (conflict s)) reach step =
      failed-Ends (conflict s) raw_body true db later reach
  settle-Ends raw_body db later (err (not_found s)) reach step =
      failed-Ends (not_found s) raw_body true db later reach
  settle-Ends raw_body db later (err (validation s)) reach step =
      failed-Ends (validation s) raw_body true db later reach
  settle-Ends raw_body db later (err (key_error s)) reach step =
      failed-Ends (key_error s) raw_body true db later reach
  settle-Ends raw_body db later (err (other_error s)) reach step =
      failed-Ends (other_error s) raw_body true db later reach

  respond-Step :
      (response : Response) (raw_body : List ℕ) (outcome : Option (Error × Bool)) (db db' : Store)
      → respond_as runtime now claimed response raw_body outcome db ≡ ok db'
      → Step db db'
  respond-Step response raw_body none db db' e =
      applies runtime now claimed response raw_body none e
  respond-Step response raw_body (some (error, retryable)) db db' e =
      fails runtime now claimed error none raw_body retryable e

  -- Whatever the dispatch comes to, a worker that handles a claim raises nothing, and the store it leaves is one that transactions of the
  -- pipeline lead to, so that what holds of all of these holds of it.
  process-Reach :
      (dispatch : Dispatch) (db later : Store)
      → Reach db later
      → (db' : Store) × (process runtime now claimed dispatch db later ≡ ok db') × Reach db db'
  unfolding process
  process-Reach (raised error raw_body) db later reach =
      settle-Ends raw_body db later (err error) reach (λ db' e. absurd (ground arith))
  process-Reach (dispatched true response raw_body) db later reach =
      settle-Ends raw_body db later (mark_waiting runtime claimed raw_body db) reach
        (λ db' e. waits runtime claimed raw_body e)
  process-Reach (dispatched false none raw_body) db later reach = (db, refl, unmoved)
  process-Reach (dispatched false (some response) raw_body) db later reach =
      settle-Ends raw_body db later (respond runtime now claimed response raw_body db) reach
        (λ db' e. respond-Step response raw_body (failure response) db db' e)

  abbrev is_stale : Error → Bool
  is_stale stale_attempt = true
  is_stale _ = false

  -- The error that ends the handling of a claim: of the dispatch, of the hand-over to a callback, or
  -- of the handling of the answer.
  pub data Failing (dispatch : Dispatch) (error : Error) (raw_body : List ℕ) (db : Store)
      : Type 0 where
    sent_nothing : dispatch ≡ raised error raw_body → Failing dispatch error raw_body db
    not_handed_over :
        (response : Option Response)
        → dispatch ≡ dispatched true response raw_body
        → mark_waiting runtime claimed raw_body db ≡ err error
        → Failing dispatch error raw_body db
    not_answered :
        (response : Response)
        → dispatch ≡ dispatched false (some response) raw_body
        → respond runtime now claimed response raw_body db ≡ err error
        → Failing dispatch error raw_body db

  settle-failed :
      (error : Error) (raw_body : List ℕ) (later : Store)
      → is_stale error ≡ false
      → settle runtime now claimed raw_body later (err error)
        ≡ fail runtime now claimed error none raw_body true later
  settle-failed stale_attempt raw_body later fresh = absurd (ground arith)
  settle-failed (classifier_protocol s) raw_body later fresh = refl
  settle-failed (permission s) raw_body later fresh = refl
  settle-failed (conflict s) raw_body later fresh = refl
  settle-failed (not_found s) raw_body later fresh = refl
  settle-failed (validation s) raw_body later fresh = refl
  settle-failed (key_error s) raw_body later fresh = refl
  settle-failed (other_error s) raw_body later fresh = refl

  process-failed :
      (dispatch : Dispatch) (error : Error) (raw_body : List ℕ) (db later : Store)
      → Failing dispatch error raw_body db
      → is_stale error ≡ false
      → process runtime now claimed dispatch db later
        ≡ fail runtime now claimed error none raw_body true later
  unfolding process
  process-failed dispatch error raw_body db later (sent_nothing d) fresh =
      rw d (settle-failed error raw_body later fresh)
  process-failed dispatch error raw_body db later (not_handed_over response d e) fresh =
      rw d (rw e (settle-failed error raw_body later fresh))
  process-failed dispatch error raw_body db later (not_answered response d e) fresh =
      rw d (
        ap (settle runtime now claimed raw_body later) e ∙ settle-failed error raw_body later fresh)

  -- An error in the handling of a claim, by the dispatch, the hand-over or the answer, that is no
  -- stale attempt is recorded and not raised: if the fence accepts the claim at the store as it is
  -- then, after any transactions of others, the attempt failed with the error, and the job is to be
  -- tried again if attempts are left. The store is one that transactions of the pipeline lead to.
  pub process-FailedAs :
      (dispatch : Dispatch) (error : Error) (raw_body : List ℕ) (job : Job)
      (attempt : ProcessingAttempt) (db later : Store)
      → Reach db later
      → Failing dispatch error raw_body db
      → is_stale error ≡ false
      → locked claimed later ≡ some (job, attempt)
      → (db' : Store) × (process runtime now claimed dispatch db later ≡ ok db')
        × FailedAs runtime now claimed error true job db'
        × Reach db db'
  process-FailedAs dispatch error raw_body job attempt db later reach failing fresh held =
      let (db', e, recorded) =
        fail-FailedAs runtime now claimed error raw_body true job attempt later held in
      (
        db',
        process-failed dispatch error raw_body db later failing fresh ∙ e,
        recorded,
        followed (fails runtime now claimed error none raw_body true e) reach,
      )
