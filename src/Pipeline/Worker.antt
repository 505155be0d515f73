-- ===== src/Pipeline/Worker.antt =====
-- `PipelineWorker.process` of use_cases/processing/pipeline_worker.py: what a worker does with a
-- claim. The request and its dispatch to the classifier are an argument.
use rd_news.Prelude.{ℕ, Bool, true, false, Option, none, some, List}
use rd_news.Model.Result.{Error, Result, ok, err, stale_attempt}
use rd_news.Model.Job.{ClaimedAttempt, PipelineRuntime}
use rd_news.Model.Store.{Store}
use rd_news.Pipeline.Finalizer.{mark_waiting, fail}
use rd_news.Pipeline.Applier.{Response, apply, failure}

-- What `classify` came to: an error with the raw body that it carries, if any, or the fields
-- `accepted`, `response` and `raw_body` of a dispatch.
pub data Dispatch : Type 0 where
  raised : Error → List ℕ → Dispatch
  dispatched : Bool → Option Response → List ℕ → Dispatch

-- The two `except` clauses. `later` is the store as it is when the failure is recorded.
abbrev pub settle :
    PipelineRuntime → ℕ → ClaimedAttempt → List ℕ → Store → Result Store → Result Store
settle runtime now claimed raw_body later (ok db) = ok db
settle runtime now claimed raw_body later (err stale_attempt) = ok later
settle runtime now claimed raw_body later (err error) =
    fail runtime now claimed error none raw_body true later

abbrev pub respond_as :
    PipelineRuntime
    → ℕ
    → ClaimedAttempt
    → Response
    → List ℕ
    → Option (Error × Bool)
    → Store
    → Result Store
respond_as runtime now claimed response raw_body none db =
    apply runtime now claimed response raw_body none db
respond_as runtime now claimed response raw_body (some (error, retryable)) db =
    fail runtime now claimed error none raw_body retryable db

-- An answer that reports a failure is recorded as one; any other is applied.
abbrev pub respond : PipelineRuntime → ℕ → ClaimedAttempt → Response → List ℕ → Store → Result Store
respond runtime now claimed response raw_body db =
    respond_as runtime now claimed response raw_body (failure response) db

-- `process`, in which the answer is handled at `db`.
unfoldable pub process :
    PipelineRuntime → ℕ → ClaimedAttempt → Dispatch → Store → Store → Result Store
process runtime now claimed (raised error raw_body) db later =
    settle runtime now claimed raw_body later (err error)
process runtime now claimed (dispatched true response raw_body) db later =
    settle runtime now claimed raw_body later (mark_waiting runtime claimed raw_body db)
process runtime now claimed (dispatched false none raw_body) db later = ok db
process runtime now claimed (dispatched false (some response) raw_body) db later =
    settle runtime now claimed raw_body later (respond runtime now claimed response raw_body db)
