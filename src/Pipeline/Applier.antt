-- ===== src/Pipeline/Applier.antt =====
-- `PipelineResultApplier.apply` of pipeline/result_applier.py, and the policy on failed answers of
-- use_cases/processing/classification_response_policy.py. The columns of the AI trace (`model`, the
-- versions, `duration_ms`) and `evidence` of the attempt are left out.
pub mod Laws
use rd_news.Prelude.{
  ℕ, String, Bool, true, false, not, ◌&&◌, ◌||◌, Option, none, some, List, [], ◌∷◌, str_eq,
  same_option, map, is_none, if◌then◌else◌,
}
use rd_news.Prelude.Int.{pos}
use rd_news.Prelude.Text.{is_empty}
use rd_news.Table
use rd_news.Model.Status.{JobStatus, AttemptStatus, has_succeeded}
use rd_news.Model.Result.{
  Error, Result, ok, err, ◌>>=◌, ◌>>◌, guard, require, stale_attempt, classifier_protocol,
}
use rd_news.Model.Job.{
  Job, ProcessingAttempt, ClaimedAttempt, PipelineRuntime, JobResult, ResultLabel, IdText,
}
use rd_news.Outbox.Json.{Value, Fields, without}
use rd_news.Model.News.{News}
use rd_news.Model.Taxonomy.{Classifier}
use rd_news.Model.Store.{Store, set_job, set_attempt}
use rd_news.Labels.Confidence.{Number, finite}
use rd_news.Labels.Normalization.{ProposedLabel, NormalizedLabel, Axes, normalize_labels}
use rd_news.Labels.Materializer.{recompute}
use rd_news.Pipeline.Fence.{locked, matches_news}
use rd_news.Pipeline.Finalizer.{Token, check_token, protect}
use rd_news.Pipeline.Taxonomy.{load_axes, axis_names}
use rd_news.Pipeline.OpinionWriter

-- The fields of `CallbackResult` and `ClassifyResponse` that the pipeline reads. `error` is the
-- code and whether a retry may help; `trace` is the error of the trace, where there is a trace, and
-- `dump` is `model_dump(mode="json", exclude_none=True)`.
pub record Response : Type 0 where
  pub job_id : IdText
  pub attempt_id : IdText
  pub classifier : String
  pub node_id : String
  pub error : Option (String × Bool)
  pub labels : List ProposedLabel
  pub trace : Option (Option String)
  pub dump : Fields

abbrev pub trace_failure : Option (Option String) → Option (Error × Bool)
trace_failure (some (some message)) =
    if is_empty message
    then none
    else some (classifier_protocol "classifier_failed:trace_error", true)
trace_failure _ = none

-- `ClassificationResponsePolicy.failure`
unfoldable pub failure : Response → Option (Error × Bool)
failure response = elim response.error [
  | some (code, retryable) ↦ some (classifier_protocol "classifier_failed", retryable)
  | none ↦ trace_failure response.trace
]

-- `classifier.config.get("node_id") or classifier.slug`
abbrev pub or_else : Option String → String → String
or_else none d = d
or_else (some s) d = if is_empty s then d else s

abbrev pub expected_node : Classifier → String
expected_node classifier = or_else classifier.node_id classifier.slug

-- `set(classifier.allowed_axes) or set(axes)`
abbrev pub allowed_axes : Classifier → Store → List String
allowed_axes classifier db = elim classifier.allowed_axes [
  | [] ↦ axis_names db
  | axis ∷ rest ↦ axis ∷ rest
]

abbrev pub normalized : Classifier → Response → Store → List NormalizedLabel
normalized classifier response db =
    normalize_labels (load_axes db) (allowed_axes classifier db)
      (finite (pos classifier.min_confidence)) response.labels

-- `label_json`
abbrev pub label_json : NormalizedLabel → ResultLabel
label_json label = record {
  axis = label.axis;
  value = label.value;
  confidence = label.confidence;
  reason = label.reason;
  evidence = label.evidence;
}

-- `result["trace"].pop(...)`, where the trace is an object
abbrev clean_trace : Value → Value
clean_trace (Value.object fields) =
    Value.object (without "raw_response" (without "request_payload" fields))
clean_trace value = value

unfoldable pub cleaned : Fields → Fields
cleaned Fields.end = Fields.end
cleaned (Fields.field name value rest) =
    let later = cleaned rest in
    Fields.field name (if str_eq name "trace" then clean_trace value else value) later

-- `{**result, "labels": [...]}`
abbrev pub validated_result : Response → List NormalizedLabel → JobResult
validated_result response labels =
    JobResult.answer_result (without "labels" (cleaned response.dump)) (map label_json labels)

abbrev pub succeeded_attempt :
    PipelineRuntime
    → ℕ
    → Response
    → List ℕ
    → List NormalizedLabel
    → ProcessingAttempt
    → ProcessingAttempt
succeeded_attempt runtime now response raw_body labels attempt = record attempt {
  status = AttemptStatus.succeeded;
  completed_at = some now;
  raw_payload_encrypted = elim runtime.protector [
    | none ↦ attempt.raw_payload_encrypted
    | some encrypt ↦ some (encrypt raw_body)
  ];
  validated_result = validated_result response labels;
}

abbrev pub succeeded_job : ℕ → ClaimedAttempt → List NormalizedLabel → Job → Job
succeeded_job now claimed labels job = record job {
  status = JobStatus.succeeded;
  result = JobResult.labels_result claimed.attempt_id (map label_json labels);
  completed_at = some now;
  owner = none;
  lease_until = none;
  last_error = none;
}

-- The attempt is closed before the labels are recomputed: the recomputation reads the attempts that
-- succeeded.
abbrev pub store_labels :
    PipelineRuntime
    → ℕ
    → ClaimedAttempt
    → Response
    → List ℕ
    → Job
    → ProcessingAttempt
    → ℕ
    → News
    → Classifier
    → List NormalizedLabel
    → Store
    → Store
store_labels runtime now claimed response raw_body job attempt news_id news classifier labels db =
    set_job claimed.job_id (succeeded_job now claimed labels job) (
      recompute news_id news (
        OpinionWriter.append news_id attempt.version_id claimed.attempt_id classifier (load_axes db)
          labels
          (set_attempt claimed.attempt_id
            (succeeded_attempt runtime now response raw_body labels attempt) db)))

-- The item is still at the attempt's version, and on the pipeline run that created the job.
abbrev pub is_current : News → Job → ProcessingAttempt → Bool
is_current news job attempt =
    same_option news.current_version_id attempt.version_id && matches_news news job

abbrev pub is_registered : Response → Classifier → Bool
is_registered response classifier =
    str_eq response.classifier classifier.slug && str_eq response.node_id (expected_node classifier)

abbrev pub wrong_identity : Error
wrong_identity = classifier_protocol "classifier identity does not match registration"

abbrev pub apply_registered :
    PipelineRuntime
    → ℕ
    → ClaimedAttempt
    → Response
    → List ℕ
    → Job
    → ProcessingAttempt
    → ℕ
    → News
    → Classifier
    → Store
    → Result Store
apply_registered runtime now claimed response raw_body job attempt news_id news classifier db = do
  guard (is_registered response classifier) wrong_identity
  ok (
      store_labels runtime now claimed response raw_body job attempt news_id news classifier
        (normalized classifier response db) db)

-- From the check of the news item on.
unfoldable pub apply_labels :
    PipelineRuntime
    → ℕ
    → ClaimedAttempt
    → Response
    → List ℕ
    → Job
    → ProcessingAttempt
    → ℕ
    → Option News
    → Option Classifier
    → Store
    → Result Store
apply_labels runtime now claimed response raw_body job attempt news_id none classifier db =
    err stale_attempt
apply_labels runtime now claimed response raw_body job attempt news_id (some news) none db =
    err stale_attempt
apply_labels runtime now claimed response raw_body job attempt news_id (some news) (some classifier)
      db =
    do
      guard (is_current news job attempt) stale_attempt
      apply_registered runtime now claimed response raw_body job attempt news_id news classifier db

abbrev pub id_or_zero : Option ℕ → ℕ
id_or_zero none = 0
id_or_zero (some k) = k

-- A token that was used before is refused: a live attempt has not succeeded.
abbrev pub apply_with :
    PipelineRuntime → ℕ → ClaimedAttempt → Response → List ℕ → Job → Token → Store → Result Store
apply_with runtime now claimed response raw_body job (Token.refused e) db = err e
apply_with runtime now claimed response raw_body job Token.repeated db =
    err (classifier_protocol "callback token was already used")
apply_with runtime now claimed response raw_body job (Token.accepted attempt) db =
    apply_labels runtime now claimed response raw_body job attempt (id_or_zero job.news_id)
      (Table.get_opt job.news_id db.news) (Table.get_opt job.classifier_id db.classifiers) db

abbrev pub apply_locked :
    PipelineRuntime
    → ℕ
    → ClaimedAttempt
    → Response
    → List ℕ
    → Option String
    → Option (Job × ProcessingAttempt)
    → Store
    → Result Store
apply_locked runtime now claimed response raw_body hash none db = err stale_attempt
apply_locked runtime now claimed response raw_body hash (some (job, attempt)) db =
    apply_with runtime now claimed response raw_body job (check_token now hash attempt) db

abbrev pub failed_response : Error
failed_response = classifier_protocol "failed classifier response cannot be applied"

unfoldable pub apply :
    PipelineRuntime → ℕ → ClaimedAttempt → Response → List ℕ → Option String → Store → Result Store
apply runtime now claimed response raw_body hash db = do
  guard (is_none (failure response))
      (classifier_protocol "failed classifier response cannot be applied")
  apply_locked runtime now claimed response raw_body hash (locked claimed db) db
