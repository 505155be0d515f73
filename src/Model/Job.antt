-- ===== src/Model/Job.antt =====
-- Jobs, processing attempts, and the claim that a worker holds on a job.
-- Code: models/job.py, models/processing_attempt.py, domain/entities/claimed_attempt.py,
-- domain/entities/pipeline_runtime.py.
use rd_news.Outbox.Json.{Fields}
use rd_news.Prelude.{ℕ, String, Bool, Option, none, List, []}
use rd_news.Model.Status.{JobKind, JobStatus, AttemptStatus}

-- A JSON text that holds a UUID, or does not.
pub data IdText : Type 0 where
  id_text : ℕ → IdText
  bad_text : String → IdText

pub data Stage : Type 0 where
  attachments classification : Stage

-- The keys of `Job.payload` that the pipeline and the rematerialization read and write.
pub record Payload : Type 0 where
  pub stage : Option Stage
  pub children : List IdText
  pub pipeline_attempt_id : Option ℕ
  pub parent_job_id : Option ℕ
  pub attachment_id : Option IdText
  pub scope : Option String
  pub scope_id : Option IdText
  pub cursor : Option IdText

abbrev pub no_payload : Payload
no_payload = record {
  stage = none;
  children = [];
  pipeline_attempt_id = none;
  parent_job_id = none;
  attachment_id = none;
  scope = none;
  scope_id = none;
  cursor = none;
}

-- `validated_result` of a pipeline attempt
pub record Outcome : Type 0 where
  pub children : List ℕ
  pub failed : List ℕ
  pub published : Bool

pub record ResultLabel : Type 0 where
  pub axis : String
  pub value : String
  pub confidence : ℕ
  pub reason : Option String
  pub evidence : List String

-- `validated_result` of an attachment's attempt
pub record FileResult : Type 0 where
  pub attachment_id : ℕ
  pub size : ℕ
  pub sha256 : String
  pub content_type : String
  pub text_extracted : Bool

-- `Job.result` and `ProcessingAttempt.validated_result`
pub data JobResult : Type 0 where
  no_result : JobResult
  pipeline_result : Outcome → JobResult
  labels_result : ℕ → List ResultLabel → JobResult
  answer_result : Fields → List ResultLabel → JobResult
  file_result : FileResult → JobResult

pub record Job : Type 0 where
  pub kind : JobKind
  pub status : JobStatus
  pub submission_id : Option ℕ
  pub news_id : Option ℕ
  pub classifier_id : Option ℕ
  pub current_attempt_id : Option ℕ
  pub generation : ℕ
  pub attempt_count : ℕ
  pub max_attempts : ℕ
  pub available_at : ℕ
  pub created_at : ℕ
  pub lease_until : Option ℕ
  pub owner : Option String
  pub payload : Payload
  pub result : JobResult
  pub last_error : Option String
  pub completed_at : Option ℕ

pub record ProcessingAttempt : Type 0 where
  pub job_id : ℕ
  pub news_id : Option ℕ
  pub version_id : Option ℕ
  pub classifier_id : Option ℕ
  pub generation : ℕ
  pub status : AttemptStatus
  pub callback_token_hash : Option String
  pub callback_received_at : Option ℕ
  pub raw_payload_encrypted : Option (List ℕ)
  pub validated_result : JobResult
  pub error_code : Option String
  pub error_detail : Option String
  pub started_at : ℕ
  pub deadline_at : ℕ
  pub completed_at : Option ℕ

pub record ClaimedAttempt : Type 0 where
  pub job_id : ℕ
  pub attempt_id : ℕ
  pub generation : ℕ

-- The settings of a worker; `protector` is the encryption of raw payloads, where one is set up.
pub record PipelineRuntime : Type 0 where
  pub node_id : String
  pub callback_audience : String
  pub callback_timeout : ℕ
  pub lease_seconds : ℕ
  pub cooldown : ℕ
  pub protector : Option (List ℕ → List ℕ)
