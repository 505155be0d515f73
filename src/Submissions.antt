-- ===== src/Submissions.antt =====
-- The acceptance of a submission: `SubmissionAcceptance` of use_cases/submission_acceptance.py,
-- with identity_lookup.py, writer.py and attachment_writer.py of submissions/.
pub mod Lookup
pub mod Files
pub mod Frame
pub mod Again
pub mod Repeat
pub mod Written
pub mod Begun
use rd_news.Prelude.{
  ℕ, suc, ◌+◌, String, Bool, true, false, not, ◌&&◌, ◌||◌, Option, none, some, List, [], ◌∷◌, leb,
  str_eq, if◌then◌else◌, is_some,
}
use rd_news.Prelude.Text.{is_empty, text_length}
use rd_news.Table
use rd_news.Model.Status.{JobKind, JobStatus, NewsState}
use rd_news.Model.Job.{Job, no_payload, no_result}
use rd_news.Model.News.{News, NewsVersion}
use rd_news.Model.Labels.{Origin}
use rd_news.Model.Sources.{Source, Submission, NewsSourceLink, Relation}
use rd_news.Model.Result.{
  Error, Result, ok, err, guard, ◌>>=◌, ◌>>◌, conflict, validation, other_error,
}
use rd_news.Model.Store.{
  Store, NewEvent, add_news, add_version, add_submission, add_link, add_job, add_event, set_news,
}
use rd_news.Labels.Recorder.{record_labels}
use rd_news.Submissions.Lookup.{
  Identity, truthy, find, source_for, slug_of, id_of, add_unique, same_text,
}
use rd_news.Submissions.Files.{AttachmentInput, write_files}

-- The submitted payload; a value of its version stands as the text of its JSON.
pub record Draft : Type 0 where
  pub source : Option String
  pub external_id : Option String
  pub idempotency_key : Option String
  pub values : String → String
  pub attachments : List AttachmentInput
  pub labels : List (String × List String)

-- The caller and the settings of the service.
pub record Caller : Type 0 where
  pub principal_id : String
  pub bound_source_id : Option ℕ
  pub cooldown_seconds : ℕ
  pub max_attempts : ℕ

pub data Acceptance : Type 0 where
  accepted duplicate : Acceptance

pub record AcceptedSubmission : Type 0 where
  pub submission_id : ℕ
  pub status : Acceptance
  pub received_at : ℕ

-- `payload_key or header_idempotency_key`
abbrev pub either_key : Option String → Option String → Option String
either_key payload_key header_key = if truthy payload_key then payload_key else header_key

abbrev pub keys_agree : Option String → Option String → Bool
keys_agree (some a) (some b) = is_empty a || is_empty b || str_eq a b
keys_agree _ _ = true

abbrev pub short_enough : Option String → Bool
short_enough none = true
short_enough (some key) = leb (text_length key) 500

-- `SubmissionIdentity.__post_init__`
abbrev pub has_identity : Identity → Bool
has_identity identity =
    truthy identity.source && truthy identity.external_id || truthy identity.idempotency_key

abbrev pub identity_of : Draft → Option String → Identity
identity_of draft key = record {
  source = draft.source;
  external_id = draft.external_id;
  idempotency_key = key;
}

abbrev pub new_news : News
new_news = record {
  status = NewsState.pending;
  current_version_id = none;
  current_attempt_id = none;
  revision = 1;
  visibility_revision = 1;
  urgency = 0;
  impact = 0;
  editorial_priority = 0;
  importance = 0;
  manual_facets = [];
  published_at = none;
  deleted_at = none;
}

abbrev pub submission_of : ℕ → Draft → Option String → String → Option (ℕ × Source) → Submission
submission_of now draft key digest source = record {
  source_id = id_of source;
  external_id = draft.external_id;
  idempotency_key = key;
  payload_hash = digest;
  news_id = none;
  received_at = now;
}

abbrev version_of : Caller → Draft → ℕ → NewsVersion
version_of caller draft news_id = record {
  news_id = news_id;
  number = 1;
  created_by = caller.principal_id;
  values = draft.values;
}

-- `labels.record(...)` on the item as it stands, where there are labels.
abbrev pub record_some :
    ℕ → Option News → List (String × List String) → Origin → String → Store → Result Store
record_some news_id none labels origin origin_key db = ok db
record_some news_id (some news) [] origin origin_key db = ok db
record_some news_id (some news) (label ∷ labels) origin origin_key db =
    record_labels news_id news (label ∷ labels) origin origin_key db

abbrev pub default_labels : Option (ℕ × Source) → List (String × List String)
default_labels none = []
default_labels (some (id, source)) = source.default_labels

abbrev pub first_job : Caller → ℕ → ℕ → ℕ → Job
first_job caller now submission_id news_id = record {
  kind = JobKind.pipeline;
  status = JobStatus.pending;
  submission_id = some submission_id;
  news_id = some news_id;
  classifier_id = none;
  current_attempt_id = none;
  generation = 1;
  attempt_count = 0;
  max_attempts = caller.max_attempts;
  available_at = now + caller.cooldown_seconds;
  created_at = now;
  lease_until = none;
  owner = none;
  payload = no_payload;
  result = no_result;
  last_error = none;
  completed_at = none;
}

-- `news.revision` of the item as it stands.
abbrev pub revision_of : Option News → ℕ
revision_of none = 1
revision_of (some news) = news.revision

abbrev pub accepted_event : ℕ → ℕ → ℕ → NewEvent
accepted_event submission_id news_id revision = record {
  topic = "submission.accepted.v2";
  aggregate_id = news_id;
  payload = record {
    news_id = some news_id;
    revision = revision;
    status = none;
    job_id = none;
    submission_id = some submission_id;
  };
}

abbrev pub requested_event : ℕ → ℕ → ℕ → NewEvent
requested_event job_id news_id revision = record {
  topic = "classification.requested.v2";
  aggregate_id = news_id;
  payload = record {
    news_id = some news_id;
    revision = revision;
    status = none;
    job_id = some job_id;
    submission_id = none;
  };
}

-- The rows of `session.add_all([submission, news, version])` with the two ids set after the flush,
-- and the link. The submission has the id `k`, the item the next one, the version the one after.
abbrev pub add_rows : Caller → Draft → Submission → ℕ → Store → Store
add_rows caller draft submission k db =
    add_link (record { news_id = suc k; submission_id = k; relation = Relation.origin })
      (add_version (version_of caller draft (suc k)) (
        add_news (record new_news { current_version_id = some (suc (suc k)) })
          (add_submission (record submission { news_id = some (suc k) }) db)))

-- The job and the events.
abbrev pub announce : Caller → ℕ → ℕ → ℕ → ℕ → Store → Store
announce caller now submission_id news_id job_id db =
    let revision = revision_of (Table.get news_id db.news) in
    add_event (requested_event job_id news_id revision) (
      add_event (accepted_event submission_id news_id revision)
        (add_job (first_job caller now submission_id news_id) db))

-- The default labels of the source, and the labels of the payload.
abbrev pub record_both : Caller → Draft → Option (ℕ × Source) → ℕ → Store → Result Store
record_both caller draft source news_id db = do
  db' ←
      record_some news_id (Table.get news_id db.news) (default_labels source) Origin.source_default
        (slug_of caller.principal_id source) db
  record_some news_id (Table.get news_id db'.news) draft.labels Origin.parser
      (slug_of caller.principal_id source) db'

abbrev pub finish_write : Caller → ℕ → ℕ → Store → AcceptedSubmission × Store
finish_write caller now k db = (
  record { submission_id = k; status = accepted; received_at = now },
  announce caller now k (suc k) db.next_id db,
)

-- `write`, once the source is known.
abbrev pub write_from :
    Caller
    → ℕ
    → Draft
    → Option String
    → String
    → Store
    → Option (ℕ × Source)
    → Result (AcceptedSubmission × Store)
write_from caller now draft key digest db source =
    let submission = submission_of now draft key digest source in
    let k = db.next_id in
    add_unique submission db
    >> (write_files caller.principal_id k (suc k) draft.attachments
          (add_rows caller draft submission k db)
        >>= (λ db₁.
            record_both caller draft source (suc k) db₁
            >>= (λ db₂. ok (finish_write caller now k db₂))))

-- `write`; `now` is the time of the transaction.
unfoldable pub write :
    Caller → ℕ → Draft → Option String → String → Store → Result (AcceptedSubmission × Store)
write caller now draft key digest db =
    source_for draft.source caller.bound_source_id db >>= write_from caller now draft key digest db

abbrev pub repeated : ℕ × Submission → AcceptedSubmission
repeated (id, submission) = record {
  submission_id = id;
  status = duplicate;
  received_at = submission.received_at;
}

abbrev pub is_integrity : Error → Bool
is_integrity (other_error name) = str_eq name "IntegrityError"
is_integrity _ = false

-- `except IntegrityError`: look again, at the store as it is then.
abbrev pub on_conflict :
    String → Store → Option (ℕ × Submission) → Result (AcceptedSubmission × Store)
on_conflict digest db none = err (conflict "accepted concurrently")
on_conflict digest db (some (id, submission)) =
    if str_eq submission.payload_hash digest
    then ok (repeated (id, submission), db)
    else err (conflict "accepted concurrently")

abbrev pub or_existing :
    Caller
    → Identity
    → String
    → Store
    → Result (AcceptedSubmission × Store)
    → Result (AcceptedSubmission × Store)
or_existing caller identity digest db (ok written) = ok written
or_existing caller identity digest db (err error) =
    if is_integrity error
    then find identity caller.bound_source_id db >>= on_conflict digest db
    else err error

abbrev pub accept_found :
    Caller
    → ℕ
    → Draft
    → Option String
    → String
    → Store
    → Option (ℕ × Submission)
    → Result (AcceptedSubmission × Store)
accept_found caller now draft key digest db none =
    or_existing caller (identity_of draft key) digest db (write caller now draft key digest db)
accept_found caller now draft key digest db (some (id, submission)) =
    if str_eq submission.payload_hash digest
    then ok (repeated (id, submission), db)
    else err (conflict "already bound to another payload")

-- `execute`. The lookup reads `seen`, and the writes go to `db`, in which other transactions may
-- have committed since; `digest` is the SHA-256 of the payload with its key.
unfoldable pub execute :
    (Draft → Option String → String)
    → Caller
    → ℕ
    → Draft
    → Option String
    → Store
    → Store
    → Result (AcceptedSubmission × Store)
execute digest caller now draft header_key seen db = do
  guard (keys_agree draft.idempotency_key header_key) (conflict "keys differ")
  let key = either_key draft.idempotency_key header_key
  guard (short_enough key) (validation "key too long")
  guard (has_identity (identity_of draft key)) (validation "identity required")
  existing ← find (identity_of draft key) caller.bound_source_id seen
  accept_found caller now draft key (digest draft key) db existing
