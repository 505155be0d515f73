-- ===== src/Pipeline/Callback.antt =====
-- `PipelineCallback.apply` of pipeline/callback.py. The body is read and the signature is verified
-- in one transaction (`authenticate`), and the result is applied in a later one (`finish_callback`): others
-- may run between the two.
use rd_news.Prelude.{ℕ, String, ◌&&◌, Option, none, some, List, str_eq, if◌then◌else◌}
use rd_news.Prelude.Text.{is_empty}
use rd_news.Prelude.Uuid.{uuid_text}
use rd_news.Table
use rd_news.Model.Status.{has_succeeded}
use rd_news.Model.Result.{
  Result, ok, err, ◌>>=◌, require, stale_attempt, classifier_protocol, permission,
}
use rd_news.Model.Job.{
  ProcessingAttempt, ClaimedAttempt, PipelineRuntime, IdText, id_text, bad_text,
}
use rd_news.Model.Taxonomy.{Classifier}
use rd_news.Model.Store.{Store}
use rd_news.Contracts.Signing.{
  Crypto, Verified, valid, rejected, SignedMessageClaims, verify_message, bearer_token,
}
use rd_news.Pipeline.Finalizer.{fail}
use rd_news.Pipeline.Applier.{Response, failure, apply, or_else}

-- What the callback does after its signature is verified.
pub data Verdict : Type 0 where
  duplicate : Verdict
  act : ClaimedAttempt → String → Verdict

pub data Reply : Type 0 where
  duplicate_reply applied_reply : Reply

-- `uuid.UUID(text)`
abbrev pub parse_id : IdText → Result ℕ
parse_id (id_text k) = ok k
parse_id (bad_text s) = err (classifier_protocol "invalid callback body")

-- `config.get("issuer") or config.get("node_id") or slug`
abbrev pub expected_issuer : Classifier → String
expected_issuer classifier = or_else classifier.issuer (or_else classifier.node_id classifier.slug)

abbrev signing_key : Option String → Result String
signing_key none = err (classifier_protocol "classifier has no callback verification key")
signing_key (some key) =
    if is_empty key
    then err (classifier_protocol "classifier has no callback verification key")
    else ok key

abbrev signed {ℓ} : {A : Type ℓ} → Verified A → Result A
signed (valid a) = ok a
signed (rejected e) = err (permission "invalid callback signature")

-- The token of the callback against the one that the attempt recorded.
abbrev pub judge : ClaimedAttempt → ProcessingAttempt → String → Option String → Result Verdict
judge claimed attempt hash none = ok (act claimed hash)
judge claimed attempt hash (some old) =
    if str_eq old hash && has_succeeded attempt.status
    then ok duplicate
    else err (classifier_protocol "callback token was already used")

-- The library of the tokens, the key of a registration, and SHA-256 of a token's id.
module _ (crypto : Crypto) (as_key : String → crypto.PublicKey) (hash_text : String → String) where
  abbrev verified :
      PipelineRuntime
      → ℕ
      → Response
      → List ℕ
      → Option String
      → ℕ
      → ℕ
      → Classifier
      → String
      → Verified SignedMessageClaims
  verified runtime now response raw_body authorization job_id attempt_id classifier key =
      elim (bearer_token authorization) [
        | rejected e ↦ rejected e
        | valid token ↦
            verify_message crypto (as_key key) token raw_body
              (record {
                issuer = expected_issuer classifier;
                audience = runtime.callback_audience;
                job_id = uuid_text job_id;
                attempt_id = uuid_text attempt_id;
                node_id = response.node_id;
              })
              none now 30
      ]

  unfoldable pub authenticate :
      PipelineRuntime → ℕ → Option Response → List ℕ → Option String → Store → Result Verdict
  authenticate runtime now parsed raw_body authorization db = do
    response ← require parsed (classifier_protocol "invalid callback body")
    job_id ← parse_id response.job_id
    attempt_id ← parse_id response.attempt_id
    attempt ← require (Table.get attempt_id db.attempts) stale_attempt
    job ← require (Table.get job_id db.jobs) stale_attempt
    classifier ← require (Table.get_opt attempt.classifier_id db.classifiers) stale_attempt
    key ← signing_key classifier.signing_public_key
    claims ←
        signed
          (verified runtime now response raw_body authorization job_id attempt_id classifier key)
    judge (record { job_id = job_id; attempt_id = attempt_id; generation = attempt.generation })
        attempt (hash_text claims.token_id) attempt.callback_token_hash

abbrev pub applied : Result Store → Result (Reply × Store)
applied (ok db) = ok (applied_reply, db)
applied (err e) = err e

-- The second transaction.
unfoldable pub finish_callback :
    PipelineRuntime → ℕ → Response → List ℕ → Verdict → Store → Result (Reply × Store)
finish_callback runtime now response raw_body duplicate db = ok (duplicate_reply, db)
finish_callback runtime now response raw_body (act claimed hash) db = elim (failure response) [
  | some (error, retryable) ↦
      applied (fail runtime now claimed error (some hash) raw_body retryable db)
  | none ↦ applied (apply runtime now claimed response raw_body (some hash) db)
]
