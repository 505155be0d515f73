-- ===== src/Lib.antt =====
-- Verification of 3rd-news: news items are submitted, their attachments fetched, their labels
-- proposed by classifiers, decided by editors and materialized, and the items published.
--
-- The services share one relational store. The coordinator (Coordinator) takes a pipeline job of
-- an item, starts an attempt, creates a job for each attachment that is still to be fetched, waits
-- for these children, creates a job for each classifier, waits again, and publishes the item or
-- leaves it to a reviewer. Workers claim classification jobs (Pipeline.Claiming), call a
-- classifier, and end the attempt with a result (Pipeline.Applier), a failure or a wait for a
-- callback (Pipeline.Finalizer); a callback is a signed message (Contracts.Signing) that ends the
-- attempt too (Pipeline.Callback). The fence (Pipeline.Fence) keeps out a worker whose claim was
-- superseded. A result becomes opinions (Pipeline.OpinionWriter), from which the effective labels
-- and scores of the item are recomputed (Labels.Materializer). Editors decide on labels
-- (Labels.Decisions) and on items (NewsLifecycle), merge and split them (Merging), and attachment
-- workers store files (Attachments). A news item begins as a submission (Submissions), which is
-- accepted once for each identity. A rematerialization job (Rematerialization) recomputes the items
-- of a scope in batches, the events that the services record are sent to a broker (Outbox), the
-- items are indexed for search (Search), requests are admitted (Access), and stored objects that
-- nothing refers to are removed (Cleanup).
--
-- The files, with paths from the root of the repository:
--   Model: services/main/lib/infra/storage/postgres/models and services/main/lib/domain/entities,
--     a record for a row and a data type for a status; Model.Store is the store, a table for each
--     class and the next fresh id.
--   Pipeline.Fence: services/main/lib/infra/storage/postgres/pipeline/fence.py; `locked` is the
--     prologue of the transactions on a claim. Pipeline.Claiming, Pipeline.Finalizer,
--     Pipeline.Callback, Pipeline.OpinionWriter and Pipeline.Taxonomy: the files of these names
--     beside it. Pipeline.Applier: result_applier.py there, and
--     services/main/lib/interactor/use_cases/processing/classification_response_policy.py.
--   Labels.Normalization and Labels.Confidence:
--     services/main/lib/interactor/use_cases/processing/normalization.py. Labels.Scoring:
--     services/main/lib/interactor/use_cases/scoring.py. Labels.Attempts, Labels.Decisions,
--     Labels.Opinions and Labels.Materializer: classifier_attempts.py, resolver.py with
--     manual_decisions.py, and materializer.py, of
--     services/main/lib/infra/storage/postgres/labels.
--   Coordinator, Coordinator.Advance and Coordinator.Ending:
--     services/main/lib/infra/storage/postgres/pipeline_coordinator_storage.py.
--   Attachments, Attachments.Finishing:
--     services/main/lib/infra/storage/postgres/attachment_processing_storage.py.
--   NewsLifecycle: lifecycle.py and base.py of
--     services/main/lib/infra/storage/postgres/news_administration.
--   Rematerialization: services/main/lib/infra/storage/postgres/rematerialization_storage.py, and
--     Rematerialization.Ends the loop of
--     services/main/lib/interactor/use_cases/rematerialization.py, a round a second.
--   Outbox, Outbox.Json, Outbox.Validation: services/main/lib/infra/clients/nats/outbox.py. The
--     events of Model.Store are what the services record; Outbox has the whole rows.
--   Submissions: services/main/lib/interactor/use_cases/submission_acceptance.py, and writer.py;
--     Submissions.Lookup and Submissions.Files: identity_lookup.py and attachment_writer.py, all of
--     services/main/lib/infra/storage/postgres/submissions. Labels.Recorder: recorder.py of labels.
--   Merging, Merging.Splitting, Merging.Provenance: merge.py, split.py and provenance.py of
--     services/main/lib/infra/storage/postgres/news_administration.
--   Cleanup: services/main/lib/infra/storage/postgres/object_gc_storage.py. Pipeline.Retention:
--     raw_retention.py beside the pipeline's other files. Pipeline.Worker: `process` of
--     services/main/lib/interactor/use_cases/processing/pipeline_worker.py.
--   Search: services/main/lib/infra/clients/search/indexer.py, and the end of
--     services/main/lib/core/workers.py, where an event asks for a projection.
--   Access, Access.Tokens: `AuthService` of services/main/lib/infra/clients/auth/service.py.
--     Access.Admission: `require` of services/main/lib/handlers/dependencies.py. Access.Limits: the
--     limits on failed logins in services/main/lib/infra/storage/postgres/repositories/auth_account_repository.py.
--   Labels.Manual: manual_labels.py beside manual_decisions.py.
--   Contracts.Signing: packages/python/contracts/thirdnews_contracts/interactor/use_cases,
--     sign_message.py and verify_message.py.
--   Lifecycle: no file of its own; Lifecycle.Reach is the step relation of all transactions of the
--     classification pipeline and the coordinator, in any order and by any number of workers. The
--     transactions of attachment workers and of reviewers are not steps of it.
--   Prelude, Table: Boolean tests, lists, integers, texts and tables.
--
-- A transaction is a function from a store to a store, or to an error where the code raises: the
-- database rolls back, so an error carries no store. A method that opens several transactions is
-- several functions, or takes what other transactions do in between as an argument: of the outbox
-- what other publishers do while an event is sent (Outbox.Laws.Others), of the search index what
-- comes while a task is submitted and waited for (Search.Laws.Others), and of a worker the store at
-- which it records a failure. The time at the start of a transaction is an argument, in seconds.
-- UUIDs are numbers, and a new row gets the next one. A confidence is an integer in units of
-- 2 ^ -1074, in which every finite double is whole. Loops are structural recursion; only the rounds
-- of Rematerialization.Ends are counted, and as many as there are items to do, and one, are enough.
--
-- Not modelled: the details in error messages; foreign keys of the database and unique keys but
-- those of submissions; row locks, beyond each transaction being one step; the columns of the AI
-- trace, the evidence column of attempts and the keys that provenance adds to evidence; the parsing of bodies and of raw payloads,
-- which is an argument; the message broker, the JWT library, the digests and the encryption of raw
-- payloads, which are parameters; the search documents and the rebuilding of their index; the other
-- parts of the repository, such as passwords, the other handlers, the parsers and the
-- web application.
pub mod Prelude
pub mod Table
pub mod Model
pub mod Pipeline
pub mod Labels
pub mod Contracts
pub mod Coordinator
pub mod Access
pub mod Attachments
pub mod NewsLifecycle
pub mod Rematerialization
pub mod Outbox
pub mod Submissions
pub mod Merging
pub mod Cleanup
pub mod Search
pub mod Lifecycle
mod Tests
