-- ===== src/Tests/Data.antt =====
-- A small store: a news item with one version, one classifier and one classification job.
use rd_news.Outbox.Json.{Fields}
use rd_news.Prelude.{true, false, none, some, [], ◌∷◌}
use rd_news.Prelude.Int.{pos}
use rd_news.Table
use rd_news.Model.Status.{JobKind, JobStatus, NewsState}
use rd_news.Model.Result.{Error, Result, ok, err, classifier_protocol}
use rd_news.Model.Job.{Job, ClaimedAttempt, PipelineRuntime, id_text, no_payload, no_result}
use rd_news.Model.News.{News, NewsVersion}
use rd_news.Model.Taxonomy.{Classifier, Facet, FacetValue, FacetKind}
use rd_news.Model.Store.{Store, empty_store}
use rd_news.Labels.Confidence.{finite}
use rd_news.Labels.Normalization.{ProposedLabel}
use rd_news.Pipeline.Applier.{Response}

abbrev pub runtime : PipelineRuntime
runtime = record {
  node_id = "node";
  callback_audience = "main";
  callback_timeout = 60;
  lease_seconds = 30;
  cooldown = 5;
  protector = none;
}

abbrev pub item : News
item = record {
  status = NewsState.processing;
  current_version_id = some 4;
  current_attempt_id = none;
  revision = 1;
  visibility_revision = 1;
  urgency = 0;
  impact = 0;
  editorial_priority = 0;
  importance = 0;
  manual_facets = [];
  published_at = none;
  deleted_at = none;
}

abbrev pub version : NewsVersion
version = record { news_id = 1; number = 1; created_by = "writer"; values = λ name. "old" }

abbrev pub ai : Classifier
ai = record {
  slug = "ai";
  allowed_axes = [];
  issuer = none;
  node_id = none;
  signing_public_key = some "key";
  enabled = true;
  shadow = false;
  priority = 1;
  min_confidence = 2;
}

abbrev pub topic : Facet
topic = record {
  slug = "topic";
  kind = FacetKind.single;
  required = true;
  enabled = true;
  position = 0;
}

abbrev pub sport : FacetValue
sport = record { facet_id = 5; slug = "sport"; enabled = true; position = 0 }

abbrev pub task : Job
task = record {
  kind = JobKind.classification;
  status = JobStatus.pending;
  submission_id = none;
  news_id = some 1;
  classifier_id = some 2;
  current_attempt_id = none;
  generation = 1;
  attempt_count = 0;
  max_attempts = 3;
  available_at = 10;
  created_at = 10;
  lease_until = none;
  owner = none;
  payload = no_payload;
  result = no_result;
  last_error = none;
  completed_at = none;
}

abbrev pub before : Store
before = record empty_store {
  jobs = Table.put 3 task Table.empty;
  news = Table.put 1 item Table.empty;
  versions = Table.put 4 version Table.empty;
  classifiers = Table.put 2 ai Table.empty;
  facets = Table.put 5 topic Table.empty;
  facet_values = Table.put 6 sport Table.empty;
  next_id = 10;
}

-- The first claim of the job, and the second one after a failure.
abbrev pub first_claim : ClaimedAttempt
first_claim = record { job_id = 3; attempt_id = 10; generation = 2 }

abbrev pub second_claim : ClaimedAttempt
second_claim = record { job_id = 3; attempt_id = 11; generation = 3 }

abbrev pub proposal : ProposedLabel
proposal = record {
  axis = "topic";
  value = "sport";
  confidence = finite (pos 9);
  reason = none;
  evidence = [];
}

abbrev pub answer : Response
answer = record {
  job_id = id_text 3;
  attempt_id = id_text 10;
  classifier = "ai";
  node_id = "ai";
  error = none;
  labels = proposal ∷ [];
  trace = none;
  dump = Fields.end;
}

abbrev pub timeout : Error
timeout = classifier_protocol "timeout"

-- The store of a transaction that committed.
abbrev pub committed : Result Store → Store
committed (ok db) = db
committed (err e) = empty_store
