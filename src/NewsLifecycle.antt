-- ===== src/NewsLifecycle.antt =====
-- `SqlAlchemyNewsLifecycleStorage` of news_administration/lifecycle.py, with its base class
-- news_administration/base.py.
pub mod Laws
use rd_news.Prelude.{
  ℕ, suc, ◌+◌, String, Bool, true, false, not, ◌&&◌, Option, none, some, List, [], ◌∷◌, ◌==◌,
  str_eq, any_of, keep, max, if◌then◌else◌,
}
use rd_news.Table
use rd_news.Table.{select}
use rd_news.Model.Status.{JobKind, JobStatus, NewsState, same_state}
use rd_news.Model.Result.{
  Error, Result, ok, err, ◌>>=◌, ◌>>◌, guard, require, conflict, not_found, validation, other_error,
}
use rd_news.Model.Job.{Job, no_payload, no_result}
use rd_news.Model.News.{News, NewsVersion}
use rd_news.Model.Outbox.{AuditEntry}
use rd_news.Model.Store.{Store, NewEvent, set_news, add_job, add_event, add_version, add_audit}

-- `get`: a deleted item is not found.
abbrev pub visible : Option News → Result News
visible none = err (not_found "news not found")
visible (some news) =
    if same_state news.status NewsState.deleted then err (not_found "news not found") else ok news

unfoldable pub get : ℕ → Store → Result News
get news_id db = visible (Table.get news_id db.news)

abbrev pub news_event : String → ℕ → News → Option ℕ → NewEvent
news_event topic news_id news job_id = record {
  topic = topic;
  aggregate_id = news_id;
  payload = record {
    news_id = some news_id;
    revision = news.revision;
    status = some news.status;
    job_id = job_id;
    submission_id = none;
  };
}

abbrev pub audit_entry : String → String → ℕ → AuditEntry
audit_entry actor action news_id = record { actor = actor; action = action; entity_id = news_id }

abbrev pub state_name : NewsState → String
state_name NewsState.pending = "pending"
state_name NewsState.processing = "processing"
state_name NewsState.needs_review = "needs_review"
state_name NewsState.published = "published"
state_name NewsState.rejected = "rejected"
state_name NewsState.archived = "archived"
state_name NewsState.deleted = "deleted"

-- `news.status in allowed[target]`, the target first
abbrev pub may_become : NewsState → NewsState → Bool
may_become NewsState.published NewsState.pending = true
may_become NewsState.published NewsState.processing = true
may_become NewsState.published NewsState.needs_review = true
may_become NewsState.published NewsState.rejected = true
may_become NewsState.rejected NewsState.pending = true
may_become NewsState.rejected NewsState.processing = true
may_become NewsState.rejected NewsState.needs_review = true
may_become NewsState.rejected NewsState.published = true
may_become NewsState.archived NewsState.published = true
may_become NewsState.archived NewsState.rejected = true
may_become NewsState.deleted status = not (same_state status NewsState.deleted)
may_become _ _ = false

abbrev pub moved_news : ℕ → NewsState → News → News
moved_news now target news = record news {
  status = target;
  revision = suc news.revision;
  visibility_revision = suc news.visibility_revision;
  published_at = if same_state target NewsState.published then some now else news.published_at;
  deleted_at = if same_state target NewsState.deleted then some now else news.deleted_at;
}

abbrev pub moved : ℕ → ℕ → News → NewsState → String → Store → Store
moved now news_id news target actor db =
    let news' = moved_news now target news in
    add_audit (audit_entry actor (state_name target) news_id) (
      add_event (news_event "search.projection.requested.v2" news_id news' none)
        (set_news news_id news' db))

unfoldable pub transition : ℕ → ℕ → News → NewsState → String → Store → Result Store
transition now news_id news target actor db = do
  guard (may_become target news.status) (conflict "cannot transition")
  ok (moved now news_id news target actor db)

abbrev pub pipeline_job : ℕ → ℕ → ℕ → News → Job
pipeline_job max_attempts now news_id news = record {
  kind = JobKind.pipeline;
  status = JobStatus.pending;
  submission_id = none;
  news_id = some news_id;
  classifier_id = none;
  current_attempt_id = none;
  generation = news.revision + 1;
  attempt_count = 0;
  max_attempts = max_attempts;
  available_at = now;
  created_at = now;
  lease_until = none;
  owner = none;
  payload = no_payload;
  result = no_result;
  last_error = none;
  completed_at = none;
}

abbrev pub reset_news : News → News
reset_news news = record news {
  status = NewsState.pending;
  current_attempt_id = none;
  revision = suc news.revision;
  visibility_revision = suc news.visibility_revision;
}

-- `reprocess`: the id of the new job, and the store
unfoldable pub reprocess : ℕ → ℕ → ℕ → News → String → Store → ℕ × Store
reprocess max_attempts now news_id news actor db =
    let job_id = db.next_id in
    let news' = reset_news news in
    (
      job_id,
      add_audit (audit_entry actor "reprocess" news_id) (
          add_event (news_event "classification.requested.v2" news_id news' (some job_id))
            (set_news news_id news' (add_job (pipeline_job max_attempts now news_id news) db))),
    )

abbrev pub editable : List String
editable =
    "title" ∷ "body_md" ∷ "source_link" ∷ "source_text" ∷ "language" ∷ "source_published_at"
    ∷ "extra" ∷ []

abbrev pub is_editable : String × String → Bool
is_editable (name, value) = any_of (str_eq name) editable

-- `values.update(changes)`
unfoldable pub updated : (String → String) → List (String × String) → String → String
updated values [] name = values name
updated values ((changed, value) ∷ rest) name =
    let others = updated values rest name in if str_eq changed name then value else others

-- `max(number)` of the item's versions, or 0
unfoldable pub latest_number : List (ℕ × NewsVersion) → ℕ
latest_number [] = 0
latest_number ((k, version) ∷ rest) = max version.number (latest_number rest)

abbrev pub versions_of : ℕ → Store → List (ℕ × NewsVersion)
versions_of news_id db = select (λ k version. version.news_id == news_id) db.versions

abbrev pub next_version : ℕ → List (String × String) → String → NewsVersion → Store → NewsVersion
next_version news_id changes actor current db = record {
  news_id = news_id;
  number = latest_number (versions_of news_id db) + 1;
  created_by = actor;
  values = updated current.values changes;
}

abbrev pub edited_news : ℕ → News → News
edited_news version_id news = record news {
  current_version_id = some version_id;
  revision = suc news.revision;
  visibility_revision = suc news.visibility_revision;
}

abbrev pub announce : ℕ → News → Store → Store
announce news_id news db =
    if same_state news.status NewsState.published
    then add_event (news_event "search.projection.requested.v2" news_id news none) db
    else db

abbrev pub all_editable : List (String × String) → Bool
all_editable [] = true
all_editable (change ∷ rest) = is_editable change && all_editable rest

-- `edit`: an item without its current version has no values to read.
unfoldable pub edit : ℕ → News → List (String × String) → String → Store → Result Store
unfolding latest_number updated
edit news_id news changes actor db = do
  guard (all_editable changes) (validation "unsupported fields")
  current ←
      require (Table.get_opt news.current_version_id db.versions) (other_error "AttributeError")
  let news' = edited_news db.next_id news
  ok (
      announce news_id news'
        (set_news news_id news' (add_version (next_version news_id changes actor current db) db)))
