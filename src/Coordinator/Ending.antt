-- ===== src/Coordinator/Ending.antt =====
-- The end of a run: `finish` of pipeline_coordinator_storage.py, with `auto_publish_allowed`.
use rd_news.Prelude.{
  ℕ, suc, Bool, true, false, not, ◌&&◌, Option, none, some, List, [], ◌∷◌, ◌==◌, same_option,
  any_of, all_of, keep, map, if◌then◌else◌,
}
use rd_news.Table
use rd_news.Table.{first_by, select}
use rd_news.Model.Status.{JobStatus, AttemptStatus, NewsState, is_succeeded}
use rd_news.Model.Job.{Job, ProcessingAttempt, pipeline_result, Outcome}
use rd_news.Model.News.{News}
use rd_news.Model.Store.{Store, NewEvent, set_job, set_attempt, set_news, add_event}

-- `auto_publish_allowed`: the setting is on, and every required facet has an effective label.
unfoldable pub auto_publish_allowed : ℕ → Store → Bool
auto_publish_allowed news_id db = elim db.auto_publish [
  | none ↦ false
  | some enabled ↦
      enabled
      && all_of
          (λ (facet_id, f).
            any_of (λ e. e.news_id == news_id && e.facet_id == facet_id) db.effective)
          (select (λ k f. f.enabled && f.required) db.facets)
]

abbrev pub failed_children : List (ℕ × Job) → List (ℕ × Job)
failed_children = keep (λ (k, child). not (is_succeeded child.status))

abbrev pub is_empty_list {ℓ} : {A : Type ℓ} → List A → Bool
is_empty_list [] = true
is_empty_list (x ∷ xs) = false

abbrev pub ids {ℓ} : {A : Type ℓ} → List (ℕ × A) → List ℕ
ids = map (λ (k, x). k)

abbrev pub outcome : List (ℕ × Job) → Bool → Outcome
outcome children can_publish = record {
  children = ids children;
  failed = ids (failed_children children);
  published = can_publish;
}

abbrev pub finished_news : ℕ → Bool → News → News
finished_news now can_publish news = record news {
  status = if can_publish then NewsState.published else NewsState.needs_review;
  published_at = if can_publish then some now else news.published_at;
  current_attempt_id = none;
  revision = suc news.revision;
  visibility_revision = suc news.visibility_revision;
}

abbrev pub finished_attempt : ℕ → List (ℕ × Job) → Bool → ProcessingAttempt → ProcessingAttempt
finished_attempt now children can_publish attempt = record attempt {
  status =
      if is_empty_list (failed_children children)
      then AttemptStatus.succeeded
      else AttemptStatus.completed_with_errors;
  completed_at = some now;
  validated_result = pipeline_result (outcome children can_publish);
}

abbrev pub finished_parent : ℕ → List (ℕ × Job) → Bool → Job → Job
finished_parent now children can_publish parent = record parent {
  status = JobStatus.succeeded;
  result = pipeline_result (outcome children can_publish);
  completed_at = some now;
  owner = none;
  lease_until = none;
}

abbrev pub projection_event : ℕ → News → NewEvent
projection_event news_id news = record {
  topic = "search.projection.requested.v2";
  aggregate_id = news_id;
  payload = record {
    news_id = some news_id;
    revision = news.revision;
    status = some news.status;
    job_id = none;
    submission_id = none;
  };
}

abbrev pub finish_on :
    ℕ → ℕ → Job → List (ℕ × Job) → ℕ → News → ℕ → ProcessingAttempt → Store → Store
finish_on now parent_id parent children news_id news attempt_id attempt db =
    let can_publish = is_empty_list (failed_children children) && auto_publish_allowed news_id db in
    let news' = finished_news now can_publish news in
    add_event (projection_event news_id news') (
      set_job parent_id (finished_parent now children can_publish parent) (
        set_attempt attempt_id (finished_attempt now children can_publish attempt)
          (set_news news_id news' db)))

abbrev pub cancelled : ℕ → Job → Job
cancelled now parent = record parent { status = JobStatus.cancelled; completed_at = some now }

-- The news item and the attempt of a pipeline job, with their ids.
pub record Current : Type 0 where
  pub news_id : ℕ
  pub news : News
  pub attempt_id : ℕ
  pub attempt : ProcessingAttempt

-- They are found if the item is still on that attempt.
abbrev pub current_of :
    Option ℕ → Option ℕ → Option News → Option ProcessingAttempt → Option Current
current_of (some n) (some a) (some news) (some attempt) =
    if same_option news.current_attempt_id (some a)
    then some (record { news_id = n; news = news; attempt_id = a; attempt = attempt })
    else none
current_of _ _ _ _ = none

abbrev pub finish_found : ℕ → ℕ → Job → List (ℕ × Job) → Option Current → Store → Store
finish_found now parent_id parent children none db = set_job parent_id (cancelled now parent) db
finish_found now parent_id parent children (some r) db =
    finish_on now parent_id parent children r.news_id r.news r.attempt_id r.attempt db

unfoldable pub finish : ℕ → ℕ → Job → List (ℕ × Job) → Store → Store
finish now parent_id parent children db =
    finish_found now parent_id parent children
      (current_of parent.news_id parent.current_attempt_id (Table.get_opt parent.news_id db.news)
        (Table.get_opt parent.current_attempt_id db.attempts))
      db
