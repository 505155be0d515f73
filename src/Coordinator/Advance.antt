-- ===== src/Coordinator/Advance.antt =====
-- `start_classifiers`, `advance` and `advance_one` of pipeline_coordinator_storage.py.
use rd_news.Prelude.{
  ℕ, ◌+◌, Bool, true, false, ◌&&◌, ◌||◌, Option, none, some, List, [], ◌∷◌, leb, ◌==◌, any_of, map,
  is_none, if◌then◌else◌,
}
use rd_news.Prelude.Sort.{sorted}
use rd_news.Table
use rd_news.Table.{select}
use rd_news.Model.Status.{JobKind, is_open, is_pending}
use rd_news.Model.Result.{Result, ok, err, ◌>>=◌, key_error}
use rd_news.Model.Job.{Job, no_payload, Stage, IdText, id_text, bad_text}
use rd_news.Model.Sources.{NewsSourceLink, Source}
use rd_news.Model.Taxonomy.{Classifier}
use rd_news.Model.Store.{Store, set_job}
use rd_news.Coordinator.{Coordinator, next_parent, dead, child_job, add_jobs, start}
use rd_news.Coordinator.Ending.{finish, failed_children, is_empty_list}

abbrev pub skips : Option Source → Bool
skips none = false
skips (some source) = source.skip_classification

-- The submission of the link comes from a source whose news is not classified.
abbrev pub private_link : Store → ℕ → NewsSourceLink → Bool
private_link db news_id link =
    link.news_id == news_id && elim (Table.get link.submission_id db.submissions) [
      | none ↦ false
      | some submission ↦ skips (Table.get_opt submission.source_id db.sources)
    ]

unfoldable pub has_private_source : ℕ → Store → Bool
has_private_source news_id db = any_of (private_link db news_id) db.links

abbrev pub priority_le : ℕ × Classifier → ℕ × Classifier → Bool
priority_le (i, a) (j, b) = leb a.priority b.priority

abbrev pub classification_job : Coordinator → ℕ → ℕ → ℕ → ℕ → ℕ → Job
classification_job c now parent_id news_id attempt_id classifier_id =
    record (child_job c now JobKind.classification) {
      news_id = some news_id;
      classifier_id = some classifier_id;
      payload = record no_payload {
        parent_job_id = some parent_id;
        pipeline_attempt_id = some attempt_id;
      };
    }

abbrev pub classifying_parent : Coordinator → ℕ → List ℕ → Job → Job
classifying_parent c now children parent = record parent {
  payload = record parent.payload {
    stage = some Stage.classification;
    children = map id_text children;
  };
  available_at = now + c.cooldown;
}

abbrev pub enabled_classifiers : Store → List (ℕ × Classifier)
enabled_classifiers db = sorted priority_le (select (λ k c. c.enabled) db.classifiers)

-- One child for each enabled classifier. `parent.payload["pipeline_attempt_id"]` is read for each.
abbrev pub add_classifications :
    Coordinator → ℕ → ℕ → ℕ → Option ℕ → List (ℕ × Classifier) → Store → Result (List ℕ × Store)
add_classifications c now parent_id news_id attempt_id [] db = ok ([], db)
add_classifications c now parent_id news_id none (x ∷ xs) db = err (key_error "pipeline_attempt_id")
add_classifications c now parent_id news_id (some attempt_id) (x ∷ xs) db = ok (
    add_jobs
      (map (λ (k, classifier). classification_job c now parent_id news_id attempt_id k) (x ∷ xs))
      db)

abbrev pub classify_on : Coordinator → ℕ → ℕ → Job → ℕ → Store → Result Store
classify_on c now parent_id parent news_id db =
    if has_private_source news_id db then ok (finish now parent_id parent [] db) else do
      (children, db') ←
          add_classifications c now parent_id news_id parent.payload.pipeline_attempt_id
            (enabled_classifiers db) db
      ok (set_job parent_id (classifying_parent c now children parent) db')

unfoldable pub start_classifiers : Coordinator → ℕ → ℕ → Job → Store → Result Store
start_classifiers c now parent_id parent db = elim parent.news_id [
  | none ↦ ok (set_job parent_id (dead now "pipeline news is missing" parent) db)
  | some news_id ↦ classify_on c now parent_id parent news_id db
]

-- `[uuid.UUID(value) for value in children]`
unfoldable pub child_ids : List IdText → Option (List ℕ)
child_ids [] = some []
child_ids (bad_text s ∷ rest) = none
child_ids (id_text k ∷ rest) = elim (child_ids rest) [ none ↦ none | some ids ↦ some (k ∷ ids) ]

abbrev pub children_of : List ℕ → Store → List (ℕ × Job)
children_of ids db = select (λ k child. any_of (λ j. j == k) ids) db.jobs

abbrev pub any_open : List (ℕ × Job) → Bool
any_open = any_of (λ (k, child). is_open child.status)

abbrev pub is_attachments : Option Stage → Bool
is_attachments (some Stage.attachments) = true
is_attachments _ = false

abbrev pub postponed : Coordinator → ℕ → Job → Job
postponed c now parent = record parent { available_at = now + c.cooldown }

abbrev pub advance_with : Coordinator → ℕ → ℕ → Job → List (ℕ × Job) → Store → Result Store
advance_with c now parent_id parent children db =
    if any_open children
    then ok (set_job parent_id (postponed c now parent) db)
    else if is_attachments parent.payload.stage && is_empty_list (failed_children children)
    then start_classifiers c now parent_id parent db
    else ok (finish now parent_id parent children db)

unfoldable pub advance : Coordinator → ℕ → ℕ → Job → Store → Result Store
unfolding child_ids
advance c now parent_id parent db = elim (child_ids parent.payload.children) [
  | none ↦ ok (set_job parent_id (dead now "pipeline child list is invalid" parent) db)
  | some ids ↦ advance_with c now parent_id parent (children_of ids db) db
]

abbrev pub advance_parent : Coordinator → ℕ → ℕ → Job → Store → Result Store
advance_parent c now parent_id parent db =
    if is_pending parent.status || is_none parent.payload.stage
    then ok (start c now parent_id parent db)
    else advance c now parent_id parent db

abbrev pub done : Result Store → Result (Bool × Store)
done (ok db) = ok (true, db)
done (err e) = err e

abbrev pub advance_next : Coordinator → ℕ → Option (ℕ × Job) → Store → Result (Bool × Store)
advance_next c now none db = ok (false, db)
advance_next c now (some (parent_id, parent)) db = done (advance_parent c now parent_id parent db)

-- `advance_one`: whether there was a job to advance.
unfoldable pub advance_one : Coordinator → ℕ → Store → Result (Bool × Store)
advance_one c now db = advance_next c now (next_parent now db) db
