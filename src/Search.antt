-- ===== src/Search.antt =====
-- The search projections: `SearchIndexer` of infra/clients/search/indexer.py, and the request for a
-- projection in core/workers.py. What the search server answers is an argument.
pub mod Serves
pub mod Laws
use rd_news.Prelude.{
  ℕ, ◌+◌, String, Bool, true, false, not, ◌&&◌, ◌||◌, Option, none, some, List, [], ◌∷◌, leb, ltb,
  ◌==◌, str_eq, max, if◌then◌else◌, is_some, is_none, any_of,
}
use rd_news.Table
use rd_news.Table.{Table, first_by, select}
use rd_news.Model.Status.{NewsState, same_state, is_pending}
use rd_news.Model.Job.{Job}
use rd_news.Model.News.{News}
use rd_news.Model.Result.{Error, Result, ok, err, guard, other_error, error_name}
use rd_news.Model.Store.{Store, set_job}

pub data ProjectionStatus : Type 0 where
  pending indexing ready failed : ProjectionStatus

pub record SearchProjection : Type 0 where
  pub desired_revision : ℕ
  pub indexed_revision : ℕ
  pub visibility_revision : ℕ
  pub task_uid : Option ℕ
  pub status : ProjectionStatus
  pub error : Option String
  pub updated_at : ℕ

abbrev pub Projections : Type 0
Projections = Table SearchProjection

pub record ProjectionWork : Type 0 where
  pub news_id : ℕ
  pub revision : ℕ
  pub visibility_revision : ℕ
  pub existing_task_uid : Option ℕ

abbrev pub is_waiting : ProjectionStatus → Bool
is_waiting ProjectionStatus.pending = true
is_waiting _ = false

abbrev pub is_ready : ProjectionStatus → Bool
is_ready ProjectionStatus.ready = true
is_ready _ = false

abbrev pub has_failed : ProjectionStatus → Bool
has_failed ProjectionStatus.failed = true
has_failed _ = false

-- `updated_at <= now - lease`
unfoldable pub claimable : ℕ → ℕ → ℕ → SearchProjection → Bool
claimable lease now k p =
    ltb p.indexed_revision p.desired_revision
    && not (is_ready p.status)
    && (is_waiting p.status || leb (p.updated_at + lease) now)

-- `order_by(updated_at, news_id)`
abbrev pub projection_before : ℕ × SearchProjection → ℕ × SearchProjection → Bool
projection_before (i, a) (j, b) =
    ltb a.updated_at b.updated_at || a.updated_at == b.updated_at && ltb i j

abbrev pub indexing_projection : ℕ → SearchProjection → SearchProjection
indexing_projection now p = record p { status = ProjectionStatus.indexing; updated_at = now }

abbrev pub work_of : ℕ → SearchProjection → ProjectionWork
work_of k p = record {
  news_id = k;
  revision = p.desired_revision;
  visibility_revision = p.visibility_revision;
  existing_task_uid = p.task_uid;
}

abbrev pub take_work :
    ℕ → Option (ℕ × SearchProjection) → Projections → Option ProjectionWork × Projections
take_work now none ps = (none, ps)
take_work now (some (k, p)) ps = (some (work_of k p), Table.put k (indexing_projection now p) ps)

-- `_claim_one`
unfoldable pub claim_one : ℕ → ℕ → Projections → Option ProjectionWork × Projections
claim_one lease now ps =
    take_work now (first_by projection_before (select (claimable lease now) ps)) ps

abbrev pub store_row : ℕ → ProjectionWork → ℕ → Option SearchProjection → Projections → Projections
store_row now work uid none ps = ps
store_row now work uid (some p) ps =
    if p.desired_revision == work.revision
    then Table.put work.news_id (record p { task_uid = some uid; updated_at = now }) ps
    else ps

-- `_store_task`
abbrev pub store_task : ℕ → ProjectionWork → ℕ → Projections → Projections
store_task now work uid ps = store_row now work uid (Table.get work.news_id ps) ps

-- A row that changes is stamped by the database (`onupdate` of timestamp_mixin.py).
abbrev pub awaiting : ℕ → ℕ → SearchProjection → SearchProjection
awaiting now revision p = record p {
  desired_revision = revision;
  status = ProjectionStatus.pending;
  task_uid = none;
  updated_at =
      if p.desired_revision == revision && is_waiting p.status && is_none p.task_uid
      then p.updated_at
      else now;
}

abbrev pub behind : ℕ → News → SearchProjection → SearchProjection
behind now news p = awaiting now (max p.desired_revision news.revision) p

abbrev pub indexed : ℕ → ProjectionWork → News → SearchProjection → SearchProjection
indexed now work news p = record p {
  indexed_revision = work.revision;
  visibility_revision = news.visibility_revision;
  status = ProjectionStatus.ready;
  task_uid = none;
  error = none;
  updated_at = now;
}

-- The item has moved on while it was indexed, or it is indexed.
abbrev pub completed : ℕ → ProjectionWork → News → SearchProjection → SearchProjection
completed now work news p =
    if p.desired_revision == work.revision && news.revision == work.revision
    then indexed now work news p
    else behind now news p

abbrev pub complete_row :
    ℕ → ProjectionWork → Option SearchProjection → Option News → Projections → Projections
complete_row now work (some p) (some news) ps =
    Table.put work.news_id (completed now work news p) ps
complete_row now work _ _ ps = ps

-- `_complete`
unfoldable pub complete : ℕ → ProjectionWork → Store → Projections → Projections
complete now work db ps =
    complete_row now work (Table.get work.news_id ps) (Table.get work.news_id db.news) ps

abbrev pub is_task_failure : Error → Bool
is_task_failure (other_error name) = str_eq name "SearchTaskFailed"
is_task_failure _ = false

abbrev pub failed_projection : ℕ → Error → SearchProjection → SearchProjection
failed_projection now error p = record p {
  status = ProjectionStatus.failed;
  error = some (error_name error);
  task_uid = if is_task_failure error then none else p.task_uid;
  updated_at = now;
}

abbrev pub fail_row :
    ℕ → ProjectionWork → Error → Option SearchProjection → Projections → Projections
fail_row now work error none ps = ps
fail_row now work error (some p) ps = Table.put work.news_id (failed_projection now error p) ps

-- `_fail`
abbrev pub fail : ℕ → ProjectionWork → Error → Projections → Projections
fail now work error ps = fail_row now work error (Table.get work.news_id ps) ps

-- The search server: how the building of the document fails, the task of a new or removed
-- document, and how a task fails.
pub record Server : Type 0 where
  pub document : ProjectionWork → Option Error
  pub submit : ProjectionWork → Result ℕ
  pub wait_task : ℕ → Option Error

-- What other transactions do to the projections while a task is submitted, and while it is waited
-- for: a round is several transactions.
pub record Gaps : Type 0 where
  pub submitting : Projections → Projections
  pub waiting : Projections → Projections

abbrev pub finish_task : ℕ → ProjectionWork → Store → Option Error → Projections → Projections
finish_task now work db none ps = complete now work db ps
finish_task now work db (some error) ps = fail now work error ps

abbrev pub submitted :
    Server → Gaps → ℕ → ProjectionWork → Store → Result ℕ → Projections → Projections
submitted server gaps now work db (err error) ps = fail now work error ps
submitted server gaps now work db (ok uid) ps =
    finish_task now work db (server.wait_task uid) (gaps.waiting (store_task now work uid ps))

abbrev pub index_work :
    Server → Gaps → ℕ → ProjectionWork → Store → Option ℕ → Projections → Projections
index_work server gaps now work db (some uid) ps =
    finish_task now work db (server.wait_task uid) (gaps.waiting ps)
index_work server gaps now work db none ps =
    submitted server gaps now work db (server.submit work) ps

abbrev pub index_document :
    Server → Gaps → ℕ → ProjectionWork → Store → Option Error → Projections → Projections
index_document server gaps now work db (some error) ps = fail now work error ps
index_document server gaps now work db none ps =
    index_work server gaps now work db work.existing_task_uid ps

abbrev pub process_work :
    Server → Gaps → ℕ → Store → Option ProjectionWork → Projections → Bool × Projections
process_work server gaps now db none ps = (false, ps)
process_work server gaps now db (some work) ps =
    (true, index_document server gaps now work db (server.document work) (gaps.submitting ps))

-- `process_claimed`; `db` is the store when the task is done.
unfoldable pub process_claimed : Server → Gaps → ℕ → ℕ → Store → Projections → Bool × Projections
process_claimed server gaps lease now db ps =
    let claim = claim_one lease now ps in process_work server gaps now db claim.0 claim.1

abbrev pub new_projection : ℕ → SearchProjection
new_projection now = record {
  desired_revision = 0;
  indexed_revision = 0;
  visibility_revision = 0;
  task_uid = none;
  status = ProjectionStatus.pending;
  error = none;
  updated_at = now;
}

abbrev pub projection_or_new : ℕ → Option SearchProjection → SearchProjection
projection_or_new now none = new_projection now
projection_or_new now (some p) = p

-- `int(payload.get("revision") or news.revision)`
abbrev pub requested_revision : Option ℕ → News → ℕ
requested_revision none news = news.revision
requested_revision (some revision) news = if revision == 0 then news.revision else revision

abbrev pub requested : ℕ → Option ℕ → News → SearchProjection → SearchProjection
requested now revision news p =
    awaiting now (max (max p.desired_revision (requested_revision revision news)) news.revision) p

abbrev pub request_row : ℕ → ℕ → Option ℕ → Option News → Projections → Projections
request_row now news_id revision none ps = ps
request_row now news_id revision (some news) ps =
    Table.put news_id (requested now revision news (projection_or_new now (Table.get news_id ps)))
      ps

-- The part of `_release_referenced_job` on the item of an event.
unfoldable pub request_projection : ℕ → ℕ → Option ℕ → Store → Projections → Projections
request_projection now news_id revision db ps =
    request_row now news_id revision (Table.get news_id db.news) ps

abbrev pub released : ℕ → ℕ → Option Job → Store → Store
released now job_id none db = db
released now job_id (some job) db =
    if is_pending job.status then set_job job_id (record job { available_at = now }) db else db

-- The part of `_release_referenced_job` on the job of an event.
unfoldable pub release_job : ℕ → ℕ → Store → Store
release_job now job_id db = released now job_id (Table.get job_id db.jobs) db

abbrev stale : News → Option SearchProjection → Bool
stale news none = true
stale news (some p) = ltb p.visibility_revision news.visibility_revision || has_failed p.status

abbrev pub needs_projection : Option News → Option SearchProjection → Bool
needs_projection none p = false
needs_projection (some news) p =
    (same_state news.status NewsState.published || ltb 1 news.visibility_revision) && stale news p

-- `assert_visibility_ready`
unfoldable pub assert_visibility_ready : Store → Projections → Result (Unit {0})
assert_visibility_ready db ps =
    guard (not (any_of (λ k. needs_projection (Table.get k db.news) (Table.get k ps)) db.news.keys))
      (other_error "SearchNotReady")
