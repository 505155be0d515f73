-- ===== src/Rematerialization.antt =====
-- `SqlAlchemyRematerializationStorage` of rematerialization_storage.py: a job that recomputes the
-- labels of the items in a scope, a batch in each transaction, with a cursor in its payload.
pub mod Frame
pub mod Claim
pub mod Ends
pub mod Chunk
pub mod Rounds
use Prim.Native.String.{◌++◌ as text_append}
use rd_news.Prelude.{
  ℕ, suc, ◌+◌, String, Bool, true, false, not, ◌&&◌, ◌||◌, Option, none, some, List, [], ◌∷◌, leb,
  ltb, ◌==◌, str_eq, any_of, keep, take, if◌then◌else◌, is_some,
}
use rd_news.Prelude.Sort.{sorted}
use rd_news.Prelude.Text.{is_empty, starts_with}
use rd_news.Prelude.Members.{last_of}
use rd_news.Prelude.Uuid.{uuid_text}
use rd_news.Table
use rd_news.Table.{Table, first_by, select}
use rd_news.Model.Status.{JobKind, JobStatus, NewsState, same_kind, same_state, is_pending}
use rd_news.Model.Job.{Job, Payload, IdText, id_text, bad_text}
use rd_news.Model.News.{News}
use rd_news.Model.Labels.{Origin, NewsLabel, ManualLabelDecision}
use rd_news.Model.Result.{Error, Result, ok, err, error_name, other_error, ◌>>=◌}
use rd_news.Model.Store.{Store, set_job, add_event}
use rd_news.Labels.Materializer.{recompute}
use rd_news.NewsLifecycle.{news_event}

-- The arguments of the storage's constructor.
pub record Worker : Type 0 where
  pub node_id : String
  pub lease_seconds : ℕ
  pub cooldown_seconds : ℕ
  pub batch_size : ℕ

-- `Job.status == "running"`
abbrev pub is_running : JobStatus → Bool
is_running JobStatus.running = true
is_running _ = false

-- `lease_until < now`, which a missing lease does not pass
abbrev pub lapsed : ℕ → Option ℕ → Bool
lapsed now none = false
lapsed now (some until) = ltb until now

unfoldable pub ready : ℕ → ℕ → Job → Bool
ready now id job =
    same_kind job.kind JobKind.rematerialization
    && leb job.available_at now
    && (is_pending job.status || is_running job.status && lapsed now job.lease_until)

-- `order_by(Job.available_at, Job.id)`
abbrev pub ready_before : ℕ × Job → ℕ × Job → Bool
ready_before (i, a) (j, b) =
    ltb a.available_at b.available_at || a.available_at == b.available_at && ltb i j

abbrev pub leased_job : Worker → ℕ → Job → Job
leased_job worker now job = record job {
  status = JobStatus.running;
  owner = some worker.node_id;
  lease_until = some (now + worker.lease_seconds);
  attempt_count = suc job.attempt_count;
}

abbrev pub take_lease : Worker → ℕ → Option (ℕ × Job) → Store → Option ℕ × Store
take_lease worker now none db = (none, db)
take_lease worker now (some (id, job)) db = (some id, set_job id (leased_job worker now job) db)

-- `_claim_one`
unfoldable pub claim_one : Worker → ℕ → Store → Option ℕ × Store
claim_one worker now db =
    take_lease worker now (first_by ready_before (select (ready now) db.jobs)) db

-- `uuid.UUID(str(text))`
abbrev pub as_uuid : Option IdText → Result ℕ
as_uuid (some (id_text k)) = ok k
as_uuid _ = err (other_error "ValueError")

-- `f"{scope_id}:"`
abbrev pub key_prefix : Option IdText → String
key_prefix none = "None:"
key_prefix (some (id_text k)) = text_append (uuid_text k) ":"
key_prefix (some (bad_text s)) = text_append s ":"

abbrev by_classifier : Origin → Bool
by_classifier Origin.classifier = true
by_classifier Origin.shadow = true
by_classifier _ = false

-- `exists(...)`
abbrev has_any {ℓ} : {A : Type ℓ} → List A → Bool
has_any [] = false
has_any (x ∷ xs) = true

-- A condition on an item's id, on the opinions and the manual decisions.
abbrev pub Scope : Type 0
Scope = Table NewsLabel → Table ManualLabelDecision → ℕ → Bool

abbrev pub with_classifier : String → Scope
with_classifier prefix labels decisions k = has_any (
    select
      (λ i label.
        label.news_id == k && by_classifier label.origin && starts_with prefix label.origin_key)
      labels)

abbrev pub with_facet : ℕ → Scope
with_facet facet_id labels decisions k =
    has_any (select (λ i label. label.news_id == k && label.facet_id == facet_id) labels)
    || has_any
        (select (λ i decision. decision.news_id == k && decision.facet_id == facet_id) decisions)

abbrev pub with_value : ℕ → Scope
with_value value_id labels decisions k =
    has_any (select (λ i label. label.news_id == k && label.value_id == value_id) labels)

-- `str(payload.get("scope") or "all")`
abbrev pub scope_name : Option String → String
scope_name none = "all"
scope_name (some s) = if is_empty s then "all" else s

-- The scope's test, or the error of one that is not known.
unfoldable pub scope_test : String → Option IdText → Result Scope
scope_test scope scope_id =
    if str_eq scope "classifier"
    then ok (with_classifier (key_prefix scope_id))
    else if str_eq scope "facet"
    then as_uuid scope_id >>= (λ k. ok (with_facet k))
    else if str_eq scope "value"
    then as_uuid scope_id >>= (λ k. ok (with_value k))
    else if str_eq scope "all"
    then ok (λ labels decisions k. true)
    else err (other_error "ValueError")

-- `News.id > uuid.UUID(str(cursor))`, where there is a cursor
unfoldable pub cursor_test : Option IdText → Result (ℕ → Bool)
cursor_test none = ok (λ k. true)
cursor_test (some (id_text c)) = ok (λ k. ltb c k)
cursor_test (some (bad_text s)) =
    if is_empty s then ok (λ k. true) else err (other_error "ValueError")

abbrev not_deleted : Option News → Bool
not_deleted none = false
not_deleted (some news) = not (same_state news.status NewsState.deleted)

-- `News.status != "deleted"`, of the row with this id
abbrev pub is_live : Store → ℕ → Bool
is_live db k = not_deleted (Table.get k db.news)

-- The `where` clauses of the query.
abbrev pub wanted : (ℕ → Bool) → Scope → Store → ℕ → Bool
wanted above scope db k = is_live db k && above k && scope db.labels db.decisions k

abbrev pub wanted_ids : (ℕ → Bool) → Scope → Store → List ℕ
wanted_ids above scope db = keep (wanted above scope db) db.news.keys

-- `_news_ids`
unfoldable pub news_ids : Worker → Payload → Store → Result (List ℕ)
news_ids worker payload db = cursor_test payload.cursor >>= (λ above.
    scope_test (scope_name payload.scope) payload.scope_id
    >>= (λ scope. ok (take worker.batch_size (sorted leb (wanted_ids above scope db)))))

abbrev pub project : ℕ → Option News → Store → Store
project k none db = db
project k (some news) db = add_event (news_event "search.projection.requested.v2" k news none) db

abbrev recomputed : ℕ → News → Store → Store
recomputed k news db = project k (Table.get k db.news) db

abbrev pub recompute_found : ℕ → Option News → Store → Store
recompute_found k none db = db
recompute_found k (some news) db =
    if same_state news.status NewsState.deleted then db else recomputed k news (recompute k news db)

-- The loop over the batch.
unfoldable pub recompute_each : List ℕ → Store → Store
recompute_each [] db = db
recompute_each (k ∷ ks) db = recompute_each ks (recompute_found k (Table.get k db.news) db)

abbrev pub done_job : ℕ → Job → Job
done_job now job = record job {
  status = JobStatus.succeeded;
  completed_at = some now;
  owner = none;
  lease_until = none;
}

abbrev pub paused_job : ℕ → ℕ → Job → Job
paused_job now cursor job = record job {
  payload = record job.payload { cursor = some (id_text cursor) };
  status = JobStatus.pending;
  available_at = now;
  owner = none;
  lease_until = none;
}

abbrev is_owner : Worker → Option String → Bool
is_owner worker none = false
is_owner worker (some owner) = str_eq owner worker.node_id

-- The job is still this worker's.
abbrev pub holds : Worker → Job → Bool
holds worker job = is_running job.status && is_owner worker job.owner

abbrev pub process_ids : ℕ → ℕ → Job → List ℕ → Store → Store
process_ids now id job [] db = set_job id (done_job now job) db
process_ids now id job (k ∷ ks) db =
    set_job id (paused_job now (last_of k ks) job) (recompute_each (k ∷ ks) db)

abbrev pub process_held : Worker → ℕ → ℕ → Option Job → Store → Result Store
process_held worker now id none db = ok db
process_held worker now id (some job) db =
    if holds worker job
    then news_ids worker job.payload db >>= (λ ids. ok (process_ids now id job ids db))
    else ok db

-- `_process_chunk`
unfoldable pub process_chunk : Worker → ℕ → ℕ → Store → Result Store
process_chunk worker now id db = process_held worker now id (Table.get id db.jobs) db

abbrev pub retried_job : Worker → ℕ → Error → Job → Job
retried_job worker now error job = record job {
  status = JobStatus.pending;
  available_at = now + worker.cooldown_seconds;
  owner = none;
  lease_until = none;
  last_error = some (error_name error);
}

abbrev pub retry_held : Worker → ℕ → ℕ → Error → Option Job → Store → Store
retry_held worker now id error none db = db
retry_held worker now id error (some job) db =
    if holds worker job then set_job id (retried_job worker now error job) db else db

-- `_retry`
unfoldable pub retry : Worker → ℕ → ℕ → Error → Store → Store
retry worker now id error db = retry_held worker now id error (Table.get id db.jobs) db

abbrev pub chunk_or_retry : Worker → ℕ → ℕ → Store → Result Store → Store
chunk_or_retry worker now id db (ok db') = db'
chunk_or_retry worker now id db (err error) = retry worker now id error db

abbrev pub process_claimed : Worker → ℕ → Option ℕ → Store → Bool × Store
process_claimed worker now none db = (false, db)
process_claimed worker now (some id) db =
    (true, chunk_or_retry worker now id db (process_chunk worker now id db))

-- `process_one`: claimed at `now`, processed at `later`.
unfoldable pub process_one : Worker → ℕ → ℕ → Store → Bool × Store
process_one worker now later db =
    let claim = claim_one worker now db in process_claimed worker later claim.0 claim.1
