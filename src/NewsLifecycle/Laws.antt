-- ===== src/NewsLifecycle/Laws.antt =====
-- What a reviewer's decisions do, and what they do to the pipeline runs that are under way.
use mathlib.Core.Path.{subst}
use rd_news.Prelude.{
  ℕ, suc, ◌≤◌, ◌<◌, String, ◌≡◌, refl, ap, ◌∙◌, Bool, true, false, Option, none, some, List, [],
  ◌∷◌, ◌++◌, ◌||◌, arith, All, All-map, any_of, str_eq, ◌==◌, ==_iff, eq_iff, ◌⊎◌, inl, inr,
}
use rd_news.Table
use rd_news.Model.Status.{NewsState, same_state}
use rd_news.Model.Result.{
  ok, err, ok-injective, ◌>>=◌, ◌>>◌, guard, require, conflict, not_found, validation, other_error,
}
use rd_news.Model.Job.{Job, ProcessingAttempt}
use rd_news.Model.News.{News, NewsVersion}
use rd_news.Model.Store.{Store, set_job, set_news, add_version}
use rd_news.Coordinator.{advanceable}
use rd_news.Coordinator.Ending.{finish, cancelled}
use rd_news.Coordinator.Finish.{finish-superseded}
use rd_news.Pipeline.Applier.{is_current}
use rd_news.NewsLifecycle.{
  get, transition, may_become, moved, moved_news, news_event, audit_entry, state_name, reprocess,
  pipeline_job, reset_news, edit, all_editable, edited_news, next_version, announce, latest_number,
  versions_of, updated,
}

-- The moves of a reviewer: a deleted item does not move, an archived one can only be deleted, an
-- item is archived only from where a reviewer has decided on it, and no move leads back to the
-- pipeline.
pub record IsLegal (status target : NewsState) : Type 0 where
  pub not_deleted : same_state status NewsState.deleted ≡ false
  pub changes : same_state target status ≡ false
  pub from_archive :
      same_state status NewsState.archived ≡ true → same_state target NewsState.deleted ≡ true
  pub to_archive :
      same_state target NewsState.archived ≡ true
      → same_state status NewsState.published || same_state status NewsState.rejected ≡ true
  pub decided :
      same_state target NewsState.pending
        || same_state target NewsState.processing
        || same_state target NewsState.needs_review
      ≡ false

may_become-IsLegal :
    (target status : NewsState) → may_become target status ≡ true → IsLegal status target
may_become-IsLegal target status h = record {
  not_deleted = ground arith;
  changes = ground arith;
  from_archive = λ a. ground arith;
  to_archive = λ a. ground arith;
  decided = ground arith;
}

-- What a transition leaves.
pub record Transitioned (now news_id : ℕ) (news : News) (target : NewsState) (actor : String)
    (db db' : Store) : Type 0 where
  pub legal : IsLegal news.status target
  pub news' : News
  pub there : Table.get news_id db'.news ≡ some news'
  pub state : news'.status ≡ target
  pub revised : news'.revision ≡ suc news.revision
  pub published : same_state target NewsState.published ≡ true → news'.published_at ≡ some now
  pub deleted :
      same_state target NewsState.deleted ≡ true
      → (news'.deleted_at ≡ some now) × (get news_id db' ≡ err (not_found "news not found"))
  pub announced :
      db'.events
      ≡ db.events ++ (news_event "search.projection.requested.v2" news_id news' none ∷ [])
  pub audited : db'.audit ≡ db.audit ++ (audit_entry actor (state_name target) news_id ∷ [])

deleted_not_found :
    (news_id : ℕ) (news' : News) (db' : Store)
    → Table.get news_id db'.news ≡ some news'
    → same_state news'.status NewsState.deleted ≡ true
    → get news_id db' ≡ err (not_found "news not found")
unfolding get
deleted_not_found news_id news' db' there gone = rw there (rw gone refl)

moved-Transitioned :
    (now news_id : ℕ) (news : News) (target : NewsState) (actor : String) (db : Store)
    → IsLegal news.status target
    → Transitioned now news_id news target actor db (moved now news_id news target actor db)
moved-Transitioned now news_id news target actor db legal =
    let row : Table.get news_id (moved now news_id news target actor db).news
        ≡ some (moved_news now target news) =
      rw ((==_iff news_id news_id).1 refl) refl in
    record {
      legal = legal;
      news' = moved_news now target news;
      there = row;
      state = refl;
      revised = refl;
      published = λ p. rw p refl;
      deleted = λ d. (rw d refl, deleted_not_found news_id (moved_news now target news) _ row d);
      announced = refl;
      audited = refl;
    }

-- A transition that commits is a legal move: the item is in the new state, with the next revision
-- and the time of publication or deletion, the move is announced to the search index and audited,
-- and an item that was deleted is found no more.
pub transition-Transitioned :
    (now news_id : ℕ) (news : News) (target : NewsState) (actor : String) (db db' : Store)
    → transition now news_id news target actor db ≡ ok db'
    → Transitioned now news_id news target actor db db'
unfolding transition
transition-Transitioned now news_id news target actor db db' e =
    go (may_become target news.status) refl e
  where
    go :
        (b : Bool)
        → may_become target news.status ≡ b
        → (guard b (conflict "cannot transition") >> ok (moved now news_id news target actor db))
          ≡ ok db'
        → Transitioned now news_id news target actor db db'
    go true may e = subst (Transitioned now news_id news target actor db) (ok-injective e) (
        moved-Transitioned now news_id news target actor db
          (may_become-IsLegal target news.status may))
    go false may e = cc

-- To reprocess an item starts a job that the coordinator may take at once, and an earlier pipeline
-- job of the item that has its attempt already is superseded: whatever becomes of other rows, as
-- long as that of the item stays as it was left, the job is cancelled at its end and leaves all
-- else alone.
pub reprocess-supersedes :
    (max_attempts now later news_id : ℕ) (news : News) (actor : String) (db after : Store) (k : ℕ)
    (job : Job) (children : List (ℕ × Job)) (attempt_id : ℕ)
    → job.news_id ≡ some news_id
    → job.current_attempt_id ≡ some attempt_id
    → now ≤ later
    → Table.get news_id after.news
      ≡ Table.get news_id (reprocess max_attempts now news_id news actor db).1.news
    → let (new_id, db') = reprocess max_attempts now news_id news actor db in
      ((new : Job) × (Table.get new_id db'.jobs ≡ some new) × (advanceable later new_id new ≡ true))
      × (finish later k job children after ≡ set_job k (cancelled later job) after)
unfolding reprocess advanceable
reprocess-supersedes max_attempts now later news_id news actor db after k job children attempt_id n
      a t kept =
    (
      (
        pipeline_job max_attempts now news_id news,
        rw ((==_iff db.next_id db.next_id).1 refl) refl,
        ground arith,
      ),
      finish-superseded later k job children news_id (reset_news news) attempt_id after n a
          (kept ∙ rw ((==_iff news_id news_id).1 refl) refl) (λ e. cc),
    )

latest_number-bound :
    (versions : List (ℕ × NewsVersion)) → All (λ x. x.1.number ≤ latest_number versions) versions
unfolding latest_number
latest_number-bound [] = tt
latest_number-bound ((k, version) ∷ rest) =
    (omega arith, All-map rest (λ x h. omega (arith, h)) (latest_number-bound rest))

-- The value that the changes give a name: that of its entry. A mapping has one for a name, and so
-- does the list, by its first.
abbrev pub Gives : String → String → List (String × String) → Type 0
Gives name value [] = ⊥
Gives name value ((changed, given) ∷ rest) =
    ((changed ≡ name) × (given ≡ value)) ⊎ ((str_eq changed name ≡ false) × Gives name value rest)

updated-other :
    (values : String → String) (changes : List (String × String)) (name : String)
    → any_of (λ (changed, value). str_eq changed name) changes ≡ false
    → updated values changes name ≡ values name
unfolding updated
updated-other values [] name h = refl
updated-other values ((changed, value) ∷ rest) name h =
    let other : str_eq changed name ≡ false = ground arith in
    rw other (updated-other values rest name (ground arith))

updated-changed :
    (values : String → String) (changes : List (String × String)) (name value : String)
    → Gives name value changes
    → updated values changes name ≡ value
unfolding updated
updated-changed values [] name value h = absurd h
updated-changed values ((changed, given) ∷ rest) name value (inl h) =
    rw ((eq_iff changed name).1 h.0) h.1
updated-changed values ((changed, given) ∷ rest) name value (inr h) =
    rw h.0 (updated-changed values rest name value h.1)

-- What an edit leaves.
pub record Edited (news_id : ℕ) (news : News) (changes : List (String × String)) (db db' : Store)
    : Type 0 where
  pub news' : News
  pub version : NewsVersion
  pub before : NewsVersion
  pub was : Table.get_opt news.current_version_id db.versions ≡ some before
  pub there : Table.get news_id db'.news ≡ some news'
  pub version_there : Table.get_opt news'.current_version_id db'.versions ≡ some version
  pub state : news'.status ≡ news.status
  pub newest : All (λ x. x.1.number < version.number) (versions_of news_id db)
  pub kept :
      (name : String)
      → any_of (λ (changed, value). str_eq changed name) changes ≡ false
      → version.values name ≡ before.values name
  pub given : (name value : String) → Gives name value changes → version.values name ≡ value
  pub stale :
      (job : Job) (attempt : ProcessingAttempt) (old : ℕ)
      → attempt.version_id ≡ some old
      → old < db.next_id
      → is_current news' job attempt ≡ false

announce-tables :
    (news_id : ℕ) (news : News) (db : Store)
    → ((announce news_id news db).news ≡ db.news)
      × ((announce news_id news db).versions ≡ db.versions)
announce-tables news_id news db = (ground arith, ground arith)

edited_news-stale :
    (news : News) (job : Job) (attempt : ProcessingAttempt) (fresh old : ℕ)
    → attempt.version_id ≡ some old
    → old < fresh
    → is_current (edited_news fresh news) job attempt ≡ false
edited_news-stale news job attempt fresh old v h =
    let other : (fresh == old) ≡ false = ground arith in rw v (rw other refl)

-- An edit gives the item a new current version, whose number is above those of all its versions, with
-- the value given for each changed name and the old values for all others. A result for an older
-- version is no longer current: the pipeline refuses it.
pub edit-Edited :
    (news_id : ℕ) (news : News) (changes : List (String × String)) (actor : String) (db db' : Store)
    → edit news_id news changes actor db ≡ ok db'
    → Edited news_id news changes db db'
unfolding edit
edit-Edited news_id news changes actor db db' e =
    go (all_editable changes) (Table.get_opt news.current_version_id db.versions) refl e
  where
    written : NewsVersion → Store
    written current =
        set_news news_id (edited_news db.next_id news)
          (add_version (next_version news_id changes actor current db) db)

    go :
        (b : Bool) (o : Option NewsVersion)
        → Table.get_opt news.current_version_id db.versions ≡ o
        → (guard b (validation "unsupported fields") >> (do
          current ← require o (other_error "AttributeError")
          ok (announce news_id (edited_news db.next_id news) (written current))))
          ≡ ok db'
        → Edited news_id news changes db db'
    go false o was e = cc
    go true none was e = cc
    go true (some current) was e =
        let (news_same, versions_same) =
          announce-tables news_id (edited_news db.next_id news) (written current) in
        subst (Edited news_id news changes db) (ok-injective e) (record {
          news' = edited_news db.next_id news;
          version = next_version news_id changes actor current db;
          before = current;
          was = was;
          there =
              ap (λ t. Table.get news_id t) news_same ∙ rw ((==_iff news_id news_id).1 refl) refl;
          version_there =
              ap (λ t. Table.get db.next_id t) versions_same
              ∙ rw ((==_iff db.next_id db.next_id).1 refl) refl;
          state = refl;
          newest =
              All-map (versions_of news_id db) (λ x h. omega (arith, h))
                (latest_number-bound (versions_of news_id db));
          kept = updated-other current.values changes;
          given = updated-changed current.values changes;
          stale = λ job attempt old v h. edited_news-stale news job attempt db.next_id old v h;
        })
