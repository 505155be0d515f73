-- ===== src/Search/Laws.antt =====
-- A projection that is said to be ready is at the revision that was asked for, and becomes so only
-- at the revision of the item itself (indexer.py).

use mathlib.Core.Path.{subst}
use rd_news.Prelude.{ℕ, ◌≡◌, refl, ◌&&◌, Option, none, some, arith, ◌==◌, Bool-cases, inl, inr}
use rd_news.Table
use rd_news.Table.{select, first_by}
use rd_news.Table.Laws.{first_by-select}
use rd_news.Model.News.{News}
use rd_news.Model.Result.{Error, Result, ok, err}
use rd_news.Model.Store.{Store}
use rd_news.Search.{
  Gaps, fail, SearchProjection, Projections, ProjectionWork, claimable, projection_before,
  indexing_projection, take_work, claim_one, store_row, store_task, behind, indexed, complete_row,
  complete, failed_projection, fail_row, Server, finish_task, submitted, index_work, index_document,
  process_work, process_claimed, projection_or_new, requested, request_row, request_projection,
}
use rd_news.Search.Serves.{Serves, Serves-refl, Serves-trans, put-Serves}

-- What comes in between serves as well: requests, and the claims, tasks and failures of other
-- indexers, as `Others` has them below, do.
record Yields (db : Store) (gaps : Gaps) : Type 0 where
  submitting : (ps : Projections) → Serves db ps (gaps.submitting ps)
  waiting : (ps : Projections) → Serves db ps (gaps.waiting ps)

module _ (db : Store) (now : ℕ) where
  take_work-Serves :
      (found : Option (ℕ × SearchProjection)) (ps : Projections)
      → ((k : ℕ) (p : SearchProjection) → found ≡ some (k, p) → Table.get k ps ≡ some p)
      → Serves db ps (take_work now found ps).1
  take_work-Serves none ps row = Serves-refl db ps
  take_work-Serves (some (k, p)) ps row =
      put-Serves db k (indexing_projection now p) ps
        (λ h.
          let was = h k p (row k p refl) in
          record { bound = was.bound; ready = λ e. absurd (ground arith) })
        (λ e. absurd (ground arith))

  claim_one-Serves : (lease : ℕ) (ps : Projections) → Serves db ps (claim_one lease now ps).1
  unfolding claim_one
  claim_one-Serves lease ps =
      take_work-Serves (first_by projection_before (select (claimable lease now) ps)) ps
        (λ k p e. (first_by-select projection_before (claimable lease now) ps (k, p) e).there)

  module _ (work : ProjectionWork) where
    store_row-Serves :
        (uid : ℕ) (row : Option SearchProjection) (ps : Projections)
        → Table.get work.news_id ps ≡ row
        → Serves db ps (store_row now work uid row ps)
    store_row-Serves uid none ps there = Serves-refl db ps
    store_row-Serves uid (some p) ps there =
        elim (Bool-cases (p.desired_revision == work.revision)) [
          | inr e ↦ rw e (Serves-refl db ps)
          | inl e ↦ rw e (
              put-Serves db work.news_id (record p { task_uid = some uid; updated_at = now }) ps
                (λ h.
                  let was = h work.news_id p there in
                  record { bound = was.bound; ready = was.ready })
                (λ ready. inl (record {
                  p = p;
                  there = there;
                  ready = ready;
                  revision = refl;
                  visibility = refl;
                })))
        ]

    complete_row-Serves :
        (row : Option SearchProjection) (news : Option News) (ps : Projections)
        → Table.get work.news_id ps ≡ row
        → Table.get work.news_id db.news ≡ news
        → Serves db ps (complete_row now work row news ps)
    complete_row-Serves none news ps there item = Serves-refl db ps
    complete_row-Serves (some p) none ps there item = Serves-refl db ps
    complete_row-Serves (some p) (some news) ps there item =
        elim (Bool-cases (p.desired_revision == work.revision && news.revision == work.revision)) [
          | inl e ↦ rw e (
              put-Serves db work.news_id (indexed now work news p) ps
                (λ h. record { bound = ground arith; ready = λ ready. ground arith })
                (λ ready. inr (record {
                  news = news;
                  there = item;
                  revision = ground arith;
                  visibility = refl;
                })))
          | inr e ↦ rw e (
              put-Serves db work.news_id (behind now news p) ps
                (λ h.
                  let was = h work.news_id p there in
                  record {
                    bound = omega (arith, was.bound);
                    ready = λ ready. absurd (ground arith);
                  })
                (λ ready. absurd (ground arith)))
        ]

    fail_row-Serves :
        (error : Error) (row : Option SearchProjection) (ps : Projections)
        → Table.get work.news_id ps ≡ row
        → Serves db ps (fail_row now work error row ps)
    fail_row-Serves error none ps there = Serves-refl db ps
    fail_row-Serves error (some p) ps there =
        put-Serves db work.news_id (failed_projection now error p) ps
          (λ h.
            let was = h work.news_id p there in
            record { bound = was.bound; ready = λ ready. absurd (ground arith) })
          (λ ready. absurd (ground arith))

    finish_task-Serves :
        (answer : Option Error) (ps : Projections)
        → Serves db ps (finish_task now work db answer ps)
    unfolding complete
    finish_task-Serves none ps = complete_row-Serves _ _ ps refl refl
    finish_task-Serves (some error) ps = fail_row-Serves error _ ps refl

    submitted-Serves :
        (server : Server) (gaps : Gaps)
        → Yields db gaps
        → (task : Result ℕ) (ps : Projections)
        → Serves db ps (submitted server gaps now work db task ps)
    submitted-Serves server gaps others (err error) ps = fail_row-Serves error _ ps refl
    submitted-Serves server gaps others (ok uid) ps =
        Serves-trans (store_row-Serves uid _ ps refl) (
          Serves-trans (others.waiting (store_task now work uid ps))
            (finish_task-Serves (server.wait_task uid) (gaps.waiting (store_task now work uid ps))))

    index_work-Serves :
        (server : Server) (gaps : Gaps)
        → Yields db gaps
        → (task : Option ℕ) (ps : Projections)
        → Serves db ps (index_work server gaps now work db task ps)
    index_work-Serves server gaps others (some uid) ps =
        Serves-trans (others.waiting ps)
          (finish_task-Serves (server.wait_task uid) (gaps.waiting ps))
    index_work-Serves server gaps others none ps =
        submitted-Serves server gaps others (server.submit work) ps

    index_document-Serves :
        (server : Server) (gaps : Gaps)
        → Yields db gaps
        → (failure : Option Error) (ps : Projections)
        → Serves db ps (index_document server gaps now work db failure ps)
    index_document-Serves server gaps others none ps =
        index_work-Serves server gaps others work.existing_task_uid ps
    index_document-Serves server gaps others (some error) ps = fail_row-Serves error _ ps refl

  process_work-Serves :
      (server : Server) (gaps : Gaps)
      → Yields db gaps
      → (work : Option ProjectionWork) (ps : Projections)
      → Serves db ps (process_work server gaps now db work ps).1
  process_work-Serves server gaps others none ps = Serves-refl db ps
  process_work-Serves server gaps others (some work) ps =
      Serves-trans (others.submitting ps)
        (index_document-Serves work server gaps others (server.document work) (gaps.submitting ps))

  requested-Serves :
      (news_id : ℕ) (revision : Option ℕ) (news : News) (row : Option SearchProjection)
      (ps : Projections)
      → Table.get news_id ps ≡ row
      → Serves db ps
          (Table.put news_id (requested now revision news (projection_or_new now row)) ps)
  requested-Serves news_id revision news none ps there =
      put-Serves db news_id (requested now revision news (projection_or_new now none)) ps
        (λ h. record { bound = omega arith; ready = λ ready. absurd (ground arith) })
        (λ ready. absurd (ground arith))
  requested-Serves news_id revision news (some p) ps there =
      put-Serves db news_id (requested now revision news p) ps
        (λ h.
          let was = h news_id p there in
          record { bound = omega (arith, was.bound); ready = λ ready. absurd (ground arith) })
        (λ ready. absurd (ground arith))

  request_row-Serves :
      (news_id : ℕ) (revision : Option ℕ) (news : Option News) (ps : Projections)
      → Serves db ps (request_row now news_id revision news ps)
  request_row-Serves news_id revision none ps = Serves-refl db ps
  request_row-Serves news_id revision (some news) ps =
      requested-Serves news_id revision news (Table.get news_id ps) ps refl

-- The other transactions that may come in between, in any order: requests for a projection, and
-- claims, stored tasks and failures of other indexers.
pub data Others (db : Store) : Projections → Projections → Type 0 where
  nothing : {ps : Projections} → Others db ps ps
  requests :
      (now news_id : ℕ) (revision : Option ℕ) {a b c : Projections}
      → Others db a b
      → request_projection now news_id revision db b ≡ c
      → Others db a c
  claims :
      (lease now : ℕ) {a b c : Projections}
      → Others db a b
      → (claim_one lease now b).1 ≡ c
      → Others db a c
  stores :
      (now uid : ℕ) (work : ProjectionWork) {a b c : Projections}
      → Others db a b
      → store_task now work uid b ≡ c
      → Others db a c
  fails :
      (now : ℕ) (work : ProjectionWork) (error : Error) {a b c : Projections}
      → Others db a b
      → fail now work error b ≡ c
      → Others db a c

request-Serves :
    (db : Store) (now news_id : ℕ) (revision : Option ℕ) (ps : Projections)
    → Serves db ps (request_projection now news_id revision db ps)
unfolding request_projection
request-Serves db now news_id revision ps =
    request_row-Serves db now news_id revision (Table.get news_id db.news) ps

Others-Serves : (db : Store) {a b : Projections} → Others db a b → Serves db a b
Others-Serves db nothing = Serves-refl db _
Others-Serves db {a} (requests now news_id revision before same) =
    Serves-trans (Others-Serves db before)
      (subst (Serves db _) same (request-Serves db now news_id revision _))
Others-Serves db (claims lease now before same) =
    Serves-trans (Others-Serves db before)
      (subst (Serves db _) same (claim_one-Serves db now lease _))
Others-Serves db (stores now uid work before same) =
    Serves-trans (Others-Serves db before)
      (subst (Serves db _) same (store_row-Serves db now work uid _ _ refl))
Others-Serves db (fails now work error before same) =
    Serves-trans (Others-Serves db before)
      (subst (Serves db _) same (fail_row-Serves db now work error _ _ refl))

-- Whatever the search server answers, and whatever requests, claims, stored tasks and failures of
-- others come in between while a task is submitted and waited for, a round of the indexer keeps the
-- projections honest: what is indexed was asked for, and a ready projection is at the revision that
-- was asked for last. A projection becomes ready only at the revisions of its item as it stands
-- when the task is done. A request for a projection keeps them so too.
pub process-Serves :
    (server : Server) (gaps : Gaps) (lease now news_id : ℕ) (revision : Option ℕ) (db : Store)
    (ps : Projections)
    → ((qs : Projections) → Others db qs (gaps.submitting qs))
    → ((qs : Projections) → Others db qs (gaps.waiting qs))
    → Serves db ps (process_claimed server gaps lease now db ps).1
      × Serves db ps (request_projection now news_id revision db ps)
unfolding process_claimed
process-Serves server gaps lease now news_id revision db ps submitting waiting = (
  Serves-trans (claim_one-Serves db now lease ps) (
      process_work-Serves db now server gaps
        (record {
          submitting = λ qs. Others-Serves db (submitting qs);
          waiting = λ qs. Others-Serves db (waiting qs);
        })
        (claim_one lease now ps).0 (claim_one lease now ps).1),
  request-Serves db now news_id revision ps,
)
