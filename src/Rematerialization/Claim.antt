-- ===== src/Rematerialization/Claim.antt =====
-- The claim of rematerialization_storage.py takes the only job of its kind.
use mathlib.Core.Option.{some-injective}
use rd_news.Prelude.{
  ℕ, suc, ◌≤◌, ◌≡◌, ◌≢◌, refl, sym, ◌∙◌, true, Option, none, some, List, [], ◌∷◌, arith, ◌==◌,
  ==_iff, eq_refl, Bool-cases, inl, inr,
}
use rd_news.Prelude.Members.{member}
use rd_news.Table
use rd_news.Table.{better, first_by, select, select_keys}
use rd_news.Table.Laws.{first_by-select, select-found}
use rd_news.Model.Status.{JobKind, same_kind, is_pending}
use rd_news.Model.Job.{Job}
use rd_news.Model.Result.{ok}
use rd_news.Model.Store.{Store, set_job}
use rd_news.Rematerialization.{
  Worker, holds, process_chunk, process_one, claim_one, take_lease, leased_job, paused_job, ready,
  ready_before,
}

-- A job of this kind stands under its id, waits, and no other job is of this kind.
pub record Sole (now id : ℕ) (job : Job) (db : Store) : Type 0 where
  pub there : Table.get id db.jobs ≡ some job
  pub listed : member id db.jobs.keys ≡ true
  pub kind : same_kind job.kind JobKind.rematerialization ≡ true
  pub waits : is_pending job.status ≡ true
  pub due : job.available_at ≤ now
  pub alone :
      (k : ℕ) (other : Job)
      → Table.get k db.jobs ≡ some other
      → same_kind other.kind JobKind.rematerialization ≡ true
      → k ≡ id

first_by-found :
    (xs : List (ℕ × Job)) → xs ≢ [] → (x : ℕ × Job) × (first_by ready_before xs ≡ some x)
unfolding first_by
first_by-found [] h = absurd (h refl)
first_by-found (x ∷ xs) h = go (first_by ready_before xs)
  where
    go : (rest : Option (ℕ × Job)) → (y : ℕ × Job) × (better ready_before x rest ≡ some y)
    go none = (x, refl)
    go (some y) = elim (Bool-cases (ready_before y x)) [
      | inl e ↦ (y, rw e refl)
      | inr e ↦ (x, rw e refl)
    ]

module _ (worker : Worker) (now id : ℕ) (job : Job) (db : Store) (sole : Sole now id job db) where
  sole-ready : ready now id job ≡ true
  unfolding ready
  sole-ready = let k = sole.kind in let w = sole.waits in let d = sole.due in ground arith

  ready-kind :
      (k : ℕ) (other : Job)
      → ready now k other ≡ true
      → same_kind other.kind JobKind.rematerialization ≡ true
  unfolding ready
  ready-kind k other h = ground arith

  take-Sole :
      (k : ℕ) (other : Job)
      → Table.get k db.jobs ≡ some other
      → ready now k other ≡ true
      → take_lease worker now (some (k, other)) db
        ≡ (some id, set_job id (leased_job worker now job) db)
  take-Sole k other there fits =
      let same : k ≡ id = sole.alone k other there (ready-kind k other fits) in
      let same_job : other ≡ job = some-injective _ _ (sym (rw same at there) ∙ sole.there) in
      rw same (rw same_job refl)

  pub claim-Sole : claim_one worker now db ≡ (some id, set_job id (leased_job worker now job) db)
  unfolding claim_one
  claim-Sole =
      let (x, found) = first_by-found (select (ready now) db.jobs) (
        select-found (ready now) db.jobs.row id job db.jobs.keys sole.listed sole.there
          sole-ready) in
      let row = first_by-select ready_before (ready now) db.jobs x found in
      rw found (take-Sole x.0 x.1 row.there row.fits)

  abbrev pub leased : Job
  leased = leased_job worker now job

  abbrev pub claimed : Store
  claimed = set_job id leased db

  pub leased-holds : holds worker leased ≡ true
  leased-holds = rw (eq_refl worker.node_id) refl

  pub process_one-chunk :
      (db' : Store)
      → process_chunk worker now id claimed ≡ ok db'
      → (process_one worker now now db).1 ≡ db'
  unfolding process_one
  process_one-chunk db' e = rw claim-Sole (rw e refl)

  pub paused-Sole :
      (cursor : ℕ) (later : Store)
      → later.jobs ≡ claimed.jobs
      → Sole
          (suc now)
          id
          (paused_job now cursor leased)
          (set_job id (paused_job now cursor leased) later)
  paused-Sole cursor later same = record {
    there = rw ((==_iff id id).1 refl) refl;
    listed = rw same (rw ((==_iff id id).1 refl) (rw sole.there sole.listed));
    kind = sole.kind;
    waits = refl;
    due = omega arith;
    alone = λ k other at_k kind. elim (Bool-cases (id == k)) [
      | inl e ↦ sym ((==_iff id k).0 e)
      | inr e ↦ sole.alone k other (rw e at (rw same at (rw e at at_k))) kind
    ];
  }
