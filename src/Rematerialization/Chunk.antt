-- ===== src/Rematerialization/Chunk.antt =====
-- A chunk of rematerialization_storage.py: the job ends when nothing is left, and is paused at a
-- higher cursor otherwise.
use rd_news.Prelude.{
  ℕ, ◌<◌, ◌≡◌, refl, sym, ◌∙◌, ap, Bool, true, false, some, List, [], ◌∷◌, arith, ltb, Bool-cases,
  inl, inr, ◌⊎◌,
}
use rd_news.Prelude.Members.{member, last_of, All-member, length-keep_lt, last_of-member}
use rd_news.Table
use rd_news.Model.Job.{Job, Payload}
use rd_news.Model.Result.{ok}
use rd_news.Model.Store.{Store, set_job}
use rd_news.Rematerialization.{
  Worker, Scope, scope_test, scope_name, cursor_test, wanted, wanted_ids, news_ids, is_live, holds,
  recompute_each, process_chunk, process_ids, done_job, paused_job,
}
use rd_news.Rematerialization.Frame.{Kept, Risen, recompute_each-Kept, recompute_each-Risen}
use rd_news.Rematerialization.Rounds.{
  batch, wanted-Covered, batch-found, wanted-Kept, above-up, Paused, keep-sub,
}

-- What the payload asks for.
pub record Asks (payload : Payload) (above : ℕ → Bool) (scope : Scope) : Type 0 where
  pub cursor_asked : cursor_test payload.cursor ≡ ok above
  pub scope_asked : scope_test (scope_name payload.scope) payload.scope_id ≡ ok scope

module _ (worker : Worker) (payload : Payload) (above : ℕ → Bool) (scope : Scope) (db : Store)
    (asks : Asks payload above scope) where
  pub news_ids-batch : news_ids worker payload db ≡ ok (batch worker above scope db)
  unfolding news_ids
  news_ids-batch = rw asks.cursor_asked (rw asks.scope_asked refl)

  module _ (x : ℕ) (xs : List ℕ) (e : batch worker above scope db ≡ x ∷ xs)
      (some_n : 0 < worker.batch_size) where
    abbrev later : Store
    later = recompute_each (x ∷ xs) db

    abbrev kept : Kept db later
    kept = recompute_each-Kept (x ∷ xs) db

    cursor-found : member (last_of x xs) (wanted_ids above scope db) ≡ true
    cursor-found = batch-found worker above scope db (last_of x xs) (rw e (last_of-member x xs))

    cursor-above : above (last_of x xs) ≡ true
    cursor-above =
        let want = keep-sub (wanted above scope db) (last_of x xs) db.news.keys cursor-found in
        ground arith

    narrows :
        (k : ℕ) → wanted (ltb (last_of x xs)) scope later k ≡ true → wanted above scope db k ≡ true
    narrows k h =
        let want = sym (wanted-Kept (ltb (last_of x xs)) scope kept k) ∙ h in
        let up = above-up payload.cursor above (last_of x xs) k asks.cursor_asked cursor-above in
        ground arith

    pub batch-Paused : Paused above scope db later (last_of x xs)
    batch-Paused = record {
      kept = kept;
      covers = λ k there want.
          elim (rw e at (wanted-Covered worker above scope db k some_n there want)) [
            | inl m ↦ inl (
                All-member (λ j. is_live db j ≡ true → Risen db.news later.news j) k (x ∷ xs)
                  (recompute_each-Risen (x ∷ xs) db) m (ground arith))
            | inr up ↦ inr (wanted-Kept (ltb (last_of x xs)) scope kept k ∙ ground arith)
          ];
      fewer = rw kept.keys (
          length-keep_lt (wanted above scope db) (wanted (ltb (last_of x xs)) scope later) narrows
            (last_of x xs) db.news.keys cursor-found (ground arith));
    }

module _ (worker : Worker) (now id : ℕ) (job : Job) (above : ℕ → Bool) (scope : Scope) (db : Store)
    (there : Table.get id db.jobs ≡ some job) (held : holds worker job ≡ true)
    (asks : Asks job.payload above scope) (some_n : 0 < worker.batch_size) where
  process_chunk-batch :
      process_chunk worker now id db ≡ ok (process_ids now id job (batch worker above scope db) db)
  unfolding process_chunk
  process_chunk-batch =
      rw there (rw held (rw (news_ids-batch worker job.payload above scope db asks) refl))

  -- A chunk of a job that the worker holds never fails where the payload is sound. With nothing
  -- left in the scope it ends the job; otherwise it pauses the job at a new cursor, and each item
  -- that the job wanted has a greater revision or is wanted still, of which there are fewer.
  pub process_chunk-skips_none :
      ((process_chunk worker now id db ≡ ok (set_job id (done_job now job) db))
        × ((k : ℕ) → member k db.news.keys ≡ true → wanted above scope db k ≡ false))
      ⊎ ((cursor : ℕ) × (later : Store) × (process_chunk worker now id db
            ≡ ok (set_job id (paused_job now cursor job) later))
          × Paused above scope db later cursor)
  process_chunk-skips_none = go (batch worker above scope db) refl
    where
      go :
          (ids : List ℕ)
          → batch worker above scope db ≡ ids
          → ((process_chunk worker now id db ≡ ok (set_job id (done_job now job) db))
              × ((k : ℕ) → member k db.news.keys ≡ true → wanted above scope db k ≡ false))
            ⊎ ((cursor : ℕ) × (later : Store) × (process_chunk worker now id db
                  ≡ ok (set_job id (paused_job now cursor job) later))
                × Paused above scope db later cursor)
      go [] e = inl (
        process_chunk-batch ∙ ap (λ ids. ok (process_ids now id job ids db)) e,
        λ k in_table. elim (Bool-cases (wanted above scope db k)) [
          | inl w ↦ absurd (rw e at (wanted-Covered worker above scope db k some_n in_table w))
          | inr w ↦ w
        ],
      )
      go (x ∷ xs) e = inr (
        _,
        _,
        process_chunk-batch ∙ ap (λ ids. ok (process_ids now id job ids db)) e,
        batch-Paused worker job.payload above scope db asks x xs e some_n,
      )
