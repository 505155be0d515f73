-- ===== src/Rematerialization/Ends.antt =====
-- The loop of `RematerializationWorker` (use_cases/rematerialization.py) on the only job there is.

use rd_news.Prelude.{
  ℕ, zero, suc, ◌≤◌, ◌<◌, ◌≡◌, refl, Bool, true, false, some, arith, ltb, ==_iff, length, inl, inr,
}
use rd_news.Prelude.Members.{member}
use rd_news.Table
use rd_news.Table.{better, first_by, select, select_keys}
use rd_news.Model.Status.{is_succeeded}
use rd_news.Model.Job.{Job}
use rd_news.Model.Store.{Store, set_job}
use rd_news.Rematerialization.{
  Worker, Scope, cursor_test, wanted, wanted_ids, process_one, done_job, paused_job,
}
use rd_news.Rematerialization.Claim.{
  Sole, leased, claimed, leased-holds, process_one-chunk, paused-Sole,
}
use rd_news.Rematerialization.Frame.{Grows, Risen, Risen-later, Risen-earlier}
use rd_news.Rematerialization.Rounds.{Paused}
use rd_news.Rematerialization.Chunk.{Asks, process_chunk-skips_none}

-- `n` rounds of the loop, one a second.
unfoldable pub rounds : ℕ → Worker → ℕ → Store → Store
rounds zero worker now db = db
rounds (suc n) worker now db = rounds n worker (suc now) (process_one worker now now db).1

-- The job has ended, and every item that its scope wanted has a greater revision than before.
pub record Ended (id : ℕ) (above : ℕ → Bool) (scope : Scope) (db db' : Store) : Type 0 where
  pub job : Job
  pub there : Table.get id db'.jobs ≡ some job
  pub succeeded : is_succeeded job.status ≡ true
  pub grows : Grows db.news db'.news
  pub recomputed :
      (k : ℕ)
      → member k db.news.keys ≡ true
      → wanted above scope db k ≡ true
      → Risen db.news db'.news k

done-Ended :
    (now id : ℕ) (job : Job) (above : ℕ → Bool) (scope : Scope) (db : Store)
    → ((k : ℕ) → member k db.news.keys ≡ true → wanted above scope db k ≡ false)
    → Ended id above scope db (set_job id (done_job now job) db)
done-Ended now id job above scope db none_left = record {
  job = done_job now job;
  there = rw ((==_iff id id).1 refl) refl;
  succeeded = refl;
  grows = λ k news there. (news, there, omega arith);
  recomputed = λ k there want. absurd (let none_want = none_left k there in cc);
}

-- What was recomputed before the pause, and what is after it.
pause-Ended :
    (id cursor : ℕ) (above : ℕ → Bool) (scope : Scope) (db later next final : Store)
    → Paused above scope db later cursor
    → next.news ≡ later.news
    → next.labels ≡ later.labels
    → next.decisions ≡ later.decisions
    → Ended id (ltb cursor) scope next final
    → Ended id above scope db final
pause-Ended id cursor above scope db later next final p news labels decisions ended = record {
  job = ended.job;
  there = ended.there;
  succeeded = ended.succeeded;
  grows = λ k item there.
      let (item₁, there₁, up₁) = p.kept.revisions k item there in
      let (item₂, there₂, up₂) = ended.grows k item₁ (rw news there₁) in
      (item₂, there₂, omega (arith, up₁, up₂));
  recomputed = λ k there want. elim (p.covers k there want) [
    | inl risen ↦ Risen-later k risen (λ j item there. ended.grows j item (rw news there))
    | inr still ↦
        Risen-earlier db k p.kept.revisions
          (rw news at (
            ended.recomputed k (rw news (rw p.kept.keys there))
              (rw news (rw labels (rw decisions still)))))
          (ground arith)
  ];
}

-- The claim touches no item.
claim-Ended :
    (worker : Worker) (now id : ℕ) (job : Job) (above : ℕ → Bool) (scope : Scope) (db final : Store)
    (sole : Sole now id job db)
    → Ended id above scope (claimed worker now id job db sole) final
    → Ended id above scope db final
claim-Ended worker now id job above scope db final sole ended = record {
  job = ended.job;
  there = ended.there;
  succeeded = ended.succeeded;
  grows = ended.grows;
  recomputed = ended.recomputed;
}

-- A worker ends a rematerialization that stands alone, in at most one round more than there are
-- items to recompute, and has then recomputed each of them. The job waits and is due, its payload
-- is sound and the batch is not empty.
pub rounds-Ended :
    (fuel : ℕ) (worker : Worker) (now id : ℕ) (job : Job) (above : ℕ → Bool) (scope : Scope)
    (db : Store)
    → length (wanted_ids above scope db) < fuel
    → 0 < worker.batch_size
    → Sole now id job db
    → Asks job.payload above scope
    → (n : ℕ) × (n ≤ fuel) × Ended id above scope db (rounds n worker now db)
unfolding rounds cursor_test
rounds-Ended zero worker now id job above scope db enough some_n sole asks = absurd (omega arith)
rounds-Ended (suc fuel) worker now id job above scope db enough some_n sole asks =
    elim (process_chunk-skips_none worker now id (leased worker now id job db sole) above scope
      (claimed worker now id job db sole) (rw ((==_iff id id).1 refl) refl)
      (leased-holds worker now id job db sole)
      (record { cursor_asked = asks.cursor_asked; scope_asked = asks.scope_asked }) some_n) [
        | inl (e, none_left) ↦ (
          1,
          omega arith,
          rw (process_one-chunk worker now id job db sole _ e) (
              claim-Ended worker now id job above scope db _ sole (
                done-Ended now id (leased worker now id job db sole) above scope
                  (claimed worker now id job db sole) none_left)),
        )
        | inr (cursor, later, e, p) ↦
            let next =
              set_job id (paused_job now cursor (leased worker now id job db sole)) later in
            let (n, small, ended) =
              rounds-Ended fuel worker (suc now) id
                (paused_job now cursor (leased worker now id job db sole)) (ltb cursor) scope next
                (omega (arith, p.fewer, enough)) some_n
                (paused-Sole worker now id job db sole cursor later p.kept.jobs)
                (record { cursor_asked = refl; scope_asked = asks.scope_asked }) in
            (
              suc n,
              omega (arith, small),
              rw (process_one-chunk worker now id job db sole _ e) (
                  claim-Ended worker now id job above scope db _ sole (
                    pause-Ended id cursor above scope (claimed worker now id job db sole) later next
                      (rounds n worker (suc now) next) p refl refl refl ended)),
            )
      ]
