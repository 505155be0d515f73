-- ===== src/Tests/Recomputations.antt =====
-- A rematerialization of two items, one at a time.
use rd_news.Prelude.{
  ℕ, ◌≤◌, ◌≡◌, refl, Bool, true, false, some, arith, ◌==◌, inl, inr, ◌⊎◌, Bool-cases, ==_iff,
}
use rd_news.Prelude.Members.{member}
use rd_news.Prelude.Text.{is_empty}
use rd_news.Table
use rd_news.Model.Status.{JobKind, JobStatus}
use rd_news.Model.Result.{ok}
use rd_news.Model.Job.{Job, no_payload}
use rd_news.Model.Store.{Store, set_job}
use rd_news.Rematerialization.{
  Worker, Scope, cursor_test, scope_test, wanted, done_job, paused_job, process_chunk, leased_job,
}
use rd_news.Rematerialization.Rounds.{Paused}
use rd_news.Rematerialization.Chunk.{Asks, process_chunk-skips_none}
use rd_news.Rematerialization.Claim.{Sole}
use rd_news.Rematerialization.Ends.{Ended, rounds, rounds-Ended}
use rd_news.Tests.Data.{before, item, task}

abbrev worker : Worker
worker = record { node_id = "node"; lease_seconds = 30; cooldown_seconds = 5; batch_size = 1 }

abbrev everything : Job
everything = record task {
  kind = JobKind.rematerialization;
  status = JobStatus.pending;
  payload = record no_payload { scope = some "all" };
}

abbrev two_items : Store
two_items = record before {
  jobs = Table.put 3 everything Table.empty;
  news = Table.put 2 item (Table.put 1 item Table.empty);
}

abbrev every_id : ℕ → Bool
every_id k = true

abbrev every_item : Scope
every_item labels decisions k = true

everything-Asks : Asks everything.payload every_id every_item
unfolding cursor_test scope_test is_empty
everything-Asks = record { cursor_asked = refl; scope_asked = refl }

everything-Sole : Sole 100 3 everything two_items
everything-Sole = record {
  there = refl;
  listed = refl;
  kind = refl;
  waits = refl;
  due = omega arith;
  alone = λ k other at_k kind. elim (Bool-cases (3 == k)) [
    | inl e ↦ (let same = (==_iff 3 k).0 e in omega arith)
    | inr e ↦ absurd (let none_there = rw e at at_k in cc)
  ];
}

rounds-Ended_example :
    (n : ℕ) × (n ≤ 3) × Ended 3 every_id every_item two_items (rounds n worker 100 two_items)
rounds-Ended_example =
    rounds-Ended 3 worker 100 3 everything every_id every_item two_items (omega arith) (omega arith)
      everything-Sole everything-Asks

abbrev held : Job
held = leased_job worker 100 everything

abbrev leased_items : Store
leased_items = set_job 3 held two_items

process_chunk-skips_none_example :
    ((process_chunk worker 100 3 leased_items ≡ ok (set_job 3 (done_job 100 held) leased_items))
      × ((k : ℕ)
          → member k leased_items.news.keys ≡ true
          → wanted every_id every_item leased_items k ≡ false))
    ⊎ ((cursor : ℕ) × (later : Store) × (process_chunk worker 100 3 leased_items
          ≡ ok (set_job 3 (paused_job 100 cursor held) later))
        × Paused every_id every_item leased_items later cursor)
process_chunk-skips_none_example =
    process_chunk-skips_none worker 100 3 held every_id every_item leased_items refl refl
      (record {
        cursor_asked = everything-Asks.cursor_asked;
        scope_asked = everything-Asks.scope_asked;
      })
      (omega arith)
