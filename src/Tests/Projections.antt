-- ===== src/Tests/Projections.antt =====
-- A round of the indexer on the projection of a published item.
use rd_news.Prelude.{refl, ◌≡◌, none, some, ℕ}
use rd_news.Table
use rd_news.Table.{first_by, select, select_keys}
use rd_news.Model.Result.{ok, other_error}
use rd_news.Model.Store.{Store, empty_store}
use rd_news.Search.{
  Projections, Server, Gaps, new_projection, requested, claimable, claim_one, complete,
  process_claimed, request_projection,
}
use rd_news.Search.Serves.{Serves}
use rd_news.Search.Laws.{nothing, requests, process-Serves}
use rd_news.Tests.Data.{item}

abbrev server : Server
server = record { document = λ work. none; submit = λ work. ok 7; wait_task = λ uid. none }

abbrev broken_server : Server
broken_server = record {
  document = λ work. none;
  submit = λ work. ok 7;
  wait_task = λ uid. some (other_error "SearchTaskFailed");
}

abbrev one_item : Store
one_item = record empty_store { news = Table.put 1 item Table.empty }

abbrev waiting : Projections
waiting = Table.put 1 (requested 10 none item (new_projection 10)) Table.empty

-- While the task is waited for, the item is asked for again.
abbrev quiet : Gaps
quiet = record { submitting = λ ps. ps; waiting = λ ps. ps }

abbrev asked_again : Gaps
asked_again = record {
  submitting = λ ps. ps;
  waiting = λ ps. request_projection 99 1 (some 9) one_item ps;
}

process-Serves_example :
    Serves one_item waiting (process_claimed server asked_again 60 100 one_item waiting).1
    × Serves one_item waiting (request_projection 100 1 none one_item waiting)
process-Serves_example =
    process-Serves server asked_again 60 100 1 none one_item waiting (λ ps. nothing)
      (λ ps. requests 99 1 (some 9) nothing refl)

indexed_revision_of : ℕ → Projections → ℕ
indexed_revision_of k ps = elim (Table.get k ps) [ none ↦ 0 | some p ↦ p.indexed_revision ]

indexed_now :
    indexed_revision_of 1 (process_claimed server quiet 60 100 one_item waiting).1 ≡ item.revision
unfolding process_claimed claim_one complete claimable first_by select select_keys
    indexed_revision_of
indexed_now = refl

not_indexed :
    indexed_revision_of 1 (process_claimed broken_server quiet 60 100 one_item waiting).1 ≡ 0
unfolding process_claimed claim_one complete claimable first_by select select_keys
    indexed_revision_of
not_indexed = refl

not_indexed_late :
    indexed_revision_of 1 (process_claimed server asked_again 60 100 one_item waiting).1 ≡ 0
unfolding process_claimed claim_one complete claimable first_by select select_keys
    indexed_revision_of request_projection
not_indexed_late = refl
