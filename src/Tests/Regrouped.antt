-- ===== src/Tests/Regrouped.antt =====
-- Two items of three submissions, merged, and one of them split.
use rd_news.Prelude.{ℕ, ◌≡◌, refl, String, none, some, [], ◌∷◌}
use rd_news.Table
use rd_news.Table.{select_keys}
use rd_news.Model.Sources.{Submission, NewsSourceLink, Relation}
use rd_news.Model.Result.{Result, ok}
use rd_news.Model.Store.{Store, empty_store}
use rd_news.NewsLifecycle.{get}
use rd_news.Merging.{merge, merge_one, merge_all, set_projected}
use rd_news.Merging.Splitting.{split, split_with, is_named, named_submissions}
use rd_news.Merging.Laws.{Merged, merge-Merged}
use rd_news.Merging.Parted.{Parted, split-Parted}
use rd_news.Model.Status.{NewsState}
use rd_news.Model.Store.{add_audit}
use rd_news.NewsLifecycle.{audit_entry}
use rd_news.Tests.Data.{item}

abbrev received : ℕ → Submission
received news_id = record {
  source_id = none;
  external_id = none;
  idempotency_key = none;
  payload_hash = "abc";
  news_id = some news_id;
  received_at = 10;
}

abbrev link : ℕ → ℕ → NewsSourceLink
link news_id submission_id = record {
  news_id = news_id;
  submission_id = submission_id;
  relation = Relation.origin;
}

abbrev two_items : Store
two_items = record empty_store {
  news = Table.put 2 item (Table.put 1 item Table.empty);
  submissions =
      Table.put 7 (received 2) (Table.put 6 (received 1) (Table.put 5 (received 1) Table.empty));
  links = link 1 5 ∷ link 1 6 ∷ link 2 7 ∷ [];
  next_id = 30;
}

abbrev merged : Store
merged =
    add_audit (audit_entry "editor" "merge" 2)
      (set_projected NewsState.needs_review 2 item (merge_one 2 item 1 item two_items))

merged_ok : merge 2 item (1 ∷ []) "editor" two_items ≡ ok merged
unfolding merge merge_all get
merged_ok = refl

merge-Merged_example : Merged 2 (1 ∷ []) two_items merged
merge-Merged_example = merge-Merged 2 item (1 ∷ []) "editor" two_items merged merged_ok

abbrev read_version : Submission → Result (String → String)
read_version submission = ok (λ name. "text")

abbrev parted : ℕ × Store
parted =
    split_with 1 item (named_submissions 1 (5 ∷ []) two_items) (is_named 1 (5 ∷ []) two_items)
      "editor" (λ name. "text") two_items

parted_ok : split read_version 1 item (5 ∷ []) "editor" two_items ≡ ok parted
unfolding split
parted_ok = refl

split-Parted_example : Parted 1 (5 ∷ []) two_items parted.1
split-Parted_example =
    split-Parted 1 item (5 ∷ []) "editor" two_items refl read_version parted parted_ok
