-- ===== src/Merging/Splitting.antt =====
-- `SqlAlchemyNewsSplitStorage.split` of news_administration/split.py: some submissions of an item
-- get an item of their own. Reading a version from a raw payload is an argument.
use rd_news.Prelude.{
  ℕ, suc, String, Bool, true, false, not, ◌&&◌, Option, none, some, List, [], ◌∷◌, ◌==◌, keep, map,
  length, is_some, if◌then◌else◌,
}
use rd_news.Prelude.Members.{member}
use rd_news.Table
use rd_news.Model.Status.{NewsState}
use rd_news.Model.News.{News, NewsVersion}
use rd_news.Model.Sources.{Submission, NewsSourceLink, Relation}
use rd_news.Model.Result.{Result, ok, guard, require, ◌>>=◌, ◌>>◌, validation, other_error}
use rd_news.Model.Store.{Store, add_news, add_version, add_event, add_audit}
use rd_news.NewsLifecycle.{news_event, audit_entry}
use rd_news.Submissions.{new_news}
use rd_news.Merging.{move_submissions, move_attachments, set_projected, relink}
use rd_news.Merging.Provenance.{copy}

-- The links of the item to the named submissions that are there.
abbrev pub is_named : ℕ → List ℕ → Store → NewsSourceLink → Bool
is_named news_id submission_ids db link =
    link.news_id == news_id
    && member link.submission_id submission_ids
    && is_some (Table.get link.submission_id db.submissions)

abbrev pub named_submissions : ℕ → List ℕ → Store → List ℕ
named_submissions news_id submission_ids db =
    map (λ link. link.submission_id) (keep (is_named news_id submission_ids db) db.links)

abbrev pub split_link : (NewsSourceLink → Bool) → ℕ → NewsSourceLink → NewsSourceLink
split_link named created_id link =
    if named link
    then record {
      news_id = created_id;
      submission_id = link.submission_id;
      relation = Relation.split;
    }
    else link

abbrev pub first_of : List ℕ → Store → Option Submission
first_of [] db = none
first_of (k ∷ ks) db = Table.get k db.submissions

abbrev pub is_nil : List ℕ → Bool
is_nil [] = true
is_nil (k ∷ ks) = false

abbrev pub created_news : ℕ → News
created_news version_id = record new_news {
  status = NewsState.needs_review;
  current_version_id = some version_id;
}

-- What follows once the version's values are read.
abbrev pub split_with :
    ℕ → News → List ℕ → (NewsSourceLink → Bool) → String → (String → String) → Store → ℕ × Store
split_with news_id news moved named actor values db =
    let created_id = db.next_id in
    let created = created_news (suc created_id) in
    let version : NewsVersion = record {
      news_id = created_id;
      number = 1;
      created_by = actor;
      values = values;
    } in
    let rows = move_attachments created_id moved (
      move_submissions created_id moved
        (relink (split_link named created_id) (add_version version (add_news created db)))) in
    (
      created_id,
      add_audit (audit_entry actor "split" news_id) (
          add_event (news_event "search.projection.requested.v2" created_id created none) (
            set_projected NewsState.needs_review news_id news
              (copy news_id news created_id created "split" rows))),
    )

-- `split`: the id of the new item, and the store.
unfoldable pub split :
    (Submission → Result (String → String))
    → ℕ
    → News
    → List ℕ
    → String
    → Store
    → Result (ℕ × Store)
split read_version news_id news submission_ids actor db =
    let named = is_named news_id submission_ids db in
    let moved = named_submissions news_id submission_ids db in
    let all_links = keep (λ link. link.news_id == news_id) db.links in
    guard (not (is_nil moved) && not (length moved == length all_links))
      (validation "split must move some, but not all, source submissions")
    >> (require (first_of moved db) (other_error "IndexError") >>= (λ first.
        read_version first
        >>= (λ values. ok (split_with news_id news moved named actor values db))))
