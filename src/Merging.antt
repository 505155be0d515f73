-- ===== src/Merging.antt =====
-- `SqlAlchemyNewsMergeStorage.merge` of news_administration/merge.py: the submissions of some items
-- go to another one.
pub mod Provenance
pub mod Splitting
pub mod Links
pub mod Laws
pub mod Parted
use rd_news.Prelude.{
  ℕ, suc, String, Bool, true, false, not, ◌&&◌, Option, none, some, List, [], ◌∷◌, ◌==◌, keep, map,
  any_of, if◌then◌else◌,
}
use rd_news.Prelude.Members.{member}
use rd_news.Table
use rd_news.Table.{update_where}
use rd_news.Model.Status.{NewsState}
use rd_news.Model.News.{News, Attachment}
use rd_news.Model.Sources.{Submission, NewsSourceLink, Relation}
use rd_news.Model.Result.{Result, ok, err, guard, ◌>>=◌, ◌>>◌, validation}
use rd_news.Model.Store.{Store, set_news, set_submission, add_event, add_audit}
use rd_news.NewsLifecycle.{get, news_event, audit_entry}
use rd_news.Merging.Provenance.{copy}

-- The submissions of the links of an item.
abbrev pub linked_submissions : ℕ → Store → List ℕ
linked_submissions news_id db =
    map (λ link. link.submission_id) (keep (λ link. link.news_id == news_id) db.links)

abbrev pub moved_link : ℕ → ℕ → Relation → NewsSourceLink → NewsSourceLink
moved_link source_id target_id relation link =
    if link.news_id == source_id
    then record { news_id = target_id; submission_id = link.submission_id; relation = relation }
    else link

abbrev owned : ℕ → Option Submission → ℕ → Store → Store
owned news_id none k db = db
owned news_id (some submission) k db =
    set_submission k (record submission { news_id = some news_id }) db

-- `submission.news_id = target.id`, for each link
unfoldable pub move_submissions : ℕ → List ℕ → Store → Store
move_submissions news_id [] db = db
move_submissions news_id (k ∷ ks) db =
    move_submissions news_id ks (owned news_id (Table.get k db.submissions) k db)

abbrev in_list : List ℕ → Option ℕ → Bool
in_list ks none = false
in_list ks (some k) = member k ks

-- `update(Attachment).where(Attachment.submission_id.in_(...)).values(news_id=...)`
abbrev pub move_attachments : ℕ → List ℕ → Store → Store
move_attachments news_id ks db = record db {
  attachments =
      update_where (λ attachment. in_list ks attachment.submission_id)
        (λ attachment. record attachment { news_id = some news_id }) db.attachments;
}

abbrev pub bumped : NewsState → News → News
bumped status news = record news {
  status = status;
  revision = suc news.revision;
  visibility_revision = suc news.visibility_revision;
}

-- The item with its new status, and the request to project it.
abbrev pub set_projected : NewsState → ℕ → News → Store → Store
set_projected status news_id news db =
    add_event (news_event "search.projection.requested.v2" news_id (bumped status news) none)
      (set_news news_id (bumped status news) db)

abbrev pub relink : (NewsSourceLink → NewsSourceLink) → Store → Store
relink change db = record db { links = map change db.links }

-- One round of the loop, for a source that is there.
unfoldable pub merge_one : ℕ → News → ℕ → News → Store → Store
unfolding move_submissions
merge_one target_id target source_id source db =
    let ks = linked_submissions source_id db in
    set_projected NewsState.archived source_id source (
      copy source_id source target_id target "merge" (
        move_attachments target_id ks (
          move_submissions target_id ks
            (relink (moved_link source_id target_id Relation.merged) db))))

unfoldable pub merge_all : ℕ → News → List ℕ → Store → Result Store
merge_all target_id target [] db = ok db
merge_all target_id target (source_id ∷ rest) db = get source_id db >>= (λ source.
    guard (not (source_id == target_id)) (validation "cannot be merged into itself")
    >> merge_all target_id target rest (merge_one target_id target source_id source db))

-- `merge`
unfoldable pub merge : ℕ → News → List ℕ → String → Store → Result Store
merge target_id target source_ids actor db = merge_all target_id target source_ids db >>= (λ db'.
    ok (
      add_audit (audit_entry actor "merge" target_id)
        (set_projected NewsState.needs_review target_id target db')))
