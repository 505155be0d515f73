-- ===== src/Merging/Provenance.antt =====
-- `NewsProvenance.copy` of news_administration/provenance.py: the decisions and opinions of an item
-- are kept for another one.
use Prim.Native.String.{◌++◌ as text_append}
use rd_news.Prelude.{
  ℕ, suc, String, Bool, ◌&&◌, ◌||◌, List, [], ◌∷◌, ltb, leb, ◌==◌, same_option, if◌then◌else◌,
}
use rd_news.Prelude.Sort.{sorted}
use rd_news.Prelude.Uuid.{uuid_text}
use rd_news.Table.{select}
use rd_news.Model.News.{News}
use rd_news.Model.Labels.{NewsLabel, ManualLabelDecision, Origin}
use rd_news.Model.Store.{Store, add_decision, add_label}
use rd_news.Labels.Decisions.{last_revision, decisions_on}

-- `order_by(facet_id, revision)`
abbrev decision_before : ℕ × ManualLabelDecision → ℕ × ManualLabelDecision → Bool
decision_before (i, a) (j, b) =
    ltb a.facet_id b.facet_id || a.facet_id == b.facet_id && leb a.revision b.revision

abbrev pub decisions_of : ℕ → News → Store → List (ℕ × ManualLabelDecision)
decisions_of news_id news db = sorted decision_before (
    select
      (λ k decision.
        decision.news_id == news_id && same_option decision.version_id news.current_version_id)
      db.decisions)

abbrev pub labels_of : ℕ → News → Store → List (ℕ × NewsLabel)
labels_of news_id news db =
    select
      (λ k label. label.news_id == news_id && same_option label.version_id news.current_version_id)
      db.labels

-- `next_revision[facet_id]`, or the greatest revision in the store
unfoldable pub revision_at : List (ℕ × ℕ) → ℕ → ℕ → News → Store → ℕ
revision_at [] facet_id target_id target db =
    last_revision (decisions_on target_id target.current_version_id facet_id db)
revision_at ((facet, revision) ∷ rest) facet_id target_id target db =
    let later = revision_at rest facet_id target_id target db in
    if facet == facet_id then revision else later

abbrev pub copied_decision : ℕ → News → ℕ → ManualLabelDecision → ManualLabelDecision
copied_decision target_id target revision decision = record {
  news_id = target_id;
  version_id = target.current_version_id;
  facet_id = decision.facet_id;
  revision = revision;
  origin = Origin.provenance;
  action = decision.action;
  created_by_user_id = decision.created_by_user_id;
}

unfoldable pub copy_decisions :
    ℕ → News → List (ℕ × ℕ) → List (ℕ × ManualLabelDecision) → Store → Store
copy_decisions target_id target revisions [] db = db
copy_decisions target_id target revisions ((k, decision) ∷ rest) db =
    let revision = suc (revision_at revisions decision.facet_id target_id target db) in
    copy_decisions target_id target ((decision.facet_id, revision) ∷ revisions) rest
      (add_decision (copied_decision target_id target revision decision) db)

-- `f"{operation}:{source.id}:{label.id}"`
abbrev copied_key : String → ℕ → ℕ → String
copied_key operation source_id label_id =
    text_append operation
      (text_append ":" (text_append (uuid_text source_id) (text_append ":" (uuid_text label_id))))

abbrev pub copied_label : String → ℕ → ℕ → News → ℕ → NewsLabel → NewsLabel
copied_label operation source_id target_id target label_id label = record label {
  news_id = target_id;
  version_id = target.current_version_id;
  origin = Origin.provenance;
  origin_key = copied_key operation source_id label_id;
}

unfoldable pub copy_labels : String → ℕ → ℕ → News → List (ℕ × NewsLabel) → Store → Store
copy_labels operation source_id target_id target [] db = db
copy_labels operation source_id target_id target ((k, label) ∷ rest) db =
    copy_labels operation source_id target_id target rest
      (add_label (copied_label operation source_id target_id target k label) db)

abbrev pub with_decisions : ℕ → News → ℕ → News → Store → Store
with_decisions source_id source target_id target db =
    copy_decisions target_id target [] (decisions_of source_id source db) db

-- `copy`
unfoldable pub copy : ℕ → News → ℕ → News → String → Store → Store
copy source_id source target_id target operation db =
    let db' = with_decisions source_id source target_id target db in
    copy_labels operation source_id target_id target (labels_of source_id source db') db'
