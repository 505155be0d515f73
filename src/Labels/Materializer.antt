-- ===== src/Labels/Materializer.antt =====
-- `LabelMaterializer` of labels/materializer.py: the effective labels and the scores of a news
-- item, from the opinions on its current version.
pub mod Effective
use rd_news.Prelude.{
  ℕ, suc, ◌+◌, String, Bool, true, false, not, ◌&&◌, ◌||◌, Option, none, some, List, [], ◌∷◌, ◌++◌,
  ltb, ◌==◌, leb, str_eq, same_option, any_of, keep, take, map, if◌then◌else◌,
}
use rd_news.Prelude.Text.{text_le, before_colon, after_colon}
use rd_news.Prelude.Sort.{sorted}
use rd_news.Prelude.Uuid.{uuid_text}
use rd_news.Table
use rd_news.Table.{select}
use rd_news.Model.News.{News}
use rd_news.Model.Taxonomy.{Facet, FacetValue, FacetKind, Classifier, EditorialRule}
use rd_news.Model.Labels.{
  NewsLabel, NewsEffectiveLabel, ManualLabelDecision, Origin, Action, is_manual, is_set,
  same_origin,
}
use rd_news.Model.Store.{Store, set_news}
use rd_news.Labels.Scoring.{EditorialScores, Rule, zero_scores, evaluate_scores, importance}
use rd_news.Labels.Opinions.{
  Entry, joined, join, rows, last_of, classifier_by_slug, same_text, attempt_text, is_empty_list,
  classifier_counts, opinion_counts, counts, counted,
}
use rd_news.Labels.Attempts.{latest_attempt}
use rd_news.Labels.Decisions.{has_text, latest_decision, facet_slug_of, is_single}

abbrev pub add_text : String → List String → List String
add_text s known = if has_text s known then known else known ++ (s ∷ [])

-- `{slug for each}`, in the order of the first occurrence
unfoldable pub distinct : List String → List String → List String
distinct known [] = known
distinct known (s ∷ rest) = distinct (add_text s known) rest

abbrev slug_list : Option String → List String → List String
slug_list none rest = rest
slug_list (some slug) rest = slug ∷ rest

unfoldable pub decision_slugs : Store → List (ℕ × ManualLabelDecision) → List String
decision_slugs db [] = []
decision_slugs db ((k, d) ∷ rest) = slug_list (facet_slug_of db d.facet_id) (decision_slugs db rest)

-- `decision_axes`
unfoldable pub decision_axes : ℕ → News → Store → List String
unfolding decision_slugs
decision_axes news_id news db = decision_slugs db (
    select
      (λ k d.
        d.news_id == news_id
        && same_option d.version_id news.current_version_id
        && is_manual d.origin)
      db.decisions)

-- The state of an axis under the manual decisions: set by a decision, released by one, manual from
-- before decisions were recorded, or left to the other opinions.
pub data Ruling : Type 0 where
  by_decision : ℕ → Ruling
  released : Ruling
  legacy : Ruling
  free : Ruling

abbrev pub ruling_of : Bool → Option (ℕ × ManualLabelDecision) → Ruling
ruling_of was_manual none = if was_manual then Ruling.legacy else Ruling.free
ruling_of was_manual (some (k, d)) =
    if is_set d.action then Ruling.by_decision k else Ruling.released

unfoldable pub ruling : ℕ → News → Store → String → Ruling
ruling news_id news db axis =
    ruling_of
      (has_text axis news.manual_facets && not (has_text axis (decision_axes news_id news db)))
      (latest_decision news_id news.current_version_id db axis)

abbrev pub holds_manual : Ruling → Bool
holds_manual (Ruling.by_decision k) = true
holds_manual Ruling.legacy = true
holds_manual _ = false

-- The candidates of an axis that its ruling admits.
abbrev pub admits : Ruling → Entry → Bool
admits (Ruling.by_decision k) entry =
    is_manual entry.label.origin && str_eq entry.label.origin_key (uuid_text k)
admits Ruling.released entry = not (is_manual entry.label.origin)
admits Ruling.legacy entry = is_manual entry.label.origin
admits Ruling.free entry = true

abbrev pub on_axis : String → List Entry → List Entry
on_axis axis = keep (λ entry. str_eq entry.facet.slug axis)

unfoldable pub candidates : ℕ → News → Store → String → List Entry
candidates news_id news db axis =
    keep (admits (ruling news_id news db axis)) (on_axis axis (counted news_id news db))

-- `ORIGIN_PRIORITY`, with `shadow` read as `classifier`
abbrev pub origin_priority : Origin → ℕ
origin_priority Origin.classifier = 100
origin_priority Origin.shadow = 100
origin_priority Origin.parser = 200
origin_priority Origin.source_default = 300
origin_priority Origin.manual = 1000
origin_priority Origin.provenance = 0

abbrev classifier_priority : Option Classifier → ℕ
classifier_priority none = 0
classifier_priority (some classifier) = classifier.priority

-- `opinion_priority(a) <= opinion_priority(b)`
unfoldable pub priority_le : Store → NewsLabel → NewsLabel → Bool
priority_le db a b =
    let p = origin_priority a.origin in
    let q = origin_priority b.origin in
    let c = classifier_priority (classifier_by_slug db (before_colon a.origin_key)) in
    let d = classifier_priority (classifier_by_slug db (before_colon b.origin_key)) in
    ltb p q || p == q && (ltb c d || c == d && text_le a.origin_key b.origin_key)

-- The opinion that wins, by a label of it: the first of those with the greatest priority.
unfoldable pub winning : Store → NewsLabel → List Entry → NewsLabel
winning db best [] = best
winning db best (entry ∷ rest) =
    winning db (if priority_le db entry.label best then best else entry.label) rest

abbrev pub same_opinion : NewsLabel → NewsLabel → Bool
same_opinion a b = same_origin a.origin b.origin && str_eq a.origin_key b.origin_key

-- `(-confidence, slug)`
abbrev pub entry_le : Entry → Entry → Bool
entry_le a b =
    ltb b.label.confidence a.label.confidence
    || a.label.confidence == b.label.confidence && text_le a.value.slug b.value.slug

abbrev cut : List Entry → List Entry
cut [] = []
cut (entry ∷ rest) = if is_single entry.facet.kind then entry ∷ [] else entry ∷ rest

unfoldable pub winners : Store → List Entry → List Entry
unfolding winning
winners db [] = []
winners db (entry ∷ rest) =
    let best = winning db entry.label rest in
    cut (sorted entry_le (keep (λ e. same_opinion e.label best) (entry ∷ rest)))

-- `active_manual`: the axes that a decision set, and those manual from before.
unfoldable pub active_manual : ℕ → News → Store → List String
active_manual news_id news db =
    keep (λ axis. holds_manual (ruling news_id news db axis))
      (distinct (distinct [] news.manual_facets) (decision_axes news_id news db))

-- `axes`
unfoldable pub label_axes : ℕ → News → Store → List String
unfolding distinct
label_axes news_id news db =
    distinct (distinct [] (map (λ e. e.facet.slug) (counted news_id news db)))
      (active_manual news_id news db)

-- `(axis, winners)` of each axis that has candidates
unfoldable pub selections : ℕ → News → Store → List String → List (String × List Entry)
selections news_id news db [] = []
selections news_id news db (axis ∷ rest) =
    let others = selections news_id news db rest in
    elim (winners db (candidates news_id news db axis)) [
      | [] ↦ others
      | entry ∷ entries ↦ (axis, entry ∷ entries) ∷ others
    ]

abbrev pub effective_of : ℕ → Entry → NewsEffectiveLabel
effective_of news_id entry = record {
  news_id = news_id;
  facet_id = entry.label.facet_id;
  value_id = entry.label.value_id;
  origin = entry.label.origin;
  confidence = entry.label.confidence;
}

unfoldable pub effective_rows : ℕ → List (String × List Entry) → List NewsEffectiveLabel
effective_rows news_id [] = []
effective_rows news_id ((axis, entries) ∷ rest) =
    map (effective_of news_id) entries ++ effective_rows news_id rest

abbrev pub selected_labels : List (String × List Entry) → List (String × List String)
selected_labels [] = []
selected_labels ((axis, entries) ∷ rest) =
    (axis, map (λ e. e.value.slug) entries) ∷ selected_labels rest

abbrev version_le : ℕ × EditorialRule → ℕ × EditorialRule → Bool
version_le (i, a) (j, b) = leb a.version b.version

-- The enabled rules by version, as `evaluate_scores` takes them.
unfoldable pub enabled_rules : Store → List Rule
enabled_rules db =
    map (λ (k, rule). record { id = k; enabled = true; definition = rule.definition })
      (sorted version_le (select (λ k rule. rule.enabled) db.rules))

abbrev pub scored : EditorialScores → List String → News → News
scored scores manual news = record news {
  manual_facets = manual;
  urgency = scores.urgency;
  impact = scores.impact;
  editorial_priority = scores.editorial_priority;
  importance = importance scores;
  revision = suc news.revision;
  visibility_revision = suc news.visibility_revision;
}

-- `recompute`
unfoldable pub recompute : ℕ → News → Store → Store
unfolding selections effective_rows enabled_rules
recompute news_id news db =
    let chosen = selections news_id news db (label_axes news_id news db) in
    let scores = evaluate_scores (selected_labels chosen) (enabled_rules db) zero_scores in
    let manual = sorted text_le (active_manual news_id news db) in
    set_news news_id (scored scores manual news) (record db {
      effective =
          keep (λ e. not (e.news_id == news_id)) db.effective ++ effective_rows news_id chosen;
    })
