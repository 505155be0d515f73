-- ===== src/Labels/Opinions.antt =====
-- The opinions on a news item that count: the first part of `recompute` of labels/materializer.py.
use rd_news.Prelude.{
  ℕ, String, Bool, true, false, not, ◌&&◌, ◌||◌, Option, none, some, List, [], ◌∷◌, ◌==◌, leb,
  str_eq, same_option, keep, if◌then◌else◌,
}
use rd_news.Prelude.Text.{before_colon, after_colon}
use rd_news.Prelude.Uuid.{uuid_text}
use rd_news.Table
use rd_news.Table.{select}
use rd_news.Model.News.{News}
use rd_news.Model.Taxonomy.{Facet, FacetValue, Classifier}
use rd_news.Model.Labels.{NewsLabel, Origin}
use rd_news.Model.Store.{Store}
use rd_news.Labels.Attempts.{latest_attempt}
use rd_news.Labels.Decisions.{has_text}

-- A row of the join of opinions, facets and values.
pub record Entry : Type 0 where
  pub label : NewsLabel
  pub facet : Facet
  pub value : FacetValue

abbrev pub joined : NewsLabel → Option Facet → Option FacetValue → List Entry → List Entry
joined label (some facet) (some value) rest =
    if facet.enabled && value.enabled
    then record { label = label; facet = facet; value = value } ∷ rest
    else rest
joined label _ _ rest = rest

unfoldable pub join : Store → List (ℕ × NewsLabel) → List Entry
join db [] = []
join db ((k, label) ∷ rest) =
    joined label (Table.get label.facet_id db.facets) (Table.get label.value_id db.facet_values)
      (join db rest)

-- The opinions on the current version of the item, whose facet and value are enabled.
unfoldable pub rows : ℕ → News → Store → List Entry
unfolding join
rows news_id news db = join db (
    select
      (λ k label. label.news_id == news_id && same_option label.version_id news.current_version_id)
      db.labels)

abbrev pub last_of : List (ℕ × Classifier) → Option Classifier
last_of [] = none
last_of ((k, c) ∷ rest) = elim (last_of rest) [ none ↦ some c | some d ↦ some d ]

-- `classifier_by_slug.get(slug)`
unfoldable pub classifier_by_slug : Store → String → Option Classifier
classifier_by_slug db slug = last_of (select (λ k c. str_eq c.slug slug) db.classifiers)

abbrev pub same_text : Option String → Option String → Bool
same_text (some a) (some b) = str_eq a b
same_text none none = true
same_text _ _ = false

abbrev pub attempt_text : Option ℕ → Option String
attempt_text none = none
attempt_text (some k) = some (uuid_text k)

abbrev pub is_empty_list : List String → Bool
is_empty_list [] = true
is_empty_list (x ∷ xs) = false

abbrev pub classifier_counts : Option Classifier → Entry → Bool
classifier_counts none entry = false
classifier_counts (some classifier) entry =
    classifier.enabled
    && not classifier.shadow
    && (is_empty_list classifier.allowed_axes || has_text entry.facet.slug classifier.allowed_axes)
    && leb classifier.min_confidence entry.label.confidence

-- A classifier's opinion counts if it is of the classifier's latest attempt, and the classifier is
-- enabled, no shadow, allowed on the axis and sure enough.
unfoldable pub opinion_counts : ℕ → News → Store → Entry → Bool
opinion_counts news_id news db entry =
    let slug = before_colon entry.label.origin_key in
    let attempt_id = after_colon entry.label.origin_key in
    elim attempt_id [
      | none ↦ false
      | some text ↦
          same_text (attempt_text (latest_attempt news_id news.current_version_id db slug))
            (some text)
          && classifier_counts (classifier_by_slug db slug) entry
    ]

abbrev pub counts : ℕ → News → Store → Entry → Bool
counts news_id news db entry = elim entry.label.origin [
  | Origin.provenance ↦ false
  | Origin.classifier ↦ opinion_counts news_id news db entry
  | Origin.shadow ↦ opinion_counts news_id news db entry
  | _ ↦ true
]

-- `grouped`, as one list
unfoldable pub counted : ℕ → News → Store → List Entry
counted news_id news db = keep (counts news_id news db) (rows news_id news db)
