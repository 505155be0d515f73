-- ===== src/Labels/Decisions.antt =====
-- The append-only manual decisions: `LabelResolver` of labels/resolver.py and
-- `ManualLabelDecisions` of labels/manual_decisions.py.
pub mod Newest
use rd_news.Prelude.{
  ℕ, suc, ◌+◌, String, Bool, true, false, not, ◌&&◌, ◌||◌, Option, none, some, List, [], ◌∷◌, ltb,
  ◌==◌, leb, str_eq, same_option, any_of, length, max, if◌then◌else◌,
}
use rd_news.Prelude.Sort.{sorted}
use rd_news.Prelude.Uuid.{uuid_text}
use rd_news.Table
use rd_news.Table.{select}
use rd_news.Model.Result.{Result, ok, err, ◌>>=◌, ◌>>◌, guard, require, validation}
use rd_news.Model.News.{News}
use rd_news.Model.Taxonomy.{Facet, FacetValue, FacetKind}
use rd_news.Model.Labels.{NewsLabel, ManualLabelDecision, Origin, Action, is_manual}
use rd_news.Model.Store.{Store, add_label, add_decision}
use rd_news.Labels.Confidence.{one}

abbrev head_row {ℓ} : {A : Type ℓ} → List (ℕ × A) → Option (ℕ × A)
head_row [] = none
head_row (x ∷ xs) = some x

-- `contains(value, values)` on texts
abbrev pub has_text : String → List String → Bool
has_text s = any_of (str_eq s)

-- `len(set(values))`
unfoldable pub count_distinct : List String → ℕ
count_distinct [] = 0
count_distinct (x ∷ xs) = let rest = count_distinct xs in if has_text x xs then rest else suc rest

abbrev pub is_single : FacetKind → Bool
is_single FacetKind.single = true
is_single FacetKind.multi = false

-- The enabled facet of a slug (slugs are unique).
unfoldable pub facet_by_slug : String → Store → Option (ℕ × Facet)
facet_by_slug slug db = head_row (select (λ k f. str_eq f.slug slug && f.enabled) db.facets)

unfoldable pub values_of : ℕ → List String → Store → List (ℕ × FacetValue)
values_of facet_id slugs db =
    select (λ k v. v.facet_id == facet_id && has_text v.slug slugs && v.enabled) db.facet_values

pub record Resolved : Type 0 where
  pub facet_id : ℕ
  pub facet : Facet
  pub values : List (ℕ × FacetValue)

-- One round of the loop of `resolve`.
unfoldable pub resolve_one : Store → String → List String → Result Resolved
unfolding count_distinct
resolve_one db slug value_slugs = do
  (facet_id, facet) ← require (facet_by_slug slug db) (validation "unknown facet")
  let values = values_of facet_id value_slugs db
  guard (length values == count_distinct value_slugs) (validation "unknown value for facet")
  guard (not (is_single facet.kind && ltb 1 (length values))) (validation "facet accepts one value")
  ok (record { facet_id = facet_id; facet = facet; values = values })

unfoldable pub resolve : Store → List (String × List String) → Result (List Resolved)
unfolding resolve_one
resolve db [] = ok []
resolve db ((slug, values) ∷ rest) = do
  first ← resolve_one db slug values
  others ← resolve db rest
  ok (first ∷ others)

-- `max(revision)` of the decisions on a facet of the version, or 0
unfoldable pub last_revision : List (ℕ × ManualLabelDecision) → ℕ
last_revision [] = 0
last_revision ((k, d) ∷ rest) = max d.revision (last_revision rest)

abbrev pub decisions_on : ℕ → Option ℕ → ℕ → Store → List (ℕ × ManualLabelDecision)
decisions_on news_id version_id facet_id db =
    select
      (λ k d. d.news_id == news_id && same_option d.version_id version_id && d.facet_id == facet_id)
      db.decisions

abbrev pub next_decision : ℕ → ℕ → ℕ → Action → Option ℕ → Store → ManualLabelDecision
next_decision news_id version_id facet_id action user_id db = record {
  news_id = news_id;
  version_id = some version_id;
  facet_id = facet_id;
  revision = last_revision (decisions_on news_id (some version_id) facet_id db) + 1;
  origin = Origin.manual;
  action = action;
  created_by_user_id = user_id;
}

abbrev pub append_at : ℕ → News → ℕ → Action → Option ℕ → Option ℕ → Store → Result (ℕ × Store)
append_at news_id news facet_id action user_id none db =
    err (validation "news has no current version")
append_at news_id news facet_id action user_id (some version_id) db =
    ok (db.next_id, add_decision (next_decision news_id version_id facet_id action user_id db) db)

-- `append`: the next revision of the facet's decision; returns its id.
unfoldable pub append : ℕ → News → ℕ → Action → Option ℕ → Store → Result (ℕ × Store)
append news_id news facet_id action user_id db =
    append_at news_id news facet_id action user_id news.current_version_id db

abbrev manual_label : ℕ → News → ℕ → ℕ → ℕ → NewsLabel
manual_label news_id news facet_id value_id decision_id = record {
  news_id = news_id;
  version_id = news.current_version_id;
  facet_id = facet_id;
  value_id = value_id;
  origin = Origin.manual;
  origin_key = uuid_text decision_id;
  confidence = one;
  reason = none;
  evidence = [];
}

unfoldable pub add_manual_labels : ℕ → News → ℕ → ℕ → List (ℕ × FacetValue) → Store → Store
unfolding uuid_text one
add_manual_labels news_id news facet_id decision_id [] db = db
add_manual_labels news_id news facet_id decision_id ((value_id, value) ∷ rest) db =
    add_manual_labels news_id news facet_id decision_id rest
      (add_label (manual_label news_id news facet_id value_id decision_id) db)

unfoldable pub replace_all : ℕ → News → Option ℕ → List Resolved → Store → Result Store
unfolding append add_manual_labels
replace_all news_id news user_id [] db = ok db
replace_all news_id news user_id (r ∷ rest) db = do
  (decision_id, db') ← append news_id news r.facet_id Action.set user_id db
  replace_all news_id news user_id rest
      (add_manual_labels news_id news r.facet_id decision_id r.values db')

-- `replace`
unfoldable pub replace : ℕ → News → List (String × List String) → Option ℕ → Store → Result Store
unfolding resolve replace_all
replace news_id news labels user_id db = do
  facets ← resolve db labels
  replace_all news_id news user_id facets db

unfoldable pub release_all : ℕ → News → Option ℕ → List (ℕ × Facet) → Store → Result Store
unfolding append
release_all news_id news user_id [] db = ok db
release_all news_id news user_id ((facet_id, facet) ∷ rest) db = do
  (decision_id, db') ← append news_id news facet_id Action.release user_id db
  release_all news_id news user_id rest db'

abbrev release_some : ℕ → News → List String → Option ℕ → Store → Result Store
release_some news_id news facet_slugs user_id db =
    let facets = select (λ k f. has_text f.slug facet_slugs) db.facets in
    do
      guard (length facets == count_distinct facet_slugs)
          (validation "unknown facet in release list")
      release_all news_id news user_id facets db

-- `release`
unfoldable pub release : ℕ → News → List String → Option ℕ → Store → Result Store
unfolding release_all count_distinct
release news_id news [] user_id db = ok db
release news_id news (slug ∷ slugs) user_id db = release_some news_id news (slug ∷ slugs) user_id db

-- `revision DESC, id DESC`
abbrev pub decision_le : ℕ × ManualLabelDecision → ℕ × ManualLabelDecision → Bool
decision_le (i, a) (j, b) = ltb b.revision a.revision || a.revision == b.revision && leb j i

abbrev pub facet_slug_of : Store → ℕ → Option String
facet_slug_of db facet_id = elim (Table.get facet_id db.facets) [
  | none ↦ none
  | some facet ↦ some facet.slug
]

abbrev on_enabled_facet : Store → String → ℕ → Bool
on_enabled_facet db slug facet_id = elim (Table.get facet_id db.facets) [
  | none ↦ false
  | some facet ↦ facet.enabled && str_eq facet.slug slug
]

-- `latest(...).get(slug)`: the last manual decision on the enabled facet of that slug
unfoldable pub latest_decision : ℕ → Option ℕ → Store → String → Option (ℕ × ManualLabelDecision)
latest_decision news_id version_id db slug = head_row (
    sorted decision_le (
      select
        (λ k d.
          d.news_id == news_id
          && same_option d.version_id version_id
          && is_manual d.origin
          && on_enabled_facet db slug d.facet_id)
        db.decisions))
