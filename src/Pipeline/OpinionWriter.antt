-- ===== src/Pipeline/OpinionWriter.antt =====
-- `PipelineOpinionWriter.append` of pipeline/opinion_writer.py.
pub mod Frame
use Prim.Native.String.{◌++◌}
use rd_news.Prelude.{
  ℕ, String, Bool, true, false, ◌&&◌, Option, none, some, List, [], ◌∷◌, ◌==◌, str_eq,
  if◌then◌else◌,
}
use rd_news.Prelude.Uuid.{uuid_text}
use rd_news.Table.{select}
use rd_news.Model.Taxonomy.{Facet, FacetValue, Classifier}
use rd_news.Model.Labels.{NewsLabel, Origin}
use rd_news.Model.Store.{Store, add_label}
use rd_news.Labels.Normalization.{NormalizedLabel, AxisDefinition, Axes, contains}

abbrev last_id {ℓ} : {A : Type ℓ} → List (ℕ × A) → Option ℕ
last_id [] = none
last_id ((k, x) ∷ rest) = elim (last_id rest) [ none ↦ some k | some j ↦ some j ]

-- `facets.get(axis)`: the facet of that slug, enabled or not
unfoldable pub facet_id_of : Store → String → Option ℕ
facet_id_of db axis = last_id (select (λ k f. str_eq f.slug axis) db.facets)

-- `value_map.get((facet_id, value))`
unfoldable pub value_id_of : Store → Option ℕ → String → Option ℕ
value_id_of db none value = none
value_id_of db (some facet_id) value =
    last_id (select (λ k v. v.facet_id == facet_id && str_eq v.slug value) db.facet_values)

abbrev pub in_axis : Option AxisDefinition → String → Bool
in_axis none value = false
in_axis (some definition) value = contains value definition.values

abbrev pub opinion : ℕ → Option ℕ → ℕ → Classifier → NormalizedLabel → ℕ → ℕ → NewsLabel
opinion news_id version_id attempt_id classifier label facet_id value_id = record {
  news_id = news_id;
  version_id = version_id;
  facet_id = facet_id;
  value_id = value_id;
  origin = if classifier.shadow then Origin.shadow else Origin.classifier;
  origin_key = classifier.slug ++ (":" ++ uuid_text attempt_id);
  confidence = label.confidence;
  reason = label.reason;
  evidence = label.evidence;
}

abbrev pub append_known :
    ℕ → Option ℕ → ℕ → Classifier → NormalizedLabel → Bool → Option ℕ → Option ℕ → Store → Store
append_known news_id version_id attempt_id classifier label true (some facet_id) (some value_id)
      db =
    add_label (opinion news_id version_id attempt_id classifier label facet_id value_id) db
append_known news_id version_id attempt_id classifier label _ _ _ db = db

abbrev pub append_one : ℕ → Option ℕ → ℕ → Classifier → Axes → NormalizedLabel → Store → Store
append_one news_id version_id attempt_id classifier axes label db =
    let facet_id = facet_id_of db label.axis in
    append_known news_id version_id attempt_id classifier label
      (in_axis (axes label.axis) label.value) facet_id (value_id_of db facet_id label.value) db

-- The labels are in the answer's normal form, so `axes[label.axis]` is there.
unfoldable pub append : ℕ → Option ℕ → ℕ → Classifier → Axes → List NormalizedLabel → Store → Store
append news_id version_id attempt_id classifier axes [] db = db
append news_id version_id attempt_id classifier axes (label ∷ rest) db =
    append news_id version_id attempt_id classifier axes rest
      (append_one news_id version_id attempt_id classifier axes label db)
