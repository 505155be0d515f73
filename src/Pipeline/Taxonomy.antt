-- ===== src/Pipeline/Taxonomy.antt =====
-- `PipelineTaxonomy.load` of pipeline/taxonomy.py, as far as the pipeline uses its second result.
use rd_news.Prelude.{ℕ, String, Bool, Option, none, some, List, ◌&&◌, ◌==◌, map, true, false}
use rd_news.Table.{select}
use rd_news.Model.Taxonomy.{Facet, FacetKind}
use rd_news.Model.Store.{Store}
use rd_news.Labels.Normalization.{AxisDefinition, Axes}
use rd_news.Labels.Decisions.{facet_by_slug}

abbrev is_multi : FacetKind → Bool
is_multi FacetKind.multi = true
is_multi FacetKind.single = false

abbrev axis_of : Store → Option (ℕ × Facet) → Option AxisDefinition
axis_of db none = none
axis_of db (some (facet_id, facet)) = some (record {
  values =
      map (λ (k, v). v.slug) (select (λ k v. v.facet_id == facet_id && v.enabled) db.facet_values);
  multiple = is_multi facet.kind;
})

-- The enabled facets by slug, with their enabled values.
unfoldable pub load_axes : Store → Axes
load_axes db slug = axis_of db (facet_by_slug slug db)

-- `set(axes)`
unfoldable pub axis_names : Store → List String
axis_names db = map (λ (k, f). f.slug) (select (λ k f. f.enabled) db.facets)
