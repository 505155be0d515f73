-- ===== src/Labels/Recorder.antt =====
-- `LabelRecorder.record` of labels/recorder.py: opinions of an origin other than a classifier.
use rd_news.Prelude.{ℕ, String, none, List, [], ◌∷◌}
use rd_news.Model.Result.{Result, ok, ◌>>=◌}
use rd_news.Model.News.{News}
use rd_news.Model.Taxonomy.{FacetValue}
use rd_news.Model.Labels.{NewsLabel, Origin}
use rd_news.Model.Store.{Store, add_label}
use rd_news.Labels.Confidence.{one}
use rd_news.Labels.Decisions.{Resolved, resolve}
use rd_news.Labels.Materializer.{recompute}

abbrev pub recorded : ℕ → News → ℕ → ℕ → Origin → String → NewsLabel
recorded news_id news facet_id value_id origin origin_key = record {
  news_id = news_id;
  version_id = news.current_version_id;
  facet_id = facet_id;
  value_id = value_id;
  origin = origin;
  origin_key = origin_key;
  confidence = one;
  reason = none;
  evidence = [];
}

unfoldable pub add_values : ℕ → News → ℕ → List (ℕ × FacetValue) → Origin → String → Store → Store
add_values news_id news facet_id [] origin origin_key db = db
add_values news_id news facet_id ((value_id, value) ∷ rest) origin origin_key db =
    add_values news_id news facet_id rest origin origin_key
      (add_label (recorded news_id news facet_id value_id origin origin_key) db)

unfoldable pub add_facets : ℕ → News → List Resolved → Origin → String → Store → Store
add_facets news_id news [] origin origin_key db = db
add_facets news_id news (r ∷ rest) origin origin_key db =
    add_facets news_id news rest origin origin_key
      (add_values news_id news r.facet_id r.values origin origin_key db)

-- `record`
unfoldable pub record_labels :
    ℕ → News → List (String × List String) → Origin → String → Store → Result Store
record_labels news_id news labels origin origin_key db = do
  facets ← resolve db labels
  ok (recompute news_id news (add_facets news_id news facets origin origin_key db))
