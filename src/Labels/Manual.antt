-- ===== src/Labels/Manual.antt =====
-- `ManualLabels` of labels/manual_labels.py: the decisions of an editor, then the recomputation.
use rd_news.Prelude.{ℕ, String, Bool, not, Option, none, List, any_of}
use rd_news.Model.Result.{Result, ok, guard, ◌>>=◌, ◌>>◌, validation}
use rd_news.Model.News.{News}
use rd_news.Model.Store.{Store}
use rd_news.Labels.Decisions.{has_text, replace, release}
use rd_news.Labels.Materializer.{recompute}

-- `set`
unfoldable pub set_labels : ℕ → News → List (String × List String) → Option ℕ → Store → Result Store
set_labels news_id news labels user_id db = do
  db' ← replace news_id news labels user_id db
  ok (recompute news_id news db')

-- `set(labels) & set(release_facets)` is not empty
abbrev overlaps : List (String × List String) → List String → Bool
overlaps labels release_facets = any_of (λ (slug, values). has_text slug release_facets) labels

-- `apply`
unfoldable pub apply_labels :
    ℕ → News → List (String × List String) → List String → Option ℕ → Store → Result Store
apply_labels news_id news labels release_facets user_id db = do
  guard (not (overlaps labels release_facets)) (validation "facet cannot be set and released")
  db₁ ← release news_id news release_facets user_id db
  db₂ ← replace news_id news labels user_id db₁
  ok (recompute news_id news db₂)

-- `release`
unfoldable pub release_labels : ℕ → News → List String → Store → Result Store
release_labels news_id news facet_slugs db = do
  db' ← release news_id news facet_slugs none db
  ok (recompute news_id news db')
