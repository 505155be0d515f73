-- ===== src/Pipeline/OpinionWriter/Frame.antt =====
-- Appending opinions touches no job, attempt or news item.
use rd_news.Prelude.{
  ℕ, ◌≤◌, ◌≡◌, refl, ◌∙◌, Bool, true, false, Option, none, some, List, [], ◌∷◌, arith,
}
use rd_news.Model.Taxonomy.{Classifier}
use rd_news.Model.Store.{Store}
use rd_news.Labels.Normalization.{NormalizedLabel, Axes}
use rd_news.Pipeline.OpinionWriter.{
  append, append_one, append_known, facet_id_of, value_id_of, in_axis,
}

-- The tables that the writer leaves alone.
pub record SameRows (db db' : Store) : Type 0 where
  pub jobs : db'.jobs ≡ db.jobs
  pub attempts : db'.attempts ≡ db.attempts
  pub news : db'.news ≡ db.news
  pub ids : db.next_id ≤ db'.next_id

SameRows-trans : {a b c : Store} → SameRows a b → SameRows b c → SameRows a c
SameRows-trans p q = record {
  jobs = q.jobs ∙ p.jobs;
  attempts = q.attempts ∙ p.attempts;
  news = q.news ∙ p.news;
  ids = omega (arith, p.ids, q.ids);
}

module _ (news_id : ℕ) (version_id : Option ℕ) (attempt_id : ℕ) (classifier : Classifier) where
  append_known-SameRows :
      (label : NormalizedLabel) (b : Bool) (f v : Option ℕ) (db : Store)
      → SameRows db (append_known news_id version_id attempt_id classifier label b f v db)
  append_known-SameRows label true (some f) (some v) db = record {
    jobs = refl;
    attempts = refl;
    news = refl;
    ids = omega arith;
  }
  append_known-SameRows label true (some f) none db = record {
    jobs = refl;
    attempts = refl;
    news = refl;
    ids = omega arith;
  }
  append_known-SameRows label true none v db = record {
    jobs = refl;
    attempts = refl;
    news = refl;
    ids = omega arith;
  }
  append_known-SameRows label false f v db = record {
    jobs = refl;
    attempts = refl;
    news = refl;
    ids = omega arith;
  }

  pub append-SameRows :
      (axes : Axes) (labels : List NormalizedLabel) (db : Store)
      → SameRows db (append news_id version_id attempt_id classifier axes labels db)
  unfolding append
  append-SameRows axes [] db = record {
    jobs = refl;
    attempts = refl;
    news = refl;
    ids = omega arith;
  }
  append-SameRows axes (label ∷ rest) db =
      SameRows-trans
        (append_known-SameRows label (in_axis (axes label.axis) label.value)
          (facet_id_of db label.axis) (value_id_of db (facet_id_of db label.axis) label.value) db)
        (append-SameRows axes rest
          (append_one news_id version_id attempt_id classifier axes label db))
