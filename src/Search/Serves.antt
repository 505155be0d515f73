-- ===== src/Search/Serves.antt =====
-- What a change of the search projections keeps, whoever makes it (indexer.py).
use mathlib.Core.Option.{some-injective}
use mathlib.Core.Path.{subst}
use rd_news.Prelude.{
  ℕ, ◌≤◌, ◌≡◌, refl, sym, ◌∙◌, true, some, ◌==◌, ==_iff, Bool-cases, ◌⊎◌, inl, inr,
}
use rd_news.Table
use rd_news.Table.{select, first_by}
use rd_news.Model.News.{News}
use rd_news.Model.Store.{Store}
use rd_news.Search.{SearchProjection, Projections, is_ready}

-- Nothing is indexed that was not asked for, and a ready projection is up to date with the request.
pub record Honest (p : SearchProjection) : Type 0 where
  pub bound : p.indexed_revision ≤ p.desired_revision
  pub ready : is_ready p.status ≡ true → p.indexed_revision ≡ p.desired_revision

-- The projection is at the revisions of the item as it stands.
pub record UpToDate (db : Store) (k : ℕ) (p : SearchProjection) : Type 0 where
  pub news : News
  pub there : Table.get k db.news ≡ some news
  pub revision : p.indexed_revision ≡ news.revision
  pub visibility : p.visibility_revision ≡ news.visibility_revision

-- It was ready before, at the same revisions.
pub record WasReady (ps : Projections) (k : ℕ) (p' : SearchProjection) : Type 0 where
  pub p : SearchProjection
  pub there : Table.get k ps ≡ some p
  pub ready : is_ready p.status ≡ true
  pub revision : p'.indexed_revision ≡ p.indexed_revision
  pub visibility : p'.visibility_revision ≡ p.visibility_revision

abbrev pub AllHonest : Projections → Type 0
AllHonest ps = (k : ℕ) (p : SearchProjection) → Table.get k ps ≡ some p → Honest p

-- A change of the projections that keeps them honest and makes one ready only at its item's
-- revision.
pub record Serves (db : Store) (ps ps' : Projections) : Type 0 where
  pub honest : AllHonest ps → AllHonest ps'
  pub since :
      (k : ℕ) (p' : SearchProjection)
      → Table.get k ps' ≡ some p'
      → is_ready p'.status ≡ true
      → WasReady ps k p' ⊎ UpToDate db k p'

same_row :
    (k : ℕ) (ps : Projections) (p : SearchProjection)
    → Table.get k ps ≡ some p
    → is_ready p.status ≡ true
    → WasReady ps k p
same_row k ps p there ready = record {
  p = p;
  there = there;
  ready = ready;
  revision = refl;
  visibility = refl;
}

pub Serves-refl : (db : Store) (ps : Projections) → Serves db ps ps
Serves-refl db ps = record {
  honest = λ h. h;
  since = λ k p' there ready. inl (same_row k ps p' there ready);
}

pub Serves-trans :
    {db : Store} {a b c : Projections} → Serves db a b → Serves db b c → Serves db a c
Serves-trans {db} {a} {b} {c} f g = record {
  honest = λ h. g.honest (f.honest h);
  since = λ k p' there ready. elim (g.since k p' there ready) [
    | inr current ↦ inr current
    | inl was ↦ elim (f.since k was.p was.there was.ready) [
      | inl before ↦ inl (record {
        p = before.p;
        there = before.there;
        ready = before.ready;
        revision = was.revision ∙ before.revision;
        visibility = was.visibility ∙ before.visibility;
      })
      | inr current ↦ inr (record {
        news = current.news;
        there = current.there;
        revision = was.revision ∙ current.revision;
        visibility = was.visibility ∙ current.visibility;
      })
    ]
  ];
}

-- One row is written.
pub put-Serves :
    (db : Store) (j : ℕ) (q : SearchProjection) (ps : Projections)
    → (AllHonest ps → Honest q)
    → (is_ready q.status ≡ true → WasReady ps j q ⊎ UpToDate db j q)
    → Serves db ps (Table.put j q ps)
put-Serves db j q ps honest since = record {
  honest = λ h k p there. elim (Bool-cases (j == k)) [
    | inl e ↦ subst Honest (some-injective _ _ (rw e at there)) (honest h)
    | inr e ↦ h k p (rw e at there)
  ];
  since = λ k p' there ready. elim (Bool-cases (j == k)) [
    | inl e ↦
        let same : q ≡ p' = some-injective _ _ (rw e at there) in
        let here : WasReady ps j p' ⊎ UpToDate db j p' =
          subst (λ r. WasReady ps j r ⊎ UpToDate db j r) same
            (since (subst (λ (r : SearchProjection). is_ready r.status ≡ true) (sym same) ready)) in
        subst (λ i. WasReady ps i p' ⊎ UpToDate db i p') ((==_iff j k).0 e) here
    | inr e ↦ inl (same_row k ps p' (rw e at there) ready)
  ];
}
