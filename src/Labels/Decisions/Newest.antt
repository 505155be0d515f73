-- ===== src/Labels/Decisions/Newest.antt =====
-- A decision that is appended is the newest of its facet.
use mathlib.Core.Path.{subst₂}
use rd_news.Prelude.{
  ℕ, ◌≤◌, ◌<◌, ◌≡◌, refl, ap, Option, none, some, List, [], ◌∷◌, arith, All, All-map, ◌==◌, ==_iff,
  false,
}
use rd_news.Table
use rd_news.Model.Result.{ok, ok-injective}
use rd_news.Model.News.{News}
use rd_news.Model.Labels.{ManualLabelDecision, Action}
use rd_news.Model.Store.{Store}
use rd_news.Labels.Decisions.{append, append_at, next_decision, last_revision, decisions_on}

last_revision-bound :
    (decisions : List (ℕ × ManualLabelDecision))
    → All (λ x. x.1.revision ≤ last_revision decisions) decisions
unfolding last_revision
last_revision-bound [] = tt
last_revision-bound ((k, decision) ∷ rest) =
    (omega arith, All-map rest (λ x h. omega (arith, h)) (last_revision-bound rest))

-- The row that was appended, and the rows that were there.
pub record Appended (news_id : ℕ) (news : News) (facet_id : ℕ) (action : Action) (db : Store)
    (k : ℕ) (db' : Store) : Type 0 where
  pub version_id : ℕ
  pub current : news.current_version_id ≡ some version_id
  pub decision : ManualLabelDecision
  pub there : Table.get k db'.decisions ≡ some decision
  pub decides :
      (decision.news_id ≡ news_id)
      × (decision.version_id ≡ some version_id)
      × (decision.facet_id ≡ facet_id)
      × (decision.action ≡ action)
  pub newest :
      All
        (λ x. x.1.revision < decision.revision)
        (decisions_on news_id (some version_id) facet_id db)
  pub kept : (i : ℕ) → i < db.next_id → Table.get i db'.decisions ≡ Table.get i db.decisions

other_row : (n i : ℕ) → i < n → (n == i) ≡ false
other_row n i h = ground arith

-- A manual decision that is appended is for the current version of the item, and has a greater
-- revision than every decision on the facet for that version; the decisions that were there are kept.
pub append-Appended :
    (news_id : ℕ) (news : News) (facet_id : ℕ) (action : Action) (user_id : Option ℕ) (db : Store)
    (k : ℕ) (db' : Store)
    → append news_id news facet_id action user_id db ≡ ok (k, db')
    → Appended news_id news facet_id action db k db'
unfolding append
append-Appended news_id news facet_id action user_id db k db' e = go news.current_version_id refl e
  where
    go :
        (o : Option ℕ)
        → news.current_version_id ≡ o
        → append_at news_id news facet_id action user_id o db ≡ ok (k, db')
        → Appended news_id news facet_id action db k db'
    go none v e = cc
    go (some version_id) v e =
        subst₂ (Appended news_id news facet_id action db) (ap (λ p. p.0) (ok-injective e))
          (ap (λ p. p.1) (ok-injective e))
          (record {
            version_id = version_id;
            current = v;
            decision = next_decision news_id version_id facet_id action user_id db;
            there = rw ((==_iff db.next_id db.next_id).1 refl) refl;
            decides = (refl, refl, refl, refl);
            newest =
                All-map (decisions_on news_id (some version_id) facet_id db)
                  (λ x h. omega (arith, h))
                  (last_revision-bound (decisions_on news_id (some version_id) facet_id db));
            kept = λ i h. rw (other_row db.next_id i h) refl;
          })
