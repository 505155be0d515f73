-- ===== src/Rematerialization/Frame.antt =====
-- What the loop over a batch of rematerialization_storage.py leaves alone, and what it raises.
use mathlib.Core.Option.{some-injective}
use rd_news.Prelude.{
  ℕ, ◌≤◌, ◌<◌, ◌≡◌, refl, sym, ◌∙◌, ap, true, Option, none, some, List, [], ◌∷◌, arith, ◌==◌,
  ==_iff, All, All-map, Bool-cases, Option-cases, inl, inr,
}
use rd_news.Table
use rd_news.Table.{Table}
use rd_news.Model.Status.{NewsState, same_state}
use rd_news.Model.News.{News}
use rd_news.Model.Store.{Store}
use rd_news.Labels.Materializer.{recompute}
use rd_news.Rematerialization.{is_live, project, recompute_found, recompute_each}

-- No item disappears, and no revision falls.
abbrev pub Grows : Table News → Table News → Type 0
Grows t t' =
    (k : ℕ) (news : News)
    → Table.get k t ≡ some news
    → (news' : News) × (Table.get k t' ≡ some news') × (news.revision ≤ news'.revision)

-- Jobs, opinions and decisions stay, no item appears or is deleted, and no revision falls.
pub record Kept (db db' : Store) : Type 0 where
  pub jobs : db'.jobs ≡ db.jobs
  pub labels : db'.labels ≡ db.labels
  pub decisions : db'.decisions ≡ db.decisions
  pub keys : db'.news.keys ≡ db.news.keys
  pub live : (k : ℕ) → is_live db' k ≡ is_live db k
  pub revisions : Grows db.news db'.news

-- The item is there before and after, and its revision has grown.
pub record Risen (t t' : Table News) (k : ℕ) : Type 0 where
  pub before : News
  pub after : News
  pub was : Table.get k t ≡ some before
  pub now_is : Table.get k t' ≡ some after
  pub grown : before.revision < after.revision

pub Kept-refl : (db : Store) → Kept db db
Kept-refl db = record {
  jobs = refl;
  labels = refl;
  decisions = refl;
  keys = refl;
  live = λ k. refl;
  revisions = λ k news there. (news, there, omega arith);
}

pub Kept-trans : {a b c : Store} → Kept a b → Kept b c → Kept a c
Kept-trans p q = record {
  jobs = q.jobs ∙ p.jobs;
  labels = q.labels ∙ p.labels;
  decisions = q.decisions ∙ p.decisions;
  keys = q.keys ∙ p.keys;
  live = λ k. q.live k ∙ p.live k;
  revisions = λ k news there.
      let (news₁, there₁, up₁) = p.revisions k news there in
      let (news₂, there₂, up₂) = q.revisions k news₁ there₁ in
      (news₂, there₂, omega (arith, up₁, up₂));
}

pub Risen-later : {a b c : Table News} (k : ℕ) → Risen a b k → Grows b c → Risen a c k
Risen-later k r grows =
    let (news, there, up) = grows k r.after r.now_is in
    record {
      before = r.before;
      after = news;
      was = r.was;
      now_is = there;
      grown = omega (arith, r.grown, up);
    }

pub Risen-earlier :
    (a : Store) {b c : Table News} (k : ℕ)
    → Grows a.news b
    → Risen b c k
    → is_live a k ≡ true
    → Risen a.news c k
Risen-earlier a {b} {c} k grows r alive = elim (Option-cases (Table.get k a.news)) [
  | inl e ↦ absurd (let dead = rw e at alive in cc)
  | inr (news, there) ↦
      let (news', there', up) = grows k news there in
      let same : news' ≡ r.before = some-injective _ _ (sym there' ∙ r.was) in
      record {
        before = news;
        after = r.after;
        was = there;
        now_is = r.now_is;
        grown = omega (arith, r.grown, up, ap (λ n. n.revision) same);
      }
]

project-Kept : (k : ℕ) (row : Option News) (db : Store) → Kept db (project k row db)
project-Kept k none db = Kept-refl db
project-Kept k (some news) db = record {
  jobs = refl;
  labels = refl;
  decisions = refl;
  keys = refl;
  live = λ j. refl;
  revisions = λ j item there. (item, there, omega arith);
}

module _ (k : ℕ) (news : News) (db : Store) (there : Table.get k db.news ≡ some news) where
  recompute-live : (j : ℕ) → is_live (recompute k news db) j ≡ is_live db j
  unfolding recompute
  recompute-live j = elim (Bool-cases (k == j)) [
    | inl e ↦ rw e (rw (← (==_iff k j).0 e) (rw there refl))
    | inr e ↦ rw e refl
  ]

  recompute-revisions :
      (j : ℕ) (item : News)
      → Table.get j db.news ≡ some item
      → (item' : News) × (Table.get j (recompute k news db).news ≡ some item')
        × (item.revision ≤ item'.revision)
  unfolding recompute
  recompute-revisions j item at_j = elim (Bool-cases (k == j)) [
    | inl e ↦
        let same : news ≡ item = some-injective _ _ (sym there ∙ rw (← (==_iff k j).0 e) at at_j) in
        rw e (_, refl, omega (arith, ap (λ n. n.revision) same))
    | inr e ↦ rw e (item, at_j, omega arith)
  ]

  recompute-Kept : Kept db (recompute k news db)
  unfolding recompute
  recompute-Kept = record {
    jobs = refl;
    labels = refl;
    decisions = refl;
    keys = rw there refl;
    live = recompute-live;
    revisions = recompute-revisions;
  }

  recompute-row :
      (item' : News) × (Table.get k (recompute k news db).news ≡ some item')
      × (news.revision < item'.revision)
  unfolding recompute
  recompute-row = rw ((==_iff k k).1 refl) (_, refl, omega arith)

  recompute-Risen : Risen db.news (recompute k news db).news k
  recompute-Risen =
      let (item', there', up) = recompute-row in
      record { before = news; after = item'; was = there; now_is = there'; grown = up }

recompute_found-Kept :
    (k : ℕ) (row : Option News) (db : Store)
    → Table.get k db.news ≡ row
    → Kept db (recompute_found k row db)
recompute_found-Kept k none db there = Kept-refl db
recompute_found-Kept k (some news) db there =
    elim (Bool-cases (same_state news.status NewsState.deleted)) [
      | inl e ↦ rw e (Kept-refl db)
      | inr e ↦ rw e (Kept-trans (recompute-Kept k news db there) (project-Kept k _ _))
    ]

recompute_found-Risen :
    (k : ℕ) (row : Option News) (db : Store)
    → Table.get k db.news ≡ row
    → is_live db k ≡ true
    → Risen db.news (recompute_found k row db).news k
recompute_found-Risen k none db there alive = absurd (let dead = rw there at alive in cc)
recompute_found-Risen k (some news) db there alive =
    elim (Bool-cases (same_state news.status NewsState.deleted)) [
      | inl e ↦ absurd (let dead = rw e at (rw there at alive) in cc)
      | inr e ↦
          rw e (Risen-later k (recompute-Risen k news db there) (project-Kept k _ _).revisions)
    ]

pub recompute_each-Kept : (ks : List ℕ) (db : Store) → Kept db (recompute_each ks db)
unfolding recompute_each
recompute_each-Kept [] db = Kept-refl db
recompute_each-Kept (k ∷ ks) db =
    Kept-trans (recompute_found-Kept k _ db refl) (recompute_each-Kept ks _)

pub recompute_each-Risen :
    (ks : List ℕ) (db : Store)
    → All (λ k. is_live db k ≡ true → Risen db.news (recompute_each ks db).news k) ks
unfolding recompute_each
recompute_each-Risen [] db = tt
recompute_each-Risen (k ∷ ks) db =
    let first = recompute_found-Kept k _ db refl in
    (
      λ alive.
          Risen-later k (recompute_found-Risen k _ db refl alive)
            (recompute_each-Kept ks _).revisions,
      All-map ks
          (λ j rise alive. Risen-earlier db j first.revisions (rise (first.live j ∙ alive)) alive)
          (recompute_each-Risen ks _),
    )
