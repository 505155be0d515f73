-- ===== src/Merging/Links.antt =====
-- The links of submissions to news under merge.py and split.py, and the item that each submission
-- names.
use mathlib.Core.Option.{some-injective}
use rd_news.Prelude.{
  ℕ, ◌≡◌, refl, sym, ◌∙◌, ap, Bool, true, false, ◌||◌, Option, none, some, List, [], ◌∷◌, arith,
  ◌==◌, ==_iff, All, All-map, All-zip, All-of_map, keep, map, Bool-cases, Option-cases, ◌⊎◌, inl,
  inr, if◌then◌else◌,
}
use rd_news.Prelude.Members.{member}
use rd_news.Table
use rd_news.Table.{Table}
use rd_news.Model.Sources.{Submission, NewsSourceLink, Relation}
use rd_news.Model.Store.{Store}
use rd_news.Merging.{owned, move_submissions}

-- The submission of a link, where it is there, names the item of the link.
abbrev pub Agrees : Table Submission → NewsSourceLink → Type 0
Agrees submissions link =
    (submission : Submission)
    → Table.get link.submission_id submissions ≡ some submission
    → submission.news_id ≡ some link.news_id

abbrev pub Agree : Store → Type 0
Agree db = All (Agrees db.submissions) db.links

abbrev pub renamed : ℕ → Bool → Option Submission → Option Submission
renamed news_id moves none = none
renamed news_id moves (some submission) =
    if moves then some (record submission { news_id = some news_id }) else some submission

renamed_twice :
    (news_id : ℕ) (b : Bool) (row : Option Submission)
    → renamed news_id b (renamed news_id true row) ≡ renamed news_id true row
renamed_twice news_id b none = refl
renamed_twice news_id true (some submission) = refl
renamed_twice news_id false (some submission) = refl

renamed_not : (news_id : ℕ) (row : Option Submission) → renamed news_id false row ≡ row
renamed_not news_id none = refl
renamed_not news_id (some submission) = refl

owned-row :
    (news_id j k : ℕ) (row : Option Submission) (db : Store)
    → Table.get j db.submissions ≡ row
    → Table.get k (owned news_id row j db).submissions
      ≡ renamed news_id (j == k) (Table.get k db.submissions)
owned-row news_id j k none db there = elim (Bool-cases (j == k)) [
  | inl e ↦ rw e (rw (← (==_iff j k).0 e) (rw there refl))
  | inr e ↦ rw e (sym (renamed_not news_id (Table.get k db.submissions)))
]
owned-row news_id j k (some submission) db there = elim (Bool-cases (j == k)) [
  | inl e ↦ rw e (rw (← (==_iff j k).0 e) (rw there refl))
  | inr e ↦ rw e (sym (renamed_not news_id (Table.get k db.submissions)))
]

-- The submissions that are moved name the item, and the others stay.
pub move_submissions-row :
    (news_id k : ℕ) (ks : List ℕ) (db : Store)
    → Table.get k (move_submissions news_id ks db).submissions
      ≡ renamed news_id (member k ks) (Table.get k db.submissions)
unfolding move_submissions
move_submissions-row news_id k [] db = sym (renamed_not news_id (Table.get k db.submissions))
move_submissions-row news_id k (j ∷ js) db =
    let first = owned-row news_id j k (Table.get j db.submissions) db refl in
    move_submissions-row news_id k js (owned news_id (Table.get j db.submissions) j db)
    ∙ ap (renamed news_id (member k js)) first
    ∙ combine (j == k) (member k js)
  where
    combine :
        (a b : Bool)
        → renamed news_id b (renamed news_id a (Table.get k db.submissions))
          ≡ renamed news_id (a || b) (Table.get k db.submissions)
    combine true b = renamed_twice news_id b (Table.get k db.submissions)
    combine false b = ap (renamed news_id b) (renamed_not news_id (Table.get k db.submissions))

owned-links :
    (news_id k : ℕ) (row : Option Submission) (db : Store)
    → (owned news_id row k db).links ≡ db.links
owned-links news_id k none db = refl
owned-links news_id k (some submission) db = refl

pub move_submissions-links :
    (news_id : ℕ) (ks : List ℕ) (db : Store) → (move_submissions news_id ks db).links ≡ db.links
unfolding move_submissions
move_submissions-links news_id [] db = refl
move_submissions-links news_id (k ∷ ks) db =
    move_submissions-links news_id ks (owned news_id (Table.get k db.submissions) k db)
    ∙ owned-links news_id k (Table.get k db.submissions) db

-- The links that `p` picks go to another item, with their submissions; `p` reads the two keys only.
module _ (p : NewsSourceLink → Bool) (target_id : ℕ) (submissions : Table Submission)
    (by_keys : (a b : NewsSourceLink)
      → a.news_id ≡ b.news_id
      → a.submission_id ≡ b.submission_id
      → p a ≡ p b) where
  abbrev moved_ids : List NewsSourceLink → List ℕ
  moved_ids links = map (λ link. link.submission_id) (keep p links)

  moved-link :
      (links : List NewsSourceLink) (k : ℕ)
      → All (Agrees submissions) links
      → member k (moved_ids links) ≡ true
      → (link : NewsSourceLink) × (p link ≡ true)
        × (link.submission_id ≡ k)
        × Agrees submissions link
  moved-link [] k agree m = cc
  moved-link (link ∷ links) k agree m = elim (Bool-cases (p link)) [
    | inr e ↦ moved-link links k agree.1 (rw e at m)
    | inl e ↦ elim (Bool-cases (link.submission_id == k)) [
      | inr f ↦ moved-link links k agree.1 (rw f at (rw e at m))
      | inl f ↦ (link, e, (==_iff link.submission_id k).0 f, agree.0)
    ]
  ]

  moved_ids-member :
      (links : List NewsSourceLink)
      → All (λ link. p link ≡ true → member link.submission_id (moved_ids links) ≡ true) links
  moved_ids-member [] = tt
  moved_ids-member (link ∷ links) = (
    λ e. rw e (rw ((==_iff link.submission_id link.submission_id).1 refl) refl),
    All-map links (λ other found e. later other (found e)) (moved_ids-member links),
  )
    where
      later :
          (other : NewsSourceLink)
          → member other.submission_id (moved_ids links) ≡ true
          → member other.submission_id (moved_ids (link ∷ links)) ≡ true
      later other found = elim (Bool-cases (p link)) [
        | inl e ↦ rw e (ground (arith, found))
        | inr e ↦ rw e found
      ]

  module _ (relation : Relation) (submissions' : Table Submission) (links : List NewsSourceLink)
      (rows : (k : ℕ)
        → Table.get k submissions'
          ≡ renamed target_id (member k (moved_ids links)) (Table.get k submissions)) where
    abbrev moved_to : NewsSourceLink → NewsSourceLink
    moved_to link =
        if p link
        then record { news_id = target_id; submission_id = link.submission_id; relation = relation }
        else link

    moved-Agrees :
        All (Agrees submissions) links
        → (link : NewsSourceLink) → Agrees submissions link
        → (p link ≡ true → member link.submission_id (moved_ids links) ≡ true)
        → Agrees submissions' (moved_to link)
    moved-Agrees all link agrees found = elim (Bool-cases (p link)) [
      | inl e ↦ rw e (taken (found e))
      | inr e ↦ rw e (stays e (Bool-cases (member link.submission_id (moved_ids links))))
    ]
      where
        taken :
            member link.submission_id (moved_ids links) ≡ true
            → Agrees submissions' (record {
              news_id = target_id;
              submission_id = link.submission_id;
              relation = relation;
            })
        taken m submission there = elim (Option-cases (Table.get link.submission_id submissions)) [
          | inl e ↦
              absurd (
                let bad = rw e at (rw m at (sym (rows link.submission_id) ∙ there)) in ground arith)
          | inr (old, e) ↦
              let same = rw e at (rw m at (sym (rows link.submission_id) ∙ there)) in
              ap (λ (s : Submission). s.news_id) (sym (some-injective _ _ same))
        ]

        stays :
            p link ≡ false
            → (member link.submission_id (moved_ids links) ≡ true)
              ⊎ (member link.submission_id (moved_ids links) ≡ false)
            → Agrees submissions' link
        stays e (inr m) submission there = agrees submission (
            sym (renamed_not target_id (Table.get link.submission_id submissions))
            ∙ rw m at (sym (rows link.submission_id) ∙ there))
        stays e (inl m) submission there =
            elim (Option-cases (Table.get link.submission_id submissions)) [
              | inl f ↦ absurd (
                  let bad = rw f at (rw m at (sym (rows link.submission_id) ∙ there)) in
                  ground arith)
              | inr (old, f) ↦
                  let (other, picked, same_id, other_agrees) =
                    moved-link links link.submission_id all m in
                  let same_news =
                    some-injective _ _ (sym (other_agrees old (rw same_id f)) ∙ agrees old f) in
                  absurd (let both = by_keys other link same_news same_id in ground arith)
            ]

    pub moved-Agree :
        All (Agrees submissions) links → All (Agrees submissions') (map moved_to links)
    moved-Agree all =
        All-of_map _ (Agrees submissions') moved_to links
          (λ link (agrees, found). moved-Agrees all link agrees found)
          (All-zip (Agrees submissions)
            (λ link. p link ≡ true → member link.submission_id (moved_ids links) ≡ true) links all
            (moved_ids-member links))
