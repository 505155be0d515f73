-- ===== src/Merging/Laws.antt =====
-- The links after a merge: none is lost, none is doubled, and the submissions follow.
use mathlib.Core.Path.{subst}
use rd_news.Prelude.{
  ℕ, suc, ◌≡◌, refl, sym, ◌∙◌, ap, String, Bool, true, false, not, List, [], ◌∷◌, arith, ◌==◌, keep,
  map, Bool-cases, inl, inr, if◌then◌else◌,
}
use rd_news.Prelude.Members.{member}
use rd_news.Table
use rd_news.Model.News.{News}
use rd_news.Model.Labels.{ManualLabelDecision, NewsLabel}
use rd_news.Model.Sources.{NewsSourceLink, Relation}
use rd_news.Model.Result.{ok, ok-injective, bind-ok, then-ok, guard-ok, guard, ◌>>◌, validation}
use rd_news.Model.Store.{Store}
use rd_news.NewsLifecycle.{get}
use rd_news.Merging.{moved_link, linked_submissions, merge_one, merge_all, merge}
use rd_news.Merging.Provenance.{copy, copy_decisions, copy_labels, revision_at}
use rd_news.Merging.Links.{
  Agree, renamed, move_submissions-row, move_submissions-links, moved-Agree,
}

pub record Untouched (db db' : Store) : Type 0 where
  pub links : db'.links ≡ db.links
  pub submissions : db'.submissions ≡ db.submissions

Untouched-trans : {a b c : Store} → Untouched a b → Untouched b c → Untouched a c
Untouched-trans p q = record {
  links = q.links ∙ p.links;
  submissions = q.submissions ∙ p.submissions;
}

copy_decisions-Untouched :
    (target_id : ℕ) (target : News) (revisions : List (ℕ × ℕ))
    (decisions : List (ℕ × ManualLabelDecision)) (db : Store)
    → Untouched db (copy_decisions target_id target revisions decisions db)
unfolding copy_decisions
copy_decisions-Untouched target_id target revisions [] db = record {
  links = refl;
  submissions = refl;
}
copy_decisions-Untouched target_id target revisions ((k, decision) ∷ rest) db =
    Untouched-trans (record { links = refl; submissions = refl })
      (copy_decisions-Untouched target_id target
        ((decision.facet_id, suc (revision_at revisions decision.facet_id target_id target db))
          ∷ revisions)
        rest _)

copy_labels-Untouched :
    (operation : String) (source_id target_id : ℕ) (target : News) (labels : List (ℕ × NewsLabel))
    (db : Store)
    → Untouched db (copy_labels operation source_id target_id target labels db)
unfolding copy_labels
copy_labels-Untouched operation source_id target_id target [] db = record {
  links = refl;
  submissions = refl;
}
copy_labels-Untouched operation source_id target_id target ((k, label) ∷ rest) db =
    Untouched-trans (record { links = refl; submissions = refl })
      (copy_labels-Untouched operation source_id target_id target rest _)

pub copy-Untouched :
    (source_id : ℕ) (source : News) (target_id : ℕ) (target : News) (operation : String)
    (db : Store)
    → Untouched db (copy source_id source target_id target operation db)
unfolding copy
copy-Untouched source_id source target_id target operation db =
    Untouched-trans (copy_decisions-Untouched target_id target [] _ db)
      (copy_labels-Untouched operation source_id target_id target _ _)

-- The links that `p` picks go to the item, and the submissions with them.
pub record Moved (p : NewsSourceLink → Bool) (target_id : ℕ) (relation : Relation) (db db' : Store)
    : Type 0 where
  pub links :
      db'.links
      ≡ map
          (λ link.
            if p link
            then record {
              news_id = target_id;
              submission_id = link.submission_id;
              relation = relation;
            }
            else link)
          db.links
  pub rows :
      (k : ℕ)
      → Table.get k db'.submissions
        ≡ renamed target_id
            (member k (map (λ link. link.submission_id) (keep p db.links)))
            (Table.get k db.submissions)

pub Moved-Agree :
    (p : NewsSourceLink → Bool) (target_id : ℕ) (relation : Relation) (db db' : Store)
    → ((a b : NewsSourceLink)
        → a.news_id ≡ b.news_id
        → a.submission_id ≡ b.submission_id
        → p a ≡ p b)
    → Moved p target_id relation db db'
    → Agree db
    → Agree db'
Moved-Agree p target_id relation db db' by_keys moved agree = rw moved.links (
    moved-Agree p target_id db.submissions by_keys relation db'.submissions db.links moved.rows
      agree)

merge_one-Moved :
    (target_id : ℕ) (target : News) (source_id : ℕ) (source : News) (db : Store)
    → Moved
        (λ link. link.news_id == source_id)
        target_id
        Relation.merged
        db
        (merge_one target_id target source_id source db)
unfolding merge_one
merge_one-Moved target_id target source_id source db =
    let ks = linked_submissions source_id db in
    let untouched = copy-Untouched source_id source target_id target "merge" _ in
    record {
      links = untouched.links ∙ move_submissions-links target_id ks _;
      rows = λ k.
          ap (λ t. Table.get k t) untouched.submissions ∙ move_submissions-row target_id k ks _;
    }

-- The link as a merge of these sources leaves it.
abbrev pub regrouped : List ℕ → ℕ → NewsSourceLink → NewsSourceLink
regrouped source_ids target_id link =
    if member link.news_id source_ids
    then record {
      news_id = target_id;
      submission_id = link.submission_id;
      relation = Relation.merged;
    }
    else link

map_both :
    (f g h : NewsSourceLink → NewsSourceLink)
    → ((link : NewsSourceLink) → f (g link) ≡ h link)
    → (links : List NewsSourceLink) → map f (map g links) ≡ map h links
map_both f g h e [] = refl
map_both f g h e (link ∷ links) = rw (e link) (rw (map_both f g h e links) refl)

map_same : (links : List NewsSourceLink) → map (λ link. link) links ≡ links
map_same [] = refl
map_same (link ∷ links) = rw (map_same links) refl

-- What a merge leaves: every link that stood on a source stands on the target as merged, all others
-- as they were, in the same order; no source is the target; and where each submission named the
-- item of its links, it still does.
pub record Merged (target_id : ℕ) (source_ids : List ℕ) (db db' : Store) : Type 0 where
  pub links : db'.links ≡ map (regrouped source_ids target_id) db.links
  pub apart : member target_id source_ids ≡ false
  pub agree : Agree db → Agree db'

one_and_rest :
    (source_id target_id : ℕ) (rest : List ℕ) (link : NewsSourceLink)
    → member target_id rest ≡ false
    → regrouped rest target_id (moved_link source_id target_id Relation.merged link)
      ≡ regrouped (source_id ∷ rest) target_id link
one_and_rest source_id target_id rest link apart = elim (Bool-cases (link.news_id == source_id)) [
  | inl e ↦
      let flip : (source_id == link.news_id) ≡ true = ground arith in rw e (rw apart (rw flip refl))
  | inr e ↦ let flip : (source_id == link.news_id) ≡ false = ground arith in rw e (rw flip refl)
]

merge_all-Merged :
    (target_id : ℕ) (target : News) (source_ids : List ℕ) (db db' : Store)
    → merge_all target_id target source_ids db ≡ ok db'
    → Merged target_id source_ids db db'
unfolding merge_all
merge_all-Merged target_id target [] db db' e =
    subst (Merged target_id [] db) (ok-injective e)
      (record { links = sym (map_same db.links); apart = refl; agree = λ a. a })
merge_all-Merged target_id target (source_id ∷ rest) db db' e =
    let (source, there, e₁) =
      bind-ok (get source_id db)
        (λ source.
          guard (not (source_id == target_id)) (validation "cannot be merged into itself")
          >> merge_all target_id target rest (merge_one target_id target source_id source db))
        db' e in
    let one = merge_one target_id target source_id source db in
    let (other, e₂) =
      then-ok (guard (not (source_id == target_id)) (validation "cannot be merged into itself"))
        (merge_all target_id target rest one) db' e₁ in
    let first = merge_one-Moved target_id target source_id source db in
    let later = merge_all-Merged target_id target rest one db' e₂ in
    let differ = guard-ok (not (source_id == target_id)) _ other in
    record {
      links =
          later.links
          ∙ ap (map (regrouped rest target_id)) first.links
          ∙ map_both (regrouped rest target_id) (moved_link source_id target_id Relation.merged)
              (regrouped (source_id ∷ rest) target_id)
              (λ link. one_and_rest source_id target_id rest link later.apart) db.links;
      apart = let apart_rest = later.apart in ground arith;
      agree = λ a. later.agree (
          Moved-Agree (λ link. link.news_id == source_id) target_id Relation.merged db one
            (λ a b news submission. rw news refl) first a);
    }

-- A merge that succeeds moves all links of its sources to the target, loses and doubles none, and
-- keeps each submission with the item of its links.
pub merge-Merged :
    (target_id : ℕ) (target : News) (source_ids : List ℕ) (actor : String) (db db' : Store)
    → merge target_id target source_ids actor db ≡ ok db'
    → Merged target_id source_ids db db'
unfolding merge
merge-Merged target_id target source_ids actor db db' e =
    let (all, merged, e₁) = bind-ok (merge_all target_id target source_ids db) _ db' e in
    let m = merge_all-Merged target_id target source_ids db all merged in
    subst (Merged target_id source_ids db) (ok-injective e₁)
      (record { links = m.links; apart = m.apart; agree = m.agree })
