-- ===== src/Merging/Parted.antt =====
-- The links after a split: some go to the new item, some stay, and the submissions follow.
use mathlib.Core.Path.{subst}
use rd_news.Prelude.{
  ℕ, ◌+◌, ◌≡◌, ◌≢◌, refl, length, sym, ◌∙◌, ap, String, Bool, true, false, List, [], ◌∷◌, arith,
  ◌==◌, keep, map, Bool-cases, inl, inr,
}
use rd_news.Table
use rd_news.Model.News.{News}
use rd_news.Model.Sources.{Submission, NewsSourceLink, Relation}
use rd_news.Model.Result.{
  Result, ok, ok-injective, bind-ok, then-ok, guard-ok, guard, require, other_error,
}
use rd_news.Model.Store.{Store}
use rd_news.Merging.Splitting.{
  split, split_with, split_link, is_named, named_submissions, first_of, is_nil,
}
use rd_news.Merging.Links.{Agree, move_submissions-row, move_submissions-links}
use rd_news.Merging.Laws.{copy-Untouched, Moved, Moved-Agree}

split_with-Moved :
    (news_id : ℕ) (news : News) (submission_ids : List ℕ) (actor : String)
    (values : String → String) (db : Store)
    → Moved
        (is_named news_id submission_ids db)
        db.next_id
        Relation.split
        db
        (split_with news_id news
          (named_submissions news_id submission_ids db)
          (is_named news_id submission_ids db)
          actor
          values
          db).1
split_with-Moved news_id news submission_ids actor values db =
    let ks = named_submissions news_id submission_ids db in
    let untouched = copy-Untouched news_id news db.next_id _ "split" _ in
    record {
      links = untouched.links ∙ move_submissions-links db.next_id ks _;
      rows = λ k.
          ap (λ t. Table.get k t) untouched.submissions ∙ move_submissions-row db.next_id k ks _;
    }

abbrev on_item : ℕ → NewsSourceLink → Bool
on_item news_id link = link.news_id == news_id

-- The links of an item before are those that go and those that stay.
split_count :
    (named : NewsSourceLink → Bool) (news_id created_id : ℕ) (links : List NewsSourceLink)
    → ((link : NewsSourceLink) → named link ≡ true → on_item news_id link ≡ true)
    → (created_id == news_id) ≡ false
    → length (keep (on_item news_id) (map (split_link named created_id) links))
        + length (keep named links)
      ≡ length (keep (on_item news_id) links)
split_count named news_id created_id [] sub apart = refl
split_count named news_id created_id (link ∷ links) sub apart =
    let rest = split_count named news_id created_id links sub apart in
    elim (Bool-cases (named link)) [
      | inl e ↦ rw e (rw (sub link e) (rw apart (omega (arith, rest))))
      | inr e ↦ elim (Bool-cases (on_item news_id link)) [
        | inl f ↦ rw e (rw f (omega (arith, rest)))
        | inr f ↦ rw e (rw f rest)
      ]
    ]

-- What a split leaves: the named links stand on the new item, all others as they were, in the same
-- order; a link has moved and a link of the item is left; and where each submission named the item
-- of its links, it still does.
pub record Parted (news_id : ℕ) (submission_ids : List ℕ) (db db' : Store) : Type 0 where
  pub links : db'.links ≡ map (split_link (is_named news_id submission_ids db) db.next_id) db.links
  pub some_moved : named_submissions news_id submission_ids db ≢ []
  pub some_left : keep (on_item news_id) db'.links ≢ []
  pub agree : Agree db → Agree db'

length-map :
    (links : List NewsSourceLink) → length (map (λ link. link.submission_id) links) ≡ length links
length-map [] = refl
length-map (link ∷ links) = rw (length-map links) refl

module _ (news_id : ℕ) (news : News) (submission_ids : List ℕ) (actor : String) (db : Store)
    (apart : (db.next_id == news_id) ≡ false) where
  abbrev moved : List ℕ
  moved = named_submissions news_id submission_ids db

  split_with-Parted :
      (values : String → String)
      → is_nil moved ≡ false
      → (length moved == length (keep (on_item news_id) db.links)) ≡ false
      → Parted news_id submission_ids db
          (split_with news_id news moved (is_named news_id submission_ids db) actor values db).1
  split_with-Parted values some_moved some_left =
      let m = split_with-Moved news_id news submission_ids actor values db in
      let count =
        split_count (is_named news_id submission_ids db) news_id db.next_id db.links
          (λ link h. ground arith) apart in
      let count_moved = length-map (keep (is_named news_id submission_ids db) db.links) in
      record {
        links = m.links;
        some_moved = λ e. (let bad = rw e at some_moved in ground arith);
        some_left = λ e.
            let none_left = ap length (ap (keep (on_item news_id)) (sym m.links) ∙ e) in
            ground (arith, count, count_moved, none_left);
        agree =
            Moved-Agree (is_named news_id submission_ids db) db.next_id Relation.split db _
              (λ a b news submission. rw news (rw submission refl)) m;
      }

  -- A split that succeeds moves some links of the item to the new one and leaves some, loses and
  -- doubles none, and keeps each submission with the item of its links. The new item's id is not
  -- the item's own.
  pub split-Parted :
      (read_version : Submission → Result (String → String)) (reply : ℕ × Store)
      → split read_version news_id news submission_ids actor db ≡ ok reply
      → Parted news_id submission_ids db reply.1
  unfolding split
  split-Parted read_version reply e =
      let (guarded, e₁) = then-ok (guard _ _) _ reply e in
      let (first, there, e₂) =
        bind-ok (require (first_of moved db) (other_error "IndexError")) _ reply e₁ in
      let (values, read, e₃) = bind-ok (read_version first) _ reply e₂ in
      let both = guard-ok _ _ guarded in
      subst (λ (r : ℕ × Store). Parted news_id submission_ids db r.1) (ok-injective e₃)
        (split_with-Parted values (ground arith) (ground arith))
