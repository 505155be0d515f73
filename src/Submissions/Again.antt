-- ===== src/Submissions/Again.antt =====
-- A submission that was accepted is recognised when it comes again.

use rd_news.Prelude.{
  ℕ, ◌<◌, ◌≡◌, ◌≢◌, refl, sym, ◌∙◌, ap, String, Bool, true, not, ◌||◌, Option, none, some, List, [],
  ◌∷◌, arith, ==_iff, eq_iff, eq_refl, All, Bool-cases, inl, inr,
}
use rd_news.Prelude.Members.{member}
use rd_news.Table
use rd_news.Table.{select}
use rd_news.Table.Laws.{IsRow, select-IsRow, select-found}
use rd_news.Model.Sources.{Source}
use rd_news.Model.Result.{Error, ok, ok-injective, then-ok, guard-ok, guard, ◌>>◌}
use rd_news.Model.Store.{Store}
use rd_news.Submissions.Lookup.{
  Identity, truthy, same_text, same_id, source_by_slug, source_for, bound_source, registered,
  looked_up, id_of, head_row,
}

-- The keys of the tables that a submission is looked up in: ids are below the next one, slugs are
-- unique, and a source that is there is listed.
pub record Sound (db : Store) : Type 0 where
  pub fresh : Table.get db.next_id db.submissions ≡ none
  pub below : All (λ j. j < db.next_id) db.submissions.keys
  pub slugs :
      (i j : ℕ) (a b : Source)
      → Table.get i db.sources ≡ some a
      → Table.get j db.sources ≡ some b
      → a.slug ≡ b.slug
      → i ≡ j
  pub listed :
      (i : ℕ) (a : Source) → Table.get i db.sources ≡ some a → member i db.sources.keys ≡ true

same_text-eq :
    (a b : String) (t : Option String)
    → same_text (some a) t ≡ true
    → same_text (some b) t ≡ true
    → a ≡ b
same_text-eq a b none p q = absurd (ground arith)
same_text-eq a b (some t) p q = (eq_iff a t).0 p ∙ sym ((eq_iff b t).0 q)

pub same_text_refl : (t : Option String) → truthy t ≡ true → same_text t t ≡ true
same_text_refl none h = absurd (ground arith)
same_text_refl (some s) h = eq_refl s

module _ (slug : Option String) (db : Store) (sound : Sound db) where
  abbrev bears : ℕ → Source → Bool
  bears k source = same_text (some source.slug) slug

  slug-found :
      (id : ℕ) (source : Source)
      → Table.get id db.sources ≡ some source
      → same_text (some source.slug) slug ≡ true
      → id_of (source_by_slug slug db) ≡ some id
  unfolding source_by_slug
  slug-found id source there same =
      go (select bears db.sources)
        (select-found bears db.sources.row id source db.sources.keys (sound.listed id source there)
          there same)
        (select-IsRow bears db.sources)
    where
      go :
          (rows : List (ℕ × Source))
          → rows ≢ []
          → All (IsRow bears db.sources.row) rows
          → id_of (head_row rows) ≡ some id
      go [] some_row fit = absurd (some_row refl)
      go ((k, other) ∷ rest) some_row fit =
          let equal = same_text-eq other.slug source.slug slug fit.0.fits same in
          ap some (sound.slugs k id other source fit.0.there there equal)

  guarded :
      (a b : Bool) (e f : Error) (row : ℕ × Source) (source : Option (ℕ × Source))
      → (guard a e >> (guard b f >> ok (some row))) ≡ ok source
      → (b ≡ true) × (source ≡ some row)
  guarded a b e f row source h =
      let (p, rest) = then-ok (guard a e) (guard b f >> ok (some row)) source h in
      let (q, last) = then-ok (guard b f) (ok (some row)) source rest in
      (guard-ok b f q, sym (ok-injective last))

  -- The source that is written is the one that is looked up.
  pub source_for-looked_up :
      (identity : Identity) (bound : Option ℕ) (source : Option (ℕ × Source))
      → identity.source ≡ slug
      → source_for slug bound db ≡ ok source
      → (looked_up identity bound db ≡ id_of source)
        × (truthy slug ≡ true → same_id (id_of source) (id_of source) ≡ true)
  unfolding source_for
  source_for-looked_up identity (some id) source named e = go (Table.get id db.sources) refl e
    where
      go :
          (row : Option Source)
          → Table.get id db.sources ≡ row
          → bound_source slug id row ≡ ok source
          → (looked_up identity (some id) db ≡ id_of source)
            × (truthy slug ≡ true → same_id (id_of source) (id_of source) ≡ true)
      go none there e = absurd (ground arith)
      go (some row) there e =
          let (right, same) =
            guarded row.enabled (not (truthy slug) || same_text (some row.slug) slug) _ _ (id, row)
              source e in
          rw named (
            rw same (elim (Bool-cases (truthy slug)) [
              | inl t ↦ (rw t (slug-found id row there (ground arith)), λ h. (==_iff id id).1 refl)
              | inr t ↦ (rw t refl, λ h. (==_iff id id).1 refl)
            ]))
  source_for-looked_up identity none source named e = elim (Bool-cases (truthy slug)) [
    | inr t ↦ rw (← ok-injective (rw t at e)) (rw named (rw t (refl, λ h. absurd (ground arith))))
    | inl t ↦ rw named (rw t (go (source_by_slug slug db) (rw t at e)))
  ]
    where
      go :
          (row : Option (ℕ × Source))
          → registered row ≡ ok source
          → (id_of row ≡ id_of source)
            × (true ≡ true → same_id (id_of source) (id_of source) ≡ true)
      go none e = absurd (ground arith)
      go (some (id, row)) e =
          let (enabled, last) = then-ok (guard row.enabled _) (ok (some (id, row))) source e in
          rw (← ok-injective last) (refl, λ h. (==_iff id id).1 refl)
