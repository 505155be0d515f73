-- ===== src/Submissions/Lookup.antt =====
-- `SqlAlchemySubmissionIdentityStorage` of submissions/identity_lookup.py, and the unique keys of
-- models/submission.py.
use rd_news.Prelude.{
  ℕ, String, Bool, true, false, not, ◌&&◌, ◌||◌, Option, none, some, List, [], ◌∷◌, str_eq, ◌==◌,
  if◌then◌else◌,
}
use rd_news.Prelude.Text.{is_empty}
use rd_news.Table
use rd_news.Table.{select}
use rd_news.Model.Sources.{Source, Submission}
use rd_news.Model.Result.{Result, ok, err, guard, conflict, other_error, ◌>>◌}
use rd_news.Model.Store.{Store}

pub record Identity : Type 0 where
  pub source : Option String
  pub external_id : Option String
  pub idempotency_key : Option String

-- `bool(text)`
abbrev pub truthy : Option String → Bool
truthy none = false
truthy (some s) = not (is_empty s)

-- SQL's `a = b`, which holds of no missing value
abbrev pub same_text : Option String → Option String → Bool
same_text (some a) (some b) = str_eq a b
same_text _ _ = false

abbrev pub same_id : Option ℕ → Option ℕ → Bool
same_id (some a) (some b) = a == b
same_id _ _ = false

abbrev pub head_id {ℓ} : {A : Type ℓ} → List (ℕ × A) → Option ℕ
head_id [] = none
head_id ((k, row) ∷ rest) = some k

abbrev pub head_row {ℓ} : {A : Type ℓ} → List (ℕ × A) → Option (ℕ × A)
head_row [] = none
head_row (x ∷ xs) = some x

-- `select(Source).where(Source.slug == slug)`; slugs are unique
unfoldable pub source_by_slug : Option String → Store → Option (ℕ × Source)
source_by_slug slug db =
    head_row (select (λ k source. same_text (some source.slug) slug) db.sources)

abbrev pub id_of {ℓ} : {A : Type ℓ} → Option (ℕ × A) → Option ℕ
id_of none = none
id_of (some (k, row)) = some k

abbrev pub looked_up : Identity → Option ℕ → Store → Option ℕ
looked_up identity bound db =
    if truthy identity.source then id_of (source_by_slug identity.source db) else bound

-- The two conditions of the query.
abbrev pub by_key : Identity → Submission → Bool
by_key identity row =
    truthy identity.idempotency_key && same_text row.idempotency_key identity.idempotency_key

abbrev pub by_source : Option ℕ → Identity → Submission → Bool
by_source source_id identity row =
    truthy identity.external_id
    && same_id row.source_id source_id
    && same_text row.external_id identity.external_id

abbrev pub matching : Option ℕ → Identity → ℕ → Submission → Bool
matching source_id identity k row = by_key identity row || by_source source_id identity row

-- No row, the one row, or a conflict of several.
abbrev pub only : List (ℕ × Submission) → Result (Option (ℕ × Submission))
only [] = ok none
only (x ∷ []) = ok (some x)
only (x ∷ y ∷ rest) = err (conflict "identities refer to different submissions")

-- `find`
unfoldable pub find : Identity → Option ℕ → Store → Result (Option (ℕ × Submission))
find identity bound db =
    only (select (matching (looked_up identity bound db) identity) db.submissions)

abbrev enabled : Option Source → Bool
enabled none = false
enabled (some source) = source.enabled

abbrev pub bound_source : Option String → ℕ → Option Source → Result (Option (ℕ × Source))
bound_source slug id none = err (conflict "source unavailable")
bound_source slug id (some source) =
    guard source.enabled (conflict "source unavailable")
    >> (guard (not (truthy slug) || same_text (some source.slug) slug) (conflict "another source")
        >> ok (some (id, source)))

abbrev pub registered : Option (ℕ × Source) → Result (Option (ℕ × Source))
registered none = err (conflict "source is not registered or disabled")
registered (some (id, source)) =
    guard source.enabled (conflict "source is not registered or disabled") >> ok (some (id, source))

-- `source`
unfoldable pub source_for : Option String → Option ℕ → Store → Result (Option (ℕ × Source))
source_for slug (some id) db = bound_source slug id (Table.get id db.sources)
source_for slug none db = if truthy slug then registered (source_by_slug slug db) else ok none

-- `source.slug if source else principal_id`
abbrev pub slug_of : String → Option (ℕ × Source) → String
slug_of principal_id none = principal_id
slug_of principal_id (some (id, source)) = source.slug

-- `uq_submission_idempotency` and `uq_submission_source_external`: the row clashes with another.
abbrev pub clashes : Submission → ℕ → Submission → Bool
clashes submission k row =
    same_text row.idempotency_key submission.idempotency_key
    || same_id row.source_id submission.source_id
      && same_text row.external_id submission.external_id

abbrev pub no_rows {ℓ} : {A : Type ℓ} → List A → Bool
no_rows [] = true
no_rows (x ∷ xs) = false

unfoldable pub add_unique : Submission → Store → Result (Unit {0})
add_unique submission db =
    guard (no_rows (select (clashes submission) db.submissions)) (other_error "IntegrityError")
