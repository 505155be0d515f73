-- ===== src/Labels/Attempts.antt =====
-- The attempt of each classifier whose labels count: `ClassifierAttempts.latest` of
-- labels/classifier_attempts.py.
use rd_news.Prelude.{
  ℕ, String, Bool, true, false, ◌&&◌, ◌||◌, Option, none, some, List, [], ◌∷◌, ltb, ◌==◌, leb,
  str_eq, same_option, is_some, if◌then◌else◌,
}
use rd_news.Prelude.Sort.{sorted}
use rd_news.Table
use rd_news.Table.{select}
use rd_news.Model.Status.{has_succeeded}
use rd_news.Model.Job.{ProcessingAttempt}
use rd_news.Model.Store.{Store}

-- `completed_at DESC NULLS LAST`, then `started_at DESC, id DESC`
abbrev later_completed : Option ℕ → Option ℕ → Bool
later_completed (some a) (some b) = ltb b a
later_completed (some a) none = true
later_completed none b = false

abbrev pub attempt_le : ℕ × ProcessingAttempt → ℕ × ProcessingAttempt → Bool
attempt_le (i, a) (j, b) =
    later_completed a.completed_at b.completed_at
    || same_option a.completed_at b.completed_at
      && (ltb b.started_at a.started_at || a.started_at == b.started_at && leb j i)

unfoldable pub succeeded_attempts : ℕ → Option ℕ → Store → List (ℕ × ProcessingAttempt)
succeeded_attempts news_id version_id db = sorted attempt_le (
    select
      (λ k a.
        same_option a.news_id (some news_id)
        && same_option a.version_id version_id
        && is_some a.classifier_id
        && has_succeeded a.status)
      db.attempts)

-- `slug_by_id.get(attempt.classifier_id)`
abbrev pub slug_of : Store → Option ℕ → Option String
slug_of db classifier_id = elim (Table.get_opt classifier_id db.classifiers) [
  | none ↦ none
  | some classifier ↦ some classifier.slug
]

abbrev has_slug : String → Option String → Bool
has_slug slug none = false
has_slug slug (some other) = str_eq other slug

abbrev first_of_slug : Store → String → List (ℕ × ProcessingAttempt) → Option ℕ
first_of_slug db slug [] = none
first_of_slug db slug ((k, a) ∷ rest) =
    if has_slug slug (slug_of db a.classifier_id) then some k else first_of_slug db slug rest

-- `result.get(slug)`: the first attempt of the classifier in that order
unfoldable pub latest_attempt : ℕ → Option ℕ → Store → String → Option ℕ
unfolding succeeded_attempts
latest_attempt news_id version_id db slug =
    first_of_slug db slug (succeeded_attempts news_id version_id db)
