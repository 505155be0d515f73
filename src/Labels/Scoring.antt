-- ===== src/Labels/Scoring.antt =====
-- `evaluate_scores` of use_cases/scoring.py. The editorial rules are those that pass the validator
-- of dto/requests/editorial_rule_input.py, so `when`, `set` and `add` are mappings; `set` and `add`
-- name no other dimension, so they are three optional numbers.
pub mod Bounds
use rd_news.Prelude.{
  ℕ, ◌+◌, String, Bool, true, false, ◌&&◌, ◌||◌, Option, none, some, List, [], ◌∷◌, ◌==◌, leb,
  str_eq, any_of, keep, min, if◌then◌else◌,
}
use rd_news.Prelude.Int.{ℤ, pos, ◌+ℤ◌, leb_ℤ, clamp}
use rd_news.Prelude.Sort.{sorted}
use rd_news.Model.Taxonomy.{Definition}

pub record EditorialScores : Type 0 where
  pub urgency : ℕ
  pub impact : ℕ
  pub editorial_priority : ℕ

abbrev pub zero_scores : EditorialScores
zero_scores = record { urgency = 0; impact = 0; editorial_priority = 0 }

-- `EditorialScores.importance`
unfoldable pub importance : EditorialScores → ℕ
importance s = s.urgency + s.impact + s.editorial_priority

-- An element of `rules`.
pub record Rule : Type 0 where
  pub id : ℕ
  pub enabled : Bool
  pub definition : Definition

-- `_score`
unfoldable pub score : ℤ → ℕ
score value = clamp 100 value

-- `labels.get(axis, ())`
unfoldable pub labels_of : String → List (String × List String) → List String
labels_of axis [] = []
labels_of axis ((other, values) ∷ rest) = if str_eq other axis then values else labels_of axis rest

abbrev pub intersects : List String → List String → Bool
intersects actual accepted = any_of (λ value. any_of (str_eq value) accepted) actual

-- `_matches`
unfoldable pub rule_matches : List (String × List String) → List (String × List String) → Bool
unfolding labels_of
rule_matches labels [] = true
rule_matches labels ((axis, accepted) ∷ rest) =
    intersects (labels_of axis labels) accepted && rule_matches labels rest

abbrev assigned : Option ℤ → ℕ → ℕ
assigned none s = s
assigned (some value) s = score value

abbrev added : Option ℤ → ℕ → ℕ
added none s = s
added (some value) s = score (pos s +ℤ value)

-- The body of the loop for a rule that matches.
unfoldable pub apply_rule : Rule → EditorialScores → EditorialScores
unfolding score
apply_rule rule s = record {
  urgency =
      added rule.definition.additions.urgency
        (assigned rule.definition.assignments.urgency s.urgency);
  impact =
      added rule.definition.additions.impact (assigned rule.definition.assignments.impact s.impact);
  editorial_priority =
      added rule.definition.additions.editorial_priority
        (assigned rule.definition.assignments.editorial_priority s.editorial_priority);
}

unfoldable pub apply_rules :
    List (String × List String) → List Rule → EditorialScores → EditorialScores
unfolding rule_matches apply_rule
apply_rules labels [] s = s
apply_rules labels (rule ∷ rules) s =
    let applied = apply_rule rule s in
    let after = apply_rules labels rules applied in
    let skipped = apply_rules labels rules s in
    if rule_matches labels rule.definition.conditions
    then (if rule.definition.stop then applied else after)
    else skipped

-- `(priority, id)`
abbrev pub rule_le : Rule → Rule → Bool
rule_le a b =
    if leb_ℤ a.definition.priority b.definition.priority
    then (if leb_ℤ b.definition.priority a.definition.priority then leb a.id b.id else true)
    else false

unfoldable pub evaluate_scores :
    List (String × List String) → List Rule → EditorialScores → EditorialScores
unfolding apply_rules
evaluate_scores labels rules initial =
    apply_rules labels (sorted rule_le (keep (λ rule. rule.enabled) rules)) initial
