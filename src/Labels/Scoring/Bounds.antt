-- ===== src/Labels/Scoring/Bounds.antt =====
-- The scores of a news item stay in the range that the table of news checks.
use rd_news.Prelude.{
  keep, ℕ, ◌≤◌, String, List, [], ◌∷◌, arith, true, false, Bool, none, some, Option, if◌then◌else◌,
  ◌≡◌, refl, ◌+◌,
}
use rd_news.Prelude.Int.{ℤ}
use rd_news.Prelude.Sort.{sorted}
use rd_news.Labels.Scoring.{
  rule_le, EditorialScores, Rule, score, apply_rule, apply_rules, rule_matches, evaluate_scores,
  importance, assigned, added,
}

-- `urgency between 0 and 100`, and so on
pub record InRange (s : EditorialScores) : Type 0 where
  pub urgency : s.urgency ≤ 100
  pub impact : s.impact ≤ 100
  pub editorial_priority : s.editorial_priority ≤ 100

score-le-100 : (value : ℤ) → score value ≤ 100
unfolding score
score-le-100 value = omega arith

added-le-100 : (o : Option ℤ) (s : ℕ) → s ≤ 100 → added o s ≤ 100
added-le-100 none s h = h
added-le-100 (some value) s h = score-le-100 _

assigned-le-100 : (o : Option ℤ) (s : ℕ) → s ≤ 100 → assigned o s ≤ 100
assigned-le-100 none s h = h
assigned-le-100 (some value) s h = score-le-100 _

apply_rule-InRange : (rule : Rule) (s : EditorialScores) → InRange s → InRange (apply_rule rule s)
unfolding apply_rule
apply_rule-InRange rule s h = record {
  urgency = added-le-100 _ _ (assigned-le-100 _ _ h.urgency);
  impact = added-le-100 _ _ (assigned-le-100 _ _ h.impact);
  editorial_priority = added-le-100 _ _ (assigned-le-100 _ _ h.editorial_priority);
}

apply_rules-InRange :
    (labels : List (String × List String)) (rules : List Rule) (s : EditorialScores)
    → InRange s
    → InRange (apply_rules labels rules s)
unfolding apply_rules
apply_rules-InRange labels [] s h = h
apply_rules-InRange labels (rule ∷ rules) s h =
    choose (rule_matches labels rule.definition.conditions) rule.definition.stop
      (apply_rule-InRange rule s h)
      (apply_rules-InRange labels rules (apply_rule rule s) (apply_rule-InRange rule s h))
      (apply_rules-InRange labels rules s h)
  where
    choose :
        (b c : Bool) {applied after skipped : EditorialScores}
        → InRange applied
        → InRange after
        → InRange skipped
        → InRange (if b then (if c then applied else after) else skipped)
    choose true true x y z = x
    choose true false x y z = y
    choose false c x y z = z

-- The scores of any labels under any editorial rules stay between 0 and 100 each, if the initial
-- ones do, and the importance is their sum and at most 300: what the constraints of the news table
-- ask for.
pub evaluate_scores-InRange :
    (labels : List (String × List String)) (rules : List Rule) (initial : EditorialScores)
    → InRange initial
    → InRange (evaluate_scores labels rules initial)
      × (importance (evaluate_scores labels rules initial)
          ≡ (evaluate_scores labels rules initial).urgency
            + (evaluate_scores labels rules initial).impact
            + (evaluate_scores labels rules initial).editorial_priority)
      × (importance (evaluate_scores labels rules initial) ≤ 300)
unfolding evaluate_scores importance
evaluate_scores-InRange labels rules initial h =
    let scores =
      apply_rules-InRange labels (sorted rule_le (keep (λ rule. rule.enabled) rules)) initial h in
    (scores, refl, omega (arith, scores))
