-- ===== src/Tests/Labels.antt =====
-- Labels of one answer, of one item, and scores under one rule.
use rd_news.Prelude.{
  ◌≤◌, String, ◌≡◌, refl, true, false, none, some, List, [], ◌∷◌, ◌++◌, arith, All, keep, not,
  any_of, ◌&&◌, if◌then◌else◌, ◌==◌, str_eq, ◌+◌,
}
use rd_news.Prelude.Int.{pos, negsuc}
use rd_news.Prelude.Uuid.{uuid_text}
use rd_news.Prelude.Sort.{sorted}
use rd_news.Table
use rd_news.Table.{select_keys}
use rd_news.Model.Labels.{NewsLabel, NewsEffectiveLabel, ManualLabelDecision, Origin, Action}
use rd_news.Model.Store.{Store, add_decision}
use rd_news.Labels.Confidence.{finite, finite_clamped, one}
use rd_news.Labels.Normalization.{
  ProposedLabel, Axes, AxisDefinition, admissible, candidate, normalize_labels,
}
use rd_news.Labels.Normalization.Single.{IsNormal, normalize_labels-IsNormal}
use rd_news.Labels.Normalization.Kept.{stands_for, covers, covered, normalize_labels-keeps}
use rd_news.Labels.Scoring.{Rule, zero_scores, evaluate_scores, importance}
use rd_news.Labels.Scoring.Bounds.{InRange, evaluate_scores-InRange}
use rd_news.Labels.Decisions.{latest_decision, append, last_revision}
use rd_news.Labels.Decisions.Newest.{Appended, append-Appended}
use rd_news.Model.Result.{ok}
use rd_news.Labels.Materializer.{recompute}
use rd_news.Labels.Materializer.Effective.{
  IsJustified, recompute-IsJustified, IsSetBy, recompute-manual,
}
use rd_news.Tests.Data.{before, item, topic, proposal}

abbrev topics : AxisDefinition
topics = record { values = "sport" ∷ "music" ∷ []; multiple = false }

abbrev axes : Axes
axes name = if str_eq name "topic" then some topics else none

abbrev music : ProposedLabel
music = record proposal { value = "music"; confidence = finite (pos 7) }

abbrev answers : List ProposedLabel
answers = proposal ∷ music ∷ []

normalize_labels-IsNormal_example :
    IsNormal axes
      ("topic" ∷ [])
      (finite_clamped (finite (pos 2)))
      (normalize_labels axes ("topic" ∷ []) (finite (pos 2)) answers)
normalize_labels-IsNormal_example =
    normalize_labels-IsNormal axes ("topic" ∷ []) (finite (pos 2)) answers

proposal_admitted :
    any_of
      (λ item.
        admissible axes ("topic" ∷ []) (finite_clamped (finite (pos 2))) item
        && covers "topic" (stands_for axes "topic" "sport") 9 (candidate item))
      answers
    ≡ true
unfolding admissible finite_clamped one
proposal_admitted = refl

normalize_labels-keeps_example :
    covered "topic"
      (stands_for axes "topic" "sport")
      9
      (normalize_labels axes ("topic" ∷ []) (finite (pos 2)) answers)
    ≡ true
normalize_labels-keeps_example =
    normalize_labels-keeps axes ("topic" ∷ []) (finite (pos 2)) answers "topic" "sport" 9
      proposal_admitted

abbrev urgent : Rule
urgent = record {
  id = 1;
  enabled = true;
  definition = record {
    priority = pos 0;
    conditions = ("topic", "sport" ∷ []) ∷ [];
    assignments = record { urgency = some (pos 150); impact = none; editorial_priority = none };
    additions = record { urgency = some (negsuc 9); impact = none; editorial_priority = none };
    stop = false;
  };
}

abbrev chosen : List (String × List String)
chosen = ("topic", "sport" ∷ []) ∷ []

evaluate_scores-InRange_example :
    InRange (evaluate_scores chosen (urgent ∷ []) zero_scores)
    × (importance (evaluate_scores chosen (urgent ∷ []) zero_scores)
        ≡ (evaluate_scores chosen (urgent ∷ []) zero_scores).urgency
          + (evaluate_scores chosen (urgent ∷ []) zero_scores).impact
          + (evaluate_scores chosen (urgent ∷ []) zero_scores).editorial_priority)
    × (importance (evaluate_scores chosen (urgent ∷ []) zero_scores) ≤ 300)
evaluate_scores-InRange_example =
    evaluate_scores-InRange chosen (urgent ∷ []) zero_scores
      (record { urgency = omega arith; impact = omega arith; editorial_priority = omega arith })

-- A manual decision on the item's topic, with its label.
abbrev decision : ManualLabelDecision
decision = record {
  news_id = 1;
  version_id = some 4;
  facet_id = 5;
  revision = 1;
  origin = Origin.manual;
  action = Action.set;
  created_by_user_id = none;
}

abbrev manual_label : NewsLabel
manual_label = record {
  news_id = 1;
  version_id = some 4;
  facet_id = 5;
  value_id = 6;
  origin = Origin.manual;
  origin_key = uuid_text 7;
  confidence = 9;
  reason = none;
  evidence = [];
}

abbrev decided : Store
decided = record before {
  decisions = Table.put 7 decision Table.empty;
  labels = Table.put 8 manual_label Table.empty;
}

decision_last : latest_decision 1 (some 4) decided "topic" ≡ some (7, decision)
unfolding latest_decision sorted select_keys
decision_last = refl

recompute-IsJustified_example :
    (own : List NewsEffectiveLabel) × ((recompute 1 item decided).effective
      ≡ keep (λ e. not (e.news_id == 1)) decided.effective ++ own)
    × All (IsJustified 1 item decided) own
recompute-IsJustified_example = recompute-IsJustified 1 item decided

recompute-manual_example :
    All
      (λ e. (e.news_id == 1) ≡ true → e.facet_id ≡ 5 → IsSetBy 1 item decided 7 e)
      (recompute 1 item decided).effective
recompute-manual_example =
    recompute-manual 1 item decided 5 topic 7 decision refl decision_last refl

abbrev released : ManualLabelDecision
released = record decision { revision = 2; action = Action.release }

abbrev released_store : Store
released_store = add_decision released decided

decision_appended : append 1 item 5 Action.release none decided ≡ ok (10, released_store)
unfolding append last_revision select_keys
decision_appended = refl

append-Appended_example : Appended 1 item 5 Action.release decided 10 released_store
append-Appended_example =
    append-Appended 1 item 5 Action.release none decided 10 released_store decision_appended
