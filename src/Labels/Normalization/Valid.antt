-- ===== src/Labels/Normalization/Valid.antt =====
-- Every label of a normalized answer is one that the taxonomy and the classifier allow.

use rd_news.Prelude.{
  ℕ, ◌≤◌, String, ◌≡◌, Bool, true, false, List, [], ◌∷◌, arith, All, All-append, All-keep, take,
  if◌then◌else◌, Bool-cases, inl, inr,
}
use rd_news.Prelude.Sort.{sorted, All-sorted}
use rd_news.Labels.Confidence.{Number, one, finite_clamped, finite_clamped-le-one}
use rd_news.Labels.Normalization.{
  ProposedLabel, NormalizedLabel, Axes, candidate, is_known, admissible, strengthen, rank_le,
  rank_lt, same_key, strongest_from, on_axis, is_multiple, axis_labels, by_axes, normalize_labels,
}

-- The label's axis and value are allowed, and its confidence is in range.
pub record IsAllowed (axes : Axes) (allowed : List String) (minimum : ℕ) (label : NormalizedLabel)
    : Type 0 where
  pub known : is_known axes allowed label.axis label.value ≡ true
  pub strong : minimum ≤ label.confidence
  pub bounded : label.confidence ≤ one

module _ {A : Type 0} (P : A → Type 0) where
  pub All-take_one : (xs : List A) → All P xs → All P (take 1 xs)
  All-take_one [] h = tt
  All-take_one (x ∷ xs) h = (h.0, tt)

module _ (axes : Axes) (allowed : List String) (minimum : ℕ) where
  abbrev Allowed : NormalizedLabel → Type 0
  Allowed = IsAllowed axes allowed minimum

  candidate-IsAllowed :
      (item : ProposedLabel)
      → admissible axes allowed minimum item ≡ true
      → Allowed (candidate item)
  unfolding admissible
  candidate-IsAllowed item h = record {
    known = ground arith;
    strong = ground arith;
    bounded = finite_clamped-le-one item.confidence;
  }

  strengthen-Allowed :
      (label : NormalizedLabel) (found : List NormalizedLabel)
      → Allowed label
      → All Allowed found
      → All Allowed (strengthen label found)
  unfolding strengthen
  strengthen-Allowed label [] h hs = (h, tt)
  strengthen-Allowed label (previous ∷ rest) h hs =
      choose (same_key label previous) (rank_lt label previous) hs.0
        (strengthen-Allowed label rest h hs.1)
    where
      choose :
          (b c : Bool)
          → Allowed previous
          → All Allowed (strengthen label rest)
          → All Allowed (
              if b
              then (if c then label else previous) ∷ rest
              else previous ∷ strengthen label rest)
      choose true true p q = (h, hs.1)
      choose true false p q = (p, hs.1)
      choose false c p q = (p, q)

  strongest_from-Allowed :
      (found : List NormalizedLabel) (items : List ProposedLabel)
      → All Allowed found
      → All Allowed (strongest_from axes allowed minimum found items)
  unfolding strongest_from
  strongest_from-Allowed found [] h = h
  strongest_from-Allowed found (item ∷ items) h =
      elim (Bool-cases (admissible axes allowed minimum item)) [
        | inl good ↦ rw good (
            strongest_from-Allowed (strengthen (candidate item) found) items
              (strengthen-Allowed (candidate item) found (candidate-IsAllowed item good) h))
        | inr bad ↦ rw bad (strongest_from-Allowed found items h)
      ]

  by_axes-All :
      (labels : List NormalizedLabel) (names : List String)
      → All Allowed labels
      → All Allowed (by_axes axes labels names)
  unfolding by_axes axis_labels
  by_axes-All labels [] h = tt
  by_axes-All labels (axis ∷ rest) h =
      All-append Allowed (axis_labels axes labels axis) (by_axes axes labels rest)
        (choose (is_multiple (axes axis))) (by_axes-All labels rest h)
    where
      values : All Allowed (sorted rank_le (on_axis axis labels))
      values = All-sorted rank_le Allowed _ (All-keep Allowed _ labels h)

      choose :
          (b : Bool)
          → All Allowed (let v = sorted rank_le (on_axis axis labels) in if b then v else take 1 v)
      choose true = values
      choose false = All-take_one Allowed _ values

-- Whatever the classifier answers, each label of the normalized answer is on an axis of the
-- taxonomy that the classifier may use, has a value of that axis, and has a confidence from the
-- minimum up to 1.
pub normalize_labels-IsAllowed :
    (axes : Axes) (allowed : List String) (min_confidence : Number) (items : List ProposedLabel)
    → All
        (IsAllowed axes allowed (finite_clamped min_confidence))
        (normalize_labels axes allowed min_confidence items)
unfolding normalize_labels
normalize_labels-IsAllowed axes allowed min_confidence items =
    by_axes-All axes allowed (finite_clamped min_confidence) _ _
      (strongest_from-Allowed axes allowed (finite_clamped min_confidence) [] items tt)
