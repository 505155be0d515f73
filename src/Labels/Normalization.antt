-- ===== src/Labels/Normalization.antt =====
-- `normalize_labels` of use_cases/processing/normalization.py.

pub mod Valid
pub mod Single
pub mod Kept
use rd_news.Prelude.{
  ℕ, String, Bool, true, false, not, ◌&&◌, ◌||◌, Option, none, some, List, [], ◌∷◌, ◌++◌, ltb, ◌==◌,
  str_eq, any_of, keep, take, if◌then◌else◌,
}
use rd_news.Prelude.Text.{text_le, text_take, is_empty}
use rd_news.Prelude.Sort.{sorted}
use rd_news.Labels.Confidence.{Number, finite_clamped}

-- An item of the answer. An evidence entry is the text of its JSON; the empty text stands for an
-- empty mapping or for no mapping, which the code drops.
pub record ProposedLabel : Type 0 where
  pub axis : String
  pub value : String
  pub confidence : Number
  pub reason : Option String
  pub evidence : List String

-- `AxisDefinition`
pub record AxisDefinition : Type 0 where
  pub values : List String
  pub multiple : Bool

-- `Mapping[str, AxisDefinition]`
abbrev pub Axes : Type 0
Axes = String → Option AxisDefinition

pub record NormalizedLabel : Type 0 where
  pub axis : String
  pub value : String
  pub confidence : ℕ
  pub reason : Option String
  pub evidence : List String

abbrev pub contains : String → List String → Bool
contains s = any_of (str_eq s)

abbrev or_empty : Option String → String
or_empty none = ""
or_empty (some s) = s

-- `_rank(a) <= _rank(b)`, on `(-confidence, value, reason or "")`
unfoldable pub rank_le : NormalizedLabel → NormalizedLabel → Bool
rank_le a b =
    ltb b.confidence a.confidence
    || a.confidence == b.confidence
      && (not (text_le b.value a.value)
          || str_eq a.value b.value && text_le (or_empty a.reason) (or_empty b.reason))

-- `_rank(a) < _rank(b)`
abbrev pub rank_lt : NormalizedLabel → NormalizedLabel → Bool
rank_lt a b = not (rank_le b a)

abbrev pub same_key : NormalizedLabel → NormalizedLabel → Bool
same_key a b = str_eq a.axis b.axis && str_eq a.value b.value

-- `str(reason)[:1000] if reason else None`
abbrev cut_reason : Option String → Option String
cut_reason none = none
cut_reason (some reason) = if is_empty reason then none else some (text_take 1000 reason)

abbrev pub candidate : ProposedLabel → NormalizedLabel
candidate item = record {
  axis = item.axis;
  value = item.value;
  confidence = finite_clamped item.confidence;
  reason = cut_reason item.reason;
  evidence = take 50 (keep (λ entry. not (is_empty entry)) item.evidence);
}

-- `definition is not None and axis in allowed and value in definition.values`
abbrev pub is_known : Axes → List String → String → String → Bool
is_known axes allowed axis value = elim (axes axis) [
  | none ↦ false
  | some definition ↦ contains axis allowed && contains value definition.values
]

unfoldable pub admissible : Axes → List String → ℕ → ProposedLabel → Bool
admissible axes allowed minimum item =
    is_known axes allowed item.axis item.value && not (ltb (finite_clamped item.confidence) minimum)

-- `strongest[key] = candidate`, if the key is new or the candidate ranks before what is there; the
-- dictionary keeps the place of a key.
unfoldable pub strengthen : NormalizedLabel → List NormalizedLabel → List NormalizedLabel
strengthen label [] = label ∷ []
strengthen label (previous ∷ rest) =
    let later = strengthen label rest in
    if same_key label previous
    then (if rank_lt label previous then label else previous) ∷ rest
    else previous ∷ later

-- The first loop, which goes through the items in order.
unfoldable pub strongest_from :
    Axes → List String → ℕ → List NormalizedLabel → List ProposedLabel → List NormalizedLabel
strongest_from axes allowed minimum found [] = found
strongest_from axes allowed minimum found (item ∷ items) =
    strongest_from axes allowed minimum
      (if admissible axes allowed minimum item then strengthen (candidate item) found else found)
      items

-- The keys of `grouped`, in the order of insertion.
unfoldable pub axes_from : List String → List NormalizedLabel → List String
axes_from seen [] = []
axes_from seen (label ∷ labels) =
    let rest = axes_from (label.axis ∷ seen) labels in
    let others = axes_from seen labels in
    if contains label.axis seen then others else label.axis ∷ rest

abbrev pub on_axis : String → List NormalizedLabel → List NormalizedLabel
on_axis axis = keep (λ label. str_eq label.axis axis)

abbrev pub is_multiple : Option AxisDefinition → Bool
is_multiple none = false
is_multiple (some definition) = definition.multiple

-- The labels of one axis: all of them, or the first by rank.
unfoldable pub axis_labels : Axes → List NormalizedLabel → String → List NormalizedLabel
axis_labels axes labels axis =
    let values = sorted rank_le (on_axis axis labels) in
    if is_multiple (axes axis) then values else take 1 values

-- The second loop, over the axes in order.
unfoldable pub by_axes : Axes → List NormalizedLabel → List String → List NormalizedLabel
unfolding axis_labels
by_axes axes labels [] = []
by_axes axes labels (axis ∷ rest) = axis_labels axes labels axis ++ by_axes axes labels rest

unfoldable pub normalize_labels :
    Axes → List String → Number → List ProposedLabel → List NormalizedLabel
unfolding strongest_from by_axes axes_from
normalize_labels axes allowed min_confidence items =
    let strongest = strongest_from axes allowed (finite_clamped min_confidence) [] items in
    by_axes axes strongest (sorted text_le (axes_from [] strongest))
