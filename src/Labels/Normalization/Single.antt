-- ===== src/Labels/Normalization/Single.antt =====
-- An axis with one value gets at most one label.
use rd_news.Prelude.{
  ℕ, suc, ◌+◌, ◌≤◌, String, ◌≡◌, refl, sym, ap, ◌∙◌, Bool, true, false, List, [], ◌∷◌, ◌++◌, arith,
  All, All-keep_both, All-Unit, All-map, take, keep, length, if◌then◌else◌, str_eq, eq_iff, eq_refl,
}
use rd_news.Prelude.Text.{text_le}
use rd_news.Prelude.Sort.{sorted, insert_sorted, All-sorted}
use rd_news.Labels.Confidence.{Number, finite_clamped}
use rd_news.Labels.Normalization.{
  ProposedLabel, NormalizedLabel, Axes, contains, rank_le, strongest_from, on_axis, is_multiple,
  axis_labels, by_axes, normalize_labels, axes_from,
}
use rd_news.Labels.Normalization.Valid.{All-take_one, IsAllowed, normalize_labels-IsAllowed}

-- How often an axis stands in a list of axes.
abbrev occurrences : String → List String → ℕ
occurrences axis [] = 0
occurrences axis (name ∷ names) =
    let rest = occurrences axis names in if str_eq name axis then suc rest else rest

insert_sorted-occurrences :
    (axis x : String) (names : List String)
    → occurrences axis (insert_sorted text_le x names) ≡ occurrences axis (x ∷ names)
unfolding insert_sorted
insert_sorted-occurrences axis x [] = refl
insert_sorted-occurrences axis x (y ∷ names) =
    go (text_le x y) (insert_sorted-occurrences axis x names)
  where
    go :
        (b : Bool)
        → occurrences axis (insert_sorted text_le x names) ≡ occurrences axis (x ∷ names)
        → occurrences axis (if b then x ∷ y ∷ names else y ∷ insert_sorted text_le x names)
          ≡ occurrences axis (x ∷ y ∷ names)
    go true h = refl
    go false h = ground arith

sorted-occurrences :
    (axis : String) (names : List String)
    → occurrences axis (sorted text_le names) ≡ occurrences axis names
unfolding sorted
sorted-occurrences axis [] = refl
sorted-occurrences axis (x ∷ names) =
    let h = sorted-occurrences axis names in
    insert_sorted-occurrences axis x (sorted text_le names) ∙ ground arith

true_ne_false : true ≡ false → ⊥
true_ne_false e = cc

contains_head :
    (axis name : String) (seen : List String) → name ≡ axis → contains axis (name ∷ seen) ≡ true
contains_head axis name seen e = rw e (rw (eq_refl axis) refl)

contains_tail :
    (axis name : String) (seen : List String)
    → contains axis seen ≡ true
    → contains axis (name ∷ seen) ≡ true
contains_tail axis name seen h = ground arith

-- An axis stands once in the axes of the labels, and not at all if it was seen before.
axes_from-occurrences :
    (axis : String) (seen : List String) (labels : List NormalizedLabel)
    → (occurrences axis (axes_from seen labels) ≤ 1)
      × (contains axis seen ≡ true → occurrences axis (axes_from seen labels) ≡ 0)
unfolding axes_from
axes_from-occurrences axis seen [] = (omega arith, λ h. refl)
axes_from-occurrences axis seen (label ∷ labels) =
    go (contains label.axis seen) refl (str_eq label.axis axis) refl
      (axes_from-occurrences axis seen labels)
      (axes_from-occurrences axis (label.axis ∷ seen) labels)
  where
    go :
        (b : Bool)
        → contains label.axis seen ≡ b
        → (c : Bool) → str_eq label.axis axis ≡ c
        → (occurrences axis (axes_from seen labels) ≤ 1)
          × (contains axis seen ≡ true → occurrences axis (axes_from seen labels) ≡ 0)
        → (occurrences axis (axes_from (label.axis ∷ seen) labels) ≤ 1)
          × (contains axis (label.axis ∷ seen) ≡ true
              → occurrences axis (axes_from (label.axis ∷ seen) labels) ≡ 0)
        → (occurrences axis (
              if b
              then axes_from seen labels
              else label.axis ∷ axes_from (label.axis ∷ seen) labels)
            ≤ 1)
          × (contains axis seen ≡ true
              → occurrences axis (
                  if b
                  then axes_from seen labels
                  else label.axis ∷ axes_from (label.axis ∷ seen) labels)
                ≡ 0)
    go true e c f old new = old
    go false e true f old new =
        let same : label.axis ≡ axis = (eq_iff _ _).0 f in
        let once : occurrences axis (axes_from (label.axis ∷ seen) labels) ≡ 0 =
          new.1 (contains_head axis label.axis seen same) in
        let unseen : contains axis seen ≡ false = ap (λ a. contains a seen) (sym same) ∙ e in
        (rw f (omega (arith, once)), λ h. absurd (true_ne_false (sym h ∙ unseen)))
    go false e false f old new =
        (rw f new.0, λ h. rw f (new.1 (contains_tail axis label.axis seen h)))

length-on_axis-append :
    (axis : String) (xs ys : List NormalizedLabel)
    → length (on_axis axis (xs ++ ys)) ≡ length (on_axis axis xs) + length (on_axis axis ys)
length-on_axis-append axis [] ys = omega arith
length-on_axis-append axis (x ∷ xs) ys = let h = length-on_axis-append axis xs ys in ground arith

length-on_axis-other :
    (axis name : String) (xs : List NormalizedLabel)
    → str_eq name axis ≡ false
    → All (λ label. str_eq label.axis name ≡ true) xs
    → length (on_axis axis xs) ≡ 0
length-on_axis-other axis name [] h hs = refl
length-on_axis-other axis name (x ∷ xs) h hs =
    let same : x.axis ≡ name = (eq_iff _ _).0 hs.0 in
    let off : str_eq x.axis axis ≡ false = ap (λ a. str_eq a axis) same ∙ h in
    rw off (length-on_axis-other axis name xs h hs.1)

length-keep :
    (p : NormalizedLabel → Bool) (xs : List NormalizedLabel) → length (keep p xs) ≤ length xs
length-keep p [] = omega arith
length-keep p (x ∷ xs) = let h = length-keep p xs in ground arith

length-take_one : (xs : List NormalizedLabel) → length (take 1 xs) ≤ 1
length-take_one [] = omega arith
length-take_one (x ∷ xs) = omega arith

axis_labels-length :
    (axes : Axes) (labels : List NormalizedLabel) (axis name : String)
    → is_multiple (axes axis) ≡ false
    → length (on_axis axis (axis_labels axes labels name)) ≤ occurrences axis (name ∷ [])
unfolding axis_labels
axis_labels-length axes labels axis name single = go (str_eq name axis) refl
  where
    values : List NormalizedLabel
    values = sorted rank_le (on_axis name labels)

    on_name : All (λ label. str_eq label.axis name ≡ true) values
    on_name =
        All-sorted rank_le (λ label. str_eq label.axis name ≡ true) (on_axis name labels)
          (All-map (on_axis name labels) (λ x h. h.1)
            (All-keep_both (λ x. Unit {0}) (λ label. str_eq label.axis name) labels
              (All-Unit labels)))

    none_left :
        str_eq name axis ≡ false
        → (b : Bool) → length (on_axis axis (if b then values else take 1 values)) ≤ 0
    none_left h true = omega (arith, length-on_axis-other axis name values h on_name)
    none_left h false = omega (
      arith,
      length-on_axis-other axis name (take 1 values) h
          (All-take_one (λ label. str_eq label.axis name ≡ true) values on_name),
    )

    go :
        (b : Bool)
        → str_eq name axis ≡ b
        → length (on_axis axis (if is_multiple (axes name) then values else take 1 values))
          ≤ (if b then 1 else 0)
    go true e =
        let same : name ≡ axis = (eq_iff _ _).0 e in
        let one : is_multiple (axes name) ≡ false = ap (λ a. is_multiple (axes a)) same ∙ single in
        rw one (
          omega (
            arith,
            length-keep (λ label. str_eq label.axis axis) (take 1 values),
            length-take_one values,
          ))
    go false e = none_left e (is_multiple (axes name))

by_axes-length :
    (axes : Axes) (labels : List NormalizedLabel) (axis : String) (names : List String)
    → is_multiple (axes axis) ≡ false
    → length (on_axis axis (by_axes axes labels names)) ≤ occurrences axis names
unfolding by_axes
by_axes-length axes labels axis [] single = omega arith
by_axes-length axes labels axis (name ∷ names) single =
    let split =
      length-on_axis-append axis (axis_labels axes labels name) (by_axes axes labels names) in
    let first = axis_labels-length axes labels axis name single in
    let rest = by_axes-length axes labels axis names single in ground arith

normalize_labels-single :
    (axes : Axes) (allowed : List String) (min_confidence : Number) (items : List ProposedLabel)
    (axis : String)
    → is_multiple (axes axis) ≡ false
    → length (on_axis axis (normalize_labels axes allowed min_confidence items)) ≤ 1
unfolding normalize_labels
normalize_labels-single axes allowed min_confidence items axis single =
    let strongest = strongest_from axes allowed (finite_clamped min_confidence) [] items in
    let few = by_axes-length axes strongest axis (sorted text_le (axes_from [] strongest)) single in
    omega (
      arith,
      few,
      sorted-occurrences axis (axes_from [] strongest),
      (axes_from-occurrences axis [] strongest).0,
    )

-- Each label is on an axis of the taxonomy that the classifier may use, has a value of that axis,
-- and has a confidence from the minimum up to 1; an axis that takes one value has at most one label.
pub record IsNormal (axes : Axes) (allowed : List String) (least : ℕ)
    (labels : List NormalizedLabel) : Type 0 where
  pub are_allowed : All (IsAllowed axes allowed least) labels
  pub single : (axis : String) → is_multiple (axes axis) ≡ false → length (on_axis axis labels) ≤ 1

-- Whatever the classifier answers, each label of the normalized answer is on an axis of the
-- taxonomy that the classifier may use, has a value of that axis, and has a confidence from the
-- minimum up to 1; and there is at most one label on an axis that takes one value.
pub normalize_labels-IsNormal :
    (axes : Axes) (allowed : List String) (min_confidence : Number) (items : List ProposedLabel)
    → IsNormal axes allowed
        (finite_clamped min_confidence)
        (normalize_labels axes allowed min_confidence items)
normalize_labels-IsNormal axes allowed min_confidence items = record {
  are_allowed = normalize_labels-IsAllowed axes allowed min_confidence items;
  single = normalize_labels-single axes allowed min_confidence items;
}
