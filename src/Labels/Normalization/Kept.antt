-- ===== src/Labels/Normalization/Kept.antt =====
-- No admissible item is lost: its axis gets a label at least as sure.
use rd_news.Prelude.{
  ℕ, String, ◌≡◌, refl, sym, ap, ◌∙◌, Bool, true, false, ◌&&◌, ◌||◌, List, [], ◌∷◌, ◌++◌, arith,
  take, leb, if◌then◌else◌, str_eq, eq_iff, eq_refl, any_of, Bool-cases, inl, inr, All, All-map,
  All-Unit, All-keep_both,
}
use rd_news.Prelude.Text.{text_le}
use rd_news.Prelude.Sort.{sorted, insert_sorted, All-sorted}
use rd_news.Labels.Confidence.{Number, finite_clamped}
use rd_news.Labels.Normalization.{
  ProposedLabel, NormalizedLabel, Axes, contains, candidate, admissible, strengthen, same_key,
  rank_le, rank_lt, strongest_from, on_axis, is_multiple, axis_labels, by_axes, normalize_labels,
  axes_from,
}

-- The label is on the axis, with a value that is wanted, and at least that sure.
abbrev pub covers : String → (String → Bool) → ℕ → NormalizedLabel → Bool
covers axis wanted n label = str_eq label.axis axis && wanted label.value && leb n label.confidence

abbrev pub covered : String → (String → Bool) → ℕ → List NormalizedLabel → Bool
covered axis wanted n = any_of (covers axis wanted n)

-- On an axis with several values each is wanted for itself, on another any will do.
abbrev pub stands_for : Axes → String → String → String → Bool
stands_for axes axis value given = if is_multiple (axes axis) then str_eq given value else true

module _ (axis : String) (wanted : String → Bool) (n : ℕ) where
  stronger-covers :
      (label previous : NormalizedLabel)
      → same_key label previous ≡ true
      → rank_lt label previous ≡ true
      → covers axis wanted n previous ≡ true
      → covers axis wanted n label ≡ true
  unfolding rank_le
  stronger-covers label previous k r h =
      let same : label.axis ≡ previous.axis = (eq_iff _ _).0 (ground arith) in
      let same_value : label.value ≡ previous.value = (eq_iff _ _).0 (ground arith) in
      ap (λ a. str_eq a axis && wanted label.value && leb n label.confidence) same
      ∙ ap (λ v. str_eq previous.axis axis && wanted v && leb n label.confidence) same_value
      ∙ ground arith

  weaker-covers :
      (label previous : NormalizedLabel)
      → same_key label previous ≡ true
      → rank_lt label previous ≡ false
      → covers axis wanted n label ≡ true
      → covers axis wanted n previous ≡ true
  unfolding rank_le
  weaker-covers label previous k r h =
      let same : label.axis ≡ previous.axis = (eq_iff _ _).0 (ground arith) in
      let same_value : label.value ≡ previous.value = (eq_iff _ _).0 (ground arith) in
      ap (λ a. str_eq a axis && wanted previous.value && leb n previous.confidence) (sym same)
      ∙ ap (λ v. str_eq label.axis axis && wanted v && leb n previous.confidence) (sym same_value)
      ∙ ground arith

  strengthen-covered :
      (label : NormalizedLabel) (found : List NormalizedLabel)
      → (covers axis wanted n label ≡ true → covered axis wanted n (strengthen label found) ≡ true)
        × (covered axis wanted n found ≡ true
            → covered axis wanted n (strengthen label found) ≡ true)
  unfolding strengthen
  strengthen-covered label [] = (λ h. rw h refl, λ h. cc)
  strengthen-covered label (previous ∷ rest) =
      go (same_key label previous) refl (rank_lt label previous) refl
        (strengthen-covered label rest)
    where
      go :
          (b : Bool)
          → same_key label previous ≡ b
          → (c : Bool) → rank_lt label previous ≡ c
          → (covers axis wanted n label ≡ true
              → covered axis wanted n (strengthen label rest) ≡ true)
            × (covered axis wanted n rest ≡ true
                → covered axis wanted n (strengthen label rest) ≡ true)
          → (covers axis wanted n label ≡ true
              → covered axis wanted n (
                  if b
                  then (if c then label else previous) ∷ rest
                  else previous ∷ strengthen label rest)
                ≡ true)
            × (covered axis wanted n (previous ∷ rest) ≡ true
                → covered axis wanted n (
                    if b
                    then (if c then label else previous) ∷ rest
                    else previous ∷ strengthen label rest)
                  ≡ true)
      go true k true r h =
          (λ p. rw p refl, λ p. let s = stronger-covers label previous k r in ground arith)
      go true k false r h = (λ p. let s = weaker-covers label previous k r p in rw s refl, λ p. p)
      go false k c r h = (λ p. let s = h.0 p in ground arith, λ p. let s = h.1 in ground arith)

  strongest_from-covered :
      (axes : Axes) (allowed : List String) (minimum : ℕ) (found : List NormalizedLabel)
      (items : List ProposedLabel)
      → covered axis wanted n found
          || any_of
              (λ item.
                admissible axes allowed minimum item && covers axis wanted n (candidate item))
              items
        ≡ true
      → covered axis wanted n (strongest_from axes allowed minimum found items) ≡ true
  unfolding strongest_from
  strongest_from-covered axes allowed minimum found [] h = ground arith
  strongest_from-covered axes allowed minimum found (item ∷ items) h =
      let kept = strengthen-covered (candidate item) found in
      elim (Bool-cases (admissible axes allowed minimum item)) [
        | inl good ↦ rw good (
            strongest_from-covered axes allowed minimum (strengthen (candidate item) found) items (
              grown (covered axis wanted n found)
                (covered axis wanted n (strengthen (candidate item) found))
                (any_of
                  (λ i. admissible axes allowed minimum i && covers axis wanted n (candidate i))
                  items)
                (covers axis wanted n (candidate item)) kept.0 kept.1 (rw good at h)))
        | inr bad ↦ rw bad (strongest_from-covered axes allowed minimum found items (rw bad at h))
      ]
    where
      grown :
          (old new more b : Bool)
          → (b ≡ true → new ≡ true)
          → (old ≡ true → new ≡ true)
          → old || (b || more) ≡ true
          → new || more ≡ true
      grown old new more b f g h = ground arith

  -- The first of the sorted labels of the axis is the surest.
  insert_sorted-covered :
      ((v : String) → wanted v ≡ true)
      → (x : NormalizedLabel) (labels : List NormalizedLabel)
      → All (λ l. str_eq l.axis axis ≡ true) (x ∷ labels)
      → covers axis wanted n x || covered axis wanted n (take 1 labels) ≡ true
      → covered axis wanted n (take 1 (insert_sorted rank_le x labels)) ≡ true
  unfolding insert_sorted rank_le
  insert_sorted-covered any x [] on h = h
  insert_sorted-covered any x (y ∷ labels) on h = go (rank_le x y) refl
    where
      go :
          (b : Bool)
          → rank_le x y ≡ b
          → covered axis wanted n
              (take 1 (if b then x ∷ y ∷ labels else y ∷ insert_sorted rank_le x labels))
            ≡ true
      go true e = let p = on.0 in let w = any x.value in ground arith
      go false e = let p = on.1.0 in let w = any y.value in ground arith

  sorted-covered :
      ((v : String) → wanted v ≡ true)
      → (labels : List NormalizedLabel) → All (λ l. str_eq l.axis axis ≡ true) labels
      → covered axis wanted n labels ≡ true
      → covered axis wanted n (take 1 (sorted rank_le labels)) ≡ true
  unfolding sorted
  sorted-covered any [] on h = h
  sorted-covered any (x ∷ labels) on h =
      insert_sorted-covered any x (sorted rank_le labels)
        (on.0, All-sorted rank_le (λ l. str_eq l.axis axis ≡ true) labels on.1)
        (either (covers axis wanted n x) (covered axis wanted n labels)
          (covered axis wanted n (take 1 (sorted rank_le labels))) (sorted-covered any labels on.1)
          h)
    where
      either : (b c d : Bool) → (c ≡ true → d ≡ true) → b || c ≡ true → b || d ≡ true
      either b c d f h = ground arith

  insert-covered :
      (x : NormalizedLabel) (labels : List NormalizedLabel)
      → covered axis wanted n (insert_sorted rank_le x labels)
        ≡ covers axis wanted n x || covered axis wanted n labels
  unfolding insert_sorted
  insert-covered x [] = refl
  insert-covered x (y ∷ labels) = let h = insert-covered x labels in go (rank_le x y) h
    where
      go :
          (b : Bool)
          → covered axis wanted n (insert_sorted rank_le x labels)
            ≡ covers axis wanted n x || covered axis wanted n labels
          → covered axis wanted n (if b then x ∷ y ∷ labels else y ∷ insert_sorted rank_le x labels)
            ≡ covers axis wanted n x || covered axis wanted n (y ∷ labels)
      go true h = refl
      go false h = ground arith

  all_sorted-covered :
      (labels : List NormalizedLabel)
      → covered axis wanted n (sorted rank_le labels) ≡ covered axis wanted n labels
  unfolding sorted
  all_sorted-covered [] = refl
  all_sorted-covered (x ∷ labels) =
      let h = all_sorted-covered labels in
      insert-covered x (sorted rank_le labels) ∙ ap (λ b. covers axis wanted n x || b) h

  on_axis-covered :
      (labels : List NormalizedLabel)
      → covered axis wanted n (on_axis axis labels) ≡ covered axis wanted n labels
  on_axis-covered [] = refl
  on_axis-covered (x ∷ labels) = let h = on_axis-covered labels in ground arith

  axis_labels-covered :
      (axes : Axes) (labels : List NormalizedLabel)
      → ((v : String) → is_multiple (axes axis) ≡ false → wanted v ≡ true)
      → covered axis wanted n labels ≡ true
      → covered axis wanted n (axis_labels axes labels axis) ≡ true
  unfolding axis_labels
  axis_labels-covered axes labels any h = go (is_multiple (axes axis)) any
    where
      values : List NormalizedLabel
      values = sorted rank_le (on_axis axis labels)

      go :
          (b : Bool)
          → ((v : String) → b ≡ false → wanted v ≡ true)
          → covered axis wanted n (if b then values else take 1 values) ≡ true
      go true any = all_sorted-covered (on_axis axis labels) ∙ on_axis-covered labels ∙ h
      go false any =
          sorted-covered (λ v. any v refl) (on_axis axis labels)
            (All-map (on_axis axis labels) (λ x h. h.1)
              (All-keep_both (λ x. Unit {0}) (λ label. str_eq label.axis axis) labels
                (All-Unit labels)))
            (on_axis-covered labels ∙ h)

  append-covered :
      (xs ys : List NormalizedLabel)
      → covered axis wanted n (xs ++ ys) ≡ covered axis wanted n xs || covered axis wanted n ys
  append-covered [] ys = refl
  append-covered (x ∷ xs) ys = let h = append-covered xs ys in ground arith

  by_axes-covered :
      (axes : Axes) (labels : List NormalizedLabel) (names : List String)
      → ((v : String) → is_multiple (axes axis) ≡ false → wanted v ≡ true)
      → covered axis wanted n labels ≡ true
      → contains axis names ≡ true
      → covered axis wanted n (by_axes axes labels names) ≡ true
  unfolding by_axes
  by_axes-covered axes labels [] any h c = cc
  by_axes-covered axes labels (name ∷ names) any h c =
      let split = append-covered (axis_labels axes labels name) (by_axes axes labels names) in
      elim (Bool-cases (str_eq axis name)) [
        | inl e ↦
            let here : covered axis wanted n (axis_labels axes labels name) ≡ true =
              ap (λ a. covered axis wanted n (axis_labels axes labels a)) (sym ((eq_iff _ _).0 e))
              ∙ axis_labels-covered axes labels any h in
            ground arith
        | inr e ↦ let there = by_axes-covered axes labels names any h (rw e at c) in ground arith
      ]

  axes_from-covered :
      (seen : List String) (labels : List NormalizedLabel)
      → covered axis wanted n labels ≡ true
      → contains axis (axes_from seen labels) || contains axis seen ≡ true
  unfolding axes_from
  axes_from-covered seen [] h = cc
  axes_from-covered seen (label ∷ labels) h =
      go (contains label.axis seen) refl (str_eq label.axis axis) refl
        (axes_from-covered seen labels) (axes_from-covered (label.axis ∷ seen) labels)
    where
      go :
          (b : Bool)
          → contains label.axis seen ≡ b
          → (c : Bool) → str_eq label.axis axis ≡ c
          → (covered axis wanted n labels ≡ true
              → contains axis (axes_from seen labels) || contains axis seen ≡ true)
          → (covered axis wanted n labels ≡ true
              → contains axis (axes_from (label.axis ∷ seen) labels)
                  || contains axis (label.axis ∷ seen)
                ≡ true)
          → contains axis (
                if b
                then axes_from seen labels
                else label.axis ∷ axes_from (label.axis ∷ seen) labels)
              || contains axis seen
            ≡ true
      go true e true f old new =
          let seen_too : contains axis seen ≡ true =
            ap (λ a. contains a seen) (sym ((eq_iff _ _).0 f)) ∙ e in
          ground arith
      go true e false f old new = old (rw f at h)
      go false e true f old new =
          let here : str_eq axis label.axis ≡ true =
            ap (λ a. str_eq axis a) ((eq_iff _ _).0 f) ∙ eq_refl axis in
          ground arith
      go false e false f old new = let k = new (rw f at h) in ground arith

contains-insert_sorted :
    (axis x : String) (names : List String)
    → contains axis (insert_sorted text_le x names) ≡ str_eq axis x || contains axis names
unfolding insert_sorted
contains-insert_sorted axis x [] = refl
contains-insert_sorted axis x (y ∷ names) =
    let h = contains-insert_sorted axis x names in ground arith

contains-sorted :
    (axis : String) (names : List String)
    → contains axis (sorted text_le names) ≡ contains axis names
unfolding sorted
contains-sorted axis [] = refl
contains-sorted axis (x ∷ names) =
    let h = contains-sorted axis names in
    contains-insert_sorted axis x (sorted text_le names) ∙ ground arith

-- No opinion that the taxonomy and the classifier's settings admit is lost: on an axis with several
-- values the normalized answer has the value of each admissible item, and on another axis some
-- value, with a label that is at least as sure as the item.
pub normalize_labels-keeps :
    (axes : Axes) (allowed : List String) (min_confidence : Number) (items : List ProposedLabel)
    (axis value : String) (n : ℕ)
    → any_of
        (λ item.
          admissible axes allowed (finite_clamped min_confidence) item
          && covers axis (stands_for axes axis value) n (candidate item))
        items
      ≡ true
    → covered axis
        (stands_for axes axis value)
        n
        (normalize_labels axes allowed min_confidence items)
      ≡ true
unfolding normalize_labels
normalize_labels-keeps axes allowed min_confidence items axis value n h =
    let wanted = stands_for axes axis value in
    let found = strongest_from axes allowed (finite_clamped min_confidence) [] items in
    let sure : covered axis wanted n found ≡ true =
      strongest_from-covered axis wanted n axes allowed (finite_clamped min_confidence) [] items
        h in
    let named : contains axis (axes_from [] found) ≡ true =
      unseen (contains axis (axes_from [] found)) (axes_from-covered axis wanted n [] found sure) in
    by_axes-covered axis wanted n axes found _ (λ v single. rw single refl) sure
      (contains-sorted axis (axes_from [] found) ∙ named)
  where
    unseen : (b : Bool) → b || false ≡ true → b ≡ true
    unseen b h = ground arith
