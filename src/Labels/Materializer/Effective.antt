-- ===== src/Labels/Materializer/Effective.antt =====
-- Where the effective labels of a recomputation come from.
use mathlib.Core.Path.{subst}
use mathlib.Core.Option.{some-injective}
use rd_news.Prelude.{
  ℕ, String, ◌≡◌, refl, sym, ap, ◌∙◌, Bool, true, false, not, ◌&&◌, Option, none, some, List, [],
  ◌∷◌, ◌++◌, arith, ==_iff, All-zip, All, All-append, All-keep, All-keep_both, All-of_map, All-map,
  All-Unit, keep, map, ◌==◌, str_eq, eq_iff, same_option, if◌then◌else◌,
}
use rd_news.Prelude.Sort.{All-sorted}
use rd_news.Prelude.Uuid.{uuid_text}
use rd_news.Table
use rd_news.Table.{select}
use rd_news.Table.Laws.{IsRow, select-IsRow}
use rd_news.Model.News.{News}
use rd_news.Model.Taxonomy.{Facet, FacetValue}
use rd_news.Model.Labels.{NewsLabel, NewsEffectiveLabel, ManualLabelDecision, is_manual, is_set}
use rd_news.Model.Store.{Store}
use rd_news.Labels.Decisions.{latest_decision, is_single, has_text}
use rd_news.Labels.Materializer.{
  Ruling, ruling, ruling_of, decision_axes, admits, on_axis, candidates, winners, winning,
  same_opinion, entry_le, cut, selections, label_axes, effective_of, effective_rows, recompute,
}
use rd_news.Labels.Opinions.{Entry, joined, join, rows, counts, counted}

-- The facet and the value of the opinion are rows of the taxonomy that are enabled.
pub record Known (db : Store) (entry : Entry) : Type 0 where
  pub facet_there : Table.get entry.label.facet_id db.facets ≡ some entry.facet
  pub facet_enabled : entry.facet.enabled ≡ true
  pub value_there : Table.get entry.label.value_id db.facet_values ≡ some entry.value
  pub value_enabled : entry.value.enabled ≡ true

-- The opinion is a stored row, on the current version of the item.
pub record Stored (news_id : ℕ) (news : News) (db : Store) (label : NewsLabel) : Type 0 where
  pub label_id : ℕ
  pub there : Table.get label_id db.labels ≡ some label
  pub of_item : label.news_id ≡ news_id
  pub of_version : label.version_id ≡ news.current_version_id

-- An effective label of the item is a stored opinion on its current version, on enabled rows of the
-- taxonomy, that counts, and that the manual ruling on its axis admits.
pub record IsJustified (news_id : ℕ) (news : News) (db : Store) (row : NewsEffectiveLabel)
    : Type 0 where
  pub entry : Entry
  pub taken : row ≡ effective_of news_id entry
  pub stored : Stored news_id news db entry.label
  pub known : Known db entry
  pub counting : counts news_id news db entry ≡ true
  pub admitted : admits (ruling news_id news db entry.facet.slug) entry ≡ true

join-Known : (db : Store) (labels : List (ℕ × NewsLabel)) → All (Known db) (join db labels)
unfolding join
join-Known db [] = tt
join-Known db ((k, label) ∷ rest) =
    go (Table.get label.facet_id db.facets) refl (Table.get label.value_id db.facet_values) refl
      (join-Known db rest)
  where
    go :
        (o : Option Facet)
        → Table.get label.facet_id db.facets ≡ o
        → (p : Option FacetValue) → Table.get label.value_id db.facet_values ≡ p
        → All (Known db) (join db rest)
        → All (Known db) (joined label o p (join db rest))
    go none e p f h = h
    go (some facet) e none f h = h
    go (some facet) e (some value) f h = enabled (facet.enabled && value.enabled) refl
      where
        enabled :
            (b : Bool)
            → facet.enabled && value.enabled ≡ b
            → All (Known db) (
                if b
                then record { label = label; facet = facet; value = value } ∷ join db rest
                else join db rest)
        enabled true g = (
          record {
            facet_there = e;
            facet_enabled = ground arith;
            value_there = f;
            value_enabled = ground arith;
          },
          h,
        )
        enabled false g = h

same_option-eq : (a b : Option ℕ) → same_option a b ≡ true → a ≡ b
same_option-eq none none h = refl
same_option-eq none (some b) h = absurd (ground arith)
same_option-eq (some a) none h = absurd (ground arith)
same_option-eq (some a) (some b) h = ap some ((==_iff a b).0 h)

join-All :
    (P : NewsLabel → Type 0) (db : Store) (labels : List (ℕ × NewsLabel))
    → All (λ x. P x.1) labels
    → All (λ entry. P entry.label) (join db labels)
unfolding join
join-All P db [] h = tt
join-All P db ((k, label) ∷ rest) h =
    go (Table.get label.facet_id db.facets) (Table.get label.value_id db.facet_values)
      (join-All P db rest h.1)
  where
    go :
        (o : Option Facet) (p : Option FacetValue)
        → All (λ entry. P entry.label) (join db rest)
        → All (λ entry. P entry.label) (joined label o p (join db rest))
    go none p more = more
    go (some facet) none more = more
    go (some facet) (some value) more =
        elim (facet.enabled && value.enabled)
          as (λ b.
            All (λ entry. P entry.label)
              (if b
                then record { label = label; facet = facet; value = value } ∷ join db rest
                else join db rest)) [ true ↦ (h.0, more) | false ↦ more ]

module _ (P : Entry → Type 0) where
  cut-All : (xs : List Entry) → All P xs → All P (cut xs)
  cut-All [] h = tt
  cut-All (entry ∷ rest) h =
      elim (is_single entry.facet.kind) as (λ b. All P (if b then entry ∷ [] else entry ∷ rest)) [
        | true ↦ (h.0, tt)
        | false ↦ h
      ]

  winners-All : (db : Store) (xs : List Entry) → All P xs → All P (winners db xs)
  unfolding winners
  winners-All db [] h = tt
  winners-All db (entry ∷ rest) h = cut-All _ (
      All-sorted entry_le P _
        (All-keep P (λ e. same_opinion e.label (winning db entry.label rest)) (entry ∷ rest) h))

module _ (news_id : ℕ) (news : News) (db : Store) where
  -- What holds of a candidate of an axis.
  abbrev Candidate : String → Entry → Type 0
  Candidate axis entry =
      (((Known db entry × Stored news_id news db entry.label)
          × (counts news_id news db entry ≡ true))
        × (str_eq entry.facet.slug axis ≡ true))
      × (admits (ruling news_id news db axis) entry ≡ true)

  abbrev on_version : ℕ → NewsLabel → Bool
  on_version k label =
      label.news_id == news_id && same_option label.version_id news.current_version_id

  row-Stored : (x : ℕ × NewsLabel) → IsRow on_version db.labels.row x → Stored news_id news db x.1
  row-Stored (k, label) row =
      let fits = row.fits in
      record {
        label_id = k;
        there = row.there;
        of_item = ground arith;
        of_version = same_option-eq label.version_id news.current_version_id (ground arith);
      }

  rows-Known :
      All (λ entry. Known db entry × Stored news_id news db entry.label) (rows news_id news db)
  unfolding rows
  rows-Known =
      let found = select on_version db.labels in
      All-zip (Known db) (λ entry. Stored news_id news db entry.label) (join db found)
        (join-Known db found)
        (join-All (Stored news_id news db) db found
          (All-map found row-Stored (select-IsRow on_version db.labels)))

  candidates-All : (axis : String) → All (Candidate axis) (candidates news_id news db axis)
  unfolding candidates counted
  candidates-All axis =
      All-keep_both _ (admits (ruling news_id news db axis))
        (on_axis axis (counted news_id news db))
        (All-keep_both _ (λ entry. str_eq entry.facet.slug axis) (counted news_id news db)
          (All-keep_both (λ entry. Known db entry × Stored news_id news db entry.label)
            (counts news_id news db) (rows news_id news db) rows-Known))

  Candidate-IsJustified :
      (axis : String) (entry : Entry)
      → Candidate axis entry
      → IsJustified news_id news db (effective_of news_id entry)
  Candidate-IsJustified axis entry h = record {
    entry = entry;
    taken = refl;
    stored = h.0.0.0.1;
    known = h.0.0.0.0;
    counting = h.0.0.1;
    admitted =
        let same : entry.facet.slug ≡ axis = (eq_iff _ _).0 h.0.1 in
        subst (λ a. admits (ruling news_id news db a) entry ≡ true) (sym same) h.1;
  }

  effective-IsJustified :
      (axes : List String)
      → All (IsJustified news_id news db) (effective_rows news_id (selections news_id news db axes))
  unfolding selections effective_rows
  effective-IsJustified [] = tt
  effective-IsJustified (axis ∷ rest) =
      go (winners db (candidates news_id news db axis))
        (winners-All (Candidate axis) db _ (candidates-All axis)) (effective-IsJustified rest)
    where
      go :
          (found : List Entry)
          → All (Candidate axis) found
          → All
              (IsJustified news_id news db)
              (effective_rows news_id (selections news_id news db rest))
          → All (IsJustified news_id news db) (
              effective_rows news_id (elim found [
                | [] ↦ selections news_id news db rest
                | entry ∷ entries ↦ (axis, entry ∷ entries) ∷ selections news_id news db rest
              ]))
      go [] h hs = hs
      go (entry ∷ entries) h hs =
          All-append (IsJustified news_id news db) (map (effective_of news_id) (entry ∷ entries))
            (effective_rows news_id (selections news_id news db rest))
            (All-of_map (Candidate axis) (IsJustified news_id news db) (effective_of news_id)
              (entry ∷ entries) (Candidate-IsJustified axis) h)
            hs

-- A recomputation leaves the effective labels of other items alone, and every effective label that
-- it gives the item is a stored opinion on the item and its current version that counts, with its
-- facet and value enabled, and that the last manual decision on its axis admits.
pub recompute-IsJustified :
    (news_id : ℕ) (news : News) (db : Store)
    → (own : List NewsEffectiveLabel) × ((recompute news_id news db).effective
        ≡ keep (λ e. not (e.news_id == news_id)) db.effective ++ own)
      × All (IsJustified news_id news db) own
unfolding recompute
recompute-IsJustified news_id news db = (
  effective_rows news_id (selections news_id news db (label_axes news_id news db)),
  refl,
  effective-IsJustified news_id news db (label_axes news_id news db),
)

-- The label is one of the stored ones, on the current version of the item, that the manual decision
-- set.
pub record IsSetBy (news_id : ℕ) (news : News) (db : Store) (k : ℕ) (e : NewsEffectiveLabel)
    : Type 0 where
  pub entry : Entry
  pub taken : e ≡ effective_of news_id entry
  pub stored : Stored news_id news db entry.label
  pub manual : is_manual entry.label.origin ≡ true
  pub key : entry.label.origin_key ≡ uuid_text k

by_decision-IsSetBy :
    (news_id : ℕ) (news : News) (db : Store) (facet_id : ℕ) (facet : Facet) (k : ℕ)
    (e : NewsEffectiveLabel)
    → Table.get facet_id db.facets ≡ some facet
    → ruling news_id news db facet.slug ≡ Ruling.by_decision k
    → IsJustified news_id news db e
    → e.facet_id ≡ facet_id
    → IsSetBy news_id news db k e
by_decision-IsSetBy news_id news db facet_id facet k e there by j on =
    let id : j.entry.label.facet_id ≡ facet_id = sym (ap (λ x. x.facet_id) j.taken) ∙ on in
    let one_facet : j.entry.facet ≡ facet =
      some-injective _ _ (sym j.known.facet_there ∙ ap (λ i. Table.get i db.facets) id ∙ there) in
    let admitted : admits (Ruling.by_decision k) j.entry ≡ true =
      subst (λ r. admits r j.entry ≡ true) (ap (λ f. ruling news_id news db f.slug) one_facet ∙ by)
        j.admitted in
    record {
      entry = j.entry;
      taken = j.taken;
      stored = j.stored;
      manual = ground arith;
      key = (eq_iff _ _).0 (ground arith);
    }

ruling-set :
    (news_id : ℕ) (news : News) (db : Store) (axis : String) (k : ℕ)
    (decision : ManualLabelDecision)
    → latest_decision news_id news.current_version_id db axis ≡ some (k, decision)
    → is_set decision.action ≡ true
    → ruling news_id news db axis ≡ Ruling.by_decision k
unfolding ruling
ruling-set news_id news db axis k decision latest sets =
    ap
      (ruling_of
        (has_text axis news.manual_facets && not (has_text axis (decision_axes news_id news db))))
      latest
    ∙ rw sets refl

-- After a recomputation, on an axis that the last manual decision sets, every effective label of the
-- item is a stored manual label on its current version, with the key of that decision: whatever
-- classifiers, parsers, sources or older decisions say.
pub recompute-manual :
    (news_id : ℕ) (news : News) (db : Store) (facet_id : ℕ) (facet : Facet) (k : ℕ)
    (decision : ManualLabelDecision)
    → Table.get facet_id db.facets ≡ some facet
    → latest_decision news_id news.current_version_id db facet.slug ≡ some (k, decision)
    → is_set decision.action ≡ true
    → All
        (λ e. (e.news_id == news_id) ≡ true → e.facet_id ≡ facet_id → IsSetBy news_id news db k e)
        (recompute news_id news db).effective
recompute-manual news_id news db facet_id facet k decision there latest sets =
    let (own, split, justified) = recompute-IsJustified news_id news db in
    rw split (
      All-append
        (λ e. (e.news_id == news_id) ≡ true → e.facet_id ≡ facet_id → IsSetBy news_id news db k e)
        (keep (λ e. not (e.news_id == news_id)) db.effective) own
        (All-map (keep (λ e. not (e.news_id == news_id)) db.effective)
          (λ e h mine on. let other = h.1 in cc)
          (All-keep_both (λ e. Unit {0}) (λ e. not (e.news_id == news_id)) db.effective
            (All-Unit db.effective)))
        (All-map own
          (λ e j mine on.
            by_decision-IsSetBy news_id news db facet_id facet k e there
              (ruling-set news_id news db facet.slug k decision latest sets) j on)
          justified))
