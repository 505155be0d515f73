-- ===== src/Table/Laws.antt =====
-- What a query returns: rows of the table that fit, and the least of them.
use rd_news.Prelude.{
  ℕ, ◌≡◌, ◌≢◌, refl, ◌==◌, ==_iff, inl, inr, Bool, true, false, Option, none, some, List, [], ◌∷◌,
  ◌++◌, arith, All, Bool-cases, Option-cases, ap, sym, All-map,
}
use mathlib.Core.Path.{subst}
use mathlib.Core.Option.{some-injective}
use rd_news.Prelude.Members.{member}
use rd_news.Table.{better, Table, select, select_keys, first_by}

abbrev head_or {ℓ} : {B : Type ℓ} → B → List B → B
head_or x [] = x
head_or x (y ∷ ys) = y

abbrev tail_of {ℓ} : {B : Type ℓ} → List B → List B
tail_of [] = []
tail_of (y ∷ ys) = ys

module _ {A : Type 0} where
  -- The row stands in the table under its key, and fits.
  pub record IsRow (p : ℕ → A → Bool) (row : ℕ → Option A) (x : ℕ × A) : Type 0 where
    pub there : row x.0 ≡ some x.1
    pub fits : p x.0 x.1 ≡ true

  select_keys-IsRow :
      (p : ℕ → A → Bool) (row : ℕ → Option A) (ks : List ℕ)
      → All (IsRow p row) (select_keys p row ks)
  unfolding select_keys
  select_keys-IsRow p row [] = tt
  select_keys-IsRow p row (k ∷ ks) = elim (Option-cases (row k)) [
    | inl e ↦ rw e (select_keys-IsRow p row ks)
    | inr (a, e) ↦ elim (Bool-cases (p k a)) [
      | inl f ↦ rw e (rw f (record { there = e; fits = f }, select_keys-IsRow p row ks))
      | inr f ↦ rw e (rw f (select_keys-IsRow p row ks))
    ]
  ]

  pub select-IsRow : (p : ℕ → A → Bool) (t : Table A) → All (IsRow p t.row) (select p t)
  select-IsRow p t = select_keys-IsRow p t.row t.keys

  first_by-All :
      (P : ℕ × A → Type 0) (before : ℕ × A → ℕ × A → Bool) (xs : List (ℕ × A)) (x : ℕ × A)
      → All P xs
      → first_by before xs ≡ some x
      → P x
  unfolding first_by
  first_by-All P before [] x h e = cc
  first_by-All P before (y ∷ ys) x h e =
      go (first_by before ys) (λ z. first_by-All P before ys z h.1) e
    where
      go :
          (rest : Option (ℕ × A))
          → ((z : ℕ × A) → rest ≡ some z → P z)
          → better before y rest ≡ some x
          → P x
      go none keep e = subst P (some-injective _ _ e) h.0
      go (some z) keep e = elim (Bool-cases (before z y)) [
        | inl b ↦ keep x (rw b at e)
        | inr b ↦ subst P (some-injective _ _ (rw b at e)) h.0
      ]

  -- The row that `order_by(...).limit(1)` returns is a row of the table that fits.
  pub first_by-select :
      (before : ℕ × A → ℕ × A → Bool) (p : ℕ → A → Bool) (t : Table A) (x : ℕ × A)
      → first_by before (select p t) ≡ some x
      → IsRow p t.row x
  first_by-select before p t x e =
      first_by-All (IsRow p t.row) before (select p t) x (select-IsRow p t) e

  -- Where `before` is a strict weak order, no row comes before the one returned.
  module _ (before : ℕ × A → ℕ × A → Bool)
      (asym : (x y : ℕ × A) → before x y ≡ true → before y x ≡ false)
      (weak : (x y z : ℕ × A) → before x y ≡ false → before y z ≡ false → before x z ≡ false)
      (irrefl : (x : ℕ × A) → before x x ≡ false) where
    abbrev NotBefore : ℕ × A → ℕ × A → Type 0
    NotBefore x y = before y x ≡ false

    NotBefore-All :
        (x z : ℕ × A) (ys : List (ℕ × A))
        → NotBefore x z
        → All (NotBefore z) ys
        → All (NotBefore x) ys
    NotBefore-All x z [] h hs = tt
    NotBefore-All x z (y ∷ ys) h hs = (weak y z x hs.0 h, NotBefore-All x z ys h hs.1)

    better-ne-none : (y : ℕ × A) (rest : Option (ℕ × A)) → better before y rest ≡ none → ⊥
    better-ne-none y none e = cc
    better-ne-none y (some z) e = ground arith

    none-All : (P : ℕ × A → Type 0) (xs : List (ℕ × A)) → first_by before xs ≡ none → All P xs
    unfolding first_by
    none-All P [] e = tt
    none-All P (y ∷ ys) e = absurd (better-ne-none y (first_by before ys) e)

    pub first_by-least :
        (xs : List (ℕ × A)) (x : ℕ × A) → first_by before xs ≡ some x → All (NotBefore x) xs
    unfolding first_by
    first_by-least [] x e = tt
    first_by-least (y ∷ ys) x e = go (first_by before ys) refl (first_by-least ys) e
      where
        go :
            (rest : Option (ℕ × A))
            → first_by before ys ≡ rest
            → ((z : ℕ × A) → first_by before ys ≡ some z → All (NotBefore z) ys)
            → better before y rest ≡ some x
            → All (NotBefore x) (y ∷ ys)
        go none f least e =
            subst (λ v. All (NotBefore v) (y ∷ ys)) (some-injective _ _ e)
              (irrefl y, none-All (NotBefore y) ys f)
        go (some z) f least e = elim (Bool-cases (before z y)) [
          | inl b ↦
              subst (λ v. All (NotBefore v) (y ∷ ys)) (some-injective _ _ (rw b at e))
                (asym z y b, least z f)
          | inr b ↦
              subst (λ v. All (NotBefore v) (y ∷ ys)) (some-injective _ _ (rw b at e))
                (irrefl y, NotBefore-All y z ys b (least z f))
        ]

  -- A query that no older row fits returns the new row alone.
  abbrev pub Misses : (ℕ → A → Bool) → (ℕ → Option A) → ℕ → Type 0
  Misses p row k = (a : A) → row k ≡ some a → p k a ≡ false

  pub select_keys-none :
      (p : ℕ → A → Bool) (row : ℕ → Option A) (ks : List ℕ)
      → select_keys p row ks ≡ []
      → All (Misses p row) ks
  unfolding select_keys
  select_keys-none p row [] e = tt
  select_keys-none p row (k ∷ ks) e = elim (Option-cases (row k)) [
    | inl f ↦ (
      λ a there. absurd (let bad = rw f at there in ground arith),
      select_keys-none p row ks (rw f at e),
    )
    | inr (b, f) ↦ elim (Bool-cases (p k b)) [
      | inl g ↦ absurd (let bad = rw g at (rw f at e) in ground arith)
      | inr g ↦ (
        λ a there. subst (λ c. p k c ≡ false) (some-injective _ _ (rw f at there)) g,
        select_keys-none p row ks (rw g at (rw f at e)),
      )
    ]
  ]

  pub select_keys-only :
      (p : ℕ → A → Bool) (row : ℕ → Option A) (k : ℕ) (a : A) (ks : List ℕ)
      → All (Misses p row) ks
      → row k ≡ some a
      → p k a ≡ true
      → select_keys p row (ks ++ (k ∷ [])) ≡ (k, a) ∷ []
  unfolding select_keys
  select_keys-only p row k a [] misses there fits = rw there (rw fits refl)
  select_keys-only p row k a (j ∷ js) misses there fits =
      let rest = select_keys-only p row k a js misses.1 there fits in
      elim (Option-cases (row j)) [ inl f ↦ rw f rest | inr (b, f) ↦ rw f (rw (misses.0 b f) rest) ]

  select_keys-nil :
      (q : ℕ → A → Bool) (row : ℕ → Option A) (ks : List ℕ)
      → All (Misses q row) ks
      → select_keys q row ks ≡ []
  unfolding select_keys
  select_keys-nil q row [] misses = refl
  select_keys-nil q row (k ∷ ks) misses =
      let rest = select_keys-nil q row ks misses.1 in
      elim (Option-cases (row k)) [ inl f ↦ rw f rest | inr (b, f) ↦ rw f (rw (misses.0 b f) rest) ]

  -- The one row that fits a condition fits a narrower one alone.
  pub select_keys-narrow :
      (p q : ℕ → A → Bool) (row : ℕ → Option A) (k : ℕ) (a : A) (ks : List ℕ)
      → ((j : ℕ) (b : A) → p j b ≡ false → q j b ≡ false)
      → q k a ≡ true
      → select_keys p row ks ≡ (k, a) ∷ []
      → select_keys q row ks ≡ (k, a) ∷ []
  unfolding select_keys
  select_keys-narrow p q row k a [] narrow fits e = absurd (ground arith)
  select_keys-narrow p q row k a (j ∷ js) narrow fits e = elim (Option-cases (row j)) [
    | inl f ↦ rw f (select_keys-narrow p q row k a js narrow fits (rw f at e))
    | inr (b, f) ↦ elim (Bool-cases (p j b)) [
      | inr g ↦
          rw f (
            rw (narrow j b g) (select_keys-narrow p q row k a js narrow fits (rw g at (rw f at e))))
      | inl g ↦
          let found : ((j, b) ∷ select_keys p row js) ≡ (k, a) ∷ [] = rw g at (rw f at e) in
          let first : (j, b) ≡ (k, a) = ap (λ l. head_or (k, a) l) found in
          let others : select_keys p row js ≡ [] = ap (λ l. tail_of l) found in
          let here : q j b ≡ true = subst (λ x. q x.0 x.1 ≡ true) (sym first) fits in
          let none_else : select_keys q row js ≡ [] = select_keys-nil q row js (
            All-map js (λ i misses c there. narrow i c (misses c there))
              (select_keys-none p row js others)) in
          rw f (rw here (rw none_else (ap (λ x. x ∷ []) first)))
    ]
  ]

  -- A row that fits is found.
  pub select-found :
      (p : ℕ → A → Bool) (row : ℕ → Option A) (k : ℕ) (a : A) (ks : List ℕ)
      → member k ks ≡ true
      → row k ≡ some a
      → p k a ≡ true
      → select_keys p row ks ≢ []
  unfolding select_keys
  select-found p row k a [] m there fits = cc
  select-found p row k a (j ∷ js) m there fits = elim (Bool-cases (j == k)) [
    | inl e ↦ rw ((==_iff j k).0 e) (rw there (rw fits (λ bad. ground arith)))
    | inr e ↦ elim (Option-cases (row j)) [
      | inl f ↦ rw f (select-found p row k a js (rw e at m) there fits)
      | inr (other, f) ↦ elim (Bool-cases (p j other)) [
        | inl g ↦ rw f (rw g (λ bad. ground arith))
        | inr g ↦ rw f (rw g (select-found p row k a js (rw e at m) there fits))
      ]
    ]
  ]
