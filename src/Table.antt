-- ===== src/Table.antt =====
-- A table of the relational store (services/main/lib/infra/storage/postgres): the rows by primary
-- key, and the keys in the order of insertion. A UUID is a number.
pub mod Laws
use rd_news.Prelude.{ℕ, Bool, Option, none, some, List, [], ◌∷◌, ◌++◌, ◌==◌, if◌then◌else◌, is_some}

pub record Table {ℓ} (A : Type ℓ) : Type ℓ where
  pub keys : List ℕ
  pub row : ℕ → Option A

module _ {ℓ} {A : Type ℓ} where
  abbrev pub empty : Table A
  empty = record { keys = []; row = λ k. none }

  -- `session.get(Row, key)`
  abbrev pub get : ℕ → Table A → Option A
  get k t = t.row k

  -- `session.get` at a nullable key
  abbrev pub get_opt : Option ℕ → Table A → Option A
  get_opt none t = none
  get_opt (some k) t = t.row k

  -- A new row, or the new contents of a row.
  abbrev pub put : ℕ → A → Table A → Table A
  put k a t = record {
    keys = if is_some (t.row k) then t.keys else t.keys ++ (k ∷ []);
    row = λ j. if k == j then some a else t.row j;
  }

  abbrev changed : (A → Bool) → (A → A) → Option A → Option A
  changed p f none = none
  changed p f (some a) = if p a then some (f a) else some a

  -- `update(Row).where(p).values(...)`
  abbrev pub update_where : (A → Bool) → (A → A) → Table A → Table A
  update_where p f t = record { keys = t.keys; row = λ k. changed p f (t.row k) }

  abbrev matching : (ℕ → A → Bool) → ℕ → Option A → List (ℕ × A) → List (ℕ × A)
  matching p k none rest = rest
  matching p k (some a) rest = if p k a then (k, a) ∷ rest else rest

  -- `select(Row).where(p)`, in the order of the keys
  unfoldable pub select_keys : (ℕ → A → Bool) → (ℕ → Option A) → List ℕ → List (ℕ × A)
  select_keys p row [] = []
  select_keys p row (k ∷ ks) = let rest = select_keys p row ks in matching p k (row k) rest

  abbrev pub select : (ℕ → A → Bool) → Table A → List (ℕ × A)
  select p t = select_keys p t.row t.keys

  abbrev pub better : (ℕ × A → ℕ × A → Bool) → ℕ × A → Option (ℕ × A) → Option (ℕ × A)
  better before x none = some x
  better before x (some y) = if before y x then some y else some x

  -- `order_by(...).limit(1)`: the least row, the first of those that tie
  unfoldable pub first_by : (ℕ × A → ℕ × A → Bool) → List (ℕ × A) → Option (ℕ × A)
  first_by before [] = none
  first_by before (x ∷ xs) = let rest = first_by before xs in better before x rest
