-- ===== src/Rematerialization/Rounds.antt =====
-- The rounds of a worker on one job of rematerialization_storage.py: nothing in the scope is
-- skipped, and the job ends.

use rd_news.Prelude.{
  ℕ, zero, suc, ◌<◌, ◌≡◌, refl, sym, ◌∙◌, Bool, true, Option, none, some, List, [], ◌∷◌, arith, leb,
  ltb, ◌==◌, take, keep, length, Bool-cases, ◌⊎◌, inl, inr, All-keep_both, All-Unit,
}
use rd_news.Prelude.Members.{
  member, last_of, All-member, keep-member, Ascending, sorted-Ascending, sorted-member, take-covers,
}
use rd_news.Prelude.Text.{is_empty}
use rd_news.Prelude.Sort.{sorted}
use rd_news.Model.Job.{IdText, id_text, bad_text}
use rd_news.Model.Result.{ok, ok-injective}
use rd_news.Model.Store.{Store}
use rd_news.Rematerialization.{Worker, Scope, cursor_test, wanted, wanted_ids}
use rd_news.Rematerialization.Frame.{Kept, Risen}

pub keep-sub : (p : ℕ → Bool) (k : ℕ) (xs : List ℕ) → member k (keep p xs) ≡ true → p k ≡ true
keep-sub p k xs m =
    (All-member (λ j. Unit × (p j ≡ true)) k (keep p xs) (All-keep_both _ p xs (All-Unit xs)) m).1

take-member : (n : ℕ) (k : ℕ) (xs : List ℕ) → member k (take n xs) ≡ true → member k xs ≡ true
take-member zero k xs m = cc
take-member (suc n) k [] m = m
take-member (suc n) k (x ∷ xs) m = elim (Bool-cases (x == k)) [
  | inl e ↦ rw e refl
  | inr e ↦ rw e (take-member n k xs (rw e at m))
]

-- In the batch, or above all of it.
abbrev pub Covered : ℕ → List ℕ → Type 0
Covered k [] = ⊥
Covered k (x ∷ xs) = (member k (x ∷ xs) ≡ true) ⊎ (last_of x xs < k)

take-Covered :
    (n k : ℕ) (xs : List ℕ) → 0 < n → Ascending xs → member k xs ≡ true → Covered k (take n xs)
take-Covered zero k xs some_n up m = absurd (omega arith)
take-Covered (suc n) k [] some_n up m = absurd (let bad = m in cc)
take-Covered (suc n) k (y ∷ ys) some_n up m = take-covers n y ys k up m

module _ (worker : Worker) (above : ℕ → Bool) (scope : Scope) (db : Store) where
  abbrev pub batch : List ℕ
  batch = take worker.batch_size (sorted leb (wanted_ids above scope db))

  pub wanted-Covered :
      (k : ℕ)
      → 0 < worker.batch_size
      → member k db.news.keys ≡ true
      → wanted above scope db k ≡ true
      → Covered k batch
  wanted-Covered k some_n there want =
      take-Covered worker.batch_size k (sorted leb (wanted_ids above scope db)) some_n
        (sorted-Ascending (wanted_ids above scope db))
        (sorted-member k (wanted_ids above scope db)
          ∙ keep-member (wanted above scope db) k db.news.keys there want)

  pub batch-found : (k : ℕ) → member k batch ≡ true → member k (wanted_ids above scope db) ≡ true
  batch-found k m =
      sym (sorted-member k (wanted_ids above scope db))
      ∙ take-member worker.batch_size k (sorted leb (wanted_ids above scope db)) m

pub wanted-Kept :
    (above : ℕ → Bool) (scope : Scope) {db db' : Store}
    → Kept db db'
    → (k : ℕ) → wanted above scope db' k ≡ wanted above scope db k
wanted-Kept above scope q k = rw (q.live k) (rw q.labels (rw q.decisions refl))

-- The cursor only moves up.
pub above-up :
    (cursor : Option IdText) (above : ℕ → Bool) (c k : ℕ)
    → cursor_test cursor ≡ ok above
    → above c ≡ true
    → ltb c k ≡ true
    → above k ≡ true
unfolding cursor_test
above-up none above c k e h up = rw (← ok-injective e) refl
above-up (some (id_text d)) above c k e h up =
    let same = ok-injective e in rw (← same) (let h' = rw (← same) at h in ground (arith, h', up))
above-up (some (bad_text s)) above c k e h up = elim (Bool-cases (is_empty s)) [
  | inl b ↦ rw (← ok-injective (rw b at e)) refl
  | inr b ↦ absurd (let bad = rw b at e in ground arith)
]

-- A batch has been recomputed, up to the new cursor: what the scope wants has a new revision or is
-- wanted still, and fewer are wanted than before.
pub record Paused (above : ℕ → Bool) (scope : Scope) (db db' : Store) (cursor : ℕ) : Type 0 where
  pub kept : Kept db db'
  pub covers :
      (k : ℕ)
      → member k db.news.keys ≡ true
      → wanted above scope db k ≡ true
      → Risen db.news db'.news k ⊎ (wanted (ltb cursor) scope db' k ≡ true)
  pub fewer : length (wanted_ids (ltb cursor) scope db') < length (wanted_ids above scope db)
