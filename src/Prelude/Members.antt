-- ===== src/Prelude/Members.antt =====
-- Membership of numbers in lists as a Boolean test, and ascending lists.
use mathlib.Core.Path.{◌≡◌, refl}
use mathlib.Core.Logic.{◌⊎◌, inl, inr}
use mathlib.Core.Bool.{Bool, true, false, ◌||◌}
use mathlib.Core.List.{List, [], ◌∷◌}
use native.Mathlib.Omega.{arith}
use Prim.Native.Nat.{ℕ, zero, suc, ◌≤◌, ◌<◌}
use rd_news.Prelude.Tests.{leb, ◌==◌, ==_iff, Bool-cases}
use rd_news.Prelude.Lists.{All, All-map, length, take, any_of, keep}
use rd_news.Prelude.Sort.{insert_sorted, sorted, All-insert_sorted}

abbrev pub member : ℕ → List ℕ → Bool
member k = any_of (λ j. j == k)

pub All-member {ℓ} : (P : ℕ → Type ℓ) (k : ℕ) (xs : List ℕ) → All P xs → member k xs ≡ true → P k
All-member P k [] h m = cc
All-member P k (x ∷ xs) h m = elim (Bool-cases (x == k)) [
  | inl e ↦ rw (← (==_iff x k).0 e) h.0
  | inr e ↦ All-member P k xs h.1 (rw e at m)
]

pub keep-member :
    (p : ℕ → Bool) (k : ℕ) (xs : List ℕ)
    → member k xs ≡ true
    → p k ≡ true
    → member k (keep p xs) ≡ true
keep-member p k [] m h = m
keep-member p k (x ∷ xs) m h = elim (Bool-cases (x == k)) [
  | inl e ↦ rw ((==_iff x k).0 e) (rw h (rw ((==_iff k k).1 refl) refl))
  | inr e ↦
      let rest = keep-member p k xs (rw e at m) h in
      elim (Bool-cases (p x)) [ inl q ↦ rw q (rw e rest) | inr q ↦ rw q rest ]
]

pub length-keep_le :
    (p q : ℕ → Bool)
    → ((k : ℕ) → q k ≡ true → p k ≡ true)
    → (xs : List ℕ) → length (keep q xs) ≤ length (keep p xs)
length-keep_le p q sub [] = omega arith
length-keep_le p q sub (x ∷ xs) =
    let rest = length-keep_le p q sub xs in
    elim (Bool-cases (q x)) [
      | inl h ↦ rw h (rw (sub x h) (omega (arith, rest)))
      | inr h ↦ elim (Bool-cases (p x)) [
        | inl g ↦ rw h (rw g (omega (arith, rest)))
        | inr g ↦ rw h (rw g rest)
      ]
    ]

-- A narrower test that refuses a member keeps fewer.
pub length-keep_lt :
    (p q : ℕ → Bool)
    → ((k : ℕ) → q k ≡ true → p k ≡ true)
    → (k : ℕ) (xs : List ℕ) → member k (keep p xs) ≡ true
    → q k ≡ false
    → length (keep q xs) < length (keep p xs)
length-keep_lt p q sub k [] m out = cc
length-keep_lt p q sub k (x ∷ xs) m out = elim (Bool-cases (p x)) [
  | inr g ↦ elim (Bool-cases (q x)) [
    | inl h ↦ let bad = sub x h in cc
    | inr h ↦ rw h (rw g (length-keep_lt p q sub k xs (rw g at m) out))
  ]
  | inl g ↦ elim (Bool-cases (x == k)) [
    | inl e ↦
        let same = (==_iff x k).0 e in
        let rest = length-keep_le p q sub xs in
        rw same (rw out (rw (rw same at g) (omega (arith, rest))))
    | inr e ↦
        let rest = length-keep_lt p q sub k xs (rw e at (rw g at m)) out in
        elim (Bool-cases (q x)) [
          | inl h ↦ rw h (rw g (omega (arith, rest)))
          | inr h ↦ rw h (rw g (omega (arith, rest)))
        ]
  ]
]

abbrev pub Ascending : List ℕ → Type 0
Ascending [] = Unit
Ascending (x ∷ xs) = All (λ y. x ≤ y) xs × Ascending xs

insert_sorted-Ascending : (x : ℕ) (ys : List ℕ) → Ascending ys → Ascending (insert_sorted leb x ys)
unfolding insert_sorted
insert_sorted-Ascending x [] h = (tt, tt)
insert_sorted-Ascending x (y ∷ ys) h = elim (Bool-cases (leb x y)) [
  | inl e ↦
      let le : x ≤ y = ground (arith, e) in
      rw e ((le, All-map ys (λ z small. omega (arith, le, small)) h.0), h)
  | inr e ↦ rw e (
    All-insert_sorted leb (λ z. y ≤ z) x ys (ground (arith, e)) h.0,
    insert_sorted-Ascending x ys h.1,
  )
]

pub sorted-Ascending : (xs : List ℕ) → Ascending (sorted leb xs)
unfolding sorted
sorted-Ascending [] = tt
sorted-Ascending (x ∷ xs) = insert_sorted-Ascending x (sorted leb xs) (sorted-Ascending xs)

insert_sorted-member :
    (k x : ℕ) (ys : List ℕ) → member k (insert_sorted leb x ys) ≡ (x == k || member k ys)
unfolding insert_sorted
insert_sorted-member k x [] = refl
insert_sorted-member k x (y ∷ ys) =
    let rest = insert_sorted-member k x ys in
    elim (Bool-cases (leb x y)) [ inl e ↦ rw e refl | inr e ↦ rw e (rw rest (ground arith)) ]

pub sorted-member : (k : ℕ) (xs : List ℕ) → member k (sorted leb xs) ≡ member k xs
unfolding sorted
sorted-member k [] = refl
sorted-member k (x ∷ xs) =
    rw (insert_sorted-member k x (sorted leb xs)) (rw (sorted-member k xs) refl)

abbrev pub last_of : ℕ → List ℕ → ℕ
last_of k [] = k
last_of k (j ∷ js) = last_of j js

pub last_of-member : (x : ℕ) (xs : List ℕ) → member (last_of x xs) (x ∷ xs) ≡ true
last_of-member x [] = rw ((==_iff x x).1 refl) refl
last_of-member x (y ∷ ys) = let rest = last_of-member y ys in ground (arith, rest)

-- A batch of an ascending list holds each member, or ends below it.
pub take-covers :
    (n x : ℕ) (xs : List ℕ) (k : ℕ)
    → Ascending (x ∷ xs)
    → member k (x ∷ xs) ≡ true
    → (member k (x ∷ take n xs) ≡ true) ⊎ (last_of x (take n xs) < k)
take-covers zero x xs k up m = elim (Bool-cases (x == k)) [
  | inl e ↦ inl (rw e refl)
  | inr e ↦ let le = All-member (λ y. x ≤ y) k xs up.0 (rw e at m) in inr (ground (arith, le, e))
]
take-covers (suc n) x [] k up m = inl m
take-covers (suc n) x (y ∷ ys) k up m = elim (Bool-cases (x == k)) [
  | inl e ↦ inl (rw e refl)
  | inr e ↦ elim (take-covers n y ys k up.1 (rw e at m)) [ inl h ↦ inl (rw e h) | inr h ↦ inr h ]
]
