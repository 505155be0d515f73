-- ===== src/Access/Limits/Lockout.antt =====
-- How failed logins lock an account out (auth_account_repository.py).
use rd_news.Prelude.{
  ℕ, suc, ◌+◌, ◌≤◌, ◌<◌, String, ◌≡◌, refl, ap, ◌∙◌, Bool, true, false, ◌&&◌, ◌||◌, Option, none,
  some, List, [], ◌∷◌, length, All, leb, ltb, eq_refl, Bool-cases, inl, inr, arith,
}
use rd_news.Prelude.Sort.{sorted}
use rd_news.Prelude.Text.{text_le}
use rd_news.Access.Limits.{
  RateLimit, Key, Limits, Policy, is_blocked, auth_rate_limited, cooldown, blocked, failed,
  record_auth_failure,
}

-- The keys of a login: `rate_limit_identifiers`.
abbrev pub login_keys : String → String → List Key
login_keys account ip = ("account", account) ∷ ("ip", ip) ∷ []

-- Failed logins, one after the other.
abbrev pub failures : Policy → List Key → List ℕ → Limits → Limits
failures policy keys [] limits = limits
failures policy keys (moment ∷ later) limits =
    failures policy keys later (record_auth_failure policy moment keys limits)

abbrev pub last_of : ℕ → List ℕ → ℕ
last_of moment [] = moment
last_of moment (t ∷ later) = last_of t later

-- There is no row, or its window is over.
abbrev pub is_fresh : ℕ → ℕ → Option RateLimit → Bool
is_fresh window moment none = true
is_fresh window moment (some row) = leb (row.window_started_at + window) moment

abbrev row_at : (policy : Policy) (start count last : ℕ) → RateLimit
row_at policy start count last =
    blocked policy last
      (record { failure_count = count; window_started_at = start; blocked_until = none })

fresh-failed :
    (policy : Policy) (moment : ℕ) (row : Option RateLimit)
    → is_fresh policy.window moment row ≡ true
    → failed policy moment row ≡ row_at policy moment 1 moment
fresh-failed policy moment none fresh = refl
fresh-failed policy moment (some row) fresh = rw fresh refl

next-failed :
    (policy : Policy) (start count last moment : ℕ)
    → moment < start + policy.window
    → failed policy moment (some (row_at policy start count last))
      ≡ row_at policy start (suc count) moment
next-failed policy start count last moment inside =
    let still : leb (start + policy.window) moment ≡ false = ground arith in
    elim (Bool-cases (ltb count policy.attempt_limit)) [
      | inl few ↦ rw few (rw still refl)
      | inr many ↦
          let more : ltb (suc count) policy.attempt_limit ≡ false = ground arith in
          rw many (rw still (rw more refl))
    ]

account_row :
    (policy : Policy) (moment : ℕ) (account ip : String) (limits : Limits)
    → record_auth_failure policy moment (login_keys account ip) limits ("account", account)
      ≡ some (failed policy moment (limits ("account", account)))
unfolding record_auth_failure sorted text_le
account_row policy moment account ip limits = rw (eq_refl account) refl

failures_row :
    (policy : Policy) (account ip : String) (start count last : ℕ) (later : List ℕ)
    (limits : Limits)
    → All (λ t. t < start + policy.window) later
    → limits ("account", account) ≡ some (row_at policy start count last)
    → failures policy (login_keys account ip) later limits ("account", account)
      ≡ some (row_at policy start (count + length later) (last_of last later))
failures_row policy account ip start count last [] limits inside there =
    there ∙ ap (λ n. some (row_at policy start n last)) (omega arith)
failures_row policy account ip start count last (t ∷ later) limits inside there =
    failures_row policy account ip start (suc count) t later
      (record_auth_failure policy t (login_keys account ip) limits) inside.1
      (account_row policy t account ip limits
        ∙ ap some (ap (failed policy t) there ∙ next-failed policy start count last t inside.0))
    ∙ ap (λ n. some (row_at policy start n (last_of t later))) (omega arith)

row-is_blocked :
    (policy : Policy) (start count last now : ℕ)
    → is_blocked now (some (row_at policy start count last))
      ≡ (leb policy.attempt_limit count && ltb now (last + cooldown policy count))
row-is_blocked policy start count last now = elim (Bool-cases (ltb count policy.attempt_limit)) [
  | inl few ↦
      let below : leb policy.attempt_limit count ≡ false = ground arith in rw few (rw below refl)
  | inr many ↦
      let reached : leb policy.attempt_limit count ≡ true = ground arith in
      rw many (rw reached refl)
]

-- Logins of an account fail, the first outside any window of the account and the later ones before
-- the window that it starts is over. Then a login of the account from this address is limited
-- exactly if the failures are as many as the policy allows and the cooldown of their number has not
-- passed since the last of them, or if the address is blocked of its own; and the cooldown is at
-- most the longest of the policy.
pub failures-limited :
    (policy : Policy) (account ip : String) (first : ℕ) (later : List ℕ) (limits : Limits) (now : ℕ)
    → is_fresh policy.window first (limits ("account", account)) ≡ true
    → All (λ t. t < first + policy.window) later
    → (auth_rate_limited
          (login_keys account ip)
          now
          (failures policy (login_keys account ip) (first ∷ later) limits)
        ≡ ((leb policy.attempt_limit (1 + length later)
              && ltb now (last_of first later + cooldown policy (1 + length later)))
            || (is_blocked now
                  (failures policy (login_keys account ip) (first ∷ later) limits ("ip", ip))
                || false)))
      × (cooldown policy (1 + length later) ≤ policy.max_cooldown)
failures-limited policy account ip first later limits now fresh inside = (
  ap
      (λ b.
        b
        || (is_blocked now
              (failures policy (login_keys account ip) (first ∷ later) limits ("ip", ip))
            || false))
      (ap (is_blocked now) (
          failures_row policy account ip first 1 first later
            (record_auth_failure policy first (login_keys account ip) limits) inside
            (account_row policy first account ip limits
              ∙ ap some (fresh-failed policy first _ fresh)))
        ∙ row-is_blocked policy first (1 + length later) (last_of first later) now),
  omega arith,
)
