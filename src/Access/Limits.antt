-- ===== src/Access/Limits.antt =====
-- The limits on failed logins: `auth_rate_limited`, `record_auth_failure` and
-- `clear_account_auth_failures` of infra/storage/postgres/repositories/auth_account_repository.py.
pub mod Lockout
use rd_news.Prelude.{
  ℕ, suc, ◌+◌, ◌-◌, ◌*◌, ◌^◌, min, String, Bool, false, ◌&&◌, ◌||◌, Option, none, some, List, [],
  ◌∷◌, leb, ltb, str_eq, not, if◌then◌else◌, any_of,
}
use rd_news.Prelude.Text.{text_le}
use rd_news.Prelude.Sort.{sorted}

pub record RateLimit : Type 0 where
  pub failure_count : ℕ
  pub window_started_at : ℕ
  pub blocked_until : Option ℕ

-- A scope, "account" or "ip", and the digest of an identifier.
abbrev pub Key : Type 0
Key = String × String

-- The rows by their primary key.
abbrev pub Limits : Type 0
Limits = Key → Option RateLimit

pub record Policy : Type 0 where
  pub attempt_limit : ℕ
  pub window : ℕ
  pub base_cooldown : ℕ
  pub max_cooldown : ℕ

abbrev pub same_key : Key → Key → Bool
same_key (s, x) (t, y) = str_eq s t && str_eq x y

abbrev pub key_le : Key → Key → Bool
key_le (s, x) (t, y) = if str_eq s t then text_le x y else text_le s t

abbrev pub is_blocked : ℕ → Option RateLimit → Bool
is_blocked moment none = false
is_blocked moment (some row) = elim row.blocked_until [
  | none ↦ false
  | some until ↦ ltb moment until
]

abbrev pub auth_rate_limited : List Key → ℕ → Limits → Bool
auth_rate_limited keys moment limits = any_of (λ k. is_blocked moment (limits k)) keys

abbrev pub first_failure : ℕ → RateLimit
first_failure moment = record {
  failure_count = 1;
  window_started_at = moment;
  blocked_until = none;
}

-- The upsert: a window that is over starts again.
abbrev pub counted : ℕ → ℕ → Option RateLimit → RateLimit
counted window moment none = first_failure moment
counted window moment (some row) =
    if leb (row.window_started_at + window) moment
    then first_failure moment
    else record row { failure_count = suc row.failure_count }

abbrev pub exponent_max : ℕ
exponent_max = 20

abbrev pub cooldown : Policy → ℕ → ℕ
cooldown policy failures =
    min policy.max_cooldown
      (policy.base_cooldown * 2 ^ min (failures - policy.attempt_limit) exponent_max)

abbrev pub blocked : Policy → ℕ → RateLimit → RateLimit
blocked policy moment row =
    if ltb row.failure_count policy.attempt_limit
    then row
    else record row { blocked_until = some (moment + cooldown policy row.failure_count) }

abbrev pub failed : Policy → ℕ → Option RateLimit → RateLimit
failed policy moment row = blocked policy moment (counted policy.window moment row)

abbrev pub record_one : Policy → ℕ → Key → Limits → Limits
record_one policy moment k limits =
    let row = failed policy moment (limits k) in λ j. if same_key k j then some row else limits j

abbrev pub record_each : Policy → ℕ → List Key → Limits → Limits
record_each policy moment [] limits = limits
record_each policy moment (k ∷ ks) limits =
    record_each policy moment ks (record_one policy moment k limits)

unfoldable pub record_auth_failure : Policy → ℕ → List Key → Limits → Limits
record_auth_failure policy moment keys limits =
    record_each policy moment (sorted key_le keys) limits

-- `clear_account_auth_failures`
abbrev pub clear_account_auth_failures : String → Limits → Limits
clear_account_auth_failures identifier limits =
    λ k. if same_key ("account", identifier) k then none else limits k
