-- ===== src/Tests/Requests.antt =====
-- An editor with a session, whose request changes something, and an account whose logins fail.
use rd_news.Prelude.{
  refl, ◌≡◌, none, some, arith, String, true, false, [], ◌∷◌, List, ◌+◌, ◌≤◌, ◌&&◌, ◌||◌, leb, ltb,
}
use rd_news.Prelude.Text.{is_empty, starts_lower, text_drop, left_strip, right_strip}
use rd_news.Table
use rd_news.Table.{first_by, select_keys}
use rd_news.Access.{User, Session, Accounts, Request, Service, Kind, Principal, user_principal}
use rd_news.Access.Admission.{admitted, refused, require}
use rd_news.Prelude.Sort.{sorted}
use rd_news.Prelude.Text.{text_le}
use rd_news.Access.Limits.{Policy, auth_rate_limited, cooldown, is_blocked, record_auth_failure}
use rd_news.Access.Limits.Lockout.{login_keys, failures, failures-limited}
use rd_news.Access.Laws.{Admitted, Kept, require-Admitted}

abbrev service : Service
service = record {
  hash_secret = λ s. s;
  issuer = record {
    issuer = "thirdnews";
    audience = "thirdnews-api";
    decode = λ s. none;
    uuid_of = λ s. none;
  };
  touch_interval = some 300;
}

abbrev editor : User
editor = record { email = "e@x"; full_name = none; role = "editor"; is_active = true }

abbrev opened : Session
opened = record {
  user_id = 1;
  token_hash = "t";
  csrf_hash = "c";
  expires_at = 500;
  revoked_at = none;
}

abbrev accounts : Accounts
accounts = record {
  users = Table.put 1 editor Table.empty;
  sessions = Table.put 2 opened Table.empty;
  keys = Table.empty;
}

abbrev posted : Request
posted = record {
  method = "POST";
  authorization = "";
  x_api_key = none;
  session_cookie = some "t";
  csrf_header = "c";
  csrf_cookie = some "c";
}

abbrev forged : Request
forged = record posted { csrf_header = "" }

abbrev the_editor : Principal
the_editor = user_principal Kind.session 1 editor

abbrev wanted : List String
wanted = "editor" ∷ "admin" ∷ []

editor_admitted : (require service wanted 100 posted accounts).0 ≡ admitted the_editor
unfolding require is_empty starts_lower first_by select_keys text_drop left_strip right_strip
editor_admitted = refl

require-Admitted_example :
    Admitted service wanted 100 posted accounts the_editor
    × Kept accounts (require service wanted 100 posted accounts).1
require-Admitted_example =
    require-Admitted service wanted 100 posted accounts the_editor editor_admitted

forged_refused : (require service wanted 100 forged accounts).0 ≡ refused 403
unfolding require is_empty starts_lower first_by select_keys text_drop left_strip right_strip
forged_refused = refl

late_refused : (require service wanted 500 posted accounts).0 ≡ refused 401
unfolding require is_empty starts_lower first_by select_keys text_drop left_strip right_strip
late_refused = refl

abbrev strict : Policy
strict = record { attempt_limit = 2; window = 900; base_cooldown = 60; max_cooldown = 3600 }

failures-limited_example :
    (auth_rate_limited
        (login_keys "a" "i")
        200
        (failures strict (login_keys "a" "i") (100 ∷ 110 ∷ 120 ∷ []) (λ k. none))
      ≡ ((leb 2 (1 + 2) && ltb 200 (120 + cooldown strict (1 + 2)))
          || (is_blocked 200 (
                failures strict (login_keys "a" "i") (100 ∷ 110 ∷ 120 ∷ []) (λ k. none) ("ip", "i"))
              || false)))
    × (cooldown strict (1 + 2) ≤ 3600)
failures-limited_example =
    failures-limited strict "a" "i" 100 (110 ∷ 120 ∷ []) (λ k. none) 200 refl
      (omega arith, (omega arith, tt))

third_failure_locks :
    auth_rate_limited
      (login_keys "a" "i")
      200
      (failures strict (login_keys "a" "i") (100 ∷ 110 ∷ 120 ∷ []) (λ k. none))
    ≡ true
unfolding record_auth_failure sorted text_le
third_failure_locks = refl
