-- ===== src/Access/Laws.antt =====
-- On what grounds a request is admitted (service.py of auth, dependencies.py).
use rd_news.Prelude.{
  ℕ, String, ◌≡◌, refl, sym, ap, true, not, ◌&&◌, Option, none, some, List, arith, eq_iff, ◌==◌,
  ==_iff, Bool-cases, inl, inr,
}
use mathlib.Core.Option.{some-injective}
use mathlib.Core.Path.{subst}
use rd_news.Table
use rd_news.Table.{Table, first_by, select}
use rd_news.Model.Result.{Result, ok, err}
use rd_news.Access.{
  Session, ApiKey, Accounts, Principal, Request, Service, Credential, text_or_empty, allows,
  credential_of, is_usable, is_due, touch, find_session, with_key, identify, authenticate,
}
use rd_news.Access.Admission.{
  admitted, same_cookie, valid_csrf, csrf_passes, needs_csrf, decide, require,
}
use rd_news.Access.Grounds.{Grounds, find_row-IsRow, identify-Grounds}

-- The header repeats the cookie, and is the secret of the session.
pub record ShowsCsrf (service : Service) (request : Request) (accounts : Accounts) : Type 0 where
  pub cookie : request.csrf_cookie ≡ some request.csrf_header
  pub session : Session
  pub session_id : ℕ
  pub there : Table.get session_id accounts.sessions ≡ some session
  pub of_cookie : session.token_hash ≡ service.hash_secret (text_or_empty request.session_cookie)
  pub secret : session.csrf_hash ≡ service.hash_secret request.csrf_header

-- Users and sessions stay, and of a key only the time of its last use changes.
pub record Kept (accounts accounts' : Accounts) : Type 0 where
  pub users : accounts'.users ≡ accounts.users
  pub sessions : accounts'.sessions ≡ accounts.sessions
  pub keys :
      (k : ℕ) (row : ApiKey)
      → Table.get k accounts'.keys ≡ some row
      → (was : ApiKey) × (Table.get k accounts.keys ≡ some was)
        × (row ≡ record was { last_used_at = row.last_used_at })

pub record Admitted (service : Service) (scopes : List String) (now : ℕ) (request : Request)
    (accounts : Accounts) (p : Principal) : Type 0 where
  pub grounds : Grounds service now accounts (credential_of request) p
  pub allowed : allows scopes p ≡ true
  pub csrf : needs_csrf request p ≡ true → ShowsCsrf service request accounts

same_cookie-eq :
    (header : String) (kept : Option String) → same_cookie header kept ≡ true → kept ≡ some header
same_cookie-eq header none h = absurd (ground arith)
same_cookie-eq header (some s) h = ap some (sym ((eq_iff header s).0 (ground arith)))

admitted-injective : {p q : Principal} → admitted p ≡ admitted q → p ≡ q
admitted-injective e = ground arith

Kept_refl : {accounts : Accounts} → Kept accounts accounts
Kept_refl = record { users = refl; sessions = refl; keys = λ k row there. (row, there, refl) }

Shows-same :
    (service : Service) (request : Request) (after before : Accounts)
    → after.sessions ≡ before.sessions
    → ShowsCsrf service request after
    → ShowsCsrf service request before
Shows-same service request after before same shown = record {
  cookie = shown.cookie;
  session = shown.session;
  session_id = shown.session_id;
  there = subst (λ t. Table.get shown.session_id t ≡ some shown.session) same shown.there;
  of_cookie = shown.of_cookie;
  secret = shown.secret;
}

module _ (service : Service) (now : ℕ) (accounts : Accounts) where
  csrf-Shows :
      (request : Request) (found : Option (ℕ × Session))
      → find_session service (text_or_empty request.session_cookie) accounts ≡ found
      → same_cookie request.csrf_header request.csrf_cookie ≡ true
      → valid_csrf service request found ≡ true
      → ShowsCsrf service request accounts
  csrf-Shows request none f same valid = absurd (ground arith)
  csrf-Shows request (some (j, s)) f same valid =
      let is_row = find_row-IsRow _ accounts.sessions (j, s) f in
      record {
        cookie = same_cookie-eq request.csrf_header request.csrf_cookie same;
        session = s;
        session_id = j;
        there = is_row.there;
        of_cookie = (eq_iff _ _).0 is_row.fits;
        secret = sym ((eq_iff _ _).0 (ground arith));
      }

  passes-Shows :
      (request : Request)
      → csrf_passes service request accounts ≡ true
      → ShowsCsrf service request accounts
  passes-Shows request passes = csrf-Shows request _ refl (ground arith) (ground arith)

  record AdmittedBy (scopes : List String) (request : Request) (found : Result (Option Principal))
      (p : Principal) : Type 0 where
    identified : found ≡ ok (some p)
    allowed : allows scopes p ≡ true
    csrf : needs_csrf request p ≡ true → csrf_passes service request accounts ≡ true

  decide-admitted :
      (scopes : List String) (request : Request) (found : Result (Option Principal)) (p : Principal)
      → decide service scopes request accounts found ≡ admitted p
      → AdmittedBy scopes request found p
  decide-admitted scopes request (err error) p e = absurd (ground arith)
  decide-admitted scopes request (ok none) p e = absurd (ground arith)
  decide-admitted scopes request (ok (some q)) p e = elim (Bool-cases (allows scopes q)) [
    | inr refusal ↦ absurd (let refused_here = rw refusal at e in ground arith)
    | inl granted ↦
        elim (Bool-cases (needs_csrf request q && not (csrf_passes service request accounts))) [
          | inl bad ↦ absurd (let refused_here = rw bad at (rw granted at e) in ground arith)
          | inr good ↦
              subst (AdmittedBy scopes request (ok (some q)))
                (admitted-injective (rw good at (rw granted at e)))
                record { identified = refl; allowed = granted; csrf = λ needed. ground arith }
        ]
  ]

  touch-Kept :
      (interval : Option ℕ) (k : ℕ) (row : ApiKey)
      → Table.get k accounts.keys ≡ some row
      → Kept accounts (touch interval now k row accounts)
  touch-Kept none k row there = Kept_refl
  touch-Kept (some interval) k row there =
      elim (Bool-cases (is_due interval now row.last_used_at)) [
        | inr early ↦ rw early Kept_refl
        | inl due ↦ rw due (record {
          users = refl;
          sessions = refl;
          keys = λ j row' here. elim (Bool-cases (k == j)) [
            | inr other ↦ (row', rw other at here, refl)
            | inl same ↦
                let now_used : record row { last_used_at = some now } ≡ row' =
                  some-injective _ _ (rw same at here) in
                (
                  row,
                  subst (λ i. Table.get i accounts.keys ≡ some row) ((==_iff k j).0 same) there,
                  subst (λ (r : ApiKey). r ≡ record row { last_used_at = r.last_used_at }) now_used
                      refl,
                )
          ];
        })
      ]

  with_key-Kept :
      (found : Option (ℕ × ApiKey))
      → ((k : ℕ) (row : ApiKey) → found ≡ some (k, row) → Table.get k accounts.keys ≡ some row)
      → Kept accounts (with_key service now found accounts).1
  with_key-Kept none here = Kept_refl
  with_key-Kept (some (k, row)) here = elim (Bool-cases (is_usable now row)) [
    | inl usable ↦ rw usable (touch-Kept service.touch_interval k row (here k row refl))
    | inr unusable ↦ rw unusable Kept_refl
  ]

  identify-Kept : (c : Credential) → Kept accounts (identify service now c accounts).1
  identify-Kept (Credential.key raw) =
      with_key-Kept _ (λ k row found. (find_row-IsRow _ accounts.keys (k, row) found).there)
  identify-Kept (Credential.token raw) = Kept_refl
  identify-Kept (Credential.cookie raw) = Kept_refl

-- A request that `require` admits shows, with the credential that the code reads of it, a usable
-- key by its digest, or a current token or an open session of a user who is active now, and the
-- principal has what the row gives: the scopes of the key, or those of the user's role as it
-- stands, whatever the token says. One of the scopes asked for, or "admin", is among them. A
-- session that changes something repeats its secret in the cookie and the header. Users and
-- sessions stay as they are, and of a key only the time of its last use may change.
pub require-Admitted :
    (service : Service) (scopes : List String) (now : ℕ) (request : Request) (accounts : Accounts)
    (p : Principal)
    → (require service scopes now request accounts).0 ≡ admitted p
    → Admitted service scopes now request accounts p
      × Kept accounts (require service scopes now request accounts).1
unfolding require
require-Admitted service scopes now request accounts p e =
    let found : Result (Option Principal) × Accounts = authenticate service now request accounts in
    let kept = identify-Kept service now accounts (credential_of request) in
    let by = decide-admitted service now found.1 scopes request found.0 p e in
    (
      record {
        grounds = identify-Grounds service now accounts (credential_of request) p by.identified;
        allowed = by.allowed;
        csrf = λ needed.
            Shows-same service request found.1 accounts kept.sessions
              (passes-Shows service now found.1 request (by.csrf needed));
      },
      kept,
    )
