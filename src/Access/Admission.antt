-- ===== src/Access/Admission.antt =====
-- The dependencies `principal` and `require` of handlers/dependencies.py, with `valid_csrf`.
use rd_news.Prelude.{
  ℕ, String, Bool, true, false, not, ◌&&◌, ◌||◌, Option, none, some, List, str_eq, if◌then◌else◌,
}
use rd_news.Prelude.Text.{is_empty}
use rd_news.Model.Result.{Error, Result, ok, err}
use rd_news.Access.{
  Session, Accounts, Kind, Principal, Request, Service, text_or_empty, allows, find_session,
  authenticate,
}

-- The answer of the dependency: an HTTP status, an error that is raised, or the principal.
pub data Answer : Type 0 where
  refused : ℕ → Answer
  raised : Error → Answer
  admitted : Principal → Answer

abbrev pub is_safe : String → Bool
is_safe method = str_eq method "GET" || str_eq method "HEAD" || str_eq method "OPTIONS"

abbrev pub is_session : Kind → Bool
is_session Kind.session = true
is_session _ = false

-- `csrf and csrf == request.cookies.get("thirdnews_csrf")`
abbrev pub same_cookie : String → Option String → Bool
same_cookie header none = false
same_cookie header (some s) = not (is_empty header) && str_eq header s

-- `valid_csrf`
abbrev pub valid_csrf : Service → Request → Option (ℕ × Session) → Bool
valid_csrf service request none = false
valid_csrf service request (some (k, s)) =
    not (is_empty request.csrf_header)
    && not (is_empty (text_or_empty request.csrf_cookie))
    && str_eq request.csrf_header (text_or_empty request.csrf_cookie)
    && str_eq (service.hash_secret request.csrf_header) s.csrf_hash

abbrev pub csrf_passes : Service → Request → Accounts → Bool
csrf_passes service request accounts =
    same_cookie request.csrf_header request.csrf_cookie
    && valid_csrf service request
        (find_session service (text_or_empty request.session_cookie) accounts)

abbrev pub needs_csrf : Request → Principal → Bool
needs_csrf request p = not (is_safe request.method) && is_session p.kind

abbrev pub decide : Service → List String → Request → Accounts → Result (Option Principal) → Answer
decide service scopes request accounts (err error) = raised error
decide service scopes request accounts (ok none) = refused 401
decide service scopes request accounts (ok (some p)) =
    if not (allows scopes p)
    then refused 403
    else if needs_csrf request p && not (csrf_passes service request accounts)
    then refused 403
    else admitted p

-- `require(*scopes)`, after `principal`
unfoldable pub require : Service → List String → ℕ → Request → Accounts → Answer × Accounts
require service scopes now request accounts =
    let found = authenticate service now request accounts in
    (decide service scopes request found.1 found.0, found.1)
