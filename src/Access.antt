-- ===== src/Access.antt =====
-- Who may do what: `AuthService.authenticate` of infra/clients/auth/service.py with its rows, the
-- principal of dto/principal.py.
pub mod Tokens
pub mod Limits
pub mod Admission
pub mod Grounds
pub mod Laws
use rd_news.Prelude.{
  ℕ, ◌+◌, String, Bool, true, false, not, ◌&&◌, ◌||◌, Option, none, some, List, [], ◌∷◌, leb, ltb,
  ◌==◌, str_eq, if◌then◌else◌, is_none, any_of,
}
use rd_news.Prelude.Text.{is_empty, starts_lower, text_drop, strip}
use rd_news.Prelude.Uuid.{uuid_text}
use rd_news.Table
use rd_news.Table.{Table, first_by, select}
use rd_news.Model.Result.{Error, Result, ok, err}
use rd_news.Outbox.Json.{Fields}
use rd_news.Access.Tokens.{Issuer, verify_token}

pub record User : Type 0 where
  pub email : String
  pub full_name : Option String
  pub role : String
  pub is_active : Bool

pub record Session : Type 0 where
  pub user_id : ℕ
  pub token_hash : String
  pub csrf_hash : String
  pub expires_at : ℕ
  pub revoked_at : Option ℕ

pub record ApiKey : Type 0 where
  pub name : String
  pub key_hash : String
  pub scopes : List String
  pub source_id : Option ℕ
  pub filter_preset : Fields
  pub enabled : Bool
  pub expires_at : Option ℕ
  pub revoked_at : Option ℕ
  pub last_used_at : Option ℕ

pub record Accounts : Type 0 where
  pub users : Table User
  pub sessions : Table Session
  pub keys : Table ApiKey

pub data Kind : Type 0 where
  jwt session api_key : Kind

pub record Principal : Type 0 where
  pub kind : Kind
  pub subject : String
  pub display_name : String
  pub scopes : List String
  pub user_id : Option ℕ
  pub source_id : Option ℕ
  pub role : Option String
  pub filter_preset : Fields

-- What is read of a request, a header that is missing being "" where the code reads it so.
pub record Request : Type 0 where
  pub method : String
  pub authorization : String
  pub x_api_key : Option String
  pub session_cookie : Option String
  pub csrf_header : String
  pub csrf_cookie : Option String

-- The service: the digest, the verification of tokens, and the interval at which
-- a use of a key is noted, where a database is bound.
pub record Service : Type 0 where
  pub hash_secret : String → String
  pub issuer : Issuer
  pub touch_interval : Option ℕ

abbrev pub text_or_empty : Option String → String
text_or_empty none = ""
text_or_empty (some s) = s

-- `p.allows(*scopes)`
abbrev pub allows : List String → Principal → Bool
allows scopes p =
    any_of (str_eq "admin") p.scopes || any_of (λ scope. any_of (str_eq scope) p.scopes) scopes

-- `AUTH_ROLE_SCOPES.get(role, frozenset({"read"}))`
abbrev pub role_scopes : String → List String
role_scopes role =
    if str_eq role "admin"
    then "read" ∷ "ingest" ∷ "editor" ∷ "admin" ∷ "raw_audit" ∷ []
    else if str_eq role "editor"
    then "read" ∷ "editor" ∷ []
    else "read" ∷ []

abbrev pub name_or : Option String → String → String
name_or none email = email
name_or (some name) email = if is_empty name then email else name

abbrev pub user_principal : Kind → ℕ → User → Principal
user_principal kind k user = record {
  kind = kind;
  subject = user.email;
  display_name = name_or user.full_name user.email;
  scopes = role_scopes user.role;
  user_id = some k;
  source_id = none;
  role = some user.role;
  filter_preset = Fields.end;
}

-- The row that a unique column finds.
abbrev pub find_row : {Row : Type 0} → (ℕ → Row → Bool) → Table Row → Option (ℕ × Row)
find_row p t = first_by (λ x y. false) (select p t)

pub data Credential : Type 0 where
  key token : String → Credential
  cookie : String → Credential

abbrev pub key_of : Request → String
key_of request =
    let header = text_or_empty request.x_api_key in
    if is_empty header && starts_lower "apikey " request.authorization
    then strip (text_drop 7 request.authorization)
    else header

abbrev pub credential_of : Request → Credential
credential_of request =
    if not (is_empty (key_of request))
    then key (key_of request)
    else if starts_lower "bearer " request.authorization
    then token (strip (text_drop 7 request.authorization))
    else cookie (text_or_empty request.session_cookie)

abbrev pub is_usable : ℕ → ApiKey → Bool
is_usable now row =
    row.enabled
    && is_none row.revoked_at
    && elim row.expires_at [ none ↦ true | some expires_at ↦ ltb now expires_at ]

-- `last_used_at IS NULL OR last_used_at < moment - interval`
abbrev pub is_due : ℕ → ℕ → Option ℕ → Bool
is_due interval now none = true
is_due interval now (some last) = ltb (last + interval) now

abbrev pub touch : Option ℕ → ℕ → ℕ → ApiKey → Accounts → Accounts
touch none now k row accounts = accounts
touch (some interval) now k row accounts =
    if is_due interval now row.last_used_at
    then record accounts {
      keys = Table.put k (record row { last_used_at = some now }) accounts.keys;
    }
    else accounts

abbrev pub key_principal : ℕ → ApiKey → Principal
key_principal k row = record {
  kind = Kind.api_key;
  subject = uuid_text k;
  display_name = row.name;
  scopes = row.scopes;
  user_id = none;
  source_id = row.source_id;
  role = none;
  filter_preset = row.filter_preset;
}

abbrev pub with_key : Service → ℕ → Option (ℕ × ApiKey) → Accounts → Option Principal × Accounts
with_key service now none accounts = (none, accounts)
with_key service now (some (k, row)) accounts =
    if is_usable now row
    then (some (key_principal k row), touch service.touch_interval now k row accounts)
    else (none, accounts)

-- `_authenticate_api_key`
abbrev pub authenticate_api_key : Service → ℕ → String → Accounts → Option Principal × Accounts
authenticate_api_key service now raw_key accounts =
    with_key service now
      (find_row (λ k row. str_eq row.key_hash (service.hash_secret raw_key)) accounts.keys) accounts

-- A user that is there and is active.
abbrev pub active_principal : Kind → ℕ → Option User → Option Principal
active_principal kind k none = none
active_principal kind k (some user) =
    if user.is_active then some (user_principal kind k user) else none

abbrev pub with_token : Result (Option ℕ) → Accounts → Result (Option Principal)
with_token (err error) accounts = err error
with_token (ok none) accounts = ok none
with_token (ok (some k)) accounts = ok (active_principal Kind.jwt k (Table.get k accounts.users))

abbrev pub is_open : ℕ → Session → Bool
is_open now s = is_none s.revoked_at && ltb now s.expires_at

abbrev pub find_session : Service → String → Accounts → Option (ℕ × Session)
find_session service raw accounts =
    find_row (λ k s. str_eq s.token_hash (service.hash_secret raw)) accounts.sessions

abbrev pub with_session : ℕ → Option (ℕ × Session) → Accounts → Option Principal
with_session now none accounts = none
with_session now (some (k, s)) accounts =
    if is_open now s
    then active_principal Kind.session s.user_id (Table.get s.user_id accounts.users)
    else none

abbrev pub with_cookie : Service → ℕ → String → Accounts → Option Principal
with_cookie service now raw accounts =
    if is_empty raw then none else with_session now (find_session service raw accounts) accounts

abbrev pub identify : Service → ℕ → Credential → Accounts → Result (Option Principal) × Accounts
identify service now (key raw) accounts =
    let found = authenticate_api_key service now raw accounts in (ok found.0, found.1)
identify service now (token raw) accounts =
    (with_token (verify_token service.issuer now raw) accounts, accounts)
identify service now (cookie raw) accounts = (ok (with_cookie service now raw accounts), accounts)

abbrev pub authenticate : Service → ℕ → Request → Accounts → Result (Option Principal) × Accounts
authenticate service now request accounts = identify service now (credential_of request) accounts
