-- ===== src/Access/Grounds.antt =====
-- What a request is admitted on (service.py of auth).
use rd_news.Prelude.{
  ℕ, String, ◌≡◌, refl, Bool, true, false, Option, none, some, arith, str_eq, eq_iff, Bool-cases,
  inl, inr,
}
use mathlib.Core.Option.{some-injective}
use mathlib.Core.Path.{subst}
use rd_news.Table
use rd_news.Table.{Table, first_by, select}
use rd_news.Table.Laws.{IsRow, first_by-select}
use rd_news.Model.Result.{Result, ok, err, ok-injective}
use rd_news.Prelude.Text.{is_empty}
use rd_news.Outbox.Json.{Fields, field_of}
use rd_news.Access.Tokens.{is_current, user_of, verify_claims}
use rd_news.Access.{
  User, Session, ApiKey, Accounts, Kind, Principal, Service, Credential, user_principal,
  key_principal, is_usable, is_open, find_row, with_key, active_principal, with_token, with_session,
  identify,
}

-- The stored key, the verified token or the open session that a principal stands for; users are
-- active, and their scopes are those of their role as it stands.
pub data Grounds (service : Service) (now : ℕ) (accounts : Accounts)
    : Credential → Principal → Type 0 where
  by_key :
      (raw : String) (k : ℕ) (row : ApiKey)
      → Table.get k accounts.keys ≡ some row
      → row.key_hash ≡ service.hash_secret raw
      → is_usable now row ≡ true
      → Grounds service now accounts (Credential.key raw) (key_principal k row)
  by_token :
      (raw : String) (claims : Fields) (k : ℕ) (user : User)
      → service.issuer.decode raw ≡ some claims
      → is_current service.issuer now claims ≡ true
      → user_of service.issuer.uuid_of (field_of "user_id" claims) ≡ ok (some k)
      → Table.get k accounts.users ≡ some user
      → user.is_active ≡ true
      → Grounds service now accounts (Credential.token raw) (user_principal Kind.jwt k user)
  by_cookie :
      (raw : String) (j : ℕ) (s : Session) (user : User)
      → Table.get j accounts.sessions ≡ some s
      → s.token_hash ≡ service.hash_secret raw
      → is_open now s ≡ true
      → Table.get s.user_id accounts.users ≡ some user
      → user.is_active ≡ true
      → Grounds service now accounts
          (Credential.cookie raw)
          (user_principal Kind.session s.user_id user)

pub find_row-IsRow :
    {Row : Type 0} (p : ℕ → Row → Bool) (t : Table Row) (x : ℕ × Row)
    → find_row p t ≡ some x
    → IsRow p t.row x
find_row-IsRow p t x e = first_by-select (λ a b. false) p t x e

active_principal-some :
    (kind : Kind) (k : ℕ) (found : Option User) (p : Principal)
    → active_principal kind k found ≡ some p
    → (user : User) × (found ≡ some user)
      × (user.is_active ≡ true)
      × (user_principal kind k user ≡ p)
active_principal-some kind k none p e = absurd (ground arith)
active_principal-some kind k (some user) p e = elim (Bool-cases user.is_active) [
  | inl active ↦ (user, refl, active, some-injective _ _ (rw active at e))
  | inr inactive ↦ absurd (let none_here = rw inactive at e in ground arith)
]

module _ (service : Service) (now : ℕ) (accounts : Accounts) where
  with_key-Grounds :
      (raw : String) (found : Option (ℕ × ApiKey)) (p : Principal)
      → ((k : ℕ) (row : ApiKey)
          → found ≡ some (k, row)
          → IsRow (λ i r. str_eq r.key_hash (service.hash_secret raw)) accounts.keys.row (k, row))
      → (with_key service now found accounts).0 ≡ some p
      → Grounds service now accounts (Credential.key raw) p
  with_key-Grounds raw none p here e = absurd (ground arith)
  with_key-Grounds raw (some (k, row)) p here e = elim (Bool-cases (is_usable now row)) [
    | inl usable ↦
        let is_row = here k row refl in
        subst (Grounds service now accounts (Credential.key raw))
          (some-injective _ _ (rw usable at e))
          (by_key raw k row is_row.there ((eq_iff _ _).0 is_row.fits) usable)
    | inr unusable ↦ absurd (let none_here = rw unusable at e in ground arith)
  ]

  with_session-Grounds :
      (raw : String) (found : Option (ℕ × Session)) (p : Principal)
      → ((k : ℕ) (s : Session)
          → found ≡ some (k, s)
          → IsRow
              (λ i r. str_eq r.token_hash (service.hash_secret raw))
              accounts.sessions.row
              (k, s))
      → with_session now found accounts ≡ some p
      → Grounds service now accounts (Credential.cookie raw) p
  with_session-Grounds raw none p here e = absurd (ground arith)
  with_session-Grounds raw (some (j, s)) p here e = elim (Bool-cases (is_open now s)) [
    | inl still ↦
        let is_row = here j s refl in
        let (user, there, active, same) =
          active_principal-some Kind.session s.user_id (Table.get s.user_id accounts.users) p
            (rw still at e) in
        subst (Grounds service now accounts (Credential.cookie raw)) same
          (by_cookie raw j s user is_row.there ((eq_iff _ _).0 is_row.fits) still there active)
    | inr closed ↦ absurd (let none_here = rw closed at e in ground arith)
  ]

  user-Grounds :
      (raw : String) (claims : Fields) (who : Result (Option ℕ)) (p : Principal)
      → service.issuer.decode raw ≡ some claims
      → is_current service.issuer now claims ≡ true
      → user_of service.issuer.uuid_of (field_of "user_id" claims) ≡ who
      → with_token who accounts ≡ ok (some p)
      → Grounds service now accounts (Credential.token raw) p
  user-Grounds raw claims (err error) p d current u e = absurd (ground arith)
  user-Grounds raw claims (ok none) p d current u e = absurd (ground arith)
  user-Grounds raw claims (ok (some k)) p d current u e =
      let (user, there, active, same) =
        active_principal-some Kind.jwt k (Table.get k accounts.users) p (ok-injective e) in
      subst (Grounds service now accounts (Credential.token raw)) same
        (by_token raw claims k user d current u there active)

  claims-Grounds :
      (raw : String) (decoded : Option Fields) (p : Principal)
      → service.issuer.decode raw ≡ decoded
      → with_token (verify_claims service.issuer now decoded) accounts ≡ ok (some p)
      → Grounds service now accounts (Credential.token raw) p
  claims-Grounds raw none p d e = absurd (ground arith)
  claims-Grounds raw (some claims) p d e =
      elim (Bool-cases (is_current service.issuer now claims)) [
        | inr old ↦ absurd (let none_here = rw old at e in ground arith)
        | inl current ↦ user-Grounds raw claims _ p d current refl (rw current at e)
      ]

  pub identify-Grounds :
      (c : Credential) (p : Principal)
      → (identify service now c accounts).0 ≡ ok (some p)
      → Grounds service now accounts c p
  identify-Grounds (Credential.key raw) p e =
      with_key-Grounds raw _ p (λ k row found. find_row-IsRow _ accounts.keys (k, row) found)
        (ok-injective e)
  identify-Grounds (Credential.token raw) p e =
      claims-Grounds raw (service.issuer.decode raw) p refl e
  identify-Grounds (Credential.cookie raw) p e = elim (Bool-cases (is_empty raw)) [
    | inl empty ↦ absurd (let none_here = rw empty at e in ground arith)
    | inr full ↦
        with_session-Grounds raw _ p
          (λ k row found. find_row-IsRow _ accounts.sessions (k, row) found)
          (ok-injective (rw full at e))
  ]
