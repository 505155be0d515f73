-- ===== src/Contracts/Signing.antt =====
-- Signed messages: `sign_message`, `bearer_token` of interactor/use_cases/sign_message.py and
-- `verify_message` of interactor/use_cases/verify_message.py. The JWT library and the digest are
-- parameters: `encode key claims` is the compact token, `decode key token` is the header's
-- algorithm and the claims, or nothing where the library raises.
pub mod Laws
pub mod Bound
use rd_news.Prelude.{
  ℕ, ◌+◌, ◌-◌, ◌≤◌, String, ◌≡◌, Bool, true, false, not, ◌&&◌, ◌||◌, Option, none, some, List, [],
  ◌∷◌, leb, ltb, ◌==◌, str_eq, if◌then◌else◌,
}
use Prim.Native.Char.{code}
use rd_news.Prelude.Text.{is_empty, lower}
use rd_news.Prelude.Int.{ℤ, pos, sub_ℕ, ◌+ℤ◌, leb_ℤ}

pub data SignatureError : Type 0 where
  invalid_signature unexpected_algorithm missing_claims invalid_time : SignatureError
  expired invalid_lifetime claim_mismatch replay : SignatureError
  missing_header not_bearer bad_ttl : SignatureError

pub data Verified {ℓ} (Part : Type ℓ) : Type ℓ where
  rejected : SignatureError → Verified Part
  valid : Part → Verified Part

-- The first check that fails rejects the message.
abbrev pub check : (passed : Bool) (otherwise : SignatureError) → Verified (Unit {0})
check false otherwise = rejected otherwise
check true otherwise = valid tt

infixl 5 ◌>>=◌
abbrev pub ◌>>=◌ {ℓ κ} :
    {Part : Type ℓ} {Whole : Type κ} → Verified Part → (Part → Verified Whole) → Verified Whole
rejected reason >>= rest = rejected reason
valid part >>= rest = rest part

infixl 5 ◌>>◌
abbrev pub ◌>>◌ {ℓ} : {Whole : Type ℓ} → Verified (Unit {0}) → Verified Whole → Verified Whole
checked >> rest = checked >>= λ passed. rest

-- A claim of a decoded token: absent, a text, an integer, or another JSON value.
pub data Claim : Type 0 where
  absent : Claim
  text_claim : String → Claim
  number : ℤ → Claim
  other : Claim

pub record Claims : Type 0 where
  pub iss : Claim
  pub aud : Claim
  pub iat : Claim
  pub exp : Claim
  pub jti : Claim
  pub job_id : Claim
  pub attempt_id : Claim
  pub node_id : Claim
  pub body_sha256 : Claim

-- What a message is bound to.
pub record Binding : Type 0 where
  pub issuer : String
  pub audience : String
  pub job_id : String
  pub attempt_id : String
  pub node_id : String

pub record SignedMessageClaims : Type 0 where
  pub binding : Binding
  pub issued_at : ℤ
  pub expires_at : ℤ
  pub token_id : String
  pub body_sha256 : String

abbrev pub default_ttl_s : ℕ
default_ttl_s = 300

abbrev pub present : Claim → Bool
present absent = false
present _ = true

-- `required.issubset(claims)`
abbrev pub has_required : Claims → Bool
has_required c =
    present c.iss
    && present c.aud
    && present c.iat
    && present c.exp
    && present c.jti
    && present c.job_id
    && present c.attempt_id
    && present c.node_id
    && present c.body_sha256

-- `int(claim)`, of integers; the library's parameter `int_of` reads other JSON values
abbrev pub time_claim : (Claim → Option ℤ) → Claim → Verified ℤ
time_claim int_of (number n) = valid n
time_claim int_of claim = elim (int_of claim) [ none ↦ rejected invalid_time | some n ↦ valid n ]

-- `claims.get(name) == value`
abbrev pub is_text : Claim → String → Bool
is_text (text_claim s) value = str_eq s value
is_text _ value = false

abbrev pub binds : Claims → Binding → String → Bool
binds c b digest =
    is_text c.iss b.issuer
    && is_text c.aud b.audience
    && is_text c.job_id b.job_id
    && is_text c.attempt_id b.attempt_id
    && is_text c.node_id b.node_id
    && is_text c.body_sha256 digest

-- `issued_at > current + skew or expires_at < current - skew`, negated
abbrev pub in_window : ℕ → ℕ → ℤ → ℤ → Bool
in_window current skew issued_at expires_at =
    leb_ℤ issued_at (pos (current + skew)) && leb_ℤ (sub_ℕ current skew) expires_at

-- `expires_at <= issued_at or expires_at - issued_at > DEFAULT_TTL_S`, negated
abbrev pub good_lifetime : ℤ → ℤ → Bool
good_lifetime issued_at expires_at =
    not (leb_ℤ expires_at issued_at) && leb_ℤ expires_at (issued_at +ℤ pos default_ttl_s)

abbrev pub guard_allows : Option (String → ℤ → Bool) → String → ℤ → Bool
guard_allows none token_id expires_at = true
guard_allows (some guard) token_id expires_at = guard token_id expires_at

-- The part of `verify_message` after the token is decoded. `str_of` is `str(claims["jti"])`.
unfoldable pub verify_claims :
    (Claim → Option ℤ)
    → (Claim → String)
    → Option (String → ℤ → Bool)
    → ℕ
    → ℕ
    → Binding
    → String
    → String
    → Claims
    → Verified SignedMessageClaims
unfolding ◌+ℤ◌
verify_claims int_of str_of replay_guard current skew binding digest algorithm c = do
  check (str_eq algorithm "Ed25519") unexpected_algorithm
  check (has_required c) missing_claims
  issued_at ← time_claim int_of c.iat
  expires_at ← time_claim int_of c.exp
  check (in_window current skew issued_at expires_at) expired
  check (good_lifetime issued_at expires_at) invalid_lifetime
  check (binds c binding digest) claim_mismatch
  check (guard_allows replay_guard (str_of c.jti) expires_at) replay
  valid (record {
    binding = binding;
    issued_at = issued_at;
    expires_at = expires_at;
    token_id = str_of c.jti;
    body_sha256 = digest;
  })

abbrev pub verify_decoded :
    (Claim → Option ℤ)
    → (Claim → String)
    → Option (String → ℤ → Bool)
    → ℕ
    → ℕ
    → Binding
    → String
    → Option (String × Claims)
    → Verified SignedMessageClaims
verify_decoded int_of str_of replay_guard current skew binding digest none =
    rejected invalid_signature
verify_decoded int_of str_of replay_guard current skew binding digest (some (algorithm, c)) =
    verify_claims int_of str_of replay_guard current skew binding digest algorithm c

-- The claims that `sign_message` writes.
abbrev pub signed_claims : ℕ → ℕ → String → Binding → String → Claims
signed_claims issued_at ttl_s token_id b digest = record {
  iss = text_claim b.issuer;
  aud = text_claim b.audience;
  iat = number (pos issued_at);
  exp = number (pos (issued_at + ttl_s));
  jti = text_claim token_id;
  job_id = text_claim b.job_id;
  attempt_id = text_claim b.attempt_id;
  node_id = text_claim b.node_id;
  body_sha256 = text_claim digest;
}

-- The JWT library with keys of one type, the digest, and the conversions of JSON values.
pub record Crypto : Type 1 where
  pub PrivateKey : Type 0
  pub PublicKey : Type 0
  pub encode : PrivateKey → Claims → String
  pub decode : PublicKey → String → Option (String × Claims)
  pub body_digest : List ℕ → String
  pub int_of : Claim → Option ℤ
  pub str_of : Claim → String

module _ (crypto : Crypto) where
  open crypto use {PrivateKey, PublicKey, encode, decode, body_digest, int_of, str_of}

  unfoldable pub verify_message :
      PublicKey
      → String
      → List ℕ
      → Binding
      → Option (String → ℤ → Bool)
      → ℕ
      → ℕ
      → Verified SignedMessageClaims
  unfolding verify_claims
  verify_message key token body binding replay_guard now skew =
      verify_decoded int_of str_of replay_guard now skew binding (body_digest body)
        (decode key token)

  -- `token_id or uuid4()` is the caller's.
  unfoldable pub sign_message : PrivateKey → List ℕ → Binding → ℕ → ℕ → String → Verified String
  sign_message key body binding ttl_s now token_id = do
    check (leb 1 ttl_s && leb ttl_s default_ttl_s) bad_ttl
    valid (encode key (signed_claims now ttl_s token_id binding (body_digest body)))

-- `value.partition(" ")`: the text before the first space, and what follows it.
unfoldable pub before_space : String → String
before_space String.[] = String.[]
before_space (String.◌∷◌ c s) =
    let rest = before_space s in if code c == 32 then String.[] else String.◌∷◌ c rest

unfoldable pub after_space : String → Option String
after_space String.[] = none
after_space (String.◌∷◌ c s) = let rest = after_space s in if code c == 32 then some s else rest

-- `scheme.lower()` is "bearer"
unfoldable pub same_lower : String → String → Bool
same_lower String.[] String.[] = true
same_lower (String.◌∷◌ c s) (String.◌∷◌ d t) = lower (code c) == code d && same_lower s t
same_lower (String.◌∷◌ c s) String.[] = false
same_lower String.[] (String.◌∷◌ d t) = false

unfoldable pub bearer_token : Option String → Verified String
unfolding before_space after_space same_lower
bearer_token none = rejected missing_header
bearer_token (some value) = elim (after_space value) [
  | none ↦ rejected not_bearer
  | some token ↦
      if same_lower (before_space value) "bearer" && not (is_empty token)
      then valid token
      else rejected not_bearer
]
