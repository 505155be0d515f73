-- ===== src/Contracts/Signing/Bound.antt =====
-- A token is verified for one binding and one body only.
use rd_news.Prelude.{
  ℕ, String, ◌≡◌, refl, sym, ◌∙◌, ap, Bool, true, false, ◌&&◌, Option, none, some, List, arith,
  str_eq, eq_iff,
}
use rd_news.Prelude.Int.{ℤ}
use rd_news.Contracts.Signing.{
  Verified, valid, rejected, Claim, absent, text_claim, number, other, Claims, Binding,
  SignedMessageClaims, Crypto, verify_claims, verify_message, verify_decoded, check, binds,
  has_required, time_claim, in_window, good_lifetime, ◌>>=◌, SignatureError, is_text,
}

-- The claims say the binding and the digest.
pub record Says (c : Claims) (b : Binding) (digest : String) : Type 0 where
  pub iss : c.iss ≡ text_claim b.issuer
  pub aud : c.aud ≡ text_claim b.audience
  pub job_id : c.job_id ≡ text_claim b.job_id
  pub attempt_id : c.attempt_id ≡ text_claim b.attempt_id
  pub node_id : c.node_id ≡ text_claim b.node_id
  pub body_sha256 : c.body_sha256 ≡ text_claim digest

is_text-eq : (c : Claim) (s : String) → is_text c s ≡ true → c ≡ text_claim s
is_text-eq absent s h = cc
is_text-eq (text_claim t) s h = ap text_claim ((eq_iff t s).0 h)
is_text-eq (number n) s h = cc
is_text-eq other s h = cc

&&-left : (a b : Bool) → (a && b) ≡ true → a ≡ true
&&-left true b h = refl
&&-left false b h = h

&&-right : (a b : Bool) → (a && b) ≡ true → b ≡ true
&&-right true b h = h
&&-right false b h = cc

binds-Says :
    (c : Claims) (b : Binding) (digest : String) → binds c b digest ≡ true → Says c b digest
binds-Says c b digest h = record {
  iss = is_text-eq _ _ (ground arith);
  aud = is_text-eq _ _ (ground arith);
  job_id = is_text-eq _ _ (ground arith);
  attempt_id = is_text-eq _ _ (ground arith);
  node_id = is_text-eq _ _ (ground arith);
  body_sha256 = is_text-eq _ _ (ground arith);
}

check-valid :
    {A : Type 0} (b : Bool) (e : SignatureError) (k : Unit {0} → Verified A) {r : A}
    → (check b e >>= k) ≡ valid r
    → (b ≡ true) × (k tt ≡ valid r)
check-valid true e k h = (refl, h)
check-valid false e k h = cc

bind-valid :
    {A B : Type 0} (m : Verified A) (f : A → Verified B) {r : B}
    → (m >>= f) ≡ valid r
    → (a : A) × (f a ≡ valid r)
bind-valid (valid a) f h = (a, h)
bind-valid (rejected e) f h = cc

verify_claims-binds :
    (int_of : Claim → Option ℤ) (str_of : Claim → String)
    (replay_guard : Option (String → ℤ → Bool)) (current skew : ℕ) (b : Binding)
    (digest algorithm : String) (c : Claims) {r : SignedMessageClaims}
    → verify_claims int_of str_of replay_guard current skew b digest algorithm c ≡ valid r
    → binds c b digest ≡ true
unfolding verify_claims
verify_claims-binds int_of str_of replay_guard current skew b digest algorithm c h =
    let (_, h₁) = check-valid (str_eq algorithm "Ed25519") _ _ h in
    let (_, h₂) = check-valid (has_required c) _ _ h₁ in
    let (issued_at, h₃) = bind-valid (time_claim int_of c.iat) _ h₂ in
    let (expires_at, h₄) = bind-valid (time_claim int_of c.exp) _ h₃ in
    let (_, h₅) = check-valid (in_window current skew issued_at expires_at) _ _ h₄ in
    let (_, h₆) = check-valid (good_lifetime issued_at expires_at) _ _ h₅ in
    (check-valid (binds c b digest) _ _ h₆).0

text_claim-injective : {s t : String} → text_claim s ≡ text_claim t → s ≡ t
text_claim-injective h = ground arith

Says-unique :
    (c : Claims) (a b : Binding) (d e : String) → Says c a d → Says c b e → (a ≡ b) × (d ≡ e)
Says-unique c a b d e h k = (
  λ i. record {
    issuer = text_claim-injective (sym h.iss ∙ k.iss) i;
    audience = text_claim-injective (sym h.aud ∙ k.aud) i;
    job_id = text_claim-injective (sym h.job_id ∙ k.job_id) i;
    attempt_id = text_claim-injective (sym h.attempt_id ∙ k.attempt_id) i;
    node_id = text_claim-injective (sym h.node_id ∙ k.node_id) i;
  },
  text_claim-injective (sym h.body_sha256 ∙ k.body_sha256),
)

-- The same for the decoded token.
decoded-binds :
    (int_of : Claim → Option ℤ) (str_of : Claim → String) (decoded : Option (String × Claims))
    (d d' : String) (b b' : Binding) (guard guard' : Option (String → ℤ → Bool))
    (now now' skew skew' : ℕ) {r r' : SignedMessageClaims}
    → verify_decoded int_of str_of guard now skew b d decoded ≡ valid r
    → verify_decoded int_of str_of guard' now' skew' b' d' decoded ≡ valid r'
    → (b ≡ b') × (d ≡ d')
decoded-binds int_of str_of none d d' b b' guard guard' now now' skew skew' h h' = cc
decoded-binds int_of str_of (some (algorithm, c)) d d' b b' guard guard' now now' skew skew' h h' =
    Says-unique c b b' d d'
      (binds-Says c b d (verify_claims-binds int_of str_of guard now skew b d algorithm c h))
      (binds-Says c b' d'
        (verify_claims-binds int_of str_of guard' now' skew' b' d' algorithm c h'))

module _ (crypto : Crypto) where
  open crypto use {PublicKey, decode, body_digest}

  -- A token that is verified for two bindings and two bodies, at any times, under one key, was
  -- verified for the same issuer, audience, job, attempt and node, and the bodies have one digest:
  -- a token is of no use for another attempt, node or body.
  pub verify_message-binds :
      (key : PublicKey) (token : String) (body body' : List ℕ) (b b' : Binding)
      (guard guard' : Option (String → ℤ → Bool)) (now now' skew skew' : ℕ)
      (r r' : SignedMessageClaims)
      → verify_message crypto key token body b guard now skew ≡ valid r
      → verify_message crypto key token body' b' guard' now' skew' ≡ valid r'
      → (b ≡ b') × (body_digest body ≡ body_digest body')
  unfolding verify_message
  verify_message-binds key token body body' b b' guard guard' now now' skew skew' r r' h h' =
      decoded-binds crypto.int_of crypto.str_of (decode key token) (body_digest body)
        (body_digest body') b b' guard guard' now now' skew skew' h h'
