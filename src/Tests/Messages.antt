-- ===== src/Tests/Messages.antt =====
-- Signed messages, under a library that knows one token.
use rd_news.Prelude.{String, ◌≡◌, refl, none, some, [], ◌∷◌, arith, str_eq, if◌then◌else◌}
use rd_news.Prelude.Int.{pos, ◌+ℤ◌}
use rd_news.Contracts.Signing.{
  Claim, text_claim, Claims, Binding, SignedMessageClaims, valid, Crypto, signed_claims,
  verify_claims, verify_message, sign_message,
}
use rd_news.Contracts.Signing.Laws.{verify_message-sign_message}
use rd_news.Contracts.Signing.Bound.{verify_message-binds}

abbrev bound : Binding
bound = record {
  issuer = "ai";
  audience = "main";
  job_id = "job";
  attempt_id = "attempt";
  node_id = "node";
}

abbrev known_claims : Claims
known_claims = signed_claims 100 60 "id" bound "digest"

abbrev claim_text : Claim → String
claim_text (text_claim s) = s
claim_text _ = ""

abbrev one_token : Crypto
one_token = record {
  PrivateKey = Unit {0};
  PublicKey = Unit {0};
  encode = λ key claims. "token";
  decode = λ key token. if str_eq token "token" then some ("Ed25519", known_claims) else none;
  body_digest = λ body. "digest";
  int_of = λ claim. none;
  str_of = claim_text;
}

verify_message-sign_message_example :
    (token : String) × (sign_message one_token tt (1 ∷ []) bound 60 100 "id" ≡ valid token)
    × (verify_message one_token tt token (1 ∷ []) bound none 120 5
        ≡ valid (record {
          binding = bound;
          issued_at = pos 100;
          expires_at = pos 160;
          token_id = "id";
          body_sha256 = "digest";
        }))
verify_message-sign_message_example =
    verify_message-sign_message one_token tt tt (1 ∷ []) bound 60 100 120 5 "id" refl (omega arith)
      (omega arith) (omega arith) (omega arith)

abbrev verified_claims : SignedMessageClaims
verified_claims = record {
  binding = bound;
  issued_at = pos 100;
  expires_at = pos 160;
  token_id = "id";
  body_sha256 = "digest";
}

token_verified :
    verify_message one_token tt "token" (1 ∷ []) bound none 120 5 ≡ valid verified_claims
unfolding verify_message verify_claims ◌+ℤ◌
token_verified = refl

verify_message-binds_example :
    (bound ≡ bound) × (one_token.body_digest (1 ∷ []) ≡ one_token.body_digest (1 ∷ []))
verify_message-binds_example =
    verify_message-binds one_token tt "token" (1 ∷ []) (1 ∷ []) bound bound none none 120 120 5 5
      verified_claims verified_claims token_verified token_verified
