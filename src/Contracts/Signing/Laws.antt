-- ===== src/Contracts/Signing/Laws.antt =====
-- What a verified message says: the round trip with `sign_message`, and the binding to the attempt,
-- the node and the body.
use rd_news.Prelude.{ℕ, ◌+◌, ◌≤◌, String, ◌≡◌, true, Option, none, some, List, arith, eq_refl}
use rd_news.Prelude.Int.{ℤ, pos, ◌+ℤ◌}
use rd_news.Contracts.Signing.{
  valid, Claim, text_claim, Binding, default_ttl_s, Crypto, verify_claims, verify_message,
  sign_message, signed_claims, is_text, in_window, good_lifetime,
}

is_text_refl : (s : String) → is_text (text_claim s) s ≡ true
is_text_refl s = eq_refl s

window_open :
    (now ttl_s later skew : ℕ)
    → now ≤ later + skew
    → later ≤ now + ttl_s + skew
    → in_window later skew (pos now) (pos (now + ttl_s)) ≡ true
window_open now ttl_s later skew h k = ground arith

lifetime_good :
    (now ttl_s : ℕ)
    → 1 ≤ ttl_s
    → ttl_s ≤ default_ttl_s
    → good_lifetime (pos now) (pos (now + ttl_s)) ≡ true
unfolding ◌+ℤ◌
lifetime_good now ttl_s h k = ground arith

-- The claims of `sign_message` pass every check inside their window.
signed_claims_verify :
    (int_of : Claim → Option ℤ) (str_of : Claim → String) (now ttl_s later skew : ℕ)
    (token_id : String) (b : Binding) (digest : String)
    → 1 ≤ ttl_s
    → ttl_s ≤ default_ttl_s
    → now ≤ later + skew
    → later ≤ now + ttl_s + skew
    → verify_claims int_of str_of none later skew b digest "Ed25519"
        (signed_claims now ttl_s token_id b digest)
      ≡ valid (record {
        binding = b;
        issued_at = pos now;
        expires_at = pos (now + ttl_s);
        token_id = str_of (text_claim token_id);
        body_sha256 = digest;
      })
unfolding verify_claims
signed_claims_verify int_of str_of now ttl_s later skew token_id b digest h1 h2 h3 h4 =
    rw (window_open now ttl_s later skew h3 h4, lifetime_good now ttl_s h1 h2) (simp eq_refl)

module _ (crypto : Crypto) where
  open crypto use {PrivateKey, PublicKey, encode, decode, body_digest, str_of}

  -- A message that `sign_message` signs with one key is verified with its partner, if the token
  -- decodes to what was encoded and the lifetime asked for is between one second and five minutes:
  -- for the same binding and body, at any time from the time of signing, less the clock skew, up to
  -- the token's lifetime and the skew later. The verified claims are those that were signed.
  pub verify_message-sign_message :
      (private : PrivateKey) (public : PublicKey) (body : List ℕ) (b : Binding)
      (ttl_s now later skew : ℕ) (token_id : String)
      → decode public (encode private (signed_claims now ttl_s token_id b (body_digest body)))
        ≡ some ("Ed25519", signed_claims now ttl_s token_id b (body_digest body))
      → 1 ≤ ttl_s
      → ttl_s ≤ default_ttl_s
      → now ≤ later + skew
      → later ≤ now + ttl_s + skew
      → (token : String) × (sign_message crypto private body b ttl_s now token_id ≡ valid token)
        × (verify_message crypto public token body b none later skew
            ≡ valid (record {
              binding = b;
              issued_at = pos now;
              expires_at = pos (now + ttl_s);
              token_id = str_of (text_claim token_id);
              body_sha256 = body_digest body;
            }))
  unfolding sign_message verify_message
  verify_message-sign_message private public body b ttl_s now later skew token_id law h1 h2 h3 h4 =
      (
        encode private (signed_claims now ttl_s token_id b (body_digest body)),
        ground arith,
        rw law (
            signed_claims_verify crypto.int_of str_of now ttl_s later skew token_id b
              (body_digest body) h1 h2 h3 h4),
      )
