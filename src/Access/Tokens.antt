-- ===== src/Access/Tokens.antt =====
-- The tokens of users: `verify_token` of infra/clients/auth/service.py. Of the principal that it
-- returns only the user is modelled; `authenticate` reads no other field.
use rd_news.Prelude.{
  ℕ, String, Bool, true, false, not, ◌&&◌, Option, none, some, str_eq, if◌then◌else◌, ◌||◌,
}
use rd_news.Prelude.Int.{ℤ, pos, leb_ℤ}
use rd_news.Prelude.Text.{is_empty}
use rd_news.Model.Result.{Result, ok, err, other_error}
use rd_news.Outbox.Json.{Value, Items, Fields, field_of, is_zero}

-- `decode token` is the claims of a token that the public key verifies, or nothing where the JWT
-- library raises or there is no key; `uuid_of` is `uuid.UUID(text)`.
pub record Issuer : Type 0 where
  pub issuer : String
  pub audience : String
  pub decode : String → Option Fields
  pub uuid_of : String → Option ℕ

abbrev pub is_text : String → Option Value → Bool
is_text s (some (Value.text t)) = str_eq t s
is_text s _ = false

unfoldable pub has_text : String → Items → Bool
has_text s Items.nil = false
has_text s (Items.cons x xs) = let rest = has_text s xs in is_text s (some x) || rest

abbrev pub valid_audience : String → Option Value → Bool
valid_audience audience (some (Value.text s)) = str_eq s audience
valid_audience audience (some (Value.items xs)) = has_text audience xs
valid_audience audience _ = false

-- The value of an `int`, which a `bool` is too.
abbrev pub int_of : Option Value → Option ℤ
int_of (some (Value.whole n)) = some n
int_of (some (Value.bool true)) = some (pos 1)
int_of (some (Value.bool false)) = some (pos 0)
int_of _ = none

abbrev pub is_later : ℕ → Option ℤ → Bool
is_later now none = false
is_later now (some n) = not (leb_ℤ n (pos now))

-- Signed by the issuer for the audience, and neither expired nor from later.
abbrev pub is_current : Issuer → ℕ → Fields → Bool
is_current issuer now claims =
    is_text issuer.issuer (field_of "iss" claims)
    && valid_audience issuer.audience (field_of "aud" claims)
    && is_later now (int_of (field_of "exp" claims))
    && not (is_later now (int_of (field_of "nbf" claims)))

-- `uuid.UUID(claims["user_id"]) if claims.get("user_id") else None`
abbrev pub user_of : (String → Option ℕ) → Option Value → Result (Option ℕ)
user_of uuid_of none = ok none
user_of uuid_of (some Value.null) = ok none
user_of uuid_of (some (Value.text s)) =
    if is_empty s
    then ok none
    else elim (uuid_of s) [ none ↦ err (other_error "ValueError") | some k ↦ ok (some k) ]
user_of uuid_of (some (Value.whole n)) =
    if is_zero n then ok none else err (other_error "AttributeError")
user_of uuid_of (some (Value.bool b)) = if b then err (other_error "AttributeError") else ok none
user_of uuid_of (some (Value.real n is_null)) =
    if is_null then ok none else err (other_error "AttributeError")
user_of uuid_of (some (Value.items Items.nil)) = ok none
user_of uuid_of (some (Value.object Fields.end)) = ok none
user_of uuid_of (some _) = err (other_error "AttributeError")

abbrev pub verify_claims : Issuer → ℕ → Option Fields → Result (Option ℕ)
verify_claims issuer now none = ok none
verify_claims issuer now (some claims) =
    if is_current issuer now claims
    then user_of issuer.uuid_of (field_of "user_id" claims)
    else ok none

-- The user of a token, if the token is good.
abbrev pub verify_token : Issuer → ℕ → String → Result (Option ℕ)
verify_token issuer now token = verify_claims issuer now (issuer.decode token)
