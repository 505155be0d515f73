-- ===== src/Model/Result.antt =====
-- The errors that the services raise, and the results of methods that may raise. A method that runs
-- in one transaction returns no store with an error: the transaction is rolled back.
-- Code: services/main/lib/interactor/errors.
use rd_news.Prelude.{arith, String, ◌≡◌, refl, Bool, true, false, Option, none, some}

pub data Error : Type 0 where
  stale_attempt : Error
  classifier_protocol : String → Error
  permission : String → Error
  conflict : String → Error
  not_found : String → Error
  validation : String → Error
  key_error : String → Error
  other_error : String → Error

-- `type(error).__name__`
abbrev pub error_name : Error → String
error_name stale_attempt = "StaleAttemptError"
error_name (classifier_protocol _) = "ClassifierProtocolError"
error_name (permission _) = "PermissionError"
error_name (conflict _) = "ConflictError"
error_name (not_found _) = "NotFoundError"
error_name (validation _) = "ValidationError"
error_name (key_error _) = "KeyError"
error_name (other_error name) = name

pub data Result {ℓ} (Reply : Type ℓ) : Type ℓ where
  err : Error → Result Reply
  ok : Reply → Result Reply

-- A row that must be there.
abbrev pub require {ℓ} : {Row : Type ℓ} → Option Row → Error → Result Row
require (some row) error = ok row
require none error = err error

-- `if not condition: raise error`
abbrev pub guard : (condition : Bool) (error : Error) → Result (Unit {0})
guard false error = err error
guard true error = ok tt

-- An error ends the method.
infixl 5 ◌>>=◌
abbrev pub ◌>>=◌ {ℓ κ} :
    {Row : Type ℓ} {Reply : Type κ} → Result Row → (Row → Result Reply) → Result Reply
err raised >>= rest = err raised
ok row >>= rest = rest row

infixl 5 ◌>>◌
abbrev pub ◌>>◌ {ℓ} : {Reply : Type ℓ} → Result (Unit {0}) → Result Reply → Result Reply
err raised >> rest = err raised
ok passed >> rest = rest

pub ok-injective {ℓ} : {Row : Type ℓ} {row other : Row} → ok row ≡ ok other → row ≡ other
ok-injective h = ground arith

-- A method that returns has passed each of its steps.
pub bind-ok {ℓ κ} :
    {Row : Type ℓ} {Reply : Type κ} (first : Result Row) (rest : Row → Result Reply) (reply : Reply)
    → (first >>= rest) ≡ ok reply
    → (row : Row) × (first ≡ ok row) × (rest row ≡ ok reply)
bind-ok (err error) rest reply e = absurd (ground arith)
bind-ok (ok row) rest reply e = (row, refl, e)

pub then-ok {ℓ} :
    {Reply : Type ℓ} (first : Result (Unit {0})) (rest : Result Reply) (reply : Reply)
    → (first >> rest) ≡ ok reply
    → (first ≡ ok tt) × (rest ≡ ok reply)
then-ok (err error) rest reply e = absurd (ground arith)
then-ok (ok tt) rest reply e = (refl, e)

pub guard-ok : (condition : Bool) (error : Error) → guard condition error ≡ ok tt → condition ≡ true
guard-ok true error e = refl
guard-ok false error e = absurd (ground arith)
