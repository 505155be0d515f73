-- ===== src/Outbox/Json.antt =====
-- The JSON values of an event's payload, and Python's `int(payload.get("revision") or 1)`.
use rd_news.Prelude.{String, Bool, false, Option, none, some, str_eq, if◌then◌else◌, ◌==◌}
use rd_news.Prelude.Int.{ℤ, pos}
use rd_news.Prelude.Text.{is_empty}
use rd_news.Model.Result.{Result, ok, err, require, other_error}

-- A finite float is known by `int(x)` and by whether it is zero; `other` is any value that JSON has
-- no form for.
mutual
  pub data Value : Type 0 where
    null : Value
    text : String → Value
    whole : ℤ → Value
    bool : Bool → Value
    real : ℤ → Bool → Value
    not_finite : Value
    items : Items → Value
    object : Fields → Value
    other : Value

  pub data Items : Type 0 where
    nil : Items
    cons : Value → Items → Items

  pub data Fields : Type 0 where
    end : Fields
    field : String → Value → Fields → Fields

-- `payload.get(name)`
unfoldable pub field_of : String → Fields → Option Value
field_of name end = none
field_of name (field key value rest) =
    let later = field_of name rest in if str_eq key name then some value else later

-- `payload.pop(name, None)`
unfoldable pub without : String → Fields → Fields
without name end = end
without name (field key value rest) =
    let later = without name rest in if str_eq key name then later else field key value later

abbrev pub is_zero : ℤ → Bool
is_zero (pos n) = n == 0
is_zero _ = false

-- `int(value or 1)`, for a value that passed the validation
unfoldable pub revision_of : (String → Option ℤ) → Option Value → Result ℤ
revision_of int_of none = ok (pos 1)
revision_of int_of (some Value.null) = ok (pos 1)
revision_of int_of (some (Value.text s)) =
    if is_empty s then ok (pos 1) else require (int_of s) (other_error "ValueError")
revision_of int_of (some (Value.whole n)) = ok (if is_zero n then pos 1 else n)
revision_of int_of (some (Value.bool b)) = ok (pos 1)
revision_of int_of (some (Value.real n is_null)) = ok (if is_null then pos 1 else n)
revision_of int_of (some Value.not_finite) = err (other_error "ValueError")
revision_of int_of (some (Value.items Items.nil)) = ok (pos 1)
revision_of int_of (some (Value.items (Items.cons x xs))) = err (other_error "TypeError")
revision_of int_of (some (Value.object Fields.end)) = ok (pos 1)
revision_of int_of (some (Value.object (Fields.field k v fs))) = err (other_error "TypeError")
revision_of int_of (some Value.other) = err (other_error "TypeError")
