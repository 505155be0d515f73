-- ===== src/Outbox/Validation.antt =====
-- `OutboxPublisher._validate_event`: the form of a topic, and no sensitive key anywhere in a payload.
pub mod Flat
use Prim.Native.Char.{code}
use rd_news.Prelude.{
  ℕ, zero, suc, ◌+◌, String, Bool, true, false, ◌&&◌, ◌||◌, List, [], ◌∷◌, leb, ◌==◌, any_of,
  if◌then◌else◌,
}
use rd_news.Model.Result.{Error, Result, ok, err, guard, other_error, ◌>>◌}
use rd_news.Outbox.Json.{Value, Items, Fields}

abbrev is_small : ℕ → Bool
is_small c = leb 97 c && leb c 122

abbrev is_digit : ℕ → Bool
is_digit c = leb 48 c && leb c 57

-- `[a-z0-9_.-]`
abbrev is_middle : ℕ → Bool
is_middle c = is_small c || is_digit c || c == 95 || c == 46 || c == 45

-- `[a-z0-9_.-]{0,n}[a-z0-9]`
unfoldable pub topic_end : ℕ → String → Bool
topic_end n String.[] = false
topic_end n (String.◌∷◌ c String.[]) = is_small (code c) || is_digit (code c)
topic_end zero (String.◌∷◌ c (String.◌∷◌ d s)) = false
topic_end (suc n) (String.◌∷◌ c (String.◌∷◌ d s)) =
    let rest = topic_end n (String.◌∷◌ d s) in is_middle (code c) && rest

-- `_TOPIC.fullmatch(topic)`
unfoldable pub is_topic : String → Bool
is_topic String.[] = false
is_topic (String.◌∷◌ c s) = is_small (code c) && topic_end 118 s

-- `str.lower` of a code point, as far as the result can be an ASCII letter: 8490 is the Kelvin sign.
abbrev pub lower : ℕ → ℕ
lower c = if leb 65 c && leb c 90 then c + 32 else if c == 8490 then 107 else c

-- `key.lower() == word`, for a word of small letters
unfoldable pub lowers_to : String → String → Bool
lowers_to String.[] String.[] = true
lowers_to (String.◌∷◌ c s) (String.◌∷◌ d t) =
    let rest = lowers_to s t in lower (code c) == code d && rest
lowers_to (String.◌∷◌ c s) String.[] = false
lowers_to String.[] (String.◌∷◌ d t) = false

abbrev pub sensitive_keys : List String
sensitive_keys =
    "body" ∷ "body_md" ∷ "text" ∷ "raw" ∷ "raw_payload" ∷ "request" ∷ "response" ∷ "token"
    ∷ "secret" ∷ []

unfoldable pub is_sensitive : String → Bool
is_sensitive key = any_of (lowers_to key) sensitive_keys

abbrev pub value_error : Error
value_error = other_error "ValueError"

-- `inspect`
unfoldable mutual
  pub inspect : Value → Result (Unit {0})
  inspect Value.null = ok tt
  inspect (Value.text s) = ok tt
  inspect (Value.whole n) = ok tt
  inspect (Value.bool b) = ok tt
  inspect (Value.real n is_null) = ok tt
  inspect Value.not_finite = err value_error
  inspect (Value.items xs) = inspect_items xs
  inspect (Value.object fs) = inspect_fields fs
  inspect Value.other = err value_error

  pub inspect_items : Items → Result (Unit {0})
  inspect_items Items.nil = ok tt
  inspect_items (Items.cons x xs) = inspect x >> inspect_items xs

  pub inspect_fields : Fields → Result (Unit {0})
  inspect_fields Fields.end = ok tt
  inspect_fields (Fields.field key value rest) =
      if is_sensitive key then err value_error else inspect value >> inspect_fields rest

-- `_validate_event`
unfoldable pub validate_event : String → Fields → Result (Unit {0})
validate_event topic payload = guard (is_topic topic) value_error >> inspect_fields payload
