-- ===== src/Outbox/Validation/Flat.antt =====
-- The walk of `_validate_event` against the flat lists of a payload's keys and scalar values.
use rd_news.Prelude.{
  ◌≡◌, refl, String, Bool, true, false, not, ◌&&◌, ◌||◌, List, [], ◌∷◌, ◌++◌, arith, any_of,
  Bool-cases, inl, inr,
}
use rd_news.Model.Result.{Result, ok, err, ◌>>◌}
use rd_news.Outbox.Json.{Value, Items, Fields}
use rd_news.Outbox.Validation.{
  inspect, inspect_items, inspect_fields, is_sensitive, is_topic, validate_event,
}

-- Every key of a payload, at any depth.
unfoldable mutual
  pub keys : Value → List String
  keys (Value.items xs) = item_keys xs
  keys (Value.object fs) = field_keys fs
  keys _ = []

  pub item_keys : Items → List String
  item_keys Items.nil = []
  item_keys (Items.cons x xs) = keys x ++ item_keys xs

  pub field_keys : Fields → List String
  field_keys Fields.end = []
  field_keys (Fields.field key value rest) = key ∷ keys value ++ field_keys rest

-- Every value of a payload that holds no other, at any depth.
unfoldable mutual
  pub scalars : Value → List Value
  scalars (Value.items xs) = item_scalars xs
  scalars (Value.object fs) = field_scalars fs
  scalars value = value ∷ []

  pub item_scalars : Items → List Value
  item_scalars Items.nil = []
  item_scalars (Items.cons x xs) = scalars x ++ item_scalars xs

  pub field_scalars : Fields → List Value
  field_scalars Fields.end = []
  field_scalars (Fields.field key value rest) = scalars value ++ field_scalars rest

-- A value that JSON cannot hold.
abbrev pub is_broken : Value → Bool
is_broken Value.not_finite = true
is_broken Value.other = true
is_broken _ = false

abbrev pub is_ok : Result (Unit {0}) → Bool
is_ok (ok done) = true
is_ok (err error) = false

abbrev pub is_clean : List String → List Value → Bool
is_clean ks vs = not (any_of is_sensitive ks) && not (any_of is_broken vs)

any_of-append {ℓ} :
    {A : Type ℓ} (p : A → Bool) (xs ys : List A)
    → any_of p (xs ++ ys) ≡ (any_of p xs || any_of p ys)
any_of-append p [] ys = refl
any_of-append p (x ∷ xs) ys = let rest = any_of-append p xs ys in ground arith

is_ok-both : (a b : Result (Unit {0})) → is_ok (a >> b) ≡ (is_ok a && is_ok b)
is_ok-both (ok done) b = refl
is_ok-both (err error) b = refl

is_clean-append :
    (ks ls : List String) (vs ws : List Value)
    → is_clean (ks ++ ls) (vs ++ ws) ≡ (is_clean ks vs && is_clean ls ws)
is_clean-append ks ls vs ws =
    rw (any_of-append is_sensitive ks ls) (rw (any_of-append is_broken vs ws) (ground arith))

mutual
  unfolding inspect keys scalars

  inspect-flat : (value : Value) → is_ok (inspect value) ≡ is_clean (keys value) (scalars value)
  inspect-flat Value.null = refl
  inspect-flat (Value.text s) = refl
  inspect-flat (Value.whole n) = refl
  inspect-flat (Value.bool b) = refl
  inspect-flat (Value.real n is_null) = refl
  inspect-flat Value.not_finite = refl
  inspect-flat (Value.items xs) = inspect_items-flat xs
  inspect-flat (Value.object fs) = inspect_fields-flat fs
  inspect-flat Value.other = refl

  inspect_items-flat :
      (xs : Items) → is_ok (inspect_items xs) ≡ is_clean (item_keys xs) (item_scalars xs)
  inspect_items-flat Items.nil = refl
  inspect_items-flat (Items.cons x xs) = rw (is_ok-both (inspect x) (inspect_items xs)) (
      rw (is_clean-append (keys x) (item_keys xs) (scalars x) (item_scalars xs))
        (rw (inspect-flat x) (rw (inspect_items-flat xs) refl)))

  inspect_fields-flat :
      (fs : Fields) → is_ok (inspect_fields fs) ≡ is_clean (field_keys fs) (field_scalars fs)
  inspect_fields-flat Fields.end = refl
  inspect_fields-flat (Fields.field key value rest) = elim (Bool-cases (is_sensitive key)) [
    | inl e ↦ rw e refl
    | inr e ↦ rw e (
        rw (is_ok-both (inspect value) (inspect_fields rest)) (
          rw (is_clean-append (keys value) (field_keys rest) (scalars value) (field_scalars rest))
            (rw (inspect-flat value) (rw (inspect_fields-flat rest) refl))))
  ]

-- An event is accepted just when its topic has the form of one, none of the keys of its payload is
-- sensitive, at any depth, and none of the values is one that JSON cannot hold.
pub validate_event-flat :
    (topic : String) (payload : Fields)
    → is_ok (validate_event topic payload)
      ≡ (is_topic topic && is_clean (field_keys payload) (field_scalars payload))
unfolding validate_event
validate_event-flat topic payload = elim (Bool-cases (is_topic topic)) [
  | inl e ↦ rw e (inspect_fields-flat payload)
  | inr e ↦ rw e refl
]
