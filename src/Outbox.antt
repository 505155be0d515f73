-- ===== src/Outbox.antt =====
-- `OutboxPublisher` of infra/clients/nats/outbox.py, which sends the rows of the outbox to the
-- message broker. The broker and Python's `int` of a text are arguments.
pub mod Json
pub mod Validation
pub mod Laws
pub mod Fate
use Prim.Native.Char.{code}
use Prim.Native.String.{◌++◌ as text_append}
use rd_news.Prelude.{
  ℕ, zero, suc, ◌+◌, ◌^◌, min, String, Bool, true, false, not, ◌&&◌, ◌||◌, Option, none, some, List,
  [], ◌∷◌, leb, ltb, ◌==◌, str_eq, take, map, if◌then◌else◌, is_none, length,
}
use rd_news.Prelude.Int.{ℤ, pos}
use rd_news.Prelude.Sort.{sorted}
use rd_news.Prelude.Text.{is_empty, starts_with}
use rd_news.Prelude.Uuid.{uuid_text}
use rd_news.Table
use rd_news.Table.{Table, select}
use rd_news.Model.Result.{Error, Result, ok, err, error_name, other_error, ◌>>=◌, ◌>>◌}
use rd_news.Outbox.Json.{Value, Fields, field_of, revision_of}
use rd_news.Outbox.Validation.{validate_event}

-- A row of the outbox.
pub record OutboxEvent : Type 0 where
  pub topic : String
  pub aggregate_id : Option ℕ
  pub payload : Fields
  pub created_at : ℕ
  pub available_at : ℕ
  pub lease_until : Option ℕ
  pub owner : Option String
  pub attempts : ℕ
  pub delivered_at : Option ℕ
  pub last_error : Option String

-- The settings of a publisher.
pub record Publisher : Type 0 where
  pub owner : String
  pub subject_prefix : String
  pub batch_size : ℕ
  pub lease_seconds : ℕ

abbrev pub retry_delay_max : ℕ
retry_delay_max = 900

abbrev pub retry_exponent_max : ℕ
retry_exponent_max = 10

abbrev pub attempt_counter_max : ℕ
attempt_counter_max = 2_000_000_000

-- `last_error.startswith("permanent:")`
abbrev pub is_permanent : Option String → Bool
is_permanent none = false
is_permanent (some error) = starts_with "permanent:" error

abbrev pub lease_over : ℕ → Option ℕ → Bool
lease_over now none = true
lease_over now (some until) = ltb until now

unfoldable pub due : ℕ → ℕ → OutboxEvent → Bool
due now id event =
    is_none event.delivered_at
    && leb event.available_at now
    && not (is_permanent event.last_error)
    && lease_over now event.lease_until

-- `order_by(OutboxEvent.created_at, OutboxEvent.id)`
abbrev pub event_le : ℕ × OutboxEvent → ℕ × OutboxEvent → Bool
event_le (i, a) (j, b) = ltb a.created_at b.created_at || a.created_at == b.created_at && leb i j

abbrev pub due_events : Publisher → ℕ → Table OutboxEvent → List (ℕ × OutboxEvent)
due_events publisher now events =
    take publisher.batch_size (sorted event_le (select (due now) events))

abbrev pub leased_event : Publisher → ℕ → OutboxEvent → OutboxEvent
leased_event publisher now event = record event {
  owner = some publisher.owner;
  lease_until = some (now + publisher.lease_seconds);
  attempts = min (event.attempts + 1) attempt_counter_max;
}

unfoldable pub lease_all :
    Publisher → ℕ → List (ℕ × OutboxEvent) → Table OutboxEvent → Table OutboxEvent
lease_all publisher now [] events = events
lease_all publisher now ((id, event) ∷ rest) events =
    lease_all publisher now rest (Table.put id (leased_event publisher now event) events)

abbrev pub id_of : ℕ × OutboxEvent → ℕ
id_of (id, event) = id

-- `_claim`
unfoldable pub claim : Publisher → ℕ → Table OutboxEvent → List ℕ × Table OutboxEvent
claim publisher now events = (
  map id_of (due_events publisher now events),
  lease_all publisher now (due_events publisher now events) events,
)

abbrev pub is_owner : Publisher → Option String → Bool
is_owner publisher none = false
is_owner publisher (some owner) = str_eq owner publisher.owner

-- The row is this publisher's, and is not delivered.
abbrev pub owns : Publisher → OutboxEvent → Bool
owns publisher event = is_owner publisher event.owner && is_none event.delivered_at

-- `update(OutboxEvent).where(id, owner, delivered_at IS NULL).values(...)`
abbrev pub update_row :
    Publisher
    → ℕ
    → (OutboxEvent → OutboxEvent)
    → Option OutboxEvent
    → Table OutboxEvent
    → Table OutboxEvent
update_row publisher id change none events = events
update_row publisher id change (some event) events =
    if owns publisher event then Table.put id (change event) events else events

unfoldable pub update_owned :
    Publisher → ℕ → (OutboxEvent → OutboxEvent) → Table OutboxEvent → Table OutboxEvent
update_owned publisher id change events =
    update_row publisher id change (Table.get id events) events

unfoldable pub retry_delay : ℕ → ℕ
retry_delay attempts = min (2 ^ min attempts retry_exponent_max) retry_delay_max

abbrev pub error_code : Error → Bool → String
error_code error permanent =
    if permanent then text_append "permanent:" (error_name error) else error_name error

abbrev pub failed_event : ℕ → ℕ → Error → Bool → OutboxEvent → OutboxEvent
failed_event now attempts error permanent event = record event {
  owner = none;
  lease_until = none;
  available_at = now + retry_delay attempts;
  last_error = some (error_code error permanent);
}

-- `_mark_failed`
abbrev pub mark_failed :
    Publisher → ℕ → ℕ → ℕ → Error → Bool → Table OutboxEvent → Table OutboxEvent
mark_failed publisher now id attempts error permanent events =
    update_owned publisher id (failed_event now attempts error permanent) events

abbrev pub delivered_event : ℕ → OutboxEvent → OutboxEvent
delivered_event now event = record event {
  delivered_at = some now;
  lease_until = none;
  owner = none;
  last_error = none;
}

-- `topic.removesuffix(suffix)`
unfoldable pub remove_suffix : String → String → String
remove_suffix suffix String.[] = String.[]
remove_suffix suffix (String.◌∷◌ c s) =
    let rest = remove_suffix suffix s in
    if str_eq (String.◌∷◌ c s) suffix then String.[] else String.◌∷◌ c rest

-- `text.rstrip(".")`
unfoldable pub strip_dots : String → String
strip_dots String.[] = String.[]
strip_dots (String.◌∷◌ c s) =
    let rest = strip_dots s in
    if code c == 46 && is_empty rest then String.[] else String.◌∷◌ c rest

-- What `publish_json` is called with; `occurred_at` is rendered by the caller.
pub record Message : Type 0 where
  pub subject : String
  pub event_id : ℕ
  pub event_type : String
  pub occurred_at : ℕ
  pub aggregate_id : String
  pub aggregate_version : ℤ
  pub payload : Fields

abbrev pub aggregate_text : Option ℕ → String
aggregate_text none = ""
aggregate_text (some k) = uuid_text k

abbrev pub envelope : Publisher → ℕ → OutboxEvent → ℤ → Message
envelope publisher id event version = record {
  subject =
      text_append (strip_dots publisher.subject_prefix)
        (text_append "." (remove_suffix ".v2" event.topic));
  event_id = id;
  event_type = event.topic;
  occurred_at = event.created_at;
  aggregate_id = aggregate_text event.aggregate_id;
  aggregate_version = version;
  payload = event.payload;
}

-- The message of an event, or the error that quarantines it.
unfoldable pub message_of : (String → Option ℤ) → Publisher → ℕ → OutboxEvent → Result Message
message_of int_of publisher id event =
    validate_event event.topic event.payload
    >> (revision_of int_of (field_of "revision" event.payload)
        >>= (λ version. ok (envelope publisher id event version)))

abbrev pub sent :
    Publisher → ℕ → ℕ → OutboxEvent → Option Error → Table OutboxEvent → Table OutboxEvent
sent publisher now id event none events = update_owned publisher id (delivered_event now) events
sent publisher now id event (some error) events =
    mark_failed publisher now id event.attempts error false events

-- `send` is the broker: nothing, or the exception that publishing raised.
abbrev pub publish_message :
    (Message → Option Error)
    → Publisher
    → ℕ
    → ℕ
    → OutboxEvent
    → Result Message
    → Table OutboxEvent
    → Table OutboxEvent
publish_message send publisher now id event (err error) events =
    mark_failed publisher now id event.attempts error true events
publish_message send publisher now id event (ok message) events =
    sent publisher now id event (send message) events

abbrev pub publish_row :
    (Message → Option Error)
    → (String → Option ℤ)
    → Publisher
    → ℕ
    → ℕ
    → Option OutboxEvent
    → Table OutboxEvent
    → Table OutboxEvent
publish_row send int_of publisher now id none events = events
publish_row send int_of publisher now id (some event) events =
    if owns publisher event
    then publish_message send publisher now id event (message_of int_of publisher id event) events
    else events

-- `_publish_one`: the event is read, sent, and its outcome is written by a later transaction.
-- `meanwhile` is what other transactions do in between, and `now` the time of the outcome.
unfoldable pub publish_one :
    (Message → Option Error)
    → (String → Option ℤ)
    → Publisher
    → ℕ
    → (Table OutboxEvent → Table OutboxEvent)
    → ℕ
    → Table OutboxEvent
    → Table OutboxEvent
publish_one send int_of publisher now meanwhile id events =
    publish_row send int_of publisher now id (Table.get id events) (meanwhile events)

-- The loop of `publish_batch`, with the time at which each event is done, and what others do while
-- it is sent.
unfoldable pub publish_all :
    (Message → Option Error)
    → (String → Option ℤ)
    → Publisher
    → (ℕ → ℕ)
    → (ℕ → Table OutboxEvent → Table OutboxEvent)
    → List ℕ
    → Table OutboxEvent
    → Table OutboxEvent
publish_all send int_of publisher clock meanwhile [] events = events
publish_all send int_of publisher clock meanwhile (id ∷ ids) events =
    publish_all send int_of publisher clock meanwhile ids
      (publish_one send int_of publisher (clock id) (meanwhile id) id events)

-- `publish_batch`
unfoldable pub publish_batch :
    (Message → Option Error)
    → (String → Option ℤ)
    → Publisher
    → ℕ
    → (ℕ → ℕ)
    → (ℕ → Table OutboxEvent → Table OutboxEvent)
    → Table OutboxEvent
    → ℕ × Table OutboxEvent
publish_batch send int_of publisher now clock meanwhile events =
    let claimed = claim publisher now events in
    (length claimed.0, publish_all send int_of publisher clock meanwhile claimed.0 claimed.1)
