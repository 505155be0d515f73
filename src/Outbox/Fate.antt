-- ===== src/Outbox/Fate.antt =====
-- What becomes of an event that a publisher of outbox.py owns and tries to publish.

use rd_news.Prelude.{
  ℕ, ◌+◌, ◌≤◌, ◌<◌, ◌≡◌, refl, ◌∙◌, ap, String, true, false, Option, none, some, Bool,
  if◌then◌else◌, ◌==◌,
}
use rd_news.Prelude.Int.{ℤ}
use rd_news.Table
use rd_news.Table.{Table}
use rd_news.Model.Result.{Error, Result, ok, err}
use rd_news.Outbox.Validation.{validate_event}
use rd_news.Outbox.Validation.Flat.{is_ok}
use rd_news.Outbox.{OutboxEvent, Publisher, Message, owns, update_owned, update_row, message_of}
use rd_news.Outbox.Laws.{is_settled}

module _ (send : Message → Option Error) (int_of : String → Option ℤ) (publisher : Publisher)
    (now id : ℕ) where
  -- The outcome of a try: the row is delivered after the broker took a valid message of the event,
  -- or it is quarantined since no message could be made, or the broker raised and it waits.
  pub data Outcome (event event' : OutboxEvent) : Type 0 where
    delivered :
        (message : Message)
        → send message ≡ none
        → message.payload ≡ event.payload
        → is_ok (validate_event event.topic event.payload) ≡ true
        → event'.delivered_at ≡ some now
        → Outcome event event'
    quarantined :
        (error : Error)
        → message_of int_of publisher id event ≡ err error
        → event'.delivered_at ≡ none
        → is_settled event' ≡ true
        → Outcome event event'
    waits :
        (message : Message) (error : Error)
        → message_of int_of publisher id event ≡ ok message
        → send message ≡ some error
        → event'.delivered_at ≡ none
        → now < event'.available_at
        → event'.available_at ≤ now + 900
        → Outcome event event'

  -- What the try leaves: the outcome in the row, if the publisher owns it still, or nothing.
  pub data Published (event row : OutboxEvent) (events after : Table OutboxEvent) : Type 0 where
    written :
        (row' : OutboxEvent)
        → owns publisher row ≡ true
        → Table.get id after ≡ some row'
        → row'.owner ≡ none
        → row'.lease_until ≡ none
        → Outcome event row'
        → ((k : ℕ) → (id == k) ≡ false → Table.get k after ≡ Table.get k events)
        → Published event row events after
    lost : owns publisher row ≡ false → after ≡ events → Published event row events after

  module _ (event row : OutboxEvent) (events : Table OutboxEvent)
      (there : Table.get id events ≡ some row) where
    updated :
        (change : OutboxEvent → OutboxEvent) (owned : Bool)
        → owns publisher row ≡ owned
        → update_owned publisher id change events
          ≡ (if owned then Table.put id (change row) events else events)
    unfolding update_owned
    updated change owned mine =
        ap (λ r. update_row publisher id change r events) there ∙ rw mine refl
