-- ===== src/Tests/Events.antt =====
-- An event of the outbox, delivered and not.
use rd_news.Prelude.{◌≡◌, refl, String, ◌&&◌, Option, none, some, All, ◌==◌, false}
use rd_news.Prelude.Int.{ℤ, pos}
use rd_news.Table
use rd_news.Table.{Table}
use rd_news.Model.Result.{Error, other_error}
use rd_news.Outbox.{OutboxEvent, Publisher, Message, claim, publish_batch, leased_event}
use rd_news.Outbox.Json.{Value, Items, Fields}
use rd_news.Outbox.Validation.{is_topic, validate_event}
use rd_news.Outbox.Validation.Flat.{is_ok, is_clean, field_keys, field_scalars, validate_event-flat}
use rd_news.Outbox.Laws.{nothing, claims, publish_batch-settled}

abbrev publisher : Publisher
publisher = record {
  owner = "main";
  subject_prefix = "thirdnews.v2.";
  batch_size = 20;
  lease_seconds = 120;
}

-- A key that is sensitive stands two levels down.
abbrev leaky : Fields
leaky = Fields.field "revision" (Value.whole (pos 2)) (
    Fields.field "rows"
      (Value.items
        (Items.cons (Value.object (Fields.field "Token" (Value.text "x") Fields.end)) Items.nil))
      Fields.end)

validate_event-flat_example :
    is_ok (validate_event "news.changed.v2" leaky)
    ≡ (is_topic "news.changed.v2" && is_clean (field_keys leaky) (field_scalars leaky))
validate_event-flat_example = validate_event-flat "news.changed.v2" leaky

abbrev changed : OutboxEvent
changed = record {
  topic = "news.changed.v2";
  aggregate_id = some 1;
  payload = Fields.field "revision" (Value.whole (pos 2)) Fields.end;
  created_at = 10;
  available_at = 10;
  lease_until = none;
  owner = none;
  attempts = 0;
  delivered_at = none;
  last_error = none;
}

-- A broker that is down.
abbrev refuses : Message → Option Error
refuses message = some (other_error "TimeoutError")

abbrev no_number : String → Option ℤ
no_number s = none

abbrev taken : OutboxEvent
taken = leased_event publisher 100 changed

abbrev taken_events : Table OutboxEvent
taken_events = Table.put 5 taken Table.empty

abbrev second : Publisher
second = record publisher { owner = "second" }

-- Another publisher claims what it can in between.
abbrev meanwhile : Table OutboxEvent → Table OutboxEvent
meanwhile events = (claim second 101 events).1

abbrev done : OutboxEvent
done = record changed { delivered_at = some 20 }

abbrev done_events : Table OutboxEvent
done_events = Table.put 4 changed (Table.put 5 done Table.empty)

publish_batch-settled_example :
    (Table.get 5
        (publish_batch refuses no_number publisher 100 (λ id. 101) (λ id. meanwhile) done_events).1
      ≡ some done)
    × All (λ k. (k == 5) ≡ false) (claim publisher 100 done_events).0
publish_batch-settled_example =
    publish_batch-settled 5 done refl refuses no_number publisher (λ id. 101) (λ id. meanwhile)
      (λ id t. claims second 101 nothing refl) 100 done_events refl
