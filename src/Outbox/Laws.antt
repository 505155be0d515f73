-- ===== src/Outbox/Laws.antt =====
-- What a batch of `OutboxPublisher` leaves alone: the events that are delivered or quarantined.
use rd_news.Prelude.{
  All-take, All-of_map, ℕ, ◌≡◌, refl, sym, ◌∙◌, String, Bool, true, false, ◌&&◌, ◌||◌, Option, none,
  some, List, [], ◌∷◌, arith, ◌==◌, ==_iff, All, All-map, Bool-cases, inl, inr, is_some, is_none,
}
use mathlib.Core.Path.{subst}
use mathlib.Core.Option.{some-injective}
use rd_news.Prelude.Int.{ℤ}
use rd_news.Prelude.Sort.{sorted, All-sorted}
use rd_news.Table
use rd_news.Table.{Table, select}
use rd_news.Table.Laws.{IsRow, select-IsRow}
use rd_news.Model.Result.{Error, Result, ok, err}
use rd_news.Outbox.{
  OutboxEvent, Publisher, Message, is_permanent, due, due_events, event_le, lease_all, claim, owns,
  update_owned, update_row, delivered_event, mark_failed, id_of, sent, publish_message, publish_row,
  publish_one, publish_all, publish_batch, message_of,
}

-- What the transactions of publishers do to the table, in any order: they claim events, and write
-- the outcomes of events that they own.
pub data Others : Table OutboxEvent → Table OutboxEvent → Type 0 where
  nothing : {events : Table OutboxEvent} → Others events events
  claims :
      (publisher : Publisher) (now : ℕ) {a b c : Table OutboxEvent}
      → Others a b
      → (claim publisher now b).1 ≡ c
      → Others a c
  delivers :
      (publisher : Publisher) (now id : ℕ) {a b c : Table OutboxEvent}
      → Others a b
      → update_owned publisher id (delivered_event now) b ≡ c
      → Others a c
  fails :
      (publisher : Publisher) (now id attempts : ℕ) (error : Error) (permanent : Bool)
      {a b c : Table OutboxEvent}
      → Others a b
      → mark_failed publisher now id attempts error permanent b ≡ c
      → Others a c

-- Delivered, or released as one that can never be sent.
abbrev pub is_settled : OutboxEvent → Bool
is_settled event =
    is_some event.delivered_at || is_permanent event.last_error && is_none event.owner

pub due_events-IsRow :
    (publisher : Publisher) (now : ℕ) (events : Table OutboxEvent)
    → All (IsRow (due now) events.row) (due_events publisher now events)
due_events-IsRow publisher now events =
    All-take _ publisher.batch_size (sorted event_le (select (due now) events))
      (All-sorted event_le _ (select (due now) events) (select-IsRow (due now) events))

lease_all-apart :
    (publisher : Publisher) (now id : ℕ) (due_now : List (ℕ × OutboxEvent))
    (events : Table OutboxEvent)
    → All (λ x. (x.0 == id) ≡ false) due_now
    → Table.get id (lease_all publisher now due_now events) ≡ Table.get id events
unfolding lease_all
lease_all-apart publisher now id [] events apart = refl
lease_all-apart publisher now id ((k, event) ∷ rest) events apart =
    lease_all-apart publisher now id rest _ apart.1 ∙ rw apart.0 refl

module _ (id : ℕ) (event : OutboxEvent) (settled : is_settled event ≡ true) where
  settled-apart :
      (now : ℕ) (events : Table OutboxEvent)
      → Table.get id events ≡ some event
      → (x : ℕ × OutboxEvent) → IsRow (due now) events.row x
      → (x.0 == id) ≡ false
  unfolding due
  settled-apart now events there (k, other) row = elim (Bool-cases (k == id)) [
    | inr e ↦ e
    | inl e ↦
        let same : other ≡ event =
          some-injective _ _ (sym (rw ((==_iff k id).0 e) at row.there) ∙ there) in
        absurd (let fits = rw same at row.fits in ground arith)
  ]

  claim-settled :
      (publisher : Publisher) (now : ℕ) (events : Table OutboxEvent)
      → Table.get id events ≡ some event
      → Table.get id (claim publisher now events).1 ≡ some event
  unfolding claim
  claim-settled publisher now events there =
      lease_all-apart publisher now id (due_events publisher now events) events (
        All-map (due_events publisher now events) (settled-apart now events there)
          (due_events-IsRow publisher now events))
      ∙ there

  settled-unowned : (publisher : Publisher) → owns publisher event ≡ false
  settled-unowned publisher = ground arith

  update_owned-settled :
      (publisher : Publisher) (k : ℕ) (change : OutboxEvent → OutboxEvent)
      (events : Table OutboxEvent)
      → Table.get id events ≡ some event
      → Table.get id (update_owned publisher k change events) ≡ some event
  unfolding update_owned
  update_owned-settled publisher k change events there = elim (Bool-cases (k == id)) [
    | inl e ↦ rw ((==_iff k id).0 e) (rw there (rw (settled-unowned publisher) there))
    | inr e ↦ go (Table.get k events) e
  ]
    where
      go :
          (row : Option OutboxEvent)
          → (k == id) ≡ false
          → Table.get id (update_row publisher k change row events) ≡ some event
      go none e = there
      go (some other) e = elim (Bool-cases (owns publisher other)) [
        | inl o ↦ rw o (rw e there)
        | inr o ↦ rw o there
      ]

  kept :
      {b c : Table OutboxEvent} → b ≡ c → Table.get id b ≡ some event → Table.get id c ≡ some event
  kept same there = subst (λ t. Table.get id t ≡ some event) same there

  Others-settled :
      {a b : Table OutboxEvent}
      → Others a b
      → Table.get id a ≡ some event
      → Table.get id b ≡ some event
  Others-settled nothing there = there
  Others-settled (claims publisher now before same) there =
      kept same (claim-settled publisher now _ (Others-settled before there))
  Others-settled (delivers publisher now k before same) there =
      kept same (update_owned-settled publisher k _ _ (Others-settled before there))
  Others-settled (fails publisher now k attempts error permanent before same) there =
      kept same (update_owned-settled publisher k _ _ (Others-settled before there))

  publish_row-settled :
      (send : Message → Option Error) (int_of : String → Option ℤ) (publisher : Publisher)
      (now k : ℕ) (row : Option OutboxEvent) (events : Table OutboxEvent)
      → Table.get id events ≡ some event
      → Table.get id (publish_row send int_of publisher now k row events) ≡ some event
  publish_row-settled send int_of publisher now k none events there = there
  publish_row-settled send int_of publisher now k (some other) events there =
      elim (Bool-cases (owns publisher other)) [
        | inl o ↦ rw o (outcome (message_of int_of publisher k other))
        | inr o ↦ rw o there
      ]
    where
      outcome :
          (result : Result Message)
          → Table.get id (publish_message send publisher now k other result events) ≡ some event
      outcome (err error) = update_owned-settled publisher k _ events there
      outcome (ok message) = sent_or_not (send message)
        where
          sent_or_not :
              (error : Option Error)
              → Table.get id (sent publisher now k other error events) ≡ some event
          sent_or_not none = update_owned-settled publisher k _ events there
          sent_or_not (some error) = update_owned-settled publisher k _ events there

  module _ (send : Message → Option Error) (int_of : String → Option ℤ) (publisher : Publisher)
      (clock : ℕ → ℕ) (meanwhile : ℕ → Table OutboxEvent → Table OutboxEvent)
      (between : (k : ℕ) (t : Table OutboxEvent) → Others t (meanwhile k t)) where
    publish_all-settled :
        (ids : List ℕ) (events : Table OutboxEvent)
        → Table.get id events ≡ some event
        → Table.get id (publish_all send int_of publisher clock meanwhile ids events) ≡ some event
    unfolding publish_all publish_one
    publish_all-settled [] events there = there
    publish_all-settled (k ∷ ks) events there = publish_all-settled ks _ (
        publish_row-settled send int_of publisher (clock k) k (Table.get k events)
          (meanwhile k events) (Others-settled (between k events) there))

    -- An event that is delivered, or quarantined and released, stays as it is through every batch
    -- of every publisher, whatever claims and outcomes of other publishers come in between while an
    -- event is sent, and it is not among the events that the batch claims. (A publisher that read
    -- it before may still be sending it.)
    pub publish_batch-settled :
        (now : ℕ) (events : Table OutboxEvent)
        → Table.get id events ≡ some event
        → (Table.get id (publish_batch send int_of publisher now clock meanwhile events).1
            ≡ some event)
          × All (λ k. (k == id) ≡ false) (claim publisher now events).0
    unfolding publish_batch claim
    publish_batch-settled now events there = (
      publish_all-settled _ _ (claim-settled publisher now events there),
      All-of_map (λ x. (x.0 == id) ≡ false) (λ k. (k == id) ≡ false) id_of
          (due_events publisher now events) (λ x apart. apart)
          (All-map (due_events publisher now events) (settled-apart now events there)
            (due_events-IsRow publisher now events)),
    )
