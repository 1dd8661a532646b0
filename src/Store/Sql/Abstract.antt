-- ===== src/Store/Sql/Abstract.antt =====
-- internal/store/postgres.go against internal/store/store.go: the store in memory that the tables
-- stand for, and what the columns make of the values of a call.
use payment_ledger_platform.Base.{
  ◌≡◌, Bool, true, false, not, String, ◌==◌, List, [], ◌∷◌, Option, none, some, All,
}
use payment_ledger_platform.Base.Dict.{Dict}
use payment_ledger_platform.Error.{Done}
use payment_ledger_platform.Amount.{Decimal}
use payment_ledger_platform.Domain.Payment.{Payment}
use payment_ledger_platform.Domain.Ledger.{LedgerEntry}
use payment_ledger_platform.Domain.Outbox.{OutboxEvent, PaymentCommand}
use payment_ledger_platform.Domain.Payout.{Payout}
use payment_ledger_platform.Domain.Dispute.{Dispute}
use payment_ledger_platform.Store.State.{MemoryStore}
use payment_ledger_platform.Store.Steps.{
  StoreCall, creates_payment, transitions, applies_amount, appends_ledger, enqueues,
  marks_published, registers_webhook, commits, creates_payout, transitions_payout, creates_dispute,
  resolves_dispute,
}
use payment_ledger_platform.Store.Sql.Tables.{EntryRow, EventRow, Tables, Postgres}
use payment_ledger_platform.Store.Sql.Rows.{or_empty, payment_of_row, payout_of_row, dispute_of_row}
use payment_ledger_platform.Store.Sql.Outbox.{is_null}

unfoldable pub map_values : {V W : Type 0} → (String → V → W) → Dict V → Dict W
map_values f [] = []
map_values f (e ∷ es) = (e.0, f e.0 e.1) ∷ map_values f es

-- A claim is forgotten, as are the instants.
abbrev pub event_in_memory : String → EventRow → OutboxEvent
event_in_memory id row = record {
  id = id;
  aggregate_id = row.aggregate_id;
  event_type = row.event_type;
  payload = row.payload;
  published = not (is_null row.published_at);
}

abbrev pub entry_in_memory : {A : Type 0} → EntryRow A → LedgerEntry A
entry_in_memory row = record {
  id = row.id;
  payment_id = or_empty row.payment_id;
  account_id = row.account_id;
  currency = row.currency;
  debit = row.debit;
  credit = row.credit;
}

unfoldable pub entries_in_memory : {A : Type 0} → List (EntryRow A) → List (LedgerEntry A)
entries_in_memory [] = []
entries_in_memory (row ∷ rows) = entry_in_memory row ∷ entries_in_memory rows

unfoldable pub in_memory : {A : Type 0} → Tables A → MemoryStore A
unfolding map_values entries_in_memory
in_memory t = record {
  payments = map_values payment_of_row t.payments;
  keys = t.idempotency_keys;
  outbox = map_values event_in_memory t.outbox_events;
  ledger = entries_in_memory t.ledger_entries;
  webhooks = t.processed_webhooks;
  payouts = map_values payout_of_row t.payouts;
  disputes = map_values dispute_of_row t.disputes;
}

-- What PostgreSQL documents of its columns: the text of a stored uuid is read as that uuid; an amount
-- of at most six digits after the point is stored exactly or refused by numeric(20, 6); and a char(3)
-- column is compared with a text as that text would be stored.
pub record Columns {A : Type 0} (server : Postgres A) : Type 0 where
  pub uuid_again : (x y : String) → server.uuid x ≡ some y → server.uuid y ≡ some y
  pub numeric_exact : (x y : A) → server.numeric x ≡ some y → y ≡ x
  pub same_char_stored :
      (row x y : String) → server.char_3 x ≡ some y → server.same_char row x ≡ (row == y)

-- What a column makes of a value, where it takes it.
abbrev pub as_stored : {X : Type 0} → (X → Option X) → X → X
as_stored column x = elim (column x) [ none ↦ x | some y ↦ y ]

module _ {A : Type 0} (server : Postgres A) where
  abbrev pub stored_payment : Payment A → Payment A
  stored_payment p = record p {
    id = as_stored server.uuid p.id;
    currency = as_stored server.char_3 p.currency;
  }

  abbrev pub stored_owner : Bool → String → String
  stored_owner true id = as_stored server.uuid id
  stored_owner false id = id

  -- The first argument tells whether the entry is inserted with a payment.
  abbrev pub stored_entry : Bool → LedgerEntry A → LedgerEntry A
  stored_entry owned e = record e {
    id = as_stored server.uuid e.id;
    payment_id = stored_owner owned e.payment_id;
    currency = as_stored server.char_3 e.currency;
  }

  unfoldable pub stored_entries : Bool → List (LedgerEntry A) → List (LedgerEntry A)
  stored_entries owned [] = []
  stored_entries owned (e ∷ es) = stored_entry owned e ∷ stored_entries owned es

  abbrev pub stored_event : OutboxEvent → OutboxEvent
  stored_event e = record e {
    id = as_stored server.uuid e.id;
    aggregate_id = as_stored server.uuid e.aggregate_id;
    payload = as_stored server.jsonb e.payload;
  }

  abbrev pub stored_command : PaymentCommand A → PaymentCommand A
  stored_command c = record c {
    payment_id = as_stored server.uuid c.payment_id;
    ledger = stored_entries true c.ledger;
    event = stored_event c.event;
  }

  abbrev pub stored_payout : Payout A → Payout A
  stored_payout p = record p {
    id = as_stored server.uuid p.id;
    currency = as_stored server.char_3 p.currency;
  }

  abbrev pub stored_dispute : Dispute A → Dispute A
  stored_dispute p = record p {
    id = as_stored server.uuid p.id;
    payment_id = as_stored server.uuid p.payment_id;
    currency = as_stored server.char_3 p.currency;
  }

  -- The call with its values as the columns store them.
  unfoldable pub stored_call : StoreCall A → StoreCall A
  unfolding stored_entries
  stored_call (creates_payment p key) = creates_payment (stored_payment p) key
  stored_call (transitions id to reference) = transitions (as_stored server.uuid id) to reference
  stored_call (applies_amount id action amount) =
      applies_amount (as_stored server.uuid id) action amount
  stored_call (appends_ledger entries) = appends_ledger (stored_entries true entries)
  stored_call (enqueues event) = enqueues (stored_event event)
  stored_call (marks_published id) = marks_published (as_stored server.uuid id)
  stored_call (registers_webhook id) = registers_webhook id
  stored_call (commits command) = commits (stored_command command)
  stored_call (creates_payout p entries event) =
      creates_payout (stored_payout p) (stored_entries false entries) (stored_event event)
  stored_call (transitions_payout id status reference entries event) =
      transitions_payout (as_stored server.uuid id) status reference (stored_entries false entries)
        (stored_event event)
  stored_call (creates_dispute dispute entries event) =
      creates_dispute (stored_dispute dispute) (stored_entries true entries) (stored_event event)
  stored_call (resolves_dispute id status entries event) =
      resolves_dispute (as_stored server.uuid id) status (stored_entries true entries)
        (stored_event event)

-- An event that is filed is unpublished, and one that is filed with an object names it.
abbrev pub IsNewEvent : OutboxEvent → Type 0
IsNewEvent event = event.published ≡ false

abbrev pub IsEventOf : String → OutboxEvent → Type 0
IsEventOf id event = IsNewEvent event × (event.aggregate_id ≡ id)

module _ {A : Type 0} ⦃d : Decimal A⦄ where
  -- What the services keep to: a new payment or payout has what the statement's defaults give it, and
  -- the entries of a payout name no payment.
  abbrev pub IsRegular : StoreCall A → Type 0
  IsRegular (creates_payment p key) =
      (p.captured_amount ≡ d.zero) × (p.refunded_amount ≡ d.zero) × (p.provider_reference ≡ "")
  IsRegular (enqueues event) = IsNewEvent event
  IsRegular (commits command) = IsNewEvent command.event
  IsRegular (creates_payout p entries event) =
      All (λ e. e.payment_id ≡ "") entries × IsEventOf p.id event × (p.provider_reference ≡ "")
  IsRegular (transitions_payout id status reference entries event) =
      All (λ e. e.payment_id ≡ "") entries × IsEventOf id event
  IsRegular (creates_dispute dispute entries event) = IsEventOf dispute.id event
  IsRegular (resolves_dispute id status entries event) = IsEventOf id event
  IsRegular _ = Done
