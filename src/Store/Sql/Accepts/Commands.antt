-- ===== src/Store/Sql/Accepts/Commands.antt =====
-- internal/store/postgres.go: when `CommitPaymentCommand` succeeds.
use payment_ledger_platform.Base.{
  ◌≡◌, ◌≢◌, refl, sym, subst, ℕ, suc, true, false, String, some, All, All-map, arith,
}
use payment_ledger_platform.Base.Dict.{lookup, insert, contains, contains-insert}
use payment_ledger_platform.Error.{ok}
use payment_ledger_platform.Amount.{Decimal, Meaning}
use payment_ledger_platform.Domain.Payment
use payment_ledger_platform.Domain.Payment.{PaymentStatus, Payment}
use payment_ledger_platform.Domain.Payment.Limits.{IsSound}
use payment_ledger_platform.Domain.Ledger.Balance.{OneSided}
use payment_ledger_platform.Domain.Outbox.{OutboxEvent, PaymentCommand}
use payment_ledger_platform.Store.Memory.Payments.{next_payment}
use payment_ledger_platform.Store.WellFormed.Commits.{next_payment-IsSound}
use payment_ledger_platform.Store.Sql.Tables.{
  PaymentRow, Tables, Postgres, Database, commits, statement, transaction,
}
use payment_ledger_platform.Store.Sql.Rows.{
  is_payment_status, null_if_empty, payment_of_row, payment_checks, select_row,
}
use payment_ledger_platform.Store.Sql.Inserts.{insert_event}
use payment_ledger_platform.Store.Sql.Updates.{update_payment, set_command}
use payment_ledger_platform.Store.Sql.Payments.{
  insert_entries, file_records, write_command, commit_payment_command,
}
use payment_ledger_platform.Store.Sql.Refines.Values.{succeeds}
use payment_ledger_platform.Store.Sql.Refines.Reads.{IsUp}
use payment_ledger_platform.Store.Sql.Refines.Commits.{next_payment-with_columns}
use payment_ledger_platform.Store.Sql.Accepts.{FitsColumns, AreNew, insert_entries-accepts}

is_payment_status-known : (s : PaymentStatus) → s ≢ Payment.unset → is_payment_status s ≡ true
is_payment_status-known s known = ground arith

module _ {A V : Type 0} ⦃d : Decimal A⦄ (m : Meaning d V) where
  -- The CHECK constraints hold of a row that is sound.
  payment_checks-IsSound :
      (q : Payment A) (row : PaymentRow A)
      → IsSound m q
      → row.amount ≡ q.amount
      → row.captured_amount ≡ q.captured_amount
      → row.refunded_amount ≡ q.refunded_amount
      → payment_checks row ≡ true
  payment_checks-IsSound q row h a c r = ground (
    arith,
    h.positive,
    h.refunded_nonneg,
    h.refunded_le,
    h.captured_le,
    m.value-zero,
    m.greater_than_by_value row.amount d.zero,
    m.is_negative_by_value row.captured_amount,
    m.is_negative_by_value row.refunded_amount,
    m.less_than_or_equal_by_value row.refunded_amount row.captured_amount,
    m.less_than_or_equal_by_value row.captured_amount row.amount,
    m.numbers.at_most_trans m.numbers.zero (m.value q.refunded_amount) (m.value q.captured_amount),
  )

module _ {A V : Type 0} ⦃d : Decimal A⦄ (m : Meaning d V) (server : Postgres A) where
  -- The row that a command leaves.
  abbrev commanded_row : PaymentRow A → Payment A → PaymentRow A
  commanded_row row q = record row {
    status = q.status;
    captured_amount = q.captured_amount;
    refunded_amount = q.refunded_amount;
    provider_reference = null_if_empty q.provider_reference;
  }

  update_payment-accepts :
      (q : Payment A) (row : PaymentRow A) (t : Tables A)
      → server.uuid q.id ≡ some q.id
      → lookup q.id t.payments ≡ some row
      → row.amount ≡ q.amount
      → server.numeric q.captured_amount ≡ some q.captured_amount
      → server.numeric q.refunded_amount ≡ some q.refunded_amount
      → IsSound m q
      → update_payment server q.id (set_command server q) t
        ≡ ok (
          some (q.id, commanded_row row q),
          record t { payments = insert q.id (commanded_row row q) t.payments },
        )
  unfolding update_payment
  update_payment-accepts q row t uuid found same captured refunded sound = ground (
    arith,
    is_payment_status-known q.status sound.known,
    payment_checks-IsSound m q (commanded_row row q) sound same refl refl,
  )

  -- The columns take the event, and no event has its identifier.
  abbrev pub FitsEvent : Tables A → OutboxEvent → Type 0
  FitsEvent t event =
      (server.uuid event.id ≡ some event.id)
      × ((payload : String) × (server.jsonb event.payload ≡ some payload))
      × (contains event.id t.outbox_events ≡ false)

  insert_event-accepts :
      (now : ℕ) (id : String) (event : OutboxEvent) (t : Tables A)
      → server.uuid id ≡ some id
      → FitsEvent t event
      → succeeds (insert_event server now id event t) ≡ true
  unfolding insert_event
  insert_event-accepts now id event t uuid fits = ground (arith, fits.0, fits.1.1, fits.2)

  write_command-accepts :
      (now : ℕ) (command : PaymentCommand A) (q : Payment A) (row : PaymentRow A) (db : Database A)
      → IsUp server
      → server.uuid q.id ≡ some q.id
      → lookup q.id db.tables.payments ≡ some row
      → row.amount ≡ q.amount
      → server.numeric q.captured_amount ≡ some q.captured_amount
      → server.numeric q.refunded_amount ≡ some q.refunded_amount
      → IsSound m q
      → All (OneSided m) command.ledger
      → All (FitsColumns server db.tables.payments) command.ledger
      → AreNew command.ledger db.tables.ledger_entries
      → FitsEvent db.tables command.event
      → (write_command server now command q db).0 ≡ ok (commits q)
  unfolding write_command file_records statement
  write_command-accepts now command q row db up uuid found same captured refunded sound sided fit
        new event =
      let payments' = insert q.id (commanded_row row q) db.tables.payments in
      let t : Tables A = record (db.tables) { payments = payments' } in
      let db1 : Database A = record { tables = t; sent = suc db.sent } in
      let db2 = (insert_entries server true command.ledger db1).1 in
      let inserted =
        insert_entries-accepts m server command.ledger db1 up
          (All-map
            (λ e fits. (
              fits.0,
              fits.1,
              fits.2,
              fits.3,
              fits.4,
              contains-insert q.id e.payment_id (commanded_row row q) db.tables.payments fits.5,
            ))
            command.ledger fit)
          sided new in
      ground (
        arith,
        up db.sent,
        up db2.sent,
        update_payment-accepts q row db.tables uuid found same captured refunded sound,
        inserted,
        insert_event-accepts now q.id command.event db2.tables uuid (
          event.0,
          event.1,
          subst (λ events. contains command.event.id events ≡ false) (sym inserted.1) event.2,
        ),
      )

  -- A command on a stored and sound payment, which the rules of the domain accept (the
  -- transition, the amount, the balanced journal), succeeds in the SQL store with the payment
  -- that these rules give, when every statement reaches the server and the columns can hold
  -- what is written: the payment's id, its new captured and refunded amounts, and the values of
  -- the entries are stored as they are, the entries have new and different ids and name stored
  -- payments, and the event's id is stored as it is and is new, and its payload is accepted.
  pub commit-accepts :
      (command : PaymentCommand A) (q : Payment A) (row : PaymentRow A) (db : Database A)
      → IsUp server
      → server.uuid command.payment_id ≡ some command.payment_id
      → lookup command.payment_id db.tables.payments ≡ some row
      → IsSound m (payment_of_row command.payment_id row)
      → next_payment command (payment_of_row command.payment_id row) ≡ ok q
      → server.numeric q.captured_amount ≡ some q.captured_amount
      → server.numeric q.refunded_amount ≡ some q.refunded_amount
      → All (FitsColumns server db.tables.payments) command.ledger
      → AreNew command.ledger db.tables.ledger_entries
      → FitsEvent db.tables command.event
      → (commit_payment_command server command db).0 ≡ ok q
  unfolding commit_payment_command transaction statement select_row
  commit-accepts command q row db up uuid found sound accepted captured refunded fit new event =
      let p = payment_of_row command.payment_id row in
      let moved = next_payment-IsSound m command p sound accepted in
      let columns = next_payment-with_columns command p in
      let db1 : Database A = record { tables = db.tables; sent = suc (suc db.sent) } in
      let same : q.id ≡ command.payment_id = moved.0 in
      let kept : row.amount ≡ q.amount = ground (arith, columns, accepted) in
      ground (
        arith,
        up db.sent,
        up (suc db.sent),
        up (write_command server (server.clock db.sent) command q db1).1.sent,
        uuid,
        found,
        accepted,
        write_command-accepts (server.clock db.sent) command q row db1 up
            (subst (λ id. server.uuid id ≡ some id) (sym same) uuid)
            (subst (λ id. lookup id db.tables.payments ≡ some row) (sym same) found) kept captured
            refunded moved.3 moved.4.one_sided fit new event,
      )
