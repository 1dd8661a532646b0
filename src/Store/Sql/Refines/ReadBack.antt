-- ===== src/Store/Sql/Refines/ReadBack.antt =====
-- internal/store/postgres.go: `GetPayment` after a method that changes a payment.
use payment_ledger_platform.Base.{
  ◌≡◌, refl, ◌∙◌, ap, inl, inr, String, none, some, Option-cases, arith,
}
use payment_ledger_platform.Base.Dict.{lookup, lookup-insert_self}
use payment_ledger_platform.Error.{ok, Exec}
use payment_ledger_platform.Amount.{Decimal}
use payment_ledger_platform.Domain.Payment.{PaymentStatus, Payment}
use payment_ledger_platform.Domain.Outbox.{PaymentCommand}
use payment_ledger_platform.Store.Sql.Tables.{
  PaymentRow, Postgres, Database, statement, transaction,
}
use payment_ledger_platform.Store.Sql.Rows.{select_row, null_if_empty, payment_of_row}
use payment_ledger_platform.Store.Sql.Abstract.{
  in_memory, IsNewEvent, Columns, as_stored, stored_command,
}
use payment_ledger_platform.Store.Sql.Refines.Values.{lookup-map_values}
use payment_ledger_platform.Store.Sql.Refines.Payments.{taken_amount, with_amount-keeps}
use payment_ledger_platform.Store.Sql.Refines.Commits.{
  next_payment-with_columns, next_payment-stored, commit-in_memory,
}
use payment_ledger_platform.Store.Sql.Refines.Reads.{get_payment-in_memory}
use payment_ledger_platform.Store.Memory.Payments.{with_amount, next_payment}
use payment_ledger_platform.Store.Memory.Payments
use payment_ledger_platform.Store.State.{MemoryStore}
use payment_ledger_platform.Store.Sql.Payments.{
  get_payment, transition, update_status, apply_amount, commit_payment_command, write_command,
  file_records,
}
use payment_ledger_platform.Store.Sql.Updates.{update_payment}

-- The three methods that change a stored payment, less its identifier.
pub data PaymentChange (A : Type 0) : Type 0 where
  transitions : PaymentStatus → String → PaymentChange A
  applies : PaymentStatus → A → PaymentChange A
  commands : PaymentCommand A → PaymentChange A

abbrev pub FilesNewEvent : {A : Type 0} → PaymentChange A → Type 0
FilesNewEvent (transitions to reference) = Unit
FilesNewEvent (applies action amount) = Unit
FilesNewEvent (commands command) = IsNewEvent command.event

module _ {A : Type 0} ⦃d : Decimal A⦄ (server : Postgres A) where
  abbrev pub change : String → PaymentChange A → Exec (Database A) (Payment A)
  change id (transitions to reference) = transition server id to reference
  change id (applies action amount) = apply_amount server id action amount
  change id (commands command) = commit_payment_command server (record command { payment_id = id })

module _ {A : Type 0} ⦃d : Decimal A⦄ (server : Postgres A) (laws : Columns server) where
  transition-read :
      (id : String) (to : PaymentStatus) (reference : String) (db : Database A) (p : Payment A)
      → (transition server id to reference db).0 ≡ ok p
      → server.outage (transition server id to reference db).1.sent ≡ none
      → (get_payment server id (transition server id to reference db).1).0 ≡ ok p
  unfolding transition get_payment update_status statement select_row update_payment
  transition-read id to reference db p h up =
      let key = as_stored server.uuid id in
      elim (Option-cases (lookup key db.tables.payments)) [
        | inl missing ↦ ground (arith, missing)
        | inr (row, found) ↦ ground (
          arith,
          found,
          lookup-insert_self key
              (record row { status = to; provider_reference = null_if_empty reference })
              db.tables.payments,
        )
      ]

  apply_amount-read :
      (id : String) (action : PaymentStatus) (amount : A) (db : Database A) (p : Payment A)
      → (apply_amount server id action amount db).0 ≡ ok p
      → server.outage (apply_amount server id action amount db).1.sent ≡ none
      → (get_payment server id (apply_amount server id action amount db).1).0 ≡ ok p
  unfolding apply_amount get_payment transaction statement select_row update_payment
  apply_amount-read id action amount db p h up =
      let key = as_stored server.uuid id in
      elim (Option-cases (lookup key db.tables.payments)) [
        | inl missing ↦ ground (arith, missing)
        | inr (row, found) ↦
            let p' = taken_amount server laws action amount (payment_of_row key row) in
            ground (
              arith,
              found,
              lookup-insert_self key
                  (record row {
                    status = p'.status;
                    captured_amount = as_stored server.numeric p'.captured_amount;
                    refunded_amount = as_stored server.numeric p'.refunded_amount;
                  })
                  db.tables.payments,
              laws.numeric_exact p'.captured_amount (as_stored server.numeric p'.captured_amount),
              laws.numeric_exact p'.refunded_amount (as_stored server.numeric p'.refunded_amount),
              with_amount-keeps server laws action amount (payment_of_row key row),
            )
      ]

  memory_read :
      (id : String) (command : PaymentCommand A) (s : MemoryStore A) (row p : Payment A)
      → lookup id s.payments ≡ some row
      → row.id ≡ id
      → next_payment command row ≡ ok p
      → (Payments.get_payment id
          (Payments.commit_payment_command (record command { payment_id = id }) s).1).0
        ≡ ok p
  unfolding Payments.get_payment Payments.commit_payment_command
  memory_read id command s row p found same next =
      ground (arith, next_payment-with_columns command row, lookup-insert_self id p s.payments)

  commit_accepted :
      (id : String) (command : PaymentCommand A) (db : Database A) (p : Payment A)
      → (commit_payment_command server (record command { payment_id = id }) db).0 ≡ ok p
      → (row : PaymentRow A) × (server.uuid id ≡ some (as_stored server.uuid id))
        × (lookup (as_stored server.uuid id) (in_memory db.tables).payments
            ≡ some (payment_of_row (as_stored server.uuid id) row))
        × (next_payment
              (stored_command server (record command { payment_id = id }))
              (payment_of_row (as_stored server.uuid id) row)
            ≡ ok p)
  unfolding commit_payment_command transaction statement select_row write_command file_records
      in_memory
  commit_accepted id command db p h =
      let key = as_stored server.uuid id in
      let command' = record command { payment_id = id } in
      elim (Option-cases (lookup key db.tables.payments)) [
        | inl missing ↦ ground (arith, missing)
        | inr (row, found) ↦ (
          row,
          ground (arith, found),
          ground (arith, found, lookup-map_values payment_of_row key db.tables.payments),
          ground (arith, found, next_payment-stored server laws command' (payment_of_row key row)),
        )
      ]

  commit-read :
      (id : String) (command : PaymentCommand A) (db : Database A) (p : Payment A)
      → IsNewEvent command.event
      → (commit_payment_command server (record command { payment_id = id }) db).0 ≡ ok p
      → server.outage (commit_payment_command server (record command { payment_id = id }) db).1.sent
        ≡ none
      → (get_payment server id
          (commit_payment_command server (record command { payment_id = id }) db).1).0
        ≡ ok p
  commit-read id command db p new h up =
      let key = as_stored server.uuid id in
      let command' = record command { payment_id = id } in
      let db' = (commit_payment_command server command' db).1 in
      let (row, uuid, found, next) = commit_accepted id command db p h in
      get_payment-in_memory server id key db' up uuid
      ∙ ap (λ s. (Payments.get_payment key s).0) (commit-in_memory server laws command' db p new h)
      ∙ memory_read key (stored_command server command') (in_memory db.tables)
          (payment_of_row key row) p found refl next

  -- After a transition, a capture or refund of an amount, or a command has succeeded on a
  -- payment, reading the payment by the same identifier returns exactly the payment that the
  -- method returned, when the statement of the read reaches the server and the event of a
  -- command is unpublished. (The columns behave as documented, and amounts are stored exactly
  -- or refused.)
  pub change-get_payment :
      (id : String) (c : PaymentChange A) (db : Database A) (p : Payment A)
      → FilesNewEvent c
      → (change server id c db).0 ≡ ok p
      → server.outage (change server id c db).1.sent ≡ none
      → (get_payment server id (change server id c db).1).0 ≡ ok p
  change-get_payment id (transitions to reference) db p new h up =
      transition-read id to reference db p h up
  change-get_payment id (applies action amount) db p new h up =
      apply_amount-read id action amount db p h up
  change-get_payment id (commands command) db p new h up = commit-read id command db p new h up
