-- ===== src/Store/Sql/Refines/Commits.antt =====
-- internal/store/postgres.go: `CommitPaymentCommand` when it succeeds.
use payment_ledger_platform.Base.{
  ◌≡◌, refl, inl, inr, true, String, ◌++◌, some, Option-cases, arith, ℕ, suc,
}
use payment_ledger_platform.Base.Dict.{lookup, insert}
use payment_ledger_platform.Error.{ok, err}
use payment_ledger_platform.Amount.{Decimal}
use payment_ledger_platform.Domain.Payment.{Payment}
use payment_ledger_platform.Domain.Outbox.{PaymentCommand}
use payment_ledger_platform.Store.Sql.Tables.{
  PaymentRow, Tables, Postgres, Database, statement, transaction,
}
use payment_ledger_platform.Store.Sql.Rows.{select_row, null_if_empty, payment_of_row}
use payment_ledger_platform.Store.Sql.Abstract.{
  in_memory, map_values, Columns, as_stored, stored_event, IsNewEvent,
}
use payment_ledger_platform.Store.Sql.Refines.Values.{
  succeeds, or_empty-null_if_empty, lookup-map_values, map_values-insert,
}
use payment_ledger_platform.Store.Memory.Payments
use payment_ledger_platform.Store.Memory.Payments.{next_payment, charge}
use payment_ledger_platform.Store.Sql.Payments.{
  select_payment, write_command, commit_payment_command,
}
use payment_ledger_platform.Store.Sql.Updates.{update_payment, set_command}
use payment_ledger_platform.Store.Sql.Abstract.{stored_command, stored_entries}
use payment_ledger_platform.Store.Sql.Refines.Entries.{
  file_records-in_memory, validate_balanced-stored,
}
use payment_ledger_platform.Store.Sql.Refines.Payments.{tables_after}

module _ {A : Type 0} ⦃d : Decimal A⦄ where
  -- The columns that a command sets.
  abbrev pub with_columns : Payment A → Payment A → Payment A
  with_columns p q = record p {
    status = q.status;
    captured_amount = q.captured_amount;
    refunded_amount = q.refunded_amount;
    provider_reference = q.provider_reference;
  }

  abbrev pub commanded : PaymentCommand A → Payment A → Payment A
  commanded command p = elim (next_payment command p) [ ok q ↦ q | err e ↦ p ]

  pub next_payment-with_columns :
      (command : PaymentCommand A) (p : Payment A)
      → commanded command p ≡ with_columns p (commanded command p)
  unfolding next_payment charge
  next_payment-with_columns command p = ground arith

module _ {A : Type 0} ⦃d : Decimal A⦄ (server : Postgres A) (laws : Columns server) where
  pub next_payment-stored :
      (command : PaymentCommand A) (p : Payment A)
      → next_payment (stored_command server command) p ≡ next_payment command p
  unfolding next_payment
  next_payment-stored command p =
      ground (arith, validate_balanced-stored server true command.ledger)

  update_command-in_memory :
      (id : String) (q : Payment A) (row : PaymentRow A) (t : Tables A)
      → lookup (as_stored server.uuid id) t.payments ≡ some row
      → succeeds (update_payment server id (set_command server q) t) ≡ true
      → in_memory (tables_after t (update_payment server id (set_command server q) t))
        ≡ (record (in_memory t) {
          payments =
              insert
                (as_stored server.uuid id)
                (with_columns (payment_of_row (as_stored server.uuid id) row) q)
                (in_memory t).payments;
        })
  unfolding update_payment in_memory
  update_command-in_memory id q row t e h =
      let key = as_stored server.uuid id in
      ground (
        arith,
        map_values-insert payment_of_row key
            (record row {
              status = q.status;
              captured_amount = q.captured_amount;
              refunded_amount = q.refunded_amount;
              provider_reference = null_if_empty q.provider_reference;
            })
            t.payments,
        or_empty-null_if_empty q.provider_reference,
        laws.numeric_exact q.captured_amount (as_stored server.numeric q.captured_amount),
        laws.numeric_exact q.refunded_amount (as_stored server.numeric q.refunded_amount),
      )

  payments-in_memory :
      (t : Tables A) → (in_memory t).payments ≡ map_values payment_of_row t.payments
  unfolding in_memory
  payments-in_memory t = refl

  write_command-in_memory :
      (now : ℕ) (command : PaymentCommand A) (q : Payment A) (row : PaymentRow A) (db : Database A)
      → IsNewEvent command.event
      → lookup (as_stored server.uuid q.id) db.tables.payments ≡ some row
      → succeeds (write_command server now command q db).0 ≡ true
      → in_memory (write_command server now command q db).1.tables ≡ (record (in_memory db.tables) {
        payments =
            insert
              (as_stored server.uuid q.id)
              (with_columns (payment_of_row (as_stored server.uuid q.id) row) q)
              (in_memory db.tables).payments;
        ledger = (in_memory db.tables).ledger ++ stored_entries server true command.ledger;
        outbox =
            insert
              (as_stored server.uuid command.event.id)
              (record (stored_event server command.event) {
                aggregate_id = as_stored server.uuid q.id;
              })
              (in_memory db.tables).outbox;
      })
  unfolding write_command statement
  write_command-in_memory now command q row db new found h =
      let db2 = (statement server (update_payment server q.id (set_command server q)) db).1 in
      ground (
        arith,
        update_command-in_memory q.id q row db.tables found,
        file_records-in_memory server laws now true command.ledger q.id command.event db2 (λ c. cc)
            new,
      )

  pub commit-in_memory :
      (command : PaymentCommand A) (db : Database A) (r : Payment A)
      → IsNewEvent command.event
      → (commit_payment_command server command db).0 ≡ ok r
      → in_memory (commit_payment_command server command db).1.tables
        ≡ (Payments.commit_payment_command (stored_command server command) (in_memory db.tables)).1
  unfolding commit_payment_command transaction statement select_row Payments.commit_payment_command
  commit-in_memory command db r new h =
      let key = as_stored server.uuid command.payment_id in
      elim (Option-cases (lookup key db.tables.payments)) [
        | inl missing ↦ ground (arith, missing)
        | inr (row, found) ↦
            let q = commanded command (payment_of_row key row) in
            let db1 =
              (statement server (select_payment server command.payment_id)
                (record db { sent = suc db.sent })).1 in
            ground (
              arith,
              found,
              payments-in_memory db.tables,
              lookup-map_values payment_of_row key db.tables.payments,
              next_payment-stored command (payment_of_row key row),
              next_payment-with_columns command (payment_of_row key row),
              laws.uuid_again command.payment_id key,
              write_command-in_memory (server.clock db.sent) command q row db1 new,
            )
      ]
