-- ===== src/Store/Sql/Payments.antt =====
-- internal/store/postgres.go: the payment methods of `PostgresStore`.
use payment_ledger_platform.Base.{
  ℕ, Bool, true, false, not, String, ◌==◌, List, [], ◌∷◌, Option, none, some, if◌then◌else◌,
}
use payment_ledger_platform.Base.Dict.{lookup}
use payment_ledger_platform.Error.{
  not_found, invalid_transition, Result, ok, err, Done, refuse_if, and_then, Exec, pure, lift,
  ◌>>=◌, ◌>>◌,
}
use payment_ledger_platform.Amount.{Decimal}
use payment_ledger_platform.Domain.Payment.{PaymentStatus, Payment, can_transition}
use payment_ledger_platform.Domain.Ledger.{LedgerEntry, validate_balanced}
use payment_ledger_platform.Domain.Outbox.{OutboxEvent, PaymentCommand}
use payment_ledger_platform.Store.Memory.Payments.{with_amount, next_payment}
use payment_ledger_platform.Store.Sql.Tables.{
  PaymentRow, Tables, null_scanned, Postgres, Database, Ending, commits, rolls_back, statement,
  transaction,
}
use payment_ledger_platform.Store.Sql.Rows.{payment_of_row, select_row}
use payment_ledger_platform.Store.Sql.Inserts.{
  insert_payment, insert_key, insert_entry, insert_event,
}
use payment_ledger_platform.Store.Sql.Updates.{update_payment, set_status, set_amounts, set_command}

-- `provider_reference = $1`; NULL equals nothing.
abbrev pub is_reference : String → Option String → Bool
is_reference reference none = false
is_reference reference (some other) = other == reference

-- The first row with the reference, of those in the order of the scan.
abbrev pub row_with_reference :
    {A : Type 0} → String → List (String × PaymentRow A) → Option (String × PaymentRow A)
row_with_reference reference [] = none
row_with_reference reference ((id, row) ∷ rows) =
    if is_reference reference row.provider_reference
    then some (id, row)
    else row_with_reference reference rows

module _ {A : Type 0} ⦃d : Decimal A⦄ (server : Postgres A) where
  -- The row of a key's payment, as `CreatePayment` scans it: seven columns, the last of them into a
  -- text, which refuses NULL. The other amounts keep the zero value.
  abbrev pub scan_existing : String × PaymentRow A → Result (Payment A)
  scan_existing (id, row) = elim row.provider_reference [
    | none ↦ err (server.refusal null_scanned)
    | some reference ↦ ok (record (payment_of_row id row) {
      captured_amount = d.zero;
      refunded_amount = d.zero;
      provider_reference = reference;
    })
  ]

  -- `SELECT … FROM idempotency_keys k JOIN payments p ON p.id = k.payment_id WHERE k.key = $1`
  unfoldable pub select_existing : String → Tables A → Result (Option (Payment A) × Tables A)
  select_existing key t = elim (lookup key t.idempotency_keys) [
    | none ↦ ok (none, t)
    | some id ↦ elim (lookup id t.payments) [
      | none ↦ ok (none, t)
      | some row ↦ and_then (scan_existing (id, row)) λ p. ok (some p, t)
    ]
  ]

  unfoldable pub create_payment : Payment A → String → Exec (Database A) (Payment A × Bool)
  unfolding statement select_existing insert_payment insert_key
  create_payment p key = transaction server λ now. do
    existing ← statement server (select_existing key)
    elim existing [
      | some old ↦ pure (rolls_back (old, true))
      | none ↦ do
        statement server (insert_payment server p)
        statement server (insert_key server key p.id)
        pure (commits (p, false))
    ]

  -- `SELECT … FROM payments WHERE id = $1`, within a transaction and outside.
  abbrev pub select_payment : String → Tables A → Result (Option (String × PaymentRow A) × Tables A)
  select_payment id t = and_then (select_row server id t.payments) λ found. ok (found, t)

  -- `pgx.ErrNoRows` becomes `ErrNotFound`.
  abbrev pub found_payment : Option (String × PaymentRow A) → Result (Payment A)
  found_payment none = err not_found
  found_payment (some (id, row)) = ok (payment_of_row id row)

  unfoldable pub get_payment : String → Exec (Database A) (Payment A)
  unfolding statement select_row
  get_payment id = do found ← statement server (select_payment id); lift (found_payment found)

  unfoldable pub get_payment_by_provider_reference : String → Exec (Database A) (Payment A)
  unfolding statement
  get_payment_by_provider_reference reference = do
    found ←
        statement server λ t. ok (row_with_reference reference (server.scan_payments t.payments), t)
    lift (found_payment found)

  unfoldable pub apply_amount : String → PaymentStatus → A → Exec (Database A) (Payment A)
  unfolding statement select_row with_amount update_payment
  apply_amount id action amount = transaction server λ now. do
    found ← statement server (select_payment id)
    p ← lift (found_payment found)
    p' ← lift (with_amount action amount p)
    statement server (update_payment server id (set_amounts server p'))
    pure (commits p')

  -- `update`
  unfoldable pub update_status : String → PaymentStatus → String → Exec (Database A) (Payment A)
  unfolding statement update_payment
  update_status id status reference = do
    found ← statement server (update_payment server id (set_status server status reference))
    lift (found_payment found)

  unfoldable pub transition : String → PaymentStatus → String → Exec (Database A) (Payment A)
  unfolding get_payment update_status
  transition id to reference = do
    p ← get_payment id
    lift (refuse_if (not (can_transition p to)) invalid_transition)
    update_status id to reference

  -- The loop over the entries; `owned` tells whether they are inserted with a payment.
  unfoldable pub insert_entries : Bool → List (LedgerEntry A) → Exec (Database A) Done
  unfolding statement insert_entry
  insert_entries owned [] = pure tt
  insert_entries owned (entry ∷ entries) = do
    statement server (insert_entry server owned entry)
    insert_entries owned entries

  unfoldable pub append_ledger : List (LedgerEntry A) → Exec (Database A) Done
  unfolding insert_entries
  append_ledger entries = do
    lift (validate_balanced entries)
    transaction server λ now. do insert_entries true entries; pure (commits tt)

  -- The entries and the event that are filed with an object, in its transaction.
  unfoldable pub file_records :
      ℕ → Bool → List (LedgerEntry A) → String → OutboxEvent → Exec (Database A) Done
  unfolding statement insert_entries insert_event
  file_records now owned entries id event = do
    insert_entries owned entries
    statement server (insert_event server now id event)

  -- The writes of `CommitPaymentCommand`.
  unfoldable pub write_command :
      ℕ → PaymentCommand A → Payment A → Exec (Database A) (Ending (Payment A))
  unfolding statement update_payment file_records
  write_command now command q = do
    statement server (update_payment server q.id (set_command server q))
    file_records now true command.ledger q.id command.event
    pure (commits q)

  unfoldable pub commit_payment_command : PaymentCommand A → Exec (Database A) (Payment A)
  unfolding statement select_row next_payment write_command
  commit_payment_command command = transaction server λ now. do
    found ← statement server (select_payment command.payment_id)
    p ← lift (found_payment found)
    q ← lift (next_payment command p)
    write_command now command q
