-- ===== src/Store/Sql/Replay.antt =====
-- internal/store/postgres.go: `CreatePayment` with an idempotency key that is known.
use payment_ledger_platform.Base.{◌≡◌, Bool, true, String, none, some, arith, suc}
use payment_ledger_platform.Base.Dict.{lookup}
use payment_ledger_platform.Error.{Result, ok, err}
use payment_ledger_platform.Amount.{Decimal}
use payment_ledger_platform.Domain.Payment.{Payment}
use payment_ledger_platform.Store.Sql.Tables.{
  PaymentRow, Postgres, Database, null_scanned, statement, transaction,
}
use payment_ledger_platform.Store.Sql.Rows.{payment_of_row}
use payment_ledger_platform.Store.Sql.Payments.{create_payment, select_existing}

module _ {A : Type 0} ⦃d : Decimal A⦄ (server : Postgres A) where
  -- What a replay answers for the row of the key's payment.
  abbrev pub replayed : String → PaymentRow A → Result (Payment A × Bool)
  replayed id row = elim row.provider_reference [
    | none ↦ err (server.refusal null_scanned)
    | some reference ↦ ok (
      record (payment_of_row id row) { captured_amount = d.zero; refunded_amount = d.zero },
      true,
    )
  ]

  -- Creating a payment with a key that is known, when the first two statements reach the
  -- server, changes no table. If the key's payment has a provider reference, the call answers
  -- with that payment as a replay, but with zero for its captured and refunded amounts; if it
  -- has none, the call fails on the NULL.
  pub create_payment-replay :
      (p : Payment A) (key id : String) (row : PaymentRow A) (db : Database A)
      → server.outage db.sent ≡ none
      → server.outage (suc db.sent) ≡ none
      → lookup key db.tables.idempotency_keys ≡ some id
      → lookup id db.tables.payments ≡ some row
      → let (r, db') = create_payment server p key db in
        (r ≡ replayed id row) × (db'.tables ≡ db.tables)
  unfolding create_payment transaction statement select_existing
  create_payment-replay p key id row db up up' known found = ground arith
