-- ===== src/Store/Sql/Refines/Reads.antt =====
-- internal/store/postgres.go: the methods that read an object by its identifier.
use payment_ledger_platform.Base.{◌≡◌, true, false, String, none, some, arith, ℕ, suc}
use payment_ledger_platform.Base.Dict.{lookup, lookup-insert_self}
use payment_ledger_platform.Error.{ok}
use payment_ledger_platform.Amount.{Decimal}
use payment_ledger_platform.Domain.Payment.{Payment}
use payment_ledger_platform.Store.Sql.Tables.{Postgres, Database, statement, transaction}
use payment_ledger_platform.Store.Sql.Rows.{
  select_row, is_payment_status, payment_checks, payment_of_row,
}
use payment_ledger_platform.Store.Sql.Inserts.{insert_payment, insert_key, payment_row}
use payment_ledger_platform.Store.Sql.Abstract.{in_memory}
use payment_ledger_platform.Store.Sql.Refines.Values.{lookup-map_values}
use payment_ledger_platform.Store.Memory.Payments.{next_payment, charge}
use payment_ledger_platform.Store.Memory.Payments
use payment_ledger_platform.Store.Sql.Payments.{get_payment, create_payment, select_existing}

-- Every statement reaches the server.
abbrev pub IsUp : {A : Type 0} → Postgres A → Type 0
IsUp server = (k : ℕ) → server.outage k ≡ none

module _ {A : Type 0} ⦃d : Decimal A⦄ (server : Postgres A) where
  pub get_payment-in_memory :
      (id key : String) (db : Database A)
      → server.outage db.sent ≡ none
      → server.uuid id ≡ some key
      → (get_payment server id db).0 ≡ (Payments.get_payment key (in_memory db.tables)).0
  unfolding get_payment statement select_row Payments.get_payment in_memory
  get_payment-in_memory id key db up h =
      ground (arith, lookup-map_values payment_of_row key db.tables.payments)

  -- With an unknown key and an unused id, a payment with a known status and without captured
  -- and refunded amounts and reference, whose id, currency and amount the columns store as they
  -- are and which meets the table's checks, is created and not a replay, and reading it by its
  -- id afterwards returns exactly that payment, when every statement reaches the server.
  pub create_payment-get_payment :
      (p : Payment A) (key : String) (db : Database A)
      → IsUp server
      → server.uuid p.id ≡ some p.id
      → server.char_3 p.currency ≡ some p.currency
      → server.numeric p.amount ≡ some p.amount
      → p.captured_amount ≡ d.zero
      → p.refunded_amount ≡ d.zero
      → p.provider_reference ≡ ""
      → is_payment_status p.status ≡ true
      → payment_checks (payment_row p p.currency p.amount) ≡ true
      → lookup key db.tables.idempotency_keys ≡ none
      → lookup p.id db.tables.payments ≡ none
      → let (r, db') = create_payment server p key db in
        (r ≡ ok (p, false)) × ((get_payment server p.id db').0 ≡ ok p)
  unfolding create_payment transaction statement select_existing insert_payment insert_key
      get_payment select_row
  create_payment-get_payment p key db up uuid char numeric c r n status checks fresh unused =
      ground (
        arith,
        up db.sent,
        up (suc db.sent),
        up (suc (suc db.sent)),
        up (suc (suc (suc db.sent))),
        up (suc (suc (suc (suc db.sent)))),
        up (suc (suc (suc (suc (suc db.sent))))),
        lookup-insert_self p.id (payment_row p p.currency p.amount) db.tables.payments,
      )
