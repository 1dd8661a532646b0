-- ===== src/Store/Sql/Refines/Payments.antt =====
-- internal/store/postgres.go: a payment method that succeeds does to the tables what the method of the
-- store in memory does to the store that they stand for.
use payment_ledger_platform.Base.{
  ◌≡◌, refl, inl, inr, Bool, String, none, some, Option-cases, arith,
}
use payment_ledger_platform.Base.Dict.{lookup, insert}
use payment_ledger_platform.Error.{Result, ok, err}
use payment_ledger_platform.Amount.{Decimal}
use payment_ledger_platform.Domain.Payment.{PaymentStatus, Payment}
use payment_ledger_platform.Store.Sql.Tables.{
  PaymentRow, Tables, Postgres, Database, statement, transaction,
}
use payment_ledger_platform.Store.Sql.Rows.{select_row, null_if_empty, payment_of_row}
use payment_ledger_platform.Store.Sql.Inserts.{insert_payment, insert_key}
use payment_ledger_platform.Store.Sql.Abstract.{in_memory, Columns, as_stored, stored_payment}
use payment_ledger_platform.Store.Sql.Refines.Values.{
  or_empty-null_if_empty, lookup-map_values, map_values-insert,
}
use payment_ledger_platform.Store.Sql.Refines.Inserts.{
  insert_payment-in_memory, insert_key-in_memory,
}
use payment_ledger_platform.Store.Memory.Payments
use payment_ledger_platform.Store.Memory.Payments.{next_payment, with_amount}
use payment_ledger_platform.Store.Sql.Payments.{
  create_payment, transition, select_existing, get_payment, update_status, apply_amount,
}
use payment_ledger_platform.Store.Sql.Updates.{update_payment}

-- The tables that a statement leaves.
abbrev pub tables_after : {A X : Type 0} → Tables A → Result (X × Tables A) → Tables A
tables_after t (ok (x, t')) = t'
tables_after t (err e) = t

module _ {A : Type 0} ⦃d : Decimal A⦄ (server : Postgres A) (laws : Columns server) where
  insert_key-new :
      (key id : String) (t t' : Tables A)
      → insert_key server key id t ≡ ok (tt, t')
      → lookup key t.idempotency_keys ≡ none
  unfolding insert_key
  insert_key-new key id t t' h = ground arith

  insert_payment-keys :
      (p : Payment A) (t t' : Tables A)
      → insert_payment server p t ≡ ok (tt, t')
      → t'.idempotency_keys ≡ t.idempotency_keys
  unfolding insert_payment
  insert_payment-keys p t t' h = ground arith

  keys-in_memory : (t : Tables A) → (in_memory t).keys ≡ t.idempotency_keys
  unfolding in_memory
  keys-in_memory t = refl

  pub create_payment-in_memory :
      (p : Payment A) (key : String) (db : Database A) (r : Payment A × Bool)
      → p.captured_amount ≡ d.zero
      → p.refunded_amount ≡ d.zero
      → p.provider_reference ≡ ""
      → (create_payment server p key db).0 ≡ ok r
      → in_memory (create_payment server p key db).1.tables
        ≡ (Payments.create_payment (stored_payment server p) key (in_memory db.tables)).1
  unfolding create_payment transaction statement select_existing Payments.create_payment
  create_payment-in_memory p key db r c e n h =
      let t = tables_after db.tables (insert_payment server p db.tables) in
      let t' = tables_after t (insert_key server key p.id t) in
      ground (
        arith,
        insert_payment-in_memory server laws p db.tables t c e n,
        insert_key-in_memory server laws key p.id t t',
        insert_key-new key p.id t t',
        insert_payment-keys p db.tables t,
        keys-in_memory db.tables,
        keys-in_memory t,
      )

  pub update_payment-in_memory :
      (id : String) (change : PaymentRow A → Result (PaymentRow A)) (t t' : Tables A) (key : String)
      (row : PaymentRow A)
      → update_payment server id change t ≡ ok (some (key, row), t')
      → in_memory t' ≡ (record (in_memory t) {
        payments = insert key (payment_of_row key row) (in_memory t).payments;
      })
  unfolding update_payment in_memory
  update_payment-in_memory id change t t' key row h =
      ground (arith, map_values-insert payment_of_row key row t.payments)

  lookup_payment-in_memory :
      (id : String) (t : Tables A)
      → lookup id (in_memory t).payments
        ≡ elim (lookup id t.payments) [ none ↦ none | some row ↦ some (payment_of_row id row) ]
  unfolding in_memory
  lookup_payment-in_memory id t = lookup-map_values payment_of_row id t.payments

  pub transition-in_memory :
      (id : String) (to : PaymentStatus) (reference : String) (db : Database A) (p : Payment A)
      → (transition server id to reference db).0 ≡ ok p
      → in_memory (transition server id to reference db).1.tables
        ≡ (Payments.transition (as_stored server.uuid id) to reference (in_memory db.tables)).1
  unfolding transition get_payment update_status statement select_row update_payment
      Payments.transition in_memory
  transition-in_memory id to reference db p h =
      let key = as_stored server.uuid id in
      elim (Option-cases (lookup key db.tables.payments)) [
        | inl missing ↦ ground (arith, missing)
        | inr (row, found) ↦ ground (
          arith,
          found,
          lookup-map_values payment_of_row key db.tables.payments,
          map_values-insert payment_of_row key
              (record row { status = to; provider_reference = null_if_empty reference })
              db.tables.payments,
          or_empty-null_if_empty reference,
        )
      ]

  abbrev pub taken_amount : PaymentStatus → A → Payment A → Payment A
  taken_amount action amount p = elim (with_amount action amount p) [ ok p' ↦ p' | err e ↦ p ]

  pub with_amount-keeps :
      (action : PaymentStatus) (amount : A) (p : Payment A)
      → taken_amount action amount p ≡ (record p {
        status = (taken_amount action amount p).status;
        captured_amount = (taken_amount action amount p).captured_amount;
        refunded_amount = (taken_amount action amount p).refunded_amount;
      })
  unfolding with_amount
  with_amount-keeps action amount p = ground arith

  pub apply_amount-in_memory :
      (id : String) (action : PaymentStatus) (amount : A) (db : Database A) (p : Payment A)
      → (apply_amount server id action amount db).0 ≡ ok p
      → in_memory (apply_amount server id action amount db).1.tables
        ≡ (Payments.apply_amount (as_stored server.uuid id) action amount (in_memory db.tables)).1
  unfolding apply_amount transaction statement select_row update_payment Payments.apply_amount
      in_memory
  apply_amount-in_memory id action amount db p h =
      let key = as_stored server.uuid id in
      elim (Option-cases (lookup key db.tables.payments)) [
        | inl missing ↦ ground (arith, missing)
        | inr (row, found) ↦
            let p' = taken_amount action amount (payment_of_row key row) in
            ground (
              arith,
              found,
              lookup-map_values payment_of_row key db.tables.payments,
              map_values-insert payment_of_row key
                  (record row {
                    status = p'.status;
                    captured_amount = p'.captured_amount;
                    refunded_amount = p'.refunded_amount;
                  })
                  db.tables.payments,
              laws.numeric_exact p'.captured_amount (as_stored server.numeric p'.captured_amount),
              laws.numeric_exact p'.refunded_amount (as_stored server.numeric p'.refunded_amount),
              with_amount-keeps action amount (payment_of_row key row),
            )
      ]
