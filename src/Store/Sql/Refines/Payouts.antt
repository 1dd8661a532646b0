-- ===== src/Store/Sql/Refines/Payouts.antt =====
-- internal/store/postgres.go: the payout methods when they succeed.
use payment_ledger_platform.Base.{
  ◌≡◌, refl, inl, inr, true, false, String, List, some, Option-cases, arith, All, suc,
}
use payment_ledger_platform.Base.Dict.{lookup, insert}
use payment_ledger_platform.Error.{ok}
use payment_ledger_platform.Amount.{Decimal, Meaning}
use payment_ledger_platform.Domain.Ledger.{LedgerEntry}
use payment_ledger_platform.Domain.Outbox.{OutboxEvent}
use payment_ledger_platform.Domain.Payout.{PayoutStatus, Payout}
use payment_ledger_platform.Store.Sql.Tables.{
  PayoutRow, Tables, Postgres, Database, statement, transaction,
}
use payment_ledger_platform.Store.Sql.Rows.{select_row, null_if_empty, payout_of_row}
use payment_ledger_platform.Store.Sql.Inserts.{insert_payout}
use payment_ledger_platform.Store.Sql.Abstract.{
  in_memory, map_values, Columns, as_stored, stored_event, stored_payout, IsEventOf,
}
use payment_ledger_platform.Store.Sql.Refines.Values.{
  succeeds, or_empty-null_if_empty, lookup-map_values, map_values-insert,
}
use payment_ledger_platform.Store.Sql.Refines.Inserts.{insert_payout-in_memory}
use payment_ledger_platform.Store.Sql.Updates.{update_payout}
use payment_ledger_platform.Store.Sql.Abstract.{stored_entries}
use payment_ledger_platform.Store.Sql.Refines.Entries.{
  file_records-in_memory, validate_balanced-stored,
}
use payment_ledger_platform.Store.Sql.Refines.Payments.{tables_after}
use payment_ledger_platform.Store.Memory.Payouts
use payment_ledger_platform.Store.Memory.Payouts.{available_account, sum_account}
use payment_ledger_platform.Store.Sql.Payouts.{create_payout, transition_payout, select_payout}
use payment_ledger_platform.Store.Sql.Refines.Balance.{less_than-balance}

module _ {A : Type 0} ⦃d : Decimal A⦄ (server : Postgres A) where
  payouts-in_memory : (t : Tables A) → (in_memory t).payouts ≡ map_values payout_of_row t.payouts
  unfolding in_memory
  payouts-in_memory t = refl

  insert_payout-currency :
      (p : Payout A) (t : Tables A)
      → succeeds (insert_payout server p t) ≡ true
      → server.char_3 p.currency ≡ some (as_stored server.char_3 p.currency)
  unfolding insert_payout
  insert_payout-currency p t h = ground arith

  update_payout-in_memory :
      (id : String) (status : PayoutStatus) (reference : String) (row : PayoutRow A) (t : Tables A)
      → lookup (as_stored server.uuid id) t.payouts ≡ some row
      → succeeds (update_payout server id status reference t) ≡ true
      → in_memory (tables_after t (update_payout server id status reference t))
        ≡ (record (in_memory t) {
          payouts =
              insert
                (as_stored server.uuid id)
                (record (payout_of_row (as_stored server.uuid id) row) {
                  status = status;
                  provider_reference = reference;
                })
                (in_memory t).payouts;
        })
  unfolding update_payout in_memory
  update_payout-in_memory id status reference row t found h = ground (
    arith,
    or_empty-null_if_empty reference,
    map_values-insert payout_of_row (as_stored server.uuid id)
        (record row { status = status; provider_reference = null_if_empty reference }) t.payouts,
  )

module _ {A V : Type 0} ⦃d : Decimal A⦄ (m : Meaning d V) (server : Postgres A)
    (laws : Columns server) where
  pub create_payout-in_memory :
      (p : Payout A) (entries : List (LedgerEntry A)) (event : OutboxEvent) (db : Database A)
      (r : Payout A)
      → p.provider_reference ≡ ""
      → All (λ e. e.payment_id ≡ "") entries
      → IsEventOf p.id event
      → (create_payout server p entries event db).0 ≡ ok r
      → in_memory (create_payout server p entries event db).1.tables
        ≡ (Payouts.create_payout
            (stored_payout server p)
            (stored_entries server false entries)
            (stored_event server event)
            (in_memory db.tables)).1
  unfolding create_payout transaction statement Payouts.create_payout
  create_payout-in_memory p entries event db r n owners c h =
      let t = tables_after db.tables (insert_payout server p db.tables) in
      let db2 =
        (statement server (insert_payout server p)
          (record db { sent = suc (suc (suc db.sent)) })).1 in
      ground (
        arith,
        insert_payout-currency server p db.tables,
        less_than-balance m server laws (available_account p.merchant_id) p.currency
            (as_stored server.char_3 p.currency) p.amount db.tables,
        validate_balanced-stored server false entries,
        insert_payout-in_memory server laws p db.tables t n,
        file_records-in_memory server laws (server.clock db.sent) false entries p.id event db2
            (λ e. owners) c.0,
      )

  pub transition_payout-in_memory :
      (id : String) (status : PayoutStatus) (reference : String) (entries : List (LedgerEntry A))
      (event : OutboxEvent) (db : Database A) (r : Payout A)
      → All (λ e. e.payment_id ≡ "") entries
      → IsEventOf id event
      → (transition_payout server id status reference entries event db).0 ≡ ok r
      → in_memory (transition_payout server id status reference entries event db).1.tables
        ≡ (Payouts.transition_payout
            (as_stored server.uuid id)
            status
            reference
            (stored_entries server false entries)
            (stored_event server event)
            (in_memory db.tables)).1
  unfolding transition_payout transaction statement select_row Payouts.transition_payout
  transition_payout-in_memory id status reference entries event db r owners c h =
      let key = as_stored server.uuid id in
      let db1 = (statement server (select_payout server id) (record db { sent = suc db.sent })).1 in
      let db2 = (statement server (update_payout server id status reference) db1).1 in
      elim (Option-cases (lookup key db.tables.payouts)) [
        | inl missing ↦ ground (arith, missing)
        | inr (row, found) ↦ ground (
          arith,
          found,
          payouts-in_memory server db.tables,
          lookup-map_values payout_of_row key db.tables.payouts,
          validate_balanced-stored server false entries,
          update_payout-in_memory server id status reference row db.tables found,
          file_records-in_memory server laws (server.clock db.sent) false entries id event db2
              (λ e. owners) c.0,
        )
      ]
