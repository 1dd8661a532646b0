-- ===== src/Store/Sql/Refines/Inserts.antt =====
-- internal/store/postgres.go: the statements that succeed, as changes of the store in memory.
use payment_ledger_platform.Base.{
  ◌≡◌, Bool, true, false, String, [], ◌∷◌, ◌++◌, Option, none, some, arith, ℕ,
}
use payment_ledger_platform.Base.Dict.{insert}
use payment_ledger_platform.Error.{ok}
use payment_ledger_platform.Amount.{Decimal}
use payment_ledger_platform.Domain.Payment.{Payment}
use payment_ledger_platform.Domain.Ledger.{LedgerEntry}
use payment_ledger_platform.Domain.Outbox.{OutboxEvent}
use payment_ledger_platform.Domain.Payout.{Payout}
use payment_ledger_platform.Domain.Dispute.{Dispute}
use payment_ledger_platform.Store.Sql.Tables.{Tables, Postgres}
use payment_ledger_platform.Store.Sql.Rows.{payment_of_row, payout_of_row, dispute_of_row}
use payment_ledger_platform.Store.Sql.Inserts.{
  insert_payment, insert_key, insert_entry, insert_event, insert_payout, insert_dispute,
  payment_row, entry_row, event_row, payout_row, dispute_row,
}
use payment_ledger_platform.Store.Sql.Abstract.{
  in_memory, entries_in_memory, event_in_memory, Columns, as_stored, stored_payment, stored_entry,
  stored_event, stored_payout, stored_dispute, IsNewEvent,
}
use payment_ledger_platform.Store.Sql.Refines.Values.{map_values-insert, entries_in_memory-append}

module _ {A : Type 0} ⦃d : Decimal A⦄ (server : Postgres A) (laws : Columns server) where
  pub insert_payment-in_memory :
      (p : Payment A) (t t' : Tables A)
      → p.captured_amount ≡ d.zero
      → p.refunded_amount ≡ d.zero
      → p.provider_reference ≡ ""
      → insert_payment server p t ≡ ok (tt, t')
      → in_memory t' ≡ (record (in_memory t) {
        payments =
            insert (stored_payment server p).id (stored_payment server p) (in_memory t).payments;
      })
  unfolding insert_payment in_memory
  insert_payment-in_memory p t t' c r e h = ground (
    arith,
    map_values-insert payment_of_row (as_stored server.uuid p.id)
        (payment_row p (as_stored server.char_3 p.currency) (as_stored server.numeric p.amount))
        t.payments,
    laws.numeric_exact p.amount (as_stored server.numeric p.amount),
  )

  pub insert_key-in_memory :
      (key id : String) (t t' : Tables A)
      → insert_key server key id t ≡ ok (tt, t')
      → in_memory t'
        ≡ (record (in_memory t) { keys = insert key (as_stored server.uuid id) (in_memory t).keys })
  unfolding insert_key in_memory
  insert_key-in_memory key id t t' h = ground arith

  abbrev stored_owner_column : Bool → LedgerEntry A → Option String
  stored_owner_column true e = some (as_stored server.uuid e.payment_id)
  stored_owner_column false e = none

  pub insert_entry-in_memory :
      (owned : Bool) (e : LedgerEntry A) (t t' : Tables A)
      → (owned ≡ false → e.payment_id ≡ "")
      → insert_entry server owned e t ≡ ok (tt, t')
      → in_memory t' ≡ (record (in_memory t) {
        ledger = (in_memory t).ledger ++ stored_entry server owned e ∷ [];
      })
  unfolding insert_entry in_memory entries_in_memory
  insert_entry-in_memory owned e t t' c h = ground (
    arith,
    entries_in_memory-append t.ledger_entries (
        entry_row e (as_stored server.uuid e.id) (stored_owner_column owned e)
          (as_stored server.char_3 e.currency) (as_stored server.numeric e.debit)
          (as_stored server.numeric e.credit)
        ∷ []),
    laws.numeric_exact e.debit (as_stored server.numeric e.debit),
    laws.numeric_exact e.credit (as_stored server.numeric e.credit),
  )

  pub insert_event-in_memory :
      (now : ℕ) (id : String) (event : OutboxEvent) (t t' : Tables A)
      → IsNewEvent event
      → insert_event server now id event t ≡ ok (tt, t')
      → in_memory t' ≡ (record (in_memory t) {
        outbox =
            insert
              (as_stored server.uuid event.id)
              (record (stored_event server event) { aggregate_id = as_stored server.uuid id })
              (in_memory t).outbox;
      })
  unfolding insert_event in_memory
  insert_event-in_memory now id event t t' c h = ground (
    arith,
    map_values-insert event_in_memory (as_stored server.uuid event.id)
        (event_row event now (as_stored server.uuid id) (as_stored server.jsonb event.payload))
        t.outbox_events,
  )

  pub insert_payout-in_memory :
      (p : Payout A) (t t' : Tables A)
      → p.provider_reference ≡ ""
      → insert_payout server p t ≡ ok (tt, t')
      → in_memory t' ≡ (record (in_memory t) {
        payouts = insert (stored_payout server p).id (stored_payout server p) (in_memory t).payouts;
      })
  unfolding insert_payout in_memory
  insert_payout-in_memory p t t' c h = ground (
    arith,
    map_values-insert payout_of_row (as_stored server.uuid p.id)
        (payout_row p (as_stored server.char_3 p.currency) (as_stored server.numeric p.amount))
        t.payouts,
    laws.numeric_exact p.amount (as_stored server.numeric p.amount),
  )

  pub insert_dispute-in_memory :
      (p : Dispute A) (t t' : Tables A)
      → insert_dispute server p t ≡ ok (tt, t')
      → in_memory t' ≡ (record (in_memory t) {
        disputes =
            insert (stored_dispute server p).id (stored_dispute server p) (in_memory t).disputes;
      })
  unfolding insert_dispute in_memory
  insert_dispute-in_memory p t t' h = ground (
    arith,
    map_values-insert dispute_of_row (as_stored server.uuid p.id)
        (dispute_row p (as_stored server.uuid p.payment_id) (as_stored server.char_3 p.currency)
          (as_stored server.numeric p.amount))
        t.disputes,
    laws.numeric_exact p.amount (as_stored server.numeric p.amount),
  )
