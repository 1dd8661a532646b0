-- ===== src/Store/Sql/Refines/Disputes.antt =====
-- internal/store/postgres.go: the dispute methods when they succeed.
use payment_ledger_platform.Base.{
  ◌≡◌, refl, inl, inr, true, String, List, none, some, Option-cases, arith, suc,
}
use payment_ledger_platform.Base.Dict.{lookup, insert}
use payment_ledger_platform.Error.{ok}
use payment_ledger_platform.Amount.{Decimal}
use payment_ledger_platform.Domain.Ledger.{LedgerEntry}
use payment_ledger_platform.Domain.Outbox.{OutboxEvent}
use payment_ledger_platform.Domain.Dispute.{DisputeStatus, Dispute}
use payment_ledger_platform.Store.Sql.Tables.{
  DisputeRow, Tables, Postgres, Database, statement, transaction,
}
use payment_ledger_platform.Store.Sql.Rows.{select_row, dispute_of_row}
use payment_ledger_platform.Store.Sql.Inserts.{insert_dispute}
use payment_ledger_platform.Store.Sql.Abstract.{
  in_memory, map_values, Columns, as_stored, stored_event, stored_dispute, IsEventOf,
}
use payment_ledger_platform.Store.Sql.Refines.Values.{
  succeeds, lookup-map_values, map_values-insert,
}
use payment_ledger_platform.Store.Sql.Refines.Inserts.{insert_dispute-in_memory}
use payment_ledger_platform.Store.Sql.Updates.{update_dispute}
use payment_ledger_platform.Store.Sql.Abstract.{stored_entries}
use payment_ledger_platform.Store.Sql.Refines.Entries.{
  file_records-in_memory, validate_balanced-stored,
}
use payment_ledger_platform.Store.Sql.Refines.Payments.{tables_after}
use payment_ledger_platform.Store.Memory.Disputes
use payment_ledger_platform.Store.Sql.Disputes.{create_dispute, resolve_dispute, select_dispute}

module _ {A : Type 0} ⦃d : Decimal A⦄ (server : Postgres A) (laws : Columns server) where
  disputes-in_memory :
      (t : Tables A) → (in_memory t).disputes ≡ map_values dispute_of_row t.disputes
  unfolding in_memory
  disputes-in_memory t = refl

  insert_dispute-new :
      (p : Dispute A) (t : Tables A)
      → succeeds (insert_dispute server p t) ≡ true
      → lookup (as_stored server.uuid p.id) t.disputes ≡ none
  unfolding insert_dispute
  insert_dispute-new p t h = ground arith

  pub create_dispute-in_memory :
      (p : Dispute A) (entries : List (LedgerEntry A)) (event : OutboxEvent) (db : Database A)
      (r : Dispute A)
      → IsEventOf p.id event
      → (create_dispute server p entries event db).0 ≡ ok r
      → in_memory (create_dispute server p entries event db).1.tables
        ≡ (Disputes.create_dispute
            (stored_dispute server p)
            (stored_entries server true entries)
            (stored_event server event)
            (in_memory db.tables)).1
  unfolding create_dispute transaction statement Disputes.create_dispute
  create_dispute-in_memory p entries event db r c h =
      let t = tables_after db.tables (insert_dispute server p db.tables) in
      let db2 = (statement server (insert_dispute server p) (record db { sent = suc db.sent })).1 in
      ground (
        arith,
        disputes-in_memory db.tables,
        lookup-map_values dispute_of_row (as_stored server.uuid p.id) db.tables.disputes,
        validate_balanced-stored server true entries,
        insert_dispute-new p db.tables,
        insert_dispute-in_memory server laws p db.tables t,
        file_records-in_memory server laws (server.clock db.sent) true entries p.id event db2
            (λ e. cc) c.0,
      )

  update_dispute-in_memory :
      (id : String) (status : DisputeStatus) (row : DisputeRow A) (t : Tables A)
      → lookup (as_stored server.uuid id) t.disputes ≡ some row
      → succeeds (update_dispute server id status t) ≡ true
      → in_memory (tables_after t (update_dispute server id status t)) ≡ (record (in_memory t) {
        disputes =
            insert
              (as_stored server.uuid id)
              (record (dispute_of_row (as_stored server.uuid id) row) { status = status })
              (in_memory t).disputes;
      })
  unfolding update_dispute in_memory
  update_dispute-in_memory id status row t found h = ground (
    arith,
    map_values-insert dispute_of_row (as_stored server.uuid id) (record row { status = status })
        t.disputes,
  )

  pub resolve_dispute-in_memory :
      (id : String) (status : DisputeStatus) (entries : List (LedgerEntry A)) (event : OutboxEvent)
      (db : Database A) (r : Dispute A)
      → IsEventOf id event
      → (resolve_dispute server id status entries event db).0 ≡ ok r
      → in_memory (resolve_dispute server id status entries event db).1.tables
        ≡ (Disputes.resolve_dispute
            (as_stored server.uuid id)
            status
            (stored_entries server true entries)
            (stored_event server event)
            (in_memory db.tables)).1
  unfolding resolve_dispute transaction statement select_row Disputes.resolve_dispute
  resolve_dispute-in_memory id status entries event db r c h =
      let key = as_stored server.uuid id in
      let db1 =
        (statement server (select_dispute server id) (record db { sent = suc db.sent })).1 in
      let db2 = (statement server (update_dispute server id status) db1).1 in
      elim (Option-cases (lookup key db.tables.disputes)) [
        | inl missing ↦ ground (arith, missing)
        | inr (row, found) ↦ ground (
          arith,
          found,
          disputes-in_memory db.tables,
          lookup-map_values dispute_of_row key db.tables.disputes,
          validate_balanced-stored server true entries,
          update_dispute-in_memory id status row db.tables found,
          file_records-in_memory server laws (server.clock db.sent) true entries id event db2
              (λ e. cc) c.0,
        )
      ]
