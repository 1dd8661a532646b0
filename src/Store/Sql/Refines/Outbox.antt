-- ===== src/Store/Sql/Refines/Outbox.antt =====
-- internal/store/postgres.go: the outbox and webhook methods when they succeed.
use payment_ledger_platform.Base.{◌≡◌, inl, inr, Bool, String, some, Option-cases, arith}
use payment_ledger_platform.Base.Dict.{lookup}
use payment_ledger_platform.Error.{ok, Done}
use payment_ledger_platform.Amount.{Decimal}
use payment_ledger_platform.Domain.Outbox.{OutboxEvent}
use payment_ledger_platform.Store.Sql.Tables.{Postgres, Database, statement, alone}
use payment_ledger_platform.Store.Sql.Inserts.{insert_event}
use payment_ledger_platform.Store.Sql.Abstract.{
  in_memory, event_in_memory, Columns, as_stored, stored_event, IsNewEvent,
}
use payment_ledger_platform.Store.Sql.Refines.Values.{lookup-map_values, map_values-insert}
use payment_ledger_platform.Store.Sql.Refines.Inserts.{insert_event-in_memory}
use payment_ledger_platform.Store.Memory.Outbox
use payment_ledger_platform.Store.Sql.Outbox.{enqueue, mark_published, register_webhook}
use payment_ledger_platform.Store.Sql.Refines.Payments.{tables_after}

module _ {A : Type 0} ⦃d : Decimal A⦄ (server : Postgres A) where
  pub enqueue-in_memory :
      (event : OutboxEvent) (db : Database A) (x : Done)
      → Columns server
      → IsNewEvent event
      → (enqueue server event db).0 ≡ ok x
      → in_memory (enqueue server event db).1.tables
        ≡ (Outbox.enqueue (stored_event server event) (in_memory db.tables)).1
  unfolding enqueue alone statement Outbox.enqueue
  enqueue-in_memory event db x laws new h =
      let now = server.clock db.sent in
      let t = tables_after db.tables (insert_event server now event.aggregate_id event db.tables) in
      ground
        (arith, insert_event-in_memory server laws now event.aggregate_id event db.tables t new)

  -- An event that is missing is no error of PostgreSQL, and changes nothing in either store.
  pub mark_published-in_memory :
      (id : String) (db : Database A) (x : Done)
      → (mark_published server id db).0 ≡ ok x
      → in_memory (mark_published server id db).1.tables
        ≡ (Outbox.mark_published (as_stored server.uuid id) (in_memory db.tables)).1
  unfolding mark_published alone statement Outbox.mark_published in_memory
  mark_published-in_memory id db x h =
      let key = as_stored server.uuid id in
      elim (Option-cases (lookup key db.tables.outbox_events)) [
        | inl missing ↦
            ground (arith, missing, lookup-map_values event_in_memory key db.tables.outbox_events)
        | inr (row, found) ↦ ground (
          arith,
          found,
          lookup-map_values event_in_memory key db.tables.outbox_events,
          map_values-insert event_in_memory key
              (record row { published_at = some (server.clock db.sent) }) db.tables.outbox_events,
        )
      ]

  pub register_webhook-in_memory :
      (id : String) (db : Database A) (x : Bool)
      → (register_webhook server id db).0 ≡ ok x
      → in_memory (register_webhook server id db).1.tables
        ≡ (Outbox.register_webhook id (in_memory db.tables)).1
  unfolding register_webhook alone statement Outbox.register_webhook in_memory
  register_webhook-in_memory id db x h = ground arith
