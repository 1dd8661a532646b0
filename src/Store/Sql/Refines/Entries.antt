-- ===== src/Store/Sql/Refines/Entries.antt =====
-- internal/store/postgres.go: the loop that inserts the entries of the ledger, when it succeeds.
use payment_ledger_platform.Base.{
  ◌≡◌, refl, Bool, true, false, String, List, [], ◌∷◌, ◌++◌, arith, All, ℕ, suc, length, append-nil,
  append_assoc,
}
use payment_ledger_platform.Base.Dict.{insert}
use payment_ledger_platform.Error.{ok, Done}
use payment_ledger_platform.Amount.{Decimal}
use payment_ledger_platform.Domain.Ledger.{
  LedgerEntry, validate_balanced, sum_entries, is_malformed,
}
use payment_ledger_platform.Domain.Outbox.{OutboxEvent}
use payment_ledger_platform.Store.Sql.Tables.{Tables, Postgres, Database, statement, transaction}
use payment_ledger_platform.Store.Sql.Inserts.{insert_entry, insert_event}
use payment_ledger_platform.Store.Sql.Abstract.{
  in_memory, entries_in_memory, Columns, as_stored, stored_entry, stored_event, IsNewEvent,
}
use payment_ledger_platform.Store.Memory.Payments
use payment_ledger_platform.Store.Sql.Payments.{insert_entries, append_ledger, file_records}
use payment_ledger_platform.Store.Sql.Abstract.{stored_entries}
use payment_ledger_platform.Store.Sql.Refines.Inserts.{
  insert_entry-in_memory, insert_event-in_memory,
}
use payment_ledger_platform.Store.Sql.Refines.Values.{succeeds}

module _ {A : Type 0} ⦃d : Decimal A⦄ (server : Postgres A) where
  sum_entries-stored :
      (owned : Bool) (entries : List (LedgerEntry A)) (debit credit : A)
      → sum_entries (stored_entries server owned entries) debit credit
        ≡ sum_entries entries debit credit
  unfolding sum_entries stored_entries is_malformed
  sum_entries-stored owned [] debit credit = refl
  sum_entries-stored owned (e ∷ es) debit credit =
      ground (arith, sum_entries-stored owned es (d.add debit e.debit) (d.add credit e.credit))

  length-stored_entries :
      (owned : Bool) (entries : List (LedgerEntry A))
      → length (stored_entries server owned entries) ≡ length entries
  unfolding stored_entries
  length-stored_entries owned [] = refl
  length-stored_entries owned (e ∷ es) = ground (arith, length-stored_entries owned es)

  -- A transaction is balanced as it is stored if it is balanced as it is given.
  pub validate_balanced-stored :
      (owned : Bool) (entries : List (LedgerEntry A))
      → validate_balanced (stored_entries server owned entries) ≡ validate_balanced entries
  unfolding validate_balanced
  validate_balanced-stored owned entries =
      ground
        (arith, length-stored_entries owned entries, sum_entries-stored owned entries d.zero d.zero)

module _ {A : Type 0} ⦃d : Decimal A⦄ (server : Postgres A) (laws : Columns server) where
  ledger-in_memory : (t : Tables A) → (in_memory t).ledger ≡ entries_in_memory t.ledger_entries
  unfolding in_memory
  ledger-in_memory t = refl

  pub insert_entries-in_memory :
      (owned : Bool) (entries : List (LedgerEntry A)) (db : Database A) (x : Done)
      → (owned ≡ false → All (λ e. e.payment_id ≡ "") entries)
      → (insert_entries server owned entries db).0 ≡ ok x
      → in_memory (insert_entries server owned entries db).1.tables
        ≡ (record (in_memory db.tables) {
          ledger = (in_memory db.tables).ledger ++ stored_entries server owned entries;
        })
  unfolding insert_entries stored_entries statement
  insert_entries-in_memory owned [] db x owners h =
      ground (arith, append-nil (in_memory db.tables).ledger)
  insert_entries-in_memory owned (e ∷ es) db x owners h =
      let db' = (statement server (insert_entry server owned e) db).1 in
      ground (
        arith,
        insert_entry-in_memory server laws owned e db.tables db'.tables (λ c. (owners c).0),
        insert_entries-in_memory owned es db' x (λ c. (owners c).1),
        append_assoc (in_memory db.tables).ledger (stored_entry server owned e ∷ [])
            (stored_entries server owned es),
      )

  pub append_ledger-in_memory :
      (entries : List (LedgerEntry A)) (db : Database A) (x : Done)
      → (append_ledger server entries db).0 ≡ ok x
      → in_memory (append_ledger server entries db).1.tables
        ≡ (Payments.append_ledger (stored_entries server true entries) (in_memory db.tables)).1
  unfolding append_ledger transaction Payments.append_ledger
  append_ledger-in_memory entries db x h =
      let db' = record db { sent = suc db.sent } in
      ground (
        arith,
        validate_balanced-stored server true entries,
        insert_entries-in_memory true entries db' tt (λ c. cc),
      )

  pub file_records-in_memory :
      (now : ℕ) (owned : Bool) (entries : List (LedgerEntry A)) (id : String) (event : OutboxEvent)
      (db : Database A)
      → (owned ≡ false → All (λ e. e.payment_id ≡ "") entries)
      → IsNewEvent event
      → succeeds (file_records server now owned entries id event db).0 ≡ true
      → in_memory (file_records server now owned entries id event db).1.tables
        ≡ (record (in_memory db.tables) {
          ledger = (in_memory db.tables).ledger ++ stored_entries server owned entries;
          outbox =
              insert
                (as_stored server.uuid event.id)
                (record (stored_event server event) { aggregate_id = as_stored server.uuid id })
                (in_memory db.tables).outbox;
        })
  unfolding file_records statement
  file_records-in_memory now owned entries id event db owners new h =
      let db1 = (insert_entries server owned entries db).1 in
      let db2 = (statement server (insert_event server now id event) db1).1 in
      ground (
        arith,
        insert_entries-in_memory owned entries db tt owners,
        insert_event-in_memory server laws now id event db1.tables db2.tables new,
      )
