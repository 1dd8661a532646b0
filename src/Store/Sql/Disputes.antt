-- ===== src/Store/Sql/Disputes.antt =====
-- internal/store/postgres.go: the dispute methods of `PostgresStore`.
use payment_ledger_platform.Base.{true, not, ◌||◌, String, List, Option, none, some}
use payment_ledger_platform.Error.{
  not_found, invalid_dispute_transition, Result, ok, err, refuse_if, and_then, Exec, pure, lift,
  ◌>>=◌, ◌>>◌,
}
use payment_ledger_platform.Amount.{Decimal}
use payment_ledger_platform.Domain.Ledger.{LedgerEntry, validate_balanced}
use payment_ledger_platform.Domain.Outbox.{OutboxEvent}
use payment_ledger_platform.Domain.Dispute.{DisputeStatus, Dispute}
use payment_ledger_platform.Store.Memory.Disputes.{is_opened, is_decided}
use payment_ledger_platform.Store.Sql.Tables.{
  DisputeRow, Tables, Postgres, Database, commits, statement, transaction,
}
use payment_ledger_platform.Store.Sql.Rows.{dispute_of_row, select_row}
use payment_ledger_platform.Store.Sql.Inserts.{insert_dispute}
use payment_ledger_platform.Store.Sql.Updates.{update_dispute}
use payment_ledger_platform.Store.Sql.Payments.{file_records}

module _ {A : Type 0} ⦃d : Decimal A⦄ (server : Postgres A) where
  unfoldable pub create_dispute :
      Dispute A → List (LedgerEntry A) → OutboxEvent → Exec (Database A) (Dispute A)
  unfolding statement insert_dispute file_records
  create_dispute dispute entries event = transaction server λ now. do
    lift (validate_balanced entries)
    statement server (insert_dispute server dispute)
    file_records server now true entries dispute.id event
    pure (commits dispute)

  -- `SELECT … FROM disputes WHERE id = $1`
  abbrev pub select_dispute : String → Tables A → Result (Option (String × DisputeRow A) × Tables A)
  select_dispute id t = and_then (select_row server id t.disputes) λ found. ok (found, t)

  abbrev pub found_dispute : Option (String × DisputeRow A) → Result (Dispute A)
  found_dispute none = err not_found
  found_dispute (some (id, row)) = ok (dispute_of_row id row)

  unfoldable pub get_dispute : String → Exec (Database A) (Dispute A)
  unfolding statement select_row
  get_dispute id = do found ← statement server (select_dispute id); lift (found_dispute found)

  unfoldable pub resolve_dispute :
      String → DisputeStatus → List (LedgerEntry A) → OutboxEvent → Exec (Database A) (Dispute A)
  unfolding statement select_row update_dispute file_records
  resolve_dispute id status entries event = transaction server λ now. do
    found ← statement server (select_dispute id)
    dispute ← lift (found_dispute found)
    lift (
        refuse_if (not (is_opened dispute.status) || not (is_decided status))
          invalid_dispute_transition)
    lift (validate_balanced entries)
    statement server (update_dispute server id status)
    file_records server now true entries id event
    pure (commits (record dispute { status = status }))
