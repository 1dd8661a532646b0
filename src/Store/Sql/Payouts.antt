-- ===== src/Store/Sql/Payouts.antt =====
-- internal/store/postgres.go: the payout methods of `PostgresStore`.
use payment_ledger_platform.Base.{false, not, ◌||◌, String, List, Option, none, some}
use payment_ledger_platform.Error.{
  not_found, insufficient_balance, invalid_payout_transition, Result, ok, err, refuse_if, and_then,
  Exec, pure, lift, ◌>>=◌, ◌>>◌,
}
use payment_ledger_platform.Amount.{Decimal}
use payment_ledger_platform.Domain.Ledger.{LedgerEntry, validate_balanced}
use payment_ledger_platform.Domain.Outbox.{OutboxEvent}
use payment_ledger_platform.Domain.Payout.{PayoutStatus, Payout}
use payment_ledger_platform.Store.Memory.Payouts.{available_account, is_pending, is_terminal}
use payment_ledger_platform.Store.Sql.Tables.{
  PayoutRow, Tables, Postgres, Database, commits, statement, transaction,
}
use payment_ledger_platform.Store.Sql.Rows.{payout_of_row, select_row}
use payment_ledger_platform.Store.Sql.Inserts.{insert_payout}
use payment_ledger_platform.Store.Sql.Updates.{update_payout, sum_rows}
use payment_ledger_platform.Store.Sql.Payments.{file_records}

module _ {A : Type 0} ⦃d : Decimal A⦄ (server : Postgres A) where
  -- The balance as a statement.
  abbrev pub select_balance : String → String → Tables A → Result (A × Tables A)
  select_balance merchant currency t =
      ok (sum_rows server (available_account merchant) currency t.ledger_entries, t)

  unfoldable pub available_balance : String → String → Exec (Database A) A
  unfolding statement sum_rows
  available_balance merchant currency = statement server (select_balance merchant currency)

  -- `SELECT … FROM payouts WHERE id = $1`
  abbrev pub select_payout : String → Tables A → Result (Option (String × PayoutRow A) × Tables A)
  select_payout id t = and_then (select_row server id t.payouts) λ found. ok (found, t)

  abbrev pub found_payout : Option (String × PayoutRow A) → Result (Payout A)
  found_payout none = err not_found
  found_payout (some (id, row)) = ok (payout_of_row id row)

  -- The first statement takes the lock of the merchant and the currency.
  unfoldable pub create_payout :
      Payout A → List (LedgerEntry A) → OutboxEvent → Exec (Database A) (Payout A)
  unfolding statement sum_rows insert_payout file_records
  create_payout p entries event = transaction server λ now. do
    statement server λ t. ok (tt, t)
    balance ← statement server (select_balance p.merchant_id p.currency)
    lift (refuse_if (d.less_than balance p.amount) insufficient_balance)
    lift (validate_balanced entries)
    statement server (insert_payout server p)
    file_records server now false entries p.id event
    pure (commits p)

  unfoldable pub get_payout : String → Exec (Database A) (Payout A)
  unfolding statement select_row
  get_payout id = do found ← statement server (select_payout id); lift (found_payout found)

  unfoldable pub transition_payout :
      String
      → PayoutStatus
      → String
      → List (LedgerEntry A)
      → OutboxEvent
      → Exec (Database A) (Payout A)
  unfolding statement select_row update_payout file_records
  transition_payout id status reference entries event = transaction server λ now. do
    found ← statement server (select_payout id)
    p ← lift (found_payout found)
    lift (
        refuse_if (not (is_pending p.status) || not (is_terminal status)) invalid_payout_transition)
    lift (validate_balanced entries)
    statement server (update_payout server id status reference)
    file_records server now false entries id event
    pure (commits (record p { status = status; provider_reference = reference }))
