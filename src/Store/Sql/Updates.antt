-- ===== src/Store/Sql/Updates.antt =====
-- internal/store/postgres.go: the UPDATE statements and the sum of a balance, with the constraints of migrations/*.sql.
use payment_ledger_platform.Base.{
  ◌&&◌, String, ◌==◌, List, [], ◌∷◌, Option, none, some, if◌then◌else◌,
}
use payment_ledger_platform.Base.Dict.{lookup, insert}
use payment_ledger_platform.Error.{Result, ok, Done, and_then}
use payment_ledger_platform.Amount.{Decimal}
use payment_ledger_platform.Domain.Payment.{PaymentStatus, Payment}
use payment_ledger_platform.Domain.Payout.{PayoutStatus}
use payment_ledger_platform.Domain.Dispute.{DisputeStatus}
use payment_ledger_platform.Store.Sql.Tables.{
  PaymentRow, EntryRow, Tables, bad_value, failed_check, Postgres,
}
use payment_ledger_platform.Store.Sql.Rows.{
  null_if_empty, is_payment_status, is_payout_status, is_dispute_status, stored, check,
  payment_checks,
}

module _ {A : Type 0} ⦃d : Decimal A⦄ (server : Postgres A) where
  -- `UPDATE payments SET … WHERE id = $1`, with the row that it leaves, if there is one.
  unfoldable pub update_payment :
      String
      → (PaymentRow A → Result (PaymentRow A))
      → Tables A
      → Result (Option (String × PaymentRow A) × Tables A)
  update_payment id change t = and_then (stored server (server.uuid id)) λ key.
      elim (lookup key t.payments) [
        | none ↦ ok (none, t)
        | some row ↦ and_then (change row) λ row'.
            and_then (check server (payment_checks row') failed_check)
              λ _. ok (some (key, row'), record t { payments = insert key row' t.payments })
      ]

  -- The columns that `update`, `ApplyAmount` and `CommitPaymentCommand` set.
  abbrev pub set_status : PaymentStatus → String → PaymentRow A → Result (PaymentRow A)
  set_status status reference row =
      and_then (check server (is_payment_status status) bad_value)
        λ _. ok (record row { status = status; provider_reference = null_if_empty reference })

  abbrev pub set_amounts : Payment A → PaymentRow A → Result (PaymentRow A)
  set_amounts p row = and_then (check server (is_payment_status p.status) bad_value) λ _.
      and_then (stored server (server.numeric p.captured_amount)) λ captured.
        and_then (stored server (server.numeric p.refunded_amount)) λ refunded.
          ok (record row {
            status = p.status;
            captured_amount = captured;
            refunded_amount = refunded;
          })

  abbrev pub set_command : Payment A → PaymentRow A → Result (PaymentRow A)
  set_command p row =
      and_then (set_amounts p row)
        λ row'. ok (record row' { provider_reference = null_if_empty p.provider_reference })

  -- `UPDATE payouts SET status, provider_reference WHERE id = $1`
  unfoldable pub update_payout :
      String → PayoutStatus → String → Tables A → Result (Done × Tables A)
  update_payout id status reference t = and_then (stored server (server.uuid id)) λ key.
      and_then (check server (is_payout_status status) bad_value) λ _. elim (lookup key t.payouts) [
        | none ↦ ok (tt, t)
        | some row ↦ ok (
          tt,
          record t {
            payouts =
                insert key
                  (record row { status = status; provider_reference = null_if_empty reference })
                  t.payouts;
          },
        )
      ]

  -- `UPDATE disputes SET status WHERE id = $1`
  unfoldable pub update_dispute : String → DisputeStatus → Tables A → Result (Done × Tables A)
  update_dispute id status t = and_then (stored server (server.uuid id)) λ key.
      and_then (check server (is_dispute_status status) bad_value) λ _.
        elim (lookup key t.disputes) [
          | none ↦ ok (tt, t)
          | some row ↦
              ok
                (tt, record t { disputes = insert key (record row { status = status }) t.disputes })
        ]

  -- `SELECT COALESCE(SUM(credit-debit),0) … WHERE account_id = $1 AND currency = $2`
  unfoldable pub sum_rows : String → String → List (EntryRow A) → A
  sum_rows account currency [] = d.zero
  sum_rows account currency (row ∷ rows) =
      if row.account_id == account && server.same_char row.currency currency
      then d.add (d.sub row.credit row.debit) (sum_rows account currency rows)
      else sum_rows account currency rows
