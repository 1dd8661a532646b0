-- ===== src/Store/Sql/Rows.antt =====
-- internal/store/postgres.go and migrations/*.sql: how the columns of a row are written, checked and read.
use payment_ledger_platform.Base.{
  Bool, true, false, not, ◌&&◌, String, ◌==◌, Option, none, some, if◌then◌else◌,
}
use payment_ledger_platform.Base.Dict.{Dict, lookup}
use payment_ledger_platform.Error.{Result, ok, err, Done, refuse_if, and_then}
use payment_ledger_platform.Amount.{Decimal}
use payment_ledger_platform.Domain.Payment
use payment_ledger_platform.Domain.Payment.{PaymentStatus, Payment}
use payment_ledger_platform.Domain.Payout
use payment_ledger_platform.Domain.Payout.{PayoutStatus, Payout}
use payment_ledger_platform.Domain.Dispute
use payment_ledger_platform.Domain.Dispute.{DisputeStatus, Dispute}
use payment_ledger_platform.Store.Sql.Tables.{
  PaymentRow, EntryRow, PayoutRow, DisputeRow, Violation, bad_value, Postgres,
}

-- `NULLIF($1, '')` and `COALESCE(column, '')`.
abbrev pub null_if_empty : String → Option String
null_if_empty text = if text == "" then none else some text

abbrev pub or_empty : Option String → String
or_empty none = ""
or_empty (some text) = text

-- The enumerations payment_status, payout_status and dispute_status.
abbrev pub is_payment_status : PaymentStatus → Bool
is_payment_status Payment.unset = false
is_payment_status _ = true

abbrev pub is_payout_status : PayoutStatus → Bool
is_payout_status Payout.unset = false
is_payout_status _ = true

abbrev pub is_dispute_status : DisputeStatus → Bool
is_dispute_status Dispute.unset = false
is_dispute_status _ = true

-- A payment as it is read, with its nine columns.
abbrev pub payment_of_row : {A : Type 0} → String → PaymentRow A → Payment A
payment_of_row id row = record {
  id = id;
  merchant_id = row.merchant_id;
  customer_id = row.customer_id;
  currency = row.currency;
  amount = row.amount;
  captured_amount = row.captured_amount;
  refunded_amount = row.refunded_amount;
  status = row.status;
  provider_reference = or_empty row.provider_reference;
}

abbrev pub payout_of_row : {A : Type 0} → String → PayoutRow A → Payout A
payout_of_row id row = record {
  id = id;
  merchant_id = row.merchant_id;
  currency = row.currency;
  amount = row.amount;
  provider_reference = or_empty row.provider_reference;
  status = row.status;
}

abbrev pub dispute_of_row : {A : Type 0} → String → DisputeRow A → Dispute A
dispute_of_row id row = record {
  id = id;
  payment_id = row.payment_id;
  merchant_id = row.merchant_id;
  currency = row.currency;
  reason = row.reason;
  amount = row.amount;
  status = row.status;
}

module _ {A : Type 0} (server : Postgres A) where
  -- A value on its way into a column.
  abbrev pub stored : {X : Type 0} → Option X → Result X
  stored none = err (server.refusal bad_value)
  stored (some x) = ok x

  abbrev pub check : Bool → Violation → Result Done
  check holds violation = refuse_if (not holds) (server.refusal violation)

  -- `SELECT … FROM table WHERE id = $1`; `none` for no rows.
  unfoldable pub select_row : {R : Type 0} → String → Dict R → Result (Option (String × R))
  select_row id table =
      and_then (stored (server.uuid id))
        λ key. elim (lookup key table) [ none ↦ ok none | some row ↦ ok (some (key, row)) ]

module _ {A : Type 0} ⦃d : Decimal A⦄ where
  -- The CHECK constraints of payments.
  abbrev pub payment_checks : PaymentRow A → Bool
  payment_checks row =
      d.greater_than row.amount d.zero
      && not (d.is_negative row.captured_amount)
      && not (d.is_negative row.refunded_amount)
      && d.less_than_or_equal row.refunded_amount row.captured_amount
      && d.less_than_or_equal row.captured_amount row.amount

  -- The CHECK constraints of ledger_entries.
  abbrev pub entry_checks : EntryRow A → Bool
  entry_checks row =
      not (d.is_negative row.debit)
      && not (d.is_negative row.credit)
      && (if d.is_zero row.debit then not (d.is_zero row.credit) else d.is_zero row.credit)
