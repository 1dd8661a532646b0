-- ===== src/Domain/Ledger.antt =====
-- internal/domain/payment.go: ledger entries and the double-entry check.
pub mod Balance
pub mod Accounts
use mathlib.Core.Bool.{beq}
use payment_ledger_platform.Base.{Bool, ◌||◌, String, List, [], ◌∷◌, length, ltb, if◌then◌else◌}
use payment_ledger_platform.Error.{
  Error, too_few_entries, entry_not_one_sided, not_balanced, Result, ok, err, Done, and_then,
}
use payment_ledger_platform.Amount.{Decimal}

pub record LedgerEntry (A : Type 0) : Type 0 where
  pub id : String
  pub payment_id : String
  pub account_id : String
  pub currency : String
  pub debit : A
  pub credit : A

module _ {A : Type 0} ⦃d : Decimal A⦄ where
  -- The test in the loop of `ValidateBalanced`.
  unfoldable pub is_malformed : LedgerEntry A → Bool
  is_malformed e =
      d.is_negative e.debit
      || d.is_negative e.credit
      || beq (d.is_zero e.debit) (d.is_zero e.credit)

  -- The loop of `ValidateBalanced`, over its two running sums.
  unfoldable pub sum_entries : List (LedgerEntry A) → A → A → Result (A × A)
  sum_entries [] debit credit = ok (debit, credit)
  sum_entries (e ∷ es) debit credit =
      let rest = sum_entries es (d.add debit e.debit) (d.add credit e.credit) in
      if is_malformed e then err entry_not_one_sided else rest

  unfoldable pub validate_balanced : List (LedgerEntry A) → Result Done
  unfolding sum_entries
  validate_balanced entries =
      if ltb (length entries) 2
      then err too_few_entries
      else and_then (sum_entries entries d.zero d.zero)
          λ sums. if d.equal sums.0 sums.1 then ok tt else err not_balanced
