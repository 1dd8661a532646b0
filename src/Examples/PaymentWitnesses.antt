-- ===== src/Examples/PaymentWitnesses.antt =====
-- The theorems on payments, the ledger and the store, at concrete inputs that meet their hypotheses.
use payment_ledger_platform.Base.{◌≤◌, ◌≡◌, ◌↔◌, List, [], ◌∷◌, length}
use payment_ledger_platform.Base.Int.{ℤ, pos}
use payment_ledger_platform.Error.{ok}
use payment_ledger_platform.Domain.Payment.{validate_capture}
use payment_ledger_platform.Domain.Payment.Limits.{Fits, validate_capture-Fits}
use payment_ledger_platform.Domain.Ledger.{LedgerEntry, validate_balanced}
use payment_ledger_platform.Domain.Ledger.Accounts.{net}
use payment_ledger_platform.Domain.Ledger.Balance.{IsBalanced, validate_balanced_iff}
use payment_ledger_platform.Store.State.{MemoryStore, new_memory}
use payment_ledger_platform.Store.Memory.Payouts.{available_balance, available_account}
use payment_ledger_platform.Store.Steps.{run}
use payment_ledger_platform.Store.WellFormed.{IsWellFormed}
use payment_ledger_platform.Store.History.{run-IsWellFormed}
use payment_ledger_platform.Store.Balance.{available_balance-net}
use payment_ledger_platform.Examples.Cents.{cents, meaning}
use payment_ledger_platform.Examples.Data.{
  new_order-IsSound, calls, ascii, captured_order, with_payment,
}

run-IsWellFormed_example : IsWellFormed meaning (run calls new_memory)
run-IsWellFormed_example =
    run-IsWellFormed meaning calls (new_order-IsSound, (tt, (tt, (tt, (tt, tt)))))

validate_capture-Fits_example :
    (validate_capture captured_order (pos 40) ≡ ok tt) ↔ Fits meaning (pos 60) (pos 40) (pos 100)
validate_capture-Fits_example = validate_capture-Fits meaning captured_order (pos 40)

abbrev entries : List (LedgerEntry ℤ)
entries =
    record {
      id = "d1";
      payment_id = "p1";
      account_id = "merchant:m1:pending";
      currency = "USD";
      debit = pos 60;
      credit = pos 0;
    }
    ∷ record {
      id = "c1";
      payment_id = "p1";
      account_id = "merchant:m1:available";
      currency = "USD";
      debit = pos 0;
      credit = pos 60;
    }
    ∷ []

validate_balanced_iff_example :
    (validate_balanced entries ≡ ok tt) ↔ ((2 ≤ length entries) × IsBalanced meaning entries)
validate_balanced_iff_example = validate_balanced_iff meaning entries

abbrev funded : MemoryStore ℤ
funded = record (with_payment captured_order) { ledger = entries }

available_balance-net_example :
    (balance : ℤ) × (available_balance "m1" "USD" funded ≡ (ok balance, funded))
    × (balance ≡ net meaning (available_account "m1") "USD" funded.ledger)
available_balance-net_example = available_balance-net meaning "m1" "USD" funded
