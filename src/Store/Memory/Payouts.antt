-- ===== src/Store/Memory/Payouts.antt =====
-- internal/store/store.go: the payout methods of `MemoryStore`.
use Prim.Native.String
use payment_ledger_platform.Base.{
  Bool, true, false, not, ◌&&◌, String, ◌==◌, List, [], ◌∷◌, ◌++◌, if◌then◌else◌,
}
use payment_ledger_platform.Base.Dict.{lookup, insert}
use payment_ledger_platform.Error.{
  not_found, insufficient_balance, payout_resolved, invalid_payout_status, refuse_if, or_error,
  Exec, pure, lift, gets, modify, ◌>>=◌, ◌>>◌,
}
use payment_ledger_platform.Amount.{Decimal}
use payment_ledger_platform.Domain.Ledger.{LedgerEntry, validate_balanced}
use payment_ledger_platform.Domain.Outbox.{OutboxEvent}
use payment_ledger_platform.Domain.Payout.{PayoutStatus, pending, paid, failed, Payout}
use payment_ledger_platform.Store.State.{MemoryStore}

-- `"merchant:" + merchant + ":" + kind`
abbrev pub merchant_account : String → String → String
merchant_account merchant kind =
    String.◌++◌ "merchant:" (String.◌++◌ merchant (String.◌++◌ ":" kind))

abbrev pub available_account : String → String
available_account merchant = merchant_account merchant "available"

abbrev pub is_pending : PayoutStatus → Bool
is_pending pending = true
is_pending _ = false

abbrev pub is_terminal : PayoutStatus → Bool
is_terminal paid = true
is_terminal failed = true
is_terminal _ = false

module _ {A : Type 0} ⦃d : Decimal A⦄ where
  -- The loop over the ledger, with its running balance.
  unfoldable pub sum_account : String → String → A → List (LedgerEntry A) → A
  sum_account account currency balance [] = balance
  sum_account account currency balance (e ∷ es) =
      sum_account account currency
        (if e.account_id == account && e.currency == currency
          then d.sub (d.add balance e.credit) e.debit
          else balance)
        es

  unfoldable pub available_balance : String → String → Exec (MemoryStore A) A
  unfolding sum_account
  available_balance merchant currency =
      gets λ s. sum_account (available_account merchant) currency d.zero s.ledger

  unfoldable pub create_payout :
      Payout A → List (LedgerEntry A) → OutboxEvent → Exec (MemoryStore A) (Payout A)
  create_payout p entries event = do
    balance ← gets λ s. sum_account (available_account p.merchant_id) p.currency d.zero s.ledger
    lift (refuse_if (d.less_than balance p.amount) insufficient_balance)
    lift (validate_balanced entries)
    modify λ s. record s {
      payouts = insert p.id p s.payouts;
      ledger = s.ledger ++ entries;
      outbox = insert event.id event s.outbox;
    }
    pure p

  unfoldable pub get_payout : String → Exec (MemoryStore A) (Payout A)
  get_payout id = do found ← gets λ s. lookup id s.payouts; lift (or_error found not_found)

  unfoldable pub transition_payout :
      String
      → PayoutStatus
      → String
      → List (LedgerEntry A)
      → OutboxEvent
      → Exec (MemoryStore A) (Payout A)
  transition_payout id status reference entries event = do
    found ← gets λ s. lookup id s.payouts
    p ← lift (or_error found not_found)
    lift (refuse_if (not (is_pending p.status)) payout_resolved)
    lift (refuse_if (not (is_terminal status)) invalid_payout_status)
    lift (validate_balanced entries)
    let p' = record p { status = status; provider_reference = reference }
    modify λ s. record s {
      payouts = insert id p' s.payouts;
      ledger = s.ledger ++ entries;
      outbox = insert event.id event s.outbox;
    }
    pure p'
