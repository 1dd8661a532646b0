-- ===== src/Store/Balance.antt =====
-- The balance loop of internal/store/store.go against the ledger's net of an account, and the
-- account names that it compares.
use text.Mathlib.TextLemmas.{append_cancel_left}
use payment_ledger_platform.Base.{
  ◌≡◌, ◌≢◌, refl, sym, ◌∙◌, ap, false, ◌&&◌, String, ◌==◌, eq_iff, List, [], ◌∷◌, if◌then◌else◌,
  arith,
}
use payment_ledger_platform.Error.{ok}
use payment_ledger_platform.Amount.{Decimal, Meaning}
use payment_ledger_platform.Amount.Laws.{zero-plus}
use payment_ledger_platform.Domain.Ledger.{LedgerEntry}
use payment_ledger_platform.Domain.Ledger.Accounts.{net, share}
use payment_ledger_platform.Store.State.{MemoryStore}
use payment_ledger_platform.Store.Memory.Payouts.{
  sum_account, available_balance, merchant_account, available_account,
}

-- Two kinds of account of one merchant have different names.
pub merchant_account_ne :
    (merchant : String) {kind kind' : String}
    → kind ≢ kind'
    → merchant_account merchant kind ≢ merchant_account merchant kind'
merchant_account_ne merchant ne e = ne (
    append_cancel_left ":" _ _
      (append_cancel_left merchant _ _ (append_cancel_left "merchant:" _ _ e)))

pub eq_false : (s t : String) → s ≢ t → (s == t) ≡ false
eq_false s t ne = ground (arith, eq_iff s t)

module _ {A V : Type 0} ⦃d : Decimal A⦄ (m : Meaning d V) where
  module _ (account currency : String) where
    -- One round of the loop.
    abbrev next_balance : A → LedgerEntry A → A
    next_balance balance e =
        if e.account_id == account && e.currency == currency
        then d.sub (d.add balance e.credit) e.debit
        else balance

    next_balance_lem :
        (balance : A) (e : LedgerEntry A)
        → m.value (next_balance balance e)
          ≡ m.numbers.plus (m.value balance) (share m account currency e)
    next_balance_lem balance e = ground (
      arith,
      m.value-sub (d.add balance e.credit) e.debit,
      m.value-add balance e.credit,
      m.numbers.plus_assoc (m.value balance) (m.value e.credit) (m.numbers.neg (m.value e.debit)),
      m.numbers.plus-zero (m.value balance),
    )

    -- The loop adds the account's net to its running balance.
    pub sum_account-net :
        (balance : A) (es : List (LedgerEntry A))
        → m.value (sum_account account currency balance es)
          ≡ m.numbers.plus (m.value balance) (net m account currency es)
    unfolding sum_account
    sum_account-net balance [] = sym (m.numbers.plus-zero (m.value balance))
    sum_account-net balance (e ∷ es) =
        sum_account-net (next_balance balance e) es
        ∙ ap (λ v. m.numbers.plus v (net m account currency es)) (next_balance_lem balance e)
        ∙ m.numbers.plus_assoc (m.value balance) (share m account currency e)
            (net m account currency es)

  -- `AvailableBalance` never fails, changes nothing, and returns the credits less the debits of
  -- the merchant's available account in the currency, over the whole ledger.
  pub available_balance-net :
      (merchant currency : String) (s : MemoryStore A)
      → (balance : A) × (available_balance merchant currency s ≡ (ok balance, s))
        × (m.value balance ≡ net m (available_account merchant) currency s.ledger)
  unfolding available_balance
  available_balance-net merchant currency s = (
    sum_account (available_account merchant) currency d.zero s.ledger,
    refl,
    sum_account-net (available_account merchant) currency d.zero s.ledger
        ∙ cc (
          m.value-zero,
          zero-plus m.numbers (net m (available_account merchant) currency s.ledger),
        ),
  )
