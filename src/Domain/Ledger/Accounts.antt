-- ===== src/Domain/Ledger/Accounts.antt =====
-- What a ledger says of one account in one currency.
use payment_ledger_platform.Base.{
  ◌≡◌, sym, ◌∙◌, ap, ◌&&◌, String, ◌==◌, List, [], ◌∷◌, ◌++◌, if◌then◌else◌,
}
use payment_ledger_platform.Amount.{Decimal, Meaning}
use payment_ledger_platform.Amount.Laws.{zero-plus}
use payment_ledger_platform.Domain.Ledger.{LedgerEntry}

module _ {A V : Type 0} ⦃d : Decimal A⦄ (m : Meaning d V) where
  -- The credit of an entry less its debit.
  abbrev pub signed : LedgerEntry A → V
  signed e = m.numbers.plus (m.value e.credit) (m.numbers.neg (m.value e.debit))

  module _ (account currency : String) where
    -- An entry's contribution to the account.
    abbrev pub share : LedgerEntry A → V
    share e = if e.account_id == account && e.currency == currency then signed e else m.numbers.zero

    -- The credits of an account less its debits.
    abbrev pub net : List (LedgerEntry A) → V
    net [] = m.numbers.zero
    net (e ∷ es) = m.numbers.plus (share e) (net es)

    pub net-append :
        (xs ys : List (LedgerEntry A)) → net (xs ++ ys) ≡ m.numbers.plus (net xs) (net ys)
    net-append [] ys = sym (zero-plus m.numbers (net ys))
    net-append (x ∷ xs) ys =
        ap (m.numbers.plus (share x)) (net-append xs ys)
        ∙ sym (m.numbers.plus_assoc (share x) (net xs) (net ys))
