-- ===== src/Service/Journal.antt =====
-- internal/service: the two-entry journals that the services write, a debit and a credit of the
-- same amount, and what such a journal does to every account.
pub mod Effect
use payment_ledger_platform.Base.{String, List, [], ◌∷◌}
use payment_ledger_platform.Amount.{Decimal}
use payment_ledger_platform.Domain.Ledger.{LedgerEntry}

-- The UUIDs of a journal's two entries and of its event.
pub record EntryIds : Type 0 where
  pub debit : String
  pub credit : String
  pub event : String

module _ {A : Type 0} ⦃d : Decimal A⦄ where
  -- The debit of one account, and the credit of another. A field that the source leaves out is
  -- Go's zero value; `decimal.Decimal{}` is zero.
  unfoldable pub journal : EntryIds → String → String → String → String → A → List (LedgerEntry A)
  journal ids payment_id from to currency amount =
      record {
        id = ids.debit;
        payment_id = payment_id;
        account_id = from;
        currency = currency;
        debit = amount;
        credit = d.zero;
      }
      ∷ record {
        id = ids.credit;
        payment_id = payment_id;
        account_id = to;
        currency = currency;
        debit = d.zero;
        credit = amount;
      }
      ∷ []
