-- ===== src/Domain/Dispute.antt =====
-- internal/domain/payment.go: disputes.
use Prim.Native.String.{len}
use payment_ledger_platform.Base.{not, ◌||◌, String, ◌==◌, eqb, if◌then◌else◌}
use payment_ledger_platform.Error.{invalid_dispute, Result, ok, err}
use payment_ledger_platform.Text.{Unicode, to_upper}
use payment_ledger_platform.Amount.{Decimal}

-- `unset` is Go's zero value, the empty text.
pub data DisputeStatus : Type 0 where
  opened won lost unset : DisputeStatus

pub record Dispute (A : Type 0) : Type 0 where
  pub id : String
  pub payment_id : String
  pub merchant_id : String
  pub currency : String
  pub reason : String
  pub amount : A
  pub status : DisputeStatus

module _ {A : Type 0} ⦃d : Decimal A⦄ ⦃u : Unicode⦄ where
  -- `id` is the new UUID.
  unfoldable pub new_dispute : String → String → String → String → String → A → Result (Dispute A)
  new_dispute id payment_id merchant_id currency reason amount =
      if payment_id == ""
        || merchant_id == ""
        || not (eqb (len currency) 3)
        || reason == ""
        || not (d.greater_than amount d.zero)
      then err invalid_dispute
      else ok (record {
        id = id;
        payment_id = payment_id;
        merchant_id = merchant_id;
        currency = to_upper currency;
        reason = reason;
        amount = amount;
        status = opened;
      })
