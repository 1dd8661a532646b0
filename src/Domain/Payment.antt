-- ===== src/Domain/Payment.antt =====
-- internal/domain/payment.go: payments, their statuses and the limits on captures and refunds.
pub mod Lifecycle
pub mod Limits
use Prim.Native.String.{len}
use payment_ledger_platform.Base.{ℕ, Bool, true, false, not, ◌||◌, String, ◌==◌, eqb, if◌then◌else◌}
use payment_ledger_platform.Error.{
  Error, parties_required, bad_currency, bad_amount, capture_exceeds, refund_exceeds, Result, ok,
  err, Done, refuse_if,
}
use payment_ledger_platform.Text.{Unicode, trim_space, to_upper}
use payment_ledger_platform.Amount.{Decimal}

-- `unset` is Go's zero value, the empty text.
pub data PaymentStatus : Type 0 where
  created authorized captured refunded failed unset : PaymentStatus

pub record Payment (A : Type 0) : Type 0 where
  pub id : String
  pub merchant_id : String
  pub customer_id : String
  pub currency : String
  pub amount : A
  pub captured_amount : A
  pub refunded_amount : A
  pub status : PaymentStatus
  pub provider_reference : String

pub record CreatePayment (A : Type 0) : Type 0 where
  pub merchant_id : String
  pub customer_id : String
  pub currency : String
  pub amount : A

-- The inner maps of `CanTransition`; a missing key reads as false.
abbrev pub allowed : PaymentStatus → PaymentStatus → Bool
allowed created authorized = true
allowed created failed = true
allowed authorized captured = true
allowed authorized failed = true
allowed captured captured = true
allowed captured refunded = true
allowed refunded refunded = true
allowed _ _ = false

module _ {A : Type 0} where
  unfoldable pub can_transition : Payment A → PaymentStatus → Bool
  can_transition p to = allowed p.status to

module _ {A : Type 0} ⦃d : Decimal A⦄ where
  -- `Payment{}`
  abbrev pub zero_payment : Payment A
  zero_payment = record {
    id = "";
    merchant_id = "";
    customer_id = "";
    currency = "";
    amount = d.zero;
    captured_amount = d.zero;
    refunded_amount = d.zero;
    status = unset;
    provider_reference = "";
  }

  unfoldable pub validate_capture : Payment A → A → Result Done
  validate_capture p amount =
      refuse_if
        (not (d.greater_than amount d.zero)
          || d.greater_than (d.add p.captured_amount amount) p.amount)
        capture_exceeds

  unfoldable pub validate_refund : Payment A → A → Result Done
  validate_refund p amount =
      refuse_if
        (not (d.greater_than amount d.zero)
          || d.greater_than (d.add p.refunded_amount amount) p.captured_amount)
        refund_exceeds

module _ {A : Type 0} ⦃d : Decimal A⦄ ⦃u : Unicode⦄ where
  -- `id` is the new UUID.
  unfoldable pub new_payment : String → CreatePayment A → Result (Payment A)
  new_payment id input =
      if trim_space input.merchant_id == "" || trim_space input.customer_id == ""
      then err parties_required
      else if not (eqb (len input.currency) 3)
      then err bad_currency
      else if not (d.greater_than input.amount d.zero)
      then err bad_amount
      else ok (record {
        id = id;
        merchant_id = input.merchant_id;
        customer_id = input.customer_id;
        currency = to_upper input.currency;
        amount = input.amount;
        captured_amount = d.zero;
        refunded_amount = d.zero;
        status = created;
        provider_reference = "";
      })
