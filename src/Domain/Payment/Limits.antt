-- ===== src/Domain/Payment/Limits.antt =====
-- What the checks of internal/domain/payment.go guarantee about the amounts of a payment.
use payment_ledger_platform.Base.{◌≡◌, ◌≢◌, ◌↔◌, Bool, true, false, String, arith}
use payment_ledger_platform.Error.{ok}
use payment_ledger_platform.Text.{Unicode}
use payment_ledger_platform.Amount.{Decimal, Meaning, Le, Lt}
use payment_ledger_platform.Amount.Laws.{at_most_refl, Lt-Le, le-plus}
use payment_ledger_platform.Domain.Payment.{
  PaymentStatus, captured, refunded, unset, Payment, CreatePayment, allowed, validate_capture,
  validate_refund, new_payment,
}

-- Statuses of a payment from which money has been captured, and refunded.
abbrev pub is_funded : PaymentStatus → Bool
is_funded captured = true
is_funded refunded = true
is_funded _ = false

abbrev pub is_refunded : PaymentStatus → Bool
is_refunded refunded = true
is_refunded _ = false

module _ {A V : Type 0} ⦃d : Decimal A⦄ (m : Meaning d V) where
  -- 0 ≤ refunded ≤ captured ≤ amount, 0 < amount, and the status agrees with the amounts.
  pub record IsSound (p : Payment A) : Type 0 where
    pub positive : Lt m.numbers m.numbers.zero (m.value p.amount)
    pub refunded_nonneg : Le m.numbers m.numbers.zero (m.value p.refunded_amount)
    pub refunded_le : Le m.numbers (m.value p.refunded_amount) (m.value p.captured_amount)
    pub captured_le : Le m.numbers (m.value p.captured_amount) (m.value p.amount)
    pub unfunded : is_funded p.status ≡ false → m.value p.captured_amount ≡ m.numbers.zero
    pub unrefunded : is_refunded p.status ≡ false → m.value p.refunded_amount ≡ m.numbers.zero
    pub known : p.status ≢ unset

  -- `x` can be taken from what is left of `limit` after `used`.
  abbrev pub Fits : A → A → A → Type 0
  Fits used x limit =
      Lt m.numbers m.numbers.zero (m.value x)
      × Le m.numbers (m.numbers.plus (m.value used) (m.value x)) (m.value limit)

  -- `ValidateCapture` accepts an amount exactly when it is positive and, added to what was
  -- captured, is at most the payment's amount.
  pub validate_capture-Fits :
      (p : Payment A) (x : A) → (validate_capture p x ≡ ok tt) ↔ Fits p.captured_amount x p.amount
  unfolding validate_capture
  validate_capture-Fits p x = (
    ground (
      arith,
      m.greater_than_by_value x d.zero,
      m.value-zero,
      m.greater_than_by_value (d.add p.captured_amount x) p.amount,
      m.value-add p.captured_amount x,
    ),
    ground (
      arith,
      m.greater_than_by_value x d.zero,
      m.value-zero,
      m.greater_than_by_value (d.add p.captured_amount x) p.amount,
      m.value-add p.captured_amount x,
    ),
  )

  -- `ValidateRefund` accepts an amount exactly when it is positive and, added to what was
  -- refunded, is at most what was captured.
  pub validate_refund-Fits :
      (p : Payment A) (x : A)
      → (validate_refund p x ≡ ok tt) ↔ Fits p.refunded_amount x p.captured_amount
  unfolding validate_refund
  validate_refund-Fits p x = (
    ground (
      arith,
      m.greater_than_by_value x d.zero,
      m.value-zero,
      m.greater_than_by_value (d.add p.refunded_amount x) p.captured_amount,
      m.value-add p.refunded_amount x,
    ),
    ground (
      arith,
      m.greater_than_by_value x d.zero,
      m.value-zero,
      m.greater_than_by_value (d.add p.refunded_amount x) p.captured_amount,
      m.value-add p.refunded_amount x,
    ),
  )

  -- A new payment is sound.
  pub new_payment-IsSound :
      ⦃u : Unicode⦄ (id : String) (input : CreatePayment A) {p : Payment A}
      → new_payment id input ≡ ok p
      → IsSound p
  unfolding new_payment
  new_payment-IsSound id input {p} e = ground (
    arith,
    m.greater_than_by_value input.amount d.zero,
    m.value-zero,
    at_most_refl m.numbers m.numbers.zero,
    Lt-Le m.numbers m.numbers.zero (m.value input.amount),
  )

  -- A capture that fits, on a payment that may be captured, keeps it sound.
  pub capture-IsSound :
      (p : Payment A) (x : A) (reference : String)
      → IsSound p
      → Fits p.captured_amount x p.amount
      → allowed p.status captured ≡ true
      → IsSound (record p {
        captured_amount = d.add p.captured_amount x;
        status = captured;
        provider_reference = reference;
      })
  capture-IsSound p x reference h fits may = ground (
    arith,
    m.value-add p.captured_amount x,
    le-plus m.numbers (m.value p.captured_amount) (m.value x),
    Lt-Le m.numbers m.numbers.zero (m.value x),
    m.numbers.at_most_trans (m.value p.refunded_amount) (m.value p.captured_amount)
        (m.numbers.plus (m.value p.captured_amount) (m.value x)),
  )

  -- So does a refund that fits under what was captured.
  pub refund-IsSound :
      (p : Payment A) (x : A) (reference : String)
      → IsSound p
      → Fits p.refunded_amount x p.captured_amount
      → allowed p.status refunded ≡ true
      → IsSound (record p {
        refunded_amount = d.add p.refunded_amount x;
        status = refunded;
        provider_reference = reference;
      })
  refund-IsSound p x reference h fits may = ground (
    arith,
    m.value-add p.refunded_amount x,
    le-plus m.numbers (m.value p.refunded_amount) (m.value x),
    Lt-Le m.numbers m.numbers.zero (m.value x),
    m.numbers.at_most_trans m.numbers.zero (m.value p.refunded_amount)
        (m.numbers.plus (m.value p.refunded_amount) (m.value x)),
  )

  -- And every move of the state machine that leaves the amounts alone.
  pub move-IsSound :
      (p : Payment A) (to : PaymentStatus) (reference : String)
      → IsSound p
      → allowed p.status to ≡ true
      → IsSound (record p { status = to; provider_reference = reference })
  move-IsSound p to reference h may = ground arith
