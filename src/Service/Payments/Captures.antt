-- ===== src/Service/Payments/Captures.antt =====
-- internal/service/payment_service.go: captures and refunds over the store in memory.
use payment_ledger_platform.Base.{◌≡◌, refl, true, String, Option, some, List, arith}
use payment_ledger_platform.Base.Dict.{lookup}
use payment_ledger_platform.Error.{Error, ok, err}
use payment_ledger_platform.Amount.{Decimal, Meaning}
use payment_ledger_platform.Domain.Payment.{captured, refunded, Payment, can_transition}
use payment_ledger_platform.Domain.Payment.Limits.{
  Fits, validate_capture-Fits, validate_refund-Fits,
}
use payment_ledger_platform.Domain.Ledger.{LedgerEntry}
use payment_ledger_platform.Domain.Outbox.{PaymentCommand}
use payment_ledger_platform.Store.State.{MemoryStore}
use payment_ledger_platform.Store.Memory.Payments.{
  get_payment, next_payment, commit_payment_command, or_keep,
}
use payment_ledger_platform.Store.Memory.Payouts.{merchant_account}
use payment_ledger_platform.Store.Interface.{Visits}
use payment_ledger_platform.Service.Journal.{EntryIds, journal}
use payment_ledger_platform.Service.Journal.Effect.{journal-balanced}
use payment_ledger_platform.Service.Payments.{
  Provider, RiskEngine, payment_command, capture, refund,
}
use payment_ledger_platform.Service.Payments.Outcome.{in_memory, committed, commit_lem}

module _ {A : Type 0} ⦃d : Decimal A⦄ where
  abbrev pub captured_payment : Payment A → A → Payment A
  captured_payment p amount = record p {
    captured_amount = d.add p.captured_amount amount;
    status = captured;
  }

  abbrev pub refunded_payment : Payment A → A → Payment A
  refunded_payment p amount = record p {
    refunded_amount = d.add p.refunded_amount amount;
    status = refunded;
  }

  -- From the merchant's pending account to the available one.
  abbrev pub capture_journal : EntryIds → Payment A → A → List (LedgerEntry A)
  capture_journal ids p amount =
      journal ids p.id (merchant_account p.merchant_id "pending")
        (merchant_account p.merchant_id "available") p.currency amount

  -- From the merchant's available account back to the customer.
  abbrev pub refund_journal : EntryIds → Payment A → A → List (LedgerEntry A)
  refund_journal ids p amount =
      journal ids p.id (merchant_account p.merchant_id "available") "customer:refunded" p.currency
        amount

  abbrev capture_command : EntryIds → Payment A → A → PaymentCommand A
  capture_command ids p amount =
      payment_command ids.event p captured amount p.provider_reference
        (capture_journal ids p amount) "payment.captured"

  abbrev refund_command : EntryIds → Payment A → A → PaymentCommand A
  refund_command ids p amount =
      payment_command ids.event p refunded amount p.provider_reference (refund_journal ids p amount)
        "payment.refunded"

module _ {A V : Type 0} ⦃d : Decimal A⦄ (m : Meaning d V) where
  keeps_reference : (reference : String) → or_keep reference reference ≡ reference
  keeps_reference reference = ground arith

  next-capture :
      (ids : EntryIds) (p : Payment A) (amount : A)
      → can_transition p captured ≡ true
      → Fits m p.captured_amount amount p.amount
      → next_payment (capture_command ids p amount) p ≡ ok (captured_payment p amount)
  unfolding next_payment payment_command
  next-capture ids p amount may fits = ground (
    arith,
    (validate_capture-Fits m p amount).1 fits,
    journal-balanced m ids p.id (merchant_account p.merchant_id "pending")
        (merchant_account p.merchant_id "available") p.currency amount fits.0,
    keeps_reference p.provider_reference,
  )

  next-refund :
      (ids : EntryIds) (p : Payment A) (amount : A)
      → can_transition p refunded ≡ true
      → Fits m p.refunded_amount amount p.captured_amount
      → next_payment (refund_command ids p amount) p ≡ ok (refunded_payment p amount)
  unfolding next_payment payment_command
  next-refund ids p amount may fits = ground (
    arith,
    (validate_refund-Fits m p amount).1 fits,
    journal-balanced m ids p.id (merchant_account p.merchant_id "available") "customer:refunded"
        p.currency amount fits.0,
    keeps_reference p.provider_reference,
  )

  module _ (visits : Visits A) (provider : Provider A) (risk : Option (RiskEngine A))
      (metrics : Option (String → MemoryStore A → MemoryStore A)) (ids : EntryIds)
      (s : MemoryStore A) where
    -- Capturing an amount of a payment that is stored under its id, may move to captured, and
    -- has the positive amount left to capture, when the provider accepts the capture, returns
    -- the payment with the amount added and the status captured, and stores together that
    -- payment, the journal from the merchant's pending account to the available one, and one
    -- unpublished event that carries that payment; nothing else changes.
    pub capture-committed :
        (p : Payment A) (amount : A)
        → lookup p.id s.payments ≡ some p
        → can_transition p captured ≡ true
        → Fits m p.captured_amount amount p.amount
        → provider.capture p amount ≡ ok tt
        → capture (in_memory visits provider risk metrics) ids p.id amount s
          ≡ committed
              (captured_payment p amount)
              (capture_journal ids p amount)
              ids.event
              "payment.captured"
              s
    unfolding capture get_payment
    capture-committed p amount found may fits accepted = ground (
      arith,
      (validate_capture-Fits m p amount).1 fits,
      commit_lem (capture_command ids p amount) p (captured_payment p amount) s found
          (next-capture ids p amount may fits) refl refl,
    )

    -- Refunding an amount of a payment that is stored under its id, may move to refunded, and
    -- has the positive amount left of what was captured, when the provider accepts the refund,
    -- returns the payment with the amount added and the status refunded, and stores together
    -- that payment, the journal from the merchant's available account to the customer, and one
    -- unpublished event that carries that payment; nothing else changes.
    pub refund-committed :
        (p : Payment A) (amount : A)
        → lookup p.id s.payments ≡ some p
        → can_transition p refunded ≡ true
        → Fits m p.refunded_amount amount p.captured_amount
        → provider.refund p amount ≡ ok tt
        → refund (in_memory visits provider risk metrics) ids p.id amount s
          ≡ committed
              (refunded_payment p amount)
              (refund_journal ids p amount)
              ids.event
              "payment.refunded"
              s
    unfolding refund get_payment
    refund-committed p amount found may fits accepted = ground (
      arith,
      (validate_refund-Fits m p amount).1 fits,
      commit_lem (refund_command ids p amount) p (refunded_payment p amount) s found
          (next-refund ids p amount may fits) refl refl,
    )

module _ {A : Type 0} ⦃d : Decimal A⦄ where
  module _ (visits : Visits A) (provider : Provider A) (risk : Option (RiskEngine A))
      (metrics : Option (String → MemoryStore A → MemoryStore A)) (ids : EntryIds) (id : String)
      (amount : A) (s : MemoryStore A) {e : Error} where
    -- A capture that returns an error, for whatever reason, leaves the store in memory as it
    -- was.
    pub capture_atomic :
        (capture (in_memory visits provider risk metrics) ids id amount s).0 ≡ err e
        → (capture (in_memory visits provider risk metrics) ids id amount s).1 ≡ s
    unfolding capture get_payment commit_payment_command
    capture_atomic h = ground arith

    -- A refund that returns an error, for whatever reason, leaves the store in memory as it
    -- was.
    pub refund_atomic :
        (refund (in_memory visits provider risk metrics) ids id amount s).0 ≡ err e
        → (refund (in_memory visits provider risk metrics) ids id amount s).1 ≡ s
    unfolding refund get_payment commit_payment_command
    refund_atomic h = ground arith
