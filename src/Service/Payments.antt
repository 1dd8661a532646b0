-- ===== src/Service/Payments.antt =====
-- internal/service/payment_service.go: the payment service, over any store. UUIDs are arguments.
-- A provider, a risk engine and a metrics sink are interfaces that the service is given.
pub mod Outcome
pub mod Captures
pub mod Authorization
pub mod Idempotency
use payment_ledger_platform.Base.{
  Bool, true, false, not, String, ◌==◌, List, [], ◌∷◌, Option, none, some, if◌then◌else◌,
}
use payment_ledger_platform.Error.{
  Error, key_required, blocked_by_risk, Result, ok, err, Done, Exec, pure, raise, lift, modify,
  ◌>>=◌, ◌>>◌,
}
use payment_ledger_platform.Text.{Unicode}
use payment_ledger_platform.Amount.{Decimal}
use payment_ledger_platform.Domain.Payment.{
  PaymentStatus, created, authorized, captured, refunded, failed, unset, Payment, CreatePayment,
  new_payment, validate_capture, validate_refund,
}
use payment_ledger_platform.Domain.Ledger.{LedgerEntry}
use payment_ledger_platform.Domain.Outbox.{OutboxEvent, PaymentCommand}
use payment_ledger_platform.Json.{payment_json}
use payment_ledger_platform.Store.Memory.Payouts.{merchant_account}
use payment_ledger_platform.Store.Interface.{Store}
use payment_ledger_platform.Service.Journal.{EntryIds, journal}

pub record Provider (A : Type 0) : Type 0 where
  pub authorize : Payment A → Result String
  pub capture : Payment A → A → Result Done
  pub refund : Payment A → A → Result Done

pub record RiskEngine (A : Type 0) : Type 0 where
  pub check : Payment A → Result Bool

-- The fields of `PaymentService`; a nil interface is `none`. `Inc` acts on the same world.
pub record PaymentService (S A : Type 0) : Type 0 where
  pub store : Store S A
  pub provider : Provider A
  pub risk : Option (RiskEngine A)
  pub metrics : Option (String → S → S)

-- `_, _ = call`
abbrev ignoring : {S X : Type 0} → Exec S X → Exec S Done
ignoring call s = (ok tt, (call s).1)

-- `x, err := call; if err != nil { recovery; return err }`
abbrev or_else : {S X : Type 0} → Exec S X → Exec S Done → Exec S X
or_else call recovery s =
    let (r, s') = call s in elim r [ ok x ↦ (ok x, s') | err e ↦ (err e, (recovery s').1) ]

abbrev count : {S : Type 0} → Option (String → S → S) → String → Exec S Done
count none name = pure tt
count (some inc) name = modify (inc name)

module _ {A : Type 0} ⦃d : Decimal A⦄ where
  -- What the event says the payment will be.
  expected_payment : Payment A → PaymentStatus → A → String → Payment A
  expected_payment p captured amount reference = record p {
    status = captured;
    provider_reference = reference;
    captured_amount = d.add p.captured_amount amount;
  }
  expected_payment p refunded amount reference = record p {
    status = refunded;
    provider_reference = reference;
    refunded_amount = d.add p.refunded_amount amount;
  }
  expected_payment p status amount reference = record p {
    status = status;
    provider_reference = reference;
  }

  -- `PaymentService.commit`
  unfoldable pub payment_command :
      String
      → Payment A
      → PaymentStatus
      → A
      → String
      → List (LedgerEntry A)
      → String
      → PaymentCommand A
  unfolding expected_payment
  payment_command event_id p status amount reference entries event_type = record {
    payment_id = p.id;
    provider_reference = reference;
    event_type = "";
    status = status;
    amount = amount;
    ledger = entries;
    event = record {
      id = event_id;
      aggregate_id = p.id;
      event_type = event_type;
      payload = payment_json (expected_payment p status amount reference);
      published = false;
    };
  }

  -- The risk check of `Authorize`; no engine allows everything.
  abbrev passes_risk : Option (RiskEngine A) → Payment A → Result Bool
  passes_risk none p = ok true
  passes_risk (some engine) p = engine.check p

module _ {S A : Type 0} ⦃d : Decimal A⦄ where
  module _ ⦃u : Unicode⦄ where
    -- The payment, and whether it is a replay. `id` is the new UUID.
    unfoldable pub create :
        PaymentService S A → String → CreatePayment A → String → Exec S (Payment A × Bool)
    create service id input key = if key == "" then raise key_required else do
      p ← lift (new_payment id input)
      stored ← service.store.create_payment p key
      (if stored.1
          then pure stored
          else (count service.metrics "payments_created" >> pure (stored.0, false)))

  unfoldable pub authorize : PaymentService S A → EntryIds → String → Exec S (Payment A)
  unfolding payment_command
  authorize service ids id = do
    p ← service.store.get_payment id
    allowed ← lift (passes_risk service.risk p)
    (if not allowed
        then (ignoring (service.store.transition id failed "risk_blocked") >> raise blocked_by_risk)
        else do
          reference ←
              or_else (lift (service.provider.authorize p))
                (ignoring (service.store.transition id failed "provider_error"))
          service.store.commit_payment_command (
              payment_command ids.event p authorized d.zero reference
                (journal ids id "customer:pending" (merchant_account p.merchant_id "pending")
                  p.currency p.amount)
                "payment.authorized"))

  unfoldable pub capture : PaymentService S A → EntryIds → String → A → Exec S (Payment A)
  unfolding payment_command
  capture service ids id amount = do
    p ← service.store.get_payment id
    lift (validate_capture p amount)
    lift (service.provider.capture p amount)
    service.store.commit_payment_command (
        payment_command ids.event p captured amount p.provider_reference
          (journal ids id (merchant_account p.merchant_id "pending")
            (merchant_account p.merchant_id "available") p.currency amount)
          "payment.captured")

  unfoldable pub refund : PaymentService S A → EntryIds → String → A → Exec S (Payment A)
  unfolding payment_command
  refund service ids id amount = do
    p ← service.store.get_payment id
    lift (validate_refund p amount)
    lift (service.provider.refund p amount)
    service.store.commit_payment_command (
        payment_command ids.event p refunded amount p.provider_reference
          (journal ids id (merchant_account p.merchant_id "available") "customer:refunded"
            p.currency amount)
          "payment.refunded")
