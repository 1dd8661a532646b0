-- ===== src/Http/Webhooks.antt =====
-- internal/httpapi/webhook.go: the provider's signed events. `body` is `none` when it cannot be read
-- (or is longer than a megabyte), and `decode` is what encoding/json makes of it.
pub mod Register
pub mod Redelivery
use Prim.Native.String
use payment_ledger_platform.Base.{
  Bool, true, false, not, ◌&&◌, ◌||◌, String, ◌==◌, Option, none, some, if◌then◌else◌,
}
use payment_ledger_platform.Error.{Error, Exec, ok, err}
use payment_ledger_platform.Amount.{Decimal}
use payment_ledger_platform.Domain.Payment.{Payment}
use payment_ledger_platform.Domain.Payout.{PayoutStatus}
use payment_ledger_platform.Json.{payout_status}
use payment_ledger_platform.Service.Journal.{EntryIds}
use payment_ledger_platform.Service.Payments
use payment_ledger_platform.Service.Payouts
use payment_ledger_platform.Http.Handler.{
  status_body, payment_body, payout_body, Response, Signing, Server, Handler, write, refuse,
  unprocessable, calling, counting,
}

pub record ProviderWebhook : Type 0 where
  pub id : String
  pub event_type : String
  pub payment_id : String
  pub amount : String

pub record PayoutWebhook : Type 0 where
  pub id : String
  pub event_type : String
  pub payout_id : String
  pub provider_reference : String

unfoldable pub verify_signature : {B : Type 0} → Signing B → String → String → String → Bool
verify_signature signing secret body signature =
    if secret == "" || signature == "" then false else elim (signing.decode_hex signature) [
      | none ↦ false
      | some expected ↦ signing.same (signing.mac secret body) expected
    ]

module _ {S A B : Type 0} ⦃d : Decimal A⦄ (signing : Signing B) where
  -- Registers the event, and goes on when it is new.
  abbrev pub once : Server S A → String → Handler S A → Handler S A
  once server id next =
      calling (server.payments.store.register_webhook id)
        (λ e. refuse 500 "webhook persistence failed")
        λ accepted. if accepted then next else write 200 (status_body "duplicate_ignored")

  unfoldable pub payout_webhook :
      (String → Option PayoutWebhook) → Server S A → EntryIds → Option String → String → Handler S A
  unfolding verify_signature unprocessable
  payout_webhook decode server ids none signature = refuse 400 "invalid request body"
  payout_webhook decode server ids (some body) signature =
      if not (verify_signature signing server.webhook_secret body signature)
      then refuse 401 "invalid webhook signature"
      else elim (decode body) [
        | none ↦ refuse 400 "invalid webhook payload"
        | some event ↦
            if event.id == "" || event.payout_id == ""
            then refuse 400 "invalid webhook payload"
            else if not (event.event_type == "payout.paid")
                && not (event.event_type == "payout.failed")
            then refuse 422 "unsupported webhook type"
            else once server event.id (
                calling
                  (Payouts.complete server.payments.store ids event.payout_id
                    event.provider_reference (event.event_type == "payout.paid"))
                  unprocessable
                  λ p.
                    counting (String.◌++◌ "payouts_" (payout_status p.status))
                      (write 200 (payout_body p)))
      ]

  unfoldable pub webhook :
      (String → Option ProviderWebhook)
      → Server S A
      → EntryIds
      → Option String
      → String
      → Handler S A
  unfolding verify_signature unprocessable
  webhook decode server ids none signature = refuse 400 "invalid request body"
  webhook decode server ids (some body) signature =
      if not (verify_signature signing server.webhook_secret body signature)
      then refuse 401 "invalid webhook signature"
      else elim (decode body) [
        | none ↦ refuse 400 "invalid webhook payload"
        | some event ↦
            if event.id == "" || event.payment_id == ""
            then refuse 400 "invalid webhook payload"
            else elim (d.from_string event.amount) [
              | none ↦ refuse 400 "invalid webhook amount"
              | some amount ↦
                  if not (d.greater_than amount d.zero)
                  then refuse 400 "invalid webhook amount"
                  else if not (event.event_type == "payment.captured")
                      && not (event.event_type == "payment.refunded")
                  then refuse 422 "unsupported webhook type"
                  else once server event.id (
                      calling
                        (if event.event_type == "payment.captured"
                          then Payments.capture server.payments ids event.payment_id amount
                          else Payments.refund server.payments ids event.payment_id amount)
                        unprocessable λ p. write 200 (payment_body p))
            ]
      ]
