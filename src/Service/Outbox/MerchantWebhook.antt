-- ===== src/Service/Outbox/MerchantWebhook.antt =====
-- internal/service/outbox.go: `MerchantWebhookPublisher`, which posts an event to a merchant's
-- endpoint, and tries again. `P` is the state of the network and of the dead letters.
pub mod Attempts
use payment_ledger_platform.Base.{
  ℕ, zero, suc, ◌+◌, ◌*◌, Bool, false, ◌&&◌, String, ◌==◌, Option, none, some, leb, ltb,
  if◌then◌else◌,
}
use payment_ledger_platform.Error.{
  Error, Result, ok, err, Done, Exec, pure, raise, lift, ◌>>=◌, ◌>>◌,
}
use payment_ledger_platform.Domain.Outbox.{OutboxEvent}
use payment_ledger_platform.Service.Outbox.{EventPublisher}

-- The request of one attempt; the signature is the header x-payment-signature.
pub record WebhookRequest : Type 0 where
  pub url : String
  pub body : String
  pub event_id : String
  pub event_type : String
  pub signature : String

-- `check` is what http.NewRequestWithContext says of the request, `send` the status or the error of
-- client.Do, `wait` the select on the context and the delay in milliseconds, and `status_error`
-- the error that fmt.Errorf makes of a status.
pub record HttpClient (P : Type 0) : Type 0 where
  pub check : WebhookRequest → Result Done
  pub send : WebhookRequest → Exec P ℕ
  pub wait : ℕ → Exec P Done
  pub status_error : ℕ → Error

-- `sign` is the hexadecimal HMAC-SHA256 of a text under the secret.
pub record MerchantWebhookPublisher (P : Type 0) : Type 0 where
  pub url : String
  pub sign : String → String
  pub client : HttpClient P
  pub attempts : ℕ
  pub dead_letter : Option (EventPublisher P)

abbrev pub is_success : ℕ → Bool
is_success status = leb 200 status && ltb status 300

abbrev pub has_succeeded : Result ℕ → Bool
has_succeeded (ok status) = is_success status
has_succeeded (err e) = false

module _ {P : Type 0} where
  abbrev pub webhook_request : MerchantWebhookPublisher P → OutboxEvent → WebhookRequest
  webhook_request publisher event = record {
    url = publisher.url;
    body = event.payload;
    event_id = event.id;
    event_type = event.event_type;
    signature = publisher.sign event.payload;
  }

  -- After the last attempt: the dead letter, and the last error, if there was an attempt.
  unfoldable pub give_up : MerchantWebhookPublisher P → OutboxEvent → Option Error → Exec P Done
  give_up publisher event last = do
    elim publisher.dead_letter [
      | none ↦ pure tt
      | some letters ↦
          letters.publish
            (record event { event_type = "merchant_webhook.failed"; published = false })
    ]
    elim last [ none ↦ pure tt | some e ↦ raise e ]

  -- The error of an attempt that did not succeed.
  abbrev pub attempt_error : HttpClient P → Result ℕ → Error
  attempt_error client (ok status) = client.status_error status
  attempt_error client (err e) = e

  -- The loop, with the number of attempts that are left and that of the next one.
  unfoldable pub try_from :
      MerchantWebhookPublisher P → OutboxEvent → ℕ → ℕ → Option Error → Exec P Done
  unfolding give_up
  try_from publisher event zero attempt last p = give_up publisher event last p
  try_from publisher event (suc left) attempt last p =
      elim (publisher.client.check (webhook_request publisher event)) [
        | err e ↦ (err e, p)
        | ok _ ↦
            let (answer, p') = publisher.client.send (webhook_request publisher event) p in
            let (waited, p'') = publisher.client.wait ((attempt + 1) * 100) p' in
            let retried =
              try_from publisher event left (attempt + 1)
                (some (attempt_error publisher.client answer)) p'' in
            if has_succeeded answer
            then (ok tt, p')
            else elim waited [ err e ↦ (err e, p'') | ok _ ↦ retried ]
      ]

  -- `MerchantWebhookPublisher.Publish`
  unfoldable pub publish_webhook : MerchantWebhookPublisher P → OutboxEvent → Exec P Done
  unfolding try_from
  publish_webhook publisher event =
      if publisher.url == ""
      then pure tt
      else try_from publisher event (if ltb publisher.attempts 1 then 3 else publisher.attempts) 0
          none
