-- ===== src/Service/Outbox/MerchantWebhook/Attempts.antt =====
-- internal/service/outbox.go: how often `MerchantWebhookPublisher` tries, and what it reports.
use payment_ledger_platform.Base.{
  ◌≡◌, ◌≢◌, ◌∙◌, ◌<◌, ◌+◌, ◌*◌, ℕ, zero, suc, true, false, eq_iff, Option, none, some, ltb,
  if◌then◌else◌, arith,
}
use payment_ledger_platform.Error.{Error, Result, ok, err, Done}
use payment_ledger_platform.Domain.Outbox.{OutboxEvent}
use payment_ledger_platform.Service.Outbox.{EventPublisher}
use payment_ledger_platform.Service.Outbox.MerchantWebhook.{
  MerchantWebhookPublisher, has_succeeded, webhook_request, attempt_error, give_up, try_from,
  publish_webhook,
}

module _ {P : Type 0} (publisher : MerchantWebhookPublisher P) (event : OutboxEvent) where
  -- The state after a number of attempts, and the answer to the attempt after them.
  abbrev pub sends : ℕ → P → P
  sends zero p = p
  sends (suc n) p = sends n (publisher.client.send (webhook_request publisher event) p).1

  abbrev pub answer : ℕ → P → Result ℕ
  answer zero p = (publisher.client.send (webhook_request publisher event) p).0
  answer (suc n) p = answer n (publisher.client.send (webhook_request publisher event) p).1

  -- The first attempts do not succeed.
  abbrev pub FailsFor : ℕ → P → Type 0
  FailsFor zero p = Done
  FailsFor (suc n) p =
      (has_succeeded (publisher.client.send (webhook_request publisher event) p).0 ≡ false)
      × FailsFor n (publisher.client.send (webhook_request publisher event) p).1

  module _ (valid : publisher.client.check (webhook_request publisher event) ≡ ok tt)
      (patient : (delay : ℕ) (p : P) → publisher.client.wait delay p ≡ (ok tt, p)) where
    retries :
        (left attempt : ℕ) (last : Option Error) (p : P)
        → has_succeeded (publisher.client.send (webhook_request publisher event) p).0 ≡ false
        → try_from publisher event (suc left) attempt last p
          ≡ try_from publisher event left
              (attempt + 1)
              (some (
                attempt_error publisher.client
                  (publisher.client.send (webhook_request publisher event) p).0))
              (publisher.client.send (webhook_request publisher event) p).1
    unfolding try_from
    retries left attempt last p failed = ground (
      arith,
      valid,
      failed,
      patient ((attempt + 1) * 100) (publisher.client.send (webhook_request publisher event) p).1,
    )

    succeeds :
        (left attempt : ℕ) (last : Option Error) (p : P)
        → has_succeeded (publisher.client.send (webhook_request publisher event) p).0 ≡ true
        → try_from publisher event (suc left) attempt last p
          ≡ (ok tt, (publisher.client.send (webhook_request publisher event) p).1)
    unfolding try_from
    succeeds left attempt last p reached = ground (arith, valid, reached)

    try_from-delivers :
        (k left attempt : ℕ) (last : Option Error) (p : P)
        → k < left
        → FailsFor k p
        → has_succeeded (answer k p) ≡ true
        → try_from publisher event left attempt last p ≡ (ok tt, sends (suc k) p)
    try_from-delivers k zero attempt last p few fails reached = ground (arith, few)
    try_from-delivers zero (suc left) attempt last p few fails reached =
        succeeds left attempt last p reached
    try_from-delivers (suc k) (suc left) attempt last p few fails reached =
        retries left attempt last p fails.0
        ∙ try_from-delivers k left (attempt + 1)
            (some (
              attempt_error publisher.client
                (publisher.client.send (webhook_request publisher event) p).0))
            (publisher.client.send (webhook_request publisher event) p).1 (omega (arith, few))
            fails.1 reached

    try_from-exhausted :
        (n attempt : ℕ) (last : Option Error) (p : P)
        → FailsFor (suc n) p
        → try_from publisher event (suc n) attempt last p
          ≡ give_up publisher event
              (some (attempt_error publisher.client (answer n p)))
              (sends (suc n) p)
    unfolding try_from
    try_from-exhausted zero attempt last p fails = retries 0 attempt last p fails.0
    try_from-exhausted (suc n) attempt last p fails =
        retries (suc n) attempt last p fails.0
        ∙ try_from-exhausted n (attempt + 1)
            (some (
              attempt_error publisher.client
                (publisher.client.send (webhook_request publisher event) p).0))
            (publisher.client.send (webhook_request publisher event) p).1 fails.1

    -- How many attempts are made at most.
    abbrev pub rounds : ℕ
    rounds = if ltb publisher.attempts 1 then 3 else publisher.attempts

    -- When the URL is not empty, the request can be made and no wait is cut short: if the first
    -- k attempts fail and the next one is answered with a status from 200 to 299, and k is less
    -- than the number of attempts (three when none is configured), then publishing returns no
    -- error after exactly k + 1 attempts, and no dead letter is written.
    pub publish_webhook-delivers :
        (k : ℕ) (p : P)
        → publisher.url ≢ ""
        → k < rounds
        → FailsFor k p
        → has_succeeded (answer k p) ≡ true
        → publish_webhook publisher event p ≡ (ok tt, sends (suc k) p)
    unfolding publish_webhook
    publish_webhook-delivers k p configured few fails reached =
        ground
          (arith, eq_iff publisher.url "", try_from-delivers k rounds 0 none p few fails reached)

    -- The event that goes to the dead letters.
    abbrev pub dead_event : OutboxEvent
    dead_event = record event { event_type = "merchant_webhook.failed"; published = false }

    -- When the URL is not empty, the request can be made and no wait is cut short: if all
    -- attempts fail (three when none is configured) and the dead letter is accepted, then
    -- publishing returns the error of the last attempt, after exactly that many attempts and
    -- one dead letter, which carries the event as merchant_webhook.failed.
    pub publish_webhook-exhausted :
        (n : ℕ) (letters : EventPublisher P) (p : P)
        → publisher.url ≢ ""
        → rounds ≡ suc n
        → FailsFor (suc n) p
        → publisher.dead_letter ≡ some letters
        → (letters.publish dead_event (sends (suc n) p)).0 ≡ ok tt
        → publish_webhook publisher event p ≡ (
          err (attempt_error publisher.client (answer n p)),
          (letters.publish dead_event (sends (suc n) p)).1,
        )
    unfolding publish_webhook give_up
    publish_webhook-exhausted n letters p configured all fails kept filed =
        ground
          (arith, eq_iff publisher.url "", all, kept, filed, try_from-exhausted n 0 none p fails)
