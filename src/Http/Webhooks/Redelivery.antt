-- ===== src/Http/Webhooks/Redelivery.antt =====
-- internal/httpapi/webhook.go: a provider event is processed once, and only when it is signed.
use payment_ledger_platform.Base.{
  ◌⊎◌, eq_iff, ◌≡◌, sym, ◌∙◌, subst, true, false, not, ◌&&◌, ◌||◌, ◌==◌, inl, inr, String, Option,
  none, some, List, Option-cases, Bool-cases, if◌then◌else◌, arith,
}
use payment_ledger_platform.Base.Dict.{lookup, insert, lookup-insert_self, contains}
use payment_ledger_platform.Amount.{Decimal}
use payment_ledger_platform.Store.State.{MemoryStore}
use payment_ledger_platform.Store.Memory.Outbox.{register_webhook}
use payment_ledger_platform.Store.Steps.{StoreCall, run}
use payment_ledger_platform.Store.Interface.{Visits}
use payment_ledger_platform.Service.Journal.{EntryIds}
use payment_ledger_platform.Service.Payments.{Provider, RiskEngine, capture, refund}
use payment_ledger_platform.Service.Metrics.{CounterMetrics}
use payment_ledger_platform.Http.Handler.{
  Signing, Response, World, Handler, status_body, payment_body, write, refuse, unprocessable,
  calling,
}
use payment_ledger_platform.Http.Payments.Ownership.{server}
use payment_ledger_platform.Http.Security.{MerchantAuthenticator}
use payment_ledger_platform.Service.Payments.Outcome.{in_memory}
use payment_ledger_platform.Http.Webhooks.{
  ProviderWebhook, PayoutWebhook, verify_signature, once, webhook, payout_webhook,
}
use payment_ledger_platform.Http.Webhooks.Register.{run-webhooks, capture-webhooks, refund-webhooks}

module _ {A : Type 0} ⦃d : Decimal A⦄ (visits : Visits A) (provider : Provider A)
    (risk : Option (RiskEngine A)) (secret admin_key : String)
    (authenticator : MerchantAuthenticator) {B : Type 0} (signing : Signing B)
    (decode : String → Option ProviderWebhook) where
  abbrev handle :
      EntryIds → String → String → World (MemoryStore A) → Response A × World (MemoryStore A)
  handle ids body signature =
      webhook signing decode (server visits provider risk secret admin_key authenticator) ids
        (some body) signature

  -- What a request must be to reach the register of events.
  record IsAccepted (body signature : String) (event : ProviderWebhook) (amount : A) : Type 0 where
    signed : verify_signature signing secret body signature ≡ true
    decoded : decode body ≡ some event
    filled : (event.id == "" || event.payment_id == "") ≡ false
    priced : d.from_string event.amount ≡ some amount
    positive : d.greater_than amount d.zero ≡ true
    supported :
        (not (event.event_type == "payment.captured")
          && not (event.event_type == "payment.refunded"))
        ≡ false

  verify_signature-forged :
      (body signature : String)
      → ((expected : B)
          → signing.decode_hex signature ≡ some expected
          → signing.same (signing.mac secret body) expected ≡ false)
      → verify_signature signing secret body signature ≡ false
  unfolding verify_signature
  verify_signature-forged body signature forged =
      elim (Option-cases (signing.decode_hex signature)) [
        | inl garbled ↦ ground (arith, garbled)
        | inr (expected, read) ↦ ground (arith, read, forged expected read)
      ]

  -- A payment or payout webhook whose body was read, and whose signature is not the hexadecimal
  -- form of the body's MAC under the secret, is answered with 401, and neither the store nor a
  -- counter changes.
  pub webhook_unsigned :
      (decode_payout : String → Option PayoutWebhook) (ids : EntryIds) (body signature : String)
      (w : World (MemoryStore A))
      → ((expected : B)
          → signing.decode_hex signature ≡ some expected
          → signing.same (signing.mac secret body) expected ≡ false)
      → let edge = server visits provider risk secret admin_key authenticator in
        (webhook signing decode edge ids (some body) signature w
          ≡ refuse 401 "invalid webhook signature" w)
        × (payout_webhook signing decode_payout edge ids (some body) signature w
            ≡ refuse 401 "invalid webhook signature" w)
  unfolding webhook payout_webhook
  webhook_unsigned decode_payout ids body signature w forged =
      let refused = verify_signature-forged body signature forged in
      (ground (arith, refused), ground (arith, refused))

  -- What follows the registration.
  abbrev process : EntryIds → ProviderWebhook → A → Handler (MemoryStore A) A
  process ids event amount =
      calling
        (if event.event_type == "payment.captured"
          then capture (in_memory visits provider risk none) ids event.payment_id amount
          else refund (in_memory visits provider risk none) ids event.payment_id amount)
        unprocessable λ p. write 200 (payment_body p)

  reaches :
      (ids : EntryIds) (body signature : String) (w : World (MemoryStore A))
      (event : ProviderWebhook) (amount : A)
      → IsAccepted body signature event amount
      → handle ids body signature w
        ≡ once signing
            (server visits provider risk secret admin_key authenticator)
            event.id
            (process ids event amount)
            w
  unfolding webhook
  reaches ids body signature w event amount h =
      ground (arith, h.signed, h.decoded, h.filled, h.priced, h.positive, h.supported)

  IsAccepted-handle :
      (ids : EntryIds) (body signature : String) (w : World (MemoryStore A))
      → (handle ids body signature w).0.code ≡ 200
      → (event : ProviderWebhook) × (amount : A) × IsAccepted body signature event amount
  unfolding webhook
  IsAccepted-handle ids body signature w h =
      elim (Bool-cases (verify_signature signing secret body signature)) [
        | inr unsigned ↦ ground (arith, unsigned)
        | inl signed ↦ elim (Option-cases (decode body)) [
          | inl garbled ↦ ground (arith, signed, garbled)
          | inr (event, decoded) ↦ elim (Option-cases (d.from_string event.amount)) [
            | inl unpriced ↦ ground (arith, signed, decoded, unpriced)
            | inr (amount, priced) ↦ (event, amount, ground (arith, signed, decoded, priced, h))
          ]
        ]
      ]

  process-webhooks :
      (ids : EntryIds) (event : ProviderWebhook) (amount : A) (w : World (MemoryStore A))
      → (process ids event amount w).1.state.webhooks ≡ w.state.webhooks
  unfolding unprocessable
  process-webhooks ids event amount w = elim (Bool-cases (event.event_type == "payment.captured")) [
    | inl captures ↦
        ground (
          arith,
          captures,
          capture-webhooks visits provider risk ids event.payment_id amount w.state,
        )
    | inr refunds ↦
        ground
          (arith, refunds, refund-webhooks visits provider risk ids event.payment_id amount w.state)
  ]

  registered :
      (ids : EntryIds) (event : ProviderWebhook) (amount : A) (w : World (MemoryStore A))
      → contains event.id
          (once signing
            (server visits provider risk secret admin_key authenticator)
            event.id
            (process ids event amount)
            w).1.state.webhooks
        ≡ true
  unfolding register_webhook
  registered ids event amount w = elim (Option-cases (lookup event.id w.state.webhooks)) [
    | inr (_, known) ↦ ground (arith, known)
    | inl new ↦ ground (
      arith,
      new,
      process-webhooks ids event amount (record w {
        state = record (w.state) { webhooks = insert event.id tt w.state.webhooks };
      }),
      lookup-insert_self event.id tt w.state.webhooks,
    )
  ]

  duplicate :
      (ids : EntryIds) (body signature : String) (w : World (MemoryStore A))
      (event : ProviderWebhook) (amount : A)
      → IsAccepted body signature event amount
      → contains event.id w.state.webhooks ≡ true
      → handle ids body signature w ≡ write 200 (status_body "duplicate_ignored") w
  unfolding register_webhook
  duplicate ids body signature w event amount h known =
      reaches ids body signature w event amount h
      ∙ elim (Option-cases (lookup event.id w.state.webhooks)) [
        | inl new ↦ ground (arith, new, known)
        | inr (_, there) ↦ ground (arith, there)
      ]

  -- A request that reached the register of events is a duplicate from then on.
  redelivered :
      (ids ids' : EntryIds) (body signature : String) (w : World (MemoryStore A))
      (cs : List (StoreCall A)) (counters : CounterMetrics) (event : ProviderWebhook) (amount : A)
      → IsAccepted body signature event amount
      → let now : World (MemoryStore A) = record {
        state = run cs (handle ids body signature w).1.state;
        counters = counters;
      } in
        handle ids' body signature now ≡ write 200 (status_body "duplicate_ignored") now
  redelivered ids ids' body signature w cs counters event amount good =
      duplicate ids' body signature _ event amount good (
        run-webhooks cs event.id _ (
          subst (λ r. contains event.id r.1.state.webhooks ≡ true)
            (sym (reaches ids body signature w event amount good)) (registered ids event amount w)))

  -- After a payment webhook was answered with 200, and any further list of store calls and any
  -- counts, the same request is answered as a duplicate that is ignored, and neither the store
  -- nor a counter changes.
  pub webhook_redelivered :
      (ids ids' : EntryIds) (body signature : String) (w : World (MemoryStore A))
      (cs : List (StoreCall A)) (counters : CounterMetrics)
      → (handle ids body signature w).0.code ≡ 200
      → let now : World (MemoryStore A) = record {
        state = run cs (handle ids body signature w).1.state;
        counters = counters;
      } in
        handle ids' body signature now ≡ write 200 (status_body "duplicate_ignored") now
  webhook_redelivered ids ids' body signature w cs counters h =
      let (event, amount, good) = IsAccepted-handle ids body signature w h in
      redelivered ids ids' body signature w cs counters event amount good

  IsAccepted-failed :
      (ids : EntryIds) (body signature : String) (w : World (MemoryStore A))
      (event : ProviderWebhook)
      → decode body ≡ some event
      → (event.event_type ≡ "payment.captured") ⊎ (event.event_type ≡ "payment.refunded")
      → (handle ids body signature w).0.code ≡ 422
      → (amount : A) × IsAccepted body signature event amount
  unfolding webhook
  IsAccepted-failed ids body signature w event decoded supported h =
      let known : (not (event.event_type == "payment.captured")
            && not (event.event_type == "payment.refunded"))
          ≡ false =
        ground (
          arith,
          eq_iff event.event_type "payment.captured",
          eq_iff event.event_type "payment.refunded",
        ) in
      elim (Bool-cases (verify_signature signing secret body signature)) [
        | inr unsigned ↦ ground (arith, unsigned)
        | inl signed ↦ elim (Option-cases (d.from_string event.amount)) [
          | inl unpriced ↦ ground (arith, signed, decoded, unpriced)
          | inr (amount, priced) ↦ (amount, ground (arith, signed, decoded, priced, known, h))
        ]
      ]

  -- When a payment webhook of a supported type was answered with 422, so its capture or refund
  -- failed, then after any further list of store calls and any counts the same request is
  -- answered as a duplicate that is ignored, and neither the store nor a counter changes: the
  -- failed event is not tried again.
  pub webhook_not_retried :
      (ids ids' : EntryIds) (body signature : String) (w : World (MemoryStore A))
      (cs : List (StoreCall A)) (counters : CounterMetrics) (event : ProviderWebhook)
      → decode body ≡ some event
      → (event.event_type ≡ "payment.captured") ⊎ (event.event_type ≡ "payment.refunded")
      → (handle ids body signature w).0.code ≡ 422
      → let now : World (MemoryStore A) = record {
        state = run cs (handle ids body signature w).1.state;
        counters = counters;
      } in
        handle ids' body signature now ≡ write 200 (status_body "duplicate_ignored") now
  webhook_not_retried ids ids' body signature w cs counters event decoded supported h =
      let (amount, good) = IsAccepted-failed ids body signature w event decoded supported h in
      redelivered ids ids' body signature w cs counters event amount good
