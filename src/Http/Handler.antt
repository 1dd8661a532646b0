-- ===== src/Http/Handler.antt =====
-- internal/httpapi/server.go: responses, and the shape of a handler. A handler's request is what
-- encoding/json decodes from the body, `none` where it refuses it.
use payment_ledger_platform.Base.{ℕ, List, Bool, false, String, Option}
use payment_ledger_platform.Error.{Error, message, ok, err, Exec}
use payment_ledger_platform.Domain.Payment.{Payment}
use payment_ledger_platform.Domain.Payout.{Payout}
use payment_ledger_platform.Domain.Dispute.{Dispute}
use payment_ledger_platform.Service.Reconciliation.{ReconciliationMismatch}
use payment_ledger_platform.Service.Metrics.{CounterMetrics, inc}
use payment_ledger_platform.Service.Payments.{PaymentService}
use payment_ledger_platform.Http.Security.{MerchantAuthenticator}

-- What `write` is given: an object with the one member `error` or `status`, or a record.
pub data Body (A : Type 0) : Type 0 where
  error_body : String → Body A
  status_body : String → Body A
  payment_body : Payment A → Body A
  payout_body : Payout A → Body A
  dispute_body : Dispute A → Body A
  mismatches_body : List (ReconciliationMismatch A) → Body A

-- `replay` is the header x-idempotent-replay.
pub record Response (A : Type 0) : Type 0 where
  pub code : ℕ
  pub body : Body A
  pub replay : Bool

-- `mac` is the HMAC-SHA256 of a text under a secret, and `decode_hex` is hex.DecodeString.
pub record Signing (B : Type 0) : Type 0 where
  pub mac : String → String → B
  pub decode_hex : String → Option B
  pub same : B → B → Bool

pub record Server (S A : Type 0) : Type 0 where
  pub payments : PaymentService S A
  pub webhook_secret : String
  pub authenticator : MerchantAuthenticator
  pub admin_key : String

-- What the handlers change: the state behind the store, and the counters.
pub record World (S : Type 0) : Type 0 where
  pub state : S
  pub counters : CounterMetrics

abbrev pub Handler : Type 0 → Type 0 → Type 0
Handler S A = World S → Response A × World S

module _ {S A : Type 0} where
  abbrev pub write : ℕ → Body A → Handler S A
  write code body w = (record { code = code; body = body; replay = false }, w)

  -- `write(w, code, map[string]string{"error": text})`
  abbrev pub refuse : ℕ → String → Handler S A
  refuse code text = write code (error_body text)

  -- The answer to an error that the services return.
  unfoldable pub unprocessable : Error → Handler S A
  unfolding message
  unprocessable e = refuse 422 (message e)

  -- A call of a service, and what follows when it fails and when it succeeds.
  abbrev pub calling :
      {X : Type 0} → Exec S X → (Error → Handler S A) → (X → Handler S A) → Handler S A
  calling call failed next w =
      let (r, s) = call w.state in
      elim r [ ok x ↦ next x (record w { state = s }) | err e ↦ failed e (record w { state = s }) ]

  abbrev pub counting : String → Handler S A → Handler S A
  counting name next w = next (record w { counters = inc name w.counters })
