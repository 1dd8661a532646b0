-- ===== src/Http/Transfers.antt =====
-- internal/httpapi/server.go: the handlers of payouts and disputes. UUIDs are arguments.
use Prim.Native.String
use payment_ledger_platform.Base.{Bool, not, ◌||◌, String, ◌==◌, Option, none, some, if◌then◌else◌}
use payment_ledger_platform.Text.{Unicode}
use payment_ledger_platform.Amount.{Decimal}
use payment_ledger_platform.Service.Journal.{EntryIds}
use payment_ledger_platform.Service.Payouts
use payment_ledger_platform.Service.Disputes
use payment_ledger_platform.Json.{dispute_status}
use payment_ledger_platform.Http.Handler.{
  payout_body, dispute_body, Server, Handler, write, refuse, unprocessable, calling, counting,
}

pub record PayoutRequest : Type 0 where
  pub currency : String
  pub amount : String

pub record DisputeRequest : Type 0 where
  pub payment_id : String
  pub reason : String
  pub amount : String

module _ {S A : Type 0} ⦃d : Decimal A⦄ where
  -- `requireAdmin`, and what follows when it returns true; `key` is the header x-admin-api-key.
  unfoldable pub require_admin : Server S A → String → Handler S A → Handler S A
  require_admin server key next =
      if server.admin_key == "" || not (key == server.admin_key)
      then refuse 401 "valid x-admin-api-key is required"
      else next

  unfoldable pub resolve_dispute :
      Server S A → EntryIds → String → String → Option Bool → Handler S A
  unfolding require_admin unprocessable
  resolve_dispute server ids key id request = require_admin server key (elim request [
    | none ↦ refuse 400 "invalid JSON"
    | some merchant_wins ↦
        calling (Disputes.resolve server.payments.store ids id merchant_wins) unprocessable λ p.
          counting (String.◌++◌ "disputes_" (dispute_status p.status)) (write 200 (dispute_body p))
  ])

  module _ ⦃u : Unicode⦄ where
    unfoldable pub open_dispute :
        Server S A → String → EntryIds → String → Option DisputeRequest → Handler S A
    unfolding require_admin unprocessable
    open_dispute server id ids key request = require_admin server key (elim request [
      | none ↦ refuse 400 "invalid JSON"
      | some body ↦ elim (d.from_string body.amount) [
        | none ↦ refuse 422 "amount must be decimal"
        | some amount ↦
            calling
              (Disputes.open_dispute server.payments.store id ids body.payment_id body.reason
                amount)
              unprocessable λ p. counting "disputes_opened" (write 201 (dispute_body p))
      ]
    ])

    unfoldable pub create_payout :
        Server S A → String → EntryIds → String → Option PayoutRequest → Handler S A
    unfolding unprocessable
    create_payout server id ids merchant request =
        if merchant == ""
        then refuse 403 "merchant API keys are required for payouts"
        else elim request [
          | none ↦ refuse 400 "invalid JSON"
          | some body ↦ elim (d.from_string body.amount) [
            | none ↦ refuse 422 "amount must be decimal"
            | some amount ↦
                calling (Payouts.create server.payments.store id ids merchant body.currency amount)
                  unprocessable λ p. counting "payouts_created" (write 201 (payout_body p))
          ]
        ]
