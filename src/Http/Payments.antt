-- ===== src/Http/Payments.antt =====
-- internal/httpapi/server.go: the handlers of payments. `merchant` is the merchant of the request's
-- key, empty when no keys are configured; UUIDs are arguments.
pub mod Ownership
use payment_ledger_platform.Base.{
  Bool, true, false, not, ◌&&◌, String, ◌==◌, Option, none, some, if◌then◌else◌,
}
use payment_ledger_platform.Error.{Error, not_found, Result, ok, err}
use payment_ledger_platform.Text.{Unicode}
use payment_ledger_platform.Amount.{Decimal}
use payment_ledger_platform.Domain.Payment.{Payment, CreatePayment}
use payment_ledger_platform.Service.Journal.{EntryIds}
use payment_ledger_platform.Service.Payments
use payment_ledger_platform.Http.Handler.{
  payment_body, Response, Server, Handler, World, write, refuse, unprocessable, calling, counting,
}

pub record CreateRequest : Type 0 where
  pub merchant_id : String
  pub customer_id : String
  pub currency : String
  pub amount : String

-- `errors.Is(err, store.ErrNotFound)`
abbrev pub is_not_found : Error → Bool
is_not_found not_found = true
is_not_found _ = false

module _ {S A : Type 0} ⦃d : Decimal A⦄ where
  -- `key` is the header x-idempotency-key.
  unfoldable pub create :
      ⦃u : Unicode⦄ → Server S A → String → String → Option CreateRequest → String → Handler S A
  unfolding unprocessable
  create server id merchant none key = refuse 400 "invalid JSON"
  create server id merchant (some request) key = elim (d.from_string request.amount) [
    | none ↦ refuse 422 "amount must be a decimal"
    | some amount ↦
        if not (merchant == "") && not (merchant == request.merchant_id)
        then refuse 403 "API key does not match merchant_id"
        else calling
            (Payments.create server.payments id
              (record {
                merchant_id = request.merchant_id;
                customer_id = request.customer_id;
                currency = request.currency;
                amount = amount;
              })
              key)
            unprocessable
            λ made.
              counting "payments_created"
                λ w. (record { code = 201; body = payment_body made.0; replay = made.1 }, w)
  ]

  unfoldable pub get : Server S A → String → String → Handler S A
  get server merchant id =
      calling (server.payments.store.get_payment id)
        (λ e.
          if is_not_found e then refuse 404 "payment not found" else refuse 500 "internal error")
        λ p.
          if not (merchant == "") && not (p.merchant_id == merchant)
          then refuse 404 "payment not found"
          else write 200 (payment_body p)

  -- `ownsPayment`, and what follows when it returns true.
  unfoldable pub owns_payment : Server S A → String → String → Handler S A → Handler S A
  owns_payment server merchant id next =
      if merchant == ""
      then next
      else calling (server.payments.store.get_payment id) (λ e. refuse 404 "payment not found")
          λ p. if p.merchant_id == merchant then next else refuse 404 "payment not found"

  unfoldable pub authorize : Server S A → EntryIds → String → String → Handler S A
  unfolding owns_payment unprocessable
  authorize server ids merchant id = owns_payment server merchant id (
      calling (Payments.authorize server.payments ids id) unprocessable
        λ p. counting "payments_authorized" (write 200 (payment_body p)))

  -- `requestAmount`, and what follows when it succeeds: the text of the amount, or the error of
  -- the decoder.
  unfoldable pub with_amount : Result String → (A → Handler S A) → Handler S A
  unfolding unprocessable
  with_amount (err e) next = unprocessable e
  with_amount (ok text) next = elim (d.from_string text) [
    | none ↦ refuse 422 (d.from_string_error text)
    | some amount ↦ next amount
  ]

  unfoldable pub capture : Server S A → EntryIds → String → String → Result String → Handler S A
  unfolding owns_payment with_amount unprocessable
  capture server ids merchant id request = owns_payment server merchant id (
      with_amount request λ amount.
        calling (Payments.capture server.payments ids id amount) unprocessable
          λ p. counting "payments_captured" (write 200 (payment_body p)))

  unfoldable pub refund : Server S A → EntryIds → String → String → Result String → Handler S A
  unfolding owns_payment with_amount unprocessable
  refund server ids merchant id request = owns_payment server merchant id (
      with_amount request λ amount.
        calling (Payments.refund server.payments ids id amount) unprocessable
          λ p. counting "payments_refunded" (write 200 (payment_body p)))
