-- ===== src/Http/Payments/Ownership.antt =====
-- internal/httpapi/server.go: a merchant reaches no payment of another one.
use payment_ledger_platform.Base.{◌≡◌, ◌≢◌, String, eq_iff, Option, none, some, arith}
use payment_ledger_platform.Base.Dict.{lookup}
use payment_ledger_platform.Error.{Result}
use payment_ledger_platform.Amount.{Decimal}
use payment_ledger_platform.Domain.Payment.{Payment}
use payment_ledger_platform.Store.State.{MemoryStore}
use payment_ledger_platform.Store.Memory.Payments.{get_payment}
use payment_ledger_platform.Store.Interface.{Visits}
use payment_ledger_platform.Service.Journal.{EntryIds}
use payment_ledger_platform.Service.Payments.{Provider, RiskEngine}
use payment_ledger_platform.Service.Payments.Outcome.{in_memory}
use payment_ledger_platform.Http.Security.{MerchantAuthenticator}
use payment_ledger_platform.Http.Handler.{Server, World, refuse}
use payment_ledger_platform.Http.Payments.{owns_payment, get, authorize, capture, refund}

module _ {A : Type 0} ⦃d : Decimal A⦄ (visits : Visits A) (provider : Provider A)
    (risk : Option (RiskEngine A)) (secret admin_key : String)
    (authenticator : MerchantAuthenticator) where
  abbrev pub server : Server (MemoryStore A) A
  server = record {
    payments = in_memory visits provider risk none;
    webhook_secret = secret;
    authenticator = authenticator;
    admin_key = admin_key;
  }

  -- When a merchant that is not the empty text asks for a payment that is stored for another
  -- merchant, then reading, authorising, capturing and refunding it are all answered with 404,
  -- and neither the store nor a counter changes.
  pub foreign_not_found :
      (ids : EntryIds) (merchant id : String) (request : Result String) (p : Payment A)
      (w : World (MemoryStore A))
      → merchant ≢ ""
      → lookup id w.state.payments ≡ some p
      → p.merchant_id ≢ merchant
      → (get server merchant id w ≡ refuse 404 "payment not found" w)
        × (authorize server ids merchant id w ≡ refuse 404 "payment not found" w)
        × (capture server ids merchant id request w ≡ refuse 404 "payment not found" w)
        × (refund server ids merchant id request w ≡ refuse 404 "payment not found" w)
  unfolding get authorize capture refund owns_payment get_payment
  foreign_not_found ids merchant id request p w keyed found foreign = (
    ground (arith, found, eq_iff merchant "", eq_iff p.merchant_id merchant),
    ground (arith, found, eq_iff merchant "", eq_iff p.merchant_id merchant),
    ground (arith, found, eq_iff merchant "", eq_iff p.merchant_id merchant),
    ground (arith, found, eq_iff merchant "", eq_iff p.merchant_id merchant),
  )
