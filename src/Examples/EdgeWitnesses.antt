-- ===== src/Examples/EdgeWitnesses.antt =====
-- The theorems on the HTTP edge, at concrete inputs.
use payment_ledger_platform.Base.{
  inl, inr, true, ◌≡◌, ◌≢◌, refl, String, eq_iff, ◌==◌, List, [], ◌∷◌, Option, none, some, ltb,
  if◌then◌else◌, arith,
}
use payment_ledger_platform.Base.Dict.{lookup, insert}
use payment_ledger_platform.Base.Int.{ℤ, ◌+ℤ◌, opposite}
use payment_ledger_platform.Error.{ok}
use payment_ledger_platform.Text.{trim_space, split, cut}
use payment_ledger_platform.Store.State.{MemoryStore}
use payment_ledger_platform.Store.Memory.Payments.{get_payment, commit_payment_command}
use payment_ledger_platform.Store.Memory.Outbox.{register_webhook}
use payment_ledger_platform.Domain.Payment.{validate_capture, can_transition}
use payment_ledger_platform.Domain.Ledger.{validate_balanced, is_malformed}
use payment_ledger_platform.Service.Journal.{journal}
use payment_ledger_platform.Service.Payments
use payment_ledger_platform.Store.Steps.{StoreCall, marks_published, run}
use payment_ledger_platform.Service.Metrics.{new_counter_metrics}
use payment_ledger_platform.Http.Security.{
  MerchantAuthenticator, new_merchant_authenticator, new_memory_rate_limiter, allow,
}
use payment_ledger_platform.Http.Security.Window.{Request, answered, let_through, allow-let_through}
use payment_ledger_platform.Http.Handler.{
  Signing, World, Handler, status_body, unprocessable, write, refuse,
}
use payment_ledger_platform.Http.Guard.{require_merchant}
use payment_ledger_platform.Http.Guard.Access.{limiter_at, require_merchant-keyed}
use payment_ledger_platform.Http.Transfers.{open_dispute, resolve_dispute}
use payment_ledger_platform.Http.Admin.{reconcile_lines}
use payment_ledger_platform.Http.Admin.Access.{admin_refused}
use payment_ledger_platform.Http.Payments.{get, authorize, capture, refund}
use payment_ledger_platform.Http.Payments.Ownership.{server, foreign_not_found}
use payment_ledger_platform.Http.Webhooks.{
  ProviderWebhook, PayoutWebhook, verify_signature, webhook,
}
use payment_ledger_platform.Http.Webhooks.Redelivery.{webhook_redelivered, webhook_not_retried}
use payment_ledger_platform.Examples.Cents.{cents, read_cents}
use payment_ledger_platform.Examples.Data.{
  ascii, in_order, accepting, ids_1, ids_2, captured_order, with_payment,
}

-- The newest request comes first.
abbrev requests : List Request
requests = (130, "m1") ∷ (120, "m2") ∷ (110, "m1") ∷ []

allow-let_through_example :
    (allow 140 "m1" (answered (new_memory_rate_limiter 2 100) requests)).0
    ≡ ok (ltb (let_through (new_memory_rate_limiter 2 100) "m1" 140 requests) 2)
allow-let_through_example =
    allow-let_through 2 100 140 "m1" requests (omega arith, (omega arith, (omega arith, tt)))

abbrev keys : MerchantAuthenticator
keys = new_merchant_authenticator "key-a:m1, key-b:m2"

one_key : keys.keys ≢ []
unfolding new_merchant_authenticator split cut trim_space insert
one_key e = ground (arith, e)

abbrev world : World (MemoryStore ℤ)
world = record { state = with_payment captured_order; counters = new_counter_metrics }

abbrev welcome : String → Handler (MemoryStore ℤ) ℤ
welcome merchant = write 200 (status_body merchant)

require_merchant-keyed_example :
    let r =
      require_merchant
        (λ m. m)
        keys
        (limiter_at 140)
        "key-a"
        welcome
        (world, answered (new_memory_rate_limiter 2 100) requests) in
    (r.0, r.1.0) ≡ (
      if ltb (let_through (new_memory_rate_limiter 2 100) "m1" 140 requests) 2
      then welcome "m1" world
      else refuse 429 "rate limit exceeded" world)
unfolding new_merchant_authenticator split cut trim_space insert lookup
require_merchant-keyed_example =
    require_merchant-keyed "key-a:m1, key-b:m2" "key-a" (λ m. m) (λ m. refl) one_key 2 100 140
      requests welcome world "m1" refl (omega arith, (omega arith, (omega arith, tt)))

foreign_not_found_example :
    let edge = server in_order accepting none "secret" "admin" keys in
    (get edge "m2" "p1" world ≡ refuse 404 "payment not found" world)
    × (authorize edge ids_1 "m2" "p1" world ≡ refuse 404 "payment not found" world)
    × (capture edge ids_1 "m2" "p1" (ok "5") world ≡ refuse 404 "payment not found" world)
    × (refund edge ids_1 "m2" "p1" (ok "5") world ≡ refuse 404 "payment not found" world)
unfolding lookup
foreign_not_found_example =
    foreign_not_found in_order accepting none "secret" "admin" keys ids_1 "m2" "p1" (ok "5")
      captured_order world (ground (arith, eq_iff "m2" "")) refl (ground (arith, eq_iff "m1" "m2"))

-- A signature that is the body itself.
abbrev echo : Signing String
echo = record { mac = λ secret body. body; decode_hex = some; same = λ a b. a == b }

abbrev decode : String → Option ProviderWebhook
decode body =
    some (record { id = "w1"; event_type = "payment.captured"; payment_id = "p1"; amount = body })

abbrev decode_payout : String → Option PayoutWebhook
decode_payout body = none

abbrev edge_calls : List (StoreCall ℤ)
edge_calls = marks_published "e1" ∷ marks_published "e9" ∷ []

webhook_redelivered_example :
    let edge = server in_order accepting none "secret" "admin" keys in
    let now : World (MemoryStore ℤ) = record {
      state = run edge_calls (webhook echo decode edge ids_1 (some "5") "5" world).1.state;
      counters = new_counter_metrics;
    } in
    webhook echo decode edge ids_2 (some "5") "5" now
    ≡ write 200 (status_body "duplicate_ignored") now
unfolding webhook verify_signature register_webhook Payments.capture get_payment
    commit_payment_command validate_capture can_transition validate_balanced is_malformed journal
    lookup insert read_cents ◌+ℤ◌ opposite
webhook_redelivered_example =
    webhook_redelivered in_order accepting none "secret" "admin" keys echo decode ids_1 ids_2 "5"
      "5" world edge_calls new_counter_metrics refl

admin_refused_example :
    let edge = server in_order accepting none "secret" "admin" keys in
    (reconcile_lines edge (λ xs. xs) "guess" none world
      ≡ refuse 401 "valid x-admin-api-key is required" world)
    × (open_dispute edge "x1" ids_1 "guess" none world
        ≡ refuse 401 "valid x-admin-api-key is required" world)
    × (resolve_dispute edge ids_1 "guess" "x1" (some true) world
        ≡ refuse 401 "valid x-admin-api-key is required" world)
admin_refused_example =
    admin_refused (server in_order accepting none "secret" "admin" keys) (λ xs. xs) "guess" "x1"
      ids_1 none none (some true) world (inr (ground (arith, eq_iff "guess" "admin")))

-- A capture of more than is left.
webhook_not_retried_example :
    let edge = server in_order accepting none "secret" "admin" keys in
    let now : World (MemoryStore ℤ) = record {
      state = run edge_calls (webhook echo decode edge ids_1 (some "500") "500" world).1.state;
      counters = new_counter_metrics;
    } in
    webhook echo decode edge ids_2 (some "500") "500" now
    ≡ write 200 (status_body "duplicate_ignored") now
unfolding webhook verify_signature register_webhook Payments.capture get_payment
    commit_payment_command validate_capture can_transition validate_balanced is_malformed journal
    lookup insert read_cents ◌+ℤ◌ opposite unprocessable
webhook_not_retried_example =
    webhook_not_retried in_order accepting none "secret" "admin" keys echo decode ids_1 ids_2 "500"
      "500" world edge_calls new_counter_metrics
      (record { id = "w1"; event_type = "payment.captured"; payment_id = "p1"; amount = "500" })
      refl (inl refl) refl
