-- ===== src/Examples/Scenarios.antt =====
-- The lives of a payment, a payout and a dispute, run on the store in memory, as in
-- internal/service/payment_service_test.go and payout_dispute_test.go.
use payment_ledger_platform.Base.{◌≡◌, refl, false, none}
use payment_ledger_platform.Base.Dict.{lookup, insert}
use payment_ledger_platform.Base.Int.{ℤ, pos, ◌+ℤ◌, opposite}
use payment_ledger_platform.Error.{ok, Exec, ◌>>◌}
use payment_ledger_platform.Text.{to_upper, trim_space}
use payment_ledger_platform.Domain.Payment.{
  can_transition, validate_capture, validate_refund, new_payment,
}
use payment_ledger_platform.Domain.Ledger.{is_malformed, validate_balanced}
use payment_ledger_platform.Domain.Payout.{new_payout}
use payment_ledger_platform.Json.{payment_json}
use payment_ledger_platform.Store.State.{MemoryStore, new_memory}
use payment_ledger_platform.Store.Memory.Payments.{
  create_payment, get_payment, commit_payment_command,
}
use payment_ledger_platform.Store.Memory.Payouts.{
  sum_account, available_balance, create_payout, get_payout, transition_payout,
}
use payment_ledger_platform.Store.Interface.{memory}
use payment_ledger_platform.Service.Journal.{journal}
use payment_ledger_platform.Service.Payments.{PaymentService, create, authorize, capture, refund}
use payment_ledger_platform.Service.Payments.Outcome.{in_memory}
use payment_ledger_platform.Service.Payouts
use payment_ledger_platform.Examples.Cents.{cents, show_cents}
use payment_ledger_platform.Examples.Data.{
  ascii, in_order, accepting, ids_1, ids_2, ids_3, order, authorized_order,
}

abbrev shop : PaymentService (MemoryStore ℤ) ℤ
shop = in_memory in_order accepting none none

payload :
    payment_json authorized_order
    ≡ "{\"id\":\"p1\",\"merchant_id\":\"m1\",\"customer_id\":\"c1\",\"currency\":\"USD\",\"amount\":\"100\",\"captured_amount\":\"0\",\"refunded_amount\":\"0\",\"status\":\"authorized\",\"provider_reference\":\"demo_1\"}"
unfolding payment_json show_cents
payload = refl

-- Create, authorise, capture 60 of 100, refund 20, pay 30 out; the payout fails.
lifecycle : Exec (MemoryStore ℤ) ℤ
unfolding create authorize capture refund Payouts.create Payouts.complete
lifecycle = do
  create shop "p1" order "order-1"
  authorize shop ids_1 "p1"
  capture shop ids_2 "p1" (pos 60)
  refund shop ids_3 "p1" (pos 20)
  Payouts.create (memory in_order) "o1" ids_1 "m1" "USD" (pos 30)
  Payouts.complete (memory in_order) ids_2 "o1" "failed" false
  available_balance "m1" "USD"

lifecycle_balance : (lifecycle new_memory).0 ≡ ok (pos 40)
unfolding lifecycle create_payment lookup insert new_payment trim_space to_upper get_payment
    validate_capture validate_refund can_transition commit_payment_command validate_balanced
    is_malformed journal new_payout create_payout get_payout transition_payout sum_account
    available_balance ◌+ℤ◌ opposite
lifecycle_balance = refl
