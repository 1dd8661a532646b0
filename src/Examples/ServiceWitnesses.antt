-- ===== src/Examples/ServiceWitnesses.antt =====
-- The theorems on the payment service, at concrete inputs that meet their hypotheses.
use payment_ledger_platform.Base.{◌≡◌, refl, true, eq_iff, none, some, arith}
use payment_ledger_platform.Base.Dict.{lookup}
use payment_ledger_platform.Base.Int.{ℤ, pos, ◌+ℤ◌}
use payment_ledger_platform.Error.{blocked_by_risk, ok}
use payment_ledger_platform.Text.{to_upper, trim_space}
use payment_ledger_platform.Domain.Payment.{Payment, can_transition, new_payment}
use payment_ledger_platform.Store.State.{new_memory}
use payment_ledger_platform.Store.Memory.Payments.{get_payment}
use payment_ledger_platform.Store.Steps.{run}
use payment_ledger_platform.Service.Payments.{create, authorize, capture, refund}
use payment_ledger_platform.Service.Payments.Outcome.{in_memory, committed}
use payment_ledger_platform.Service.Payments.Captures.{
  captured_payment, refunded_payment, capture_journal, refund_journal, capture-committed,
  refund-committed,
}
use payment_ledger_platform.Service.Payments.Authorization.{
  authorize_journal, authorize-committed, FailsAtMost, authorize_fails,
}
use payment_ledger_platform.Service.Payments.Idempotency.{create_replays}
use payment_ledger_platform.Examples.Cents.{cents, meaning}
use payment_ledger_platform.Examples.Data.{
  new_order-IsSound, calls, ascii, in_order, accepting, blocking, ids_1, order, new_order,
  authorized_order, captured_order, with_payment,
}

create_replays_example :
    let now =
      run calls
        (create (in_memory in_order accepting none none) "p1" order "order-1" new_memory).1 in
    (q : Payment ℤ) × (lookup "p1" now.payments ≡ some q)
    × (create (in_memory in_order accepting none none) "p2" order "order-1" now
        ≡ (ok (q, true), now))
unfolding new_payment trim_space to_upper lookup
create_replays_example =
    create_replays in_order accepting none "p1" "p2" order order "order-1" new_memory calls
      {p = new_order} {p' = record new_order { id = "p2" }} (ground (arith, eq_iff "order-1" ""))
      refl refl refl

capture-committed_example :
    capture
      (in_memory in_order accepting none none)
      ids_1
      "p1"
      (pos 60)
      (with_payment authorized_order)
    ≡ committed
        (captured_payment authorized_order (pos 60))
        (capture_journal ids_1 authorized_order (pos 60))
        "e1"
        "payment.captured"
        (with_payment authorized_order)
unfolding lookup can_transition ◌+ℤ◌
capture-committed_example =
    capture-committed meaning in_order accepting none none ids_1 (with_payment authorized_order)
      authorized_order (pos 60) refl refl (refl, refl) refl

refund-committed_example :
    refund
      (in_memory in_order accepting none none)
      ids_1
      "p1"
      (pos 60)
      (with_payment captured_order)
    ≡ committed
        (refunded_payment captured_order (pos 60))
        (refund_journal ids_1 captured_order (pos 60))
        "e1"
        "payment.refunded"
        (with_payment captured_order)
unfolding lookup can_transition ◌+ℤ◌
refund-committed_example =
    refund-committed meaning in_order accepting none none ids_1 (with_payment captured_order)
      captured_order (pos 60) refl refl (refl, refl) refl

authorize-committed_example :
    authorize (in_memory in_order accepting none none) ids_1 "p1" (with_payment new_order)
    ≡ committed authorized_order
        (authorize_journal ids_1 new_order)
        "e1"
        "payment.authorized"
        (with_payment new_order)
unfolding lookup
authorize-committed_example =
    authorize-committed meaning in_order accepting none none ids_1 (with_payment new_order)
      new_order "demo_1" refl new_order-IsSound refl refl refl (ground (arith, eq_iff "demo_1" ""))

authorize_fails_example :
    FailsAtMost "p1"
      (with_payment new_order)
      (authorize
        (in_memory in_order accepting (some blocking) none)
        ids_1
        "p1"
        (with_payment new_order)).1
unfolding authorize get_payment lookup
authorize_fails_example =
    authorize_fails in_order accepting (some blocking) none ids_1 "p1" (with_payment new_order)
      {e = blocked_by_risk} refl
