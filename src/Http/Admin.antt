-- ===== src/Http/Admin.antt =====
-- internal/httpapi/server.go: the handler of reconciliation, and the guard of the admin routes.
pub mod Access
use payment_ledger_platform.Base.{
  ℕ, String, ◌==◌, ◌||◌, not, List, [], ◌∷◌, ◌++◌, Option, none, some, if◌then◌else◌,
}
use payment_ledger_platform.Error.{Error}
use payment_ledger_platform.Amount.{Decimal}
use payment_ledger_platform.Service.Reconciliation
use payment_ledger_platform.Service.Reconciliation.{SettlementLine, ReconciliationMismatch}
use payment_ledger_platform.Service.Metrics.{CounterMetrics, inc}
use payment_ledger_platform.Http.Handler.{
  mismatches_body, Response, Server, World, Handler, write, refuse, calling, counting,
}

pub record LineRequest : Type 0 where
  pub provider_reference : String
  pub captured_amount : String

-- `for range mismatches { s.metrics.Inc("reconciliation_mismatches") }`
abbrev pub count_each :
    {A : Type 0} → List (ReconciliationMismatch A) → CounterMetrics → CounterMetrics
count_each [] counters = counters
count_each (_ ∷ mismatches) counters =
    count_each mismatches (inc "reconciliation_mismatches" counters)

module _ {S A : Type 0} ⦃d : Decimal A⦄ where
  -- The loop that reads the amounts of the lines, and what follows it.
  unfoldable pub with_lines :
      List LineRequest
      → List (SettlementLine A)
      → (List (SettlementLine A) → Handler S A)
      → Handler S A
  with_lines [] lines next = next lines
  with_lines (line ∷ rest) lines next = elim (d.from_string line.captured_amount) [
    | none ↦ refuse 422 "captured_amount must be decimal"
    | some amount ↦
        with_lines rest
          (lines
            ++ record { provider_reference = line.provider_reference; captured_amount = amount }
              ∷ [])
          next
  ]

  -- `key` is the header x-admin-api-key.
  unfoldable pub reconcile_lines :
      Server S A
      → (List (ReconciliationMismatch A) → List (ReconciliationMismatch A))
      → String
      → Option (List LineRequest)
      → Handler S A
  unfolding with_lines
  reconcile_lines server sort key request =
      if server.admin_key == "" || not (key == server.admin_key)
      then refuse 401 "valid x-admin-api-key is required"
      else elim request [
        | none ↦ refuse 400 "invalid JSON"
        | some rows ↦ with_lines rows [] λ lines.
            calling (Reconciliation.reconcile server.payments.store sort lines)
              (λ e. refuse 500 "reconciliation failed")
              λ mismatches. counting "reconciliation_runs" λ w.
                write 200 (mismatches_body mismatches)
                  (record w { counters = count_each mismatches w.counters })
      ]
