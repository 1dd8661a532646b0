-- ===== src/Http/Webhooks/Register.antt =====
-- The register of provider events of internal/store/store.go only grows.
use payment_ledger_platform.Base.{◌≡◌, true, String, Option, none, List, [], ◌∷◌, arith}
use payment_ledger_platform.Base.Dict.{contains, contains-insert}
use payment_ledger_platform.Amount.{Decimal}
use payment_ledger_platform.Store.State.{MemoryStore}
use payment_ledger_platform.Store.Memory.Payments.{
  create_payment, get_payment, transition, apply_amount, append_ledger, commit_payment_command,
}
use payment_ledger_platform.Store.Memory.Outbox.{enqueue, mark_published, register_webhook}
use payment_ledger_platform.Store.Memory.Payouts.{create_payout, transition_payout}
use payment_ledger_platform.Store.Memory.Disputes.{create_dispute, resolve_dispute}
use payment_ledger_platform.Store.Steps.{
  StoreCall, creates_payment, transitions, applies_amount, appends_ledger, enqueues,
  marks_published, registers_webhook, commits, creates_payout, transitions_payout, creates_dispute,
  resolves_dispute, step, run,
}
use payment_ledger_platform.Store.Interface.{Visits}
use payment_ledger_platform.Service.Journal.{EntryIds}
use payment_ledger_platform.Service.Payments.{Provider, RiskEngine, capture, refund}
use payment_ledger_platform.Service.Payments.Outcome.{in_memory}

module _ {A : Type 0} ⦃d : Decimal A⦄ where
  -- No call forgets a registered event.
  step-webhooks :
      (c : StoreCall A) (id : String) (s : MemoryStore A)
      → contains id s.webhooks ≡ true
      → contains id (step c s).webhooks ≡ true
  unfolding step create_payment transition apply_amount append_ledger commit_payment_command enqueue
      mark_published register_webhook create_payout transition_payout create_dispute resolve_dispute
  step-webhooks (creates_payment p key) id s h = ground arith
  step-webhooks (transitions i to reference) id s h = ground arith
  step-webhooks (applies_amount i action amount) id s h = ground arith
  step-webhooks (appends_ledger entries) id s h = ground arith
  step-webhooks (enqueues event) id s h = ground arith
  step-webhooks (marks_published i) id s h = ground arith
  step-webhooks (registers_webhook i) id s h = grind (arith, contains-insert)
  step-webhooks (commits command) id s h = ground arith
  step-webhooks (creates_payout p entries event) id s h = ground arith
  step-webhooks (transitions_payout i status reference entries event) id s h = ground arith
  step-webhooks (creates_dispute p entries event) id s h = ground arith
  step-webhooks (resolves_dispute i status entries event) id s h = ground arith

  pub run-webhooks :
      (cs : List (StoreCall A)) (id : String) (s : MemoryStore A)
      → contains id s.webhooks ≡ true
      → contains id (run cs s).webhooks ≡ true
  unfolding run
  run-webhooks [] id s h = h
  run-webhooks (c ∷ cs) id s h = run-webhooks cs id (step c s) (step-webhooks c id s h)

  -- Captures and refunds leave the register of events alone.
  pub capture-webhooks :
      (visits : Visits A) (provider : Provider A) (risk : Option (RiskEngine A)) (ids : EntryIds)
      (id : String) (amount : A) (s : MemoryStore A)
      → (capture (in_memory visits provider risk none) ids id amount s).1.webhooks ≡ s.webhooks
  unfolding capture get_payment commit_payment_command
  capture-webhooks visits provider risk ids id amount s = ground arith

  pub refund-webhooks :
      (visits : Visits A) (provider : Provider A) (risk : Option (RiskEngine A)) (ids : EntryIds)
      (id : String) (amount : A) (s : MemoryStore A)
      → (refund (in_memory visits provider risk none) ids id amount s).1.webhooks ≡ s.webhooks
  unfolding refund get_payment commit_payment_command
  refund-webhooks visits provider risk ids id amount s = ground arith
