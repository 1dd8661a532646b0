-- ===== src/Service/Payments/Idempotency.antt =====
-- internal/service/payment_service.go: `Create` over the store in memory, and its idempotency keys.
use payment_ledger_platform.Base.{
  ◌≡◌, ◌≢◌, inl, inr, true, false, String, eq_iff, Option, none, some, List, [], ◌∷◌, Option-cases,
  arith,
}
use payment_ledger_platform.Base.Dict.{
  lookup, insert, lookup-insert, lookup-insert_self, contains, contains-insert,
}
use payment_ledger_platform.Error.{ok}
use payment_ledger_platform.Text.{Unicode}
use payment_ledger_platform.Amount.{Decimal}
use payment_ledger_platform.Domain.Payment.{Payment, CreatePayment, new_payment}
use payment_ledger_platform.Store.State.{MemoryStore}
use payment_ledger_platform.Store.Memory.Payments.{
  create_payment, transition, apply_amount, append_ledger, commit_payment_command,
}
use payment_ledger_platform.Store.Memory.Outbox.{enqueue, mark_published, register_webhook}
use payment_ledger_platform.Store.Memory.Payouts.{create_payout, transition_payout}
use payment_ledger_platform.Store.Memory.Disputes.{create_dispute, resolve_dispute}
use payment_ledger_platform.Store.Steps.{
  StoreCall, creates_payment, transitions, applies_amount, appends_ledger, enqueues,
  marks_published, registers_webhook, commits, creates_payout, transitions_payout, creates_dispute,
  resolves_dispute, step, run,
}
use payment_ledger_platform.Store.Interface.{Visits}
use payment_ledger_platform.Service.Payments.{Provider, RiskEngine, create}
use payment_ledger_platform.Service.Payments.Outcome.{in_memory}

module _ {A : Type 0} ⦃d : Decimal A⦄ where
  -- No call rebinds an idempotency key.
  step-keys :
      (c : StoreCall A) (key id : String) (s : MemoryStore A)
      → lookup key s.keys ≡ some id
      → lookup key (step c s).keys ≡ some id
  unfolding step create_payment transition apply_amount append_ledger commit_payment_command enqueue
      mark_published register_webhook create_payout transition_payout create_dispute resolve_dispute
  step-keys (creates_payment p other) key id s h = elim (Option-cases (lookup other s.keys)) [
    | inl new ↦ ground (arith, new, lookup-insert other key p.id s.keys, eq_iff other key)
    | inr (existing, old) ↦ ground (arith, old)
  ]
  step-keys (transitions i to reference) key id s h = ground arith
  step-keys (applies_amount i action amount) key id s h = ground arith
  step-keys (appends_ledger entries) key id s h = ground arith
  step-keys (enqueues event) key id s h = ground arith
  step-keys (marks_published i) key id s h = ground arith
  step-keys (registers_webhook i) key id s h = ground arith
  step-keys (commits command) key id s h = ground arith
  step-keys (creates_payout p entries event) key id s h = ground arith
  step-keys (transitions_payout i status reference entries event) key id s h = ground arith
  step-keys (creates_dispute p entries event) key id s h = ground arith
  step-keys (resolves_dispute i status entries event) key id s h = ground arith

  run-keys :
      (cs : List (StoreCall A)) (key id : String) (s : MemoryStore A)
      → lookup key s.keys ≡ some id
      → lookup key (run cs s).keys ≡ some id
  unfolding run
  run-keys [] key id s h = h
  run-keys (c ∷ cs) key id s h = run-keys cs key id (step c s) (step-keys c key id s h)

  -- No call removes a payment.
  step-payments :
      (c : StoreCall A) (id : String) (s : MemoryStore A)
      → contains id s.payments ≡ true
      → contains id (step c s).payments ≡ true
  unfolding step create_payment transition apply_amount append_ledger commit_payment_command enqueue
      mark_published register_webhook create_payout transition_payout create_dispute resolve_dispute
  step-payments (creates_payment p key) id s h = grind (arith, contains-insert)
  step-payments (transitions i to reference) id s h = grind (arith, contains-insert)
  step-payments (applies_amount i action amount) id s h = grind (arith, contains-insert)
  step-payments (appends_ledger entries) id s h = ground arith
  step-payments (enqueues event) id s h = ground arith
  step-payments (marks_published i) id s h = ground arith
  step-payments (registers_webhook i) id s h = ground arith
  step-payments (commits command) id s h = grind (arith, contains-insert)
  step-payments (creates_payout p entries event) id s h = ground arith
  step-payments (transitions_payout i status reference entries event) id s h = ground arith
  step-payments (creates_dispute p entries event) id s h = ground arith
  step-payments (resolves_dispute i status entries event) id s h = ground arith

  run-payments :
      (cs : List (StoreCall A)) (id : String) (s : MemoryStore A)
      → contains id s.payments ≡ true
      → contains id (run cs s).payments ≡ true
  unfolding run
  run-payments [] id s h = h
  run-payments (c ∷ cs) id s h = run-payments cs id (step c s) (step-payments c id s h)

  found_of_contains :
      (id : String) (s : MemoryStore A)
      → contains id s.payments ≡ true
      → (p : Payment A) × (lookup id s.payments ≡ some p)
  found_of_contains id s h = elim (Option-cases (lookup id s.payments)) [
    | inl missing ↦ ground (arith, missing)
    | inr found ↦ found
  ]

  module _ ⦃u : Unicode⦄ (visits : Visits A) (provider : Provider A)
      (risk : Option (RiskEngine A)) where
    -- A first call with a key stores a new payment under it.
    create_new :
        (id : String) (input : CreatePayment A) (key : String) (s : MemoryStore A) {p : Payment A}
        → key ≢ ""
        → new_payment id input ≡ ok p
        → lookup key s.keys ≡ none
        → create (in_memory visits provider risk none) id input key s ≡ (
          ok (p, false),
          record s { payments = insert p.id p s.payments; keys = insert key p.id s.keys },
        )
    unfolding create create_payment
    create_new id input key s ne made new = ground (arith, eq_iff key "")

    -- A later call with a known key returns the stored payment and writes nothing.
    create_known :
        (id : String) (input : CreatePayment A) (key existing : String) (s : MemoryStore A)
        {p q : Payment A}
        → key ≢ ""
        → new_payment id input ≡ ok p
        → lookup key s.keys ≡ some existing
        → lookup existing s.payments ≡ some q
        → create (in_memory visits provider risk none) id input key s ≡ (ok (q, true), s)
    unfolding create create_payment
    create_known id input key existing s ne made old found = ground (arith, eq_iff key "")

    -- Take a call of `Create` with a key that is not empty and not yet known, and an input that
    -- is valid. After it and any further list of store calls, the payment that it created is
    -- stored, and a second call with the key and any valid input returns that payment as it is
    -- stored by then, marked as a replay, and changes nothing. (The service has no metrics
    -- sink.)
    pub create_replays :
        (id id' : String) (input input' : CreatePayment A) (key : String) (s : MemoryStore A)
        (cs : List (StoreCall A)) {p p' : Payment A}
        → key ≢ ""
        → new_payment id input ≡ ok p
        → new_payment id' input' ≡ ok p'
        → lookup key s.keys ≡ none
        → let now = run cs (create (in_memory visits provider risk none) id input key s).1 in
          (q : Payment A) × (lookup p.id now.payments ≡ some q)
          × (create (in_memory visits provider risk none) id' input' key now ≡ (ok (q, true), now))
    create_replays id id' input input' key s cs {p} ne made made' new =
        let first = create_new id input key s ne made new in
        let now = run cs (create (in_memory visits provider risk none) id input key s).1 in
        let bound : lookup key now.keys ≡ some p.id =
          run-keys cs key p.id _ (rw first (lookup-insert_self key p.id s.keys)) in
        let (q, found) = found_of_contains p.id now (
          run-payments cs p.id _
            (rw first (ground (arith, lookup-insert_self p.id p s.payments)))) in
        (q, found, create_known id' input' key p.id now ne made' bound found)
