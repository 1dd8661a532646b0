-- ===== src/Service/Payouts/Once.antt =====
-- internal/service/payout.go: a payout is completed once.
use payment_ledger_platform.Base.{
  ◌≡◌, ◌≢◌, inl, inr, Bool, false, String, eq_iff, some, List, [], ◌∷◌, All, Option-cases, arith,
}
use payment_ledger_platform.Base.Dict.{lookup, lookup-insert, lookup-insert_self}
use payment_ledger_platform.Error.{payout_resolved, ok, err, Done}
use payment_ledger_platform.Amount.{Decimal}
use payment_ledger_platform.Domain.Payout.{paid, failed, Payout}
use payment_ledger_platform.Store.State.{MemoryStore}
use payment_ledger_platform.Store.Memory.Payments.{
  create_payment, transition, apply_amount, append_ledger, commit_payment_command,
}
use payment_ledger_platform.Store.Memory.Outbox.{enqueue, mark_published, register_webhook}
use payment_ledger_platform.Store.Memory.Payouts.{
  create_payout, get_payout, transition_payout, is_pending,
}
use payment_ledger_platform.Store.Memory.Disputes.{create_dispute, resolve_dispute}
use payment_ledger_platform.Store.Steps.{
  StoreCall, creates_payment, transitions, applies_amount, appends_ledger, enqueues,
  marks_published, registers_webhook, commits, creates_payout, transitions_payout, creates_dispute,
  resolves_dispute, step, run,
}
use payment_ledger_platform.Store.Interface.{Visits, memory}
use payment_ledger_platform.Service.Journal.{EntryIds}
use payment_ledger_platform.Service.Payouts.{complete}

module _ {A : Type 0} ⦃d : Decimal A⦄ where
  -- The call does not file a new payout under the identifier: UUIDs are not used twice.
  abbrev pub Spares : String → StoreCall A → Type 0
  Spares id (creates_payout p entries event) = p.id ≢ id
  Spares id _ = Done

  -- A resolved payout stays as it is.
  step-resolved :
      (c : StoreCall A) (id : String) (p : Payout A) (s : MemoryStore A)
      → Spares id c
      → is_pending p.status ≡ false
      → lookup id s.payouts ≡ some p
      → lookup id (step c s).payouts ≡ some p
  unfolding step create_payment transition apply_amount append_ledger commit_payment_command enqueue
      mark_published register_webhook create_payout transition_payout create_dispute resolve_dispute
  step-resolved (creates_payment q key) id p s spared done h = ground arith
  step-resolved (transitions i to reference) id p s spared done h = ground arith
  step-resolved (applies_amount i action amount) id p s spared done h = ground arith
  step-resolved (appends_ledger entries) id p s spared done h = ground arith
  step-resolved (enqueues event) id p s spared done h = ground arith
  step-resolved (marks_published i) id p s spared done h = ground arith
  step-resolved (registers_webhook i) id p s spared done h = ground arith
  step-resolved (commits command) id p s spared done h = ground arith
  step-resolved (creates_payout q entries event) id p s spared done h =
      ground (arith, lookup-insert q.id id q s.payouts, eq_iff q.id id)
  step-resolved (transitions_payout i status reference entries event) id p s spared done h =
      elim (Option-cases (lookup i s.payouts)) [
        | inl missing ↦ ground (arith, missing)
        | inr (q, found) ↦ ground (
          arith,
          found,
          eq_iff i id,
          lookup-insert i id (record q { status = status; provider_reference = reference })
              s.payouts,
        )
      ]
  step-resolved (creates_dispute q entries event) id p s spared done h = ground arith
  step-resolved (resolves_dispute i status entries event) id p s spared done h = ground arith

  run-resolved :
      (cs : List (StoreCall A)) (id : String) (p : Payout A) (s : MemoryStore A)
      → All (Spares id) cs
      → is_pending p.status ≡ false
      → lookup id s.payouts ≡ some p
      → lookup id (run cs s).payouts ≡ some p
  unfolding run
  run-resolved [] id p s spared done h = h
  run-resolved (c ∷ cs) id p s spared done h =
      run-resolved cs id p (step c s) spared.1 done (step-resolved c id p s spared.0 done h)

  refused :
      (visits : Visits A) (ids : EntryIds) (id reference : String) (success : Bool) (p : Payout A)
      (s : MemoryStore A)
      → lookup id s.payouts ≡ some p
      → is_pending p.status ≡ false
      → complete (memory visits) ids id reference success s ≡ (err payout_resolved, s)
  unfolding complete get_payout transition_payout
  refused visits ids id reference success p s found done = ground arith

  completed :
      (visits : Visits A) (ids : EntryIds) (id reference : String) (success : Bool)
      (s : MemoryStore A) {p : Payout A}
      → (complete (memory visits) ids id reference success s).0 ≡ ok p
      → (lookup id (complete (memory visits) ids id reference success s).1.payouts ≡ some p)
        × (is_pending p.status ≡ false)
  unfolding complete get_payout transition_payout
  completed visits ids id reference success s h = elim (Option-cases (lookup id s.payouts)) [
    | inl missing ↦ ground (arith, missing)
    | inr (q, found) ↦ ground (
      arith,
      found,
      lookup-insert_self id (record q { status = paid; provider_reference = reference }) s.payouts,
      lookup-insert_self id (record q { status = failed; provider_reference = reference })
          s.payouts,
    )
  ]

  -- After a completion of a payout that returned no error, and any further list of store calls
  -- that files no new payout under its id, a second completion, as a success or as a failure,
  -- is refused because the payout is already resolved, and changes nothing.
  pub complete_once :
      (visits : Visits A) (ids ids' : EntryIds) (id reference reference' : String)
      (success success' : Bool) (s : MemoryStore A) (cs : List (StoreCall A)) {p : Payout A}
      → (complete (memory visits) ids id reference success s).0 ≡ ok p
      → All (Spares id) cs
      → let now = run cs (complete (memory visits) ids id reference success s).1 in
        complete (memory visits) ids' id reference' success' now ≡ (err payout_resolved, now)
  complete_once visits ids ids' id reference reference' success success' s cs {p} h spared =
      let (stored, done) = completed visits ids id reference success s h in
      refused visits ids' id reference' success' p _ (run-resolved cs id p _ spared done stored)
        done
