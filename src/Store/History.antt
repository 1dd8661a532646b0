-- ===== src/Store/History.antt =====
-- What holds of the store in memory (internal/store/store.go) after any history of calls.
use payment_ledger_platform.Base.{List, [], ◌∷◌, All}
use payment_ledger_platform.Error.{Done}
use payment_ledger_platform.Amount.{Decimal, Meaning}
use payment_ledger_platform.Domain.Payment.Limits.{IsSound}
use payment_ledger_platform.Store.State.{MemoryStore, new_memory}
use payment_ledger_platform.Store.Steps.{
  StoreCall, creates_payment, transitions, applies_amount, appends_ledger, enqueues,
  marks_published, registers_webhook, commits, creates_payout, transitions_payout, creates_dispute,
  resolves_dispute, step, run,
}
use payment_ledger_platform.Store.WellFormed.{
  PayoutEntry, DisputeEntry, IsWellFormed, new_memory-IsWellFormed,
}
use payment_ledger_platform.Store.WellFormed.Payments.{
  create_payment-IsWellFormed, transition-IsWellFormed, apply_amount-IsWellFormed,
  append_ledger-IsWellFormed,
}
use payment_ledger_platform.Store.WellFormed.Commits.{commit-IsWellFormed}
use payment_ledger_platform.Store.WellFormed.Payouts.{
  enqueue-IsWellFormed, mark_published-IsWellFormed, register_webhook-IsWellFormed,
  create_payout-IsWellFormed, transition_payout-IsWellFormed,
}
use payment_ledger_platform.Store.WellFormed.Disputes.{
  create_dispute-IsWellFormed, resolve_dispute-IsWellFormed,
}

module _ {A V : Type 0} ⦃d : Decimal A⦄ (m : Meaning d V) where
  -- What the callers promise: a new payment, payout or dispute is one that the constructors of
  -- the domain return. Everything else may be called with anything.
  abbrev pub IsProper : StoreCall A → Type 0
  IsProper (creates_payment p key) = IsSound m p
  IsProper (creates_payout p entries event) = PayoutEntry m (p.id, p)
  IsProper (creates_dispute p entries event) = DisputeEntry m (p.id, p)
  IsProper _ = Done

  -- Every call, whatever it returns, keeps the store well-formed.
  pub step-IsWellFormed :
      (c : StoreCall A) (s : MemoryStore A)
      → IsProper c
      → IsWellFormed m s
      → IsWellFormed m (step c s)
  unfolding step
  step-IsWellFormed (creates_payment p key) s proper h =
      create_payment-IsWellFormed m p key s proper h
  step-IsWellFormed (transitions id to reference) s proper h =
      transition-IsWellFormed m id to reference s h
  step-IsWellFormed (applies_amount id action amount) s proper h =
      apply_amount-IsWellFormed m id action amount s h
  step-IsWellFormed (appends_ledger entries) s proper h = append_ledger-IsWellFormed m entries s h
  step-IsWellFormed (enqueues event) s proper h = enqueue-IsWellFormed m event s h
  step-IsWellFormed (marks_published id) s proper h = mark_published-IsWellFormed m id s h
  step-IsWellFormed (registers_webhook id) s proper h = register_webhook-IsWellFormed m id s h
  step-IsWellFormed (commits command) s proper h = commit-IsWellFormed m command s h
  step-IsWellFormed (creates_payout p entries event) s proper h =
      create_payout-IsWellFormed m p entries event s proper h
  step-IsWellFormed (transitions_payout id status reference entries event) s proper h =
      transition_payout-IsWellFormed m id status reference entries event s h
  step-IsWellFormed (creates_dispute p entries event) s proper h =
      create_dispute-IsWellFormed m p entries event s proper h
  step-IsWellFormed (resolves_dispute id status entries event) s proper h =
      resolve_dispute-IsWellFormed m id status entries event s h

  run_keeps :
      (cs : List (StoreCall A)) (s : MemoryStore A)
      → All IsProper cs
      → IsWellFormed m s
      → IsWellFormed m (run cs s)
  unfolding run
  run_keeps [] s proper h = h
  run_keeps (c ∷ cs) s proper h =
      run_keeps cs (step c s) proper.1 (step-IsWellFormed c s proper.0 h)

  -- After any list of store calls on a new store in memory, where each payment, payout and
  -- dispute that is filed is one that the domain's constructors return (sound; a positive
  -- amount and a known status), and all other calls have any arguments and any outcome: every
  -- stored payment stands under its id with 0 ≤ refunded ≤ captured ≤ amount, 0 < amount and
  -- amounts that agree with its status; every idempotency key names a stored payment; every
  -- event stands under its id; every ledger entry is one-sided and the ledger's debits and
  -- credits have the same sum; and every payout and dispute stands under its id with a positive
  -- amount and a known status.
  pub run-IsWellFormed :
      (cs : List (StoreCall A)) → All IsProper cs → IsWellFormed m (run cs new_memory)
  run-IsWellFormed cs proper = run_keeps cs new_memory proper (new_memory-IsWellFormed m)
