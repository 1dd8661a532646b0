-- ===== src/Store/Answers.antt =====
-- internal/store/store.go: the calls of the interface `Store` that can change a store, with their
-- answers, over whatever implements it.
use payment_ledger_platform.Base.{Bool, List, [], ◌∷◌}
use payment_ledger_platform.Error.{Result, ok, err, Done, Exec}
use payment_ledger_platform.Domain.Payment.{Payment}
use payment_ledger_platform.Domain.Payout.{Payout}
use payment_ledger_platform.Domain.Dispute.{Dispute}
use payment_ledger_platform.Store.Steps.{
  StoreCall, creates_payment, transitions, applies_amount, appends_ledger, enqueues,
  marks_published, registers_webhook, commits, creates_payout, transitions_payout, creates_dispute,
  resolves_dispute,
}
use payment_ledger_platform.Store.Interface.{Store}

pub data Answer (A : Type 0) : Type 0 where
  a_creation : Payment A × Bool → Answer A
  a_payment : Payment A → Answer A
  a_payout : Payout A → Answer A
  a_dispute : Dispute A → Answer A
  a_flag : Bool → Answer A
  nothing : Done → Answer A

abbrev pub answering : {S X Y : Type 0} → (X → Y) → Exec S X → Exec S Y
answering f call s = let (r, s') = call s in elim r [ ok x ↦ (ok (f x), s') | err e ↦ (err e, s') ]

module _ {S A : Type 0} where
  unfoldable pub ask : Store S A → StoreCall A → Exec S (Answer A)
  ask store (creates_payment p key) = answering a_creation (store.create_payment p key)
  ask store (transitions id to reference) = answering a_payment (store.transition id to reference)
  ask store (applies_amount id action amount) =
      answering a_payment (store.apply_amount id action amount)
  ask store (appends_ledger entries) = answering nothing (store.append_ledger entries)
  ask store (enqueues event) = answering nothing (store.enqueue event)
  ask store (marks_published id) = answering nothing (store.mark_published id)
  ask store (registers_webhook id) = answering a_flag (store.register_webhook id)
  ask store (commits command) = answering a_payment (store.commit_payment_command command)
  ask store (creates_payout p entries event) =
      answering a_payout (store.create_payout p entries event)
  ask store (transitions_payout id status reference entries event) =
      answering a_payout (store.transition_payout id status reference entries event)
  ask store (creates_dispute dispute entries event) =
      answering a_dispute (store.create_dispute dispute entries event)
  ask store (resolves_dispute id status entries event) =
      answering a_dispute (store.resolve_dispute id status entries event)

  -- A history of calls, with all the answers.
  unfoldable pub ask_all : Store S A → List (StoreCall A) → S → List (Result (Answer A)) × S
  ask_all store [] s = ([], s)
  ask_all store (c ∷ cs) s =
      let (r, s') = ask store c s in let (rs, s'') = ask_all store cs s' in (r ∷ rs, s'')
