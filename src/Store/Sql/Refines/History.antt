-- ===== src/Store/Sql/Refines/History.antt =====
-- internal/store/postgres.go against internal/store/store.go: histories of calls on the two stores.
use payment_ledger_platform.Base.{
  ◌≡◌, refl, subst, ℕ, sym, ◌∙◌, ap, inl, inr, List, [], ◌∷◌, if◌then◌else◌, All, arith,
}
use payment_ledger_platform.Error.{ok, Exec, Result-cases}
use payment_ledger_platform.Amount.{Decimal, Meaning}
use payment_ledger_platform.Domain.Payment.{Payment}
use payment_ledger_platform.Domain.Payment.Limits.{IsSound}
use payment_ledger_platform.Store.State.{new_memory}
use payment_ledger_platform.Store.Steps.{
  StoreCall, creates_payment, transitions, applies_amount, appends_ledger, enqueues,
  marks_published, registers_webhook, commits, creates_payout, transitions_payout, creates_dispute,
  resolves_dispute, step, run,
}
use payment_ledger_platform.Store.WellFormed.{IsWellFormed}
use payment_ledger_platform.Store.History.{IsProper, run-IsWellFormed}
use payment_ledger_platform.Store.Answers.{
  Answer, a_creation, a_payment, a_payout, a_dispute, a_flag, nothing, answering, ask, ask_all,
}
use payment_ledger_platform.Store.Sql.Tables.{new_tables, Postgres, Database}
use payment_ledger_platform.Store.Sql.Payments
use payment_ledger_platform.Store.Sql.Outbox
use payment_ledger_platform.Store.Sql.Payouts
use payment_ledger_platform.Store.Sql.Disputes
use payment_ledger_platform.Store.Sql.Instance.{postgres}
use payment_ledger_platform.Store.Sql.Atomic.{ask_atomic}
use payment_ledger_platform.Store.Sql.Abstract.{
  in_memory, Columns, stored_call, stored_payment, IsRegular,
}
use payment_ledger_platform.Store.Sql.Refines.Values.{succeeds}
use payment_ledger_platform.Store.Sql.Refines.Payments.{
  create_payment-in_memory, transition-in_memory, apply_amount-in_memory,
}
use payment_ledger_platform.Store.Sql.Refines.Entries.{append_ledger-in_memory}
use payment_ledger_platform.Store.Sql.Refines.Commits.{commit-in_memory}
use payment_ledger_platform.Store.Sql.Refines.Outbox.{
  enqueue-in_memory, mark_published-in_memory, register_webhook-in_memory,
}
use payment_ledger_platform.Store.Sql.Refines.Payouts.{
  create_payout-in_memory, transition_payout-in_memory,
}
use payment_ledger_platform.Store.Sql.Refines.Disputes.{
  create_dispute-in_memory, resolve_dispute-in_memory,
}

module _ {S X Y : Type 0} where
  -- An answer is the result of the call that is answered.
  answering-ok :
      (f : X → Y) (call : Exec S X) (s : S) (y : Y)
      → (answering f call s).0 ≡ ok y
      → (x : X) × ((call s).0 ≡ ok x) × ((answering f call s).1 ≡ (call s).1)
  answering-ok f call s y h = elim (Result-cases (call s).0) [
    | inl (x, e) ↦ (x, e, ground (arith, e))
    | inr (e, failed) ↦ ground (arith, failed)
  ]

new_tables-in_memory : {A : Type 0} → in_memory {A = A} new_tables ≡ new_memory
unfolding in_memory
new_tables-in_memory = refl

module _ {A : Type 0} ⦃d : Decimal A⦄ (server : Postgres A) where
  -- The calls of a history that succeed, with their values as the columns store them.
  unfoldable pub accepted : List (StoreCall A) → Database A → List (StoreCall A)
  unfolding ask stored_call
  accepted [] db = []
  accepted (c ∷ cs) db =
      let rest = accepted cs (ask (postgres server) c db).1 in
      if succeeds (ask (postgres server) c db).0 then stored_call server c ∷ rest else rest

module _ {A V : Type 0} ⦃d : Decimal A⦄ (m : Meaning d V) (server : Postgres A)
    (laws : Columns server) where
  -- A call that succeeds is a step of the store in memory.
  pub ask-step :
      (c : StoreCall A) (db : Database A) (r : Answer A)
      → IsRegular c
      → (ask (postgres server) c db).0 ≡ ok r
      → in_memory (ask (postgres server) c db).1.tables
        ≡ step (stored_call server c) (in_memory db.tables)
  unfolding ask step stored_call
  ask-step (creates_payment p key) db r regular h =
      let (x, e, same) = answering-ok a_creation (Payments.create_payment server p key) db r h in
      ap (λ after. in_memory after.tables) same
      ∙ create_payment-in_memory server laws p key db x regular.0 regular.1 regular.2 e
  ask-step (transitions id to reference) db r regular h =
      let (x, e, same) =
        answering-ok a_payment (Payments.transition server id to reference) db r h in
      ap (λ after. in_memory after.tables) same
      ∙ transition-in_memory server laws id to reference db x e
  ask-step (applies_amount id action amount) db r regular h =
      let (x, e, same) =
        answering-ok a_payment (Payments.apply_amount server id action amount) db r h in
      ap (λ after. in_memory after.tables) same
      ∙ apply_amount-in_memory server laws id action amount db x e
  ask-step (appends_ledger entries) db r regular h =
      let (x, e, same) = answering-ok nothing (Payments.append_ledger server entries) db r h in
      ap (λ after. in_memory after.tables) same ∙ append_ledger-in_memory server laws entries db x e
  ask-step (enqueues event) db r regular h =
      let (x, e, same) = answering-ok nothing (Outbox.enqueue server event) db r h in
      ap (λ after. in_memory after.tables) same ∙ enqueue-in_memory server event db x laws regular e
  ask-step (marks_published id) db r regular h =
      let (x, e, same) = answering-ok nothing (Outbox.mark_published server id) db r h in
      ap (λ after. in_memory after.tables) same ∙ mark_published-in_memory server id db x e
  ask-step (registers_webhook id) db r regular h =
      let (x, e, same) = answering-ok a_flag (Outbox.register_webhook server id) db r h in
      ap (λ after. in_memory after.tables) same ∙ register_webhook-in_memory server id db x e
  ask-step (commits command) db r regular h =
      let (x, e, same) =
        answering-ok a_payment (Payments.commit_payment_command server command) db r h in
      ap (λ after. in_memory after.tables) same
      ∙ commit-in_memory server laws command db x regular e
  ask-step (creates_payout p entries event) db r regular h =
      let (x, e, same) =
        answering-ok a_payout (Payouts.create_payout server p entries event) db r h in
      ap (λ after. in_memory after.tables) same
      ∙ create_payout-in_memory m server laws p entries event db x regular.2 regular.0 regular.1 e
  ask-step (transitions_payout id status reference entries event) db r regular h =
      let (x, e, same) =
        answering-ok a_payout (Payouts.transition_payout server id status reference entries event)
          db r h in
      ap (λ after. in_memory after.tables) same
      ∙ transition_payout-in_memory m server laws id status reference entries event db x regular.0
          regular.1 e
  ask-step (creates_dispute dispute entries event) db r regular h =
      let (x, e, same) =
        answering-ok a_dispute (Disputes.create_dispute server dispute entries event) db r h in
      ap (λ after. in_memory after.tables) same
      ∙ create_dispute-in_memory server laws dispute entries event db x regular e
  ask-step (resolves_dispute id status entries event) db r regular h =
      let (x, e, same) =
        answering-ok a_dispute (Disputes.resolve_dispute server id status entries event) db r h in
      ap (λ after. in_memory after.tables) same
      ∙ resolve_dispute-in_memory server laws id status entries event db x regular e

  -- Take any history of calls on the SQL store, with statements and commits that fail at any
  -- points. In each call a new payment has no captured and refunded amount and no reference, a
  -- new payout has no reference, the entries of a payout name no payment, and an event that is
  -- filed is unpublished and names the object that it is filed with. Then the tables after the
  -- history stand for the store in memory that the calls that succeeded, with their values as
  -- the columns store them, lead to from what the tables stood for at first. (The columns
  -- behave as documented, and amounts are stored exactly or refused.)
  pub ask_all-run :
      (cs : List (StoreCall A)) (db : Database A)
      → All IsRegular cs
      → in_memory (ask_all (postgres server) cs db).1.tables
        ≡ run (accepted server cs db) (in_memory db.tables)
  unfolding ask_all run accepted
  ask_all-run [] db regular = refl
  ask_all-run (c ∷ cs) db regular =
      let db' = (ask (postgres server) c db).1 in
      elim (Result-cases (ask (postgres server) c db).0) [
        | inl (r, e) ↦ ground (arith, e, ask-step c db r regular.0 e, ask_all-run cs db' regular.1)
        | inr (e, failed) ↦
            ground (arith, failed, ask_all-run cs db' regular.1, ask_atomic server c db e failed)
      ]

  stored_payment-IsSound : (p : Payment A) → IsSound m p → IsSound m (stored_payment server p)
  stored_payment-IsSound p h = record {
    positive = h.positive;
    refunded_nonneg = h.refunded_nonneg;
    refunded_le = h.refunded_le;
    captured_le = h.captured_le;
    unfunded = h.unfunded;
    unrefunded = h.unrefunded;
    known = h.known;
  }

  stored_call-IsProper : (c : StoreCall A) → IsProper m c → IsProper m (stored_call server c)
  unfolding stored_call
  stored_call-IsProper (creates_payment p key) h = stored_payment-IsSound p h
  stored_call-IsProper (transitions id to reference) h = tt
  stored_call-IsProper (applies_amount id action amount) h = tt
  stored_call-IsProper (appends_ledger entries) h = tt
  stored_call-IsProper (enqueues event) h = tt
  stored_call-IsProper (marks_published id) h = tt
  stored_call-IsProper (registers_webhook id) h = tt
  stored_call-IsProper (commits command) h = tt
  stored_call-IsProper (creates_payout p entries event) h = (refl, h.1, h.2)
  stored_call-IsProper (transitions_payout id status reference entries event) h = tt
  stored_call-IsProper (creates_dispute dispute entries event) h = (refl, h.1, h.2)
  stored_call-IsProper (resolves_dispute id status entries event) h = tt

  accepted-IsProper :
      (cs : List (StoreCall A)) (db : Database A)
      → All (IsProper m) cs
      → All (IsProper m) (accepted server cs db)
  unfolding accepted
  accepted-IsProper [] db proper = tt
  accepted-IsProper (c ∷ cs) db proper =
      let rest = accepted-IsProper cs (ask (postgres server) c db).1 proper.1 in
      elim (Result-cases (ask (postgres server) c db).0) [
        | inl (r, e) ↦ rw e (stored_call-IsProper c proper.0, rest)
        | inr (e, failed) ↦ rw failed rest
      ]

  -- After any history of calls on empty tables, with statements and commits that fail at any
  -- points, where the calls are as the services make them (a new payment has no captured and
  -- refunded amount and no reference, a new payout no reference, the entries of a payout name
  -- no payment, an event is unpublished and names the object that it is filed with, and each
  -- payment, payout and dispute that is filed is sound or has a positive amount and a known
  -- status), the tables stand for a well-formed store: payments are sound and stand under their
  -- ids, idempotency keys name payments, events stand under their ids, the ledger is balanced,
  -- and payouts and disputes are valid. (The columns behave as documented, and amounts are
  -- stored exactly or refused.)
  pub ask_all-IsWellFormed :
      (cs : List (StoreCall A)) (sent : ℕ)
      → All IsRegular cs
      → All (IsProper m) cs
      → IsWellFormed m (
          in_memory
            (ask_all (postgres server) cs (record { tables = new_tables; sent = sent })).1.tables)
  ask_all-IsWellFormed cs sent regular proper =
      let db : Database A = record { tables = new_tables; sent = sent } in
      subst (IsWellFormed m)
        (sym (ask_all-run cs db regular ∙ ap (run (accepted server cs db)) new_tables-in_memory))
        (run-IsWellFormed m (accepted server cs db) (accepted-IsProper cs db proper))
