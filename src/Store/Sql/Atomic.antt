-- ===== src/Store/Sql/Atomic.antt =====
-- internal/store/postgres.go: a call that fails leaves the tables as they were, whatever failed.
use payment_ledger_platform.Base.{◌≡◌, refl, ℕ, inl, inr, not, String, List, arith}
use payment_ledger_platform.Error.{
  Error, invalid_transition, Result, ok, err, refuse_if, Exec, lift, ◌>>=◌, Result-cases,
}
use payment_ledger_platform.Amount.{Decimal}
use payment_ledger_platform.Store.Steps.{
  StoreCall, creates_payment, transitions, applies_amount, appends_ledger, enqueues,
  marks_published, registers_webhook, commits, creates_payout, transitions_payout, creates_dispute,
  resolves_dispute,
}
use payment_ledger_platform.Domain.Payment.{PaymentStatus, Payment, can_transition}
use payment_ledger_platform.Domain.Ledger.{LedgerEntry, validate_balanced}
use payment_ledger_platform.Domain.Outbox.{OutboxEvent, PaymentCommand}
use payment_ledger_platform.Domain.Payout.{PayoutStatus, Payout}
use payment_ledger_platform.Domain.Dispute.{DisputeStatus, Dispute}
use payment_ledger_platform.Store.Sql.Updates.{update_payment}
use payment_ledger_platform.Store.Answers.{
  a_creation, a_payment, a_payout, a_dispute, a_flag, nothing, answering, ask,
}
use payment_ledger_platform.Store.Sql.Rows.{select_row}
use payment_ledger_platform.Store.Sql.Tables.{
  Tables, Postgres, Database, Ending, alone, statement, transaction,
}
use payment_ledger_platform.Store.Sql.Payments.{
  create_payment, apply_amount, append_ledger, commit_payment_command, get_payment, update_status,
  transition,
}
use payment_ledger_platform.Store.Sql.Outbox.{enqueue, mark_published, register_webhook}
use payment_ledger_platform.Store.Sql.Payouts.{create_payout, transition_payout}
use payment_ledger_platform.Store.Sql.Disputes.{create_dispute, resolve_dispute}
use payment_ledger_platform.Store.Sql.Instance.{postgres}

-- An error of the call means that the tables are as they were.
pub record IsAtomic {A X : Type 0} (call : Exec (Database A) X) : Type 0 where
  pub kept : (db : Database A) (e : Error) → (call db).0 ≡ err e → (call db).1.tables ≡ db.tables

module _ {A X : Type 0} (server : Postgres A) where
  statement-IsAtomic : (run : Tables A → Result (X × Tables A)) → IsAtomic (statement server run)
  unfolding statement
  statement-IsAtomic run = record { kept = λ db e h. ground arith }

  alone-IsAtomic : (run : ℕ → Tables A → Result (X × Tables A)) → IsAtomic (alone server run)
  unfolding alone
  alone-IsAtomic run = record {
    kept = λ db. (statement-IsAtomic (run (server.clock db.sent))).kept db;
  }

  transaction-IsAtomic :
      (body : ℕ → Exec (Database A) (Ending X)) → IsAtomic (transaction server body)
  unfolding transaction
  transaction-IsAtomic body = record { kept = λ db e h. ground arith }

module _ {A X Y : Type 0} where
  answering-IsAtomic :
      (f : X → Y) (call : Exec (Database A) X) → IsAtomic call → IsAtomic (answering f call)
  answering-IsAtomic f call atomic = record { kept = λ db e h. ground (arith, atomic.kept db e) }

  -- A check of the arguments before the call.
  after_check-IsAtomic :
      (r : Result X) (call : X → Exec (Database A) Y)
      → ((x : X) → IsAtomic (call x))
      → IsAtomic (lift r >>= call)
  after_check-IsAtomic (ok x) call atomic = record { kept = (atomic x).kept }
  after_check-IsAtomic (err x) call atomic = record { kept = λ db e h. refl }

  -- A call that only reads, before the call.
  after_read-IsAtomic :
      (first : Exec (Database A) X) (call : X → Exec (Database A) Y)
      → ((db : Database A) → (first db).1.tables ≡ db.tables)
      → ((x : X) → IsAtomic (call x))
      → IsAtomic (first >>= call)
  after_read-IsAtomic first call reads atomic = record {
    kept = λ db e h. elim (Result-cases (first db).0) [
      | inr (_, failed) ↦ ground (arith, failed, reads db)
      | inl (x, done) ↦ ground (arith, done, reads db, (atomic x).kept (first db).1 e)
    ];
  }

module _ {A : Type 0} ⦃d : Decimal A⦄ (server : Postgres A) where
  get_payment-reads :
      (id : String) (db : Database A) → (get_payment server id db).1.tables ≡ db.tables
  unfolding get_payment statement select_row
  get_payment-reads id db = ground arith

  update_status-IsAtomic :
      (id : String) (to : PaymentStatus) (reference : String)
      → IsAtomic (update_status server id to reference)
  unfolding update_status statement update_payment
  update_status-IsAtomic id to reference = record { kept = λ db e h. ground arith }

  transition-IsAtomic :
      (id : String) (to : PaymentStatus) (reference : String)
      → IsAtomic (transition server id to reference)
  unfolding transition
  transition-IsAtomic id to reference =
      after_read-IsAtomic (get_payment server id) _ (get_payment-reads id) λ p.
        after_check-IsAtomic (refuse_if (not (can_transition p to)) invalid_transition) _
          λ _. update_status-IsAtomic id to reference

  create_payment-IsAtomic : (p : Payment A) (key : String) → IsAtomic (create_payment server p key)
  unfolding create_payment
  create_payment-IsAtomic p key = transaction-IsAtomic server _

  apply_amount-IsAtomic :
      (id : String) (action : PaymentStatus) (amount : A)
      → IsAtomic (apply_amount server id action amount)
  unfolding apply_amount
  apply_amount-IsAtomic id action amount = transaction-IsAtomic server _

  commit_payment_command-IsAtomic :
      (command : PaymentCommand A) → IsAtomic (commit_payment_command server command)
  unfolding commit_payment_command
  commit_payment_command-IsAtomic command = transaction-IsAtomic server _

  create_payout-IsAtomic :
      (p : Payout A) (entries : List (LedgerEntry A)) (event : OutboxEvent)
      → IsAtomic (create_payout server p entries event)
  unfolding create_payout
  create_payout-IsAtomic p entries event = transaction-IsAtomic server _

  transition_payout-IsAtomic :
      (id : String) (status : PayoutStatus) (reference : String) (entries : List (LedgerEntry A))
      (event : OutboxEvent)
      → IsAtomic (transition_payout server id status reference entries event)
  unfolding transition_payout
  transition_payout-IsAtomic id status reference entries event = transaction-IsAtomic server _

  create_dispute-IsAtomic :
      (dispute : Dispute A) (entries : List (LedgerEntry A)) (event : OutboxEvent)
      → IsAtomic (create_dispute server dispute entries event)
  unfolding create_dispute
  create_dispute-IsAtomic dispute entries event = transaction-IsAtomic server _

  resolve_dispute-IsAtomic :
      (id : String) (status : DisputeStatus) (entries : List (LedgerEntry A)) (event : OutboxEvent)
      → IsAtomic (resolve_dispute server id status entries event)
  unfolding resolve_dispute
  resolve_dispute-IsAtomic id status entries event = transaction-IsAtomic server _

  enqueue-IsAtomic : (event : OutboxEvent) → IsAtomic (enqueue server event)
  unfolding enqueue
  enqueue-IsAtomic event = alone-IsAtomic server _

  mark_published-IsAtomic : (id : String) → IsAtomic (mark_published server id)
  unfolding mark_published
  mark_published-IsAtomic id = alone-IsAtomic server _

  register_webhook-IsAtomic : (id : String) → IsAtomic (register_webhook server id)
  unfolding register_webhook
  register_webhook-IsAtomic id = alone-IsAtomic server _

  append_ledger-IsAtomic :
      (entries : List (LedgerEntry A)) → IsAtomic (append_ledger server entries)
  unfolding append_ledger
  append_ledger-IsAtomic entries =
      after_check-IsAtomic (validate_balanced entries) _ λ _. transaction-IsAtomic server _

  pub ask-IsAtomic : (c : StoreCall A) → IsAtomic (ask (postgres server) c)
  unfolding ask
  ask-IsAtomic (creates_payment p key) =
      answering-IsAtomic a_creation (create_payment server p key) (create_payment-IsAtomic p key)
  ask-IsAtomic (transitions id to reference) =
      answering-IsAtomic a_payment (transition server id to reference)
        (transition-IsAtomic id to reference)
  ask-IsAtomic (applies_amount id action amount) =
      answering-IsAtomic a_payment (apply_amount server id action amount)
        (apply_amount-IsAtomic id action amount)
  ask-IsAtomic (appends_ledger entries) =
      answering-IsAtomic nothing (append_ledger server entries) (append_ledger-IsAtomic entries)
  ask-IsAtomic (enqueues event) =
      answering-IsAtomic nothing (enqueue server event) (enqueue-IsAtomic event)
  ask-IsAtomic (marks_published id) =
      answering-IsAtomic nothing (mark_published server id) (mark_published-IsAtomic id)
  ask-IsAtomic (registers_webhook id) =
      answering-IsAtomic a_flag (register_webhook server id) (register_webhook-IsAtomic id)
  ask-IsAtomic (commits command) =
      answering-IsAtomic a_payment (commit_payment_command server command)
        (commit_payment_command-IsAtomic command)
  ask-IsAtomic (creates_payout p entries event) =
      answering-IsAtomic a_payout (create_payout server p entries event)
        (create_payout-IsAtomic p entries event)
  ask-IsAtomic (transitions_payout id status reference entries event) =
      answering-IsAtomic a_payout (transition_payout server id status reference entries event)
        (transition_payout-IsAtomic id status reference entries event)
  ask-IsAtomic (creates_dispute dispute entries event) =
      answering-IsAtomic a_dispute (create_dispute server dispute entries event)
        (create_dispute-IsAtomic dispute entries event)
  ask-IsAtomic (resolves_dispute id status entries event) =
      answering-IsAtomic a_dispute (resolve_dispute server id status entries event)
        (resolve_dispute-IsAtomic id status entries event)

  -- A call of the SQL store that can change it, other than a claim of events, and that returns
  -- an error, for whatever reason (a statement or a commit that fails, a value or a row that is
  -- refused, a rule of the domain), leaves all tables as they were.
  pub ask_atomic :
      (c : StoreCall A) (db : Database A) (e : Error)
      → (ask (postgres server) c db).0 ≡ err e
      → (ask (postgres server) c db).1.tables ≡ db.tables
  ask_atomic c db e h = (ask-IsAtomic c).kept db e h
