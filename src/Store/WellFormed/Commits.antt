-- ===== src/Store/WellFormed/Commits.antt =====
-- An accepted payment command keeps the store well-formed (`CommitPaymentCommand`).
use payment_ledger_platform.Base.{
  ◌≡◌, refl, inl, inr, true, String, some, ◌++◌, Option-cases, Bool-cases, arith,
}
use payment_ledger_platform.Base.Dict.{lookup, insert, All-insert}
use payment_ledger_platform.Error.{ok, Result-cases}
use payment_ledger_platform.Amount.{Decimal, Meaning}
use payment_ledger_platform.Domain.Payment.{
  PaymentStatus, created, authorized, captured, refunded, failed, unset, Payment, allowed,
  can_transition, validate_capture, validate_refund,
}
use payment_ledger_platform.Domain.Payment.Limits.{
  IsSound, validate_capture-Fits, validate_refund-Fits, capture-IsSound, refund-IsSound,
  move-IsSound,
}
use payment_ledger_platform.Domain.Ledger.{validate_balanced}
use payment_ledger_platform.Domain.Ledger.Balance.{
  IsBalanced, IsBalanced-append, validate_balanced_iff,
}
use payment_ledger_platform.Domain.Outbox.{PaymentCommand}
use payment_ledger_platform.Store.State.{MemoryStore}
use payment_ledger_platform.Store.Memory.Payments.{
  charge, next_payment, commit_payment_command, or_keep,
}
use payment_ledger_platform.Store.WellFormed.{IsWellFormed}
use payment_ledger_platform.Store.WellFormed.Payments.{put_payment-IsWellFormed, found_payment}

module _ {A V : Type 0} ⦃d : Decimal A⦄ (m : Meaning d V) where
  -- What an accepted command does to the payment, on every branch of its status.
  charge_lem :
      (status : PaymentStatus) (amount : A) (reference : String) (p : Payment A) {q : Payment A}
      → IsSound m p
      → allowed p.status status ≡ true
      → charge status amount p ≡ ok q
      → (q.id ≡ p.id) × IsSound m (record q { status = status; provider_reference = reference })
  unfolding charge
  charge_lem captured amount reference p h may e = elim (Result-cases (validate_capture p amount)) [
    | inl (_, fits) ↦ ground (
      arith,
      fits,
      capture-IsSound m p amount reference h ((validate_capture-Fits m p amount).0 fits) may,
    )
    | inr (_, refused) ↦ ground (arith, refused)
  ]
  charge_lem refunded amount reference p h may e = elim (Result-cases (validate_refund p amount)) [
    | inl (_, fits) ↦ ground (
      arith,
      fits,
      refund-IsSound m p amount reference h ((validate_refund-Fits m p amount).0 fits) may,
    )
    | inr (_, refused) ↦ ground (arith, refused)
  ]
  charge_lem created amount reference p h may e =
      ground (arith, move-IsSound m p created reference h may)
  charge_lem authorized amount reference p h may e =
      ground (arith, move-IsSound m p authorized reference h may)
  charge_lem failed amount reference p h may e =
      ground (arith, move-IsSound m p failed reference h may)
  charge_lem unset amount reference p h may e =
      ground (arith, move-IsSound m p unset reference h may)

  -- An accepted command moves the payment along the state machine, keeps it sound and carries a
  -- balanced journal.
  pub next_payment-IsSound :
      (command : PaymentCommand A) (p : Payment A) {q : Payment A}
      → IsSound m p
      → next_payment command p ≡ ok q
      → (q.id ≡ p.id)
        × (q.status ≡ command.status)
        × (can_transition p command.status ≡ true)
        × IsSound m q
        × IsBalanced m command.ledger
  unfolding next_payment can_transition
  next_payment-IsSound command p h e = elim (Bool-cases (allowed p.status command.status)) [
    | inr barred ↦ ground (arith, barred)
    | inl may ↦ elim (Result-cases (charge command.status command.amount p)) [
      | inr (_, refused) ↦ ground (arith, may, refused)
      | inl (c, charged) ↦ elim (Result-cases (validate_balanced command.ledger)) [
        | inr (_, refused) ↦ ground (arith, may, charged, refused)
        | inl (_, valid) ↦ ground (
          arith,
          may,
          charged,
          valid,
          charge_lem command.status command.amount
              (or_keep command.provider_reference c.provider_reference) p h may charged,
          (validate_balanced_iff m command.ledger).0 valid,
        )
      ]
    ]
  ]

  committed-IsWellFormed :
      (command : PaymentCommand A) (p q : Payment A) (s : MemoryStore A)
      → IsWellFormed m s
      → lookup command.payment_id s.payments ≡ some p
      → next_payment command p ≡ ok q
      → IsWellFormed m (record s {
        payments = insert q.id q s.payments;
        ledger = s.ledger ++ command.ledger;
        outbox = insert command.event.id (record (command.event) { aggregate_id = q.id }) s.outbox;
      })
  committed-IsWellFormed command p q s h found done =
      let (named, sound) = found_payment m command.payment_id p s h found in
      let (same, _, _, sound', journal) = next_payment-IsSound command p sound done in
      let put = put_payment-IsWellFormed m q.id q s refl sound' h in
      record {
        payments_sound = put.payments_sound;
        keys_known = put.keys_known;
        events_filed = All-insert (λ e. e.0 ≡ e.1.id) _ _ s.outbox h.events_filed refl;
        ledger_balanced = IsBalanced-append m s.ledger command.ledger h.ledger_balanced journal;
        payouts_valid = h.payouts_valid;
        disputes_valid = h.disputes_valid;
      }

  pub commit-IsWellFormed :
      (command : PaymentCommand A) (s : MemoryStore A)
      → IsWellFormed m s
      → IsWellFormed m (commit_payment_command command s).1
  unfolding commit_payment_command
  commit-IsWellFormed command s h = elim (Option-cases (lookup command.payment_id s.payments)) [
    | inl missing ↦ rw (missing, commit_payment_command) h
    | inr (p, found) ↦ elim (Result-cases (next_payment command p)) [
      | inl (q, done) ↦
          rw (found, commit_payment_command, done)
            (committed-IsWellFormed command p q s h found done)
      | inr (e, refused) ↦ rw (found, commit_payment_command, refused) h
    ]
  ]
