-- ===== src/Store/Memory/Payments.antt =====
-- internal/store/store.go: the payment methods of `MemoryStore`.
use payment_ledger_platform.Base.{
  Bool, true, false, not, String, ◌==◌, List, [], ◌∷◌, ◌++◌, Option, none, some, if◌then◌else◌,
}
use payment_ledger_platform.Base.Dict.{Dict, lookup, insert}
use payment_ledger_platform.Error.{
  not_found, invalid_transition, unsupported_action, Result, ok, err, Done, refuse_if, and_then,
  or_error, Exec, pure, lift, gets, modify, ◌>>=◌, ◌>>◌,
}
use payment_ledger_platform.Amount.{Decimal}
use payment_ledger_platform.Domain.Payment.{
  PaymentStatus, captured, refunded, Payment, can_transition, zero_payment, validate_capture,
  validate_refund,
}
use payment_ledger_platform.Domain.Ledger.{LedgerEntry, validate_balanced}
use payment_ledger_platform.Domain.Outbox.{PaymentCommand}
use payment_ledger_platform.Store.State.{MemoryStore}

module _ {A : Type 0} where
  -- The payment, and whether it is the replay of an earlier call with the same key.
  unfoldable pub create_payment :
      ⦃d : Decimal A⦄ → Payment A → String → Exec (MemoryStore A) (Payment A × Bool)
  create_payment p key s = elim (lookup key s.keys) [
    | some existing ↦ elim (lookup existing s.payments) [
      | some old ↦ (ok (old, true), s)
      | none ↦ (ok (zero_payment, true), s)
    ]
    | none ↦ (
      ok (p, false),
      record s { payments = insert p.id p s.payments; keys = insert key p.id s.keys },
    )
  ]

  unfoldable pub get_payment : String → Exec (MemoryStore A) (Payment A)
  get_payment id = do found ← gets λ s. lookup id s.payments; lift (or_error found not_found)

  -- The loop over the map, in the order in which Go happens to visit it.
  unfoldable pub first_with_reference : String → Dict (Payment A) → Option (Payment A)
  first_with_reference reference [] = none
  first_with_reference reference (e ∷ es) =
      if e.1.provider_reference == reference then some e.1 else first_with_reference reference es

  -- `visit` is the order of a `range` over the map, which Go leaves open.
  unfoldable pub get_payment_by_provider_reference :
      (Dict (Payment A) → Dict (Payment A)) → String → Exec (MemoryStore A) (Payment A)
  unfolding first_with_reference
  get_payment_by_provider_reference visit reference = do
    found ← gets λ s. first_with_reference reference (visit s.payments)
    lift (or_error found not_found)

  unfoldable pub transition : String → PaymentStatus → String → Exec (MemoryStore A) (Payment A)
  transition id to reference = do
    found ← gets λ s. lookup id s.payments
    p ← lift (or_error found not_found)
    lift (refuse_if (not (can_transition p to)) invalid_transition)
    let p' = record p { status = to; provider_reference = reference }
    modify λ s. record s { payments = insert id p' s.payments }
    pure p'

-- A new reference replaces the old one, and an empty one does not.
abbrev pub or_keep : String → String → String
or_keep reference old = if reference == "" then old else reference

module _ {A : Type 0} ⦃d : Decimal A⦄ where
  -- The branches of `ApplyAmount`.
  unfoldable pub with_amount : PaymentStatus → A → Payment A → Result (Payment A)
  with_amount captured amount p = and_then (validate_capture p amount) λ _.
      and_then (refuse_if (not (can_transition p captured)) invalid_transition)
        λ _. ok (record p { captured_amount = d.add p.captured_amount amount; status = captured })
  with_amount refunded amount p = and_then (validate_refund p amount) λ _.
      and_then (refuse_if (not (can_transition p refunded)) invalid_transition)
        λ _. ok (record p { refunded_amount = d.add p.refunded_amount amount; status = refunded })
  with_amount _ amount p = err unsupported_action

  unfoldable pub apply_amount : String → PaymentStatus → A → Exec (MemoryStore A) (Payment A)
  unfolding with_amount
  apply_amount id action amount = do
    found ← gets λ s. lookup id s.payments
    p ← lift (or_error found not_found)
    p' ← lift (with_amount action amount p)
    modify λ s. record s { payments = insert id p' s.payments }
    pure p'

  unfoldable pub append_ledger : List (LedgerEntry A) → Exec (MemoryStore A) Done
  append_ledger entries = do
    lift (validate_balanced entries)
    modify λ s. record s { ledger = s.ledger ++ entries }

  -- The two tests on the command's status in `CommitPaymentCommand`, one of which can hold.
  unfoldable pub charge : PaymentStatus → A → Payment A → Result (Payment A)
  charge captured amount p =
      and_then (validate_capture p amount)
        λ _. ok (record p { captured_amount = d.add p.captured_amount amount })
  charge refunded amount p =
      and_then (validate_refund p amount)
        λ _. ok (record p { refunded_amount = d.add p.refunded_amount amount })
  charge _ amount p = ok p

  -- The payment that a command leaves, if it is accepted.
  unfoldable pub next_payment : PaymentCommand A → Payment A → Result (Payment A)
  unfolding charge
  next_payment command p =
      and_then (refuse_if (not (can_transition p command.status)) invalid_transition) λ _.
        and_then (charge command.status command.amount p) λ q.
          and_then (validate_balanced command.ledger) λ _. ok (record q {
            status = command.status;
            provider_reference = or_keep command.provider_reference q.provider_reference;
          })

  unfoldable pub commit_payment_command : PaymentCommand A → Exec (MemoryStore A) (Payment A)
  unfolding next_payment
  commit_payment_command command = do
    found ← gets λ s. lookup command.payment_id s.payments
    p ← lift (or_error found not_found)
    q ← lift (next_payment command p)
    let event = record (command.event) { aggregate_id = q.id }
    modify λ s. record s {
      payments = insert q.id q s.payments;
      ledger = s.ledger ++ command.ledger;
      outbox = insert event.id event s.outbox;
    }
    pure q
