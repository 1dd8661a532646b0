-- ===== src/Store/WellFormed/Payments.antt =====
-- The payment methods of the store keep it well-formed.
use payment_ledger_platform.Base.{
  ◌≡◌, refl, sym, ◌∙◌, inl, inr, true, String, some, List, All-map, Option-cases, Bool-cases, arith,
}
use payment_ledger_platform.Base.Dict.{
  Dict, lookup, insert, contains, contains-insert, lookup-insert_self, All-lookup, All-insert,
}
use payment_ledger_platform.Error.{ok, Result-cases}
use payment_ledger_platform.Amount.{Decimal, Meaning}
use payment_ledger_platform.Domain.Payment.{
  PaymentStatus, captured, refunded, Payment, allowed, can_transition, validate_capture,
  validate_refund,
}
use payment_ledger_platform.Domain.Payment.Limits.{
  IsSound, validate_capture-Fits, validate_refund-Fits, capture-IsSound, refund-IsSound,
  move-IsSound,
}
use payment_ledger_platform.Domain.Ledger.{LedgerEntry, validate_balanced}
use payment_ledger_platform.Domain.Ledger.Balance.{IsBalanced-append, validate_balanced_iff}
use payment_ledger_platform.Store.State.{MemoryStore}
use payment_ledger_platform.Store.Memory.Payments.{
  create_payment, transition, with_amount, apply_amount, append_ledger,
}
use payment_ledger_platform.Store.WellFormed.{PaymentEntry, IsWellFormed}

module _ {A V : Type 0} ⦃d : Decimal A⦄ (m : Meaning d V) where
  -- A stored payment is replaced by a sound one with the same identifier.
  pub put_payment-IsWellFormed :
      (id : String) (p : Payment A) (s : MemoryStore A)
      → id ≡ p.id
      → IsSound m p
      → IsWellFormed m s
      → IsWellFormed m (record s { payments = insert id p s.payments })
  put_payment-IsWellFormed id p s e sound h = record {
    payments_sound = All-insert (PaymentEntry m) id p s.payments h.payments_sound (e, sound);
    keys_known = All-map (λ k known. contains-insert id k.1 p s.payments known) s.keys h.keys_known;
    events_filed = h.events_filed;
    ledger_balanced = h.ledger_balanced;
    payouts_valid = h.payouts_valid;
    disputes_valid = h.disputes_valid;
  }

  pub found_payment :
      (id : String) (p : Payment A) (s : MemoryStore A)
      → IsWellFormed m s
      → lookup id s.payments ≡ some p
      → PaymentEntry m (id, p)
  found_payment id p s h e = All-lookup (PaymentEntry m) id p s.payments h.payments_sound e

  pub contains_self :
      (id : String) (p : Payment A) (ps : Dict (Payment A)) → contains id (insert id p ps) ≡ true
  contains_self id p ps = ground (arith, lookup-insert_self id p ps)

  pub file_payment-IsWellFormed :
      (p : Payment A) (key : String) (s : MemoryStore A)
      → IsSound m p
      → IsWellFormed m s
      → IsWellFormed m
          (record s { payments = insert p.id p s.payments; keys = insert key p.id s.keys })
  file_payment-IsWellFormed p key s sound h =
      let put = put_payment-IsWellFormed p.id p s refl sound h in
      record {
        payments_sound = put.payments_sound;
        keys_known =
            All-insert (λ e. contains e.1 (insert p.id p s.payments) ≡ true) key p.id s.keys
              put.keys_known (contains_self p.id p s.payments);
        events_filed = h.events_filed;
        ledger_balanced = h.ledger_balanced;
        payouts_valid = h.payouts_valid;
        disputes_valid = h.disputes_valid;
      }

  pub create_payment-IsWellFormed :
      (p : Payment A) (key : String) (s : MemoryStore A)
      → IsSound m p
      → IsWellFormed m s
      → IsWellFormed m (create_payment p key s).1
  unfolding create_payment
  create_payment-IsWellFormed p key s sound h = elim (Option-cases (lookup key s.keys)) [
    | inl new ↦ rw (new, create_payment) (file_payment-IsWellFormed p key s sound h)
    | inr (existing, old) ↦ ground (arith, old)
  ]

  pub transition-IsWellFormed :
      (id : String) (to : PaymentStatus) (reference : String) (s : MemoryStore A)
      → IsWellFormed m s
      → IsWellFormed m (transition id to reference s).1
  unfolding transition can_transition
  transition-IsWellFormed id to reference s h = elim (Option-cases (lookup id s.payments)) [
    | inl missing ↦ ground (arith, missing)
    | inr (p, found) ↦ elim (Bool-cases (allowed p.status to)) [
      | inl may ↦
          let (named, sound) = found_payment id p s h found in
          ground (
            arith,
            found,
            may,
            put_payment-IsWellFormed id (record p { status = to; provider_reference = reference }) s
                named (move-IsSound m p to reference sound may) h,
          )
      | inr barred ↦ ground (arith, found, barred)
    ]
  ]

  -- An accepted amount action is a capture or a refund that fits.
  with_amount-IsSound :
      (action : PaymentStatus) (amount : A) (p : Payment A) {q : Payment A}
      → IsSound m p
      → with_amount action amount p ≡ ok q
      → (q.id ≡ p.id) × IsSound m q
  unfolding with_amount can_transition
  with_amount-IsSound captured amount p h e = elim (Result-cases (validate_capture p amount)) [
    | inl (_, fits) ↦ ground (
      arith,
      fits,
      capture-IsSound m p amount p.provider_reference h ((validate_capture-Fits m p amount).0 fits),
    )
    | inr (_, refused) ↦ ground (arith, refused)
  ]
  with_amount-IsSound refunded amount p h e = elim (Result-cases (validate_refund p amount)) [
    | inl (_, fits) ↦ ground (
      arith,
      fits,
      refund-IsSound m p amount p.provider_reference h ((validate_refund-Fits m p amount).0 fits),
    )
    | inr (_, refused) ↦ ground (arith, refused)
  ]
  with_amount-IsSound _ amount p h e = ground arith

  pub apply_amount-IsWellFormed :
      (id : String) (action : PaymentStatus) (amount : A) (s : MemoryStore A)
      → IsWellFormed m s
      → IsWellFormed m (apply_amount id action amount s).1
  unfolding apply_amount
  apply_amount-IsWellFormed id action amount s h = elim (Option-cases (lookup id s.payments)) [
    | inl missing ↦ rw (missing, apply_amount) h
    | inr (p, found) ↦ elim (Result-cases (with_amount action amount p)) [
      | inl (q, done) ↦
          let (named, sound) = found_payment id p s h found in
          let (same, sound') = with_amount-IsSound action amount p sound done in
          rw (found, apply_amount, done)
            (put_payment-IsWellFormed id q s (named ∙ sym same) sound' h)
      | inr (e, refused) ↦ rw (found, apply_amount, refused) h
    ]
  ]

  pub append_ledger-IsWellFormed :
      (entries : List (LedgerEntry A)) (s : MemoryStore A)
      → IsWellFormed m s
      → IsWellFormed m (append_ledger entries s).1
  unfolding append_ledger
  append_ledger-IsWellFormed entries s h = elim (Result-cases (validate_balanced entries)) [
    | inl (_, valid) ↦
        rw (valid, append_ledger)
          (record {
            payments_sound = h.payments_sound;
            keys_known = h.keys_known;
            events_filed = h.events_filed;
            ledger_balanced =
                IsBalanced-append m s.ledger entries h.ledger_balanced
                  ((validate_balanced_iff m entries).0 valid).1;
            payouts_valid = h.payouts_valid;
            disputes_valid = h.disputes_valid;
          })
    | inr (e, refused) ↦ rw (refused, append_ledger) h
  ]
