-- ===== src/Store/WellFormed/Payouts.antt =====
-- The payout methods of the store keep it well-formed, and so do those of the outbox.
use payment_ledger_platform.Base.{
  ◌≡◌, refl, inl, inr, true, String, List, ◌++◌, Option-cases, Bool-cases, arith,
}
use payment_ledger_platform.Base.Dict.{lookup, insert, All-lookup, All-insert}
use payment_ledger_platform.Error.{ok, Result-cases}
use payment_ledger_platform.Amount.{Decimal, Meaning}
use payment_ledger_platform.Domain.Ledger.{LedgerEntry, validate_balanced}
use payment_ledger_platform.Domain.Ledger.Balance.{IsBalanced-append, validate_balanced_iff}
use payment_ledger_platform.Domain.Outbox.{OutboxEvent}
use payment_ledger_platform.Domain.Payout.{PayoutStatus, Payout}
use payment_ledger_platform.Store.State.{MemoryStore}
use payment_ledger_platform.Store.Memory.Outbox.{enqueue, mark_published, register_webhook}
use payment_ledger_platform.Store.Memory.Payouts.{
  sum_account, available_account, create_payout, transition_payout, is_pending, is_terminal,
}
use payment_ledger_platform.Store.WellFormed.{PayoutEntry, IsWellFormed}

module _ {A V : Type 0} ⦃d : Decimal A⦄ (m : Meaning d V) where
  pub enqueue-IsWellFormed :
      (event : OutboxEvent) (s : MemoryStore A)
      → IsWellFormed m s
      → IsWellFormed m (enqueue event s).1
  unfolding enqueue
  enqueue-IsWellFormed event s h = record {
    payments_sound = h.payments_sound;
    keys_known = h.keys_known;
    events_filed = All-insert (λ e. e.0 ≡ e.1.id) event.id event s.outbox h.events_filed refl;
    ledger_balanced = h.ledger_balanced;
    payouts_valid = h.payouts_valid;
    disputes_valid = h.disputes_valid;
  }

  pub mark_published-IsWellFormed :
      (id : String) (s : MemoryStore A) → IsWellFormed m s → IsWellFormed m (mark_published id s).1
  unfolding mark_published
  mark_published-IsWellFormed id s h = elim (Option-cases (lookup id s.outbox)) [
    | inl missing ↦ rw (missing, mark_published) h
    | inr (e, found) ↦
        rw (found, mark_published)
          (record {
            payments_sound = h.payments_sound;
            keys_known = h.keys_known;
            events_filed =
                All-insert (λ e. e.0 ≡ e.1.id) id (record e { published = true }) s.outbox
                  h.events_filed
                  (All-lookup (λ e. e.0 ≡ e.1.id) id e s.outbox h.events_filed found);
            ledger_balanced = h.ledger_balanced;
            payouts_valid = h.payouts_valid;
            disputes_valid = h.disputes_valid;
          })
  ]

  pub register_webhook-IsWellFormed :
      (id : String) (s : MemoryStore A)
      → IsWellFormed m s
      → IsWellFormed m (register_webhook id s).1
  unfolding register_webhook
  register_webhook-IsWellFormed id s h = elim (Option-cases (lookup id s.webhooks)) [
    | inr (_, known) ↦ rw (known, register_webhook) h
    | inl new ↦
        rw (new, register_webhook)
          (record {
            payments_sound = h.payments_sound;
            keys_known = h.keys_known;
            events_filed = h.events_filed;
            ledger_balanced = h.ledger_balanced;
            payouts_valid = h.payouts_valid;
            disputes_valid = h.disputes_valid;
          })
  ]

  -- A valid payout, a balanced journal and an event are written together.
  put_payout-IsWellFormed :
      (p : Payout A) (entries : List (LedgerEntry A)) (event : OutboxEvent) (id : String)
      (s : MemoryStore A)
      → PayoutEntry m (id, p)
      → validate_balanced entries ≡ ok tt
      → IsWellFormed m s
      → IsWellFormed m (record s {
        payouts = insert id p s.payouts;
        ledger = s.ledger ++ entries;
        outbox = insert event.id event s.outbox;
      })
  put_payout-IsWellFormed p entries event id s entry valid h = record {
    payments_sound = h.payments_sound;
    keys_known = h.keys_known;
    events_filed = All-insert (λ e. e.0 ≡ e.1.id) event.id event s.outbox h.events_filed refl;
    ledger_balanced =
        IsBalanced-append m s.ledger entries h.ledger_balanced
          ((validate_balanced_iff m entries).0 valid).1;
    payouts_valid = All-insert (PayoutEntry m) id p s.payouts h.payouts_valid entry;
    disputes_valid = h.disputes_valid;
  }

  pub create_payout-IsWellFormed :
      (p : Payout A) (entries : List (LedgerEntry A)) (event : OutboxEvent) (s : MemoryStore A)
      → PayoutEntry m (p.id, p)
      → IsWellFormed m s
      → IsWellFormed m (create_payout p entries event s).1
  unfolding create_payout
  create_payout-IsWellFormed p entries event s entry h =
      elim (Bool-cases (
        d.less_than (sum_account (available_account p.merchant_id) p.currency d.zero s.ledger)
          p.amount)) [
            | inl short ↦ rw (short, create_payout) h
            | inr covered ↦ elim (Result-cases (validate_balanced entries)) [
              | inl (_, valid) ↦
                  rw (covered, create_payout, valid)
                    (put_payout-IsWellFormed p entries event p.id s entry valid h)
              | inr (_, refused) ↦ rw (covered, create_payout, refused) h
            ]
          ]

  pub transition_payout-IsWellFormed :
      (id : String) (status : PayoutStatus) (reference : String) (entries : List (LedgerEntry A))
      (event : OutboxEvent) (s : MemoryStore A)
      → IsWellFormed m s
      → IsWellFormed m (transition_payout id status reference entries event s).1
  unfolding transition_payout
  transition_payout-IsWellFormed id status reference entries event s h =
      elim (Option-cases (lookup id s.payouts)) [
        | inl missing ↦ rw (missing, transition_payout) h
        | inr (p, found) ↦ elim (Bool-cases (is_pending p.status)) [
          | inr resolved ↦ rw (found, transition_payout, resolved) h
          | inl waiting ↦ elim (Bool-cases (is_terminal status)) [
            | inr invalid ↦ rw (found, transition_payout, waiting, invalid) h
            | inl terminal ↦ elim (Result-cases (validate_balanced entries)) [
              | inr (_, refused) ↦ rw (found, transition_payout, waiting, terminal, refused) h
              | inl (_, valid) ↦
                  let entry = All-lookup (PayoutEntry m) id p s.payouts h.payouts_valid found in
                  rw (found, transition_payout, waiting, terminal, valid)
                    (put_payout-IsWellFormed
                      (record p { status = status; provider_reference = reference }) entries event
                      id s (entry.0, entry.1, ground arith) valid h)
            ]
          ]
        ]
      ]
