-- ===== src/Store/WellFormed/Disputes.antt =====
-- The dispute methods of the store keep it well-formed.
use payment_ledger_platform.Base.{
  ◌≡◌, refl, inl, inr, String, List, ◌++◌, Option-cases, Bool-cases, arith,
}
use payment_ledger_platform.Base.Dict.{lookup, insert, contains, All-lookup, All-insert}
use payment_ledger_platform.Error.{ok, Result-cases}
use payment_ledger_platform.Amount.{Decimal, Meaning}
use payment_ledger_platform.Domain.Ledger.{LedgerEntry, validate_balanced}
use payment_ledger_platform.Domain.Ledger.Balance.{IsBalanced-append, validate_balanced_iff}
use payment_ledger_platform.Domain.Outbox.{OutboxEvent}
use payment_ledger_platform.Domain.Dispute.{DisputeStatus, Dispute}
use payment_ledger_platform.Store.State.{MemoryStore}
use payment_ledger_platform.Store.Memory.Disputes.{
  create_dispute, resolve_dispute, is_opened, is_decided,
}
use payment_ledger_platform.Store.WellFormed.{DisputeEntry, IsWellFormed}

module _ {A V : Type 0} ⦃d : Decimal A⦄ (m : Meaning d V) where
  -- A valid dispute, a balanced journal and an event are written together.
  put_dispute-IsWellFormed :
      (p : Dispute A) (entries : List (LedgerEntry A)) (event : OutboxEvent) (id : String)
      (s : MemoryStore A)
      → DisputeEntry m (id, p)
      → validate_balanced entries ≡ ok tt
      → IsWellFormed m s
      → IsWellFormed m (record s {
        disputes = insert id p s.disputes;
        ledger = s.ledger ++ entries;
        outbox = insert event.id event s.outbox;
      })
  put_dispute-IsWellFormed p entries event id s entry valid h = record {
    payments_sound = h.payments_sound;
    keys_known = h.keys_known;
    events_filed = All-insert (λ e. e.0 ≡ e.1.id) event.id event s.outbox h.events_filed refl;
    ledger_balanced =
        IsBalanced-append m s.ledger entries h.ledger_balanced
          ((validate_balanced_iff m entries).0 valid).1;
    payouts_valid = h.payouts_valid;
    disputes_valid = All-insert (DisputeEntry m) id p s.disputes h.disputes_valid entry;
  }

  pub create_dispute-IsWellFormed :
      (p : Dispute A) (entries : List (LedgerEntry A)) (event : OutboxEvent) (s : MemoryStore A)
      → DisputeEntry m (p.id, p)
      → IsWellFormed m s
      → IsWellFormed m (create_dispute p entries event s).1
  unfolding create_dispute
  create_dispute-IsWellFormed p entries event s entry h =
      elim (Bool-cases (contains p.id s.disputes)) [
        | inl old ↦ rw (old, create_dispute) h
        | inr new ↦ elim (Result-cases (validate_balanced entries)) [
          | inl (_, valid) ↦
              rw (new, create_dispute, valid)
                (put_dispute-IsWellFormed p entries event p.id s entry valid h)
          | inr (_, refused) ↦ rw (new, create_dispute, refused) h
        ]
      ]

  pub resolve_dispute-IsWellFormed :
      (id : String) (status : DisputeStatus) (entries : List (LedgerEntry A)) (event : OutboxEvent)
      (s : MemoryStore A)
      → IsWellFormed m s
      → IsWellFormed m (resolve_dispute id status entries event s).1
  unfolding resolve_dispute
  resolve_dispute-IsWellFormed id status entries event s h =
      elim (Option-cases (lookup id s.disputes)) [
        | inl missing ↦ rw (missing, resolve_dispute) h
        | inr (p, found) ↦ elim (Bool-cases (is_opened p.status)) [
          | inr resolved ↦ rw (found, resolve_dispute, resolved) h
          | inl waiting ↦ elim (Bool-cases (is_decided status)) [
            | inr invalid ↦ rw (found, resolve_dispute, waiting, invalid) h
            | inl decided ↦ elim (Result-cases (validate_balanced entries)) [
              | inr (_, refused) ↦ rw (found, resolve_dispute, waiting, decided, refused) h
              | inl (_, valid) ↦
                  let entry = All-lookup (DisputeEntry m) id p s.disputes h.disputes_valid found in
                  rw (found, resolve_dispute, waiting, decided, valid)
                    (put_dispute-IsWellFormed (record p { status = status }) entries event id s
                      (entry.0, entry.1, ground arith) valid h)
            ]
          ]
        ]
      ]
