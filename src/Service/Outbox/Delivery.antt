-- ===== src/Service/Outbox/Delivery.antt =====
-- internal/service/outbox.go: what the worker guarantees over the store in memory.
use payment_ledger_platform.Base.{
  ◌≡◌, sym, ℕ, inl, inr, true, String, List, [], ◌∷◌, All, subst, Option-cases, arith,
}
use payment_ledger_platform.Base.Dict.{Dict, lookup, All-insert}
use payment_ledger_platform.Error.{Error, ok, err, Result-cases}
use payment_ledger_platform.Amount.{Decimal}
use payment_ledger_platform.Domain.Outbox.{OutboxEvent}
use payment_ledger_platform.Store.State.{MemoryStore}
use payment_ledger_platform.Store.Memory.Outbox.{claim, claim_outbox, mark_published}
use payment_ledger_platform.Store.Interface.{Visits, memory}
use payment_ledger_platform.Service.Outbox.{EventPublisher, deliver_each, deliver}

-- What a publisher records: a publication that succeeds has been received, and what has been
-- received stays received.
pub record Receipts {P : Type 0} (publisher : EventPublisher P) : Type 1 where
  pub Received : String → P → Type 0
  pub received_ok :
      (event : OutboxEvent) (p : P)
      → (publisher.publish event p).0 ≡ ok tt
      → Received event.id (publisher.publish event p).1
  pub received_kept :
      (id : String) (event : OutboxEvent) (p : P)
      → Received id p
      → Received id (publisher.publish event p).1

-- The rounds of the loop.
module _ {A P : Type 0} ⦃d : Decimal A⦄ (visits : Visits A) (publisher : EventPublisher P)
    (event : OutboxEvent) (events : List OutboxEvent) (s : MemoryStore A) (p : P) where
  pub stops_at_publish :
      {e : Error}
      → (publisher.publish event p).0 ≡ err e
      → deliver_each (memory visits) publisher (event ∷ events) (s, p)
        ≡ (err e, (s, (publisher.publish event p).1))
  unfolding deliver_each
  stops_at_publish failed = ground (arith, failed)

  pub stops_at_mark :
      {e : Error}
      → (publisher.publish event p).0 ≡ ok tt
      → (mark_published event.id s).0 ≡ err e
      → deliver_each (memory visits) publisher (event ∷ events) (s, p)
        ≡ (err e, ((mark_published event.id s).1, (publisher.publish event p).1))
  unfolding deliver_each
  stops_at_mark sent failed = ground (arith, sent, failed)

  pub continues :
      (publisher.publish event p).0 ≡ ok tt
      → (mark_published event.id s).0 ≡ ok tt
      → deliver_each (memory visits) publisher (event ∷ events) (s, p)
        ≡ deliver_each
            (memory visits)
            publisher
            events
            ((mark_published event.id s).1, (publisher.publish event p).1)
  unfolding deliver_each
  continues sent done = ground (arith, sent, done)

module _ {A P : Type 0} ⦃d : Decimal A⦄ (visits : Visits A) (publisher : EventPublisher P)
    (receipts : Receipts publisher) where
  -- Every event that the outbox calls published has been received.
  abbrev pub IsHonest : MemoryStore A × P → Type 0
  IsHonest w = All (λ e. e.1.published ≡ true → receipts.Received e.0 w.1) w.0.outbox

  publish-IsHonest :
      (event : OutboxEvent) (outbox : Dict OutboxEvent) (p : P)
      → All (λ e. e.1.published ≡ true → receipts.Received e.0 p) outbox
      → All (λ e. e.1.published ≡ true → receipts.Received e.0 (publisher.publish event p).1) outbox
  publish-IsHonest event [] p h = tt
  publish-IsHonest event (e ∷ outbox) p h =
      (λ done. receipts.received_kept e.0 event p (h.0 done), publish-IsHonest event outbox p h.1)

  mark-IsHonest :
      (id : String) (s : MemoryStore A) (p : P)
      → receipts.Received id p
      → IsHonest (s, p)
      → IsHonest ((mark_published id s).1, p)
  unfolding mark_published
  mark-IsHonest id s p received h = elim (Option-cases (lookup id s.outbox)) [
    | inl missing ↦ rw (missing) h
    | inr (e, found) ↦ rw (found) (
        All-insert (λ e. e.1.published ≡ true → receipts.Received e.0 p) id
          (record e { published = true }) s.outbox h (λ _. received))
  ]

  deliver_each-IsHonest :
      (events : List OutboxEvent) (w : MemoryStore A × P)
      → IsHonest w
      → IsHonest (deliver_each (memory visits) publisher events w).1
  unfolding deliver_each
  deliver_each-IsHonest [] w h = h
  deliver_each-IsHonest (event ∷ events) (s, p) h =
      let kept = publish-IsHonest event s.outbox p h in
      elim (Result-cases (publisher.publish event p).0) [
        | inr (e, failed) ↦
            subst (λ r. IsHonest r.1)
              (sym (stops_at_publish visits publisher event events s p failed)) kept
        | inl (_, sent) ↦
            let p' = (publisher.publish event p).1 in
            let marked = mark-IsHonest event.id s p' (receipts.received_ok event p sent) kept in
            elim (Result-cases (mark_published event.id s).0) [
              | inr (e, failed) ↦
                  subst (λ r. IsHonest r.1)
                    (sym (stops_at_mark visits publisher event events s p sent failed)) marked
              | inl (_, done) ↦
                  subst (λ r. IsHonest r.1)
                    (sym (continues visits publisher event events s p sent done))
                    (deliver_each-IsHonest events ((mark_published event.id s).1, p') marked)
            ]
      ]

  -- Take any publisher with a notion of what has been received that a publication without an
  -- error establishes and no publication undoes. If every event that the outbox calls published
  -- has been received, that still holds after a delivery with any batch size and any outcome,
  -- one that stops at an error included: no event is marked as published before it was
  -- received.
  pub deliver-IsHonest :
      (batch_size : ℕ) (w : MemoryStore A × P)
      → IsHonest w
      → IsHonest (deliver (memory visits) publisher batch_size w).1
  unfolding deliver claim_outbox
  deliver-IsHonest batch_size w h =
      deliver_each-IsHonest (claim batch_size [] (visits.outbox w.0.outbox)) w h
