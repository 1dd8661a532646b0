-- ===== src/Service/Outbox/Progress.antt =====
-- internal/service/outbox.go: with a publisher that works, the worker gets through its batch.
use payment_ledger_platform.Base.{
  ◌≡◌, refl, sym, ap, subst, ◌<◌, ◌==◌, Bool-cases, ℕ, inl, inr, true, String, some, List, [], ◌∷◌,
  take, All, All-map, All-take, Option-cases, arith,
}
use payment_ledger_platform.Base.Dict.{lookup, lookup-insert, lookup-insert_self, contains}
use payment_ledger_platform.Error.{ok, ◌>>=◌}
use payment_ledger_platform.Amount.{Decimal}
use payment_ledger_platform.Domain.Outbox.{OutboxEvent}
use payment_ledger_platform.Store.State.{MemoryStore}
use payment_ledger_platform.Store.Memory.Outbox.{mark_published}
use payment_ledger_platform.Store.Interface.{Visits, memory}
use payment_ledger_platform.Store.Claims.{unpublished, claim_outbox-take, All-unpublished}
use payment_ledger_platform.Service.Outbox.{EventPublisher, on_store, deliver_each, deliver}
use payment_ledger_platform.Service.Outbox.Delivery.{continues}

module _ {A : Type 0} where
  abbrev pub IsFiled : MemoryStore A → OutboxEvent → Type 0
  IsFiled s event = contains event.id s.outbox ≡ true

  abbrev pub IsPublished : MemoryStore A → OutboxEvent → Type 0
  IsPublished s event =
      (e : OutboxEvent) × (lookup event.id s.outbox ≡ some e) × (e.published ≡ true)

  marks :
      (event : OutboxEvent) (s : MemoryStore A)
      → IsFiled s event
      → ((mark_published event.id s).0 ≡ ok tt) × IsPublished (mark_published event.id s).1 event
  unfolding mark_published
  marks event s filed = elim (Option-cases (lookup event.id s.outbox)) [
    | inl missing ↦ ground (arith, missing)
    | inr (e, found) ↦ rw (found) (
      refl,
      (
        record e { published = true },
        lookup-insert_self event.id (record e { published = true }) s.outbox,
        refl,
      ),
    )
  ]

  mark-IsFiled :
      (id : String) (event : OutboxEvent) (s : MemoryStore A)
      → IsFiled s event
      → IsFiled (mark_published id s).1 event
  unfolding mark_published
  mark-IsFiled id event s filed = elim (Option-cases (lookup id s.outbox)) [
    | inl missing ↦ ground (arith, missing)
    | inr (e, found) ↦
        ground (arith, found, lookup-insert id event.id (record e { published = true }) s.outbox)
  ]

  mark-IsPublished :
      (id : String) (event : OutboxEvent) (s : MemoryStore A)
      → IsPublished s event
      → IsPublished (mark_published id s).1 event
  unfolding mark_published
  mark-IsPublished id event s (old, there, done) = elim (Option-cases (lookup id s.outbox)) [
    | inl missing ↦ rw (missing) (old, there, done)
    | inr (e, found) ↦ elim (Bool-cases (id == event.id)) [
      | inl same ↦ rw (found) (
        record e { published = true },
        ground (arith, same, lookup-insert id event.id (record e { published = true }) s.outbox),
        refl,
      )
      | inr other ↦ rw (found) (
        old,
        ground (
          arith,
          other,
          there,
          lookup-insert id event.id (record e { published = true }) s.outbox,
        ),
        done,
      )
    ]
  ]

module _ {A P : Type 0} ⦃d : Decimal A⦄ (visits : Visits A) (publisher : EventPublisher P)
    (works : (event : OutboxEvent) (p : P) → (publisher.publish event p).0 ≡ ok tt) where
  abbrev delivered : List OutboxEvent → MemoryStore A → P → MemoryStore A
  delivered events s p = (deliver_each (memory visits) publisher events (s, p)).1.0

  deliver_each-IsPublished :
      (events : List OutboxEvent) (s : MemoryStore A) (p : P) (event : OutboxEvent)
      → All (IsFiled s) events
      → IsPublished s event
      → IsPublished (delivered events s p) event
  unfolding deliver_each
  deliver_each-IsPublished [] s p event filed done = done
  deliver_each-IsPublished (e ∷ events) s p event filed done =
      subst (λ r. IsPublished r.1.0 event)
        (sym (continues visits publisher e events s p (works e p) (marks e s filed.0).0))
        (deliver_each-IsPublished events (mark_published e.id s).1 (publisher.publish e p).1 event
          (All-map (λ x. mark-IsFiled e.id x s) events filed.1)
          (mark-IsPublished e.id event s done))

  deliver_each_lem :
      (events : List OutboxEvent) (s : MemoryStore A) (p : P)
      → All (IsFiled s) events
      → ((deliver_each (memory visits) publisher events (s, p)).0 ≡ ok tt)
        × All (IsPublished (delivered events s p)) events
  unfolding deliver_each
  deliver_each_lem [] s p filed = (refl, tt)
  deliver_each_lem (e ∷ events) s p filed =
      let s' = (mark_published e.id s).1 in
      let p' = (publisher.publish e p).1 in
      let (accepted, done) = marks e s filed.0 in
      let rest = All-map (λ x. mark-IsFiled e.id x s) events filed.1 in
      let (fine, published) = deliver_each_lem events s' p' rest in
      subst (λ r. (r.0 ≡ ok tt) × All (IsPublished r.1.0) (e ∷ events))
        (sym (continues visits publisher e events s p (works e p) accepted))
        (fine, (deliver_each-IsPublished events s' p' e rest done, published))

  deliver_batch :
      (batch_size : ℕ) (s : MemoryStore A) (p : P)
      → 0 < batch_size
      → deliver (memory visits) publisher batch_size (s, p)
        ≡ deliver_each
            (memory visits)
            publisher
            (take batch_size (unpublished (visits.outbox s.outbox)))
            (s, p)
  unfolding deliver
  deliver_batch batch_size s p positive =
      ap (λ r. (on_store (λ _. r) >>= deliver_each (memory visits) publisher) (s, p))
        (claim_outbox-take visits.outbox batch_size s positive)

  -- When the publisher accepts every event and the visited events are filed under their ids, a
  -- delivery with a positive batch size returns no error, and afterwards every event of its
  -- batch is marked as published: the first unpublished ones in the order of the visit, up to
  -- the batch size.
  pub deliver_progress :
      (batch_size : ℕ) (s : MemoryStore A) (p : P)
      → 0 < batch_size
      → All (λ e. IsFiled s e.1) (visits.outbox s.outbox)
      → let r = deliver (memory visits) publisher batch_size (s, p) in
        (r.0 ≡ ok tt)
        × All (IsPublished r.1.0) (take batch_size (unpublished (visits.outbox s.outbox)))
  deliver_progress batch_size s p positive filed =
      let batch = take batch_size (unpublished (visits.outbox s.outbox)) in
      subst (λ r. (r.0 ≡ ok tt) × All (IsPublished r.1.0) batch)
        (sym (deliver_batch batch_size s p positive))
        (deliver_each_lem batch s p (
          All-take (IsFiled s) batch_size _
            (All-unpublished (IsFiled s) (visits.outbox s.outbox) filed)))
