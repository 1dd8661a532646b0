-- ===== src/Service/Outbox.antt =====
-- internal/service/outbox.go: publishers, and the worker that delivers the outbox, over any store.
-- `P` is the state of what a publisher writes to.
pub mod Delivery
pub mod Progress
pub mod MerchantWebhook
use payment_ledger_platform.Base.{ℕ, String, List, [], ◌∷◌}
use payment_ledger_platform.Error.{Error, Done, Exec, pure, ok, err, ◌>>=◌, ◌>>◌}
use payment_ledger_platform.Domain.Outbox.{OutboxEvent}
use payment_ledger_platform.Store.Interface.{Store}

pub record EventPublisher (P : Type 0) : Type 0 where
  pub publish : OutboxEvent → Exec P Done

module _ {P : Type 0} where
  unfoldable pub publish_to_all : List (EventPublisher P) → OutboxEvent → Exec P Done
  publish_to_all [] event = pure tt
  publish_to_all (publisher ∷ publishers) event = do
    publisher.publish event
    publish_to_all publishers event

  -- `CompositePublisher`
  abbrev pub composite_publisher : List (EventPublisher P) → EventPublisher P
  composite_publisher publishers = record { publish = publish_to_all publishers }

module _ {S P X : Type 0} where
  -- A call on the store, and one on the publisher, from the worker, which holds both.
  abbrev pub on_store : Exec S X → Exec (S × P) X
  on_store f w = let (r, s) = f w.0 in (r, (s, w.1))

  abbrev pub on_publisher : Exec P X → Exec (S × P) X
  on_publisher f w = let (r, p) = f w.1 in (r, (w.0, p))

module _ {S P A : Type 0} where
  -- The loop of `Deliver`: it stops at the first event that fails.
  unfoldable pub deliver_each : Store S A → EventPublisher P → List OutboxEvent → Exec (S × P) Done
  deliver_each store publisher [] = pure tt
  deliver_each store publisher (event ∷ events) = do
    on_publisher (publisher.publish event)
    on_store (store.mark_published event.id)
    deliver_each store publisher events

  -- `OutboxWorker.Deliver`
  unfoldable pub deliver : Store S A → EventPublisher P → ℕ → Exec (S × P) Done
  unfolding deliver_each
  deliver store publisher batch_size = do
    events ← on_store (store.claim_outbox batch_size)
    deliver_each store publisher events
