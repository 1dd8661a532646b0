-- ===== src/Store/Memory/Outbox.antt =====
-- internal/store/store.go: the outbox and the webhook register of `MemoryStore`.
use payment_ledger_platform.Base.{
  ℕ, Bool, true, false, String, List, [], ◌∷◌, ◌++◌, none, some, length, eqb, if◌then◌else◌,
}
use payment_ledger_platform.Base.Dict.{Dict, lookup, insert}
use payment_ledger_platform.Error.{not_found, ok, Done, or_error, Exec, lift, gets, modify, ◌>>=◌}
use payment_ledger_platform.Domain.Outbox.{OutboxEvent}
use payment_ledger_platform.Store.State.{MemoryStore}

-- The loop of `ClaimOutbox`: it stops when the result has `n` events.
unfoldable pub claim : ℕ → List OutboxEvent → Dict OutboxEvent → List OutboxEvent
claim n result [] = result
claim n result (e ∷ es) =
    let skipped = claim n result es in
    let taken = result ++ e.1 ∷ [] in
    let more = claim n taken es in
    if e.1.published then skipped else if eqb (length taken) n then taken else more

module _ {A : Type 0} where
  unfoldable pub enqueue : OutboxEvent → Exec (MemoryStore A) Done
  enqueue event = modify λ s. record s { outbox = insert event.id event s.outbox }

  -- `visit` is the order of a `range` over the map, which Go leaves open.
  unfoldable pub claim_outbox :
      (Dict OutboxEvent → Dict OutboxEvent) → ℕ → Exec (MemoryStore A) (List OutboxEvent)
  unfolding claim
  claim_outbox visit n = gets λ s. claim n [] (visit s.outbox)

  unfoldable pub mark_published : String → Exec (MemoryStore A) Done
  mark_published id = do
    found ← gets λ s. lookup id s.outbox
    e ← lift (or_error found not_found)
    modify λ s. record s { outbox = insert id (record e { published = true }) s.outbox }

  -- False for an event that was registered before.
  unfoldable pub register_webhook : String → Exec (MemoryStore A) Bool
  register_webhook id s = elim (lookup id s.webhooks) [
    | some _ ↦ (ok false, s)
    | none ↦ (ok true, record s { webhooks = insert id tt s.webhooks })
  ]
