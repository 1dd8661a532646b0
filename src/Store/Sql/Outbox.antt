-- ===== src/Store/Sql/Outbox.antt =====
-- internal/store/postgres.go: the outbox and webhook methods of `PostgresStore`.
use payment_ledger_platform.Base.{
  ℕ, ◌+◌, Bool, true, false, ◌&&◌, String, List, [], ◌∷◌, map, take, Option, none, some, ltb, leb,
  if◌then◌else◌,
}
use payment_ledger_platform.Base.Dict.{Dict, lookup, insert}
use payment_ledger_platform.Error.{ok, Done, and_then, Exec}
use payment_ledger_platform.Amount.{Decimal}
use payment_ledger_platform.Domain.Outbox.{OutboxEvent}
use payment_ledger_platform.Store.Sql.Tables.{EventRow, Tables, Postgres, Database, alone}
use payment_ledger_platform.Store.Sql.Rows.{stored}
use payment_ledger_platform.Store.Sql.Inserts.{insert_event}

abbrev pub is_null : {X : Type 0} → Option X → Bool
is_null none = true
is_null (some x) = false

-- `claimed_at IS NULL OR claimed_at < now() - interval '1 minute'`
abbrev pub is_free : ℕ → Option ℕ → Bool
is_free now none = true
is_free now (some claimed) = ltb (claimed + 60000000) now

-- The WHERE clause of the candidates.
abbrev pub is_due : ℕ → EventRow → Bool
is_due now row = is_null row.published_at && is_free now row.claimed_at

unfoldable pub due_rows : ℕ → Dict EventRow → Dict EventRow
due_rows now [] = []
due_rows now (e ∷ es) = let rest = due_rows now es in if is_due now e.1 then e ∷ rest else rest

-- `ORDER BY created_at`, which leaves the order of equal instants to the scan.
unfoldable pub put_by_age : String × EventRow → Dict EventRow → Dict EventRow
put_by_age e [] = e ∷ []
put_by_age e (x ∷ xs) =
    let rest = put_by_age e xs in if leb e.1.created_at x.1.created_at then e ∷ x ∷ xs else x ∷ rest

unfoldable pub by_age : Dict EventRow → Dict EventRow
unfolding put_by_age
by_age [] = []
by_age (e ∷ es) = put_by_age e (by_age es)

-- An event as `ClaimOutbox` scans it.
abbrev pub event_of_row : String × EventRow → OutboxEvent
event_of_row (id, row) = record {
  id = id;
  aggregate_id = row.aggregate_id;
  event_type = row.event_type;
  payload = row.payload;
  published = false;
}

-- `UPDATE outbox_events SET claimed_at = now()` for the candidates.
unfoldable pub claim_rows : ℕ → Dict EventRow → Dict EventRow → Dict EventRow
claim_rows now [] table = table
claim_rows now ((id, row) ∷ rows) table =
    claim_rows now rows (insert id (record row { claimed_at = some now }) table)

module _ {A : Type 0} (server : Postgres A) where
  -- The candidates of a claim.
  unfoldable pub candidates : ℕ → ℕ → Tables A → Dict EventRow
  unfolding due_rows by_age
  candidates now n t = take n (by_age (due_rows now (server.scan_events t.outbox_events)))

  unfoldable pub claim_outbox : ℕ → Exec (Database A) (List OutboxEvent)
  unfolding candidates claim_rows
  claim_outbox n = alone server λ now t.
      let rows = candidates now n t in
      ok (
        server.returned (map event_of_row rows),
        record t { outbox_events = claim_rows now rows t.outbox_events },
      )

  -- `UPDATE outbox_events SET published_at = now() WHERE id = $1`, which may meet no row.
  unfoldable pub mark_published : String → Exec (Database A) Done
  mark_published id = alone server λ now t. and_then (stored server (server.uuid id)) λ key.
      elim (lookup key t.outbox_events) [
        | none ↦ ok (tt, t)
        | some row ↦ ok (
          tt,
          record t {
            outbox_events = insert key (record row { published_at = some now }) t.outbox_events;
          },
        )
      ]

  -- `INSERT … ON CONFLICT DO NOTHING`, and whether a row was inserted.
  unfoldable pub register_webhook : String → Exec (Database A) Bool
  register_webhook id = alone server λ now t. elim (lookup id t.processed_webhooks) [
    | some _ ↦ ok (false, t)
    | none ↦ ok (true, record t { processed_webhooks = insert id tt t.processed_webhooks })
  ]

  unfoldable pub enqueue : ⦃d : Decimal A⦄ → OutboxEvent → Exec (Database A) Done
  unfolding insert_event
  enqueue event = alone server λ now. insert_event server now event.aggregate_id event
