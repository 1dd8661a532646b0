-- ===== src/Store/Sql/Claims.antt =====
-- internal/store/postgres.go: which events `ClaimOutbox` returns, and for how long it keeps them from the next
-- claim.
use payment_ledger_platform.Base.{
  ◌≡◌, ◌≢◌, refl, sym, ◌∙◌, ap, subst, inl, inr, ℕ, ◌+◌, ◌≤◌, true, false, String, List, [], ◌∷◌,
  map, some, Bool-cases, All, All-map, All-take, arith,
}
use payment_ledger_platform.Base.Dict.{Dict, lookup}
use payment_ledger_platform.Error.{ok}
use payment_ledger_platform.Domain.Outbox.{OutboxEvent}
use payment_ledger_platform.Store.Sql.Abstract.{event_in_memory, in_memory}
use payment_ledger_platform.Store.Sql.Refines.Values.{lookup-map_values}
use payment_ledger_platform.Store.Sql.Leases.{
  IsRowOf, claim_rows-IsLeased, leased-not_due, claim_rows-in_memory,
}
use payment_ledger_platform.Store.Sql.Tables.{
  EventRow, Tables, Postgres, Database, statement, alone,
}
use payment_ledger_platform.Store.Sql.Outbox.{
  event_of_row, is_due, due_rows, put_by_age, by_age, claim_rows, candidates, claim_outbox,
}

module _ {ℓ} (P : String × EventRow → Type ℓ) where
  All-put_by_age :
      (e : String × EventRow) (es : Dict EventRow) → P e → All P es → All P (put_by_age e es)
  unfolding put_by_age
  All-put_by_age e [] p ps = (p, tt)
  All-put_by_age e (x ∷ xs) p ps = ground (arith, All-put_by_age e xs p ps.1)

  All-by_age : (es : Dict EventRow) → All P es → All P (by_age es)
  unfolding by_age
  All-by_age [] ps = tt
  All-by_age (e ∷ es) ps = All-put_by_age e (by_age es) ps.0 (All-by_age es ps.1)

  -- What holds of the rows of a table holds of those that are due, and they are due.
  All-due_rows :
      (now : ℕ) (es : Dict EventRow)
      → All P es
      → All (λ e. P e × (is_due now e.1 ≡ true)) (due_rows now es)
  unfolding due_rows
  All-due_rows now [] ps = tt
  All-due_rows now (e ∷ es) ps = elim (Bool-cases (is_due now e.1)) [
    | inl due ↦ rw due ((ps.0, due), All-due_rows now es ps.1)
    | inr not_due ↦ rw not_due (All-due_rows now es ps.1)
  ]

-- The scan of a table meets the table's rows only, and an UPDATE returns the rows that it changed.
pub record Orders {A : Type 0} (server : Postgres A) : Type 1 where
  pub scanned : (table : Dict EventRow) → All (IsRowOf table) (server.scan_events table)
  pub returned_only :
      (P : OutboxEvent → Type 0) (es : List OutboxEvent) → All P es → All P (server.returned es)

All-map_list :
    {X Y : Type 0} (f : X → Y) (P : Y → Type 0) (xs : List X)
    → All (λ x. P (f x)) xs
    → All P (map f xs)
All-map_list f P [] h = tt
All-map_list f P (x ∷ xs) h = (h.0, All-map_list f P xs h.1)

module _ {A : Type 0} (server : Postgres A) where
  pub candidates-due :
      (now n : ℕ) (t : Tables A)
      → Orders server
      → All (λ e. IsRowOf t.outbox_events e × (is_due now e.1 ≡ true)) (candidates server now n t)
  unfolding candidates
  candidates-due now n t orders =
      All-take _ n (by_age (due_rows now (server.scan_events t.outbox_events))) (
        All-by_age _ (due_rows now (server.scan_events t.outbox_events)) (
          All-due_rows _ now (server.scan_events t.outbox_events) (orders.scanned t.outbox_events)))

  abbrev pub claimed : ℕ → Database A → Dict EventRow
  claimed n db = candidates server (server.clock db.sent) n db.tables

  pub claim_outbox-ok :
      (n : ℕ) (db : Database A) (events : List OutboxEvent)
      → (claim_outbox server n db).0 ≡ ok events
      → (events ≡ server.returned (map event_of_row (claimed n db)))
        × ((claim_outbox server n db).1.tables ≡ (record (db.tables) {
          outbox_events = claim_rows (server.clock db.sent) (claimed n db) db.tables.outbox_events;
        }))
  unfolding claim_outbox alone statement
  claim_outbox-ok n db events h = ground arith

  -- What holds of the candidates holds of the events that the claim returns.
  pub All-claim :
      (n : ℕ) (db : Database A) (events : List OutboxEvent) (P : OutboxEvent → Type 0)
      → Orders server
      → (claim_outbox server n db).0 ≡ ok events
      → All (λ e. P (event_of_row e)) (claimed n db)
      → All P events
  All-claim n db events P orders h ps = subst (All P) (sym (claim_outbox-ok n db events h).0) (
      orders.returned_only P (map event_of_row (claimed n db))
        (All-map_list event_of_row P (claimed n db) ps))

  outbox-in_memory :
      (t : Tables A) (e : String × EventRow) (now : ℕ)
      → IsRowOf t.outbox_events e
      → is_due now e.1 ≡ true
      → lookup e.0 (in_memory t).outbox ≡ some (event_of_row e)
  unfolding in_memory
  outbox-in_memory t e now present due =
      ground (arith, lookup-map_values event_in_memory e.0 t.outbox_events)

  -- A claim of the SQL store that succeeds does not change the store in memory that the tables
  -- stand for, and each event that it returns is marked as unpublished and is the stored event
  -- with its id. (A scan meets rows of the table only, and an UPDATE returns rows that it
  -- changed only.)
  pub claim_outbox-in_memory :
      (n : ℕ) (db : Database A) (events : List OutboxEvent)
      → Orders server
      → (claim_outbox server n db).0 ≡ ok events
      → (in_memory (claim_outbox server n db).1.tables ≡ in_memory db.tables)
        × All
            (λ e. (e.published ≡ false) × (lookup e.id (in_memory db.tables).outbox ≡ some e))
            events
  unfolding in_memory
  claim_outbox-in_memory n db events orders h =
      let now = server.clock db.sent in
      let due = candidates-due now n db.tables orders in
      (
        ap in_memory (claim_outbox-ok n db events h).1
            ∙ ap (λ outbox. record (in_memory db.tables) { outbox = outbox })
                (claim_rows-in_memory now (claimed n db) db.tables.outbox_events
                  db.tables.outbox_events (All-map (λ e row. row.0) (claimed n db) due) refl),
        All-claim n db events _ orders h (
            All-map (λ e row. (refl, outbox-in_memory db.tables e now row.0 row.1)) (claimed n db)
              due),
      )

  -- When a claim of outbox events is followed by another one that starts at most a minute
  -- later, no event is returned by both. (A scan meets rows of the table only, and an UPDATE
  -- returns rows that it changed only.)
  pub claim_outbox-disjoint :
      (n more : ℕ) (db : Database A) (first second : List OutboxEvent)
      → Orders server
      → (claim_outbox server n db).0 ≡ ok first
      → (claim_outbox server more (claim_outbox server n db).1).0 ≡ ok second
      → server.clock (claim_outbox server n db).1.sent ≤ server.clock db.sent + 60000000
      → All (λ e. All (λ f. e.id ≢ f.id) second) first
  claim_outbox-disjoint n more db first second orders h h' soon =
      let now = server.clock db.sent in
      let db' = (claim_outbox server n db).1 in
      let table = claim_rows now (claimed n db) db.tables.outbox_events in
      All-claim n db first _ orders h (
        All-map
          (λ e leased. All-claim more db' second _ orders h' (
            All-map
              (λ f row.
                leased-not_due now (server.clock db'.sent) table e.0 f soon leased
                  (subst (λ t. IsRowOf t.outbox_events f) (claim_outbox-ok n db first h).1 row.0)
                  row.1)
              (claimed more db') (candidates-due (server.clock db'.sent) more db'.tables orders)))
          (claimed n db) (claim_rows-IsLeased now (claimed n db) db.tables.outbox_events))
