-- ===== src/Store/Sql/Complete.antt =====
-- internal/store/postgres.go: what `ClaimOutbox` does with the events of an earlier claim.
use payment_ledger_platform.Base.{
  ◌≡◌, refl, sym, ◌∙◌, ap, subst, inl, inr, ℕ, zero, suc, ◌+◌, ◌≤◌, ◌<◌, true, false, String, List,
  [], ◌∷◌, map, length, take, Bool-cases, All, All-map, Memᴰ, arith, leb,
}
use mathlib.Core.List.Memᴰ
use payment_ledger_platform.Base.Dict.{Dict}
use payment_ledger_platform.Error.{ok}
use payment_ledger_platform.Domain.Outbox.{OutboxEvent}
use payment_ledger_platform.Store.Sql.Tables.{EventRow, Postgres, Database}
use payment_ledger_platform.Store.Sql.Abstract.{map_values, event_in_memory}
use payment_ledger_platform.Store.Sql.Refines.Values.{lookup-map_values}
use payment_ledger_platform.Store.Sql.Leases.{
  IsRowOf, IsLeased, claim_rows-IsLeased, claim_rows-in_memory,
}
use payment_ledger_platform.Store.Sql.Claims.{
  Orders, candidates-due, claimed, claim_outbox-ok, All-claim,
}
use payment_ledger_platform.Store.Sql.Outbox.{
  event_of_row, is_due, due_rows, put_by_age, by_age, claim_rows, candidates, claim_outbox,
}

module _ (e : String × EventRow) where
  Memᴰ-due_rows :
      (now : ℕ) (es : Dict EventRow) → is_due now e.1 ≡ true → Memᴰ e es → Memᴰ e (due_rows now es)
  unfolding due_rows
  Memᴰ-due_rows now [] due m = elim m [ ]
  Memᴰ-due_rows now (x ∷ es) due (Memᴰ.head same) =
      rw (ap (λ y. is_due now y.1) (sym same) ∙ due) (Memᴰ.head same)
  Memᴰ-due_rows now (x ∷ es) due (Memᴰ.tail m) = elim (Bool-cases (is_due now x.1)) [
    | inl also ↦ rw also (Memᴰ.tail (Memᴰ-due_rows now es due m))
    | inr not_due ↦ rw not_due (Memᴰ-due_rows now es due m)
  ]

  put_by_age-self : (es : Dict EventRow) → Memᴰ e (put_by_age e es)
  unfolding put_by_age
  put_by_age-self [] = Memᴰ.head refl
  put_by_age-self (x ∷ xs) = elim (Bool-cases (leb e.1.created_at x.1.created_at)) [
    | inl older ↦ rw older (Memᴰ.head refl)
    | inr younger ↦ rw younger (Memᴰ.tail (put_by_age-self xs))
  ]

  Memᴰ-put_by_age :
      (x : String × EventRow) (es : Dict EventRow) → Memᴰ e es → Memᴰ e (put_by_age x es)
  unfolding put_by_age
  Memᴰ-put_by_age x [] m = elim m [ ]
  Memᴰ-put_by_age x (y ∷ ys) (Memᴰ.head same) =
      elim (Bool-cases (leb x.1.created_at y.1.created_at)) [
        | inl older ↦ rw older (Memᴰ.tail (Memᴰ.head same))
        | inr younger ↦ rw younger (Memᴰ.head same)
      ]
  Memᴰ-put_by_age x (y ∷ ys) (Memᴰ.tail m) = elim (Bool-cases (leb x.1.created_at y.1.created_at)) [
    | inl older ↦ rw older (Memᴰ.tail (Memᴰ.tail m))
    | inr younger ↦ rw younger (Memᴰ.tail (Memᴰ-put_by_age x ys m))
  ]

  Memᴰ-by_age : (es : Dict EventRow) → Memᴰ e es → Memᴰ e (by_age es)
  unfolding by_age
  Memᴰ-by_age [] m = elim m [ ]
  Memᴰ-by_age (x ∷ es) (Memᴰ.head same) =
      subst (λ y. Memᴰ e (put_by_age y (by_age es))) same (put_by_age-self (by_age es))
  Memᴰ-by_age (x ∷ es) (Memᴰ.tail m) = Memᴰ-put_by_age x (by_age es) (Memᴰ-by_age es m)

length-put_by_age :
    (e : String × EventRow) (es : Dict EventRow) → length (put_by_age e es) ≡ suc (length es)
unfolding put_by_age
length-put_by_age e [] = refl
length-put_by_age e (x ∷ xs) = ground (arith, length-put_by_age e xs)

length-by_age : (es : Dict EventRow) → length (by_age es) ≡ length es
unfolding by_age
length-by_age [] = refl
length-by_age (e ∷ es) = ground (arith, length-put_by_age e (by_age es), length-by_age es)

take_all : {X : Type 0} (n : ℕ) (xs : List X) → length xs ≤ n → take n xs ≡ xs
take_all zero [] h = refl
take_all zero (x ∷ xs) h = ground (arith, h)
take_all (suc n) [] h = refl
take_all (suc n) (x ∷ xs) h = ap (λ rest. x ∷ rest) (take_all n xs (omega (arith, h)))

All-zip :
    {X : Type 0} (P Q : X → Type 0) (xs : List X) → All P xs → All Q xs → All (λ x. P x × Q x) xs
All-zip P Q [] p q = tt
All-zip P Q (x ∷ xs) p q = ((p.0, q.0), All-zip P Q xs p.1 q.1)

-- The scan of a table meets all the table's rows, and an UPDATE returns all the rows that it
-- changed.
pub record Complete {A : Type 0} (server : Postgres A) : Type 0 where
  pub scans_all :
      (table : Dict EventRow) (e : String × EventRow)
      → IsRowOf table e
      → Memᴰ e (server.scan_events table)
  pub returns_all :
      (e : OutboxEvent) (es : List OutboxEvent) → Memᴰ e es → Memᴰ e (server.returned es)

module _ {A : Type 0} (server : Postgres A) (complete : Complete server) where
  -- A due row of the table is claimed, when no more are due than the claim may take.
  due-claimed :
      (n : ℕ) (db : Database A) (e : String × EventRow)
      → IsRowOf db.tables.outbox_events e
      → is_due (server.clock db.sent) e.1 ≡ true
      → length (due_rows (server.clock db.sent) (server.scan_events db.tables.outbox_events)) ≤ n
      → Memᴰ e (claimed server n db)
  unfolding candidates
  due-claimed n db e present due few =
      let now = server.clock db.sent in
      let rows = due_rows now (server.scan_events db.tables.outbox_events) in
      subst (Memᴰ e) (sym (take_all n (by_age rows) (ground (arith, few, length-by_age rows)))) (
        Memᴰ-by_age e rows (
          Memᴰ-due_rows e now (server.scan_events db.tables.outbox_events) due
            (complete.scans_all db.tables.outbox_events e present)))

  due-returned :
      (n : ℕ) (db : Database A) (events : List OutboxEvent) (e : String × EventRow)
      → (claim_outbox server n db).0 ≡ ok events
      → IsRowOf db.tables.outbox_events e
      → is_due (server.clock db.sent) e.1 ≡ true
      → length (due_rows (server.clock db.sent) (server.scan_events db.tables.outbox_events)) ≤ n
      → Memᴰ (event_of_row e) events
  due-returned n db events e h present due few =
      subst (Memᴰ (event_of_row e)) (sym (claim_outbox-ok server n db events h).0) (
        complete.returns_all (event_of_row e) (map event_of_row (claimed server n db))
          (Memᴰ.map event_of_row (due-claimed n db e present due few)))

  -- What an event becomes under a claim is due again a minute later, and is the same event.
  claimed_again :
      (now later : ℕ) (table table' : Dict EventRow) (e : String × EventRow)
      → map_values event_in_memory table' ≡ map_values event_in_memory table
      → IsRowOf table e
      → is_due now e.1 ≡ true
      → IsLeased now table' e.0
      → now + 60000000 < later
      → (row : EventRow) × IsRowOf table' (e.0, row)
        × (is_due later row ≡ true)
        × (event_of_row (e.0, row) ≡ event_of_row e)
  claimed_again now later table table' e same present due (row, found, leased) late =
      let kept : event_in_memory e.0 row ≡ event_in_memory e.0 e.1 = ground (
        arith,
        found,
        present,
        lookup-map_values event_in_memory e.0 table,
        lookup-map_values event_in_memory e.0 table',
      ) in
      (
        row,
        found,
        ground (arith, leased, late, due, ap (λ x. x.published) kept),
        ap {A = OutboxEvent} (λ x. record x { published = false }) kept,
      )

  -- When a claim of outbox events succeeds, and the next one starts more than a minute later
  -- and succeeds, with no more events due then than it may take, each event that the first one
  -- returned is returned by the second one again, unchanged. (A scan meets the rows of the
  -- table, all of them and no other, and an UPDATE returns the rows that it changed, all of
  -- them and no other.)
  pub claim_outbox-again :
      (n more : ℕ) (db : Database A) (first second : List OutboxEvent)
      → Orders server
      → (claim_outbox server n db).0 ≡ ok first
      → (claim_outbox server more (claim_outbox server n db).1).0 ≡ ok second
      → server.clock db.sent + 60000000 < server.clock (claim_outbox server n db).1.sent
      → length (
          due_rows
            (server.clock (claim_outbox server n db).1.sent)
            (server.scan_events (claim_outbox server n db).1.tables.outbox_events))
        ≤ more
      → All (λ e. Memᴰ e second) first
  claim_outbox-again n more db first second orders h h' late few =
      let now = server.clock db.sent in
      let db' = (claim_outbox server n db).1 in
      let rows = claimed server n db in
      let table = db.tables.outbox_events in
      let table' = claim_rows now rows table in
      let after : db'.tables.outbox_events ≡ table' =
        ap (λ t. t.outbox_events) (claim_outbox-ok server n db first h).1 in
      let due = candidates-due server now n db.tables orders in
      let same =
        claim_rows-in_memory now rows table table (All-map (λ e row. row.0) rows due) refl in
      All-claim server n db first (λ e. Memᴰ e second) orders h
        (All-map
          (λ e both.
            let (row, present, again, kept) =
              claimed_again now (server.clock db'.sent) table table' e same both.0.0 both.0.1 both.1
                late in
            subst (λ x. Memᴰ x second) kept
              (due-returned more db' second (e.0, row) h'
                (subst (λ t. IsRowOf t (e.0, row)) (sym after) present) again few))
          rows (All-zip _ _ rows due (claim_rows-IsLeased now rows table)))
