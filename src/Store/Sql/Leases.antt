-- ===== src/Store/Sql/Leases.antt =====
-- internal/store/postgres.go: what the UPDATE of `ClaimOutbox` does to the table of events.
use payment_ledger_platform.Base.{
  ◌≡◌, ◌≢◌, refl, sym, ◌∙◌, ap, subst, inl, inr, ℕ, ◌+◌, ◌≤◌, true, String, ◌==◌, [], ◌∷◌, some,
  Bool-cases, All, arith, eq_iff,
}
use payment_ledger_platform.Base.Dict.{Dict, lookup, insert, lookup-insert, lookup-insert_self}
use payment_ledger_platform.Store.Sql.Abstract.{map_values, event_in_memory}
use payment_ledger_platform.Store.Sql.Refines.Values.{map_values-insert, lookup-map_values}
use payment_ledger_platform.Store.Sql.Tables.{EventRow}
use payment_ledger_platform.Store.Sql.Outbox.{is_due, claim_rows}

-- A row of the table, as the scan meets it.
abbrev pub IsRowOf : Dict EventRow → String × EventRow → Type 0
IsRowOf table e = lookup e.0 table ≡ some e.1

-- The event is claimed since the instant.
abbrev pub IsLeased : ℕ → Dict EventRow → String → Type 0
IsLeased now table id =
    (row : EventRow) × (lookup id table ≡ some row) × (row.claimed_at ≡ some now)

insert-IsLeased :
    (now : ℕ) (id other : String) (row : EventRow) (table : Dict EventRow)
    → IsLeased now table id
    → IsLeased now (insert other (record row { claimed_at = some now }) table) id
insert-IsLeased now id other row table (old, found, leased) = elim (Bool-cases (other == id)) [
  | inl same ↦ (
    record row { claimed_at = some now },
    ground (arith, same, lookup-insert other id (record row { claimed_at = some now }) table),
    refl,
  )
  | inr differs ↦ (
    old,
    ground (
      arith,
      differs,
      found,
      lookup-insert other id (record row { claimed_at = some now }) table,
    ),
    leased,
  )
]

claim_rows_keeps :
    (now : ℕ) (rows table : Dict EventRow) (id : String)
    → IsLeased now table id
    → IsLeased now (claim_rows now rows table) id
unfolding claim_rows
claim_rows_keeps now [] table id h = h
claim_rows_keeps now ((other, row) ∷ rows) table id h =
    claim_rows_keeps now rows (insert other (record row { claimed_at = some now }) table) id
      (insert-IsLeased now id other row table h)

pub claim_rows-IsLeased :
    (now : ℕ) (rows table : Dict EventRow)
    → All (λ e. IsLeased now (claim_rows now rows table) e.0) rows
unfolding claim_rows
claim_rows-IsLeased now [] table = tt
claim_rows-IsLeased now ((id, row) ∷ rows) table =
    let row' = record row { claimed_at = some now } in
    (
      claim_rows_keeps now rows (insert id row' table) id
          (row', lookup-insert_self id row' table, refl),
      claim_rows-IsLeased now rows (insert id row' table),
    )

-- What is claimed is not due before the lease is over.
pub leased-not_due :
    (now later : ℕ) (table : Dict EventRow) (id : String) (e : String × EventRow)
    → later ≤ now + 60000000
    → IsLeased now table id
    → IsRowOf table e
    → is_due later e.1 ≡ true
    → id ≢ e.0
leased-not_due now later table id e soon (row, found, leased) present due same =
    ground (arith, found, leased, subst (λ key. lookup key table ≡ some e.1) (sym same) present)

insert_same :
    {V : Type 0} (k : String) (v : V) (m : Dict V) → lookup k m ≡ some v → insert k v m ≡ m
unfolding lookup insert
insert_same k v [] h = ground arith
insert_same k v (e ∷ m) h = ground (arith, eq_iff e.0 k, insert_same k v m)

-- A claim is forgotten by the abstraction.
pub claim_rows-in_memory :
    (now : ℕ) (rows table start : Dict EventRow)
    → All (IsRowOf start) rows
    → map_values event_in_memory table ≡ map_values event_in_memory start
    → map_values event_in_memory (claim_rows now rows table) ≡ map_values event_in_memory start
unfolding claim_rows
claim_rows-in_memory now [] table start present same = same
claim_rows-in_memory now ((id, row) ∷ rows) table start present same =
    let row' = record row { claimed_at = some now } in
    claim_rows-in_memory now rows (insert id row' table) start present.1 (
      map_values-insert event_in_memory id row' table
      ∙ ap (insert id (event_in_memory id row)) same
      ∙ insert_same id (event_in_memory id row) (map_values event_in_memory start)
          (ground (arith, lookup-map_values event_in_memory id start, present.0)))
