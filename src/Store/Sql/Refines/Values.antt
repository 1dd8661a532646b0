-- ===== src/Store/Sql/Refines/Values.antt =====
-- internal/store/postgres.go: the lemmas on the abstraction of tables.
use payment_ledger_platform.Base.{
  ◌≡◌, refl, inl, inr, Bool, true, false, String, ◌==◌, List, [], ◌∷◌, ◌++◌, none, some, arith,
  Bool-cases, eq_iff, ap,
}
use payment_ledger_platform.Base.Dict.{Dict, lookup, insert}
use payment_ledger_platform.Error.{Result, ok, err}
use payment_ledger_platform.Store.Sql.Tables.{EntryRow}
use payment_ledger_platform.Store.Sql.Rows.{or_empty, null_if_empty}
use payment_ledger_platform.Store.Sql.Abstract.{map_values, entries_in_memory}

module _ {V W : Type 0} (f : String → V → W) where
  pub lookup-map_values :
      (k : String) (m : Dict V)
      → lookup k (map_values f m) ≡ elim (lookup k m) [ none ↦ none | some v ↦ some (f k v) ]
  unfolding lookup map_values
  lookup-map_values k [] = refl
  lookup-map_values k (e ∷ m) = elim (Bool-cases (e.0 == k)) [
    | inl same ↦ rw same (ap (λ key. some (f key e.1)) ((eq_iff e.0 k).0 same))
    | inr other ↦ ground (arith, lookup-map_values k m)
  ]

  pub map_values-insert :
      (k : String) (v : V) (m : Dict V)
      → map_values f (insert k v m) ≡ insert k (f k v) (map_values f m)
  unfolding insert map_values
  map_values-insert k v [] = refl
  map_values-insert k v (e ∷ m) = ground (arith, map_values-insert k v m)

abbrev pub succeeds : {X : Type 0} → Result X → Bool
succeeds (ok x) = true
succeeds (err e) = false

-- An empty reference is stored as NULL and read as empty.
pub or_empty-null_if_empty : (text : String) → or_empty (null_if_empty text) ≡ text
or_empty-null_if_empty text = ground (arith, eq_iff text "")

module _ {A : Type 0} where
  pub entries_in_memory-append :
      (rows more : List (EntryRow A))
      → entries_in_memory (rows ++ more) ≡ entries_in_memory rows ++ entries_in_memory more
  unfolding entries_in_memory
  entries_in_memory-append [] more = refl
  entries_in_memory-append (row ∷ rows) more = ground (arith, entries_in_memory-append rows more)
