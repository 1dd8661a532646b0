-- ===== src/Store/Sql/Accepts.antt =====
-- internal/store/postgres.go: the entries that the ledger's table accepts.
pub mod Commands
use payment_ledger_platform.Base.{
  ◌≡◌, ◌≢◌, refl, sym, ◌∙◌, ap, subst, inl, inr, ℕ, suc, Bool, true, false, not, ◌||◌, String, ◌==◌,
  eq_iff, List, [], ◌∷◌, ◌++◌, Option, none, some, if◌then◌else◌, All, All-map, Bool-cases, arith,
}
use payment_ledger_platform.Base.Dict.{Dict, lookup, insert, contains}
use payment_ledger_platform.Error.{Error, Result, ok, err, Done, and_then}
use payment_ledger_platform.Amount.{Decimal, Meaning}
use payment_ledger_platform.Domain.Ledger.{LedgerEntry, is_malformed}
use payment_ledger_platform.Domain.Ledger.Balance.{OneSided, is_malformed_iff}
use payment_ledger_platform.Store.Sql.Tables.{
  PaymentRow, EntryRow, Tables, Postgres, Database, statement,
}
use payment_ledger_platform.Store.Sql.Inserts.{insert_entry, entry_known, entry_row}
use payment_ledger_platform.Store.Sql.Payments.{insert_entries}
use payment_ledger_platform.Store.Sql.Refines.Reads.{IsUp}

module _ {A : Type 0} (server : Postgres A) where
  -- The columns store the entry as it is, and its payment is there.
  abbrev pub FitsColumns : Dict (PaymentRow A) → LedgerEntry A → Type 0
  FitsColumns payments e =
      (server.uuid e.id ≡ some e.id)
      × (server.uuid e.payment_id ≡ some e.payment_id)
      × (server.char_3 e.currency ≡ some e.currency)
      × (server.numeric e.debit ≡ some e.debit)
      × (server.numeric e.credit ≡ some e.credit)
      × (contains e.payment_id payments ≡ true)

module _ {A : Type 0} where
  -- No two of the entries have one identifier, and no row has one of theirs.
  abbrev pub AreNew : List (LedgerEntry A) → List (EntryRow A) → Type 0
  AreNew [] rows = Unit
  AreNew (e ∷ es) rows =
      (entry_known e.id rows ≡ false) × All (λ f. e.id ≢ f.id) es × AreNew es rows

  entry_known-append :
      (id : String) (rows : List (EntryRow A)) (row : EntryRow A)
      → row.id ≢ id
      → entry_known id rows ≡ false
      → entry_known id (rows ++ row ∷ []) ≡ false
  entry_known-append id [] row ne h = ground (arith, eq_iff row.id id)
  entry_known-append id (x ∷ rows) row ne h = ground (arith, entry_known-append id rows row ne)

  AreNew-append :
      (es : List (LedgerEntry A)) (rows : List (EntryRow A)) (row : EntryRow A)
      → All (λ f. row.id ≢ f.id) es
      → AreNew es rows
      → AreNew es (rows ++ row ∷ [])
  AreNew-append [] rows row other h = tt
  AreNew-append (e ∷ es) rows row other h =
      (entry_known-append e.id rows row other.0 h.0, h.1, AreNew-append es rows row other.1 h.2)

module _ {A V : Type 0} ⦃d : Decimal A⦄ (m : Meaning d V) (server : Postgres A) where
  abbrev row_of : LedgerEntry A → EntryRow A
  row_of e = entry_row e e.id (some e.payment_id) e.currency e.debit e.credit

  insert_entry-accepts :
      (e : LedgerEntry A) (t : Tables A)
      → FitsColumns server t.payments e
      → OneSided m e
      → entry_known e.id t.ledger_entries ≡ false
      → insert_entry server true e t
        ≡ ok (tt, record t { ledger_entries = t.ledger_entries ++ row_of e ∷ [] })
  unfolding insert_entry is_malformed
  insert_entry-accepts e t fits sided new = ground (arith, fits, (is_malformed_iff m e).1 sided)

  -- The loop over entries that fit succeeds, and touches the ledger only.
  pub insert_entries-accepts :
      (es : List (LedgerEntry A)) (db : Database A)
      → IsUp server
      → All (FitsColumns server db.tables.payments) es
      → All (OneSided m) es
      → AreNew es db.tables.ledger_entries
      → let (r, db') = insert_entries server true es db in
        (r ≡ ok tt) × (db'.tables.outbox_events ≡ db.tables.outbox_events)
  unfolding insert_entries statement
  insert_entries-accepts [] db up fit sided new = (refl, refl)
  insert_entries-accepts (e ∷ es) db up fit sided new =
      let t = record (db.tables) { ledger_entries = db.tables.ledger_entries ++ row_of e ∷ [] } in
      let db' : Database A = record { tables = t; sent = suc db.sent } in
      ground (
        arith,
        up db.sent,
        insert_entry-accepts e db.tables fit.0 sided.0 new.0,
        insert_entries-accepts es db' up fit.1 sided.1
            (AreNew-append es db.tables.ledger_entries (row_of e) new.1 new.2),
      )
