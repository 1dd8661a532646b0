-- ===== src/Store/Sql/Refines/Balance.antt =====
-- internal/store/postgres.go: the balance as a SUM against the ledger's net of an account.
use payment_ledger_platform.Base.{◌≡◌, String, List, [], ◌∷◌, some, arith}
use payment_ledger_platform.Amount.{Decimal, Meaning}
use payment_ledger_platform.Store.Sql.Tables.{EntryRow, Tables, Postgres}
use payment_ledger_platform.Store.Sql.Abstract.{in_memory, entries_in_memory, Columns}
use payment_ledger_platform.Store.Sql.Updates.{sum_rows}
use payment_ledger_platform.Store.Memory.Payouts.{sum_account}
use payment_ledger_platform.Domain.Ledger.Accounts.{net}
use payment_ledger_platform.Store.Balance.{sum_account-net}
use payment_ledger_platform.Amount.Laws.{zero-plus}

module _ {A V : Type 0} ⦃d : Decimal A⦄ (m : Meaning d V) (server : Postgres A)
    (laws : Columns server) where
  pub sum_rows-net :
      (account currency stored : String) (rows : List (EntryRow A))
      → server.char_3 currency ≡ some stored
      → m.value (sum_rows server account currency rows)
        ≡ net m account stored (entries_in_memory rows)
  unfolding sum_rows entries_in_memory
  sum_rows-net account currency stored [] h = m.value-zero
  sum_rows-net account currency stored (row ∷ rows) h = ground (
    arith,
    laws.same_char_stored row.currency currency stored h,
    sum_rows-net account currency stored rows h,
    m.value-add (d.sub row.credit row.debit) (sum_rows server account currency rows),
    m.value-sub row.credit row.debit,
    zero-plus m.numbers (net m account stored (entries_in_memory rows)),
  )

  -- The two stores compare the same balance with an amount.
  pub less_than-balance :
      (account currency stored : String) (amount : A) (t : Tables A)
      → server.char_3 currency ≡ some stored
      → d.less_than (sum_rows server account currency t.ledger_entries) amount
        ≡ d.less_than (sum_account account stored d.zero (in_memory t).ledger) amount
  unfolding in_memory
  less_than-balance account currency stored amount t h = ground (
    arith,
    m.less_than_by_value (sum_rows server account currency t.ledger_entries) amount,
    m.less_than_by_value (sum_account account stored d.zero (in_memory t).ledger) amount,
    sum_rows-net account currency stored t.ledger_entries h,
    sum_account-net m account stored d.zero (in_memory t).ledger,
    m.value-zero,
    zero-plus m.numbers (net m account stored (in_memory t).ledger),
  )
