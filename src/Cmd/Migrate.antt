-- ===== src/Cmd/Migrate.antt =====
-- cmd/migrate/main.go: the program that applies the files of migrations to a database.
pub mod Rerun
use Prim.Native.String
use payment_ledger_platform.Base.{
  ℕ, suc, Bool, true, false, String, ◌==◌, List, [], ◌∷◌, ◌++◌, Option, none, some, if◌then◌else◌,
}
use payment_ledger_platform.Base.Dict.{Dict, lookup, insert, contains}
use payment_ledger_platform.Error.{
  Error, external, message, Result, ok, err, Done, refuse_if, and_then, Exec, pure, lift, modify,
  ◌>>=◌, ◌>>◌,
}
use payment_ledger_platform.Service.Metrics.{sort_strings}

-- The database, of whatever schema `D`, with the rows of schema_migrations, which is empty where
-- the table is missing; how many statements were sent, and what was printed.
pub record Migrations (D : Type 0) : Type 0 where
  pub schema : D
  pub applied : Dict Done
  pub sent : ℕ
  pub printed : List String

-- What the program is started with. PostgreSQL executes the statements of one text as a whole or
-- not at all; `outage` is the failure of a statement to reach it, by its number.
pub record Environment (D : Type 0) : Type 0 where
  pub database_url : String
  pub connected : Result Done
  pub glob : Result (List String)
  pub read_file : String → Result String
  pub execute : String → D → Result D
  pub duplicate_filename : Error
  pub outage : ℕ → Option Error

module _ {D : Type 0} (env : Environment D) where
  unfoldable pub query :
      {X : Type 0} → (Migrations D → Result (X × Migrations D)) → Exec (Migrations D) X
  query run s = elim (env.outage s.sent) [
    | some e ↦ (err e, record s { sent = suc s.sent })
    | none ↦ elim (run s) [
      | err e ↦ (err e, record s { sent = suc s.sent })
      | ok (x, s') ↦ (ok x, record s' { sent = suc s.sent })
    ]
  ]

  abbrev print_line : String → String → Exec (Migrations D) Done
  print_line verb file =
      modify λ s. record s { printed = s.printed ++ String.◌++◌ verb (String.◌++◌ " " file) ∷ [] }

  -- `fmt.Errorf("%s: %w", file, err)`
  abbrev named : {X : Type 0} → String → Exec (Migrations D) X → Exec (Migrations D) X
  named file call s =
      let (r, s') = call s in
      elim r [
        | ok x ↦ (ok x, s')
        | err e ↦ (err (external (String.◌++◌ file (String.◌++◌ ": " (message e)))), s')
      ]

  abbrev record_file : String → Migrations D → Result (Done × Migrations D)
  record_file file s =
      if contains file s.applied
      then err env.duplicate_filename
      else ok (tt, record s { applied = insert file tt s.applied })

  -- The body of the loop, for a file that is not applied.
  unfoldable pub apply_file : String → Exec (Migrations D) Done
  unfolding query message
  apply_file file = do
    text ← lift (env.read_file file)
    named file (
        query
          λ s. and_then (env.execute text s.schema) λ schema. ok (tt, record s { schema = schema }))
    query (record_file file)
    print_line "applied" file

  -- The body of the loop over the files.
  unfoldable pub visit_file : String → Exec (Migrations D) Done
  unfolding query apply_file
  visit_file file = do
    applied ← query λ s. ok (contains file s.applied, s)
    (if applied then print_line "skipped" file else apply_file file)

  unfoldable pub migrate_files : List String → Exec (Migrations D) Done
  unfolding visit_file
  migrate_files [] = pure tt
  migrate_files (file ∷ files) = do visit_file file; migrate_files files

  -- `main`, up to its panics.
  unfoldable pub main : Exec (Migrations D) Done
  unfolding query migrate_files sort_strings
  main = do
    lift (refuse_if (env.database_url == "") (external "DATABASE_URL is required"))
    lift env.connected
    query λ s. ok (tt, s)
    files ← lift env.glob
    migrate_files (sort_strings files)
