-- ===== src/Examples/MigrateWitnesses.antt =====
-- The theorems on the program that migrates, with a schema that is the list of the executed texts.
use payment_ledger_platform.Base.{
  ◌≡◌, refl, ℕ, true, String, ◌==◌, List, [], ◌∷◌, Option, none, some, eqb, eq_iff, if◌then◌else◌,
  All, arith,
}
use payment_ledger_platform.Base.Dict.{lookup, insert, contains}
use payment_ledger_platform.Error.{Error, external, message, Result, ok, err}
use payment_ledger_platform.Cmd.Migrate.{
  Migrations, Environment, query, apply_file, visit_file, migrate_files,
}
use payment_ledger_platform.Cmd.Migrate.Rerun.{migrate-new_files, migrate_again, migrate_stuck}

-- The text of a file is its name, and a text that was executed is refused.
abbrev execute_once : String → List String → Result (List String)
execute_once text [] = ok (text ∷ [])
execute_once text (other ∷ texts) =
    if text == other then err (external "already exists") else ok (text ∷ other ∷ texts)

abbrev env_with : (ℕ → Option Error) → Environment (List String)
env_with outage = record {
  database_url = "postgres://ledger";
  connected = ok tt;
  glob = ok ("002.sql" ∷ "001.sql" ∷ []);
  read_file = λ file. ok file;
  execute = execute_once;
  duplicate_filename = external "duplicate key";
  outage = outage;
}

-- The insertion of the first file's name does not reach the database.
abbrev broken : Environment (List String)
broken = env_with λ k. if eqb k 2 then some (external "connection reset") else none

abbrev healthy : Environment (List String)
healthy = env_with λ k. none

abbrev fresh : Migrations (List String)
fresh = record { schema = []; applied = []; sent = 0; printed = [] }

abbrev half_done : Migrations (List String)
half_done = record {
  schema = "001.sql" ∷ [];
  applied = ("001.sql", tt) ∷ [];
  sent = 4;
  printed = "applied 001.sql" ∷ [];
}

abbrev files : List String
files = "001.sql" ∷ "002.sql" ∷ []

migrate-new_files_example :
    let (r, s') = migrate_files healthy files half_done in
    (r ≡ ok tt)
    × (s'.schema ≡ "002.sql" ∷ "001.sql" ∷ [])
    × All (λ file. contains file s'.applied ≡ true) files
unfolding lookup
migrate-new_files_example =
    migrate-new_files healthy files half_done ("002.sql" ∷ "001.sql" ∷ []) (λ k. refl)
      ((λ same. ground (arith, (eq_iff "001.sql" "002.sql").1 same), tt), (tt, tt)) refl

migrate_again_example :
    let s' = (migrate_files healthy files fresh).1 in
    let (r, s'') = migrate_files healthy files s' in
    (r ≡ ok tt) × (s''.schema ≡ s'.schema) × (s''.applied ≡ s'.applied)
unfolding migrate_files visit_file apply_file query lookup insert
migrate_again_example = migrate_again healthy healthy files fresh tt (λ k. refl) refl

migrate_stuck_example :
    let (r, s') = migrate_files broken files fresh in
    let (r', s'') = migrate_files healthy files s' in
    (r ≡ err (external "connection reset"))
    × (s'.schema ≡ "001.sql" ∷ [])
    × (r' ≡ err (external "001.sql: already exists"))
    × (s''.schema ≡ "001.sql" ∷ [])
    × (s''.applied ≡ [])
unfolding lookup message
migrate_stuck_example =
    migrate_stuck broken healthy "001.sql" "001.sql" ("002.sql" ∷ []) fresh ("001.sql" ∷ [])
      (external "connection reset") (external "already exists") refl refl refl refl refl refl
      (λ k. refl) refl refl
