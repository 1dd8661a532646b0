-- ===== src/Cmd/Migrate/Rerun.antt =====
-- cmd/migrate/main.go: what a run applies, and what a second run does.
use Prim.Native.String
use payment_ledger_platform.Base.{
  ◌≡◌, ◌≢◌, refl, sym, subst, inl, inr, ℕ, suc, true, false, String, List, [], ◌∷◌, none, some,
  if◌then◌else◌, All, Bool-cases, arith,
}
use payment_ledger_platform.Base.Dict.{
  Dict, insert, contains, contains-insert, lookup-insert_ne, lookup-insert_self,
}
use payment_ledger_platform.Error.{
  Error, external, message, Result, ok, err, Done, and_then, Result-cases,
}
use payment_ledger_platform.Cmd.Migrate.{
  Migrations, Environment, query, apply_file, visit_file, migrate_files,
}

module _ {D : Type 0} (env : Environment D) where
  -- Every statement reaches the database.
  abbrev pub IsUp : Type 0
  IsUp = (k : ℕ) → env.outage k ≡ none

  -- The files that are not applied.
  abbrev pub new_files : Dict Done → List String → List String
  new_files applied [] = []
  new_files applied (file ∷ files) =
      if contains file applied then new_files applied files else file ∷ new_files applied files

  -- The files' texts, executed one after the other.
  abbrev pub execute_all : List String → D → Result D
  execute_all [] schema = ok schema
  execute_all (file ∷ files) schema =
      and_then (env.read_file file)
        λ text. and_then (env.execute text schema) λ schema'. execute_all files schema'

  -- One round of the loop, for a file that is applied, and for one that is not.
  visit-skips :
      (file : String) (s : Migrations D)
      → IsUp
      → contains file s.applied ≡ true
      → let (r, s') = visit_file env file s in
        (r ≡ ok tt) × (s'.schema ≡ s.schema) × (s'.applied ≡ s.applied)
  unfolding visit_file query
  visit-skips file s up known = ground (arith, up s.sent)

  visit-applies :
      (file text : String) (schema : D) (s : Migrations D)
      → IsUp
      → contains file s.applied ≡ false
      → env.read_file file ≡ ok text
      → env.execute text s.schema ≡ ok schema
      → let (r, s') = visit_file env file s in
        (r ≡ ok tt) × (s'.schema ≡ schema) × (s'.applied ≡ insert file tt s.applied)
  unfolding visit_file apply_file query
  visit-applies file text schema s up new read executed =
      ground (arith, up s.sent, up (suc s.sent), up (suc (suc s.sent)))

  -- A round that succeeds leaves the file applied, and no applied file is forgotten.
  visit-applied :
      (file : String) (s : Migrations D) (x : Done)
      → (visit_file env file s).0 ≡ ok x
      → contains file (visit_file env file s).1.applied ≡ true
  unfolding visit_file apply_file query
  visit-applied file s x h = ground (arith, lookup-insert_self file tt s.applied)

  visit_keeps :
      (file other : String) (s : Migrations D)
      → contains other s.applied ≡ true
      → contains other (visit_file env file s).1.applied ≡ true
  unfolding visit_file apply_file query
  visit_keeps file other s known = ground (arith, contains-insert file other tt s.applied)

  migrate_keeps :
      (files : List String) (other : String) (s : Migrations D)
      → contains other s.applied ≡ true
      → contains other (migrate_files env files s).1.applied ≡ true
  unfolding migrate_files
  migrate_keeps [] other s known = known
  migrate_keeps (file ∷ files) other s known =
      let s' = (visit_file env file s).1 in
      ground (arith, visit_keeps file other s, migrate_keeps files other s')

  -- After a run that succeeds, all files are applied.
  migrate-applied :
      (files : List String) (s : Migrations D) (x : Done)
      → (migrate_files env files s).0 ≡ ok x
      → All (λ file. contains file (migrate_files env files s).1.applied ≡ true) files
  unfolding migrate_files
  migrate-applied [] s x h = tt
  migrate-applied (file ∷ files) s x h =
      let s' = (visit_file env file s).1 in
      elim (Result-cases (visit_file env file s).0) [
        | inl (y, e) ↦
            let rest : (migrate_files env files s').0 ≡ ok x = ground (arith, e) in
            let same : (migrate_files env (file ∷ files) s).1 ≡ (migrate_files env files s').1 =
              ground (arith, e) in
            subst (λ r. All (λ f. contains f r.applied ≡ true) (file ∷ files)) (sym same)
              (
                migrate_keeps files file s' (visit-applied file s y e),
                migrate-applied files s' x rest,
              )
        | inr (e, failed) ↦ ground (arith, failed)
      ]

  -- A run over files that are applied changes nothing.
  migrate-skips :
      (files : List String) (s : Migrations D)
      → IsUp
      → All (λ file. contains file s.applied ≡ true) files
      → let (r, s') = migrate_files env files s in
        (r ≡ ok tt) × (s'.schema ≡ s.schema) × (s'.applied ≡ s.applied)
  unfolding migrate_files
  migrate-skips [] s up known = (refl, refl, refl)
  migrate-skips (file ∷ files) s up known =
      let s' = (visit_file env file s).1 in
      let skip = visit-skips file s up known.0 in
      let rest =
        migrate-skips files s' up
          (subst (λ applied. All (λ f. contains f applied ≡ true) files) (sym skip.2) known.1) in
      ground (arith, skip, rest)

  -- No file is listed twice.
  abbrev pub IsDistinct : List String → Type 0
  IsDistinct [] = Unit
  IsDistinct (file ∷ files) = All (λ other. file ≢ other) files × IsDistinct files

  new_files-insert :
      (file : String) (applied : Dict Done) (files : List String)
      → All (λ other. file ≢ other) files
      → new_files (insert file tt applied) files ≡ new_files applied files
  new_files-insert file applied [] h = refl
  new_files-insert file applied (other ∷ files) h = ground (
    arith,
    h.0,
    lookup-insert_ne file other tt applied h.0,
    new_files-insert file applied files h.1,
  )

  migrate-executes :
      (files : List String) (s : Migrations D) (schema : D)
      → IsUp
      → IsDistinct files
      → execute_all (new_files s.applied files) s.schema ≡ ok schema
      → let (r, s') = migrate_files env files s in (r ≡ ok tt) × (s'.schema ≡ schema)
  unfolding migrate_files
  migrate-executes [] s schema up distinct h = (refl, ground arith)
  migrate-executes (file ∷ files) s schema up distinct h =
      let s' = (visit_file env file s).1 in
      elim (Bool-cases (contains file s.applied)) [
        | inl known ↦
            let skip = visit-skips file s up known in
            ground (arith, known, skip, migrate-executes files s' schema up distinct.1)
        | inr new ↦ elim (Result-cases (env.read_file file)) [
          | inr (e, failed) ↦ ground (arith, new, failed)
          | inl (text, read) ↦ elim (Result-cases (env.execute text s.schema)) [
            | inr (e, failed) ↦ ground (arith, new, read, failed)
            | inl (after, executed) ↦ ground (
              arith,
              new,
              read,
              executed,
              visit-applies file text after s up new read executed,
              new_files-insert file s.applied files distinct.0,
              migrate-executes files s' schema up distinct.1,
            )
          ]
        ]
      ]

  -- When every statement reaches the database, no file is listed twice, and the texts of the
  -- files that are not recorded can be read and executed one after the other in the order of
  -- the list, then a run returns no error, leaves the schema that this execution leads to, and
  -- every file of the list is recorded.
  pub migrate-new_files :
      (files : List String) (s : Migrations D) (schema : D)
      → IsUp
      → IsDistinct files
      → execute_all (new_files s.applied files) s.schema ≡ ok schema
      → let (r, s') = migrate_files env files s in
        (r ≡ ok tt) × (s'.schema ≡ schema) × All (λ file. contains file s'.applied ≡ true) files
  migrate-new_files files s schema up distinct h =
      let (done, reached) = migrate-executes files s schema up distinct h in
      (done, reached, migrate-applied files s tt done)

-- After a run over the files that returned no error, wherever it started from, a second run
-- over them whose statements reach the database returns no error and changes neither the schema
-- nor the recorded files.
pub migrate_again :
    {D : Type 0} (env again : Environment D) (files : List String) (s : Migrations D) (x : Done)
    → IsUp again
    → (migrate_files env files s).0 ≡ ok x
    → let s' = (migrate_files env files s).1 in
      let (r, s'') = migrate_files again files s' in
      (r ≡ ok tt) × (s''.schema ≡ s'.schema) × (s''.applied ≡ s'.applied)
migrate_again env again files s x up h =
    migrate-skips again files (migrate_files env files s).1 up (migrate-applied env files s x h)

-- When the statements of a run reach the database up to the text of its first file, which is
-- not recorded and is executed, and the one that would record the file does not, the run fails
-- with the file applied. If the text is refused by the schema that it led to, a later run over
-- the files, whose statements all reach the database, fails on that file, and changes neither
-- the schema nor the recorded files.
pub migrate_stuck :
    {D : Type 0} (env again : Environment D) (file text : String) (files : List String)
    (s : Migrations D) (schema : D) (e e' : Error)
    → env.outage s.sent ≡ none
    → env.outage (suc s.sent) ≡ none
    → env.outage (suc (suc s.sent)) ≡ some e
    → contains file s.applied ≡ false
    → env.read_file file ≡ ok text
    → env.execute text s.schema ≡ ok schema
    → IsUp again
    → again.read_file file ≡ ok text
    → again.execute text schema ≡ err e'
    → let (r, s') = migrate_files env (file ∷ files) s in
      let (r', s'') = migrate_files again (file ∷ files) s' in
      (r ≡ err e)
      × (s'.schema ≡ schema)
      × (r' ≡ err (external (String.◌++◌ file (String.◌++◌ ": " (message e')))))
      × (s''.schema ≡ schema)
      × (s''.applied ≡ s.applied)
unfolding migrate_files visit_file apply_file query
migrate_stuck env again file text files s schema e e' up up' down new read executed up'' read'
      refused =
    ground (arith, up'' (suc (suc (suc s.sent))), up'' (suc (suc (suc (suc s.sent)))))
