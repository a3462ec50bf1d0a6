-- ===== src/Session/Tests.antt =====
-- The theorems on a session at concrete inputs, and runs of it.
use confiture.Base.{
  ◌≡◌, ◌⊎◌, All, refl, Bool, true, false, not, ◌&&◌, none, some, List, [], ◌∷◌, ◌++◌, reverse,
  filterb, null, take, drop, contains, IsDistinct, nat_eq, list_eq,
}
use confiture.Base.Text.{Text, codes}
use confiture.Base.Exec.{Outcome, ok, err}
use confiture.Base.Triple.{Ends}
use confiture.Postgres.{Raised}
use confiture.Postgres.Sample.{sample, sample-IsPostgres, sample-StaysUp}
use confiture.Rollback.{plan_down_to}
use confiture.Locking.{
  acquire, acquire_lock, release_lock, get_lock_id, acquire_by, acquire_blocking,
  write_holder_metadata, clear_holder_metadata, suppressed_rollback,
}
use confiture.Migrator.{Migration}
use confiture.Migrator.Tracking.{initialize, execute_all}
use confiture.Migrator.Steps.{
  is_applied, validate_preconditions, check_preconditions, trigger_hook, check_envelope,
  record_migration, rollback_to_savepoint,
}
use confiture.Migrator.Apply.{
  apply, apply_transactional, transactional_body, transactional_failure, apply_non_transactional,
  autocommit_body,
}
use confiture.Migrator.Undo.{rollback, rollback_transactional}
use confiture.Migrator.Batch.{find_pending, past_target}
use confiture.Migrator.Prefix.{IsStart, planned}
use confiture.Discovery.{
  all_migration_files, later_version, is_python_migration, is_sql_migration,
  find_duplicate_migration_versions, Directory, find_migration_files, not_applied_files,
  version_from_migration_filename,
}
use confiture.Checksum.{verify_all, mismatches_of, mismatch_of}
use confiture.Session.{
  locked, by_version, known_versions, reversible_versions, is_reversible, replace_from,
  rollback_600, SessionError,
}
use confiture.Session.Down.{
  down, down_to, carry_out, sequence_under, rollback_sequence, rollback_each, rollback_file,
  last_steps, newest, refusal,
}
use confiture.Session.Up.{
  Reported, irreversible_migrations, MigrateUpResult, gate, run_up, up, up_pending, guarded,
  up_each, try_each, dry_run_block, apply_one, skipped_versions, result_of, tested,
}
use confiture.Session.Preflight.{
  preflight, status, status_files, applied_rows, applied_at, run_preflight,
}
use confiture.Session.UpLoop.{due}
use confiture.Session.Sequence.{without, versions_of, has_file}
use confiture.Session.Stack.{stack, IsSettled, pop_to}
use confiture.Session.Last.{span}
use confiture.Session.DownTo.{down_to_pops}
use confiture.Session.DownSteps.{down_pops}
use confiture.Session.FileNames.{has_way_down}
use confiture.Session.UpGate.{up_reversible}
use confiture.Session.UpPushes.{up_pushes}
use confiture.Session.Runs.{
  Command, migrate_up, migrate_down, migrate_down_to, Trace, run, session_refines,
}
use confiture.Session.Samples.{
  migration_of, load, read, load-IsTame, load-IsReverted, catalog, catalog-IsCatalog, lock,
  lock-IsLock, digest, config, checks, checks-IsChecks, dir, with_table, two, two-IsDistinct,
}

down_to_pops_example :
    Ends
      (down_to load read dir catalog lock digest config (codes "001") false two)
      (λ r s'.
        (contains (codes "001" ∷ codes "002" ∷ []) (codes "001") ≡ true)
        × (stack s' ≡ pop_to (codes "001") (stack two))
        × (stack two ≡ r.rolled_back ++ pop_to (codes "001") (stack two))
        × (r.skipped ≡ [])
        × IsSettled s')
      (λ _ s'.
        ((gone : List Text) × (stack two ≡ gone ++ stack s'))
        × ((kept : List Text) × (stack s' ≡ kept ++ pop_to (codes "001") (stack two)))
        × IsSettled s')
down_to_pops_example =
    down_to_pops sample sample-IsPostgres sample-StaysUp load read dir load-IsReverted catalog
      catalog-IsCatalog lock lock-IsLock digest config (codes "001") false two two-IsDistinct refl

abbrev has : Text → Bool
has v = has_file (find_migration_files dir) v

down_pops_example :
    let n = span 1 (codes "001" ∷ codes "002" ∷ []) in
    Ends
      (down load read dir catalog lock digest config 1 false two)
      (λ r s'.
        (stack s' ≡ filterb (λ v. not (has v)) (take n (stack two)) ++ drop n (stack two))
        × (versions_of r.migrations_rolled_back ≡ filterb has (take n (stack two)))
        × (r.success ≡ true)
        × IsSettled s')
      (λ _ s'.
        ((done : List Text) × (stack s' ≡ without done (stack two))
          × IsStart done (filterb has (take n (stack two))))
        × IsSettled s')
down_pops_example =
    down_pops sample sample-IsPostgres sample-StaysUp load read dir load-IsReverted catalog
      catalog-IsCatalog lock lock-IsLock digest config 1 false two two-IsDistinct refl

abbrev pending : List Text
pending = not_applied_files (codes "001" ∷ codes "002" ∷ []) (find_migration_files dir)

up_pushes_example :
    Ends
      (up load read dir catalog lock digest config checks none true false false false two)
      (λ r s'.
        (stack s' ≡ reverse (versions_of r.migrations_applied) ++ stack two)
        × IsStart (versions_of r.migrations_applied) (planned sample load pending)
        × (r.success ≡ (null r.errors && null r.skipped_superuser))
        × (false ≡ false
            → r.success ≡ true
            → versions_of r.migrations_applied ≡ due sample load read none pending)
        × (IsDistinct (codes "001" ∷ codes "002" ∷ []) → IsDistinct s'.engine.conn.published)
        × IsSettled s')
      (λ _ s'. (s'.engine.conn.published ≡ codes "001" ∷ codes "002" ∷ []) × IsSettled s')
up_pushes_example =
    up_pushes sample sample-IsPostgres sample-StaysUp load read dir load-IsTame catalog
      catalog-IsCatalog lock lock-IsLock digest config checks checks-IsChecks none true false two
      refl

-- With a way down for each migration the gate lets the run pass.
abbrev reversible_dir : Directory
reversible_dir = some (codes "002_b.up.sql" ∷ codes "002_b.down.sql" ∷ codes "001_a.py" ∷ [])

up_reversible_example :
    Ends
      (up load read reversible_dir catalog lock digest config checks none true false false false
        (with_table []))
      (λ r _.
        (r.migrations_applied ≡ [])
        ⊎ All
            (λ f. has_way_down reversible_dir f ≡ true)
            (not_applied_files [] (find_migration_files reversible_dir)))
      (λ _ s'. (s'.engine.conn.published ≡ []) × IsSettled s')
up_reversible_example =
    up_reversible sample sample-IsPostgres sample-StaysUp load read reversible_dir catalog
      catalog-IsCatalog lock digest config checks checks-IsChecks none false false false
      (with_table []) refl

abbrev commands : List Command
commands = migrate_up none false ∷ migrate_down_to (codes "001") ∷ migrate_down 1 ∷ []

session_refines_example :
    let s' = run load read dir catalog lock digest config checks commands two in
    Trace
      (λ st. planned sample load (not_applied_files (reverse st) (find_migration_files dir)))
      has
      commands
      (stack two)
      (stack s')
    × IsDistinct s'.engine.conn.published
    × IsSettled s'
session_refines_example =
    session_refines sample sample-IsPostgres sample-StaysUp load read dir load-IsTame
      load-IsReverted catalog catalog-IsCatalog lock lock-IsLock digest config checks
      checks-IsChecks commands two two-IsDistinct refl

program : Unit {0}
unfolding up up_pending gate run_up preflight status status_files applied_rows applied_at
    run_preflight is_python_migration is_sql_migration verify_all mismatches_of mismatch_of guarded
    up_each try_each dry_run_block apply_one down down_to carry_out sequence_under rollback_sequence
    rollback_each rollback_file locked initialize execute_all by_version known_versions
    reversible_versions is_reversible replace_from last_steps newest refusal skipped_versions
    result_of tested apply is_applied validate_preconditions check_preconditions apply_transactional
    transactional_body transactional_failure trigger_hook check_envelope record_migration
    rollback_to_savepoint apply_non_transactional autocommit_body find_pending not_applied_files
    find_migration_files all_migration_files later_version version_from_migration_filename
    plan_down_to rollback rollback_transactional acquire acquire_lock release_lock get_lock_id
    acquire_by acquire_blocking write_holder_metadata clear_holder_metadata suppressed_rollback
    past_target pop_to
program = tt

up-two :
    stack (up load read dir catalog lock digest config checks none false false false false two).1
    ≡ codes "003" ∷ codes "002" ∷ codes "001" ∷ []
unfolding program
up-two = refl

down_to-two :
    stack (down_to load read dir catalog lock digest config (codes "001") false two).1
    ≡ codes "001" ∷ []
unfolding program
down_to-two = refl

-- `003` has no `.down.sql`, so nothing at all is rolled back.
down_to_refused :
    (down_to load read dir catalog lock digest config
      (codes "001")
      false
      (with_table (codes "001" ∷ codes "002" ∷ codes "003" ∷ []))).0
    ≡ err (rollback_600 (codes "003" ∷ []))
unfolding program
down_to_refused = refl

-- No steps roll everything back.
down_no_steps : stack (down load read dir catalog lock digest config 0 false two).1 ≡ []
unfolding program
down_no_steps = refl

-- A dry run of a migration that is not transactional: its version stays in the committed table.
abbrev concurrent : Text → Outcome Raised (Migration sample)
concurrent file = ok (record (migration_of file) { transactional = false })

dry_run_publishes :
    stack
      (up concurrent read dir catalog lock digest config checks none false false false true two).1
    ≡ codes "003" ∷ codes "002" ∷ codes "001" ∷ []
unfolding program
dry_run_publishes = refl

dry_run_keeps :
    stack (up load read dir catalog lock digest config checks none false false false true two).1
    ≡ stack two
unfolding program
dry_run_keeps = refl

abbrev errors_of : Outcome SessionError MigrateUpResult → List Reported
errors_of (ok r) = r.errors
errors_of (err e) = []

-- `003` is pending and has no way down, so the gate stops the run, and nothing is applied.
up_gated :
    errors_of (up load read dir catalog lock digest config checks none true false false false two).0
    ≡ irreversible_migrations (codes "003" ∷ []) ∷ []
unfolding program find_duplicate_migration_versions
up_gated = refl

up_reversible-passes :
    stack
      (up load read reversible_dir catalog lock digest config checks none true false false false
        (with_table [])).1
    ≡ codes "002" ∷ codes "001" ∷ []
unfolding program find_duplicate_migration_versions
up_reversible-passes = refl
