-- ===== src/Session/Up.antt =====
-- session.py: `up` and `_up_dry_run_execute`. The flags that only go into the result are left out.
use confiture.Base.{
  ℕ, Bool, true, false, not, ◌&&◌, Option, none, some, List, [], ◌∷◌, ◌++◌, map, if◌then◌else◌,
  filterb, contains, nat_eq, list_eq, null,
}
use confiture.Base.Text.{Text, codes}
use confiture.Base.Exec.{
  Outcome, Exec, pure, raise, gets, modify, ◌>>=◌, ◌>>◌, try_except, try_finally,
}
use confiture.Postgres.{Raised, Connection, migration_error, no_code}
use confiture.Locking.{Problem, engine_error, LockConfig, Digest}
use confiture.Migrator.{Reading, Migration, on}
use confiture.Migrator.Tracking.{Catalog, initialize}
use confiture.Migrator.Apply.{apply}
use confiture.Migrator.Batch.{loaded, past_target, find_pending}
use confiture.Discovery.{Directory, find_migration_files, version_from_migration_filename}
use confiture.Session.{
  SessionError, configuration_error, other, MigrationApplied, Locals, new_locals, Call,
  LockStatements, engine_call, outside, locked,
}
use confiture.Session.Preflight.{Checks, preflight, all_reversible, irreversible_versions}
use confiture.Session.Down.{entry, total_ms}

-- What a result reports as an error.
pub data Reported : Type 0 where
  failed_with : Problem → Reported
  irreversible_migrations : (versions : List Text) → Reported

-- `MigrateUpResult`, without the flag for checksums, which is passed through
pub record MigrateUpResult : Type 0 where
  pub success : Bool
  pub migrations_applied : List MigrationApplied
  pub total_execution_time_ms : ℕ
  pub dry_run : Bool
  pub dry_run_execute : Bool
  pub warnings : List Text
  pub errors : List Reported
  pub skipped : List Text
  pub skipped_superuser : List Text
  pub pending : List Text

-- Versions of the files that are not to be applied.
unfoldable pub skipped_versions : List Text → List Text → List Text
skipped_versions all_files pending_files = map version_from_migration_filename (
    filterb
      (λ f. not (
        contains (map version_from_migration_filename pending_files)
          (version_from_migration_filename f)))
      all_files)

-- The result where nothing was to be done.
abbrev pub nothing_done : Bool → List Text → MigrateUpResult
nothing_done dry_run skipped = record {
  success = true;
  migrations_applied = [];
  total_execution_time_ms = 0;
  dry_run = dry_run;
  dry_run_execute = false;
  warnings = [];
  errors = [];
  skipped = skipped;
  skipped_superuser = [];
  pending = [];
}

-- The result where a migration that is to be checked has no way down.
abbrev pub gate_closed : List Text → List Text → MigrateUpResult
gate_closed versions skipped = record {
  success = false;
  migrations_applied = [];
  total_execution_time_ms = 0;
  dry_run = false;
  dry_run_execute = false;
  warnings = [];
  errors = irreversible_migrations versions ∷ [];
  skipped = skipped;
  skipped_superuser = [];
  pending = [];
}

-- The result of a run, from the local variables.
unfoldable pub result_of : Bool → Option Problem → List Text → Locals → MigrateUpResult
result_of force (some e) skipped l = record {
  success = false;
  migrations_applied = l.migrations_applied;
  total_execution_time_ms = total_ms l.migrations_applied;
  dry_run = false;
  dry_run_execute = false;
  warnings = [];
  errors = failed_with e ∷ [];
  skipped = skipped;
  skipped_superuser = l.skipped_superuser;
  pending = l.pending_after_halt;
}
result_of force none skipped l = record {
  success = not l.halted;
  migrations_applied = l.migrations_applied;
  total_execution_time_ms = total_ms l.migrations_applied;
  dry_run = false;
  dry_run_execute = false;
  warnings = if force then codes "Force mode enabled" ∷ [] else [];
  errors = [];
  skipped = skipped;
  skipped_superuser = l.skipped_superuser;
  pending = l.pending_after_halt;
}

unfoldable pub tested : Option Problem → List Text → Locals → MigrateUpResult
tested (some e) skipped l = record {
  success = false;
  migrations_applied = l.migrations_applied;
  total_execution_time_ms = total_ms l.migrations_applied;
  dry_run = true;
  dry_run_execute = true;
  warnings = [];
  errors = failed_with e ∷ [];
  skipped = skipped;
  skipped_superuser = [];
  pending = [];
}
tested none skipped l = record {
  success = true;
  migrations_applied = l.migrations_applied;
  total_execution_time_ms = total_ms l.migrations_applied;
  dry_run = true;
  dry_run_execute = true;
  warnings = codes "dry_run_execute: all SQL executed successfully, changes rolled back" ∷ [];
  errors = [];
  skipped = skipped;
  skipped_superuser = [];
  pending = [];
}

-- `if failed_exception is None: failed_exception = exc`
abbrev pub or_first : Option Problem → Problem → Option Problem
or_first (some first) e = some first
or_first none e = some e

abbrev pub failing_first : Problem → Locals → Locals
failing_first e l = record l { failed = or_first l.failed e }

abbrev pub applied_too : MigrationApplied → Locals → Locals
applied_too a l = record l { migrations_applied = l.migrations_applied ++ (a ∷ []) }

abbrev pub failing : Problem → Locals → Locals
failing e l = record l { failed = some e }

-- The migration is for a superuser: the run stops here, and says what is left.
abbrev pub halt : Text → List Text → Locals → Locals
halt version files l = record l {
  skipped_superuser = l.skipped_superuser ++ (version ∷ []);
  pending_after_halt = map version_from_migration_filename files;
  halted = true;
}

-- `self._migrations_dir.exists()`
abbrev pub is_there : Directory → Bool
is_there none = false
is_there (some names) = true

module _ {pg : Connection} where
  abbrev pub change : (Locals → Locals) → Exec (Call pg) Problem Unit
  change f = modify λ s. record s { locals = f s.locals }

  -- Whether some migration that the preflight checks is irreversible: which ones.
  unfoldable pub gate :
      Catalog pg → Checks pg → Directory → Bool → Exec (Call pg) SessionError (Option (List Text))
  gate catalog checks dir require_reversible = if not require_reversible then pure none else do
    result ← preflight catalog checks dir
    pure (if all_reversible result then none else some (irreversible_versions result))

  -- `up` goes on, or returns at the gate.
  abbrev pub after_gate :
      Option (List Text)
      → List Text
      → Exec (Call pg) SessionError MigrateUpResult
      → Exec (Call pg) SessionError MigrateUpResult
  after_gate (some versions) skipped go_on = pure (gate_closed versions skipped)
  after_gate none skipped go_on = go_on

  module _ (load : Text → Outcome Raised (Migration pg)) (read : Text → Reading) where
    -- The inner `try`: whether the loop goes on.
    unfoldable pub apply_one : Bool → Bool → Migration pg → Text → Exec (Call pg) Problem Bool
    apply_one force commit m file =
        try_except
          (do
            engine_call (apply m (read file) force false commit none)
            change (applied_too (entry m (read file).elapsed_ms))
            pure true)
          (λ e. do change (failing e); pure false)

    unfoldable pub up_each : Bool → Option Text → List Text → Exec (Call pg) Problem Unit
    up_each force target [] = pure tt
    up_each force target (file ∷ files) = do
      m ← engine_call (loaded load read file)
      let rest = up_each force target files
      if past_target load read target m.version
          then pure tt
          else if m.requires_superuser
          then change (halt m.version files)
          else do go_on ← apply_one force true m file; if go_on then rest else pure tt

    unfoldable pub try_each : Bool → Option Text → List Text → Exec (Call pg) Problem Unit
    try_each force target [] = pure tt
    try_each force target (file ∷ files) = do
      m ← engine_call (loaded load read file)
      let rest = try_each force target files
      if past_target load read target m.version
          then pure tt
          else do go_on ← apply_one force false m file; if go_on then rest else pure tt

    -- The block of the dry run, in a savepoint that is always rolled back to.
    unfoldable pub dry_run_block : Bool → Option Text → List Text → Exec (Call pg) Problem Unit
    unfolding try_each
    dry_run_block force target files = do
      engine_call (on (pg.create_savepoint (codes "dry_run_execute")))
      try_finally (try_each force target files) (do
        engine_call (on (pg.rollback_to (codes "dry_run_execute")))
        engine_call (on (pg.release_savepoint (codes "dry_run_execute"))))

    module _ (dir : Directory) (catalog : Catalog pg) (lock : LockStatements pg) (digest : Digest)
        (config : LockConfig) where
      -- `try: with lock.acquire(): … except Exception as exc: …`, the local variables new.
      unfoldable pub guarded : Exec (Call pg) Problem Unit → Exec (Call pg) Problem Locals
      guarded block = do
        change (λ _. new_locals)
        try_except (locked lock digest config block) (λ e. change (failing_first e))
        gets (λ s. s.locals)

      -- What `up` does with files that are pending.
      unfoldable pub run_up :
          Option Text
          → (force dry_run_execute : Bool) → (pending_files skipped : List Text)
          → Exec (Call pg) SessionError MigrateUpResult
      run_up target force dry_run_execute pending_files skipped =
          if dry_run_execute
          then (do
            l ← outside (guarded (dry_run_block force target pending_files))
            pure (tested l.failed skipped l))
          else (do
            l ← outside (guarded (up_each force target pending_files))
            pure (result_of force l.failed skipped l))

      module _ (checks : Checks pg) where
        -- What `up` does in a directory that exists.
        unfoldable pub up_pending :
            Option Text
            → (require_reversible force dry_run dry_run_execute : Bool)
            → Exec (Call pg) SessionError MigrateUpResult
        up_pending target require_reversible force dry_run dry_run_execute = do
          outside (engine_call (initialize catalog))
          let all_files = find_migration_files dir
          pending_files ← if force then pure all_files else outside (engine_call (find_pending dir))
          let skipped = skipped_versions all_files pending_files
          if dry_run
              then pure (nothing_done true skipped)
              else if null pending_files
              then pure (nothing_done false skipped)
              else do
                irreversible ← gate catalog checks dir require_reversible
                after_gate irreversible skipped
                    (run_up target force dry_run_execute pending_files skipped)

        unfoldable pub up :
            Option Text
            → (require_reversible force dry_run dry_run_execute : Bool)
            → Exec (Call pg) SessionError MigrateUpResult
        up target require_reversible force dry_run dry_run_execute =
            if dry_run && dry_run_execute
            then raise configuration_error
            else if not (is_there dir)
            then raise (other (engine_error (migration_error no_code)))
            else up_pending target require_reversible force dry_run dry_run_execute
