-- ===== src/Session/Down.antt =====
-- session.py: `_rollback_sequence`, `down` and `down_to`.
use confiture.Base.{
  ℕ, ◌+◌, ◌-◌, Bool, true, false, not, Option, none, some, List, [], ◌∷◌, ◌++◌, if◌then◌else◌,
  filterb, contains, nat_eq, list_eq, length, drop, null, reverse, ◌==◌,
}
use confiture.Base.Text.{Text}
use confiture.Base.Exec.{Outcome, Exec, pure, raise, ◌>>=◌, ◌>>◌}
use confiture.Postgres.{Raised, Connection, migration_error, migr_100}
use confiture.Locking.{engine_error, LockConfig, Digest}
use confiture.Migrator.{Reading, Migration, Migrator, on}
use confiture.Migrator.Tracking.{Catalog, initialize}
use confiture.Migrator.Undo.{rollback}
use confiture.Migrator.Batch.{loaded}
use confiture.Rollback.{Reason, irreversible, RollbackPlan, plan_down_to}
use confiture.Discovery.{Directory, find_migration_files}
use confiture.Session.{
  SessionError, rollback_600, other, MigrationApplied, Call, LockStatements, engine_call, outside,
  locked, by_version, known_versions, reversible_versions,
}

-- `MigrateDownResult`; the fields that `down` does not set are left out
pub record MigrateDownResult : Type 0 where
  pub success : Bool
  pub migrations_rolled_back : List MigrationApplied
  pub total_execution_time_ms : ℕ

-- `DownToResult`
pub record DownToResult : Type 0 where
  pub from_version : Option Text
  pub to_version : Text
  pub rolled_back : List Text
  pub skipped : List Text
  pub noop : Bool

abbrev pub total_ms : List MigrationApplied → ℕ
total_ms [] = 0
total_ms (a ∷ applied) = a.execution_time_ms + total_ms applied

-- `applied_versions[-steps:]`; Python reads `-0` as `0`, so no steps are all of them.
unfoldable pub last_steps : ℕ → List Text → List Text
last_steps steps applied = if steps == 0 then applied else drop (length applied - steps) applied

-- `applied[-1] if applied else None`
unfoldable pub newest : List Text → Option Text
newest [] = none
newest (v ∷ []) = some v
newest (v ∷ w ∷ vs) = newest (w ∷ vs)

-- The exception for a plan that is not valid.
unfoldable pub refusal : RollbackPlan → Option Reason → SessionError
refusal plan (some irreversible) = rollback_600 plan.missing_down
refusal plan _ = other (engine_error (migration_error migr_100))

abbrev pub entry : {pg : Connection} → Migration pg → ℕ → MigrationApplied
entry m ms = record { version = m.version; name = m.name; execution_time_ms = ms }

module _ {pg : Connection} (load : Text → Outcome Raised (Migration pg)) (read : Text → Reading)
    (dir : Directory) where
  -- One turn of the loop: a version without a file is passed over.
  unfoldable pub rollback_file :
      Bool → Option Text → Exec (Migrator pg) Raised (List MigrationApplied)
  rollback_file dry_run none = pure []
  rollback_file dry_run (some file) = do
    m ← loaded load read file
    if dry_run then pure tt else rollback m false
    pure (entry m (if dry_run then 0 else (read file).elapsed_ms) ∷ [])

  unfoldable pub rollback_each :
      Bool → List Text → Exec (Migrator pg) Raised (List MigrationApplied)
  rollback_each dry_run [] = pure []
  rollback_each dry_run (v ∷ versions) = do
    first ← rollback_file dry_run (by_version (find_migration_files dir) v)
    rest ← rollback_each dry_run versions
    pure (first ++ rest)

  -- `_rollback_sequence`
  unfoldable pub rollback_sequence :
      List Text → Bool → Exec (Migrator pg) Raised (List MigrationApplied × ℕ)
  rollback_sequence versions dry_run = do
    rolled_back ← rollback_each dry_run versions
    pure (rolled_back, total_ms rolled_back)

  module _ (catalog : Catalog pg) (lock : LockStatements pg) (digest : Digest)
      (config : LockConfig) where
    unfoldable pub sequence_under :
        List Text → Bool → Exec (Call pg) SessionError (List MigrationApplied × ℕ)
    sequence_under versions dry_run =
        if dry_run
        then outside (engine_call (rollback_sequence versions true))
        else outside (locked lock digest config (engine_call (rollback_sequence versions false)))

    unfoldable pub down : ℕ → Bool → Exec (Call pg) SessionError MigrateDownResult
    down steps dry_run = do
      outside (engine_call (initialize catalog))
      applied_versions ← outside (engine_call (on pg.select_versions))
      if null applied_versions
          then pure
              (record { success = true; migrations_rolled_back = []; total_execution_time_ms = 0 })
          else do
            result ← sequence_under (reverse (last_steps steps applied_versions)) dry_run
            pure (record {
              success = true;
              migrations_rolled_back = result.0;
              total_execution_time_ms = result.1;
            })

    -- What `down_to` does with a valid plan.
    unfoldable pub carry_out :
        List Text → RollbackPlan → Bool → Exec (Call pg) SessionError DownToResult
    carry_out applied plan dry_run =
        if plan.noop
        then pure (record {
          from_version = newest applied;
          to_version = plan.target;
          rolled_back = [];
          skipped = [];
          noop = true;
        })
        else do
          let to_execute = filterb (contains applied) plan.to_rollback
          if dry_run then pure tt else do
            outside (locked lock digest config (engine_call (rollback_sequence to_execute false)))
            pure tt
          pure (record {
            from_version = newest applied;
            to_version = plan.target;
            rolled_back = to_execute;
            skipped = filterb (λ v. not (contains applied v)) plan.to_rollback;
            noop = false;
          })

    unfoldable pub down_to : Text → Bool → Exec (Call pg) SessionError DownToResult
    down_to target dry_run = do
      outside (engine_call (initialize catalog))
      applied ← outside (engine_call (on pg.select_versions))
      let plan = plan_down_to applied (known_versions dir) target (reversible_versions dir)
      if not plan.valid then raise (refusal plan plan.reason) else carry_out applied plan dry_run
