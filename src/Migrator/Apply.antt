-- ===== src/Migrator/Apply.antt =====
-- apply.py: `apply`, `apply_transactional` and `apply_non_transactional`.
use confiture.Base.{◌++◌, Bool, true, false, not, ◌&&◌, Option, if◌then◌else◌}
use confiture.Base.Text.{Text, codes}
use confiture.Base.Exec.{Exec, pure, raise, gets, ◌>>=◌, ◌>>◌, try_except, try_finally}
use confiture.Postgres.{Raised, migration_error, no_code, migr_101, Connection}
use confiture.Migrator.{before_execute, after_execute, Reading, wrapped, Migration, Migrator, on}
use confiture.Migrator.Steps.{
  trigger_hook, rollback_to_savepoint, is_applied, validate_preconditions, record_migration,
  check_envelope,
}

module _ {pg : Connection} where
  -- `f"migration_{migration.version}"`
  abbrev pub savepoint_name : Migration pg → Text
  savepoint_name m = codes "migration_" ++ m.version

  -- What stands under `try`.
  unfoldable pub transactional_body :
      Migration pg → Bool → Reading → Bool → Option Text → Exec (Migrator pg) Raised Unit
  transactional_body m already_applied now commit applied_by = do
    on (pg.create_savepoint (savepoint_name m))
    trigger_hook before_execute m false
    on m.up
    check_envelope
    trigger_hook after_execute m true
    if already_applied then pure tt else record_migration m now applied_by
    on (pg.release_savepoint (savepoint_name m))
    if commit then on pg.commit else pure tt

  -- What stands under `except Exception as e`.
  unfoldable pub transactional_failure :
      Migration pg → Bool → Raised → Exec (Migrator pg) Raised Unit
  transactional_failure m commit e = do
    trigger_hook after_execute m false
    rollback_to_savepoint (savepoint_name m) commit
    raise (wrapped e)

  unfoldable pub apply_transactional :
      Migration pg → Bool → Reading → Bool → Option Text → Exec (Migrator pg) Raised Unit
  apply_transactional m already_applied now commit applied_by =
      try_except (transactional_body m already_applied now commit applied_by)
        (transactional_failure m commit)

  unfoldable pub autocommit_body :
      Migration pg → Bool → Reading → Option Text → Exec (Migrator pg) Raised Unit
  autocommit_body m already_applied now applied_by = do
    trigger_hook before_execute m false
    on m.up
    trigger_hook after_execute m true
    if already_applied then pure tt else record_migration m now applied_by

  unfoldable pub apply_non_transactional :
      Migration pg → Bool → Reading → Option Text → Exec (Migrator pg) Raised Unit
  apply_non_transactional m already_applied now applied_by = do
    on pg.commit
    original ← gets (λ s. pg.autocommit s.conn)
    on (pg.set_autocommit true)
    try_finally
        (try_except (autocommit_body m already_applied now applied_by)
          (λ e. do trigger_hook after_execute m false; raise (migration_error no_code)))
        (on (pg.set_autocommit original))

  unfoldable pub apply :
      Migration pg
      → Reading
      → (force skip_preconditions commit : Bool) → Option Text
      → Exec (Migrator pg) Raised Unit
  apply m now force skip_preconditions commit applied_by = do
    already_applied ← is_applied m.version
    if not force && already_applied then raise (migration_error migr_101) else do
      if skip_preconditions then pure tt else validate_preconditions m.up_preconditions
      if m.transactional
          then apply_transactional m already_applied now commit applied_by
          else apply_non_transactional m already_applied now applied_by
