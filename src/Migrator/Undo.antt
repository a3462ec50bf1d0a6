-- ===== src/Migrator/Undo.antt =====
-- rollback.py: rolling a migration back and removing it from the tracking table.
use confiture.Base.{Bool, true, not, if◌then◌else◌}
use confiture.Base.Exec.{Exec, pure, raise, gets, ◌>>=◌, ◌>>◌, try_except, try_finally}
use confiture.Postgres.{Raised, migration_error, migr_100, no_code, Connection}
use confiture.Migrator.{Migration, Migrator, on}
use confiture.Migrator.Steps.{is_applied, validate_preconditions}

module _ {pg : Connection} where
  unfoldable pub rollback_transactional : Migration pg → Exec (Migrator pg) Raised Unit
  rollback_transactional m =
      try_except (do on m.down; on (pg.delete_version m.version); on pg.commit)
        (λ e. do on pg.rollback; raise (migration_error no_code))

  unfoldable pub rollback_non_transactional : Migration pg → Exec (Migrator pg) Raised Unit
  rollback_non_transactional m = do
    on pg.commit
    original ← gets (λ s. pg.autocommit s.conn)
    on (pg.set_autocommit true)
    try_finally
        (try_except (do on m.down; on (pg.delete_version m.version))
          (λ e. raise (migration_error no_code)))
        (on (pg.set_autocommit original))

  unfoldable pub rollback : Migration pg → Bool → Exec (Migrator pg) Raised Unit
  rollback m skip_preconditions = do
    applied ← is_applied m.version
    if not applied then raise (migration_error migr_100) else do
      if skip_preconditions then pure tt else validate_preconditions m.down_preconditions
      if m.transactional then rollback_transactional m else rollback_non_transactional m
