-- ===== src/Migrator/Steps.antt =====
-- The steps that applying and rolling back share: hooks, savepoints, preconditions and the
-- tracking table.
use confiture.Base.{
  ℕ, suc, ◌++◌, Bool, false, Option, none, some, List, [], ◌∷◌, if◌then◌else◌, ltb, null,
}
use confiture.Base.Text.{Text, codes}
use confiture.Base.Exec.{Outcome, ok, err, Exec, pure, raise, gets, modify, ◌>>=◌, ◌>>◌, try_except}
use confiture.Postgres.{
  Raised, os_error, migration_error, precondition_error, migr_107, Row, Connection,
}
use confiture.Migrator.{HookPhase, Reading, outside_transaction, Migration, Migrator, on}

module _ {pg : Connection} where
  -- `trigger_hook` catches what the hooks raise, so the caller goes on in any case.
  unfoldable pub trigger_hook : HookPhase → Migration pg → Bool → Exec (Migrator pg) Raised Unit
  trigger_hook phase m success = modify λ s. record s {
    calls = s.calls ++ (record { phase = phase; version = m.version; success = success } ∷ []);
  }

  unfoldable pub rollback_to_savepoint : Text → Bool → Exec (Migrator pg) Raised Unit
  rollback_to_savepoint name commit =
      try_except (on (pg.rollback_to name) >> (if commit then on pg.commit else pure tt))
        (λ e. if commit then on pg.rollback else raise e)

  -- `int(count) > 0` of `SELECT COUNT(*) … WHERE version = …`
  unfoldable pub is_applied : Text → Exec (Migrator pg) Raised Bool
  is_applied version = do count ← on (pg.count_version version); pure (ltb 0 count)

  -- The checks of `PreconditionValidator.check` that fail or raise, counted.
  unfoldable pub check_preconditions : List (Exec pg.Conn Raised Bool) → Exec (Migrator pg) Raised ℕ
  check_preconditions [] = pure 0
  check_preconditions (check ∷ rest) = do
    passed ← try_except (on check) (λ _. pure false)
    failures ← check_preconditions rest
    pure (if passed then failures else suc failures)

  unfoldable pub validate_preconditions :
      List (Exec pg.Conn Raised Bool) → Exec (Migrator pg) Raised Unit
  unfolding check_preconditions
  validate_preconditions preconditions = if null preconditions then pure tt else do
    failures ← check_preconditions preconditions
    if ltb 0 failures then raise precondition_error else pure tt

  -- The role that opened the connection, unless the caller names one.
  unfoldable pub applier : Option Text → Exec (Migrator pg) Raised (Option Text)
  applier (some role) = pure (some role)
  applier none = on pg.current_user

  -- `compute_checksum(migration_file)`, if there is a file
  abbrev pub recorded_checksum :
      Outcome Text (Option Text) → Exec (Migrator pg) Raised (Option Text)
  recorded_checksum (ok checksum) = pure checksum
  recorded_checksum (err message) = raise (os_error message)

  abbrev pub migration_row : Migration pg → Reading → (checksum role : Option Text) → Row
  migration_row m now checksum role = record {
    slug = m.name ++ (codes "_" ++ now.timestamp);
    version = m.version;
    name = m.name;
    execution_time_ms = now.elapsed_ms;
    checksum = checksum;
    applied_by = role;
  }

  unfoldable pub record_migration :
      Migration pg → Reading → Option Text → Exec (Migrator pg) Raised Unit
  unfolding applier
  record_migration m now applied_by = do
    checksum ← recorded_checksum now.checksum
    role ← applier applied_by
    on (pg.insert_row (migration_row m now checksum role))

  -- A body that ended the transaction is refused.
  unfoldable pub check_envelope : Exec (Migrator pg) Raised Unit
  check_envelope = do
    status ← gets (λ s. pg.transaction_status s.conn)
    if outside_transaction status then raise (migration_error migr_107) else pure tt
