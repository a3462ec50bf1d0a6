-- ===== src/BlueGreen/Execute.antt =====
-- `BlueGreenOrchestrator.execute`, the automatic and the manual rollback, and the clean-up.
use confiture.Base.{
  Bool, true, false, not, Option, none, some, ◌++◌, map, if◌then◌else◌, filterb, allb,
}
use confiture.Base.Text.{Text, codes}
use confiture.Base.Exec.{Exec, pure, raise, gets, ◌>>=◌, ◌>>◌, try_except}
use confiture.BlueGreen.{
  MigrationPhase, init, schema_created, data_syncing, data_synced, verifying, traffic_switched,
  complete, failed, rolled_back, Problem, health_checks_failed, drop_schema, swap_back, Database,
  Orchestrator, Setup,
}
use confiture.BlueGreen.Steps.{
  on, set_phase, update, create_target_schema, sync_data, verify_sync, run_health_checks,
  switch_traffic, cleanup,
}

-- Which rollback `_attempt_rollback` chooses.
pub data Way : Type 0 where
  drop_target swap_schemas no_way : Way

abbrev pub way_from : MigrationPhase → Way
way_from init = drop_target
way_from schema_created = drop_target
way_from data_syncing = drop_target
way_from data_synced = drop_target
way_from verifying = drop_target
way_from failed = drop_target
way_from traffic_switched = swap_schemas
way_from _ = no_way

abbrev pub is_rolled_back : MigrationPhase → Bool
is_rolled_back rolled_back = true
is_rolled_back _ = false

module _ {db : Database} (setup : Setup db) where
  unfoldable pub rollback_drop_target : Exec (Orchestrator db) Problem Unit
  rollback_drop_target =
      try_except
        (do
          on (db.execute (drop_schema setup.config.target_schema))
          on db.commit
          set_phase rolled_back)
        (λ e. update (λ s. record s { rollback_available = false }))

  unfoldable pub swap_to : Option Text → Exec (Orchestrator db) Problem Unit
  swap_to none = pure tt
  swap_to (some backup) =
      try_except
        (do
          on (
              db.execute (
                swap_back setup.config.source_schema
                  (codes "_rollback_temp_" ++ setup.rollback_time) backup))
          on db.commit
          set_phase rolled_back)
        (λ e. update (λ s. record s { rollback_available = false }))

  unfoldable pub rollback_swap_back : Exec (Orchestrator db) Problem Unit
  unfolding swap_to
  rollback_swap_back = do backup ← gets (λ o. o.state.backup_schema); swap_to backup

  unfoldable pub go_back : Way → Exec (Orchestrator db) Problem Unit
  go_back drop_target = rollback_drop_target
  go_back swap_schemas = rollback_swap_back
  go_back no_way = pure tt

  unfoldable pub attempt_rollback : Exec (Orchestrator db) Problem Unit
  attempt_rollback = do
    available ← gets (λ o. o.state.rollback_available)
    phase ← gets (λ o. o.state.phase)
    if not available then pure tt else go_back (way_from phase)

  -- What stands under `try` in `execute`.
  unfoldable pub migrate : Exec (Orchestrator db) Problem Unit
  migrate = do
    create_target_schema setup
    sync_data setup
    verify_sync setup
    results ← run_health_checks setup
    if not (allb (λ r. r.passed) results)
        then raise (health_checks_failed (map (λ r. r.name) (filterb (λ r. not r.passed) results)))
        else pure tt
    switch_traffic setup
    if not setup.config.skip_cleanup then cleanup setup else pure tt
    update (λ s. record s { completed = true })
    set_phase complete

  -- What stands under `except Exception as e`.
  unfoldable pub fail : Problem → Exec (Orchestrator db) Problem Unit
  fail e = do update (λ s. record s { error = some e }); set_phase failed; attempt_rollback; raise e

  unfoldable pub execute : Exec (Orchestrator db) Problem Unit
  execute = do update (λ s. record s { started = true }); try_except migrate fail

  unfoldable pub rollback : Exec (Orchestrator db) Problem Bool
  rollback = do
    available ← gets (λ o. o.state.rollback_available)
    if not available
        then pure false
        else do attempt_rollback; phase ← gets (λ o. o.state.phase); pure (is_rolled_back phase)

  unfoldable pub drop_backup : Option Text → Exec (Orchestrator db) Problem Bool
  drop_backup none = pure false
  drop_backup (some backup) =
      try_except
        (do
          on (db.execute (drop_schema backup))
          on db.commit
          update (λ s. record s { rollback_available = false })
          pure true)
        (λ e. pure false)

  unfoldable pub cleanup_backup : Exec (Orchestrator db) Problem Bool
  cleanup_backup = do backup ← gets (λ o. o.state.backup_schema); drop_backup backup
