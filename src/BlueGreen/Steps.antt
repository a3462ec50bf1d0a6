-- ===== src/BlueGreen/Steps.antt =====
-- The steps of `BlueGreenOrchestrator.execute`.
use confiture.Base.{
  Bool, ℕ, zero, suc, ◌+◌, true, false, Option, none, some, List, [], ◌∷◌, ◌++◌, map, if◌then◌else◌,
  null, allb, ◌==◌, nat_eq, list_eq,
}
use confiture.Base.Text.{Text, codes}
use confiture.Base.Exec.{Outcome, ok, err, Exec, pure, modify, ◌>>=◌, ◌>>◌}
use confiture.BlueGreen.{
  MigrationPhase, schema_created, data_syncing, data_synced, verifying, traffic_switching,
  traffic_switched, cleanup_pending, BlueGreenConfig, Problem, create_schema, swap, TableCount,
  Database, HealthCheckResult, Discrepancy, MigrationState, HealthCheck, Orchestrator, Setup,
}

-- Row counts of one table, by schema: `stats[table]`.
abbrev pub Counts : Type 0
Counts = List (Text × ℕ)

abbrev pub Stats : Type 0
Stats = List (Text × Counts)

-- `counts.get(schema, 0)`
unfoldable pub count_of : Text → Counts → ℕ
count_of schema [] = 0
count_of schema ((s, n) ∷ counts) = if s == schema then n else count_of schema counts

-- `stats[table][schema] = count`, the later row of a schema in place of the earlier.
unfoldable pub put_count : Text → ℕ → Counts → Counts
put_count schema n [] = (schema, n) ∷ []
put_count schema n ((s, k) ∷ counts) =
    if s == schema then (s, n) ∷ counts else (s, k) ∷ put_count schema n counts

-- `count or 0`
unfoldable pub known_count : Option ℕ → ℕ
known_count none = 0
known_count (some n) = n

unfoldable pub put_row : TableCount → Stats → Stats
put_row row [] = (row.table, put_count row.schema (known_count row.count) []) ∷ []
put_row row ((t, counts) ∷ stats) =
    if t == row.table
    then (t, put_count row.schema (known_count row.count) counts) ∷ stats
    else (t, counts) ∷ put_row row stats

unfoldable pub gather : List TableCount → Stats → Stats
gather [] stats = stats
gather (row ∷ rows) stats = gather rows (put_row row stats)

unfoldable pub discrepancies_of : BlueGreenConfig → Stats → List Discrepancy
discrepancies_of config [] = []
discrepancies_of config ((table, counts) ∷ stats) =
    let rest = discrepancies_of config stats in
    if count_of config.source_schema counts == count_of config.target_schema counts
    then rest
    else record {
      table = table;
      source = count_of config.source_schema counts;
      target = count_of config.target_schema counts;
    }
      ∷ rest

-- One call of one check; an exception counts as not passed.
-- What is noted of a check that answered or raised.
abbrev pub noted : HealthCheck → Outcome Problem Bool → HealthCheckResult
noted h (ok b) = record { name = h.name; passed = b; message = none }
noted h (err e) = record { name = h.name; passed = false; message = some e }

unfoldable pub run_check : ℕ → HealthCheck → HealthCheckResult
run_check attempt h = noted h (h.check attempt)

unfoldable pub run_attempt : List HealthCheck → ℕ → List HealthCheckResult
unfolding run_check
run_attempt checks attempt = map (run_check attempt) checks

-- `for attempt in range(retries)`, with `left` attempts to go: the results of the last one made.
unfoldable pub attempts : List HealthCheck → ℕ → ℕ → List HealthCheckResult → List HealthCheckResult
attempts checks zero attempt results = results
attempts checks (suc left) attempt results =
    let now = run_attempt checks attempt in
    let rest = attempts checks left (attempt + 1) now in
    if allb (λ r. r.passed) now then now else rest

module _ {db : Database} where
  abbrev pub on : {A : Type 0} → Exec db.Conn Problem A → Exec (Orchestrator db) Problem A
  on m o = let r = m o.conn in (r.0, record o { conn = r.1 })

  -- `_set_phase`; a callback that raises is logged, and the next one is called.
  unfoldable pub set_phase : MigrationPhase → Exec (Orchestrator db) Problem Unit
  set_phase phase = modify λ o. record o {
    state = record o.state { phase = phase };
    changes = o.changes ++ ((o.state.phase, phase) ∷ []);
  }

  abbrev pub update : (MigrationState → MigrationState) → Exec (Orchestrator db) Problem Unit
  update f = modify λ o. record o { state = f o.state }

  module _ (setup : Setup db) where
    unfoldable pub create_target_schema : Exec (Orchestrator db) Problem Unit
    create_target_schema = do
      on (db.execute (create_schema setup.config.target_schema))
      on db.commit
      set_phase schema_created

    unfoldable pub sync_function :
        Option (Exec db.Conn Problem Unit) → Exec (Orchestrator db) Problem Unit
    sync_function none = pure tt
    sync_function (some sync) = on sync

    unfoldable pub sync_data : Exec (Orchestrator db) Problem Unit
    unfolding sync_function
    sync_data = do set_phase data_syncing; sync_function setup.data_sync; set_phase data_synced

    unfoldable pub compare_schemas : Exec (Orchestrator db) Problem (List Discrepancy)
    unfolding gather discrepancies_of
    compare_schemas = do
      rows ← on (db.fetch_counts setup.config.source_schema setup.config.target_schema)
      pure (discrepancies_of setup.config (gather rows []))

    unfoldable pub verify_sync : Exec (Orchestrator db) Problem Unit
    verify_sync = do
      set_phase verifying
      found ← compare_schemas
      if null found then pure tt else update (λ s. record s { sync_discrepancies = some found })

    unfoldable pub run_health_checks : Exec (Orchestrator db) Problem (List HealthCheckResult)
    run_health_checks = if null setup.health_checks then pure [] else do
      let results = attempts setup.health_checks setup.config.health_check_retries 0 []
      update (λ s. record s { health_check_results = some results })
      pure results

    -- `f"{source_schema}_backup_{int(time.time())}"`
    abbrev pub backup_name : Text
    backup_name = setup.config.source_schema ++ (codes "_backup_" ++ setup.switch_time)

    unfoldable pub switch_traffic : Exec (Orchestrator db) Problem Unit
    switch_traffic = do
      set_phase traffic_switching
      on (db.execute (swap setup.config.source_schema backup_name setup.config.target_schema))
      on db.commit
      update (λ s. record s { backup_schema = some backup_name; rollback_available = true })
      set_phase traffic_switched

    unfoldable pub cleanup : Exec (Orchestrator db) Problem Unit
    cleanup = set_phase cleanup_pending
