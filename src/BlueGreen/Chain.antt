-- ===== src/BlueGreen/Chain.antt =====
-- The changes of phase that a run may make, and those of the steps under `try`.
use confiture.Base.{
  ◌≡◌, ◌⊎◌, refl, ◌∙◌, Bool, true, false, not, Option, none, some, List, [], ◌∷◌, ◌++◌,
  if◌then◌else◌, allb, null, inl, inr,
}
use confiture.Base.Exec.{Outcome, ok, err, Exec, pure, ◌>>=◌}
use confiture.Base.Triple.{
  Post, Triple, triple-bind, triple-if, triple-pure, triple-raise, triple-weaken,
}
use confiture.BlueGreen.{
  MigrationPhase, init, schema_created, data_syncing, data_synced, verifying, traffic_switching,
  traffic_switched, cleanup_pending, complete, failed, rolled_back, Problem, Database,
  MigrationState, Orchestrator, Setup, create_schema, swap,
}
use confiture.BlueGreen.Steps.{
  on, set_phase, update, create_target_schema, sync_function, sync_data, compare_schemas,
  verify_sync, run_health_checks, switch_traffic, cleanup, gather, discrepancies_of, attempts,
  backup_name,
}
use confiture.BlueGreen.Execute.{migrate}

-- A phase in which a run is under way.
abbrev pub is_running : MigrationPhase → Bool
is_running complete = false
is_running failed = false
is_running rolled_back = false
is_running _ = true

-- The changes that a run may make.
pub data Next : MigrationPhase → MigrationPhase → Type 0 where
  created : Next init schema_created
  syncing : Next schema_created data_syncing
  synced : Next data_syncing data_synced
  verified : Next data_synced verifying
  switching : Next verifying traffic_switching
  switched : Next traffic_switching traffic_switched
  pending : Next traffic_switched cleanup_pending
  finished_at_once : Next traffic_switched complete
  finished : Next cleanup_pending complete
  given_up : (p : MigrationPhase) → is_running p ≡ true → Next p failed
  taken_back : Next failed rolled_back

-- The changes lead from one phase to another, each from where the one before it led.
abbrev pub IsChain :
    MigrationPhase → List (MigrationPhase × MigrationPhase) → MigrationPhase → Type 0
IsChain p [] q = p ≡ q
IsChain p ((a, b) ∷ rest) q = (p ≡ a) × Next a b × IsChain b rest q

IsChain-snoc :
    (p q r : MigrationPhase) (l : List (MigrationPhase × MigrationPhase))
    → IsChain p l q
    → Next q r
    → IsChain p (l ++ ((q, r) ∷ [])) r
IsChain-snoc p q r [] h n = (h, n, refl)
IsChain-snoc p q r ((a, b) ∷ rest) h n = (h.0, h.1, IsChain-snoc b q r rest h.2 n)

module _ (db : Database) where
  abbrev pub At : MigrationPhase → Orchestrator db → Type 0
  At q o = (o.state.phase ≡ q) × IsChain init o.changes q

  -- Where an exception leaves the run.
  abbrev pub Midway : Orchestrator db → Type 0
  Midway o = (q : MigrationPhase) × (is_running q ≡ true) × At q o

  -- A call of the database changes no phase.
  pub kept_step :
      {A : Type 0} (q : MigrationPhase) (m : Exec db.Conn Problem A)
      → Triple (At q) (on {db = db} m) (λ _ o. At q o) (λ _ o. At q o)
  kept_step {A} q m = record { at = λ o h. go (m o.conn).0 (m o.conn).1 o h }
    where
      go :
          (r : Outcome Problem A) (c : db.Conn) (o : Orchestrator db)
          → At q o
          → Post (λ _ o. At q o) (λ _ o. At q o) r (record o { conn = c })
      go (ok a) c o h = h
      go (err e) c o h = h

  on_step :
      {A : Type 0} (q : MigrationPhase) (m : Exec db.Conn Problem A)
      → is_running q ≡ true
      → Triple (At q) (on {db = db} m) (λ _ o. At q o) (λ _ o. Midway o)
  on_step q m running =
      triple-weaken (λ _ h. h) (λ _ _ h. h) (λ _ o h. (q, running, h)) (kept_step q m)

  pub set_phase_step :
      (q r : MigrationPhase)
      → Next q r
      → {R : Problem → Orchestrator db → Type 0}
      → Triple (At q) (set_phase {db = db} r) (λ _ o. At r o) R
  unfolding set_phase
  set_phase_step q r n = record {
    at = λ o h. (refl, rw h.0 (IsChain-snoc init q r o.changes h.1 n));
  }

  pub update_step :
      (q : MigrationPhase) (f : MigrationState → MigrationState)
      → ((s : MigrationState) → (f s).phase ≡ s.phase)
      → {R : Problem → Orchestrator db → Type 0}
      → Triple (At q) (update {db = db} f) (λ _ o. At q o) R
  update_step q f same = record { at = λ o h. (same o.state ∙ h.0, h.1) }

  module _ (setup : Setup db) where
    create_step :
        Triple (At init) (create_target_schema setup) (λ _ o. At schema_created o) (λ _ o. Midway o)
    unfolding create_target_schema
    create_step =
        triple-bind _ _ (on_step init (db.execute (create_schema setup.config.target_schema)) refl)
          λ _.
            triple-bind _ _ (on_step init db.commit refl)
              λ _. set_phase_step init schema_created created

    sync_function_step :
        (sync : Option (Exec db.Conn Problem Unit))
        → Triple
            (At data_syncing)
            (sync_function setup sync)
            (λ _ o. At data_syncing o)
            (λ _ o. Midway o)
    unfolding sync_function
    sync_function_step none = triple-pure tt (λ _ h. h)
    sync_function_step (some sync) = on_step data_syncing sync refl

    sync_step :
        Triple (At schema_created) (sync_data setup) (λ _ o. At data_synced o) (λ _ o. Midway o)
    unfolding sync_data
    sync_step = triple-bind _ _ (set_phase_step schema_created data_syncing syncing) λ _.
        triple-bind _ _ (sync_function_step setup.data_sync)
          λ _. set_phase_step data_syncing data_synced synced

    compare_step :
        Triple (At verifying) (compare_schemas setup) (λ _ o. At verifying o) (λ _ o. Midway o)
    unfolding compare_schemas
    compare_step =
        triple-bind _ _
          (on_step verifying (db.fetch_counts setup.config.source_schema setup.config.target_schema)
            refl)
          λ rows. triple-pure (discrepancies_of setup.config (gather rows [])) (λ _ h. h)

    verify_step :
        Triple (At data_synced) (verify_sync setup) (λ _ o. At verifying o) (λ _ o. Midway o)
    unfolding verify_sync
    verify_step = triple-bind _ _ (set_phase_step data_synced verifying verified) λ _.
        triple-bind _ _ compare_step λ found.
          triple-if (null found) _ _ (λ _. triple-pure tt (λ _ h. h))
            (λ _.
              update_step verifying (λ s. record s { sync_discrepancies = some found }) (λ s. refl))

    health_step :
        Triple (At verifying) (run_health_checks setup) (λ _ o. At verifying o) (λ _ o. Midway o)
    unfolding run_health_checks
    health_step =
        triple-if (null setup.health_checks) _ _ (λ _. triple-pure [] (λ _ h. h))
          λ _.
            let results = attempts setup.health_checks setup.config.health_check_retries 0 [] in
            triple-bind _ _
              (update_step verifying (λ s. record s { health_check_results = some results })
                (λ s. refl))
              λ _. triple-pure results (λ _ h. h)

    switch_step :
        Triple
          (At verifying)
          (switch_traffic setup)
          (λ _ o. At traffic_switched o)
          (λ _ o. Midway o)
    unfolding switch_traffic
    switch_step = triple-bind _ _ (set_phase_step verifying traffic_switching switching) λ _.
        triple-bind _ _
          (on_step traffic_switching
            (db.execute
              (swap setup.config.source_schema (backup_name setup) setup.config.target_schema))
            refl)
          λ _. triple-bind _ _ (on_step traffic_switching db.commit refl) λ _.
            triple-bind _ _
              (update_step traffic_switching
                (λ s. record s {
                  backup_schema = some (backup_name setup);
                  rollback_available = true;
                })
                (λ s. refl))
              λ _. set_phase_step traffic_switching traffic_switched switched

    -- Before the last step, with the clean-up phase or without it.
    abbrev Switched : Orchestrator db → Type 0
    Switched o = At traffic_switched o ⊎ At cleanup_pending o

    cleanup_step :
        Triple
          (At traffic_switched)
          (if not setup.config.skip_cleanup then cleanup setup else pure tt)
          (λ _ o. Switched o)
          (λ _ o. Midway o)
    unfolding cleanup
    cleanup_step =
        triple-if (not setup.config.skip_cleanup) _ _
          (λ _.
            triple-weaken (λ _ h. h) (λ _ _ h. inr h) (λ _ _ h. h)
              (set_phase_step traffic_switched cleanup_pending pending))
          (λ _. triple-pure tt (λ _ h. inl h))

    finish_step :
        Triple Switched
          (update {db = db} (λ s. record s { completed = true }) >>= λ _. set_phase complete)
          (λ _ o. At complete o)
          (λ _ o. Midway o)
    finish_step = record { at = λ o h. go o h }
      where
        done :
            (q : MigrationPhase)
            → Next q complete
            → Triple
                (At q)
                (update {db = db} (λ s. record s { completed = true }) >>= λ _. set_phase complete)
                (λ _ o. At complete o)
                (λ _ o. Midway o)
        done q n =
            triple-bind _ _ (update_step q (λ s. record s { completed = true }) (λ s. refl))
              (λ _. set_phase_step q complete n)

        go :
            (o : Orchestrator db)
            → Switched o
            → Post
                (λ _ o. At complete o)
                (λ _ o. Midway o)
                ((update {db = db} (λ s. record s { completed = true }) >>= λ _. set_phase complete)
                  o).0
                ((update {db = db} (λ s. record s { completed = true }) >>= λ _. set_phase complete)
                  o).1
        go o (inl h) = (done traffic_switched finished_at_once).at o h
        go o (inr h) = (done cleanup_pending finished).at o h

    pub migrate_step : Triple (At init) (migrate setup) (λ _ o. At complete o) (λ _ o. Midway o)
    unfolding migrate
    migrate_step = triple-bind _ _ create_step λ _. triple-bind _ _ sync_step λ _.
        triple-bind _ _ verify_step λ _. triple-bind _ _ health_step λ results.
          triple-bind _ _
            (triple-if {Q = λ _ o. At verifying o} (not (allb (λ r. r.passed) results)) _ _
              (λ _. triple-raise _ (λ _ h. (verifying, refl, h))) (λ _. triple-pure tt (λ _ h. h)))
            λ _. triple-bind _ _ switch_step λ _. triple-bind _ _ cleanup_step λ _. finish_step
