-- ===== src/BlueGreen/Failure.antt =====
-- Proofs about what the orchestrator does after a failure: the automatic rollback, the manual one,
-- and runs that make no check.
use confiture.Base.{
  ◌≡◌, ◌≢◌, ◌⊎◌, refl, Bool, true, false, not, ◌&&◌, Option, none, some, List, [], ◌∷◌, ◌++◌,
  if◌then◌else◌, null, inl, inr,
}
use confiture.Base.Exec.{
  Outcome, ok, err, Exec, pure, raise, gets, ◌>>=◌, ◌>>◌, continue, try_except,
}
use confiture.Base.Triple.{
  Post, Ends, Triple, ends-Post, triple-bind, triple-try_except, triple-pure, triple-weaken,
  triple_any,
}
use confiture.BlueGreen.{
  MigrationPhase, init, schema_created, data_syncing, data_synced, verifying, traffic_switching,
  traffic_switched, cleanup_pending, complete, failed, rolled_back, Problem, Database, Statement,
  HealthCheck, MigrationState, Orchestrator, Setup, drop_schema,
}
use confiture.BlueGreen.Steps.{
  set_phase, update, create_target_schema, sync_data, verify_sync, compare_schemas,
  run_health_checks, switch_traffic, cleanup, attempts,
}
use confiture.BlueGreen.Execute.{
  Way, drop_target, swap_schemas, no_way, way_from, is_rolled_back, rollback_drop_target,
  rollback_swap_back, swap_to, go_back, attempt_rollback, migrate, fail, execute, rollback,
}

module _ (db : Database) (setup : Setup db) where
  -- The two statements of the automatic rollback.
  abbrev pub drop_target_schema : Exec db.Conn Problem Unit
  drop_target_schema = do db.execute (drop_schema setup.config.target_schema); db.commit

  abbrev pub Dropped : Orchestrator db → Orchestrator db → Type 0
  Dropped o o' =
      ((drop_target_schema o.conn).0 ≡ ok tt)
      × (o'.conn ≡ (drop_target_schema o.conn).1)
      × (o'.state.phase ≡ rolled_back)

  abbrev pub NotDropped : Orchestrator db → Orchestrator db → Type 0
  NotDropped o o' =
      ((drop_target_schema o.conn).0 ≢ ok tt)
      × (o'.conn ≡ (drop_target_schema o.conn).1)
      × (o'.state.phase ≡ failed)
      × (o'.state.rollback_available ≡ false)

  abbrev Ended : Orchestrator db → Orchestrator db → Type 0
  Ended o o' = (o'.state.error ≡ o.state.error) × (Dropped o o' ⊎ NotDropped o o')

  abbrev dropping : Exec (Orchestrator db) Problem Unit
  dropping = rollback_drop_target setup

  module _ (o : Orchestrator db) (at_failed : o.state.phase ≡ failed) where
    committed :
        (c : db.Conn)
        → db.execute (drop_schema setup.config.target_schema) o.conn ≡ (ok tt, c)
        → (r : Outcome Problem Unit) (c' : db.Conn) → db.commit c ≡ (r, c')
        → Ends (dropping o) (λ (_ : Unit {0}) o'. Ended o o') (λ (_ : Problem) _. ⊥)
    unfolding rollback_drop_target set_phase
    committed c h (ok u) c' k = rw (h, k) (record { post = (refl, inl (refl, refl, refl)) })
    committed c h (err e) c' k =
        rw (h, k) (record { post = (refl, inr (λ no. cc, refl, at_failed, refl)) })

    executed :
        (r : Outcome Problem Unit) (c : db.Conn)
        → db.execute (drop_schema setup.config.target_schema) o.conn ≡ (r, c)
        → Ends (dropping o) (λ (_ : Unit {0}) o'. Ended o o') (λ (_ : Problem) _. ⊥)
    unfolding rollback_drop_target set_phase
    executed (ok u) c h = committed c h (db.commit c).0 (db.commit c).1 refl
    executed (err e) c h = rw h (record { post = (refl, inr (λ no. cc, refl, at_failed, refl)) })

    dropping_lem : Ends (dropping o) (λ (_ : Unit {0}) o'. Ended o o') (λ (_ : Problem) _. ⊥)
    dropping_lem = executed _ (db.execute (drop_schema setup.config.target_schema) o.conn).1 refl

module _ (db : Database) (setup : Setup db) (e : Problem) (o : Orchestrator db) where
  -- The state when the rollback is attempted.
  abbrev at_failure : Orchestrator db
  at_failure = record o {
    state = record o.state { error = some e; phase = failed };
    changes = o.changes ++ ((o.state.phase, failed) ∷ []);
  }

  if_available :
      (available : Bool)
      → available ≡ true
      → Ends
          ((if not available then pure tt else rollback_drop_target setup) at_failure)
          (λ (_ : Unit {0}) o'. Ended db setup at_failure o')
          (λ (_ : Problem) _. ⊥)
  if_available true h = dropping_lem db setup at_failure refl
  if_available false h = cc

  passed_on :
      (r : Outcome Problem Unit) (s : Orchestrator db)
      → Post (λ _ o'. Ended db setup at_failure o') (λ _ _. ⊥) r s
      → Ends
          (continue r (λ _. raise e) s)
          (λ (_ : Unit {0}) _. ⊥)
          (λ e' o'.
            (e' ≡ e)
            × (o'.state.error ≡ some e)
            × (Dropped db setup o o' ⊎ NotDropped db setup o o'))
  passed_on (ok u) s h = record { post = (refl, h.0, h.1) }
  passed_on (err e') s h = absurd h

-- If a rollback was available, a failed run passes on the exception that ended it, also after a
-- rollback that succeeded, and the state keeps it as its error. It ends in `rolled_back` if the two
-- statements that drop the target schema succeed on the connection as the failure left it, and
-- otherwise in `failed` with no rollback available.
pub fail_drops :
    (db : Database) (setup : Setup db) (e : Problem) (o : Orchestrator db)
    → o.state.rollback_available ≡ true
    → Ends
        (fail setup e o)
        (λ (_ : Unit {0}) _. ⊥)
        (λ e' o'.
          (e' ≡ e) × (o'.state.error ≡ some e) × (Dropped db setup o o' ⊎ NotDropped db setup o o'))
unfolding fail attempt_rollback go_back set_phase
fail_drops db setup e o available =
    passed_on db setup e o _ _ (if_available db setup e o o.state.rollback_available available).post

-- A connection in a failed transaction refuses every statement until it is rolled back.
abbrev pub RefusesAborted : Database → Type 0
RefusesAborted db =
    (statement : Statement) (c : db.Conn) → db.aborted c ≡ true → (db.execute statement c).0 ≢ ok tt

-- On a connection that refuses statements once its transaction has failed, the automatic rollback
-- after a failed statement never takes the target schema back: the run ends in `failed`, with no
-- rollback available any more and with the exception of that statement.
pub fail_aborted :
    (db : Database) (setup : Setup db) (e : Problem) (o : Orchestrator db)
    → RefusesAborted db
    → o.state.rollback_available ≡ true
    → db.aborted o.conn ≡ true
    → Ends
        (fail setup e o)
        (λ (_ : Unit {0}) _. ⊥)
        (λ e' o'. (e' ≡ e) × (o'.state.phase ≡ failed) × (o'.state.rollback_available ≡ false))
fail_aborted db setup e o refuses available aborted = record {
  post =
      ends-Post (λ (_ : Unit {0}) _. ⊥)
        (λ e' o'. (e' ≡ e) × (o'.state.phase ≡ failed) × (o'.state.rollback_available ≡ false))
        (fail_drops db setup e o available) (λ _ _ no. no)
        (λ e' o' (same, _, which). elim which [
          | inl dropped ↦
              absurd (
                stuck (db.execute statement o.conn).0 _ (refuses statement o.conn aborted)
                  dropped.0)
          | inr (_, _, at_failed, unavailable) ↦ (same, at_failed, unavailable)
        ]);
}
  where
    statement : Statement
    statement = drop_schema setup.config.target_schema

    stuck :
        (r : Outcome Problem Unit) (c : db.Conn)
        → r ≢ ok tt
        → (continue r (λ _. db.commit) c).0 ≡ ok tt
        → ⊥
    stuck (ok u) c h k = h refl
    stuck (err p) c h k = cc

module _ (db : Database) (setup : Setup db) (o : Orchestrator db) where
  abbrev Unmoved : Way → Orchestrator db → Type 0
  Unmoved w o' = w ≡ no_way → o' ≡ o

  caught :
      (w : Way) (m : Exec (Orchestrator db) Problem Unit) (f : MigrationState → MigrationState)
      → w ≢ no_way
      → Triple (λ o'. o' ≡ o) (try_except m (λ e. update f)) (λ _ o'. Unmoved w o') (λ _ _. ⊥)
  caught w m f some_way =
      triple-try_except _ _
        (triple-weaken (λ _ _. tt) (λ _ _ _ no. absurd (some_way no)) (λ _ _ h. h) (triple_any m))
        (λ e. record { at = λ _ _ no. absurd (some_way no) })

  swapped_back :
      (backup : Option _)
      → Triple (λ o'. o' ≡ o) (swap_to setup backup) (λ _ o'. Unmoved swap_schemas o') (λ _ _. ⊥)
  unfolding swap_to
  swapped_back none = triple-pure tt (λ s h _. h)
  swapped_back (some backup) = caught swap_schemas _ _ (λ no. cc)

  gone_back : (w : Way) → Triple (λ o'. o' ≡ o) (go_back setup w) (λ _ o'. Unmoved w o') (λ _ _. ⊥)
  unfolding go_back rollback_drop_target rollback_swap_back
  gone_back drop_target = caught drop_target _ _ (λ no. cc)
  gone_back swap_schemas = record { at = λ o' h. (swapped_back o'.state.backup_schema).at o' h }
  gone_back no_way = triple-pure tt (λ s h _. h)

  chosen :
      (available : Bool)
      → Triple
          (λ o'. o' ≡ o)
          (if not available then pure tt else go_back setup (way_from o.state.phase))
          (λ _ o'. Unmoved (way_from o.state.phase) o')
          (λ _ _. ⊥)
  chosen false = triple-pure tt (λ s h _. h)
  chosen true = gone_back (way_from o.state.phase)

  attempted :
      Triple
        (λ o'. o' ≡ o)
        (attempt_rollback setup)
        (λ _ o'. Unmoved (way_from o.state.phase) o')
        (λ _ _. ⊥)
  unfolding attempt_rollback
  attempted = record { at = λ o' h. rw h ((chosen o.state.rollback_available).at o refl) }

  answered :
      (available : Bool)
      → Triple
          (λ o'. o' ≡ o)
          (if not available
            then pure false
            else (attempt_rollback setup >>= λ _.
                gets (λ o'. o'.state.phase) >>= λ phase. pure (is_rolled_back phase)))
          (λ b o'.
            (b ≡ (available && is_rolled_back o'.state.phase))
            × Unmoved (way_from o.state.phase) o')
          (λ _ _. ⊥)
  answered false = triple-pure false (λ s h. (refl, λ _. h))
  answered true = triple-bind _ _ attempted λ _. record { at = λ s h. (refl, h) }

-- The phases from which `rollback` can do something.
abbrev pub way_back : List MigrationPhase
way_back =
    init ∷ schema_created ∷ data_syncing ∷ data_synced ∷ verifying ∷ failed ∷ traffic_switched ∷ []

-- A phase is one of these.
abbrev pub IsOneOf : MigrationPhase → List MigrationPhase → Type 0
IsOneOf p [] = ⊥
IsOneOf p (q ∷ phases) = (p ≡ q) ⊎ IsOneOf p phases

way_back_lem : (p : MigrationPhase) → IsOneOf p way_back ⊎ (way_from p ≡ no_way)
way_back_lem init = inl (inl refl)
way_back_lem schema_created = inl (inr (inl refl))
way_back_lem data_syncing = inl (inr (inr (inl refl)))
way_back_lem data_synced = inl (inr (inr (inr (inl refl))))
way_back_lem verifying = inl (inr (inr (inr (inr (inl refl)))))
way_back_lem traffic_switching = inr refl
way_back_lem traffic_switched = inl (inr (inr (inr (inr (inr (inr (inl refl)))))))
way_back_lem cleanup_pending = inr refl
way_back_lem complete = inr refl
way_back_lem failed = inl (inr (inr (inr (inr (inr (inl refl))))))
way_back_lem rolled_back = inr refl

-- `rollback` never raises. It changes nothing unless the phase was one of `init`, `schema_created`,
-- `data_syncing`, `data_synced`, `verifying`, `failed` and `traffic_switched`: in `complete` it does
-- nothing. It answers true exactly if a rollback was available and the phase is then `rolled_back`.
pub rollback_lem :
    (db : Database) (setup : Setup db) (o : Orchestrator db)
    → Ends
        (rollback setup o)
        (λ b o'.
          (b ≡ (o.state.rollback_available && is_rolled_back o'.state.phase))
          × (IsOneOf o.state.phase way_back ⊎ (o' ≡ o)))
        (λ _ _. ⊥)
unfolding rollback
rollback_lem db setup o = record {
  post =
      ends-Post
        (λ b o'.
          (b ≡ (o.state.rollback_available && is_rolled_back o'.state.phase))
          × (IsOneOf o.state.phase way_back ⊎ (o' ≡ o)))
        (λ _ _. ⊥) (record { post = (answered db setup o o.state.rollback_available).at o refl })
        (λ b o' h. (h.0, elim (way_back_lem o.state.phase) [ inl p ↦ inl p | inr e ↦ inr (h.1 e) ]))
        (λ _ _ no. no);
}

no_check_run :
    (db : Database) (setup : Setup db) (other : List HealthCheck)
    → setup.config.health_check_retries ≡ 0
    → null setup.health_checks ≡ false
    → null other ≡ false
    → run_health_checks (record setup { health_checks = other }) ≡ run_health_checks setup
unfolding run_health_checks attempts
no_check_run db setup other none_allowed some_check others =
    rw (some_check, others, none_allowed) refl

-- With no attempt allowed, no health check is made: where there is some check, a run goes the same way
-- with any other list of checks that is not empty.
pub zero_retries_ignore_checks :
    (db : Database) (setup : Setup db) (other : List HealthCheck) (o : Orchestrator db)
    → setup.config.health_check_retries ≡ 0
    → null setup.health_checks ≡ false
    → null other ≡ false
    → execute (record setup { health_checks = other }) o ≡ execute setup o
unfolding execute migrate fail attempt_rollback go_back rollback_drop_target rollback_swap_back
    swap_to create_target_schema sync_data verify_sync compare_schemas switch_traffic cleanup
zero_retries_ignore_checks db setup other o none_allowed some_check others =
    rw (no_check_run db setup other none_allowed some_check others) refl
