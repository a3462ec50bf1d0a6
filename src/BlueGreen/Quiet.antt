-- ===== src/BlueGreen/Quiet.antt =====
-- Proofs about the steps before and after the switch of the traffic.
use confiture.Base.{◌≡◌, refl, Bool, false, not, Option, none, some, if◌then◌else◌}
use confiture.Base.Exec.{Outcome, ok, err, Exec, pure, raise, gets, ◌>>=◌, try_except}
use confiture.Base.Triple.{
  Post, Triple, triple-bind, triple-try_except, triple-if, triple-pure, triple-raise,
}
use confiture.BlueGreen.{
  MigrationPhase, failed, rolled_back, Problem, Database, MigrationState, Orchestrator, Setup,
  Statement,
}
use confiture.BlueGreen.Steps.{
  on, set_phase, update, create_target_schema, sync_function, sync_data, compare_schemas,
  verify_sync,
}
use confiture.BlueGreen.Execute.{
  Way, drop_target, swap_schemas, no_way, way_from, rollback_drop_target, rollback_swap_back,
  swap_to, go_back, attempt_rollback, fail,
}
use confiture.BlueGreen.Health.{is_switching, has_switched, has_switched-snoc}

module _ (db : Database) where
  abbrev pub Before : Orchestrator db → Type 0
  Before o = has_switched o.changes ≡ false

  -- What changes no phase, and what changes it to another than the switch.
  unfoldable pub Quiet : {A : Type 0} → Exec (Orchestrator db) Problem A → Type 0
  Quiet m = Triple Before m (λ _ o. Before o) (λ _ o. Before o)

  on_Quiet : {A : Type 0} (m : Exec db.Conn Problem A) → Quiet (on {db = db} m)
  unfolding Quiet
  on_Quiet {A} m = record { at = λ o h. go (m o.conn).0 (m o.conn).1 o h }
    where
      go :
          (r : Outcome Problem A) (c : db.Conn) (o : Orchestrator db)
          → Before o
          → Post (λ _ o. Before o) (λ _ o. Before o) r (record o { conn = c })
      go (ok a) c o h = h
      go (err e) c o h = h

  set_phase-Quiet : (q : MigrationPhase) → is_switching q ≡ false → Quiet (set_phase {db = db} q)
  unfolding Quiet set_phase
  set_phase-Quiet q other = record {
    at = λ o h. has_switched-snoc o.changes o.state.phase q h other;
  }

  pub update-Quiet : (f : MigrationState → MigrationState) → Quiet (update {db = db} f)
  unfolding Quiet
  update-Quiet f = record { at = λ o h. h }

  pure-Quiet : {A : Type 0} (a : A) → Quiet (pure a)
  unfolding Quiet
  pure-Quiet a = triple-pure a (λ _ h. h)

  raise-Quiet : (A : Type 0) (e : Problem) → Quiet {A = A} (raise e)
  unfolding Quiet
  raise-Quiet A e = triple-raise e (λ _ h. h)

  gets-Quiet : {A : Type 0} (f : Orchestrator db → A) → Quiet (gets f)
  unfolding Quiet
  gets-Quiet f = record { at = λ o h. h }

  bind-Quiet :
      {A B : Type 0} (m : Exec (Orchestrator db) Problem A)
      (f : A → Exec (Orchestrator db) Problem B)
      → Quiet m
      → ((a : A) → Quiet (f a))
      → Quiet (m >>= f)
  unfolding Quiet
  bind-Quiet m f h k = triple-bind m f h k

  try-Quiet :
      {A : Type 0} (m : Exec (Orchestrator db) Problem A)
      (h : Problem → Exec (Orchestrator db) Problem A)
      → Quiet m
      → ((e : Problem) → Quiet (h e))
      → Quiet (try_except m h)
  unfolding Quiet
  try-Quiet m h km kh = triple-try_except m h km kh

  if_Quiet :
      {A : Type 0} (b : Bool) (m n : Exec (Orchestrator db) Problem A)
      → Quiet m
      → Quiet n
      → Quiet (if b then m else n)
  unfolding Quiet
  if_Quiet b m n km kn = triple-if b m n (λ _. km) (λ _. kn)

  ruleset quiet_rules = (
    on_Quiet, set_phase-Quiet, update-Quiet, pure-Quiet, raise-Quiet, gets-Quiet, bind-Quiet,
    try-Quiet, if_Quiet,
  )

  module _ (setup : Setup db) where
    pub create-Quiet : Quiet (create_target_schema setup)
    unfolding create_target_schema
    create-Quiet = search quiet_rules

    sync_function-Quiet :
        (sync : Option (Exec db.Conn Problem Unit)) → Quiet (sync_function setup sync)
    unfolding sync_function
    sync_function-Quiet none = search quiet_rules
    sync_function-Quiet (some sync) = search quiet_rules

    pub sync-Quiet : Quiet (sync_data setup)
    unfolding sync_data
    sync-Quiet = search (quiet_rules, sync_function-Quiet)

    compare-Quiet : Quiet (compare_schemas setup)
    unfolding compare_schemas
    compare-Quiet = search quiet_rules

    pub verify-Quiet : Quiet (verify_sync setup)
    unfolding verify_sync
    verify-Quiet = search (quiet_rules, compare-Quiet)

    undone-Quiet :
        (st : Statement)
        → Quiet (on {db = db} (db.execute st) >>= λ _. on db.commit >>= λ _. set_phase rolled_back)
    undone-Quiet st =
        bind-Quiet _ _ (on_Quiet (db.execute st))
          λ _. bind-Quiet _ _ (on_Quiet db.commit) λ _. set_phase-Quiet rolled_back refl

    unavailable-Quiet :
        (e : Problem) → Quiet (update {db = db} (λ s. record s { rollback_available = false }))
    unavailable-Quiet e = update-Quiet _

    drop-Quiet : Quiet (rollback_drop_target setup)
    unfolding rollback_drop_target
    drop-Quiet = try-Quiet _ _ (undone-Quiet _) unavailable-Quiet

    swap_to-Quiet : (backup : Option _) → Quiet (swap_to setup backup)
    unfolding swap_to
    swap_to-Quiet none = pure-Quiet tt
    swap_to-Quiet (some backup) = try-Quiet _ _ (undone-Quiet _) unavailable-Quiet

    swap_back-Quiet : Quiet (rollback_swap_back setup)
    unfolding rollback_swap_back
    swap_back-Quiet =
        bind-Quiet _ _ (gets-Quiet (λ o. o.state.backup_schema)) (λ b. swap_to-Quiet b)

    go_back-Quiet : (w : Way) → Quiet (go_back setup w)
    unfolding go_back
    go_back-Quiet drop_target = drop-Quiet
    go_back-Quiet swap_schemas = swap_back-Quiet
    go_back-Quiet no_way = pure-Quiet tt

    attempt-Quiet : Quiet (attempt_rollback setup)
    unfolding attempt_rollback
    attempt-Quiet = bind-Quiet _ _ (gets-Quiet (λ o. o.state.rollback_available)) λ available.
        bind-Quiet _ _ (gets-Quiet (λ o. o.state.phase))
          λ phase. if_Quiet (not available) _ _ (pure-Quiet tt) (go_back-Quiet (way_from phase))

    pub fail-Quiet : (e : Problem) → Quiet (fail setup e)
    unfolding fail
    fail-Quiet e = bind-Quiet _ _ (update-Quiet (λ s. record s { error = some e })) λ _.
        bind-Quiet _ _ (set_phase-Quiet failed refl)
          λ _. bind-Quiet _ _ attempt-Quiet λ _. raise-Quiet _ e
