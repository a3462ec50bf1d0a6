-- ===== src/Session/UpGate.antt =====
-- Proofs about `up` with `require_reversible`.
use confiture.Base.{
  ◌≡◌, ◌⊎◌, refl, inl, inr, Bool, true, not, ◌&&◌, Option, none, some, List, [], null, All,
}
use confiture.Base.Text.{Text}
use confiture.Base.Exec.{Outcome, Exec, pure, gets, ◌>>=◌}
use confiture.Base.Triple.{
  Ends, Triple, triple-bind, triple-if, triple-pure, triple-raise, triple-weaken, triple-try_except,
  triple_any, triple_assume,
}
use confiture.Postgres.{Raised, Connection}
use confiture.Postgres.Laws.{IsPostgres, StaysUp}
use confiture.Locking.{Problem, LockConfig, Digest}
use confiture.Migrator.{Reading, Migration}
use confiture.Migrator.Tracking.{Catalog, IsCatalog}
use confiture.Migrator.Batch.{find_pending}
use confiture.Migrator.Calm.{Calm, Ready, versions-Calm}
use confiture.Discovery.{Directory, find_migration_files, not_applied_files}
use confiture.Session.{Locals, new_locals, Call, LockStatements, locked, engine_call, outside}
use confiture.Session.Preflight.{Checks}
use confiture.Session.Gate.{IsChecks, gate_step, Passed}
use confiture.Session.Gated.{IsSafe}
use confiture.Session.FileNames.{has_way_down}
use confiture.Session.Up.{
  MigrateUpResult, is_there, after_gate, run_up, guarded, up_pending, up, failing_first,
}
use confiture.Session.Rules.{engine_rule, outside_rule, opened, change_step}
use confiture.Session.Stack.{IsSettled}

module _ (pg : Connection) (laws : IsPostgres pg) (up_law : StaysUp pg)
    (load : Text → Outcome Raised (Migration pg)) (read : Text → Reading) (dir : Directory)
    (catalog : Catalog pg) (tables : IsCatalog pg catalog) (lock : LockStatements pg)
    (digest : Digest) (config : LockConfig) (checks : Checks pg) (asks : IsChecks pg checks)
    (target : Option Text) (vs : List Text) where
  abbrev Here : Call pg → Type 0
  Here s = Ready pg vs s.engine.conn × Unit {0}

  abbrev Left : Call pg → Type 0
  Left s = Calm pg vs s.engine.conn × Unit {0}

  -- Nothing was applied, or everything pending has its way down.
  abbrev Guarded : MigrateUpResult → Type 0
  Guarded r = (r.migrations_applied ≡ []) ⊎ IsSafe dir vs

  read_any :
      Triple {E = Problem}
        (λ (_ : Call pg). Unit {0})
        (gets (λ s. s.locals))
        (λ (_ : Locals) (_ : Call pg). Unit {0})
        (λ _ _. ⊥)
  read_any = record { at = λ s h. tt }

  -- Whatever runs under the lock, its exceptions are caught.
  guarded_any :
      (block : Exec (Call pg) Problem Unit)
      → Triple
          (λ (_ : Call pg). Unit {0})
          (guarded load read dir catalog lock digest config block)
          (λ (_ : Locals) (_ : Call pg). Unit {0})
          (λ _ _. ⊥)
  unfolding guarded
  guarded_any block =
      triple-bind {Q = λ _ _. Unit {0}} _ _ (change_step (λ _. new_locals) (λ s h. tt)) λ _.
        triple-bind {Q = λ _ _. Unit {0}} _ _
          (triple-try_except _ _ (triple_any (locked lock digest config block))
            (λ e. change_step (failing_first e) (λ s h. tt)))
          λ _. read_any

  run_any :
      (force dry_run_execute : Bool) (files skipped : List Text)
      → IsSafe dir vs
      → Triple Here
          (run_up load read dir catalog lock digest config target force dry_run_execute files
            skipped)
          (λ r _. Guarded r)
          (λ _ s. Left s)
  unfolding run_up
  run_any force dry_run_execute files skipped safe =
      triple-if dry_run_execute _ _ (λ _. go _ _) (λ _. go _ _)
    where
      go :
          (block : Exec (Call pg) Problem Unit) (result : Locals → MigrateUpResult)
          → Triple Here
              (outside (guarded load read dir catalog lock digest config block) >>= λ l.
                pure (result l))
              (λ r _. Guarded r)
              (λ _ s. Left s)
      go block result =
          triple-bind {Q = λ _ _. Unit {0}} _ _
            (outside_rule _ Left
              (triple-weaken (λ _ _. tt) (λ _ _ h. h) (λ _ _ no. absurd no) (guarded_any block)))
            λ l. triple-pure _ λ _ _. inr safe

  after :
      (irreversible : Option (List Text)) (force dry_run_execute : Bool) (files skipped : List Text)
      → Passed pg laws up_law catalog tables checks asks dir vs true irreversible
      → Triple Here
          (after_gate irreversible skipped (
            run_up load read dir catalog lock digest config target force dry_run_execute files
              skipped))
          (λ r _. Guarded r)
          (λ _ s. Left s)
  after (some versions) force dry files skipped p = triple-pure _ λ _ _. inl refl
  after none force dry files skipped (inl off) = cc
  after none force dry files skipped (inr (inl closed)) = absurd (closed refl)
  after none force dry files skipped (inr (inr safe)) = run_any force dry files skipped safe

  pending_any :
      Triple Here
        (outside {pg = pg} (engine_call (find_pending dir)))
        (λ _ s. Here s)
        (λ _ s. Left s)
  unfolding find_pending
  pending_any = outside_rule _ Left (
      engine_rule _ (λ _. Unit {0}) (λ s. Calm pg vs s.conn)
        (triple-bind _ _ (versions-Calm pg laws up_law vs) λ found. triple-pure _ (λ s h. h.0))
        (λ _ t h. h))

  pending_step :
      (force dry_run dry_run_execute : Bool)
      → Triple
          (λ s. Calm pg vs s.engine.conn × Unit {0})
          (up_pending load read dir catalog lock digest config checks target true force dry_run
            dry_run_execute)
          (λ r _. Guarded r)
          (λ _ s. Left s)
  unfolding up_pending
  pending_step force dry_run dry_run_execute =
      triple-bind _ _ (opened pg laws up_law catalog tables vs) λ _.
        triple-bind _ _ (triple-if force _ _ (λ _. triple-pure _ λ _ h. h) (λ _. pending_any))
          λ files.
            triple-if dry_run _ _ (λ _. triple-pure _ λ _ _. inl refl)
              λ _.
                triple-if (null files) _ _ (λ _. triple-pure _ λ _ _. inl refl)
                  λ _.
                    triple-bind _ _
                      (gate_step pg laws up_law catalog tables checks asks dir vs true)
                      λ irreversible.
                        triple_assume Here
                          (Passed pg laws up_law catalog tables checks asks dir vs true
                            irreversible)
                          (after irreversible force dry_run_execute files _)

  up_step :
      (force dry_run dry_run_execute : Bool)
      → Triple
          (λ s. Calm pg vs s.engine.conn × Unit {0})
          (up load read dir catalog lock digest config checks target true force dry_run
            dry_run_execute)
          (λ r _. Guarded r)
          (λ _ s. Left s)
  unfolding up
  up_step force dry_run dry_run_execute =
      triple-if (dry_run && dry_run_execute) _ _ (λ _. triple-raise _ (λ _ h. h))
        λ _.
          triple-if (not (is_there dir)) _ _ (λ _. triple-raise _ (λ _ h. h))
            (λ _. pending_step force dry_run dry_run_execute)

  pub up_gated_step :
      (force dry_run dry_run_execute : Bool)
      → Triple
          (λ s. Calm pg vs s.engine.conn × Unit {0})
          (up load read dir catalog lock digest config checks target true force dry_run
            dry_run_execute)
          (λ r _. Guarded r)
          (λ _ s. Calm pg vs s.engine.conn)
  up_gated_step force dry_run dry_run_execute =
      triple-weaken (λ _ h. h) (λ _ _ h. h) (λ _ _ h. h.0) (up_step force dry_run dry_run_execute)

-- What `require_reversible` promises, whatever the migrations and the statements of the lock do, with
-- force too, and in a dry run that executes too: if `up` returns and reports a migration as applied, then every
-- pending `.up.sql` file had its `.down.sql` beside it. If it raises, the table is as before and
-- nothing is pending. The connection keeps PostgreSQL's laws and is not lost, the statements of the
-- preflight and of `initialize` leave the rows of the table alone, and nothing is pending before.
pub up_reversible :
    (pg : Connection) (laws : IsPostgres pg) (up_law : StaysUp pg)
    (load : Text → Outcome Raised (Migration pg)) (read : Text → Reading) (dir : Directory)
    (catalog : Catalog pg)
    → IsCatalog pg catalog
    → (lock : LockStatements pg) (digest : Digest) (config : LockConfig) (checks : Checks pg)
    → IsChecks pg checks
    → (target : Option Text) (force dry_run dry_run_execute : Bool) (s : Call pg) → IsSettled s
    → Ends
        (up load read dir catalog lock digest config checks target true force dry_run
          dry_run_execute s)
        (λ r _.
          (r.migrations_applied ≡ [])
          ⊎ All
              (λ f. has_way_down dir f ≡ true)
              (not_applied_files
                (pg.versions (pg.committed s.engine.conn))
                (find_migration_files dir)))
        (λ _ s'.
          (pg.versions (pg.committed s'.engine.conn) ≡ pg.versions (pg.committed s.engine.conn))
          × IsSettled s')
up_reversible pg laws up_law load read dir catalog tables lock digest config checks asks target
      force dry_run dry_run_execute s settled =
    record {
      post =
          (up_gated_step pg laws up_law load read dir catalog tables lock digest config checks asks
              target (pg.versions (pg.committed s.engine.conn)) force dry_run dry_run_execute).at
            s ((refl, settled), tt);
    }
