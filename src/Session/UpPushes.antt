-- ===== src/Session/UpPushes.antt =====
-- Proofs about `up`, on the stack and on its result.
use mathlib.Core.List.{reverse-append}
use confiture.Base.{
  ◌≡◌, refl, sym, ◌∙◌, ap, subst, Bool, true, false, not, ◌&&◌, Option, none, some, List, ◌++◌,
  append-nil, reverse, null, IsDistinct, nat_eq, list_eq,
}
use confiture.Base.Text.{Text}
use confiture.Base.Exec.{Outcome, ok, pure, ◌>>=◌}
use confiture.Base.Triple.{
  Ends, Triple, triple-bind, triple-if, triple-pure, triple-raise, triple-weaken, triple_assume,
}
use confiture.Postgres.{Raised, Connection}
use confiture.Postgres.Laws.{IsPostgres, StaysUp}
use confiture.Locking.{Problem, LockConfig, Digest}
use confiture.Migrator.{Reading, Migration, Migrator}
use confiture.Migrator.Tracking.{Catalog, IsCatalog}
use confiture.Migrator.Batch.{find_pending}
use confiture.Migrator.Prefix.{IsTame, IsStart, planned}
use confiture.Migrator.Calm.{Calm, Ready, versions-Calm}
use confiture.Discovery.{Directory, find_migration_files, not_applied_files}
use confiture.Session.{
  SessionError, configuration_error, Locals, Call, LockStatements, engine_call, outside,
}
use confiture.Session.Laws.{IsLock}
use confiture.Session.Preflight.{Checks}
use confiture.Session.Gate.{IsChecks, gate_step}
use confiture.Session.Up.{
  gate_closed, after_gate, run_up, gate, MigrateUpResult, nothing_done, result_of, is_there,
  up_each, guarded, up_pending, up,
}
use confiture.Session.UpLoop.{is_none, due, due_none, EndsWell}
use confiture.Session.Rules.{engine_rule, outside_rule, opened}
use confiture.Session.Sequence.{versions_of}
use confiture.Session.Stack.{stack, IsSettled}
use confiture.Session.UpGuarded.{guarded_step}

module _ (pg : Connection) (laws : IsPostgres pg) (up_law : StaysUp pg)
    (load : Text → Outcome Raised (Migration pg)) (read : Text → Reading) (dir : Directory)
    (tame : (file : Text) (m : Migration pg) → load file ≡ ok m → IsTame pg m)
    (catalog : Catalog pg) (tables : IsCatalog pg catalog) (lock : LockStatements pg)
    (locks : IsLock pg lock) (digest : Digest) (config : LockConfig) (checks : Checks pg)
    (asks : IsChecks pg checks) (target : Option Text) (vs : List Text) where
  abbrev Good : List Text → List Text → Locals → Type 0
  Good files ws l =
      EndsWell pg laws up_law load read target tame vs (planned pg load files)
        (due pg load read target files) ws l

  -- What a result says of the table `ws`.
  abbrev Told : Bool → List Text → MigrateUpResult → List Text → Type 0
  Told dry_run files r ws =
      (ws ≡ vs ++ versions_of r.migrations_applied)
      × IsStart (versions_of r.migrations_applied) (planned pg load files)
      × (r.success ≡ (null r.errors && null r.skipped_superuser))
      × (dry_run ≡ false
          → r.success ≡ true
          → versions_of r.migrations_applied ≡ due pg load read target files)
      × (IsDistinct vs → IsDistinct ws)

  Told-of :
      (o : Option Problem) (files skipped ws : List Text) (l : Locals)
      → l.failed ≡ o
      → Good files ws l
      → Told false files (result_of false o skipped l) ws
  unfolding result_of
  Told-of (some e) files skipped ws l same h = (h.0.0, h.0.1, refl, λ _ no. cc, h.0.3)
  Told-of none files skipped ws l same h = (
    h.0.0,
    h.0.1,
    ap not h.0.2 ∙ double (null l.skipped_superuser),
    λ _ yes'. h.1 (ap (λ o. is_none o && not l.halted) same ∙ yes'),
    h.0.3,
  )
    where
      double : (b : Bool) → not (not b) ≡ b
      double true = refl
      double false = refl

  abbrev pending : List Text
  pending = not_applied_files vs (find_migration_files dir)

  found_step :
      Triple {S = Migrator pg}
        (λ s. Ready pg vs s.conn)
        (find_pending dir)
        (λ files s. Ready pg vs s.conn × (files ≡ pending))
        (λ _ s. Calm pg vs s.conn)
  unfolding find_pending
  found_step = triple-bind _ _ (versions-Calm pg laws up_law vs) λ found.
      triple-pure _ (λ s h. (h.0, ap (λ l. not_applied_files l (find_migration_files dir)) h.1))

  pending_step :
      Triple
        (λ s. Ready pg vs s.engine.conn × Unit {0})
        (outside {pg = pg} (engine_call (find_pending dir)))
        (λ files s. (Ready pg vs s.engine.conn × Unit {0}) × (files ≡ pending))
        (λ _ s. Calm pg vs s.engine.conn × Unit {0})
  pending_step =
      triple-weaken (λ _ h. h) (λ _ _ h. ((h.0.0, h.1), h.0.1)) (λ _ _ h. h)
        (outside_rule _ (λ s. Calm pg vs s.engine.conn × Unit {0})
          (engine_rule _ (λ _. Unit {0}) (λ s. Calm pg vs s.conn) found_step (λ _ t h. h)))

  abbrev Done : Bool → MigrateUpResult → Call pg → Type 0
  Done dry_run r s = (ws : List Text) × Calm pg ws s.engine.conn × Told dry_run pending r ws

  abbrev Kept : Call pg → Type 0
  Kept s = Calm pg vs s.engine.conn

  nothing-Told :
      (dry_run : Bool) (skipped : List Text)
      → (dry_run ≡ false → null pending ≡ true)
      → Told dry_run pending (nothing_done dry_run skipped) vs
  nothing-Told dry_run skipped h = (
    sym (append-nil vs),
    (planned pg load pending, refl),
    refl,
    λ d _. due_none pg load read target pending (h d),
    λ d. d,
  )

  run_step :
      (files : List Text) (skipped : List Text)
      → files ≡ pending
      → Triple
          (λ s. Ready pg vs s.engine.conn × Unit {0})
          (outside (
              guarded load read dir catalog lock digest config
                (up_each load read false target files))
            >>= λ l. pure (result_of false l.failed skipped l))
          (λ r s. Done false r s)
          (λ _ s. Kept s)
  run_step files skipped e =
      triple-bind _ _
        (outside_rule _ (λ s. Kept s)
          (triple-weaken (λ _ h. h) (λ _ _ h. h) (λ _ _ no. absurd no)
            (guarded_step pg laws up_law load read dir tame catalog tables lock locks digest config
              target vs files)))
        λ l. triple-pure _ λ s h. (
          h.0,
          h.1,
          subst (λ f. Told false f (result_of false l.failed skipped l) h.0) e
              (Told-of l.failed files skipped h.0 l refl h.2),
        )

  nothing_step :
      (dry_run b : Bool) (skipped : List Text)
      → (dry_run ≡ false → null pending ≡ true)
      → Triple {S = Call pg} {E = SessionError}
          (λ s. Ready pg vs s.engine.conn × Unit {0})
          (pure (nothing_done b skipped))
          (λ r s. Done dry_run r s)
          (λ _ s. Kept s)
  nothing_step dry_run b skipped h =
      triple-pure _ λ s r. (vs, (r.0.0, r.0.1), nothing-Told dry_run skipped h)

  closed_Told :
      (versions skipped : List Text) → Told false pending (gate_closed versions skipped) vs
  closed_Told versions skipped =
      (sym (append-nil vs), (planned pg load pending, refl), refl, λ _ no. cc, λ d. d)

  -- From the gate on.
  gated_step :
      (require_reversible : Bool) (files skipped : List Text)
      → files ≡ pending
      → Triple
          (λ s. Ready pg vs s.engine.conn × Unit {0})
          (gate catalog checks dir require_reversible >>= λ irreversible.
            after_gate irreversible skipped
              (run_up load read dir catalog lock digest config target false false files skipped))
          (λ r s. Done false r s)
          (λ _ s. Kept s)
  unfolding run_up
  gated_step require_reversible files skipped e =
      triple-bind _ _
        (triple-weaken (λ _ h. h) (λ _ _ h. h.0) (λ _ _ h. h.0)
          (gate_step pg laws up_law catalog tables checks asks dir vs require_reversible))
        after
    where
      after :
          (irreversible : Option (List Text))
          → Triple
              (λ s. Ready pg vs s.engine.conn × Unit {0})
              (after_gate irreversible skipped
                (run_up load read dir catalog lock digest config target false false files skipped))
              (λ r s. Done false r s)
              (λ _ s. Kept s)
      after none = run_step files skipped e
      after (some versions) =
          triple-pure _ λ s r. (vs, (r.0.0, r.0.1), closed_Told versions skipped)

  up_pending_step :
      (require_reversible dry_run : Bool)
      → Triple
          (λ s. Calm pg vs s.engine.conn × Unit {0})
          (up_pending load read dir catalog lock digest config checks target require_reversible
            false dry_run false)
          (λ r s. Done dry_run r s)
          (λ _ s. Kept s)
  unfolding up_pending run_up
  up_pending_step require_reversible dry_run =
      triple-bind _ _
        (triple-weaken (λ _ h. h) (λ _ _ h. h) (λ _ _ h. h.0)
          (opened pg laws up_law catalog tables vs))
        λ _.
          triple-bind _ _ (triple-weaken (λ _ h. h) (λ _ _ h. h) (λ _ _ h. h.0) pending_step)
            λ files.
              triple_assume {S = Call pg} (λ s. Ready pg vs s.engine.conn × Unit {0})
                (files ≡ pending)
                λ e.
                  triple-if dry_run _ _ (λ dry. nothing_step dry_run true _ (λ wet. cc))
                    λ wet.
                      triple-if (null files) _ _
                        (λ none_left.
                          nothing_step dry_run false _ (λ _. ap null (sym e) ∙ none_left))
                        (λ _.
                          triple-weaken (λ _ h. h)
                            (λ r s h. (h.0, h.1, subst (λ d. Told d pending r h.0) (sym wet) h.2))
                            (λ _ _ h. h) (gated_step require_reversible files _ e))

  up_step :
      (require_reversible dry_run : Bool)
      → Triple
          (λ s. Calm pg vs s.engine.conn × Unit {0})
          (up load read dir catalog lock digest config checks target require_reversible false
            dry_run false)
          (λ r s. Done dry_run r s)
          (λ _ s. Kept s)
  unfolding up
  up_step require_reversible dry_run =
      triple-if (dry_run && false) _ _ (λ _. triple-raise configuration_error (λ _ h. h.0))
        λ _.
          triple-if (not (is_there dir)) _ _ (λ _. triple-raise _ (λ _ h. h.0))
            (λ _. up_pending_step require_reversible dry_run)

  pub up_stack :
      (require_reversible dry_run : Bool)
      → Triple
          (λ s. Calm pg vs s.engine.conn × Unit {0})
          (up load read dir catalog lock digest config checks target require_reversible false
            dry_run false)
          (λ r s.
            (stack s ≡ reverse (versions_of r.migrations_applied) ++ reverse vs)
            × IsStart (versions_of r.migrations_applied) (planned pg load pending)
            × (r.success ≡ (null r.errors && null r.skipped_superuser))
            × (dry_run ≡ false
                → r.success ≡ true
                → versions_of r.migrations_applied ≡ due pg load read target pending)
            × (IsDistinct vs → IsDistinct (pg.versions (pg.committed s.engine.conn)))
            × IsSettled s)
          (λ _ s. (pg.versions (pg.committed s.engine.conn) ≡ vs) × IsSettled s)
  up_stack require_reversible dry_run =
      triple-weaken (λ _ h. h)
        (λ r s h.
          let (ws, (now, calm), (said, start, good, complete, distinct)) = h in
          (
            ap reverse (now ∙ said) ∙ reverse-append vs (versions_of r.migrations_applied),
            start,
            good,
            complete,
            λ d. subst IsDistinct (sym now) (distinct d),
            calm,
          ))
        (λ _ s h. h) (up_step require_reversible dry_run)

-- `up` without `force`, on the stack of the committed versions: the connection keeps PostgreSQL's
-- laws and is not lost, the statements of the lock, of the preflight and of `initialize` leave the rows of the table
-- alone, every migration that loads is transactional and stays inside its transaction, and nothing is
-- pending. If `up` returns, it has put on the stack exactly the versions that its result reports as
-- applied, in their order, and these are a beginning of the pending migrations in the order of their
-- versions; this holds for a result of failure too. The result is a success exactly if it reports no
-- error and no migration left to a superuser, and then, unless it was a dry run, everything due up to
-- the target was applied. If the versions in the table were distinct, they still are. If `up` raises,
-- the table is as before. In either case nothing is pending.
pub up_pushes :
    (pg : Connection) (laws : IsPostgres pg) (up_law : StaysUp pg)
    (load : Text → Outcome Raised (Migration pg)) (read : Text → Reading) (dir : Directory)
    → ((file : Text) (m : Migration pg) → load file ≡ ok m → IsTame pg m)
    → (catalog : Catalog pg) → IsCatalog pg catalog
    → (lock : LockStatements pg) → IsLock pg lock
    → (digest : Digest) (config : LockConfig) (checks : Checks pg) → IsChecks pg checks
    → (target : Option Text) (require_reversible dry_run : Bool) (s : Call pg) → IsSettled s
    → let files =
        not_applied_files (pg.versions (pg.committed s.engine.conn)) (find_migration_files dir) in
      Ends
        (up load read dir catalog lock digest config checks target require_reversible false dry_run
          false s)
        (λ r s'.
          (stack s' ≡ reverse (versions_of r.migrations_applied) ++ stack s)
          × IsStart (versions_of r.migrations_applied) (planned pg load files)
          × (r.success ≡ (null r.errors && null r.skipped_superuser))
          × (dry_run ≡ false
              → r.success ≡ true
              → versions_of r.migrations_applied ≡ due pg load read target files)
          × (IsDistinct (pg.versions (pg.committed s.engine.conn))
              → IsDistinct (pg.versions (pg.committed s'.engine.conn)))
          × IsSettled s')
        (λ _ s'.
          (pg.versions (pg.committed s'.engine.conn) ≡ pg.versions (pg.committed s.engine.conn))
          × IsSettled s')
up_pushes pg laws up_law load read dir tame catalog tables lock locks digest config checks asks
      target require_reversible dry_run s settled =
    record {
      post =
          (up_stack pg laws up_law load read dir tame catalog tables lock locks digest config checks
              asks target (pg.versions (pg.committed s.engine.conn)) require_reversible dry_run).at
            s ((refl, settled), tt);
    }
