-- ===== src/Session/UpGuarded.antt =====
-- Proofs about the loop of `up` under the lock, its exceptions caught.
use confiture.Base.{
  ◌≡◌, refl, sym, Bool, true, false, not, ◌&&◌, Option, none, some, List, [], append-nil, nat_eq,
  list_eq,
}
use confiture.Base.Text.{Text}
use confiture.Base.Exec.{Outcome, ok, gets, try_except}
use confiture.Base.Triple.{Triple, triple-bind, triple-try_except}
use confiture.Postgres.{Raised, Connection}
use confiture.Postgres.Laws.{IsPostgres, StaysUp}
use confiture.Locking.{Problem, LockConfig, Digest}
use confiture.Migrator.{Reading, Migration}
use confiture.Migrator.Tracking.{Catalog, IsCatalog}
use confiture.Migrator.Prefix.{IsTame, planned}
use confiture.Migrator.Calm.{Calm, Ready}
use confiture.Discovery.{Directory}
use confiture.Session.{Locals, new_locals, Call, LockStatements, locked}
use confiture.Session.Laws.{IsLock}
use confiture.Session.Up.{or_first, failing_first, change, up_each, guarded}
use confiture.Session.UpLoop.{is_none, due, Fresh, Reports, EndsWell, up_each_step, Fresh-report}
use confiture.Session.Rules.{change_step}
use confiture.Session.Locked.{AtRest, locked_rule}

module _ (pg : Connection) (laws : IsPostgres pg) (up_law : StaysUp pg)
    (load : Text → Outcome Raised (Migration pg)) (read : Text → Reading) (dir : Directory)
    (tame : (file : Text) (m : Migration pg) → load file ≡ ok m → IsTame pg m)
    (catalog : Catalog pg) (tables : IsCatalog pg catalog) (lock : LockStatements pg)
    (locks : IsLock pg lock) (digest : Digest) (config : LockConfig) (target : Option Text)
    (vs : List Text) where
  abbrev At : (List Text → Locals → Type 0) → Call pg → Type 0
  At G s = AtRest pg laws up_law lock locks digest config G s

  abbrev pub Good : List Text → List Text → Locals → Type 0
  Good files ws l =
      EndsWell pg laws up_law load read target tame vs (planned pg load files)
        (due pg load read target files) ws l

  abbrev Bad : List Text → List Text → Locals → Type 0
  Bad files ws l = Reports pg laws up_law load read target tame vs (planned pg load files) ws l

  under_lock :
      (files : List Text)
      → Triple
          (λ s.
            Ready pg vs s.engine.conn × Fresh pg laws up_law load read target tame vs [] s.locals)
          (locked lock digest config (up_each load read false target files))
          (λ _ s. At (Good files) s)
          (λ _ s. At (Bad files) s)
  under_lock files =
      locked_rule pg laws up_law lock locks digest config (up_each load read false target files) vs
        (Fresh pg laws up_law load read target tame vs []) (λ _. Good files) (Bad files)
        (λ l h.
          Fresh-report pg laws up_law load read target tame vs [] files vs l (sym (append-nil vs)) h
            (λ d. d))
        (λ _ ws l h. h.0)
        (up_each_step pg laws up_law load read target tame vs files [] vs (sym (append-nil vs))
          (λ d. d))

  first_failure : (o : Option Problem) (e : Problem) → is_none (or_first o e) ≡ false
  first_failure none e = refl
  first_failure (some x) e = refl

  noted_failure :
      (files ws : List Text) (e : Problem) (l : Locals)
      → Bad files ws l
      → Good files ws (record l { failed = or_first l.failed e })
  noted_failure files ws e l h = (
    h,
    λ c.
        absurd
          (unclean (is_none (or_first l.failed e)) (not l.halted) (first_failure l.failed e) c),
  )
    where
      unclean : (b c : Bool) → b ≡ false → (b && c) ≡ true → ⊥
      unclean true c h k = cc
      unclean false c h k = cc

  caught_step :
      (files : List Text)
      → Triple
          (λ s.
            Ready pg vs s.engine.conn × Fresh pg laws up_law load read target tame vs [] s.locals)
          (try_except
            (locked lock digest config (up_each load read false target files))
            (λ e. change (failing_first e)))
          (λ _ s. At (Good files) s)
          (λ _ _. ⊥)
  caught_step files = triple-try_except _ _ (under_lock files) (λ e.
      change_step (failing_first e) (λ s h. (h.0, h.1, noted_failure files h.0 e s.locals h.2)))

  read_step :
      (files : List Text)
      → Triple {E = Problem}
          (λ s. At (Good files) s)
          (gets (λ s. s.locals))
          (λ l s. (ws : List Text) × Calm pg ws s.engine.conn × Good files ws l)
          (λ _ _. ⊥)
  read_step files = record { at = λ s h. h }

  pub guarded_step :
      (files : List Text)
      → Triple
          (λ s. Ready pg vs s.engine.conn × Unit {0})
          (guarded load read dir catalog lock digest config (up_each load read false target files))
          (λ l s. (ws : List Text) × Calm pg ws s.engine.conn × Good files ws l)
          (λ _ _. ⊥)
  unfolding guarded
  guarded_step files =
      triple-bind _ _
        (change_step
          {Q = λ _ s.
            Ready pg vs s.engine.conn × Fresh pg laws up_law load read target tame vs [] s.locals}
          (λ _. new_locals) (λ s h. (h.0, (refl, refl, refl, refl))))
        λ _. triple-bind _ _ (caught_step files) (λ _. read_step files)
