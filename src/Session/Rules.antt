-- ===== src/Session/Rules.antt =====
-- From what the engine does to what a call of the session does.
use confiture.Base.Exec.{Outcome, ok, err, Exec, relabel}
use confiture.Base.Triple.{Post, Triple}
use confiture.Base.{◌≡◌, List}
use confiture.Base.Text.{Text}
use confiture.Postgres.{Raised, Connection}
use confiture.Postgres.Laws.{IsPostgres, StaysUp}
use confiture.Migrator.{Migrator, on}
use confiture.Migrator.Tracking.{Catalog, IsCatalog, initialize}
use confiture.Migrator.Calm.{Calm, Ready, initialize-Ready, versions-Calm}
use confiture.Locking.{Problem, engine_error}
use confiture.Session.Up.{change}
use confiture.Session.{SessionError, other, Locals, Call, engine_call, outside}

module _ {pg : Connection} {A : Type 0} where
  -- The engine does not touch the local variables.
  pub engine_rule :
      (m : Exec (Migrator pg) Raised A) (F : Locals → Type 0) {P : Migrator pg → Type 0}
      {Q : A → Migrator pg → Type 0} {R : Raised → Migrator pg → Type 0} (R' : Migrator pg → Type 0)
      → Triple P m Q R
      → ((e : Raised) (t : Migrator pg) → R e t → R' t)
      → Triple
          (λ s. P s.engine × F s.locals)
          (engine_call m)
          (λ a s. Q a s.engine × F s.locals)
          (λ _ s. R' s.engine × F s.locals)
  engine_rule m F {Q} {R} R' t weaker = record {
    at = λ s h. go s h.1 (m s.engine).0 (m s.engine).1 (t.at s.engine h.0);
  }
    where
      go :
          (s : Call pg)
          → F s.locals
          → (o : Outcome Raised A) (t : Migrator pg) → Post Q R o t
          → Post {E = Problem}
              (λ a s. Q a s.engine × F s.locals)
              (λ _ s. R' s.engine × F s.locals)
              (relabel engine_error o)
              (record s { engine = t })
      go s f (ok a) t h = (h, f)
      go s f (err e) t h = (weaker e t h, f)

  pub outside_rule :
      (m : Exec (Call pg) Problem A) {P : Call pg → Type 0} {Q : A → Call pg → Type 0}
      (R : Call pg → Type 0)
      → Triple P m Q (λ _ s. R s)
      → Triple P (outside m) Q (λ _ s. R s)
  outside_rule m {Q} R t = record { at = λ s h. go (m s).0 (m s).1 (t.at s h) }
    where
      go :
          (o : Outcome Problem A) (s : Call pg)
          → Post Q (λ _ s. R s) o s
          → Post {E = SessionError} Q (λ _ s. R s) (relabel other o) s
      go (ok a) s h = h
      go (err e) s h = h

module _ (pg : Connection) (laws : IsPostgres pg) (up : StaysUp pg) (catalog : Catalog pg)
    (tables : IsCatalog pg catalog) where
  abbrev Anything : Locals → Type 0
  Anything l = Unit

  pub opened :
      (vs : List Text)
      → Triple
          (λ s. Calm pg vs s.engine.conn × Unit {0})
          (outside (engine_call (initialize catalog)))
          (λ _ s. Ready pg vs s.engine.conn × Unit {0})
          (λ _ s. Calm pg vs s.engine.conn × Unit {0})
  opened vs =
      outside_rule (engine_call (initialize catalog)) (λ s. Calm pg vs s.engine.conn × Unit {0})
        (engine_rule (initialize catalog) Anything (λ s. Calm pg vs s.conn)
          (initialize-Ready pg laws up catalog tables vs) (λ _ t h. (h.0, h.1)))

  pub selected :
      (vs : List Text)
      → Triple
          (λ s. Ready pg vs s.engine.conn × Unit {0})
          (outside (engine_call (on {pg = pg} pg.select_versions)))
          (λ found s. (Ready pg vs s.engine.conn × (found ≡ vs)) × Unit {0})
          (λ _ s. Calm pg vs s.engine.conn × Unit {0})
  selected vs =
      outside_rule (engine_call (on {pg = pg} pg.select_versions))
        (λ s. Calm pg vs s.engine.conn × Unit {0})
        (engine_rule (on {pg = pg} pg.select_versions) Anything (λ s. Calm pg vs s.conn)
          (versions-Calm pg laws up vs) (λ _ t h. h))

-- A step that only touches the local variables.
pub change_step :
    {pg : Connection} {P : Call pg → Type 0} {Q : Unit {0} → Call pg → Type 0}
    {R : Problem → Call pg → Type 0} (f : Locals → Locals)
    → ((s : Call pg) → P s → Q tt (record s { locals = f s.locals }))
    → Triple P (change f) Q R
change_step f h = record { at = h }
