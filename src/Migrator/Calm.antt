-- ===== src/Migrator/Calm.antt =====
-- The states between two calls: what is committed, and that nothing is pending.
use confiture.Base.{
  ◌≡◌, refl, sym, ◌∙◌, ap, Bool, true, false, not, Option, List, [], ◌∷◌, ◌++◌, All, contains,
  remove, nat_eq, list_eq,
}
use confiture.Base.Text.{Text}
use confiture.Base.Exec.{Exec}
use confiture.Base.Triple.{
  Ends, Triple, triple-bind, triple-try_except, triple-if, triple-pure, triple-raise, triple-weaken,
  triple-both, ends-both, ends-Post,
}
use confiture.Postgres.{Raised, Connection, migration_error, no_code}
use confiture.Postgres.Laws.{IsPostgres, IsQuery, StaysUp}
use confiture.Migrator.{Reading, Migration, Migrator, on}
use confiture.Migrator.Tracking.{
  Ddl, Catalog, IsCatalog, execute_all, initialize, found, new_table, add_applied_by,
}
use confiture.Migrator.Apply.{savepoint_name, apply}
use confiture.Migrator.Undo.{rollback}
use confiture.Migrator.Rules.{triple-on}
use confiture.Migrator.Applied.{IsCheck, apply_atomic}
use confiture.Migrator.Prefix.{IsTame}
use confiture.Migrator.Undone.{DownStaysInside, rollback_atomic}
use confiture.Migrator.Settled.{rollback-Settled, apply-Settled}

module _ (pg : Connection) where
  -- The table `vs` is committed and nothing is pending.
  abbrev pub Calm : List Text → pg.Conn → Type 0
  Calm vs c = (pg.versions (pg.committed c) ≡ vs) × (pg.current c ≡ pg.committed c)

  -- Nor is a savepoint open.
  abbrev pub Ready : List Text → pg.Conn → Type 0
  Ready vs c =
      (pg.versions (pg.committed c) ≡ vs)
      × (pg.current c ≡ pg.committed c)
      × ((name : Text) → pg.saved c name ≡ [])

  -- The session sees the table that is committed.
  abbrev pub Level : List Text → pg.Conn → Type 0
  Level vs c = (pg.versions (pg.committed c) ≡ vs) × (pg.versions (pg.current c) ≡ vs)

-- What rolling a migration back asks of it.
pub record IsUndoable (pg : Connection) (m : Migration pg) : Type 0 where
  pub transactional : m.transactional ≡ true
  pub stays : DownStaysInside pg m
  pub checks : All (IsCheck pg) m.down_preconditions

module _ (pg : Connection) (laws : IsPostgres pg) (up : StaysUp pg) where
  open pg use {Conn, versions, current, committed, saved}
  open laws use {commit_law, rollback_law, select_law}

  pub back_calm :
      (vs : List Text)
      → Triple {S = Migrator pg}
          (λ s. versions (committed s.conn) ≡ vs)
          (on pg.rollback)
          (λ _ s. Ready pg vs s.conn)
          (λ _ _. ⊥)
  back_calm vs =
      triple-on pg (λ c. versions (committed c) ≡ vs) (λ _ c. Ready pg vs c) (λ _ _. ⊥)
        (λ c. ends-both (rollback_law c) (up.rollback_up c))
        (λ c h _ c' l. (ap versions l.0.0 ∙ h, l.0.1 ∙ sym l.0.0, l.0.2)) (λ c h _ c' l. l.1)

  pub commit_calm :
      (vs : List Text)
      → Triple {S = Migrator pg}
          (λ s. Level pg vs s.conn)
          (on pg.commit)
          (λ _ s. Ready pg vs s.conn)
          (λ _ s. Ready pg vs s.conn)
  commit_calm vs =
      triple-on pg (Level pg vs) (λ _ c. Ready pg vs c) (λ _ c. Ready pg vs c) commit_law
        (λ c h _ c' l. (ap versions l.0 ∙ h.1, l.1 ∙ sym l.0, l.2))
        (λ c h _ c' l. (ap versions l.0 ∙ h.0, l.2, l.1))

  -- A query that returns leaves the state as it is; one that raises leaves nothing pending.
  pub query-Calm :
      {A : Type 0} (m : Exec Conn Raised A) (Answer : Conn → A → Type 0) (vs : List Text)
      → IsQuery pg m Answer
      → Triple {S = Migrator pg}
          (λ s. Ready pg vs s.conn)
          (on m)
          (λ _ s. Ready pg vs s.conn)
          (λ _ s. Calm pg vs s.conn)
  query-Calm m Answer vs law =
      triple-on pg (Ready pg vs) (λ _ c. Ready pg vs c) (λ _ c. Calm pg vs c) law
        (λ c h _ c' l. (
          ap versions (l.0 []).same_committed ∙ h.0,
          l.1 ∙ h.1 ∙ sym (l.0 []).same_committed,
          λ name. (l.0 name).same_saved ∙ h.2 name,
        ))
        (λ c h _ c' l. (ap versions (l.0 []).same_committed ∙ h.0, l.1 h.1))

  pub versions-Calm :
      (vs : List Text)
      → Triple {S = Migrator pg}
          (λ s. Ready pg vs s.conn)
          (on pg.select_versions)
          (λ found s. Ready pg vs s.conn × (found ≡ vs))
          (λ _ s. Calm pg vs s.conn)
  versions-Calm vs =
      triple-on pg (Ready pg vs) (λ found c. Ready pg vs c × (found ≡ vs)) (λ _ c. Calm pg vs c)
        select_law
        (λ c h found c' l. (
          (
            ap versions (l.0 []).same_committed ∙ h.0,
            l.1 ∙ h.1 ∙ sym (l.0 []).same_committed,
            λ name. (l.0 name).same_saved ∙ h.2 name,
          ),
          l.2 ∙ ap versions h.1 ∙ h.0,
        ))
        (λ c h _ c' l. (ap versions (l.0 []).same_committed ∙ h.0, l.1 h.1))

  -- A statement that leaves the rows alone and publishes nothing.
  abbrev IsRowless : {A : Type 0} → Exec Conn Raised A → Type 0
  IsRowless m =
      (c : Conn)
      → Ends (m c)
          (λ _ c'. (committed c' ≡ committed c) × (versions (current c') ≡ versions (current c)))
          (λ _ c'. committed c' ≡ committed c)

  rowless-Level :
      {A : Type 0} (m : Exec Conn Raised A) (vs : List Text)
      → IsRowless m
      → Triple {S = Migrator pg}
          (λ s. Level pg vs s.conn)
          (on m)
          (λ _ s. Level pg vs s.conn)
          (λ _ s. versions (committed s.conn) ≡ vs)
  rowless-Level m vs law =
      triple-on pg (Level pg vs) (λ _ c. Level pg vs c) (λ _ c. versions (committed c) ≡ vs) law
        (λ c h _ c' l. (ap versions l.0 ∙ h.0, l.1 ∙ h.1)) (λ c h _ c' l. ap versions l ∙ h.0)

  module _ (catalog : Catalog pg) (tables : IsCatalog pg catalog) where
    exists_IsRowless : IsRowless catalog.table_exists
    exists_IsRowless c = record {
      post =
          ends-Post
            (λ _ c'. (committed c' ≡ committed c) × (versions (current c') ≡ versions (current c)))
            (λ _ c'. committed c' ≡ committed c) (tables.exists_law c)
            (λ _ c' l. ((l.0 []).same_committed, ap versions l.1))
            (λ _ c' l. (l.0 []).same_committed);
    }

    execute_all-Level :
        (vs : List Text) (ddl : List Ddl)
        → Triple {S = Migrator pg}
            (λ s. Level pg vs s.conn)
            (execute_all catalog ddl)
            (λ _ s. Level pg vs s.conn)
            (λ _ s. versions (committed s.conn) ≡ vs)
    unfolding execute_all
    execute_all-Level vs [] = triple-pure tt (λ _ h. h)
    execute_all-Level vs (d ∷ ddl) =
        triple-bind _ _ (rowless-Level (catalog.execute d) vs (tables.execute_law d))
          (λ _. execute_all-Level vs ddl)

    -- `initialize` keeps the rows, and leaves nothing pending whether it returns or raises.
    pub initialize-Ready :
        (vs : List Text)
        → Triple {S = Migrator pg}
            (λ s. Calm pg vs s.conn)
            (initialize catalog)
            (λ _ s. Ready pg vs s.conn)
            (λ _ s. Ready pg vs s.conn)
    unfolding initialize
    initialize-Ready vs =
        triple-try_except {R' = λ _ s. versions (committed s.conn) ≡ vs} _ _
          (triple-bind _ _
            (triple-weaken (λ _ h. (h.0, ap versions h.1 ∙ h.0)) (λ _ _ h. h) (λ _ _ h. h)
              (rowless-Level catalog.table_exists vs exists_IsRowless))
            λ row.
              triple-bind _ _
                (triple-if (not (found row)) _ _ (λ _. execute_all-Level vs (new_table catalog))
                  (λ _. execute_all-Level vs (add_applied_by ∷ [])))
                λ _. triple-weaken (λ _ h. h) (λ _ _ h. h) (λ _ _ h. h.0) (commit_calm vs))
          λ _.
            triple-bind _ _
              (triple-weaken (λ _ h. h) (λ _ _ h. h) (λ _ _ no. absurd no) (back_calm vs))
              (λ _. triple-raise (migration_error no_code) (λ _ h. h))

  -- Rolling back takes the version out of the committed table; if it raises, the table is as before.
  pub rollback-Ready :
      (m : Migration pg) (skip : Bool) (vs : List Text)
      → IsUndoable pg m
      → Triple
          (λ s. Ready pg vs s.conn)
          (rollback m skip)
          (λ _ s. Ready pg (remove m.version vs) s.conn × (contains vs m.version ≡ true))
          (λ _ s. Calm pg vs s.conn)
  rollback-Ready m skip vs u =
      triple-weaken (λ s h. (h, h.1)) (λ _ _ h. h.0) (λ _ _ h. h)
        (triple-both
          (record {
            at = λ s h.
                ends-Post
                  (λ _ s. Ready pg (remove m.version vs) s.conn × (contains vs m.version ≡ true))
                  (λ _ s. versions (committed s.conn) ≡ vs)
                  (rollback_atomic pg laws m skip u.transactional u.stays u.checks s h.1
                    (h.2 (savepoint_name m)))
                  (λ _ s' l. (
                    (l.1.0 ∙ ap (remove m.version) h.0, l.1.1, l.1.2),
                    ap (λ l. contains l m.version) (sym h.0) ∙ l.0,
                  ))
                  (λ _ s' l. ap versions l ∙ h.0);
          })
          (rollback-Settled pg laws up m skip u.transactional u.checks))

  -- Applying adds the version as the newest; if it raises, the table is as before.
  pub apply-Ready :
      (m : Migration pg) (now : Reading) (skip : Bool) (applied_by : Option Text) (vs : List Text)
      → IsTame pg m
      → Triple
          (λ s. Ready pg vs s.conn)
          (apply m now false skip true applied_by)
          (λ _ s. Ready pg (vs ++ (m.version ∷ [])) s.conn × (contains vs m.version ≡ false))
          (λ _ s. Calm pg vs s.conn)
  apply-Ready m now skip applied_by vs t =
      triple-weaken (λ s h. (h, h.1)) (λ _ _ h. h.0) (λ _ _ h. h)
        (triple-both
          (record {
            at = λ s h.
                ends-Post
                  (λ _ s.
                    Ready pg (vs ++ (m.version ∷ [])) s.conn × (contains vs m.version ≡ false))
                  (λ _ s. versions (committed s.conn) ≡ vs)
                  (apply_atomic pg laws m now false skip applied_by t.transactional t.stays t.checks
                    s h.1 (h.2 (savepoint_name m)))
                  (λ _ s' l.
                    let fresh : contains vs m.version ≡ false =
                      ap (λ l. contains l m.version) (sym h.0) ∙ l.1 in
                    ((l.0 ∙ rw (h.0, fresh) refl, l.2, l.3), fresh))
                  (λ _ s' l. ap versions l ∙ h.0);
          })
          (apply-Settled pg laws up m now false skip applied_by t.transactional t.checks))
