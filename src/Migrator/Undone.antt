-- ===== src/Migrator/Undone.antt =====
-- Proofs about `rollback` of transactional migrations.
use confiture.Base.{
  ◌≡◌, refl, sym, ◌∙◌, ap, Bool, true, false, not, List, [], All, contains, remove, nat_eq, list_eq,
}
use confiture.Base.Text.{Text}
use confiture.Base.Exec.{raise, ◌>>=◌}
use confiture.Base.Triple.{
  Ends, Triple, triple-bind, triple-try_except, triple-if, triple-pure, triple-raise, triple-weaken,
  triple_assume,
}
use confiture.Postgres.{Connection, migration_error, migr_100, no_code}
use confiture.Postgres.Laws.{IsPostgres}
use confiture.Migrator.{Migration, Migrator, on}
use confiture.Migrator.Apply.{savepoint_name}
use confiture.Migrator.Undo.{rollback_transactional, rollback}
use confiture.Migrator.Rules.{triple-on}
use confiture.Migrator.Applied.{IsCheck, Clean', applied_step, validate_step}

-- A `down` that does not end the transaction and, if it returns, has not touched the tracking table.
pub record DownStaysInside (pg : Connection) (m : Migration pg) : Type 0 where
  pub inside :
      (c : pg.Conn)
      → Ends
          (m.down c)
          (λ _ c'.
            (pg.committed c' ≡ pg.committed c)
            × (pg.versions (pg.current c') ≡ pg.versions (pg.current c)))
          (λ _ c'. pg.committed c' ≡ pg.committed c)

module _ (pg : Connection) (laws : IsPostgres pg) (m : Migration pg) (d0 : pg.Db) where
  open pg use {Conn, versions, current, committed}
  open laws use {delete_law, commit_law, rollback_law}

  -- The tracking table shows `vs`, and nothing is published.
  abbrev Open : List Text → Conn → Type 0
  Open vs c = (committed c ≡ d0) × (versions (current c) ≡ vs)

  abbrev Kept : Conn → Type 0
  Kept c = committed c ≡ d0

  abbrev without : List Text
  without = remove m.version (versions d0)

  -- What is committed without the version, and nothing pending.
  abbrev Gone : Conn → Type 0
  Gone c =
      (versions (committed c) ≡ without)
      × (current c ≡ committed c)
      × ((name : Text) → pg.saved c name ≡ [])

  down_step :
      DownStaysInside pg m
      → Triple {S = Migrator pg}
          (λ s. Open (versions d0) s.conn)
          (on m.down)
          (λ _ s. Open (versions d0) s.conn)
          (λ _ s. Kept s.conn)
  down_step stays =
      triple-on pg (Open (versions d0)) (λ _ c. Open (versions d0) c) (λ _ c. Kept c) stays.inside
        (λ c h _ c' l. (l.0 ∙ h.0, l.1 ∙ h.1)) (λ c h _ c' l. l ∙ h.0)

  delete_step :
      Triple {S = Migrator pg}
        (λ s. Open (versions d0) s.conn)
        (on (pg.delete_version m.version))
        (λ _ s. Open without s.conn)
        (λ _ s. Kept s.conn)
  delete_step =
      triple-on pg (Open (versions d0)) (λ _ c. Open without c) (λ _ c. Kept c)
        (delete_law m.version [])
        (λ c h _ c' l. (l.0.same_committed ∙ h.0, l.1 ∙ ap (remove m.version) h.1))
        (λ c h _ c' u. u.same_committed ∙ h.0)

  publish_step :
      Triple {S = Migrator pg}
        (λ s. Open without s.conn)
        (on pg.commit)
        (λ _ s. Gone s.conn)
        (λ _ s. Kept s.conn)
  publish_step =
      triple-on pg (Open without) (λ _ c. Gone c) (λ _ c. Kept c) commit_law
        (λ c h _ c' l. (ap versions l.0 ∙ h.1, l.1 ∙ sym l.0, l.2)) (λ c h _ c' l. l.0 ∙ h.0)

  give_up_step :
      Triple {S = Migrator pg}
        (λ s. Kept s.conn)
        (on pg.rollback >>= λ _. raise (migration_error no_code))
        (λ (_ : Unit {0}) s. ⊥)
        (λ _ s. Kept s.conn)
  give_up_step =
      triple-bind _ _
        (triple-on pg Kept (λ _ c. Kept c) (λ _ c. Kept c) rollback_law (λ c h _ c' l. l.0 ∙ h)
          (λ c h _ c' l. l ∙ h))
        (λ _. triple-raise (migration_error no_code) (λ _ h. h))

  undo_step :
      DownStaysInside pg m
      → Triple
          (λ s. Open (versions d0) s.conn)
          (rollback_transactional m)
          (λ _ s. Gone s.conn)
          (λ _ s. Kept s.conn)
  unfolding rollback_transactional
  undo_step stays =
      triple-try_except _ _
        (triple-bind _ _ (down_step stays) λ _. triple-bind _ _ delete_step λ _. publish_step)
        (λ _. triple-weaken (λ _ h. h) (λ _ _ no. absurd no) (λ _ _ h. h) give_up_step)

  rollback_step :
      (skip : Bool)
      → m.transactional ≡ true
      → DownStaysInside pg m
      → All (IsCheck pg) m.down_preconditions
      → Triple {S = Migrator pg}
          (λ s. Clean' pg laws m d0 s.conn)
          (rollback m skip)
          (λ _ s. (contains (versions d0) m.version ≡ true) × Gone s.conn)
          (λ _ s. Kept s.conn)
  unfolding rollback
  rollback_step skip transactional stays checks = triple-bind _ _ (applied_step pg laws m d0) λ b.
      triple-if (not b) _ _ (λ _. triple-raise (migration_error migr_100) (λ _ h. h.0.0))
        λ applied.
          triple_assume {S = Migrator pg} (λ s. Clean' pg laws m d0 s.conn)
            (b ≡ contains (versions d0) m.version)
            λ e.
              triple-bind _ _
                (triple-if {Q = λ _ s. Clean' pg laws m d0 s.conn} skip _ _
                  (λ _. triple-pure tt (λ _ h. h))
                  (λ _. validate_step pg laws m d0 m.down_preconditions checks))
                λ _.
                  triple-if m.transactional _ _
                    (λ _.
                      triple-weaken (λ _ h. (h.0, ap versions h.1))
                        (λ _ s h. (sym e ∙ double_not b applied, h)) (λ _ _ h. h) (undo_step stays))
                    (λ no. cc)
    where
      double_not : (b : Bool) → not b ≡ false → b ≡ true
      double_not true h = refl
      double_not false h = sym h

-- `rollback` of a transactional migration whose `down` stays inside its transaction and whose
-- preconditions only query, on a connection with PostgreSQL's laws, started with nothing pending and
-- with no savepoint of the migration's name. If it returns, the version was applied, it is gone from the committed table, nothing is pending and no savepoint is
-- left; if it raises, what is committed is what was committed before.
pub rollback_atomic :
    (pg : Connection) (laws : IsPostgres pg) (m : Migration pg) (skip : Bool)
    → m.transactional ≡ true
    → DownStaysInside pg m
    → All (IsCheck pg) m.down_preconditions
    → (s : Migrator pg) → pg.current s.conn ≡ pg.committed s.conn
    → pg.saved s.conn (savepoint_name m) ≡ []
    → Ends
        (rollback m skip s)
        (λ _ s'.
          (contains (pg.versions (pg.committed s.conn)) m.version ≡ true)
          × ((pg.versions (pg.committed s'.conn)
                ≡ remove m.version (pg.versions (pg.committed s.conn)))
              × (pg.current s'.conn ≡ pg.committed s'.conn)
              × ((name : Text) → pg.saved s'.conn name ≡ [])))
        (λ _ s'. pg.committed s'.conn ≡ pg.committed s.conn)
rollback_atomic pg laws m skip transactional stays checks s idle none_saved = record {
  post =
      (rollback_step pg laws m (pg.committed s.conn) skip transactional stays checks).at s
        (refl, idle, none_saved);
}
