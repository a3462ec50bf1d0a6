-- ===== src/Migrator/Atomic.antt =====
-- Proofs about `apply_transactional`.
use confiture.Base.{
  ◌≡◌, refl, sym, ◌∙◌, ap, Bool, true, false, Option, none, some, List, [], ◌∷◌, ◌++◌,
  if◌then◌else◌, All, inl, inr, Bool-cases,
}
use confiture.Base.Text.{Text}
use confiture.Base.Exec.{Outcome, ok, err, pure, raise}
use confiture.Base.Triple.{
  Ends, Triple, triple-bind, triple-try_except, triple-pure, triple-raise, triple-weaken,
}
use confiture.Postgres.{os_error, Row, Raised, Connection}
use confiture.Postgres.Laws.{IsPostgres, Unpublished}
use confiture.Migrator.{
  before_execute, after_execute, Reading, outside_transaction, wrapped, Migration, Migrator, on,
}
use confiture.Migrator.Steps.{
  rollback_to_savepoint, record_migration, migration_row, recorded_checksum, applier,
  check_envelope,
}
use confiture.Migrator.Apply.{
  savepoint_name, transactional_body, transactional_failure, apply_transactional,
}
use confiture.Migrator.Rules.{triple-on, triple-trigger}

-- A body that neither commits nor rolls back, that leaves confiture's savepoint in place and, if
-- it returns, has not touched the tracking table.
pub record StaysInside (pg : Connection) (m : Migration pg) : Type 0 where
  pub inside :
      (c : pg.Conn)
      → Ends
          (m.up c)
          (λ _ c'.
            Unpublished pg (savepoint_name m) c c'
            × (pg.versions (pg.current c') ≡ pg.versions (pg.current c)))
          (λ _ c'. Unpublished pg (savepoint_name m) c c')

module _ (pg : Connection) (laws : IsPostgres pg) (m : Migration pg) (d0 : pg.Db) where
  open pg use {Conn, Db, versions, current, committed, saved}
  open laws use {
    savepoint_law, release_law, rollback_to_law, commit_law, rollback_law, insert_law, user_law,
  }

  -- Before the savepoint: nothing is pending.
  abbrev pub Clean : Conn → Type 0
  Clean c = (committed c ≡ d0) × (current c ≡ d0) × (saved c (savepoint_name m) ≡ [])

  -- Inside: the savepoint holds what is committed, and the tracking table holds `vs`.
  abbrev Inside : List Text → Conn → Type 0
  Inside vs c =
      (committed c ≡ d0) × (saved c (savepoint_name m) ≡ d0 ∷ []) × (versions (current c) ≡ vs)

  -- Whatever went wrong: nothing is published, and only `d0` can be brought back.
  abbrev Safe : Conn → Type 0
  Safe c = (committed c ≡ d0) × All (λ d. d ≡ d0) (saved c (savepoint_name m))

  Safe-of :
      (c c' : Conn) (xs : List Db)
      → committed c ≡ d0
      → saved c (savepoint_name m) ≡ xs
      → All (λ d. d ≡ d0) xs
      → Unpublished pg (savepoint_name m) c c'
      → Safe c'
  Safe-of c c' xs a b h u = (u.same_committed ∙ a, rw (u.same_saved ∙ b) h)

  abbrev Fails : Raised → Migrator pg → Type 0
  Fails _ s = Safe s.conn

  savepoint_step :
      Triple
        (λ s. Clean s.conn)
        (on (pg.create_savepoint (savepoint_name m)))
        (λ _ s. Inside (versions d0) s.conn)
        Fails
  savepoint_step =
      triple-on pg Clean (λ _ c. Inside (versions d0) c) (λ _ c. Safe c)
        (savepoint_law (savepoint_name m))
        (λ c h _ c' l. (l.0 ∙ h.0, l.2 ∙ rw (h.1, h.2), ap versions (l.1 ∙ h.1)))
        (λ c h _ c' u. Safe-of c c' [] h.0 h.2 tt u)

  up_step :
      StaysInside pg m
      → (vs : List Text) → Triple (λ s. Inside vs s.conn) (on m.up) (λ _ s. Inside vs s.conn) Fails
  up_step stays vs =
      triple-on pg (Inside vs) (λ _ c. Inside vs c) (λ _ c. Safe c) (stays.inside)
        (λ c h _ c' l. (l.0.same_committed ∙ h.0, l.0.same_saved ∙ h.1, l.1 ∙ h.2))
        (λ c h _ c' u. Safe-of c c' (d0 ∷ []) h.0 h.1 (refl, tt) u)

  user_step :
      (vs : List Text)
      → Triple (λ s. Inside vs s.conn) (on pg.current_user) (λ _ s. Inside vs s.conn) Fails
  user_step vs =
      triple-on pg (Inside vs) (λ _ c. Inside vs c) (λ _ c. Safe c) user_law
        (λ c h _ c' l. (
          (l.0 (savepoint_name m)).same_committed ∙ h.0,
          (l.0 (savepoint_name m)).same_saved ∙ h.1,
          ap versions l.1 ∙ h.2,
        ))
        (λ c h _ c' u. Safe-of c c' (d0 ∷ []) h.0 h.1 (refl, tt) (u.0 (savepoint_name m)))

  envelope_step :
      (vs : List Text)
      → Triple (λ s. Inside vs s.conn) check_envelope (λ _ s. Inside vs s.conn) Fails
  unfolding check_envelope
  envelope_step vs = record {
    at = λ s h. elim (Bool-cases (outside_transaction (pg.transaction_status s.conn))) [
      | inl out ↦ rw out (h.0, rw h.1 (refl, tt))
      | inr within ↦ rw within h
    ];
  }

  applier_step :
      (vs : List Text) (applied_by : Option Text)
      → Triple (λ s. Inside vs s.conn) (applier applied_by) (λ _ s. Inside vs s.conn) Fails
  unfolding applier
  applier_step vs none = user_step vs
  applier_step vs (some role) = triple-pure (some role) (λ _ h. h)

  insert_step :
      (vs : List Text) (row : Row)
      → Triple
          (λ s. Inside vs s.conn)
          (on (pg.insert_row row))
          (λ _ s. Inside (vs ++ (row.version ∷ [])) s.conn)
          Fails
  insert_step vs row =
      triple-on pg (Inside vs) (λ _ c. Inside (vs ++ (row.version ∷ [])) c) (λ _ c. Safe c)
        (insert_law row (savepoint_name m))
        (λ c h _ c' l. (
          l.0.same_committed ∙ h.0,
          l.0.same_saved ∙ h.1,
          l.2 ∙ ap (λ l. l ++ (row.version ∷ [])) h.2,
        ))
        (λ c h _ c' u. Safe-of c c' (d0 ∷ []) h.0 h.1 (refl, tt) u)

  checksum_step :
      (vs : List Text) (o : Outcome Text (Option Text))
      → Triple (λ s. Inside vs s.conn) (recorded_checksum o) (λ _ s. Inside vs s.conn) Fails
  checksum_step vs (ok checksum) = triple-pure checksum (λ _ h. h)
  checksum_step vs (err message) = triple-raise (os_error message) (λ _ h. (h.0, rw h.1 (refl, tt)))

  record_step :
      (vs : List Text) (now : Reading) (applied_by : Option Text)
      → Triple
          (λ s. Inside vs s.conn)
          (record_migration m now applied_by)
          (λ _ s. Inside (vs ++ (m.version ∷ [])) s.conn)
          Fails
  unfolding record_migration
  record_step vs now applied_by = triple-bind _ _ (checksum_step vs now.checksum) λ checksum.
      triple-bind _ _ (applier_step vs applied_by)
        (λ role. insert_step vs (migration_row m now checksum role))

  -- The table after the step that records the version, or does not.
  abbrev pub recorded : Bool → List Text
  recorded already_applied =
      if already_applied then versions d0 else versions d0 ++ (m.version ∷ [])

  maybe_record_step :
      (already_applied : Bool) (now : Reading) (applied_by : Option Text)
      → Triple
          (λ s. Inside (versions d0) s.conn)
          (if already_applied then pure tt else record_migration m now applied_by)
          (λ _ s. Inside (recorded already_applied) s.conn)
          Fails
  maybe_record_step true now applied_by = triple-pure tt (λ _ h. h)
  maybe_record_step false now applied_by = record_step (versions d0) now applied_by

  -- After the savepoint is gone: the work is pending as a whole.
  abbrev pub Pending : List Text → Conn → Type 0
  Pending vs c =
      (committed c ≡ d0) × (saved c (savepoint_name m) ≡ []) × (versions (current c) ≡ vs)

  release_step :
      (vs : List Text)
      → Triple
          (λ s. Inside vs s.conn)
          (on (pg.release_savepoint (savepoint_name m)))
          (λ _ s. Pending vs s.conn)
          Fails
  release_step vs =
      triple-on pg (Inside vs) (λ _ c. Pending vs c) (λ _ c. Safe c)
        (release_law (savepoint_name m))
        (λ c h _ c' l. (l.0 ∙ h.0, let (d, e) = l.2 in cc (h.1, e), ap versions l.1 ∙ h.2))
        (λ c h _ c' u. Safe-of c c' (d0 ∷ []) h.0 h.1 (refl, tt) u)

  -- With the commit at the end the table `vs` is committed, and nothing is pending; without it
  -- `vs` is pending.
  abbrev pub Done : Bool → List Text → Conn → Type 0
  Done true vs c =
      (versions (committed c) ≡ vs)
      × (current c ≡ committed c)
      × ((name : Text) → saved c name ≡ [])
  Done false vs c = Pending vs c

  commit_step :
      (commit : Bool) (vs : List Text)
      → Triple
          (λ s. Pending vs s.conn)
          (if commit then on pg.commit else pure tt)
          (λ _ s. Done commit vs s.conn)
          Fails
  commit_step false vs = triple-pure tt (λ _ h. h)
  commit_step true vs =
      triple-on pg (Pending vs) (λ _ c. Done true vs c) (λ _ c. Safe c) commit_law
        (λ c h _ c' l. (ap versions l.0 ∙ h.2, l.1 ∙ sym l.0, l.2))
        (λ c h _ c' l. (l.0 ∙ h.0, rw (l.1 (savepoint_name m)) tt))

  body_step :
      (already_applied : Bool) (now : Reading) (commit : Bool) (applied_by : Option Text)
      → StaysInside pg m
      → Triple
          (λ s. Clean s.conn)
          (transactional_body m already_applied now commit applied_by)
          (λ _ s. Done commit (recorded already_applied) s.conn)
          Fails
  unfolding transactional_body
  body_step already_applied now commit applied_by stays =
      let vs = versions d0 in
      triple-bind _ _ savepoint_step λ _.
        triple-bind _ _ (triple-trigger pg (Inside vs) Fails before_execute m false) λ _.
          triple-bind _ _ (up_step stays vs) λ _. triple-bind _ _ (envelope_step vs) λ _.
            triple-bind _ _ (triple-trigger pg (Inside vs) Fails after_execute m true) λ _.
              triple-bind _ _ (maybe_record_step already_applied now applied_by) λ _.
                triple-bind _ _ (release_step (recorded already_applied))
                  λ _. commit_step commit (recorded already_applied)

  -- Nothing of the migration is published.
  abbrev pub Unchanged : Conn → Type 0
  Unchanged c = committed c ≡ d0

  back_step :
      Triple {S = Migrator pg}
        (λ s. Safe s.conn)
        (on (pg.rollback_to (savepoint_name m)))
        (λ _ s. (committed s.conn ≡ d0) × (current s.conn ≡ d0))
        (λ _ s. Unchanged s.conn)
  back_step =
      triple-on pg Safe (λ _ c. (committed c ≡ d0) × (current c ≡ d0)) (λ _ c. Unchanged c)
        (rollback_to_law (savepoint_name m))
        (λ c h _ c' l. let (d, rest, e, back) = l.1 in (l.0 ∙ h.0, back ∙ (rw e at h.1).0))
        (λ c h _ c' l. l ∙ h.0)

  publish_step :
      (commit : Bool)
      → Triple {S = Migrator pg}
          (λ s. (committed s.conn ≡ d0) × (current s.conn ≡ d0))
          (if commit then on pg.commit else pure tt)
          (λ _ s. Unchanged s.conn)
          (λ _ s. Unchanged s.conn)
  publish_step false = triple-pure tt (λ _ h. h.0)
  publish_step true =
      triple-on pg (λ c. (committed c ≡ d0) × (current c ≡ d0)) (λ _ c. Unchanged c)
        (λ _ c. Unchanged c) commit_law (λ c h _ c' l. l.0 ∙ h.1) (λ c h _ c' l. l.0 ∙ h.0)

  abandon_step :
      (commit : Bool) (e : Raised)
      → Triple {S = Migrator pg}
          (λ s. Unchanged s.conn)
          (if commit then on pg.rollback else raise e)
          (λ _ s. Unchanged s.conn)
          (λ _ s. Unchanged s.conn)
  abandon_step false e = triple-raise e (λ _ h. h)
  abandon_step true e =
      triple-on pg Unchanged (λ _ c. Unchanged c) (λ _ c. Unchanged c) rollback_law
        (λ c h _ c' l. l.0 ∙ h) (λ c h _ c' l. l ∙ h)

  failure_step :
      (commit : Bool) (e : Raised)
      → Triple
          (λ s. Safe s.conn)
          (transactional_failure m commit e)
          (λ (_ : Unit {0}) s. ⊥)
          (λ _ s. Unchanged s.conn)
  unfolding transactional_failure rollback_to_savepoint
  failure_step commit e =
      triple-bind _ _ (triple-trigger pg Safe (λ _ s. Unchanged s.conn) after_execute m false) λ _.
        triple-bind _ _
          (triple-try_except _ _ (triple-bind _ _ back_step (λ _. publish_step commit))
            (abandon_step commit))
          λ _. triple-raise (wrapped e) (λ _ h. h)

  pub apply_transactional_step :
      (already_applied : Bool) (now : Reading) (commit : Bool) (applied_by : Option Text)
      → StaysInside pg m
      → Triple
          (λ s. Clean s.conn)
          (apply_transactional m already_applied now commit applied_by)
          (λ _ s. Done commit (recorded already_applied) s.conn)
          (λ _ s. Unchanged s.conn)
  unfolding apply_transactional
  apply_transactional_step already_applied now commit applied_by stays =
      triple-try_except _ _ (body_step already_applied now commit applied_by stays)
        λ e. triple-weaken (λ _ h. h) (λ _ _ no. absurd no) (λ _ _ h. h) (failure_step commit e)
