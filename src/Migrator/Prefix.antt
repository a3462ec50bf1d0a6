-- ===== src/Migrator/Prefix.antt =====
-- Proofs about the batch, `migrate_up_internal`.
use confiture.Base.{
  ◌≡◌, refl, sym, ◌∙◌, ap, true, false, Option, none, List, [], ◌∷◌, ◌++◌, append-nil, append_assoc,
  if◌then◌else◌, All, contains, nat_eq, list_eq, ltb, length,
}
use confiture.Base.Text.{Text}
use confiture.Base.Exec.{Outcome, ok, err}
use confiture.Base.Triple.{
  Ends, Triple, triple-bind, triple-if, triple-pure, triple-weaken, triple_assume, ends-Post,
}
use confiture.Postgres.{Raised, Connection}
use confiture.Postgres.Laws.{IsPostgres}
use confiture.Migrator.{Reading, Migration, Migrator}
use confiture.Migrator.Apply.{savepoint_name, apply}
use confiture.Migrator.Batch.{
  past_target, apply_each, load_all, warn_mixed_transactional_modes, find_pending,
  migrate_up_internal,
}
use confiture.Migrator.Rules.{triple-on, load_step}
use confiture.Discovery.{Directory, find_migration_files, not_applied_files}
use confiture.Migrator.Atomic.{StaysInside}
use confiture.Migrator.Applied.{IsCheck, apply_atomic}

-- What the atomicity of one migration asks of it.
pub record IsTame (pg : Connection) (m : Migration pg) : Type 0 where
  pub transactional : m.transactional ≡ true
  pub stays : StaysInside pg m
  pub checks : All (IsCheck pg) m.up_preconditions

-- `done` is the beginning of `planned`.
abbrev pub IsStart : List Text → List Text → Type 0
IsStart done planned = (rest : List Text) × (planned ≡ done ++ rest)

module _ (pg : Connection) (load : Text → Outcome Raised (Migration pg)) where
  abbrev version_of : Outcome Raised (Migration pg) → List Text → List Text
  version_of (ok m) rest = m.version ∷ rest
  version_of (err e) rest = []

  -- The versions of the files, up to the first that does not load.
  pub planned : List Text → List Text
  planned [] = []
  planned (file ∷ files) = version_of (load file) (planned files)

  pub planned_ok :
      (file : Text) (files : List Text) (m : Migration pg)
      → load file ≡ ok m
      → planned (file ∷ files) ≡ m.version ∷ planned files
  unfolding planned
  planned_ok file files m e = rw e

module _ (pg : Connection) (laws : IsPostgres pg) (load : Text → Outcome Raised (Migration pg))
    (read : Text → Reading)
    (tame : (file : Text) (m : Migration pg) → load file ≡ ok m → IsTame pg m) where
  abbrev pub Ready : List Text → pg.Conn → Type 0
  Ready vs c =
      (pg.versions (pg.committed c) ≡ vs)
      × (pg.current c ≡ pg.committed c)
      × ((name : Text) → pg.saved c name ≡ [])

  -- A stop after `done`.
  abbrev pub Stopped : List Text → List Text → pg.Conn → Type 0
  Stopped vs plan c =
      (done : List Text) × (pg.versions (pg.committed c) ≡ vs ++ done) × IsStart done plan

  fresh_version :
      (vs : List Text) (v : Text)
      → contains vs v ≡ false
      → (if contains vs v then vs else vs ++ (v ∷ [])) ≡ vs ++ (v ∷ [])
  fresh_version vs v h = rw h

  apply-Ready :
      (vs : List Text) (m : Migration pg) (now : Reading)
      → IsTame pg m
      → Triple {S = Migrator pg}
          (λ s. Ready vs s.conn)
          (apply m now false false true none)
          (λ _ s. Ready (vs ++ (m.version ∷ [])) s.conn)
          (λ _ s. pg.versions (pg.committed s.conn) ≡ vs)
  apply-Ready vs m now t = record {
    at = λ s h.
        ends-Post (λ _ s. Ready (vs ++ (m.version ∷ [])) s.conn)
          (λ _ s. pg.versions (pg.committed s.conn) ≡ vs)
          (apply_atomic pg laws m now false false none t.transactional t.stays t.checks s h.1
            (h.2 (savepoint_name m)))
          (λ _ s' l.
            (l.0 ∙ fresh_version _ m.version l.1 ∙ ap (λ l. l ++ (m.version ∷ [])) h.0, l.2, l.3))
          (λ _ s' l. ap pg.versions l ∙ h.0);
  }

  pub IsStart-cons :
      (v : Text) (done plan : List Text) → IsStart done plan → IsStart (v ∷ done) (v ∷ plan)
  IsStart-cons v done plan (rest, e) = (rest, ap (λ l. v ∷ l) e)

  longer :
      (vs : List Text) (v : Text) (done : List Text) → (vs ++ (v ∷ [])) ++ done ≡ vs ++ (v ∷ done)
  longer vs v done = append_assoc vs (v ∷ []) done

  apply_each_step :
      (target : Option Text) (files : List Text) (vs : List Text)
      → Triple {S = Migrator pg}
          (λ s. Ready vs s.conn)
          (apply_each load read false target files)
          (λ done s. Ready (vs ++ done) s.conn × IsStart done (planned pg load files))
          (λ _ s. Stopped vs (planned pg load files) s.conn)
  unfolding apply_each
  apply_each_step target [] vs =
      triple-pure [] (λ s h. ((h.0 ∙ sym (append-nil vs), h.1, h.2), (planned pg load [], refl)))
  apply_each_step target (file ∷ files) vs =
      let plan = planned pg load (file ∷ files) in
      let stop : (s : Migrator pg)
          → pg.versions (pg.committed s.conn) ≡ vs
          → Stopped vs plan s.conn =
        λ s h. ([], h ∙ sym (append-nil vs), (plan, refl)) in
      triple-bind _ _
        (triple-weaken (λ _ h. h) (λ _ _ h. h) (λ _ s h. stop s h.0)
          (load_step pg load read (λ s. Ready vs s.conn) file))
        λ m.
          triple_assume {S = Migrator pg} (λ s. Ready vs s.conn) (load file ≡ ok m)
            λ e.
              triple-if (past_target load read target m.version) _ _
                (λ _. triple-pure [] (λ s h. ((h.0 ∙ sym (append-nil vs), h.1, h.2), (plan, refl))))
                λ _.
                  triple-bind _ _
                    (triple-weaken (λ _ h. h) (λ _ _ h. h) (λ _ s h. stop s h)
                      (apply-Ready vs m (read file) (tame file m e)))
                    λ _.
                      triple-bind _ _
                        (triple-weaken (λ _ h. h) (λ _ _ h. h)
                          (λ _ s h. (
                            m.version ∷ h.0,
                            h.1 ∙ longer vs m.version h.0,
                            rw (planned_ok pg load file files m e)
                                (IsStart-cons m.version h.0 (planned pg load files) h.2),
                          ))
                          (apply_each_step target files (vs ++ (m.version ∷ []))))
                        λ done. triple-pure (m.version ∷ done) λ s h. (
                          (h.0.0 ∙ longer vs m.version done, h.0.1, h.0.2),
                          rw (planned_ok pg load file files m e)
                              (IsStart-cons m.version done (planned pg load files) h.1),
                        )

  pending_step :
      (dir : Directory) (vs : List Text)
      → Triple {S = Migrator pg}
          (λ s. Ready vs s.conn)
          (find_pending dir)
          (λ files s. Ready vs s.conn × (files ≡ not_applied_files vs (find_migration_files dir)))
          (λ _ s. pg.versions (pg.committed s.conn) ≡ vs)
  unfolding find_pending
  pending_step dir vs =
      triple-bind _ _
        (triple-on pg (Ready vs) (λ found c. Ready vs c × (found ≡ vs))
          (λ _ c. pg.versions (pg.committed c) ≡ vs) laws.select_law
          (λ c h found c' l.
            let same : pg.committed c' ≡ pg.committed c = (l.0 []).same_committed in
            (
              (
                ap pg.versions same ∙ h.0,
                l.1 ∙ h.1 ∙ sym same,
                λ name. (l.0 name).same_saved ∙ h.2 name,
              ),
              l.2 ∙ ap pg.versions h.1 ∙ h.0,
            ))
          (λ c h _ c' u. ap pg.versions (u.0 []).same_committed ∙ h.0))
        λ found.
          triple-pure (not_applied_files found (find_migration_files dir))
            (λ s h. (h.0, ap (λ l. not_applied_files l (find_migration_files dir)) h.1))

  load_all_step :
      (P : Migrator pg → Type 0) (files : List Text)
      → Triple P (load_all load read files) (λ _ s. P s) (λ _ s. P s)
  unfolding load_all
  load_all_step P [] = triple-pure tt (λ _ h. h)
  load_all_step P (file ∷ files) =
      triple-bind _ _
        (triple-weaken (λ _ h. h) (λ _ _ h. h.0) (λ _ _ h. h) (load_step pg load read P file))
        (λ _. load_all_step P files)

  warn_step :
      (P : Migrator pg → Type 0) (files : List Text)
      → Triple P (warn_mixed_transactional_modes load read files) (λ _ s. P s) (λ _ s. P s)
  unfolding warn_mixed_transactional_modes
  warn_step P files =
      triple-if (ltb 1 (length files)) _ _ (λ _. load_all_step P files)
        (λ _. triple-pure tt (λ _ h. h))

  abbrev pub pending_plan : Directory → List Text → List Text
  pending_plan dir vs = planned pg load (not_applied_files vs (find_migration_files dir))

  up_step :
      (dir : Directory) (target : Option Text) (vs : List Text)
      → Triple {S = Migrator pg}
          (λ s. Ready vs s.conn)
          (migrate_up_internal load read false dir target)
          (λ done s. Ready (vs ++ done) s.conn × IsStart done (pending_plan dir vs))
          (λ _ s. Stopped vs (pending_plan dir vs) s.conn)
  unfolding migrate_up_internal
  up_step dir target vs =
      let plan = pending_plan dir vs in
      let stop : (s : Migrator pg)
          → pg.versions (pg.committed s.conn) ≡ vs
          → Stopped vs plan s.conn =
        λ s h. ([], h ∙ sym (append-nil vs), (plan, refl)) in
      triple-bind _ _
        (triple-weaken (λ _ h. h) (λ _ _ h. h) (λ _ s h. stop s h) (pending_step dir vs))
        λ files.
          triple_assume {S = Migrator pg} (λ s. Ready vs s.conn)
            (files ≡ not_applied_files vs (find_migration_files dir))
            λ e.
              triple-bind _ _
                (triple-weaken (λ _ h. h) (λ _ _ h. h) (λ _ s h. stop s h.0)
                  (warn_step (λ s. Ready vs s.conn) files))
                λ _.
                  triple-weaken (λ _ h. h) (λ done s h. (h.0, rw e at h.1))
                    (λ _ s h. (h.0, h.1, rw e at h.2)) (apply_each_step target files vs)

-- `migrate_up_internal` without force, started with nothing pending and with no savepoint, over
-- migrations that are transactional and stay inside their transaction, on a connection with
-- PostgreSQL's laws. Whether it returns or raises, what is committed then is what was
-- applied before, followed by a beginning of the pending migrations in the order of their versions;
-- if it returns, by exactly the versions that it reports, and nothing is pending.
pub migrate_up_prefix :
    (pg : Connection) (laws : IsPostgres pg) (load : Text → Outcome Raised (Migration pg))
    (read : Text → Reading)
    → ((file : Text) (m : Migration pg) → load file ≡ ok m → IsTame pg m)
    → (dir : Directory) (target : Option Text) (s : Migrator pg)
    → pg.current s.conn ≡ pg.committed s.conn
    → ((name : Text) → pg.saved s.conn name ≡ [])
    → Ends
        (migrate_up_internal load read false dir target s)
        (λ done s'.
          ((pg.versions (pg.committed s'.conn) ≡ pg.versions (pg.committed s.conn) ++ done)
            × (pg.current s'.conn ≡ pg.committed s'.conn)
            × ((name : Text) → pg.saved s'.conn name ≡ []))
          × IsStart done (
              planned pg load
                (not_applied_files (pg.versions (pg.committed s.conn)) (find_migration_files dir))))
        (λ _ s'.
          (done : List Text) × (pg.versions (pg.committed s'.conn)
            ≡ pg.versions (pg.committed s.conn) ++ done)
          × IsStart done (
              planned pg load
                (not_applied_files (pg.versions (pg.committed s.conn)) (find_migration_files dir))))
migrate_up_prefix pg laws load read tame dir target s idle none_saved = record {
  post =
      (up_step pg laws load read tame dir target (pg.versions (pg.committed s.conn))).at s
        (refl, idle, none_saved);
}
