-- ===== src/Migrator/Applied.antt =====
-- Proofs about `apply` of transactional migrations, on a connection with nothing pending.
use confiture.Base.{
  ℕ, suc, ◌+◌, ◌≡◌, refl, sym, ◌∙◌, ap, Bool, true, false, not, ◌&&◌, Option, List, [], ◌∷◌, ◌++◌,
  if◌then◌else◌, All, contains, nat_eq, list_eq, ltb, arith,
}
use confiture.Base.Text.{Text}
use confiture.Base.Exec.{Exec, pure, raise, try_except}
use confiture.Base.Triple.{
  Ends, Triple, triple-bind, triple-try_except, triple-if, triple-pure, triple-raise, triple-weaken,
  triple_assume,
}
use confiture.Postgres.{Raised, Connection, migration_error, migr_101, precondition_error}
use confiture.Postgres.Laws.{IsPostgres, Unpublished, IsQuery}
use confiture.Migrator.{Reading, Migration, Migrator, on}
use confiture.Migrator.Steps.{is_applied, check_preconditions, validate_preconditions}
use confiture.Migrator.Apply.{savepoint_name, apply_transactional, apply}
use confiture.Migrator.Rules.{triple-on}
use confiture.Migrator.Atomic.{StaysInside, Clean, Unchanged, apply_transactional_step}

-- A precondition only looks.
abbrev pub IsCheck : (pg : Connection) → Exec pg.Conn Raised Bool → Type 0
IsCheck pg check = IsQuery pg check (λ _ _. Unit)

module _ (pg : Connection) (laws : IsPostgres pg) (m : Migration pg) (d0 : pg.Db) where
  open pg use {Conn, versions, current, committed, saved}
  open laws use {count_law}

  abbrev pub Clean' : Conn → Type 0
  Clean' = Clean pg laws m d0

  abbrev pub Same : Conn → Type 0
  Same = Unchanged pg laws m d0

  -- After `n` failed checks the transaction may be aborted.
  abbrev Checked : ℕ → Conn → Type 0
  Checked n c = Same c × (n ≡ 0 → Clean' c)

  clean_of :
      (c c' : Conn)
      → Unpublished pg (savepoint_name m) c c'
      → current c' ≡ current c
      → Clean' c
      → Clean' c'
  clean_of c c' u e h = (u.same_committed ∙ h.0, e ∙ h.1, u.same_saved ∙ h.2)

  pub applied_step :
      Triple {S = Migrator pg}
        (λ s. Clean' s.conn)
        (is_applied m.version)
        (λ b s. Clean' s.conn × (b ≡ contains (versions d0) m.version))
        (λ _ s. Same s.conn)
  unfolding is_applied
  applied_step =
      triple-bind _ _
        (triple-on pg Clean' (λ n c. Clean' c × (ltb 0 n ≡ contains (versions d0) m.version))
          (λ _ c. Same c) (count_law m.version)
          (λ c h n c' l. (
            clean_of c c' (l.0 (savepoint_name m)) l.1 h,
            l.2 ∙ ap (λ d. contains (versions d) m.version) h.1,
          ))
          (λ c h _ c' u. (u.0 (savepoint_name m)).same_committed ∙ h.0))
        (λ n. triple-pure (ltb 0 n) (λ _ h. h))

  looked :
      (k : ℕ) (passed : Bool) (c c' : Conn)
      → Checked k c
      → Unpublished pg (savepoint_name m) c c'
      → current c' ≡ current c
      → (if passed then k else suc k) ≡ 0
      → Clean' c'
  looked k true c c' h u e = λ z. clean_of c c' u e (h.1 z)
  looked k false c c' h u e = λ no. absurd (omega arith)

  check_step :
      (k : ℕ) (check : Exec Conn Raised Bool)
      → IsCheck pg check
      → Triple {S = Migrator pg}
          (λ s. Checked k s.conn)
          (try_except (on check) (λ _. pure false))
          (λ passed s. Checked (if passed then k else suc k) s.conn)
          (λ _ s. Same s.conn)
  check_step k check q =
      triple-try_except _ _
        (triple-on pg (Checked k) (λ passed c. Checked (if passed then k else suc k) c)
          (λ _ c. Same c) q
          (λ c h passed c' l. (
            (l.0 (savepoint_name m)).same_committed ∙ h.0,
            looked k passed c c' h (l.0 (savepoint_name m)) l.1,
          ))
          (λ c h _ c' u. (u.0 (savepoint_name m)).same_committed ∙ h.0))
        (λ e. triple-pure false (λ _ h. (h, λ no. absurd (omega arith))))

  checks_step :
      (k : ℕ) (checks : List (Exec Conn Raised Bool))
      → All (IsCheck pg) checks
      → Triple {S = Migrator pg}
          (λ s. Checked k s.conn)
          (check_preconditions checks)
          (λ failures s. Checked (k + failures) s.conn)
          (λ _ s. Same s.conn)
  unfolding check_preconditions
  checks_step k [] q = triple-pure 0 (λ s h. (h.0, λ z. h.1 (omega arith)))
  checks_step k (check ∷ rest) q = triple-bind _ _ (check_step k check q.0) λ passed.
      triple-bind _ _ (checks_step (if passed then k else suc k) rest q.1) λ failures.
        triple-pure (if passed then failures else suc failures)
          (λ s h. (h.0, λ z. h.1 (counted passed failures z)))
    where
      counted :
          (passed : Bool) (failures : ℕ)
          → k + (if passed then failures else suc failures) ≡ 0
          → (if passed then k else suc k) + failures ≡ 0
      counted true failures z = z
      counted false failures z = absurd (omega arith)

  judge_step :
      (failures : ℕ)
      → Triple {S = Migrator pg}
          (λ s. Checked (0 + failures) s.conn)
          (if ltb 0 failures then raise precondition_error else pure tt)
          (λ _ s. Clean' s.conn)
          (λ _ s. Same s.conn)
  judge_step failures =
      triple-if (ltb 0 failures) _ _ (λ _. triple-raise precondition_error (λ _ h. h.0))
        (λ none_failed. triple-pure tt (λ _ h. h.1 (ground arith)))

  pub validate_step :
      (checks : List (Exec Conn Raised Bool))
      → All (IsCheck pg) checks
      → Triple {S = Migrator pg}
          (λ s. Clean' s.conn)
          (validate_preconditions checks)
          (λ _ s. Clean' s.conn)
          (λ _ s. Same s.conn)
  unfolding validate_preconditions
  validate_step [] q = triple-pure tt (λ _ h. h)
  validate_step (check ∷ rest) q =
      triple-bind _ _
        (triple-weaken (λ _ h. (h.0, λ _. h)) (λ _ _ h. h) (λ _ _ h. h)
          (checks_step 0 (check ∷ rest) q))
        judge_step

  maybe_validate_step :
      (skip : Bool)
      → All (IsCheck pg) m.up_preconditions
      → Triple {S = Migrator pg}
          (λ s. Clean' s.conn)
          (if skip then pure tt else validate_preconditions m.up_preconditions)
          (λ _ s. Clean' s.conn)
          (λ _ s. Same s.conn)
  maybe_validate_step true q = triple-pure tt (λ _ h. h)
  maybe_validate_step false q = validate_step m.up_preconditions q

  -- What is committed after an `apply` that returned.
  abbrev Applied : Bool → Conn → Type 0
  Applied force c =
      (versions (committed c) ≡ (
        if contains (versions d0) m.version then versions d0 else versions d0 ++ (m.version ∷ [])))
      × (not force && contains (versions d0) m.version ≡ false)
      × (current c ≡ committed c)
      × ((name : Text) → saved c name ≡ [])

  run_step :
      (now : Reading) (force : Bool) (applied_by : Option Text) (b : Bool)
      → StaysInside pg m
      → b ≡ contains (versions d0) m.version
      → not force && b ≡ false
      → Triple {S = Migrator pg}
          (λ s. Clean' s.conn)
          (apply_transactional m b now true applied_by)
          (λ _ s. Applied force s.conn)
          (λ _ s. Same s.conn)
  run_step now force applied_by b stays e fresh =
      triple-weaken (λ _ h. h)
        (λ _ s h. (
          h.0 ∙ ap (λ (b : Bool). if b then versions d0 else versions d0 ++ (m.version ∷ [])) e,
          ap (λ b. not force && b) (sym e) ∙ fresh,
          h.1,
          h.2,
        ))
        (λ _ _ h. h) (apply_transactional_step pg laws m d0 b now true applied_by stays)

  pub apply_step :
      (now : Reading) (force skip : Bool) (applied_by : Option Text)
      → m.transactional ≡ true
      → StaysInside pg m
      → All (IsCheck pg) m.up_preconditions
      → Triple {S = Migrator pg}
          (λ s. Clean' s.conn)
          (apply m now force skip true applied_by)
          (λ _ s. Applied force s.conn)
          (λ _ s. Same s.conn)
  unfolding apply
  apply_step now force skip applied_by transactional stays checks =
      triple-bind _ _ applied_step λ b.
        triple-if (not force && b) _ _ (λ _. triple-raise (migration_error migr_101) (λ _ h. h.0.0))
          λ fresh.
            triple_assume {S = Migrator pg} (λ s. Clean' s.conn)
              (b ≡ contains (versions d0) m.version)
              λ e. triple-bind _ _ (maybe_validate_step skip checks) λ _.
                triple-if m.transactional _ _ (λ _. run_step now force applied_by b stays e fresh)
                  (λ no. cc)

-- `apply` of a transactional migration whose body stays inside its transaction and whose
-- preconditions only query, on a connection with PostgreSQL's laws, started with nothing pending and
-- with no savepoint of the migration's name. If it returns, the version
-- was not applied or the call was forced; the version is in the committed table, added as the
-- newest unless it was there before; and nothing is pending. If it raises, be it at the guard, at
-- a precondition, in the body, at the record, at the commit or at the rollback, what is committed
-- is what was committed before.
pub apply_atomic :
    (pg : Connection) (laws : IsPostgres pg) (m : Migration pg) (now : Reading) (force skip : Bool)
    (applied_by : Option Text)
    → m.transactional ≡ true
    → StaysInside pg m
    → All (IsCheck pg) m.up_preconditions
    → (s : Migrator pg) → pg.current s.conn ≡ pg.committed s.conn
    → pg.saved s.conn (savepoint_name m) ≡ []
    → Ends
        (apply m now force skip true applied_by s)
        (λ _ s'.
          (pg.versions (pg.committed s'.conn) ≡ (
            if contains (pg.versions (pg.committed s.conn)) m.version
            then pg.versions (pg.committed s.conn)
            else pg.versions (pg.committed s.conn) ++ (m.version ∷ [])))
          × (not force && contains (pg.versions (pg.committed s.conn)) m.version ≡ false)
          × (pg.current s'.conn ≡ pg.committed s'.conn)
          × ((name : Text) → pg.saved s'.conn name ≡ []))
        (λ _ s'. pg.committed s'.conn ≡ pg.committed s.conn)
apply_atomic pg laws m now force skip applied_by transactional stays checks s idle none_saved =
    record {
      post =
          (apply_step pg laws m (pg.committed s.conn) now force skip applied_by transactional stays
              checks).at
            s (refl, idle, none_saved);
    }
