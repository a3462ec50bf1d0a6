-- ===== src/Migrator/Settled.antt =====
-- Proofs about what `apply` and `rollback` leave pending when they raise.
use confiture.Base.{
  ◌≡◌, sym, ◌∙◌, Bool, true, false, not, ◌&&◌, Option, List, [], ◌∷◌, if◌then◌else◌, All, nat_eq,
  list_eq, ltb,
}
use confiture.Base.Text.{Text}
use confiture.Base.Exec.{Exec, pure, ◌>>=◌}
use confiture.Base.Triple.{
  Triple, triple-bind, triple-try_except, triple-if, triple-pure, triple-raise, triple-weaken,
  triple_any, ends-both,
}
use confiture.Postgres.{
  Raised, Connection, migration_error, migr_100, migr_101, no_code, precondition_error,
}
use confiture.Postgres.Laws.{IsPostgres, IsQuery, StaysUp}
use confiture.Migrator.{after_execute, wrapped, Reading, Migration, Migrator, on}
use confiture.Migrator.Steps.{
  rollback_to_savepoint, is_applied, check_preconditions, validate_preconditions,
}
use confiture.Migrator.Apply.{
  savepoint_name, transactional_body, transactional_failure, apply_transactional, apply,
}
use confiture.Migrator.Undo.{rollback_transactional, rollback}
use confiture.Migrator.Rules.{triple-on, triple-trigger}
use confiture.Migrator.Applied.{IsCheck}

module _ (pg : Connection) (laws : IsPostgres pg) (up : StaysUp pg) where
  open pg use {Conn, versions, current, committed, saved}
  open laws use {count_law, commit_law, rollback_law}

  abbrev pub Settled : Migrator pg → Type 0
  Settled s = current s.conn ≡ committed s.conn

  abbrev Any : Conn → Type 0
  Any c = Unit

  abbrev SettledConn : Conn → Type 0
  SettledConn c = current c ≡ committed c

  pub rollback_settles :
      Triple {S = Migrator pg} (λ _. Unit {0}) (on pg.rollback) (λ _ s. Settled s) (λ _ _. ⊥)
  rollback_settles =
      triple-on pg Any (λ _ c. SettledConn c) (λ _ _. ⊥)
        (λ c. ends-both (rollback_law c) (up.rollback_up c)) (λ c h _ c' l. l.0.1 ∙ sym l.0.0)
        (λ c h _ c' l. l.1)

  commit_settles :
      Triple {S = Migrator pg} (λ _. Unit {0}) (on pg.commit) (λ _ s. Settled s) (λ _ s. Settled s)
  commit_settles =
      triple-on pg Any (λ _ c. SettledConn c) (λ _ c. SettledConn c) commit_law
        (λ c h _ c' l. l.1 ∙ sym l.0) (λ c h _ c' l. l.2)

  -- Whatever came before, the transaction is over afterwards.
  back_settles :
      (name : Text)
      → Triple {S = Migrator pg}
          (λ _. Unit {0})
          (rollback_to_savepoint name true)
          (λ _ s. Settled s)
          (λ _ _. ⊥)
  unfolding rollback_to_savepoint
  back_settles name =
      triple-try_except {R' = λ _ _. Unit {0}} _ _
        (triple-bind _ _ (triple_any (on (pg.rollback_to name)))
          (λ _. triple-weaken (λ _ h. h) (λ _ _ h. h) (λ _ _ _. tt) commit_settles))
        (λ _. rollback_settles)

  failure_settles :
      (m : Migration pg) (e : Raised)
      → Triple {S = Migrator pg}
          (λ _. Unit {0})
          (transactional_failure m true e)
          (λ (_ : Unit {0}) s. ⊥)
          (λ _ s. Settled s)
  unfolding transactional_failure
  failure_settles m e =
      triple-bind _ _ (triple-trigger pg Any (λ _ s. Settled s) after_execute m false) λ _.
        triple-bind _ _
          (triple-weaken (λ _ h. h) (λ _ _ h. h) (λ _ _ no. absurd no)
            (back_settles (savepoint_name m)))
          (λ _. triple-raise (wrapped e) (λ _ h. h))

  transactional_settles :
      (m : Migration pg) (already : Bool) (now : Reading) (applied_by : Option Text)
      → Triple
          (λ _. Unit {0})
          (apply_transactional m already now true applied_by)
          (λ _ _. Unit {0})
          (λ _ s. Settled s)
  unfolding apply_transactional
  transactional_settles m already now applied_by =
      triple-try_except _ _ (triple_any (transactional_body m already now true applied_by))
        λ e. triple-weaken (λ _ h. h) (λ _ _ no. absurd no) (λ _ _ h. h) (failure_settles m e)

  undo_settles :
      (m : Migration pg)
      → Triple (λ _. Unit {0}) (rollback_transactional m) (λ _ _. Unit {0}) (λ _ s. Settled s)
  unfolding rollback_transactional
  undo_settles m =
      triple-try_except _ _
        (triple_any (on m.down >>= λ _. on (pg.delete_version m.version) >>= λ _. on pg.commit))
        λ _.
          triple-bind _ _
            (triple-weaken (λ _ h. h) (λ _ _ h. h) (λ _ _ no. absurd no) rollback_settles)
            (λ _. triple-raise (migration_error no_code) (λ _ h. h))

  -- A query, successful or not, leaves nothing pending.
  query_settles :
      {A : Type 0} (m : Exec Conn Raised A) (Answer : Conn → A → Type 0)
      → IsQuery pg m Answer
      → Triple {S = Migrator pg} Settled (on m) (λ _ s. Settled s) (λ _ s. Settled s)
  query_settles m Answer law =
      triple-on pg SettledConn (λ _ c. SettledConn c) (λ _ c. SettledConn c) law
        (λ c h _ c' l. l.1 ∙ h ∙ sym (l.0 []).same_committed) (λ c h _ c' l. l.1 h)

  applied_settles :
      (version : Text) → Triple Settled (is_applied version) (λ _ s. Settled s) (λ _ s. Settled s)
  unfolding is_applied
  applied_settles version =
      triple-bind _ _ (query_settles (pg.count_version version) _ (count_law version))
        (λ n. triple-pure (ltb 0 n) (λ _ h. h))

  checks_settle :
      (checks : List (Exec Conn Raised Bool))
      → All (IsCheck pg) checks
      → Triple Settled (check_preconditions checks) (λ _ s. Settled s) (λ _ s. Settled s)
  unfolding check_preconditions
  checks_settle [] q = triple-pure 0 (λ _ h. h)
  checks_settle (check ∷ rest) q =
      triple-bind _ _
        (triple-try_except {R' = λ _ s. Settled s} _ _ (query_settles check (λ _ _. Unit) q.0)
          (λ _. triple-pure false (λ _ h. h)))
        λ passed. triple-bind _ _ (checks_settle rest q.1) (λ failures. triple-pure _ (λ _ h. h))

  validate_settles :
      (checks : List (Exec Conn Raised Bool))
      → All (IsCheck pg) checks
      → Triple Settled (validate_preconditions checks) (λ _ s. Settled s) (λ _ s. Settled s)
  unfolding validate_preconditions
  validate_settles [] q = triple-pure tt (λ _ h. h)
  validate_settles (check ∷ rest) q = triple-bind _ _ (checks_settle (check ∷ rest) q) λ failures.
      triple-if (ltb 0 failures) _ _ (λ _. triple-raise precondition_error (λ _ h. h))
        (λ _. triple-pure tt (λ _ h. h))

  maybe_validate :
      (skip : Bool) (checks : List (Exec Conn Raised Bool))
      → All (IsCheck pg) checks
      → Triple {S = Migrator pg} Settled
          (if skip then pure tt else validate_preconditions checks)
          (λ _ _. Unit {0})
          (λ _ s. Settled s)
  maybe_validate true checks q = triple-pure tt (λ _ _. tt)
  maybe_validate false checks q =
      triple-weaken (λ _ h. h) (λ _ _ _. tt) (λ _ _ h. h) (validate_settles checks q)

  pub apply-Settled :
      (m : Migration pg) (now : Reading) (force skip : Bool) (applied_by : Option Text)
      → m.transactional ≡ true
      → All (IsCheck pg) m.up_preconditions
      → Triple Settled (apply m now force skip true applied_by) (λ _ _. Unit {0}) (λ _ s. Settled s)
  unfolding apply
  apply-Settled m now force skip applied_by transactional checks =
      triple-bind _ _ (applied_settles m.version) λ already.
        triple-if (not force && already) _ _
          (λ _. triple-raise (migration_error migr_101) (λ _ h. h))
          λ _. triple-bind _ _ (maybe_validate skip m.up_preconditions checks) λ _.
            triple-if m.transactional _ _ (λ _. transactional_settles m already now applied_by)
              (λ no. cc)

  pub rollback-Settled :
      (m : Migration pg) (skip : Bool)
      → m.transactional ≡ true
      → All (IsCheck pg) m.down_preconditions
      → Triple Settled (rollback m skip) (λ _ _. Unit {0}) (λ _ s. Settled s)
  unfolding rollback
  rollback-Settled m skip transactional checks =
      triple-bind _ _ (applied_settles m.version) λ applied.
        triple-if (not applied) _ _ (λ _. triple-raise (migration_error migr_100) (λ _ h. h))
          λ _.
            triple-bind _ _ (maybe_validate skip m.down_preconditions checks)
              λ _. triple-if m.transactional _ _ (λ _. undo_settles m) (λ no. cc)
