-- ===== src/Locking/Laws.antt =====
-- What PostgreSQL documents of session-level advisory locks, for a session that stays connected.
use confiture.Base.{ℕ, suc, ◌-◌, ◌≡◌, true, false, if◌then◌else◌, ◌==◌, nat_eq}
use confiture.Base.Exec.{Exec}
use confiture.Base.Triple.{Ends}
use confiture.Locking.{Session, Problem, answer_of}

module _ (session : Session) where
  -- The same locks are held, as often.
  abbrev pub SameLocks : session.Conn → session.Conn → Type 0
  SameLocks c c' = (i : ℕ) → session.held c' i ≡ session.held c i

  -- One more hold of the lock.
  abbrev pub OneMore : ℕ → session.Conn → session.Conn → Type 0
  OneMore id c c' =
      (i : ℕ) → session.held c' i ≡ (if i == id then suc (session.held c i) else session.held c i)

  -- One hold less.
  abbrev pub OneLess : ℕ → session.Conn → session.Conn → Type 0
  OneLess id c c' =
      (i : ℕ) → session.held c' i ≡ (if i == id then session.held c i - 1 else session.held c i)

  -- Neither takes nor gives back a lock.
  abbrev pub IsQuiet : {A : Type 0} → Exec session.Conn Problem A → Type 0
  IsQuiet m = (c : session.Conn) → Ends (m c) (λ _ c'. SameLocks c c') (λ _ c'. SameLocks c c')

  pub record IsAdvisory : Type 0 where
    pub database_law : IsQuiet session.current_database
    pub write_law : (id : ℕ) → IsQuiet (session.write_holder id)
    pub delete_law : (id : ℕ) → IsQuiet (session.delete_holder id)
    pub read_law : (id : ℕ) → IsQuiet (session.read_holder id)
    -- a statement in a transaction that has not failed succeeds
    pub timeout_law : (ms : ℕ) → IsQuiet (session.set_statement_timeout ms)
    pub reset_law :
        (ms : ℕ) (c : session.Conn)
        → session.aborted c ≡ false
        → Ends (session.set_statement_timeout ms c) (λ _ c'. SameLocks c c') (λ _ _. ⊥)
    -- locks of the session outlive the transaction
    pub commit_law :
        (c : session.Conn)
        → Ends
            (session.commit c)
            (λ _ c'. SameLocks c c' × (session.aborted c' ≡ false))
            (λ _ c'. SameLocks c c')
    pub rollback_law :
        (c : session.Conn)
        → Ends
            (session.rollback c)
            (λ _ c'. SameLocks c c' × (session.aborted c' ≡ false))
            (λ _ _. ⊥)
    pub lock_law :
        (id : ℕ) (c : session.Conn)
        → Ends
            (session.advisory_lock id c)
            (λ _ c'. OneMore id c c' × (session.aborted c' ≡ false))
            (λ _ c'. SameLocks c c')
    pub try_law :
        (id : ℕ) (c : session.Conn)
        → Ends
            (session.try_advisory_lock id c)
            (λ result c'. if answer_of result then OneMore id c c' else SameLocks c c')
            (λ _ c'. SameLocks c c')
    pub unlock_law :
        (id : ℕ) (c : session.Conn)
        → session.aborted c ≡ false
        → Ends (session.advisory_unlock id c) (λ _ c'. OneLess id c c') (λ _ _. ⊥)
    -- a failed transaction refuses every statement
    pub aborted_law :
        (id : ℕ) (c : session.Conn)
        → session.aborted c ≡ true
        → Ends (session.advisory_unlock id c) (λ _ _. ⊥) (λ _ c'. SameLocks c c')
