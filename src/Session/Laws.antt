-- ===== src/Session/Laws.antt =====
-- What the lock's statements leave alone: the tracking table, and what is pending.
use confiture.Base.{ℕ, ◌≡◌}
use confiture.Base.Text.{Text}
use confiture.Base.Exec.{Exec}
use confiture.Base.Triple.{Ends}
use confiture.Postgres.{Connection}
use confiture.Postgres.Laws.{StaysSettled}
use confiture.Locking.{Problem}
use confiture.Session.{LockStatements}

module _ (pg : Connection) where
  -- A statement that returns changes nothing that is modelled of the database.
  abbrev pub IsNeutral : {A : Type 0} → Exec pg.Conn Problem A → Type 0
  IsNeutral m =
      (c : pg.Conn)
      → Ends (m c)
          (λ _ c'.
            (pg.committed c' ≡ pg.committed c)
            × (pg.current c' ≡ pg.current c)
            × ((name : Text) → pg.saved c' name ≡ pg.saved c name))
          (λ _ c'. (pg.committed c' ≡ pg.committed c) × StaysSettled pg c c')

  -- A statement on the table of lock holders.
  abbrev pub IsNote : Exec pg.Conn Problem (Unit {0}) → Type 0
  IsNote m =
      (c : pg.Conn)
      → Ends (m c)
          (λ _ c'.
            (pg.committed c' ≡ pg.committed c)
            × (pg.versions (pg.current c') ≡ pg.versions (pg.current c)))
          (λ _ c'. (pg.committed c' ≡ pg.committed c) × StaysSettled pg c c')

  pub record IsLock (lock : LockStatements pg) : Type 0 where
    pub database_law : IsNeutral lock.current_database
    pub timeout_law : (ms : ℕ) → IsNeutral (lock.set_statement_timeout ms)
    pub lock_law : (id : ℕ) → IsNeutral (lock.advisory_lock id)
    pub try_law : (id : ℕ) → IsNeutral (lock.try_advisory_lock id)
    pub unlock_law : (id : ℕ) → IsNeutral (lock.advisory_unlock id)
    pub read_law : (id : ℕ) → IsNeutral (lock.read_holder id)
    pub write_law : (id : ℕ) → IsNote (lock.write_holder id)
    pub delete_law : (id : ℕ) → IsNote (lock.delete_holder id)
