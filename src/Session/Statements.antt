-- ===== src/Session/Statements.antt =====
-- The statements of the lock, by what they do to the tracking table and to what is pending.
use confiture.Base.{sym, ◌∙◌, ap, List}
use confiture.Base.Text.{Text}
use confiture.Base.Exec.{Outcome, ok, err, Exec, ◌>>=◌, try_except, relabel}
use confiture.Base.Triple.{
  Post, Ends, Triple, triple-bind, triple-try_except, triple-pure, triple-weaken, ends-both,
}
use confiture.Postgres.{Raised, Connection}
use confiture.Postgres.Laws.{IsPostgres, StaysUp}
use confiture.Migrator.Calm.{Calm, Ready, Level}
use confiture.Locking.{Problem, engine_error, Lock, on, suppressed_rollback}
use confiture.Session.{Locals, LockStatements, statement, of_engine, lock_session}
use confiture.Session.Laws.{IsNeutral, IsNote, IsLock}

module _ (pg : Connection) (laws : IsPostgres pg) (up : StaysUp pg) (lock : LockStatements pg)
    (locks : IsLock pg lock) (vs : List Text) (F : Locals → Type 0) where
  open pg use {Conn, versions, current, committed, saved}

  abbrev pub L : Type 0
  L = Lock (lock_session lock)

  -- A property of the connection, while the local variables satisfy `F`.
  abbrev pub Here : (Conn → Type 0) → L → Type 0
  Here P l = P l.conn.engine.conn × F l.conn.locals

  abbrev pub Calm' : Conn → Type 0
  Calm' = Calm pg vs

  abbrev pub Ready' : Conn → Type 0
  Ready' = Ready pg vs

  abbrev pub Level' : Conn → Type 0
  Level' = Level pg vs

  -- A statement of the lock.
  on_step :
      {A : Type 0} (m : Exec Conn Problem A) (P : Conn → Type 0) (Q R : Conn → Type 0)
      (q r : Conn → Conn → Type 0)
      → ((c : Conn) → Ends (m c) (λ _ c'. q c c') (λ _ c'. r c c'))
      → ((c c' : Conn) → P c → q c c' → Q c')
      → ((c c' : Conn) → P c → r c c' → R c')
      → Triple
          (Here P)
          (on {session = lock_session lock} (statement m))
          (λ _ l. Here Q l)
          (λ _ l. Here R l)
  on_step {A} m P Q R q r law good bad = record {
    at = λ l h.
        go l h (m l.conn.engine.conn).0 (m l.conn.engine.conn).1 (law l.conn.engine.conn).post;
  }
    where
      go :
          (l : L)
          → Here P l
          → (o : Outcome Problem A) (c' : Conn)
          → Post (λ _ c'. q l.conn.engine.conn c') (λ _ c'. r l.conn.engine.conn c') o c'
          → Post
              (λ _ l. Here Q l)
              (λ _ l. Here R l)
              o
              (record l { conn = record l.conn { engine = record l.conn.engine { conn = c' } } })
      go l h (ok a) c' p = (good l.conn.engine.conn c' h.0 p, h.1)
      go l h (err e) c' p = (bad l.conn.engine.conn c' h.0 p, h.1)

  pub neutral_ready :
      {A : Type 0} (m : Exec Conn Problem A)
      → IsNeutral pg m
      → Triple
          (Here Ready')
          (on {session = lock_session lock} (statement m))
          (λ _ l. Here Ready' l)
          (λ _ l. Here Calm' l)
  neutral_ready m law =
      on_step m Ready' Ready' Calm' _ _ law
        (λ c c' h l. (ap versions l.0 ∙ h.0, l.1 ∙ h.1 ∙ sym l.0, λ name. l.2 name ∙ h.2 name))
        (λ c c' h l. (ap versions l.0 ∙ h.0, l.1 h.1))

  pub neutral_calm :
      {A : Type 0} (m : Exec Conn Problem A)
      → IsNeutral pg m
      → Triple
          (Here Calm')
          (on {session = lock_session lock} (statement m))
          (λ _ l. Here Calm' l)
          (λ _ l. Here Calm' l)
  neutral_calm m law =
      on_step m Calm' Calm' Calm' _ _ law (λ c c' h l. (ap versions l.0 ∙ h.0, l.1 ∙ h.1 ∙ sym l.0))
        (λ c c' h l. (ap versions l.0 ∙ h.0, l.1 h.1))

  pub note_calm :
      (m : Exec Conn Problem (Unit {0}))
      → IsNote pg m
      → Triple
          (Here Calm')
          (on {session = lock_session lock} (statement m))
          (λ _ l. Here Level' l)
          (λ _ l. Here Calm' l)
  note_calm m law =
      on_step m Calm' Level' Calm' _ _ law
        (λ c c' h l. (ap versions l.0 ∙ h.0, l.1 ∙ ap versions h.1 ∙ h.0))
        (λ c c' h l. (ap versions l.0 ∙ h.0, l.1 h.1))

  relabelled :
      {A : Type 0} (m : Exec Conn Raised A) (q r : Conn → Conn → Type 0)
      → ((c : Conn) → Ends (m c) (λ _ c'. q c c') (λ _ c'. r c c'))
      → (c : Conn) → Ends (of_engine m c) (λ _ c'. q c c') (λ _ c'. r c c')
  relabelled {A} m q r law c = record { post = go (m c).0 (m c).1 (law c).post }
    where
      go :
          (o : Outcome Raised A) (c' : Conn)
          → Post (λ _ c'. q c c') (λ _ c'. r c c') o c'
          → Post (λ _ c'. q c c') (λ _ c'. r c c') (relabel engine_error o) c'
      go (ok a) c' h = h
      go (err e) c' h = h

  pub commit_step :
      Triple
        (Here Level')
        (on {session = lock_session lock} (statement (of_engine pg.commit)))
        (λ _ l. Here Ready' l)
        (λ _ l. Here Calm' l)
  commit_step =
      on_step (of_engine pg.commit) Level' Ready' Calm' _ _
        (relabelled pg.commit _ _ laws.commit_law)
        (λ c c' h l. (ap versions l.0 ∙ h.1, l.1 ∙ sym l.0, l.2))
        (λ c c' h l. (ap versions l.0 ∙ h.0, l.2))

  pub suppressed_step :
      Triple
        (Here Calm')
        (suppressed_rollback {session = lock_session lock})
        (λ _ l. Here Ready' l)
        (λ _ _. ⊥)
  unfolding suppressed_rollback
  suppressed_step =
      triple-try_except {R' = λ _ _. ⊥} _ _
        (triple-weaken (λ _ h. h) (λ _ _ h. h) (λ _ _ h. h.0)
          (on_step (of_engine pg.rollback) Calm' Ready' (λ _. ⊥) _ _
            (relabelled pg.rollback _ _ (λ c. ends-both (laws.rollback_law c) (up.rollback_up c)))
            (λ c c' h l. (ap versions l.0.0 ∙ h.0, l.0.1 ∙ sym l.0.0, l.0.2)) (λ c c' h l. l.1)))
        (λ _. triple-pure tt (λ _ no. absurd no))

  -- The row of the holder: written or taken away, and committed.
  pub noted :
      (m : Exec Conn Problem (Unit {0}))
      → IsNote pg m
      → Triple
          (Here Calm')
          (try_except
            (on {session = lock_session lock} (statement m) >>= λ _.
              on (statement (of_engine pg.commit)))
            (λ _. suppressed_rollback))
          (λ _ l. Here Ready' l)
          (λ _ _. ⊥)
  noted m law =
      triple-try_except {R' = λ _ l. Here Calm' l} _ _
        (triple-bind _ _ (note_calm m law) (λ _. commit_step)) (λ _. suppressed_step)

  pub calm : (l : L) → Here Ready' l → Here Calm' l
  calm l h = ((h.0.0, h.0.1), h.1)
