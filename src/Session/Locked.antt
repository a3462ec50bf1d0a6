-- ===== src/Session/Locked.antt =====
-- Proofs about a block under the lock, on the tracking table.
use confiture.Base.{ℕ, Bool, true, false, not, Option, none, some, List}
use confiture.Base.Text.{Text}
use confiture.Base.Exec.{Outcome, ok, err, Exec, pure, gets, modify, ◌>>=◌, try_except}
use confiture.Base.Triple.{
  Post, Triple, triple-bind, triple-try_except, triple-try_finally, triple-if, triple-pure,
  triple-raise, triple-weaken,
}
use confiture.Postgres.{Connection}
use confiture.Postgres.Laws.{IsPostgres, StaysUp}
use confiture.Migrator.Calm.{Calm, Ready}
use confiture.Locking.{
  Problem, engine_error, lock_acquisition_error, query_canceled, other_error, LockMode, blocking,
  non_blocking, LockConfig, Lock, Digest, on, answer_of, generate_lock_id, chosen_lock_id,
  known_lock_id, get_lock_id, safe_read_lock_holder, on_canceled, acquire_blocking,
  acquire_non_blocking, write_holder_metadata, clear_holder_metadata, acquire_by, acquire_lock,
  release_lock, acquire,
}
use confiture.Session.Statements.{neutral_ready, neutral_calm, noted, suppressed_step, calm}
use confiture.Session.{Locals, Call, LockStatements, statement, lock_session, new_lock, locked}
use confiture.Session.Laws.{IsLock}

module _ (pg : Connection) (laws : IsPostgres pg) (up : StaysUp pg) (lock : LockStatements pg)
    (locks : IsLock pg lock) (digest : Digest) (config : LockConfig) (vs : List Text)
    (F : Locals → Type 0) where
  open pg use {Conn}

  abbrev L : Type 0
  L = Lock (lock_session lock)

  abbrev Here : (Conn → Type 0) → L → Type 0
  Here P l = P l.conn.engine.conn × F l.conn.locals

  abbrev Calm' : Conn → Type 0
  Calm' = Calm pg vs

  abbrev Ready' : Conn → Type 0
  Ready' = Ready pg vs

  module _ (P : Conn → Type 0)
      (keep : Triple
        (Here P)
        (on {session = lock_session lock} (statement lock.current_database))
        (λ _ l. Here P l)
        (λ _ l. Here Calm' l)) where
    generate_step :
        Triple
          (Here P)
          (generate_lock_id {session = lock_session lock} digest config)
          (λ _ l. Here P l)
          (λ _ l. Here Calm' l)
    unfolding generate_lock_id
    generate_step = triple-bind _ _ keep (λ _. triple-pure _ (λ _ h. h))

    chosen_step :
        (id : Option ℕ)
        → Triple
            (Here P)
            (chosen_lock_id {session = lock_session lock} digest config id)
            (λ _ l. Here P l)
            (λ _ l. Here Calm' l)
    unfolding chosen_lock_id
    chosen_step none = generate_step
    chosen_step (some id) = triple-pure id (λ _ h. h)

    known_step :
        (id : Option ℕ)
        → Triple
            (Here P)
            (known_lock_id {session = lock_session lock} digest config id)
            (λ _ l. Here P l)
            (λ _ l. Here Calm' l)
    unfolding known_lock_id
    known_step (some id) = triple-pure id (λ _ h. h)
    known_step none = triple-bind _ _ (chosen_step config.lock_id) λ id. record { at = λ l h. h }

    get_step :
        Triple
          (Here P)
          (get_lock_id {session = lock_session lock} digest config)
          (λ _ l. Here P l)
          (λ _ l. Here Calm' l)
    unfolding get_lock_id
    get_step = record { at = λ l h. (known_step l.lock_id).at l h }

  get_ready :
      Triple
        (Here Ready')
        (get_lock_id {session = lock_session lock} digest config)
        (λ _ l. Here Ready' l)
        (λ _ l. Here Calm' l)
  get_ready =
      get_step Ready'
        ((neutral_ready pg laws up lock locks vs F) lock.current_database locks.database_law)

  get_calm :
      Triple
        (Here Calm')
        (get_lock_id {session = lock_session lock} digest config)
        (λ _ l. Here Calm' l)
        (λ _ l. Here Calm' l)
  get_calm =
      get_step Calm'
        ((neutral_calm pg laws up lock locks vs F) lock.current_database locks.database_law)

  read_step :
      Triple
        (Here Calm')
        (safe_read_lock_holder {session = lock_session lock} digest config)
        (λ _ l. Here Calm' l)
        (λ _ _. ⊥)
  unfolding safe_read_lock_holder
  read_step =
      triple-try_except {R' = λ _ l. Here Calm' l} _ _
        (triple-bind _ _ get_calm (λ id.
          (neutral_calm pg laws up lock locks vs F) (lock.read_holder id) (locks.read_law id)))
        (λ _.
          triple-weaken (λ _ h. h) (λ _ l h. (calm pg laws up lock locks vs F) l h) (λ _ _ h. h)
            (suppressed_step pg laws up lock locks vs F))

  canceled_step :
      (e : Problem)
      → Triple
          (Here Calm')
          (on_canceled {session = lock_session lock} digest config e)
          (λ _ l. Here Ready' l)
          (λ _ l. Here Calm' l)
  unfolding on_canceled
  canceled_step query_canceled =
      triple-bind _ _
        (triple-weaken (λ _ h. h) (λ _ _ h. h) (λ _ _ no. absurd no)
          (suppressed_step pg laws up lock locks vs F))
        λ _.
          triple-bind _ _
            (triple-weaken (λ l h. (calm pg laws up lock locks vs F) l h) (λ _ _ h. h)
              (λ _ _ no. absurd no) read_step)
            (λ _. triple-raise (lock_acquisition_error true) (λ _ h. h))
  canceled_step (lock_acquisition_error t) = triple-raise _ (λ _ h. h)
  canceled_step (engine_error e) = triple-raise _ (λ _ h. h)
  canceled_step (other_error t) = triple-raise _ (λ _ h. h)

  blocking_step :
      (id : ℕ)
      → Triple
          (Here Ready')
          (acquire_blocking {session = lock_session lock} digest config id)
          (λ _ l. Here Ready' l)
          (λ _ l. Here Calm' l)
  unfolding acquire_blocking
  blocking_step id =
      triple-bind _ _
        ((neutral_ready pg laws up lock locks vs F) (lock.set_statement_timeout config.timeout_ms)
          (locks.timeout_law config.timeout_ms))
        λ _.
          triple-try_except {R' = λ _ l. Here Calm' l} _ _
            (triple-bind _ _
              ((neutral_ready pg laws up lock locks vs F) (lock.advisory_lock id)
                (locks.lock_law id))
              (λ _.
                (neutral_ready pg laws up lock locks vs F) (lock.set_statement_timeout 0)
                  (locks.timeout_law 0)))
            canceled_step

  non_blocking_step :
      (id : ℕ)
      → Triple
          (Here Ready')
          (acquire_non_blocking {session = lock_session lock} digest config id)
          (λ _ l. Here Ready' l)
          (λ _ l. Here Calm' l)
  unfolding acquire_non_blocking
  non_blocking_step id =
      triple-bind _ _
        ((neutral_ready pg laws up lock locks vs F) (lock.try_advisory_lock id) (locks.try_law id))
        λ result.
          triple-if (not (answer_of result)) _ _
            (λ _.
              triple-bind _ _
                (triple-weaken (λ l h. (calm pg laws up lock locks vs F) l h) (λ _ _ h. h)
                  (λ _ _ no. absurd no) read_step)
                (λ _. triple-raise (lock_acquisition_error false) (λ _ h. h)))
            (λ _. triple-pure tt (λ _ h. h))

  by_step :
      (mode : LockMode) (id : ℕ)
      → Triple
          (Here Ready')
          (acquire_by {session = lock_session lock} digest config mode id)
          (λ _ l. Here Ready' l)
          (λ _ l. Here Calm' l)
  unfolding acquire_by
  by_step blocking id = blocking_step id
  by_step non_blocking id = non_blocking_step id

  mark_step :
      (P : Conn → Type 0) (b : Bool)
      → Triple
          (Here P)
          (modify {S = L} {E = Problem} (λ l. record l { lock_held = b }))
          (λ _ l. Here P l)
          (λ _ l. Here Calm' l)
  mark_step P b = record { at = λ l h. h }

  held_step :
      Triple
        (Here Calm')
        (gets {S = L} {E = Problem} (λ l. l.lock_held))
        (λ _ l. Here Calm' l)
        (λ _ l. Here Calm' l)
  held_step = record { at = λ l h. h }

  acquire_step :
      Triple
        (Here Ready')
        (acquire_lock {session = lock_session lock} digest config)
        (λ _ l. Here Ready' l)
        (λ _ l. Here Calm' l)
  unfolding acquire_lock write_holder_metadata
  acquire_step = triple-bind _ _ get_ready λ id. triple-bind _ _ (by_step config.mode id) λ _.
      triple-bind _ _ (mark_step Ready' true) λ _.
        triple-weaken (λ l h. (calm pg laws up lock locks vs F) l h) (λ _ _ h. h)
          (λ _ _ no. absurd no)
          ((noted pg laws up lock locks vs F) (lock.write_holder id) (locks.write_law id))

  -- Giving the lock back, also where the server refuses to.
  unlock_step :
      (id : ℕ)
      → Triple
          (Here Calm')
          (try_except
            (on {session = lock_session lock} (statement (lock.advisory_unlock id)) >>= λ _.
              pure tt)
            (λ _. pure tt))
          (λ _ l. Here Calm' l)
          (λ _ _. ⊥)
  unlock_step id =
      triple-try_except {R' = λ _ l. Here Calm' l} _ _
        (triple-bind _ _
          ((neutral_calm pg laws up lock locks vs F) (lock.advisory_unlock id)
            (locks.unlock_law id))
          (λ _. triple-pure tt (λ _ h. h)))
        (λ _. triple-pure tt (λ _ h. h))

  pub release_calm :
      Triple
        (Here Calm')
        (release_lock {session = lock_session lock} digest config)
        (λ _ l. Here Calm' l)
        (λ _ l. Here Calm' l)
  unfolding release_lock clear_holder_metadata
  release_calm = triple-bind _ _ held_step λ held.
      triple-if (not held) _ _ (λ _. triple-pure tt (λ _ h. h))
        λ _. triple-bind _ _ get_calm λ id.
          triple-try_finally {M = λ _ l. Here Calm' l} {N = λ _ _. ⊥} _ _ (unlock_step id)
            (λ _. triple-bind _ _ (mark_step Calm' false) λ _.
              triple-weaken (λ _ h. h) (λ _ l h. (calm pg laws up lock locks vs F) l h)
                (λ _ _ no. absurd no)
                ((noted pg laws up lock locks vs F) (lock.delete_holder id) (locks.delete_law id)))
            (λ e. record { at = λ l no. absurd no })

  -- The block itself.
  body_step :
      {A : Type 0} (body : Exec (Call pg) Problem A) (P : Call pg → Type 0)
      (Q : A → Call pg → Type 0) (R : Problem → Call pg → Type 0)
      → Triple P body Q R
      → Triple
          (λ (l : L). P l.conn)
          (on {session = lock_session lock} body)
          (λ a l. Q a l.conn)
          (λ e l. R e l.conn)
  body_step {A} body P Q R t = record {
    at = λ l h. go l (body l.conn).0 (body l.conn).1 (t.at l.conn h);
  }
    where
      go :
          (l : L) (o : Outcome Problem A) (c : Call pg)
          → Post Q R o c
          → Post (λ a l. Q a l.conn) (λ e l. R e l.conn) o (record l { conn = c })
      go l (ok a) c h = h
      go l (err e) c h = h

module _ (pg : Connection) (laws : IsPostgres pg) (up : StaysUp pg) (lock : LockStatements pg)
    (locks : IsLock pg lock) (digest : Digest) (config : LockConfig) where
  -- Some table is committed and nothing is pending; `G` says which table, and of the local variables.
  abbrev pub AtRest : (List Text → Locals → Type 0) → Call pg → Type 0
  AtRest G s = (ws : List Text) × Calm pg ws s.engine.conn × G ws s.locals

  release_rest :
      (G : List Text → Locals → Type 0)
      → Triple
          (λ l. AtRest G l.conn)
          (release_lock {session = lock_session lock} digest config)
          (λ _ l. AtRest G l.conn)
          (λ _ l. AtRest G l.conn)
  release_rest G = record {
    at = λ l h.
        (triple-weaken (λ _ h. h) (λ _ _ p. (h.0, p.0, p.1)) (λ _ _ p. (h.0, p.0, p.1))
            (release_calm pg laws up lock locks digest config h.0 (G h.0))).at
          l (h.1, h.2);
  }

  module _ {A : Type 0} (body : Exec (Call pg) Problem A) (vs : List Text) (F : Locals → Type 0)
      (G : A → List Text → Locals → Type 0) (H : List Text → Locals → Type 0)
      (start : (l : Locals) → F l → H vs l)
      (back : (a : A) (ws : List Text) (l : Locals) → G a ws l → H ws l)
      (runs : Triple
        (λ s. Ready pg vs s.engine.conn × F s.locals)
        body
        (λ a s. AtRest (G a) s)
        (λ _ s. AtRest H s)) where
    abbrev Started : Lock (lock_session lock) → Type 0
    Started l = Ready pg vs l.conn.engine.conn × F l.conn.locals

    inside_step :
        Triple Started
          (on {session = lock_session lock} body)
          (λ a l. AtRest (G a) l.conn)
          (λ _ l. AtRest H l.conn)
    inside_step =
        body_step pg laws up lock locks digest config vs F body _ (λ a s. AtRest (G a) s)
          (λ _ s. AtRest H s) runs

    guarded_step :
        Triple Started
          (acquire_lock {session = lock_session lock} digest config >>= λ _. on body)
          (λ a l. AtRest (G a) l.conn)
          (λ _ l. AtRest H l.conn)
    guarded_step =
        triple-bind _ _
          (triple-weaken (λ _ h. h) (λ _ _ h. h)
            (λ _ l h. (vs, (h.0.0, h.0.1), start l.conn.locals h.1))
            (acquire_step pg laws up lock locks digest config vs F))
          (λ _. inside_step)

    acquire_rest :
        Triple Started
          (acquire {session = lock_session lock} digest config (on body))
          (λ a l. AtRest (G a) l.conn)
          (λ _ l. AtRest H l.conn)
    unfolding acquire
    acquire_rest =
        triple-if (not config.enabled) _ _ (λ _. inside_step)
          λ _.
            triple-try_finally _ _ guarded_step
              (λ a.
                triple-weaken (λ _ h. h) (λ _ _ h. h)
                  (λ _ l h. (h.0, h.1, back a h.0 l.conn.locals h.2)) (release_rest (G a)))
              (λ _. release_rest H)

    -- `with lock.acquire(): body`. Started with nothing pending; `G` holds where the body returns,
    -- `H` where it raises and where the lock is not had.
    pub locked_rule :
        Triple
          (λ s. Ready pg vs s.engine.conn × F s.locals)
          (locked lock digest config body)
          (λ a s. AtRest (G a) s)
          (λ _ s. AtRest H s)
    unfolding locked
    locked_rule = record {
      at = λ s h.
          let r =
            acquire {session = lock_session lock} digest config (on body)
              (new_lock lock digest config s) in
          go r.0 r.1 (acquire_rest.at (new_lock lock digest config s) h);
    }
      where
        go :
            (o : Outcome Problem A) (l : Lock (lock_session lock))
            → Post (λ a l. AtRest (G a) l.conn) (λ _ l. AtRest H l.conn) o l
            → Post (λ a s. AtRest (G a) s) (λ _ s. AtRest H s) o l.conn
        go (ok a) l h = h
        go (err e) l h = h
