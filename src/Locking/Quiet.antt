-- ===== src/Locking/Quiet.antt =====
-- The states of the lock, and proofs about the steps that only query.
use confiture.Base.{
  ℕ, suc, ◌≡◌, refl, ◌∙◌, Bool, false, Option, none, some, if◌then◌else◌, ◌==◌, nat_eq,
}
use confiture.Base.Exec.{Outcome, ok, err, Exec, ◌>>=◌, try_except}
use confiture.Base.Triple.{
  Post, Ends, Triple, triple-bind, triple-try_except, triple-pure, triple-weaken,
}
use confiture.Locking.{
  Problem, LockConfig, Session, Lock, Digest, on, suppressed_rollback, generate_lock_id,
  chosen_lock_id, known_lock_id, get_lock_id, safe_read_lock_holder,
}
use confiture.Locking.Laws.{SameLocks, IsQuiet, IsAdvisory}

module _ (session : Session) where
  -- A call of the session, by what it does to the connection.
  pub triple-on :
      {A : Type 0} (m : Exec session.Conn Problem A) (P : Lock session → Type 0)
      (Q : A → Lock session → Type 0) (R : Problem → Lock session → Type 0)
      (q : A → session.Conn → session.Conn → Type 0) (r : session.Conn → session.Conn → Type 0)
      → ((l : Lock session) → P l → Ends (m l.conn) (λ a c'. q a l.conn c') (λ _ c'. r l.conn c'))
      → ((a : A) (l : Lock session) (c' : session.Conn)
          → P l
          → q a l.conn c'
          → Q a (record l { conn = c' }))
      → ((e : Problem) (l : Lock session) (c' : session.Conn)
          → P l
          → r l.conn c'
          → R e (record l { conn = c' }))
      → Triple P (on {session = session} m) Q R
  triple-on {A} m P Q R q r law good bad = record {
    at = λ l p. go l p (m l.conn).0 (m l.conn).1 (law l p).post;
  }
    where
      go :
          (l : Lock session)
          → P l
          → (o : Outcome Problem A) (c' : session.Conn)
          → Post (λ a c'. q a l.conn c') (λ _ c'. r l.conn c') o c'
          → Post Q R o (record l { conn = c' })
      go l p (ok a) c' h = good a l c' p h
      go l p (err e) c' h = bad e l c' p h

module _ (session : Session) (laws : IsAdvisory session) (digest : Digest) (config : LockConfig)
    (base : ℕ → ℕ) where
  -- The session holds what it held at the start, and the lock does not think that it holds more.
  abbrev pub Idle : Lock session → Type 0
  Idle l = ((i : ℕ) → session.held l.conn i ≡ base i) × (l.lock_held ≡ false)

  -- One hold more, of `id`.
  abbrev Up : ℕ → session.Conn → Type 0
  Up id c = (i : ℕ) → session.held c i ≡ (if i == id then suc (base i) else base i)

  quiet-Idle :
      {A : Type 0} (m : Exec session.Conn Problem A)
      → IsQuiet session m
      → Triple Idle (on {session = session} m) (λ _ l. Idle l) (λ _ l. Idle l)
  quiet-Idle m quiet =
      triple-on session m _ _ _ (λ _ c c'. SameLocks session c c') (λ c c'. SameLocks session c c')
        (λ l _. quiet l.conn) (λ a l c' h same. ((λ i. same i ∙ h.0 i), h.1))
        (λ e l c' h same. ((λ i. same i ∙ h.0 i), h.1))

  abbrev KnownIdle : ℕ → Lock session → Type 0
  KnownIdle id l = Idle l × (l.lock_id ≡ some id)

  generate_step : Triple Idle (generate_lock_id digest config) (λ _ l. Idle l) (λ _ l. Idle l)
  unfolding generate_lock_id
  generate_step =
      triple-bind _ _ (quiet-Idle session.current_database laws.database_law)
        λ name. triple-pure _ (λ _ h. h)

  chosen_step :
      (id : Option ℕ)
      → Triple Idle (chosen_lock_id digest config id) (λ _ l. Idle l) (λ _ l. Idle l)
  unfolding chosen_lock_id
  chosen_step none = generate_step
  chosen_step (some id) = triple-pure id (λ _ h. h)

  known_step :
      (known : Option ℕ)
      → Triple
          (λ l. Idle l × (l.lock_id ≡ known))
          (known_lock_id digest config known)
          (λ id l. KnownIdle id l)
          (λ _ l. Idle l)
  unfolding known_lock_id
  known_step (some id) = triple-pure id (λ _ h. h)
  known_step none =
      triple-bind _ _
        (triple-weaken (λ _ h. h.0) (λ _ _ h. h) (λ _ _ h. h) (chosen_step config.lock_id))
        λ id. record { at = λ l h. (h, refl) }

  pub get_step : Triple Idle (get_lock_id digest config) (λ id l. KnownIdle id l) (λ _ l. Idle l)
  unfolding get_lock_id
  get_step = record { at = λ l h. (known_step l.lock_id).at l (h, refl) }

  -- The locks of the session, and what the lock thinks of itself.
  abbrev pub St : (ℕ → ℕ) → Bool → ℕ → Lock session → Type 0
  St k b id l = ((i : ℕ) → session.held l.conn i ≡ k i) × (l.lock_held ≡ b) × (l.lock_id ≡ some id)

  abbrev pub up : ℕ → ℕ → ℕ
  up id i = if i == id then suc (base i) else base i

  abbrev pub Sound : Lock session → Type 0
  Sound l = session.aborted l.conn ≡ false

  module _ (k : ℕ → ℕ) (b : Bool) (id : ℕ) where
    pub quiet_st :
        {A : Type 0} (m : Exec session.Conn Problem A)
        → IsQuiet session m
        → Triple (St k b id) (on {session = session} m) (λ _ l. St k b id l) (λ _ l. St k b id l)
    quiet_st m quiet =
        triple-on session m _ _ _ (λ _ c c'. SameLocks session c c')
          (λ c c'. SameLocks session c c') (λ l _. quiet l.conn)
          (λ a l c' h same. ((λ i. same i ∙ h.0 i), h.1, h.2))
          (λ e l c' h same. ((λ i. same i ∙ h.0 i), h.1, h.2))

    pub suppressed_st :
        Triple
          (St k b id)
          (suppressed_rollback {session = session})
          (λ _ l. St k b id l × Sound l)
          (λ _ _. ⊥)
    unfolding suppressed_rollback
    suppressed_st =
        triple-try_except {R' = λ _ _. ⊥} _ _
          (triple-on session session.rollback _ _ _
            (λ _ c c'. SameLocks session c c' × (session.aborted c' ≡ false)) (λ _ _. ⊥)
            (λ l _. laws.rollback_law l.conn)
            (λ a l c' h same. (((λ i. same.0 i ∙ h.0 i), h.1, h.2), same.1)) (λ e l c' h no. no))
          (λ e. triple-pure tt (λ _ no. absurd no))

    commit_st :
        Triple
          (St k b id)
          (on {session = session} session.commit)
          (λ _ l. St k b id l × Sound l)
          (λ _ l. St k b id l)
    commit_st =
        triple-on session session.commit _ _ _
          (λ _ c c'. SameLocks session c c' × (session.aborted c' ≡ false))
          (λ c c'. SameLocks session c c') (λ l _. laws.commit_law l.conn)
          (λ a l c' h same. (((λ i. same.0 i ∙ h.0 i), h.1, h.2), same.1))
          (λ e l c' h same. ((λ i. same i ∙ h.0 i), h.1, h.2))

    pub noted_st :
        (m : Exec session.Conn Problem Unit)
        → IsQuiet session m
        → Triple
            (St k b id)
            (try_except
              (on {session = session} m >>= λ _. on session.commit)
              (λ _. suppressed_rollback))
            (λ _ l. St k b id l × Sound l)
            (λ _ _. ⊥)
    noted_st m quiet =
        triple-try_except _ _ (triple-bind _ _ (quiet_st m quiet) λ _. commit_st)
          (λ e. suppressed_st)

    known_st :
        (known : Option ℕ)
        → known ≡ some id
        → Triple
            (St k b id)
            (known_lock_id digest config known)
            (λ id' l. St k b id l × (id' ≡ id))
            (λ _ _. ⊥)
    unfolding known_lock_id
    known_st none h = cc
    known_st (some id') h = triple-pure id' (λ _ st. (st, cc))

    pub get_st :
        Triple
          (St k b id)
          (get_lock_id digest config)
          (λ id' l. St k b id l × (id' ≡ id))
          (λ _ _. ⊥)
    unfolding get_lock_id
    get_st = record { at = λ l h. (known_st l.lock_id h.2).at l h }

    pub read_st :
        Triple (St k b id) (safe_read_lock_holder digest config) (λ _ l. St k b id l) (λ _ _. ⊥)
    unfolding safe_read_lock_holder
    read_st =
        triple-try_except {R' = λ _ l. St k b id l} _ _
          (triple-bind _ _ (triple-weaken (λ _ h. h) (λ _ _ h. h.0) (λ _ _ no. absurd no) get_st)
            λ id'. quiet_st (session.read_holder id') (laws.read_law id'))
          (λ e. triple-weaken (λ _ h. h) (λ _ _ h. h.0) (λ _ _ h. h) suppressed_st)
