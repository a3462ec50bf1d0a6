-- ===== src/Locking/Held.antt =====
-- Proofs about acquiring the lock.
use confiture.Base.{ℕ, ◌≡◌, refl, ◌∙◌, Bool, true, false, not, if◌then◌else◌, nat_eq}
use confiture.Base.Exec.{pure, raise, modify, ◌>>=◌}
use confiture.Base.Triple.{
  Triple, triple-bind, triple-try_except, triple-pure, triple-raise, triple-weaken,
}
use confiture.Locking.{
  Problem, lock_acquisition_error, query_canceled, other_error, engine_error, LockMode, blocking,
  non_blocking, LockConfig, Session, Lock, Digest, answer_of, on, safe_read_lock_holder,
  on_canceled, acquire_blocking, acquire_non_blocking, write_holder_metadata, acquire_by,
  acquire_lock,
}
use confiture.Locking.Laws.{SameLocks, OneMore, IsAdvisory}
use confiture.Locking.Quiet.{
  Idle, St, up, Sound, quiet_st, suppressed_st, read_st, noted_st, get_step, triple-on,
}

module _ (session : Session) (laws : IsAdvisory session) (digest : Digest) (config : LockConfig)
    (base : ℕ → ℕ) where
  canceled_st :
      (id : ℕ) (e : Problem)
      → Triple
          ((St session laws digest config base) base false id)
          (on_canceled {session = session} digest config e)
          (λ _ l.
            (St session laws digest config base)
              ((up session laws digest config base) id)
              false
              id
              l)
          (λ _ l. (St session laws digest config base) base false id l)
  unfolding on_canceled
  canceled_st id query_canceled =
      triple-bind _ _
        (triple-weaken (λ _ h. h) (λ _ _ h. h.0) (λ _ _ no. absurd no)
          ((suppressed_st session laws digest config base) base false id))
        λ _.
          triple-bind _ _
            (triple-weaken (λ _ h. h) (λ _ _ h. h) (λ _ _ no. absurd no)
              ((read_st session laws digest config base) base false id))
            λ _. triple-raise _ (λ _ h. h)
  canceled_st id (lock_acquisition_error t) = triple-raise _ (λ _ h. h)
  canceled_st id (other_error t) = triple-raise _ (λ _ h. h)
  canceled_st id (engine_error e) = triple-raise _ (λ _ h. h)

  locked_st :
      (id : ℕ)
      → Triple
          ((St session laws digest config base) base false id)
          (on {session = session} (session.advisory_lock id))
          (λ _ l.
            (St session laws digest config base)
              ((up session laws digest config base) id)
              false
              id
              l
            × (Sound session laws digest config base) l)
          (λ _ l. (St session laws digest config base) base false id l)
  locked_st id =
      triple-on session (session.advisory_lock id) _ _ _
        (λ _ c c'. OneMore session id c c' × (session.aborted c' ≡ false))
        (λ c c'. SameLocks session c c') (λ l _. laws.lock_law id l.conn)
        (λ a l c' h more. (((λ i. more.0 i ∙ rw (h.0 i) refl), h.1, h.2), more.1))
        (λ e l c' h same. ((λ i. same i ∙ h.0 i), h.1, h.2))

  reset_st :
      (id ms : ℕ)
      → Triple
          (λ l.
            (St session laws digest config base)
              ((up session laws digest config base) id)
              false
              id
              l
            × (Sound session laws digest config base) l)
          (on {session = session} (session.set_statement_timeout ms))
          (λ _ l.
            (St session laws digest config base)
              ((up session laws digest config base) id)
              false
              id
              l)
          (λ _ l. (St session laws digest config base) base false id l)
  reset_st id ms =
      triple-on session (session.set_statement_timeout ms) _ _ _ (λ _ c c'. SameLocks session c c')
        (λ _ _. ⊥) (λ l h. laws.reset_law ms l.conn h.1)
        (λ a l c' h same. ((λ i. same i ∙ h.0.0 i), h.0.1, h.0.2)) (λ e l c' h no. absurd no)

  blocking_st :
      (id : ℕ)
      → Triple
          ((St session laws digest config base) base false id)
          (acquire_blocking digest config id)
          (λ _ l.
            (St session laws digest config base)
              ((up session laws digest config base) id)
              false
              id
              l)
          (λ _ l. (St session laws digest config base) base false id l)
  unfolding acquire_blocking
  blocking_st id =
      triple-bind _ _
        ((quiet_st session laws digest config base) base false id
          (session.set_statement_timeout config.timeout_ms) (laws.timeout_law config.timeout_ms))
        λ _.
          triple-try_except _ _ (triple-bind _ _ (locked_st id) λ _. reset_st id 0) (canceled_st id)

  one_more :
      (id : ℕ) (answer : Bool) (c c' : session.Conn)
      → ((i : ℕ) → session.held c i ≡ base i)
      → (if answer then OneMore session id c c' else SameLocks session c c')
      → (i : ℕ)
      → session.held c' i ≡ (if answer then (up session laws digest config base) id else base) i
  one_more id true c c' h more i = more i ∙ rw (h i) refl
  one_more id false c c' h same i = same i ∙ h i

  tried_st :
      (id : ℕ)
      → Triple
          ((St session laws digest config base) base false id)
          (on {session = session} (session.try_advisory_lock id))
          (λ result l.
            (St session laws digest config base)
              (if answer_of result then (up session laws digest config base) id else base)
              false
              id
              l)
          (λ _ l. (St session laws digest config base) base false id l)
  tried_st id =
      triple-on session (session.try_advisory_lock id) _ _ _
        (λ result c c'.
          if answer_of result then OneMore session id c c' else SameLocks session c c')
        (λ c c'. SameLocks session c c') (λ l _. laws.try_law id l.conn)
        (λ result l c' h more. (one_more id (answer_of result) l.conn c' h.0 more, h.1, h.2))
        (λ e l c' h same. ((λ i. same i ∙ h.0 i), h.1, h.2))

  choice_st :
      (id : ℕ) (answer : Bool)
      → Triple
          ((St session laws digest config base)
            (if answer then (up session laws digest config base) id else base)
            false
            id)
          (if not answer
            then (safe_read_lock_holder {session = session} digest config >>= λ _.
                raise (lock_acquisition_error false))
            else pure tt)
          (λ (_ : Unit {0}) l.
            (St session laws digest config base)
              ((up session laws digest config base) id)
              false
              id
              l)
          (λ _ l. (St session laws digest config base) base false id l)
  choice_st id true = triple-pure tt (λ _ h. h)
  choice_st id false =
      triple-bind _ _
        (triple-weaken (λ _ h. h) (λ _ _ h. h) (λ _ _ no. absurd no)
          ((read_st session laws digest config base) base false id))
        λ _. triple-raise _ (λ _ h. h)

  by_st :
      (id : ℕ) (mode : LockMode)
      → Triple
          ((St session laws digest config base) base false id)
          (acquire_by digest config mode id)
          (λ _ l.
            (St session laws digest config base)
              ((up session laws digest config base) id)
              false
              id
              l)
          (λ _ l. (St session laws digest config base) base false id l)
  unfolding acquire_by acquire_non_blocking
  by_st id blocking = blocking_st id
  by_st id non_blocking = triple-bind _ _ (tried_st id) λ result. choice_st id (answer_of result)

  -- The lock is held, and the transaction is in order.
  abbrev pub Holding : ℕ → Lock session → Type 0
  Holding id l =
      (St session laws digest config base) ((up session laws digest config base) id) true id l
      × (Sound session laws digest config base) l

  pub acquire_step :
      Triple
        (Idle session laws digest config base)
        (acquire_lock digest config)
        (λ _ l. (id : ℕ) × Holding id l)
        (λ _ l. (Idle session laws digest config base) l)
  unfolding acquire_lock write_holder_metadata
  acquire_step = triple-bind _ _ (get_step session laws digest config base) λ id.
      triple-bind
        {Q = λ _ l.
          (St session laws digest config base) ((up session laws digest config base) id) false id l}
        _ _
        (triple-weaken (λ _ h. (h.0.0, h.0.1, h.1)) (λ _ _ h. h) (λ _ _ h. (h.0, h.1))
          (by_st id config.mode))
        λ _. triple-bind (modify (λ l. record l { lock_held = true })) _ (marked id) λ _.
          triple-weaken (λ _ h. h) (λ _ _ h. (id, h)) (λ _ _ no. absurd no)
            ((noted_st session laws digest config base) ((up session laws digest config base) id)
              true id (session.write_holder id) (laws.write_law id))
    where
      marked :
          (id : ℕ)
          → Triple
              ((St session laws digest config base)
                ((up session laws digest config base) id)
                false
                id)
              (modify (λ l. record l { lock_held = true }))
              (λ (_ : Unit {0}) l.
                (St session laws digest config base)
                  ((up session laws digest config base) id)
                  true
                  id
                  l)
              (λ (_ : Problem) l. (Idle session laws digest config base) l)
      marked id = record { at = λ l h. (h.0, refl, h.2) }
