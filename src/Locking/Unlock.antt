-- ===== src/Locking/Unlock.antt =====
-- Proofs about `release_lock`, in a transaction that has failed and in one that has not.
use confiture.Base.{
  ℕ, suc, ◌-◌, ◌≡◌, refl, subst, sym, ◌∙◌, Bool, true, false, not, Option, none, some,
  if◌then◌else◌, ◌==◌, nat_eq, arith, Bool-cases, inl, inr,
}
use confiture.Base.Exec.{Outcome, ok, Exec, pure, modify, ◌>>=◌, try_except, try_finally}
use confiture.Base.Triple.{
  Post, Triple, triple-bind, triple-try_except, triple-try_finally, triple-pure, triple-weaken,
}
use confiture.Locking.{
  Problem, LockConfig, Session, Lock, Digest, on, get_lock_id, known_lock_id, clear_holder_metadata,
  release_lock,
}
use confiture.Locking.Laws.{SameLocks, OneLess, IsAdvisory}
use confiture.Locking.Quiet.{St, up, noted_st, triple-on}

module _ (session : Session) (base : ℕ → ℕ) where
  -- The lock is held, and the transaction has failed, or not.
  abbrev pub Standing : Bool → ℕ → Lock session → Type 0
  Standing broken id l =
      ((i : ℕ) → session.held l.conn i ≡ (if i == id then suc (base i) else base i))
      × (l.lock_held ≡ true)
      × (l.lock_id ≡ some id)
      × (session.aborted l.conn ≡ broken)

  -- A body that is given the held lock and a transaction in order, and leaves the lock held.
  abbrev pub Body : Bool → Exec (Lock session) Problem Unit → Type 0
  Body broken body =
      (id : ℕ)
      → Triple (Standing false id) body (λ _ l. Standing broken id l) (λ _ l. Standing broken id l)

  -- Afterwards the session holds what it held before, or still one more.
  abbrev pub Released : Lock session → Type 0
  Released l = (l.lock_held ≡ false) × ((i : ℕ) → session.held l.conn i ≡ base i)

  abbrev pub LeftBehind : Lock session → Type 0
  LeftBehind l =
      (l.lock_held ≡ false)
      × ((id : ℕ) × (l.lock_id ≡ some id)
          × ((i : ℕ) → session.held l.conn i ≡ (if i == id then suc (base i) else base i)))

  -- What follows a body that leaves the transaction failed, or not.
  abbrev pub After : Bool → Lock session → Type 0
  After false l = Released l
  After true l = LeftBehind l

module _ (session : Session) (laws : IsAdvisory session) (digest : Digest) (config : LockConfig)
    (base : ℕ → ℕ) where
  back :
      (id i held : ℕ)
      → held ≡ (if i == id then suc (base i) else base i)
      → (if i == id then held - 1 else held) ≡ base i
  back id i held h = elim (Bool-cases (i == id)) [
    | inl e ↦ rw e (omega (arith, rw e at h))
    | inr e ↦ rw e (rw e at h)
  ]

  unlocked :
      (id : ℕ)
      → Triple
          (Standing session base false id)
          (try_except
            (on {session = session} (session.advisory_unlock id) >>= λ _. pure tt)
            (λ _. pure tt))
          (λ (_ : Unit {0}) l. St session laws digest config base base true id l)
          (λ _ _. ⊥)
  unlocked id =
      triple-try_except {R' = λ _ _. ⊥} _ _
        (triple-bind _ _
          (triple-on session (session.advisory_unlock id) (Standing session base false id)
            (λ _ l. St session laws digest config base base true id l) (λ _ _. ⊥)
            (λ _ c c'. OneLess session id c c') (λ _ _. ⊥) (λ l h. laws.unlock_law id l.conn h.3)
            (λ a l c' h less. ((λ i. less i ∙ back id i (session.held l.conn i) (h.0 i)), h.1, h.2))
            (λ e l c' h no. no))
          λ _. triple-pure tt (λ _ h. h))
        (λ e. triple-pure tt (λ _ no. absurd no))

  refused :
      (id : ℕ)
      → Triple
          (Standing session base true id)
          (try_except
            (on {session = session} (session.advisory_unlock id) >>= λ _. pure tt)
            (λ _. pure tt))
          (λ (_ : Unit {0}) l.
            St session laws digest config base (up session laws digest config base id) true id l)
          (λ _ _. ⊥)
  refused id =
      triple-try_except
        {R' = λ _ l.
          St session laws digest config base (up session laws digest config base id) true id l}
        _ _
        (triple-bind _ _
          (triple-on session (session.advisory_unlock id) (Standing session base true id) (λ _ _. ⊥)
            (λ _ l.
              St session laws digest config base (up session laws digest config base id) true id l)
            (λ _ _ _. ⊥) (λ c c'. SameLocks session c c') (λ l h. laws.aborted_law id l.conn h.3)
            (λ a l c' h no. no) (λ e l c' h same. ((λ i. same i ∙ h.0 i), h.1, h.2)))
          λ _. triple-pure tt (λ _ no. absurd no))
        (λ e. triple-pure tt (λ _ h. h))

  known_at :
      (id : ℕ) (l : Lock session) (known : Option ℕ)
      → known ≡ some id
      → known_lock_id digest config known l ≡ (ok id, l)
  unfolding known_lock_id
  known_at id l none h = cc
  known_at id l (some id') h = cc

  get_standing :
      (broken : Bool) (id : ℕ)
      → Triple
          (Standing session base broken id)
          (get_lock_id digest config)
          (λ id' l. Standing session base broken id l × (id' ≡ id))
          (λ _ _. ⊥)
  unfolding get_lock_id
  get_standing broken id = record {
    at = λ l h.
        subst
          (λ (r : Outcome Problem ℕ × Lock session).
            Post (λ id' l. Standing session base broken id l × (id' ≡ id)) (λ _ _. ⊥) r.0 r.1)
          (sym (known_at id l l.lock_id h.2)) (h, refl);
  }

  cleared :
      (k : ℕ → ℕ) (id : ℕ)
      → Triple
          (St session laws digest config base k true id)
          (modify (λ l. record l { lock_held = false }) >>= λ _.
            clear_holder_metadata digest config id)
          (λ (_ : Unit {0}) l. St session laws digest config base k false id l)
          (λ _ _. ⊥)
  unfolding clear_holder_metadata
  cleared k id = triple-bind (modify (λ l. record l { lock_held = false })) _ forgotten λ _.
      triple-weaken (λ _ h. h) (λ _ _ h. h.0) (λ _ _ no. no)
        (noted_st session laws digest config base k false id (session.delete_holder id)
          (laws.delete_law id))
    where
      forgotten :
          Triple
            (St session laws digest config base k true id)
            (modify (λ l. record l { lock_held = false }))
            (λ (_ : Unit {0}) l. St session laws digest config base k false id l)
            (λ (_ : Problem) _. ⊥)
      forgotten = record { at = λ l h. (h.0, refl, h.2) }

  -- What the session holds after the lock was released.
  abbrev pub left : Bool → ℕ → ℕ → ℕ
  left broken id = if broken then up session laws digest config base id else base

  unlock_step :
      (broken : Bool) (id : ℕ)
      → Triple
          (Standing session base broken id)
          (try_except
            (on {session = session} (session.advisory_unlock id) >>= λ _. pure tt)
            (λ _. pure tt))
          (λ (_ : Unit {0}) l. St session laws digest config base (left broken id) true id l)
          (λ _ _. ⊥)
  unlock_step false id = unlocked id
  unlock_step true id = refused id

  given_back :
      (broken : Bool) (id id' : ℕ)
      → id' ≡ id
      → Triple
          (Standing session base broken id)
          (try_finally
            (try_except
              (on {session = session} (session.advisory_unlock id') >>= λ _. pure tt)
              (λ _. pure tt))
            (modify (λ l. record l { lock_held = false }) >>= λ _.
              clear_holder_metadata digest config id'))
          (λ (_ : Unit {0}) l. St session laws digest config base (left broken id) false id l)
          (λ _ _. ⊥)
  given_back broken id id' same = rw same (
      triple-try_finally {N = λ _ _. ⊥} _ _ (unlock_step broken id)
        (λ _. triple-weaken (λ _ h. h) (λ _ _ h. h) (λ _ _ no. no) (cleared (left broken id) id))
        (λ e. record { at = λ l no. absurd no }))

  pub release_step :
      (broken : Bool) (id : ℕ)
      → Triple
          (Standing session base broken id)
          (release_lock digest config)
          (λ _ l. St session laws digest config base (left broken id) false id l)
          (λ _ _. ⊥)
  unfolding release_lock
  release_step broken id = record { at = λ l h. (when_held l.lock_held h.1).at l h }
    where
      when_held :
          (held : Bool)
          → held ≡ true
          → Triple
              (Standing session base broken id)
              (if not held
                then pure tt
                else (get_lock_id digest config >>= λ id'.
                    try_finally
                      (try_except
                        (on {session = session} (session.advisory_unlock id') >>= λ _. pure tt)
                        (λ _. pure tt))
                      (modify (λ l. record l { lock_held = false }) >>= λ _.
                        clear_holder_metadata digest config id')))
              (λ (_ : Unit {0}) l. St session laws digest config base (left broken id) false id l)
              (λ _ _. ⊥)
      when_held false h = cc
      when_held true h =
          triple-bind _ _ (get_standing broken id)
            λ id'. record { at = λ l st. (given_back broken id id' st.1).at l st.0 }
