-- ===== src/Locking/Release.antt =====
-- Proofs about `acquire`.
use confiture.Base.{ℕ, ◌≡◌, ◌≢◌, refl, Bool, true, false, not, if◌then◌else◌, nat_eq, inl, inr, ◌⊎◌}
use confiture.Base.Exec.{Outcome, ok, err, Exec, pure, ◌>>=◌}
use confiture.Base.Triple.{
  Post, Ends, Triple, triple-bind, triple-try_finally, triple-if, triple-pure, triple-weaken,
  ends-Post,
}
use confiture.Locking.{
  Problem, LockConfig, Session, Lock, Digest, acquire_lock, release_lock, acquire,
}
use confiture.Locking.Laws.{IsAdvisory}
use confiture.Locking.Quiet.{Idle, St}
use confiture.Locking.Held.{acquire_step}
use confiture.Locking.Unlock.{Standing, Body, Released, LeftBehind, After, left, release_step}

with_outcome_of :
    {S : Type 0} (Q : Unit {0} → S → Type 0) (R : S → Type 0) (o : Outcome Problem Unit) (s : S)
    → Post Q (λ _ s. R s) o s
    → Post Q (λ _ s. (o ≢ ok tt) × R s) o s
with_outcome_of Q R (ok u) s h = h
with_outcome_of Q R (err e) s h = (λ no. cc, h)

-- From one state on, an exception tells that the method raises there.
with_outcome :
    {S : Type 0} {P : S → Type 0} {Q : Unit {0} → S → Type 0} {R : S → Type 0}
    (m : Exec S Problem Unit) (start : S)
    → P start
    → Triple P m Q (λ _ s. R s)
    → Triple (λ s. s ≡ start) m Q (λ _ s. ((m start).0 ≢ ok tt) × R s)
with_outcome {Q = Q} {R = R} m start h t = record {
  at = λ s e. rw e (with_outcome_of Q R (m start).0 (m start).1 (t.at start h));
}

module _ (session : Session) (laws : IsAdvisory session) (digest : Digest) (config : LockConfig)
    (base : ℕ → ℕ) (start : Lock session) (free : Idle session laws digest config base start) where
  -- The lock could not be had.
  abbrev NotHad : Type 0
  NotHad = (acquire_lock digest config start).0 ≢ ok tt

  after_lem :
      (broken : Bool) (id : ℕ) (l : Lock session)
      → St session laws digest config base
          ((left session laws digest config base) broken id)
          false
          id
          l
      → After session base broken l
  after_lem false id l h = (h.1, h.0)
  after_lem true id l h = (h.1, (id, h.2, h.0))

  -- Where the body, or the acquisition before it, ends.
  abbrev Ended : Bool → Lock session → Type 0
  Ended broken l = (id : ℕ) × Standing session base broken id l

  abbrev Stopped : Bool → Lock session → Type 0
  Stopped broken l = (NotHad × Idle session laws digest config base l) ⊎ Ended broken l

  abbrev Over : Bool → Lock session → Type 0
  Over broken l = (NotHad × Released session base l) ⊎ After session base broken l

  from_ended :
      (broken : Bool)
      → Triple
          (Ended broken)
          (release_lock digest config)
          (λ _ l. After session base broken l)
          (λ _ l. Over broken l)
  from_ended broken = record { at = λ l h. (weaker h.0).at l h.1 }
    where
      weaker :
          (id : ℕ)
          → Triple
              (Standing session base broken id)
              (release_lock digest config)
              (λ _ l. After session base broken l)
              (λ _ l. Over broken l)
      weaker id =
          triple-weaken (λ _ h. h) (λ _ l h. after_lem broken id l h) (λ _ _ no. absurd no)
            ((release_step session laws digest config base) broken id)

  from_Idle :
      (broken : Bool)
      → Triple
          (Idle session laws digest config base)
          (release_lock digest config)
          (λ _ l. Released session base l)
          (λ _ l. Over broken l)
  unfolding release_lock
  from_Idle broken = record { at = λ l h. (when_free l.lock_held h.1 _).at l h }
    where
      when_free :
          (held : Bool)
          → held ≡ false
          → (m : Exec (Lock session) Problem Unit)
          → Triple
              (Idle session laws digest config base)
              (if not held then pure tt else m)
              (λ _ l. Released session base l)
              (λ _ l. Over broken l)
      when_free false h m = triple-pure tt (λ _ idle. (idle.1, idle.0))
      when_free true h m = cc

  from_Stopped :
      (broken : Bool)
      → Triple
          (Stopped broken)
          (release_lock digest config)
          (λ _ l. Over broken l)
          (λ _ l. Over broken l)
  from_Stopped broken = record {
    at = λ l h. elim h [
      | inl idle ↦
          (triple-weaken (λ _ p. p) (λ _ _ p. inl (idle.0, p)) (λ _ _ p. p) (from_Idle broken)).at l
            idle.1
      | inr ended ↦
          (triple-weaken (λ _ p. p) (λ _ _ p. inr p) (λ _ _ p. p) (from_ended broken)).at l ended
    ];
  }

  guarded :
      (broken : Bool) (body : Exec (Lock session) Problem Unit)
      → Body session base broken body
      → Triple
          (λ l. l ≡ start)
          (acquire_lock digest config >>= λ _. body)
          (λ _ l. Ended broken l)
          (λ _ l. Stopped broken l)
  guarded broken body runs =
      triple-bind _ _
        (triple-weaken (λ _ h. h) (λ _ _ h. h) (λ _ _ h. inl h)
          (with_outcome (acquire_lock digest config) start free
            (acquire_step session laws digest config base)))
        λ _. record { at = λ l h. (ran h.0).at l (h.1.0.0, h.1.0.1, h.1.0.2, h.1.1) }
    where
      ran :
          (id : ℕ)
          → Triple
              (Standing session base false id)
              body
              (λ _ l. Ended broken l)
              (λ _ l. Stopped broken l)
      ran id = triple-weaken (λ _ h. h) (λ _ _ h. (id, h)) (λ _ _ h. inr (id, h)) (runs id)

  acquire_triple :
      (broken : Bool) (body : Exec (Lock session) Problem Unit)
      → config.enabled ≡ true
      → Body session base broken body
      → Triple
          (λ l. l ≡ start)
          (acquire digest config body)
          (λ _ l. After session base broken l)
          (λ _ l. Over broken l)
  unfolding acquire
  acquire_triple broken body enabled runs =
      triple-if (not config.enabled) _ _ (λ off. absurd (contradiction config.enabled enabled off))
        (λ _.
          triple-try_finally _ _ (guarded broken body runs) (λ _. from_ended broken)
            (λ _. from_Stopped broken))
    where
      contradiction : (b : Bool) → b ≡ true → not b ≡ true → ⊥
      contradiction true h k = cc
      contradiction false h k = cc

-- With locking enabled, on a connected session whose lock is not held by this object: `acquire` runs
-- its body only with one more hold of the lock than before and a transaction in order, and if the
-- body leaves the lock held and the transaction in order, then however it ends, and also if the lock
-- could not be had, the session holds afterwards exactly the locks that it held before.
pub acquire_releases :
    (session : Session) (laws : IsAdvisory session) (digest : Digest) (config : LockConfig)
    (body : Exec (Lock session) Problem Unit) (l : Lock session)
    → config.enabled ≡ true
    → l.lock_held ≡ false
    → Body session (session.held l.conn) false body
    → Ends
        (acquire digest config body l)
        (λ _ l'. Released session (session.held l.conn) l')
        (λ _ l'. Released session (session.held l.conn) l')
acquire_releases session laws digest config body l enabled free runs = record {
  post =
      ends-Post (λ _ l'. Released session (session.held l.conn) l')
        (λ _ l'. Released session (session.held l.conn) l')
        (record {
          post =
              (acquire_triple session laws digest config (session.held l.conn) l ((λ i. refl), free)
                  false body enabled runs).at
                l refl;
        })
        (λ _ _ h. h) (λ _ _ h. elim h [ inl p ↦ p.1 | inr p ↦ p ]);
}

-- If the body leaves a failed transaction instead, PostgreSQL refuses the unlock: once the lock was
-- had, `acquire` ends, with an exception too, with the session still holding it, while the object
-- says that it does not. Only if the lock could not be had does the session hold what it held before.
-- Locking is enabled, and the lock is not held by this object before.
pub acquire_leaves_lock :
    (session : Session) (laws : IsAdvisory session) (digest : Digest) (config : LockConfig)
    (body : Exec (Lock session) Problem Unit) (l : Lock session)
    → config.enabled ≡ true
    → l.lock_held ≡ false
    → Body session (session.held l.conn) true body
    → Ends
        (acquire digest config body l)
        (λ _ l'. LeftBehind session (session.held l.conn) l')
        (λ _ l'.
          (((acquire_lock digest config l).0 ≢ ok tt) × Released session (session.held l.conn) l')
          ⊎ LeftBehind session (session.held l.conn) l')
acquire_leaves_lock session laws digest config body l enabled free runs = record {
  post =
      (acquire_triple session laws digest config (session.held l.conn) l ((λ i. refl), free) true
          body enabled runs).at
        l refl;
}
