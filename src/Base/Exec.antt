-- ===== src/Base/Exec.antt =====
-- Methods that change an object and may raise. What was written before a raise stays written, so
-- the state comes back beside the error too.

pub data Outcome {ℓ} (E A : Type ℓ) : Type ℓ where
  ok : A → Outcome E A
  err : E → Outcome E A

abbrev pub Exec {ℓ} : Type ℓ → Type ℓ → Type ℓ → Type ℓ
Exec S E A = S → Outcome E A × S

module _ {ℓ} {S E : Type ℓ} where
  abbrev pub pure : {A : Type ℓ} → A → Exec S E A
  pure a s = (ok a, s)

  abbrev pub raise : {A : Type ℓ} → E → Exec S E A
  raise e s = (err e, s)

  abbrev pub gets : {A : Type ℓ} → (S → A) → Exec S E A
  gets f s = (ok (f s), s)

  abbrev pub modify : (S → S) → Exec S E Unit
  modify f s = (ok tt, f s)

  -- What a block does after a call: go on, or pass the exception on.
  abbrev pub continue : {A B : Type ℓ} → Outcome E A → (A → Exec S E B) → Exec S E B
  continue (ok a) f s = f a s
  continue (err e) f s = (err e, s)

  infixl 10 ◌>>=◌ ◌>>◌
  abbrev pub ◌>>=◌ : {A B : Type ℓ} → Exec S E A → (A → Exec S E B) → Exec S E B
  ◌>>=◌ m f s = let r = m s in continue r.0 f r.1

  abbrev pub ◌>>◌ : {A B : Type ℓ} → Exec S E A → Exec S E B → Exec S E B
  m >> n = m >>= λ _. n

  abbrev pub recover : {A : Type ℓ} → Outcome E A → (E → Exec S E A) → Exec S E A
  recover (ok a) handler s = (ok a, s)
  recover (err e) handler s = handler e s

  -- `try: m except e: handler(e)`
  abbrev pub try_except : {A : Type ℓ} → Exec S E A → (E → Exec S E A) → Exec S E A
  try_except m handler s = let r = m s in recover r.0 handler r.1

  abbrev pub conclude : {A : Type ℓ} → Outcome E A → Outcome E Unit × S → Outcome E A × S
  conclude r (ok _, s) = (r, s)
  conclude r (err e, s) = (err e, s)

  -- `try: m finally: last`; an exception of `last` takes the place of the outcome of `m`.
  abbrev pub try_finally : {A : Type ℓ} → Exec S E A → Exec S E Unit → Exec S E A
  try_finally m last s = let r = m s in conclude r.0 (last r.1)

-- `raise f(e) from e`, around a call.
abbrev pub relabel {ℓ} : {E E' A : Type ℓ} → (E → E') → Outcome E A → Outcome E' A
relabel f (ok a) = ok a
relabel f (err e) = err (f e)
