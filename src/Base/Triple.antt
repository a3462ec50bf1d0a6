-- ===== src/Base/Triple.antt =====
-- What holds after a method that may raise, one rule for each way to build a method.
use mathlib.Core.Path.{◌≡◌, refl}
use mathlib.Core.Bool.{Bool, true, false}
use confiture.Base.Tests.{if◌then◌else◌}
use confiture.Base.Exec.{
  Outcome, ok, err, Exec, pure, raise, continue, ◌>>=◌, recover, try_except, try_finally, conclude,
}

-- `Q` of a returned value and `R` of an exception, each with the state that it leaves.
abbrev pub Post {ℓ κ} :
    {S E A : Type ℓ} → (A → S → Type κ) → (E → S → Type κ) → Outcome E A → S → Type κ
Post Q R (ok a) s = Q a s
Post Q R (err e) s = R e s

-- The same, of the pair that a call gives.
pub record Ends {ℓ κ} {S E A : Type ℓ} (r : Outcome E A × S) (Q : A → S → Type κ)
    (R : E → S → Type κ) : Type (ℓ ⊔ κ) where
  pub post : Post Q R r.0 r.1

-- Started where `P` holds, `m` returns with `Q` or raises with `R`.
pub record Triple {ℓ κ} {S E A : Type ℓ} (P : S → Type κ) (m : Exec S E A) (Q : A → S → Type κ)
    (R : E → S → Type κ) : Type (ℓ ⊔ κ) where
  pub at : (s : S) → P s → Post Q R (m s).0 (m s).1

module _ {ℓ κ} {S E A B : Type ℓ} {Q : A → S → Type κ} {Q' : B → S → Type κ}
    {R : E → S → Type κ} where
  continue-Post :
      (r : Outcome E A) (s : S) (f : A → Exec S E B)
      → Post Q R r s
      → ((a : A) → Triple (Q a) (f a) Q' R)
      → Post Q' R (continue r f s).0 (continue r f s).1
  continue-Post (ok a) s f p k = (k a).at s p
  continue-Post (err e) s f p k = p

module _ {ℓ κ} {S E A B : Type ℓ} {P : S → Type κ} {Q : A → S → Type κ} {Q' : B → S → Type κ}
    {R : E → S → Type κ} where
  pub triple-bind :
      (m : Exec S E A) (f : A → Exec S E B)
      → Triple P m Q R
      → ((a : A) → Triple (Q a) (f a) Q' R)
      → Triple P (m >>= f) Q' R
  triple-bind m f km kf = record { at = λ s p. continue-Post (m s).0 (m s).1 f (km.at s p) kf }

module _ {ℓ κ} {S E A : Type ℓ} {Q : A → S → Type κ} {R R' : E → S → Type κ} where
  recover-Post :
      (r : Outcome E A) (s : S) (h : E → Exec S E A)
      → Post Q R' r s
      → ((e : E) → Triple (R' e) (h e) Q R)
      → Post Q R (recover r h s).0 (recover r h s).1
  recover-Post (ok a) s h p k = p
  recover-Post (err e) s h p k = (k e).at s p

module _ {ℓ κ} {S E A : Type ℓ} {P : S → Type κ} {Q : A → S → Type κ} {R R' : E → S → Type κ} where
  pub triple-try_except :
      (m : Exec S E A) (h : E → Exec S E A)
      → Triple P m Q R'
      → ((e : E) → Triple (R' e) (h e) Q R)
      → Triple P (try_except m h) Q R
  triple-try_except m h km kh = record { at = λ s p. recover-Post (m s).0 (m s).1 h (km.at s p) kh }

module _ {ℓ κ} {S E A : Type ℓ} {Q : A → S → Type κ} {R : E → S → Type κ} where
  pub Post-weaken :
      {Q' : A → S → Type κ} {R' : E → S → Type κ} (r : Outcome E A) (s : S)
      → ((a : A) (s : S) → Q a s → Q' a s)
      → ((e : E) (s : S) → R e s → R' e s)
      → Post Q R r s
      → Post Q' R' r s
  Post-weaken (ok a) s q r p = q a s p
  Post-weaken (err e) s q r p = r e s p

module _ {ℓ κ} {S E A : Type ℓ} {P : S → Type κ} {Q : A → S → Type κ} {R : E → S → Type κ} where
  pub triple-if :
      (b : Bool) (m n : Exec S E A)
      → (b ≡ true → Triple P m Q R)
      → (b ≡ false → Triple P n Q R)
      → Triple P (if b then m else n) Q R
  triple-if true m n km kn = km refl
  triple-if false m n km kn = kn refl

  pub triple-pure : (a : A) → ((s : S) → P s → Q a s) → Triple P (pure a) Q R
  triple-pure a h = record { at = h }

  pub triple-raise : (e : E) → ((s : S) → P s → R e s) → Triple P (raise e) Q R
  triple-raise e h = record { at = h }

  -- A stronger start, a weaker end.
  pub triple-weaken :
      {P' : S → Type κ} {Q' : A → S → Type κ} {R' : E → S → Type κ} {m : Exec S E A}
      → ((s : S) → P' s → P s)
      → ((a : A) (s : S) → Q a s → Q' a s)
      → ((e : E) (s : S) → R e s → R' e s)
      → Triple P m Q R
      → Triple P' m Q' R'
  triple-weaken {m} p q r t = record {
    at = λ s h. Post-weaken (m s).0 (m s).1 q r (t.at s (p s h));
  }

module _ {ℓ κ} {S E A : Type ℓ} {Q : A → S → Type κ} {R : E → S → Type κ} where
  pub ends-Post :
      (Q' : A → S → Type κ) (R' : E → S → Type κ) {r : Outcome E A × S}
      → Ends r Q R
      → ((a : A) (s : S) → Q a s → Q' a s)
      → ((e : E) (s : S) → R e s → R' e s)
      → Post Q' R' r.0 r.1
  ends-Post Q' R' {r} h q k = Post-weaken {Q' = Q'} {R' = R'} r.0 r.1 q k h.post

  -- A fact about the start that names no state.
  pub triple_assume :
      (P : S → Type κ) (F : Type κ) {m : Exec S E A}
      → (F → Triple P m Q R)
      → Triple (λ s. P s × F) m Q R
  triple_assume P F t = record { at = λ s h. (t h.1).at s h.0 }

module _ {ℓ} {S E A : Type ℓ} where
  -- Any method, of which nothing is asked.
  pub triple_any :
      (m : Exec S E A)
      → Triple (λ (_ : S). Unit {0}) m (λ (_ : A) (_ : S). Unit {0}) (λ (_ : E) (_ : S). Unit {0})
  triple_any m = record { at = λ s _. go (m s).0 (m s).1 }
    where
      go :
          (r : Outcome E A) (s : S)
          → Post (λ (_ : A) (_ : S). Unit {0}) (λ (_ : E) (_ : S). Unit {0}) r s
      go (ok a) s = tt
      go (err e) s = tt

module _ {ℓ κ} {S E A : Type ℓ} {P : S → Type κ} {M Q : A → S → Type κ} {N R : E → S → Type κ} where
  -- `try: m finally: last`
  pub triple-try_finally :
      (m : Exec S E A) (last : Exec S E (Unit {ℓ}))
      → Triple P m M N
      → ((a : A) → Triple (M a) last (λ _ s. Q a s) R)
      → ((e : E) → Triple (N e) last (λ _ s. R e s) R)
      → Triple P (try_finally m last) Q R
  triple-try_finally m last km kq kr = record { at = λ s p. go (m s).0 (m s).1 (km.at s p) }
    where
      finished_ok :
          (a : A) (r : Outcome E (Unit {ℓ})) (s : S)
          → Post (λ _ s. Q a s) R r s
          → Post Q R (conclude {A = A} (ok a) (r, s)).0 (conclude {A = A} (ok a) (r, s)).1
      finished_ok a (ok u) s h = h
      finished_ok a (err e) s h = h

      finished_err :
          (e : E) (r : Outcome E (Unit {ℓ})) (s : S)
          → Post (λ _ s. R e s) R r s
          → Post Q R (conclude {A = A} (err e) (r, s)).0 (conclude {A = A} (err e) (r, s)).1
      finished_err e (ok u) s h = h
      finished_err e (err e') s h = h

      go :
          (r : Outcome E A) (s : S)
          → Post M N r s
          → Post Q R (conclude {A = A} r (last s)).0 (conclude {A = A} r (last s)).1
      go (ok a) s h = finished_ok a (last s).0 (last s).1 ((kq a).at s h)
      go (err e) s h = finished_err e (last s).0 (last s).1 ((kr e).at s h)

module _ {ℓ κ} {S E A : Type ℓ} (Q Q' : A → S → Type κ) (R R' : E → S → Type κ) where
  both-Post :
      (r : Outcome E A) (s : S)
      → Post Q R r s
      → Post Q' R' r s
      → Post (λ a s. Q a s × Q' a s) (λ e s. R e s × R' e s) r s
  both-Post (ok a) s h k = (h, k)
  both-Post (err e) s h k = (h, k)

module _ {ℓ κ} {S E A : Type ℓ} {Q Q' : A → S → Type κ} {R R' : E → S → Type κ} where
  -- Two things that hold after one call.
  pub ends-both :
      {r : Outcome E A × S}
      → Ends r Q R
      → Ends r Q' R'
      → Ends r (λ a s. Q a s × Q' a s) (λ e s. R e s × R' e s)
  ends-both {r} h k = record { post = both-Post Q Q' R R' r.0 r.1 h.post k.post }

  pub triple-both :
      {P P' : S → Type κ} {m : Exec S E A}
      → Triple P m Q R
      → Triple P' m Q' R'
      → Triple (λ s. P s × P' s) m (λ a s. Q a s × Q' a s) (λ e s. R e s × R' e s)
  triple-both {m} t t' = record {
    at = λ s p. both-Post Q Q' R R' (m s).0 (m s).1 (t.at s p.0) (t'.at s p.1);
  }
