-- ===== src/Base/Lists.antt =====
-- Lists measured and indexed by native numbers, and Boolean searches that run in tests.
use Prim.Native.Nat.{ℕ, zero, suc, ◌+◌, ◌≤◌}
use mathlib.Core.Path.{◌≡◌, refl, ap}
use mathlib.Core.Bool.{Bool, true, false, ◌&&◌, ◌||◌}
use mathlib.Core.List.{List, [], ◌∷◌, ◌++◌}
use mathlib.Core.Logic.{inl, inr}
use native.Mathlib.Omega.{arith}
use confiture.Base.Tests.{if◌then◌else◌, and_true, Bool-cases}

module _ {ℓ} {A : Type ℓ} where
  abbrev pub length : List A → ℕ
  length [] = 0
  length (x ∷ xs) = suc (length xs)

  abbrev pub take : ℕ → List A → List A
  take zero xs = []
  take (suc n) [] = []
  take (suc n) (x ∷ xs) = x ∷ take n xs

  abbrev pub drop : ℕ → List A → List A
  drop zero xs = xs
  drop (suc n) [] = []
  drop (suc n) (x ∷ xs) = drop n xs

  abbrev pub null : List A → Bool
  null [] = true
  null (x ∷ xs) = false

  -- `[x for x in xs if p(x)]`
  abbrev pub filterb : (A → Bool) → List A → List A
  filterb p [] = []
  filterb p (x ∷ xs) = let rest = filterb p xs in if p x then x ∷ rest else rest

  -- `all(p(x) for x in xs)` and `any(p(x) for x in xs)`
  abbrev pub allb : (A → Bool) → List A → Bool
  allb p [] = true
  allb p (x ∷ xs) = p x && allb p xs

  abbrev pub anyb : (A → Bool) → List A → Bool
  anyb p [] = false
  anyb p (x ∷ xs) = p x || anyb p xs

  -- Every element satisfies a predicate.
  abbrev pub All {κ} : (A → Type κ) → List A → Type κ
  All P [] = Unit
  All P (x ∷ xs) = P x × All P xs

module _ {ℓ} {A : Type ℓ} where
  pub length-append : (xs ys : List A) → length (xs ++ ys) ≡ length xs + length ys
  length-append [] ys = omega arith
  length-append (x ∷ xs) ys = omega (arith, length-append xs ys)

  pub take-append-drop : (n : ℕ) (xs : List A) → take n xs ++ drop n xs ≡ xs
  take-append-drop zero xs = refl
  take-append-drop (suc n) [] = refl
  take-append-drop (suc n) (x ∷ xs) = ap (λ l. x ∷ l) (take-append-drop n xs)

  pub length-filterb-le : (p : A → Bool) (xs : List A) → length (filterb p xs) ≤ length xs
  length-filterb-le p [] = omega arith
  length-filterb-le p (x ∷ xs) = ground (arith, length-filterb-le p xs)

  -- Nothing was filtered out exactly when no element is rejected.
  pub allb→All : (p : A → Bool) (xs : List A) → allb p xs ≡ true → All (λ x. p x ≡ true) xs
  allb→All p [] h = tt
  allb→All p (x ∷ xs) h =
      ((and_true (p x) (allb p xs) h).0, allb→All p xs (and_true (p x) (allb p xs) h).1)

  pub filterb-nil : (p : A → Bool) (xs : List A) → filterb p xs ≡ [] → All (λ x. p x ≡ false) xs
  filterb-nil p [] h = tt
  filterb-nil p (x ∷ xs) h = (ground arith, filterb-nil p xs (ground arith))

  pub filterb_none : (p : A → Bool) (xs : List A) → All (λ x. p x ≡ false) xs → filterb p xs ≡ []
  filterb_none p [] h = refl
  filterb_none p (x ∷ xs) h = ground (arith, filterb_none p xs h.1)

  pub filterb-All : (p : A → Bool) (xs : List A) → All (λ x. p x ≡ true) (filterb p xs)
  filterb-All p [] = tt
  filterb-All p (x ∷ xs) = elim (Bool-cases (p x)) [
    | inl e ↦ rw e (e, filterb-All p xs)
    | inr e ↦ rw e (filterb-All p xs)
  ]

  pub filterb-append :
      (p : A → Bool) (xs ys : List A) → filterb p (xs ++ ys) ≡ filterb p xs ++ filterb p ys
  filterb-append p [] ys = refl
  filterb-append p (x ∷ xs) ys = ground (arith, filterb-append p xs ys)

  pub All-append {κ} : (P : A → Type κ) (xs ys : List A) → All P xs → All P ys → All P (xs ++ ys)
  All-append P [] ys h k = k
  All-append P (x ∷ xs) ys h k = (h.0, All-append P xs ys h.1 k)
