-- ===== src/Base/Equality.antt =====
-- Boolean equality as an interface, membership and position by it.
use Prim.Native.Nat.{ℕ, suc, ◌<◌}
use mathlib.Core.Path.{◌≡◌, refl, ap}
use mathlib.Core.Logic.{◌↔◌, inl, inr}
use mathlib.Core.Bool.{Bool, true, false, ◌&&◌, ◌||◌}
use mathlib.Core.List.{List, [], ◌∷◌, ◌++◌}
use native.Mathlib.Omega.{arith}
use confiture.Base.Tests.{nat_beq, nat_beq_iff, if◌then◌else◌, Bool-cases}
use confiture.Base.Lists.{length, take, drop, filterb}

-- A test that is true of equal things alone.
pub record HasEq {ℓ} (T : Type ℓ) : Type ℓ where
  pub same : T → T → Bool
  pub same_iff : (x y : T) → (same x y ≡ true) ↔ (x ≡ y)

-- The test of numbers.
instance abbrev pub nat_eq : HasEq ℕ
nat_eq = record { same = λ m n. nat_beq m n; same_iff = λ m n. nat_beq_iff m n }

-- Python's `==`, where its meaning is that test.
infix 50 ◌==◌
abbrev pub ◌==◌ {ℓ} : {T : Type ℓ} ⦃eq : HasEq T⦄ → T → T → Bool
◌==◌ ⦃eq⦄ x y = eq.same x y

module _ {ℓ} {A : Type ℓ} ⦃e : HasEq A⦄ where
  abbrev pub list_beq : List A → List A → Bool
  list_beq [] [] = true
  list_beq [] (y ∷ ys) = false
  list_beq (x ∷ xs) [] = false
  list_beq (x ∷ xs) (y ∷ ys) = x == y && list_beq xs ys

  list_beq_sound : (xs ys : List A) → list_beq xs ys ≡ true → xs ≡ ys
  list_beq_sound [] [] h = refl
  list_beq_sound [] (y ∷ ys) h = cc
  list_beq_sound (x ∷ xs) [] h = cc
  list_beq_sound (x ∷ xs) (y ∷ ys) h = ground (arith, e.same_iff x y, list_beq_sound xs ys)

  list_beq_refl : (xs : List A) → list_beq xs xs ≡ true
  list_beq_refl [] = refl
  list_beq_refl (x ∷ xs) = ground (arith, e.same_iff x x, list_beq_refl xs)

  pub list_beq_iff : (xs ys : List A) → (list_beq xs ys ≡ true) ↔ (xs ≡ ys)
  list_beq_iff xs ys = (list_beq_sound xs ys, λ p. rw (← p) (list_beq_refl xs))

instance abbrev pub list_eq {ℓ} : {A : Type ℓ} ⦃e : HasEq A⦄ → HasEq (List A)
list_eq = record { same = list_beq; same_iff = list_beq_iff }

module _ {ℓ} {A : Type ℓ} ⦃e : HasEq A⦄ where
  -- `a in xs`
  abbrev pub contains : List A → A → Bool
  contains [] item = false
  contains (first ∷ others) item = item == first || contains others item

  -- `xs.index(a)`, for an `a` that `xs` contains: the first position.
  abbrev pub index : List A → A → ℕ
  index [] a = 0
  index (x ∷ xs) a = let rest = suc (index xs a) in if a == x then 0 else rest

  -- `[x for x in xs if x != a]`
  abbrev pub remove : A → List A → List A
  remove a [] = []
  remove a (x ∷ xs) = let rest = remove a xs in if a == x then rest else x ∷ rest

  pub beq_refl : (a : A) → (a == a) ≡ true
  beq_refl a = (e.same_iff a a).1 refl

  pub beq_comm : (a b : A) → (a == b) ≡ (b == a)
  beq_comm a b = ground (arith, e.same_iff a b, e.same_iff b a)

  pub index-lt-length : (xs : List A) (a : A) → contains xs a ≡ true → index xs a < length xs
  index-lt-length [] a h = cc
  index-lt-length (x ∷ xs) a h = ground (arith, index-lt-length xs a)

  -- The list falls apart at the first occurrence.
  pub split_at_index :
      (xs : List A) (a : A)
      → contains xs a ≡ true
      → xs ≡ take (index xs a) xs ++ (a ∷ drop (suc (index xs a)) xs)
  split_at_index [] a h = cc
  split_at_index (x ∷ xs) a h = ground (arith, e.same_iff a x, split_at_index xs a)

  pub not-contains-take_index : (xs : List A) (a : A) → contains (take (index xs a) xs) a ≡ false
  not-contains-take_index [] a = refl
  not-contains-take_index (x ∷ xs) a = ground (arith, not-contains-take_index xs a)

  pub contains-append :
      (xs ys : List A) (a : A) → contains (xs ++ ys) a ≡ (contains xs a || contains ys a)
  contains-append [] ys a = refl
  contains-append (x ∷ xs) ys a = ground (arith, contains-append xs ys a)

  pub remove_absent : (a : A) (xs : List A) → contains xs a ≡ false → remove a xs ≡ xs
  remove_absent a [] h = refl
  remove_absent a (x ∷ xs) h = ground (arith, remove_absent a xs)

  pub remove-append : (a : A) (xs ys : List A) → remove a (xs ++ ys) ≡ remove a xs ++ remove a ys
  remove-append a [] ys = refl
  remove-append a (x ∷ xs) ys = ground (arith, remove-append a xs ys)

  pub contains-remove :
      (a b : A) (xs : List A) → contains (remove a xs) b ≡ (if a == b then false else contains xs b)
  contains-remove a b [] = ground arith
  contains-remove a b (x ∷ xs) =
      ground (arith, contains-remove a b xs, e.same_iff a b, e.same_iff a x, e.same_iff b x)

  pub contains-filterb :
      (p : A → Bool) (xs : List A) (a : A) → contains (filterb p xs) a ≡ (contains xs a && p a)
  contains-filterb p [] a = refl
  contains-filterb p (x ∷ xs) a = elim (Bool-cases (a == x)) [
    | inl same ↦
        let e : p a ≡ p x = ap p ((e.same_iff a x).0 same) in
        ground (arith, e, contains-filterb p xs a)
    | inr other ↦ ground (arith, contains-filterb p xs a)
  ]

  -- No element occurs twice.
  abbrev pub IsDistinct : List A → Type 0
  IsDistinct [] = Unit
  IsDistinct (x ∷ xs) = (contains xs x ≡ false) × IsDistinct xs
