-- ===== src/Base/Sort.antt =====
-- `sorted(xs, key=...)`: a stable sort, and what every caller relies on.
use mathlib.Core.Path.{◌≡◌}
use mathlib.Core.Bool.{Bool, true, false}
use mathlib.Core.List.{List, [], ◌∷◌, Perm}
use mathlib.Core.List.Perm
use native.Mathlib.Omega.{arith}
use mathlib.Core.Logic.{inl, inr}
use confiture.Base.Lists.{All}
use confiture.Base.Tests.{if◌then◌else◌, Bool-cases}

module _ {ℓ} {A : Type ℓ} (gt : A → A → Bool) where
  -- Puts `x` before the first element that is not smaller, so equal keys keep their order.
  abbrev pub insert_sorted : A → List A → List A
  insert_sorted x [] = x ∷ []
  insert_sorted x (y ∷ ys) =
      let rest = y ∷ insert_sorted x ys in if gt x y then rest else x ∷ (y ∷ ys)

  abbrev pub sort : List A → List A
  sort [] = []
  sort (x ∷ xs) = insert_sorted x (sort xs)

  abbrev pub IsSorted : List A → Type 0
  IsSorted [] = Unit
  IsSorted (x ∷ []) = Unit
  IsSorted (x ∷ (y ∷ ys)) = (gt x y ≡ false) × IsSorted (y ∷ ys)

  insert_sorted-All {κ} :
      (P : A → Type κ) (x : A) (xs : List A) → P x → All P xs → All P (insert_sorted x xs)
  insert_sorted-All P x [] px h = (px, tt)
  insert_sorted-All P x (y ∷ ys) px h = elim (Bool-cases (gt x y)) [
    | inl e ↦ rw e (h.0, insert_sorted-All P x ys px h.1)
    | inr e ↦ rw e (px, h)
  ]

  pub sort-All {κ} : (P : A → Type κ) (xs : List A) → All P xs → All P (sort xs)
  sort-All P [] h = tt
  sort-All P (x ∷ xs) h = insert_sorted-All P x (sort xs) h.0 (sort-All P xs h.1)

  insert_sorted-perm : (x : A) (xs : List A) → Perm (insert_sorted x xs) (x ∷ xs)
  insert_sorted-perm x [] = Perm.refl (x ∷ [])
  insert_sorted-perm x (y ∷ ys) = elim (Bool-cases (gt x y)) [
    | inl h ↦ rw h (Perm.trans (Perm.cons y (insert_sorted-perm x ys)) (Perm.swap x y ys))
    | inr h ↦ rw h (Perm.refl (x ∷ (y ∷ ys)))
  ]

  pub sort-perm : (xs : List A) → Perm (sort xs) xs
  sort-perm [] = Perm.refl []
  sort-perm (x ∷ xs) = Perm.trans (insert_sorted-perm x (sort xs)) (Perm.cons x (sort-perm xs))

  module _ (asym : (x y : A) → gt x y ≡ true → gt y x ≡ false) where
    insert_sorted-IsSorted : (x : A) (xs : List A) → IsSorted xs → IsSorted (insert_sorted x xs)
    insert_sorted-IsSorted x [] h = tt
    insert_sorted-IsSorted x (y ∷ []) h = ground (arith, asym x y)
    insert_sorted-IsSorted x (y ∷ (z ∷ zs)) h =
        let ih = insert_sorted-IsSorted x (z ∷ zs) h.1 in ground (arith, asym x y, ih)

    pub sort-IsSorted : (xs : List A) → IsSorted (sort xs)
    sort-IsSorted [] = tt
    sort-IsSorted (x ∷ xs) = insert_sorted-IsSorted x (sort xs) (sort-IsSorted xs)
