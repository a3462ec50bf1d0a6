-- ===== src/Base/Sets.antt =====
-- Python sets as lists without repetition.
use confiture.Base.{
  ℕ, suc, ◌-◌, ◌≤◌, ◌≡◌, refl, sym, ◌∙◌, ap, Bool, true, false, not, ◌||◌, List, [], ◌∷◌, ◌++◌,
  if◌then◌else◌, filterb, length, contains, IsDistinct, HasEq, ◌==◌, contains-append,
  contains-filterb, arith, Bool-cases, inl, inr,
}
use confiture.Base.Sort.{insert_sorted, sort}

module _ {ℓ} {A : Type ℓ} ⦃e : HasEq A⦄ where
  -- How many of the elements are not among those seen.
  abbrev pub unseen : List A → List A → ℕ
  unseen seen xs = length (filterb (λ x. not (contains seen x)) xs)

  -- `s.add(x)`
  abbrev pub add : A → List A → List A
  add x xs = if contains xs x then xs else xs ++ (x ∷ [])

  pub contains-snoc :
      (xs : List A) (x y : A) → contains (xs ++ (x ∷ [])) y ≡ (contains xs y || y == x)
  contains-snoc xs x y = contains-append xs (x ∷ []) y ∙ last (contains xs y) (y == x)
    where
      last : (b c : Bool) → (b || (c || false)) ≡ (b || c)
      last b c = ground arith

  pub IsDistinct-snoc :
      (xs : List A) (x : A) → IsDistinct xs → contains xs x ≡ false → IsDistinct (xs ++ (x ∷ []))
  IsDistinct-snoc [] x h k = (refl, tt)
  IsDistinct-snoc (y ∷ ys) x h k = (
    ground (arith, contains-snoc ys x y, e.same_iff x y, e.same_iff y x),
    IsDistinct-snoc ys x h.1 (ground arith),
  )

  pub contains-add : (x y : A) (xs : List A) → contains (add x xs) y ≡ (contains xs y || y == x)
  contains-add x y xs = ground (arith, contains-snoc xs x y, e.same_iff y x)

  pub add-IsDistinct : (x : A) (xs : List A) → IsDistinct xs → IsDistinct (add x xs)
  add-IsDistinct x xs h = elim (Bool-cases (contains xs x)) [
    | inl c ↦ rw c h
    | inr c ↦ rw c (IsDistinct-snoc xs x h c)
  ]

  pub unseen-positive :
      (seen : List A) (x : A) (xs : List A)
      → contains seen x ≡ false
      → contains xs x ≡ true
      → 1 ≤ unseen seen xs
  unseen-positive seen x [] k h = cc
  unseen-positive seen x (y ∷ ys) k h = ground (arith, e.same_iff x y, unseen-positive seen x ys)

  -- One step of the count.
  unseen-cons :
      (seen : List A) (y : A) (ys : List A)
      → unseen seen (y ∷ ys) ≡ (if contains seen y then unseen seen ys else suc (unseen seen ys))
  unseen-cons seen y ys = ground arith

  pub unseen-snoc :
      (seen : List A) (x : A) (xs : List A)
      → IsDistinct xs
      → contains seen x ≡ false
      → unseen (seen ++ (x ∷ [])) xs
        ≡ (if contains xs x then unseen seen xs - 1 else unseen seen xs)
  unseen-snoc seen x [] h k = refl
  unseen-snoc seen x (y ∷ ys) h k = elim (Bool-cases (x == y)) [
    | inl s ↦
        let same : x ≡ y = (e.same_iff x y).0 s in
        let new : contains seen y ≡ false = rw (← same) k in
        let gone : contains ys x ≡ false = rw same (h.0) in
        counted_at x y ys gone new
          (contains-snoc seen x y ∙ rw (new, (e.same_iff y x).1 (sym same)) refl) s
          (unseen-snoc seen x ys h.1 k)
    | inr d ↦
        counted_past y ys d (contains-snoc seen x y ∙ other (contains seen y) (beq_flip d))
          (unseen-snoc seen x ys h.1 k)
  ]
    where
      beq_flip : {x y : A} → (x == y) ≡ false → (y == x) ≡ false
      beq_flip {x} {y} d = ground (arith, e.same_iff x y, e.same_iff y x)

      other : (b : Bool) {c : Bool} → c ≡ false → (b || c) ≡ b
      other b h = ground arith

      counted_at :
          (x y : A) (ys : List A)
          → contains ys x ≡ false
          → contains seen y ≡ false
          → contains (seen ++ (x ∷ [])) y ≡ true
          → (x == y) ≡ true
          → unseen (seen ++ (x ∷ [])) ys
            ≡ (if contains ys x then unseen seen ys - 1 else unseen seen ys)
          → unseen (seen ++ (x ∷ [])) (y ∷ ys)
            ≡ (if contains (y ∷ ys) x then unseen seen (y ∷ ys) - 1 else unseen seen (y ∷ ys))
      counted_at x y ys gone new now s ih = rw (s, new, now) (omega (arith, rw gone at ih))

      counted_past :
          (y : A) (ys : List A)
          → (x == y) ≡ false
          → contains (seen ++ (x ∷ [])) y ≡ contains seen y
          → unseen (seen ++ (x ∷ [])) ys
            ≡ (if contains ys x then unseen seen ys - 1 else unseen seen ys)
          → unseen (seen ++ (x ∷ [])) (y ∷ ys)
            ≡ (if contains (y ∷ ys) x then unseen seen (y ∷ ys) - 1 else unseen seen (y ∷ ys))
      counted_past y ys d now ih = rw (d, now) (ground (arith, ih, unseen-positive seen x ys k))

  pub filterb-IsDistinct : (p : A → Bool) (xs : List A) → IsDistinct xs → IsDistinct (filterb p xs)
  filterb-IsDistinct p [] h = tt
  filterb-IsDistinct p (x ∷ xs) h = elim (Bool-cases (p x)) [
    | inl c ↦ rw c (contains-filterb p xs x ∙ rw h.0 refl, filterb-IsDistinct p xs h.1)
    | inr c ↦ rw c (filterb-IsDistinct p xs h.1)
  ]

  module _ (gt : A → A → Bool) where
    contains-insert_sorted :
        (x y : A) (xs : List A) → contains (insert_sorted gt x xs) y ≡ (y == x || contains xs y)
    contains-insert_sorted x y [] = refl
    contains-insert_sorted x y (z ∷ zs) = ground (arith, contains-insert_sorted x y zs)

    pub contains-sort : (xs : List A) (y : A) → contains (sort gt xs) y ≡ contains xs y
    contains-sort [] y = refl
    contains-sort (x ∷ xs) y =
        contains-insert_sorted x y (sort gt xs) ∙ ap (λ b. y == x || b) (contains-sort xs y)

    insert_sorted-IsDistinct :
        (x : A) (xs : List A)
        → IsDistinct xs
        → contains xs x ≡ false
        → IsDistinct (insert_sorted gt x xs)
    insert_sorted-IsDistinct x [] h k = (refl, tt)
    insert_sorted-IsDistinct x (z ∷ zs) h k = elim (Bool-cases (gt x z)) [
      | inr g ↦ rw g (k, h)
      | inl g ↦ rw g (
        contains-insert_sorted x z zs ∙ ground (arith, e.same_iff x z, e.same_iff z x, h.0),
        insert_sorted-IsDistinct x zs h.1 (ground arith),
      )
    ]

    pub sort-IsDistinct : (xs : List A) → IsDistinct xs → IsDistinct (sort gt xs)
    sort-IsDistinct [] h = tt
    sort-IsDistinct (x ∷ xs) h =
        insert_sorted-IsDistinct x (sort gt xs) (sort-IsDistinct xs h.1) (contains-sort xs x ∙ h.0)
