-- ===== src/Session/Last.antt =====
-- Proofs about the last versions of a table, on its stack.
use mathlib.Core.List.{reverse-append}
use confiture.Base.{
  ℕ, zero, suc, ◌-◌, ◌≤◌, ◌≡◌, refl, sym, ◌∙◌, ap, ap₂, Bool, true, false, not, List, [], ◌∷◌, ◌++◌,
  reverse, if◌then◌else◌, inl, inr, Bool-cases, arith, All, filterb, filterb-append, contains,
  contains-append, contains-filterb, IsDistinct, nat_eq, list_eq, ◌==◌, length, length-append, take,
  drop, take-append-drop, ltb,
}
use confiture.Base.Text.{Text, text_eq_iff}
use confiture.Session.Down.{last_steps}
use confiture.Session.Sequence.{without}
use confiture.Session.Stack.{All-self, filterb_every}

length-drop : (n : ℕ) (vs : List Text) → length (drop n vs) ≡ length vs - n
length-drop zero vs = omega arith
length-drop (suc n) [] = omega arith
length-drop (suc n) (v ∷ vs) = omega (arith, length-drop n vs)

pub length-reverse : (vs : List Text) → length (reverse vs) ≡ length vs
length-reverse [] = refl
length-reverse (v ∷ vs) =
    ap length (reverse-append (v ∷ []) vs)
    ∙ omega (arith, length-append (reverse vs) (v ∷ []), length-reverse vs)

take_front : (a b : List Text) → take (length a) (a ++ b) ≡ a
take_front [] b = refl
take_front (v ∷ a) b = ap (λ l. v ∷ l) (take_front a b)

take_all : (k : ℕ) (vs : List Text) → length vs ≤ k → take k vs ≡ vs
take_all zero [] h = refl
take_all (suc k) [] h = refl
take_all zero (v ∷ vs) h = absurd (omega arith)
take_all (suc k) (v ∷ vs) h = ap (λ l. v ∷ l) (take_all k vs (omega arith))

-- As many versions as `steps` asks for; none is asked for as all.
abbrev pub span : ℕ → List Text → ℕ
span steps vs = if steps == 0 then length vs else steps

not_ltb : (m n : ℕ) → ltb m n ≡ false → n ≤ m
not_ltb m n h = ground arith

reverse-drop : (k : ℕ) (vs : List Text) → reverse (drop (length vs - k) vs) ≡ take k (reverse vs)
reverse-drop k vs = elim (Bool-cases (ltb k (length vs))) [
  | inl short ↦
      let m = length vs - k in
      let cut : reverse vs ≡ reverse (drop m vs) ++ reverse (take m vs) =
        ap reverse (sym (take-append-drop m vs)) ∙ reverse-append (take m vs) (drop m vs) in
      let many : length (reverse (drop m vs)) ≡ k =
        length-reverse (drop m vs) ∙ length-drop m vs ∙ ground arith in
      sym (
        ap (take k) cut
        ∙ ap (λ n. take n (reverse (drop m vs) ++ reverse (take m vs))) (sym many)
        ∙ take_front (reverse (drop m vs)) (reverse (take m vs)))
  | inr long ↦
      let z : length vs - k ≡ 0 = ground arith in
      ap (λ n. reverse (drop n vs)) z
      ∙ sym (take_all k (reverse vs) (omega (arith, length-reverse vs, not_ltb k (length vs) long)))
]

pub last_steps-take :
    (steps : ℕ) (vs : List Text) → reverse (last_steps steps vs) ≡ take (span steps vs) (reverse vs)
unfolding last_steps
last_steps-take steps vs = elim (Bool-cases (steps == 0)) [
  | inl none ↦ rw none (sym (take_all (length vs) (reverse vs) (omega (arith, length-reverse vs))))
  | inr some ↦ rw some (reverse-drop steps vs)
]

filterb_cong :
    (p q : Text → Bool) (vs : List Text) → All (λ v. p v ≡ q v) vs → filterb p vs ≡ filterb q vs
filterb_cong p q [] h = refl
filterb_cong p q (v ∷ vs) h = rw h.0 (ap (λ l. if q v then v ∷ l else l) (filterb_cong p q vs h.1))

distinct_rest : (a b : List Text) → IsDistinct (a ++ b) → All (λ v. contains a v ≡ false) b
distinct_rest a [] h = tt
distinct_rest a (v ∷ b) h = (apart a h, distinct_rest a b (shorter a h))
  where
    apart : (a : List Text) → IsDistinct (a ++ (v ∷ b)) → contains a v ≡ false
    apart [] h = refl
    apart (w ∷ a) h = ground (
      arith,
      contains-append a (v ∷ b) w,
      text_eq_iff v w,
      text_eq_iff w v,
      text_eq_iff v v,
      apart a h.1,
    )

    shorter : (a : List Text) → IsDistinct (a ++ (v ∷ b)) → IsDistinct (a ++ b)
    shorter [] h = h.1
    shorter (w ∷ a) h =
        (ground (arith, contains-append a (v ∷ b) w, contains-append a b w), shorter a h.1)

within :
    (p : Text → Bool) (a b : List Text)
    → All (λ v. contains a v ≡ true) b
    → All (λ v. not (contains (filterb p a) v) ≡ not (p v)) b
within p a [] h = tt
within p a (v ∷ b) h = (ap not (contains-filterb p a v ∙ rw h.0 refl), within p a b h.1)

beyond :
    (p : Text → Bool) (a b : List Text)
    → All (λ v. contains a v ≡ false) b
    → All (λ v. not (contains (filterb p a) v) ≡ true) b
beyond p a [] h = tt
beyond p a (v ∷ b) h =
    let e : contains (filterb p a) v ≡ false = contains-filterb p a v ∙ rw h.0 refl in
    (ap not e, beyond p a b h.1)

-- Without those of the top that pass a test: those that do not, and the rest.
pub without_passing :
    (p : Text → Bool) (top rest : List Text)
    → IsDistinct (top ++ rest)
    → without (filterb p top) (top ++ rest) ≡ filterb (λ v. not (p v)) top ++ rest
without_passing p top rest h =
    filterb-append (λ v. not (contains (filterb p top) v)) top rest
    ∙ ap₂ (λ a b. a ++ b)
        (filterb_cong (λ v. not (contains (filterb p top) v)) (λ v. not (p v)) top
          (within p top top (All-self top)))
        (filterb_every (λ v. not (contains (filterb p top) v)) rest
          (beyond p top rest (distinct_rest top rest h)))
