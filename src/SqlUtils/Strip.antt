-- ===== src/SqlUtils/Strip.antt =====
-- Proofs about `strip_transaction_wrappers`.
use confiture.Base.{
  ◌&&◌, ◌⊎◌, ◌≢◌, ◌≤◌, ltb, length, if◌then◌else◌, ℕ, ◌≡◌, refl, subst, sym, ◌∙◌, ap, Bool, true,
  false, List, [], ◌∷◌, ◌++◌, anyb, All, Bool-cases, inl, inr, reverse, arith, All-append,
}
use mathlib.Core.List.{reverse-append, reverse-reverse, reverse-cons}
use confiture.Base.Text.{Text, codes, ends_with}
use confiture.SqlUtils.{
  Line, is_transaction_line, rstrip_newline, is_wrapper, is_blank, pop_blank, concat, close_line,
  kept_lines, iter_top_level_lines, strip_transaction_wrappers,
}

-- No line, or a first line that is not blank.
abbrev pub Begins : List Text → Type 0
Begins [] = Unit
Begins (line ∷ lines) = is_blank line ≡ false

abbrev Blank : List Text → Type 0
Blank lines = All (λ l. is_blank l ≡ true) lines

pop_blank_lem :
    (lines : List Text)
    → (front : List Text) × (lines ≡ front ++ pop_blank lines)
      × Blank front
      × Begins (pop_blank lines)
unfolding pop_blank
pop_blank_lem [] = ([], refl, tt, tt)
pop_blank_lem (line ∷ lines) = elim (Bool-cases (is_blank line)) [
  | inl e ↦
      let (front, same, blank, begins) = pop_blank_lem lines in
      rw e (line ∷ front, ap (λ l. line ∷ l) same, (e, blank), begins)
  | inr e ↦ rw e ([], refl, tt, e)
]

reverse-Blank : (lines : List Text) → Blank lines → Blank (reverse lines)
reverse-Blank [] h = tt
reverse-Blank (line ∷ lines) h =
    rw (reverse-cons line lines)
      (All-append _ (reverse lines) (line ∷ []) (reverse-Blank lines h.1) (h.0, tt))

Begins-before : (middle back : List Text) → Begins (middle ++ back) → Begins middle
Begins-before [] back h = tt
Begins-before (line ∷ middle) back h = h

-- The blank lines at both ends, and what stands between them.
abbrev pub Trimmed : List Text → List Text → Type 0
Trimmed lines middle =
    (front : List Text) × (back : List Text) × (lines ≡ front ++ (middle ++ back))
    × All (λ l. is_blank l ≡ true) front
    × All (λ l. is_blank l ≡ true) back
    × Begins middle
    × Begins (reverse middle)

trim_lem : (lines : List Text) → Trimmed lines (reverse (pop_blank (reverse (pop_blank lines))))
trim_lem lines =
    let (front, same, blank, begins) = pop_blank_lem lines in
    let (tail, same_tail, blank_tail, begins_tail) = pop_blank_lem (reverse (pop_blank lines)) in
    let split : pop_blank lines ≡ reverse (pop_blank (reverse (pop_blank lines))) ++ reverse tail =
      sym (reverse-reverse (pop_blank lines))
      ∙ ap reverse same_tail
      ∙ reverse-append tail (pop_blank (reverse (pop_blank lines))) in
    (
      front,
      reverse tail,
      same ∙ ap (λ l. front ++ l) split,
      blank,
      reverse-Blank tail blank_tail,
      Begins-before _ (reverse tail) (subst Begins split begins),
      rw (reverse-reverse (pop_blank (reverse (pop_blank lines)))) begins_tail,
    )

stripped :
    (word : ℕ → Bool) (sql : Text)
    → (middle : List Text) × Trimmed (kept_lines (iter_top_level_lines word sql)) middle
      × ((strip_transaction_wrappers word sql).0 ≡ close_line (concat middle))
      × ((strip_transaction_wrappers word sql).1 ≡ anyb is_wrapper (iter_top_level_lines word sql))
unfolding strip_transaction_wrappers
stripped word sql =
    let kept = kept_lines (iter_top_level_lines word sql) in
    (reverse (pop_blank (reverse (pop_blank kept))), trim_lem kept, refl, refl)

-- The lines that are no top-level BEGIN or COMMIT line, in their order.
abbrev pub ordinary_lines : List Line → List Text
ordinary_lines [] = []
ordinary_lines (l ∷ lines) =
    let rest = ordinary_lines lines in
    if l.is_top_level && is_transaction_line (rstrip_newline l.text) then rest else l.text ∷ rest

kept-ordinary : (lines : List Line) → kept_lines lines ≡ ordinary_lines lines
unfolding kept_lines is_wrapper
kept-ordinary [] = refl
kept-ordinary (l ∷ lines) =
    elim (Bool-cases (l.is_top_level && is_transaction_line (rstrip_newline l.text))) [
      | inl e ↦ rw e (kept-ordinary lines)
      | inr e ↦ rw e (ap (λ ls. l.text ∷ ls) (kept-ordinary lines))
    ]

ordinary-le : (lines : List Line) → length (ordinary_lines lines) ≤ length lines
ordinary-le [] = omega arith
ordinary-le (l ∷ lines) =
    elim (Bool-cases (l.is_top_level && is_transaction_line (rstrip_newline l.text))) [
      | inl e ↦ rw e (omega (arith, ordinary-le lines))
      | inr e ↦ rw e (omega (arith, ordinary-le lines))
    ]

fewer :
    (lines : List Line) → anyb is_wrapper lines ≡ ltb (length (ordinary_lines lines)) (length lines)
unfolding is_wrapper
fewer [] = refl
fewer (l ∷ lines) =
    elim (Bool-cases (l.is_top_level && is_transaction_line (rstrip_newline l.text))) [
      | inl e ↦ rw e (ground (arith, ordinary-le lines))
      | inr e ↦ rw e (fewer lines ∙ ground arith)
    ]

-- A text with a newline at its end, unless it is empty.
abbrev pub Closed : Text → Text → Type 0
Closed t closed =
    ((t ≡ []) × (closed ≡ []))
    ⊎ (((ends_with t (codes "\n") ≡ true) × (closed ≡ t))
        ⊎ ((t ≢ []) × (ends_with t (codes "\n") ≡ false) × (closed ≡ t ++ codes "\n")))

close_line-Closed : (t : Text) → Closed t (close_line t)
unfolding close_line
close_line-Closed [] = inl (refl, refl)
close_line-Closed (c ∷ t) = elim (Bool-cases (ends_with (c ∷ t) (codes "\n"))) [
  | inl e ↦ rw e (inr (inl (refl, refl)))
  | inr e ↦ rw e (inr (inr (λ no. cc, refl, refl)))
]

-- The result is the lines that are no top-level BEGIN or COMMIT line, in their order, without the
-- blank lines at both ends, and with a newline at the end unless nothing is left; `changed` says
-- whether these are fewer lines than the text has.
pub strip_transaction_wrappers_lem :
    (word : ℕ → Bool) (sql : Text)
    → (middle : List Text) × Trimmed (ordinary_lines (iter_top_level_lines word sql)) middle
      × Closed (concat middle) (strip_transaction_wrappers word sql).0
      × ((strip_transaction_wrappers word sql).1
          ≡ ltb
              (length (ordinary_lines (iter_top_level_lines word sql)))
              (length (iter_top_level_lines word sql)))
strip_transaction_wrappers_lem word sql =
    let lines = iter_top_level_lines word sql in
    let (middle, trimmed, result, changed) = stripped word sql in
    (
      middle,
      subst (λ kept. Trimmed kept middle) (kept-ordinary lines) trimmed,
      rw result (close_line-Closed (concat middle)),
      changed ∙ fewer lines,
    )
