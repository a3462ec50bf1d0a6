-- ===== src/SqlUtils/Lines.antt =====
-- Proofs about the lines that the scanner gives.
use confiture.Base.{
  ℕ, zero, suc, ◌≤◌, ◌<◌, ◌≡◌, refl, ◌∙◌, ap, Bool, ◌&&◌, ◌||◌, Option, none, some, List, [], ◌∷◌,
  ◌++◌, map, if◌then◌else◌, length, take, drop, null, ◌==◌, nat_eq, list_eq, arith, append-nil,
  append_assoc, take-append-drop, Bool-cases, inl, inr,
}
use confiture.Base.Text.{Text, codes, starts_with}
use confiture.SqlUtils.{
  Mode, normal, in_string, in_line_comment, in_block_comment, in_dollar_quote, Line, Scan, emitted,
  next_line, close_comment, scan, scan_start, iter_top_level_lines, advance, enter, dollar_tag,
  concat, newline,
}

-- At least one character is read.
module _ (word : ℕ → Bool) where
  enter_reads :
      (tag : Option Text) (text : Text)
      → ((t : Text) → tag ≡ some t → 0 < length t)
      → 0 < (enter word tag text).0
  unfolding enter
  enter_reads (some tag) text h = h tag refl
  enter_reads none text h = ground arith

  dollar_tag_long : (text t : Text) → dollar_tag word text ≡ some t → 0 < length t
  unfolding dollar_tag
  dollar_tag_long [] t h = cc
  dollar_tag_long (c ∷ s) t h = ground arith

  -- A tag that closes a block has a character.
  abbrev Tagged : Mode → Type 0
  Tagged (in_dollar_quote tag) = 0 < length tag
  Tagged _ = Unit

  enter-Tagged :
      (tag : Option Text) (text : Text)
      → ((t : Text) → tag ≡ some t → 0 < length t)
      → Tagged (enter word tag text).1
  unfolding enter
  enter-Tagged (some tag) text h = h tag refl
  enter-Tagged none text h = elim (Bool-cases (starts_with text (codes "--"))) [
    | inl e ↦ rw e tt
    | inr e ↦ rw e (elim (Bool-cases (starts_with text (codes "/*"))) [
      | inl e ↦ rw e tt
      | inr e ↦
          rw e
            (elim (Bool-cases (starts_with text (codes "'"))) [ inl e ↦ rw e tt | inr e ↦ rw e tt ])
    ])
  ]

  advance_reads : (mode : Mode) (text : Text) → Tagged mode → 0 < (advance word mode text).0
  unfolding advance
  advance_reads normal text h = enter_reads (dollar_tag word text) text (dollar_tag_long text)
  advance_reads in_string text h = ground arith
  advance_reads in_line_comment text h = omega arith
  advance_reads in_block_comment text h = ground arith
  advance_reads (in_dollar_quote tag) text h =
      elim (Bool-cases (starts_with text (codes "$") && starts_with text tag)) [
        | inl e ↦ rw e h
        | inr e ↦ rw e (omega arith)
      ]

  advance-Tagged : (mode : Mode) (text : Text) → Tagged mode → Tagged (advance word mode text).1
  unfolding advance
  advance-Tagged normal text h = enter-Tagged (dollar_tag word text) text (dollar_tag_long text)
  advance-Tagged in_string text h = elim (Bool-cases (starts_with text (codes "''"))) [
    | inl e ↦ rw e tt
    | inr e ↦
        rw e
          (elim (Bool-cases (starts_with text (codes "'"))) [ inl e ↦ rw e tt | inr e ↦ rw e tt ])
  ]
  advance-Tagged in_line_comment text h = tt
  advance-Tagged in_block_comment text h = elim (Bool-cases (starts_with text (codes "*/"))) [
    | inl e ↦ rw e tt
    | inr e ↦ rw e tt
  ]
  advance-Tagged (in_dollar_quote tag) text h =
      elim (Bool-cases (starts_with text (codes "$") && starts_with text tag)) [
        | inl e ↦ rw e tt
        | inr e ↦ rw e h
      ]

  close-Tagged : (mode : Mode) → Tagged mode → Tagged (close_comment mode)
  close-Tagged normal h = tt
  close-Tagged in_string h = tt
  close-Tagged in_line_comment h = tt
  close-Tagged in_block_comment h = tt
  close-Tagged (in_dollar_quote tag) h = h

  shorter : (n : ℕ) (c : ℕ) (rest : Text) → 0 < n → length (drop n (c ∷ rest)) ≤ length rest
  shorter zero c rest h = absurd (omega arith)
  shorter (suc n) c rest h = length-drop n rest
    where
      length-drop : (n : ℕ) (s : Text) → length (drop n s) ≤ length s
      length-drop zero s = omega arith
      length-drop (suc n) [] = omega arith
      length-drop (suc n) (c ∷ s) = omega (arith, length-drop n s)

  texts : List Line → Text
  texts lines = concat (map (λ (l : Line). l.text) lines)

  last_line :
      (s : Scan) → texts (if null s.text then [] else emitted s s.mode [] ∷ []) ≡ s.text ++ []
  unfolding texts
  last_line s =
      elim s.text
        as (λ t.
          texts (if null t then [] else emitted (record s { text = t }) s.mode [] ∷ []) ≡ t ++ []) [
            | [] ↦ refl
            | c ∷ t ↦ append-nil ((c ∷ t) ++ [])
          ]

  scan_lem :
      (fuel : ℕ) (s : Scan) (text : Text)
      → Tagged s.mode
      → length text ≤ fuel
      → texts (scan word fuel s text) ≡ s.text ++ text
  unfolding scan texts
  scan_lem zero s [] h k = last_line s
  scan_lem (suc fuel) s [] h k = last_line s
  scan_lem zero s (c ∷ rest) h k = absurd (omega arith)
  scan_lem (suc fuel) s (c ∷ rest) h k = elim (Bool-cases (c == newline)) [
    | inl e ↦
        rw (e, scan)
          (ap (λ t. (s.text ++ (c ∷ [])) ++ t)
              (scan_lem fuel (next_line s (close_comment s.mode)) rest (close-Tagged s.mode h)
                (omega arith))
            ∙ append_assoc s.text (c ∷ []) rest)
    | inr e ↦
        let bound : length (drop (advance word s.mode (c ∷ rest)).0 (c ∷ rest)) ≤ fuel = omega (
          arith,
          shorter (advance word s.mode (c ∷ rest)).0 c rest (advance_reads s.mode (c ∷ rest) h),
        ) in
        rw (e, scan)
          (scan_lem fuel
              (record s {
                text = s.text ++ take (advance word s.mode (c ∷ rest)).0 (c ∷ rest);
                mode = (advance word s.mode (c ∷ rest)).1;
                has_transition = s.has_transition || (advance word s.mode (c ∷ rest)).2;
              })
              (drop (advance word s.mode (c ∷ rest)).0 (c ∷ rest))
              (advance-Tagged s.mode (c ∷ rest) h) bound
            ∙ append_assoc s.text _ _
            ∙ ap (λ t. s.text ++ t)
                (take-append-drop (advance word s.mode (c ∷ rest)).0 (c ∷ rest)))
  ]

-- The lines that the scanner gives, put together, are the text it was given, whatever characters the
-- tags of dollar quotes may have. So the fuel of the scanner, the length of the text, is enough.
pub iter_top_level_lines_lossless :
    (word : ℕ → Bool) (sql : Text)
    → concat (map (λ l. l.text) (iter_top_level_lines word sql)) ≡ sql
unfolding iter_top_level_lines texts
iter_top_level_lines_lossless word sql = scan_lem word (length sql) scan_start sql tt (omega arith)
