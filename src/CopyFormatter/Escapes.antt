-- ===== src/CopyFormatter/Escapes.antt =====
-- Proofs about the escapes of a value.
use confiture.Base.{
  ℕ, ◌≡◌, refl, ◌∙◌, ap, true, false, ◌||◌, Option, none, some, [], ◌∷◌, ◌++◌, if◌then◌else◌, ◌==◌,
  nat_eq, list_eq, All, All-append, nat_beq, nat_beq_iff, arith, Bool-cases, inl, inr,
}
use confiture.Base.Text.{Text}
use confiture.CopyFormatter.{backslash, escape, escape_all, format_value}

-- The letter that stands for a character after a backslash.
abbrev pub letter_of : ℕ → Option ℕ
letter_of c =
    if nat_beq c 92
    then some 92
    else (if nat_beq c 9
        then some 116
        else (if nat_beq c 10
            then some 110
            else (if nat_beq c 13
                then some 114
                else (if nat_beq c 8 then some 98 else (if nat_beq c 12 then some 102 else none)))))

abbrev pub written : ℕ → Option ℕ → Text
written c none = c ∷ []
written c (some letter) = escape letter

-- One pass over the text.
abbrev pub escaped : Text → Text
escaped [] = []
escaped (c ∷ s) = written c (letter_of c) ++ escaped s

escape_all-cons : (c : ℕ) (s : Text) → escape_all (c ∷ s) ≡ written c (letter_of c) ++ escape_all s
unfolding escape_all
escape_all-cons c s = elim (Bool-cases (nat_beq c 92)) [
  | inl e ↦ rw ((nat_beq_iff c 92).0 e) refl
  | inr e ↦ rw e (elim (Bool-cases (nat_beq c 9)) [
    | inl e ↦ rw ((nat_beq_iff c 9).0 e) refl
    | inr e ↦ rw e (elim (Bool-cases (nat_beq c 10)) [
      | inl e ↦ rw ((nat_beq_iff c 10).0 e) refl
      | inr e ↦ rw e (elim (Bool-cases (nat_beq c 13)) [
        | inl e ↦ rw ((nat_beq_iff c 13).0 e) refl
        | inr e ↦ rw e (elim (Bool-cases (nat_beq c 8)) [
          | inl e ↦ rw ((nat_beq_iff c 8).0 e) refl
          | inr e ↦ rw e (elim (Bool-cases (nat_beq c 12)) [
            | inl e ↦ rw ((nat_beq_iff c 12).0 e) refl
            | inr e ↦ rw e refl
          ])
        ])
      ])
    ])
  ])
]

-- The six replacements, one after the other, write each character on its own: a backslash, tab,
-- newline, carriage return, backspace or form feed as a backslash and its letter, and any other as
-- it stands. So no replacement escapes what an earlier one wrote.
pub escape_all_lem : (s : Text) → escape_all s ≡ escaped s
unfolding escape_all
escape_all_lem [] = refl
escape_all_lem (c ∷ s) =
    escape_all-cons c s ∙ ap (λ t. written c (letter_of c) ++ t) (escape_all_lem s)

-- What PostgreSQL reads for a backslash and a letter. Its octal and hexadecimal sequences begin with
-- a digit or an x, which the formatter never writes there.
abbrev pub unescape : ℕ → ℕ
unescape d =
    if nat_beq d 116
    then 9
    else (if nat_beq d 110
        then 10
        else (if nat_beq d 114
            then 13
            else (if nat_beq d 98
                then 8
                else (if nat_beq d 102 then 12 else (if nat_beq d 118 then 11 else d)))))

-- What COPY reads in a field that is not NULL.
unfoldable pub read_text : Text → Text
read_text [] = []
read_text (c ∷ []) = c ∷ []
read_text (c ∷ d ∷ s) = elim (nat_beq c backslash) [
  | true ↦ unescape d ∷ read_text s
  | false ↦ c ∷ read_text (d ∷ s)
]

-- What COPY reads in a field.
unfoldable pub read_field : Text → Option Text
unfolding read_text
read_field t = if t == escape 78 then none else some (read_text t)

plain : (c : ℕ) → letter_of c ≡ none → nat_beq c backslash ≡ false
plain c h = ground arith

unescape-letter_of : (c letter : ℕ) → letter_of c ≡ some letter → unescape letter ≡ c
unescape-letter_of c letter h = ground arith

read_written :
    (c : ℕ) (letter : Option ℕ) (s : Text)
    → letter_of c ≡ letter
    → read_text (written c letter ++ s) ≡ c ∷ read_text s
unfolding read_text
read_written c none [] h = refl
read_written c none (d ∷ s) h = rw (plain c h, read_text) refl
read_written c (some letter) s h = ap (λ d. d ∷ read_text s) (unescape-letter_of c letter h)

read_escaped : (s : Text) → read_text (escaped s) ≡ s
unfolding read_text
read_escaped [] = refl
read_escaped (c ∷ s) =
    read_written c (letter_of c) (escaped s) refl ∙ ap (λ t. c ∷ t) (read_escaped s)

no_mark : (c letter : ℕ) → letter_of c ≡ some letter → nat_beq letter 78 ≡ false
no_mark c letter h = ground arith

-- An escaped text is not the NULL mark.
not_null : (s : Text) → (escaped s == escape 78) ≡ false
not_null [] = refl
not_null (c ∷ s) = go c (letter_of c) refl
  where
    go :
        (c : ℕ) (letter : Option ℕ)
        → letter_of c ≡ letter
        → ((written c letter ++ escaped s) == escape 78) ≡ false
    go c none h = rw (plain c h) refl
    go c (some letter) h = rw (no_mark c letter h) refl

-- COPY reads a formatted value back, NULL and every text alike.
pub format_value_roundtrip : (value : Option Text) → read_field (format_value value) ≡ value
unfolding read_field format_value
format_value_roundtrip none = refl
format_value_roundtrip (some s) = rw (escape_all_lem s, not_null s) (ap some (read_escaped s))

-- A character that would end a field or a line.
abbrev pub Apart : ℕ → ℕ → Type 0
Apart sep d = nat_beq d sep ≡ false

Apart-written :
    (sep c : ℕ) (letter : Option ℕ)
    → (nat_beq sep 9 || nat_beq sep 10) ≡ true
    → letter_of c ≡ letter
    → All (Apart sep) (written c letter)
Apart-written sep c none h k = (ground arith, tt)
Apart-written sep c (some letter) h k = (ground arith, (ground arith, tt))

Apart-escaped :
    (sep : ℕ) (s : Text) → (nat_beq sep 9 || nat_beq sep 10) ≡ true → All (Apart sep) (escaped s)
Apart-escaped sep [] h = tt
Apart-escaped sep (c ∷ s) h =
    All-append (Apart sep) (written c (letter_of c)) (escaped s)
      (Apart-written sep c (letter_of c) h refl) (Apart-escaped sep s h)

pub Apart-value :
    (sep : ℕ) (value : Option Text)
    → (nat_beq sep 9 || nat_beq sep 10) ≡ true
    → All (Apart sep) (format_value value)
unfolding format_value
Apart-value sep none h = (ground arith, (ground arith, tt))
Apart-value sep (some s) h = rw (escape_all_lem s) (Apart-escaped sep s h)

not_46 : (c letter : ℕ) → letter_of c ≡ some letter → nat_beq letter 46 ≡ false
not_46 c letter h = ground arith

escaped_goes_on : (s : Text) → (escaped s == backslash ∷ 46 ∷ []) ≡ false
escaped_goes_on [] = refl
escaped_goes_on (c ∷ s) = go c (letter_of c) refl
  where
    go :
        (c : ℕ) (letter : Option ℕ)
        → letter_of c ≡ letter
        → ((written c letter ++ escaped s) == backslash ∷ 46 ∷ []) ≡ false
    go c none h = rw (plain c h) refl
    go c (some letter) h = rw (not_46 c letter h) refl

-- A formatted value is not the end-of-data mark.
pub value_goes_on : (value : Option Text) → (format_value value == backslash ∷ 46 ∷ []) ≡ false
unfolding format_value
value_goes_on none = refl
value_goes_on (some s) = rw (escape_all_lem s) (escaped_goes_on s)
