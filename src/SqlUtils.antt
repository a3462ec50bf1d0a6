-- ===== src/SqlUtils.antt =====
-- python/confiture/core/sql_utils.py: the scanner that tells top-level lines of SQL from lines in
-- strings, comments and dollar-quoted blocks, and the removal of BEGIN and COMMIT lines.
pub mod Lines
pub mod Strip
pub mod Tests
use confiture.Base.{
  ℕ, zero, suc, ◌+◌, ◌≡◌, Bool, true, false, not, ◌&&◌, ◌||◌, Option, none, some, List, [], ◌∷◌,
  ◌++◌, map, reverse, if◌then◌else◌, length, take, drop, filterb, anyb, null, leb, ◌==◌, nat_eq,
  list_eq, contains,
}
use confiture.Base.Text.{Text, codes, starts_with, ends_with}

-- The scanner's state; a dollar-quoted block has its tag.
pub data Mode : Type 0 where
  normal in_string in_line_comment in_block_comment : Mode
  in_dollar_quote : Text → Mode

pub record Line : Type 0 where
  pub index : ℕ
  pub text : Text
  pub is_top_level : Bool

abbrev pub newline : ℕ
newline = 10

-- `[A-Za-z_]`
abbrev pub is_letter : ℕ → Bool
is_letter c = (leb 65 c && leb c 90) || (leb 97 c && leb c 122) || c == 95

-- `\s`, and what `str.strip` removes: the white space of Unicode.
abbrev pub is_space : ℕ → Bool
is_space c =
    (leb 9 c && leb c 13)
    || (leb 28 c && leb c 32)
    || c == 133
    || c == 160
    || c == 5760
    || (leb 8192 c && leb c 8202)
    || c == 8232
    || c == 8233
    || c == 8239
    || c == 8287
    || c == 12288

abbrev pub take_while : (ℕ → Bool) → Text → Text
take_while p [] = []
take_while p (c ∷ s) = let rest = c ∷ take_while p s in if p c then rest else []

abbrev pub drop_while : (ℕ → Bool) → Text → Text
drop_while p [] = []
drop_while p (c ∷ s) = let rest = drop_while p s in if p c then rest else c ∷ s

-- The characters of `\w` are those of the Unicode tables.
module _ (word : ℕ → Bool) where
  -- `[A-Za-z_]\w*` at the start, or nothing.
  unfoldable pub tag_name : Text → Text
  tag_name [] = []
  tag_name (c ∷ s) = if is_letter c then c ∷ take_while word s else []

  -- `_DOLLAR_TAG_RE.match`: what it matched.
  unfoldable pub dollar_tag : Text → Option Text
  unfolding tag_name
  dollar_tag [] = none
  dollar_tag (c ∷ s) =
      let name = tag_name s in
      if c == 36 && starts_with (drop (length name) s) (36 ∷ [])
      then some (36 ∷ (name ++ (36 ∷ [])))
      else none

  -- How many characters are read, what the state is then, and whether a string or a comment was
  -- entered or left.
  unfoldable pub enter : Option Text → Text → ℕ × Mode × Bool
  enter (some tag) text = (length tag, in_dollar_quote tag, false)
  enter none text =
      if starts_with text (codes "--")
      then (2, in_line_comment, true)
      else (if starts_with text (codes "/*")
          then (2, in_block_comment, true)
          else (if starts_with text (codes "'") then (1, in_string, true) else (1, normal, false)))

  -- What one turn of the loop reads where the text does not begin with a newline.
  unfoldable pub advance : Mode → Text → ℕ × Mode × Bool
  unfolding dollar_tag enter
  advance normal text = enter (dollar_tag text) text
  advance in_string text =
      if starts_with text (codes "''")
      then (2, in_string, false)
      else (if starts_with text (codes "'") then (1, normal, true) else (1, in_string, false))
  advance in_line_comment text = (1, in_line_comment, false)
  advance in_block_comment text =
      if starts_with text (codes "*/") then (2, normal, true) else (1, in_block_comment, false)
  advance (in_dollar_quote tag) text =
      if starts_with text (codes "$") && starts_with text tag
      then (length tag, normal, false)
      else (1, in_dollar_quote tag, false)

abbrev pub is_normal : Mode → Bool
is_normal normal = true
is_normal _ = false

-- `if state == "IN_LINE_COMMENT": state = "NORMAL"`
abbrev pub close_comment : Mode → Mode
close_comment in_line_comment = normal
close_comment mode = mode

-- The scanner within a line: `text` is what the line has so far.
pub record Scan : Type 0 where
  pub index : ℕ
  pub text : Text
  pub mode : Mode
  pub entry : Mode
  pub has_transition : Bool

-- The line that ends here, after `last`.
abbrev pub emitted : Scan → Mode → Text → Line
emitted s mode last = record {
  index = s.index;
  text = s.text ++ last;
  is_top_level = (is_normal s.entry || is_normal mode) && not s.has_transition;
}

abbrev pub next_line : Scan → Mode → Scan
next_line s mode = record {
  index = s.index + 1;
  text = [];
  mode = mode;
  entry = mode;
  has_transition = false;
}

-- `while i < n`; the fuel is the number of characters that are left, at least.
unfoldable pub scan : (ℕ → Bool) → ℕ → Scan → Text → List Line
unfolding advance
scan word fuel s [] = if null s.text then [] else emitted s s.mode [] ∷ []
scan word zero s (c ∷ rest) = []
scan word (suc fuel) s (c ∷ rest) = elim (c == newline) [
  | true ↦
      let mode = close_comment s.mode in
      emitted s mode (c ∷ []) ∷ scan word fuel (next_line s mode) rest
  | false ↦
      let (read, mode, transition) = advance word s.mode (c ∷ rest) in
      scan word fuel
        (record s {
          text = s.text ++ take read (c ∷ rest);
          mode = mode;
          has_transition = s.has_transition || transition;
        })
        (drop read (c ∷ rest))
]

abbrev pub scan_start : Scan
scan_start = record { index = 0; text = []; mode = normal; entry = normal; has_transition = false }

unfoldable pub iter_top_level_lines : (ℕ → Bool) → Text → List Line
unfolding scan
iter_top_level_lines word sql = scan word (length sql) scan_start sql

-- A letter of the pattern, with IGNORECASE: the pattern has I, which i, İ and ı match too.
abbrev pub same_letter : ℕ → ℕ → Bool
same_letter p c = c == p || c == p + 32 || (p == 73 && (c == 304 || c == 305))

-- The text after a word of the pattern.
unfoldable pub after_word : Text → Text → Option Text
after_word [] text = some text
after_word (p ∷ word) [] = none
after_word (p ∷ word) (c ∷ text) =
    let rest = after_word word text in if same_letter p c then rest else none

abbrev pub after_semicolon : Text → Text
after_semicolon [] = []
after_semicolon (c ∷ s) = if c == 59 then s else c ∷ s

-- `\s*;?\s*$` after the keyword.
unfoldable pub ends_statement : Option Text → Bool
ends_statement none = false
ends_statement (some text) = null (drop_while is_space (after_semicolon (drop_while is_space text)))

-- `_TRANSACTION_LINE_RE.match`
unfoldable pub is_transaction_line : Text → Bool
unfolding after_word ends_statement
is_transaction_line line =
    let text = drop_while is_space line in
    ends_statement (after_word (codes "BEGIN") text)
    || ends_statement (after_word (codes "COMMIT") text)

-- `line.rstrip("\n")`
abbrev pub rstrip_newline : Text → Text
rstrip_newline line = reverse (drop_while (λ c. c == newline) (reverse line))

unfoldable pub is_wrapper : Line → Bool
unfolding is_transaction_line
is_wrapper line = line.is_top_level && is_transaction_line (rstrip_newline line.text)

abbrev pub is_blank : Text → Bool
is_blank line = null (drop_while is_space line)

-- `while out_lines and not out_lines[0].strip(): out_lines.pop(0)`
unfoldable pub pop_blank : List Text → List Text
pop_blank [] = []
pop_blank (line ∷ lines) =
    let rest = pop_blank lines in if is_blank line then rest else line ∷ lines

abbrev pub concat : List Text → Text
concat [] = []
concat (line ∷ lines) = line ++ concat lines

unfoldable pub close_line : Text → Text
close_line [] = []
close_line (c ∷ s) = if ends_with (c ∷ s) (newline ∷ []) then c ∷ s else (c ∷ s) ++ (newline ∷ [])

-- The lines that are kept.
unfoldable pub kept_lines : List Line → List Text
unfolding is_wrapper
kept_lines lines = map (λ l. l.text) (filterb (λ l. not (is_wrapper l)) lines)

-- `return_changed=True`: the result, and whether a line was removed.
unfoldable pub strip_transaction_wrappers : (ℕ → Bool) → Text → Text × Bool
unfolding iter_top_level_lines kept_lines pop_blank close_line
strip_transaction_wrappers word sql =
    let lines = iter_top_level_lines word sql in
    (
      close_line (concat (reverse (pop_blank (reverse (pop_blank (kept_lines lines)))))),
      anyb is_wrapper lines,
    )
