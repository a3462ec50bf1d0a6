-- ===== src/SqlUtils/Tests.antt =====
-- Runs of the scanner and of the stripper.
use confiture.Base.{
  ltb, length, ℕ, ◌≡◌, refl, Bool, true, false, ◌||◌, ◌&&◌, leb, nat_eq, list_eq, List, [], ◌∷◌,
  ◌++◌, map,
}
use confiture.Base.Text.{Text, codes}
use confiture.SqlUtils.{
  iter_top_level_lines, scan, advance, dollar_tag, tag_name, enter, strip_transaction_wrappers,
  kept_lines, is_wrapper, is_transaction_line, after_word, ends_statement, pop_blank, close_line,
  concat, is_letter, newline,
}
use confiture.SqlUtils.Lines.{iter_top_level_lines_lossless}
use confiture.SqlUtils.Strip.{Trimmed, Closed, ordinary_lines, strip_transaction_wrappers_lem}

-- `\w` on ASCII.
abbrev word : ℕ → Bool
word c = is_letter c || (leb 48 c && leb c 57)

abbrev nl : Text
nl = newline ∷ []

abbrev wrapped : Text
wrapped =
    nl
    ++ codes "begin;"
    ++ nl
    ++ codes "DO $b$"
    ++ nl
    ++ codes "BEGIN"
    ++ nl
    ++ codes "END $b$;"
    ++ nl
    ++ codes "COMMIT ;"

abbrev unwrapped : Text
unwrapped = codes "DO $b$" ++ nl ++ codes "BEGIN" ++ nl ++ codes "END $b$;" ++ nl

abbrev quoted : Text
quoted = codes "INSERT INTO t VALUES ('a" ++ nl ++ codes "BEGIN" ++ nl ++ codes "');" ++ nl

program : Unit {0}
unfolding iter_top_level_lines scan advance dollar_tag tag_name enter strip_transaction_wrappers
    kept_lines is_wrapper is_transaction_line after_word ends_statement pop_blank close_line
program = tt

strips_wrappers : strip_transaction_wrappers word wrapped ≡ (unwrapped, true)
unfolding program
strips_wrappers = refl

keeps_strings : strip_transaction_wrappers word quoted ≡ (quoted, false)
unfolding program
keeps_strings = refl

iter_top_level_lines_lossless_example :
    concat (map (λ l. l.text) (iter_top_level_lines word wrapped)) ≡ wrapped
iter_top_level_lines_lossless_example = iter_top_level_lines_lossless word wrapped

strip_transaction_wrappers_example :
    (middle : List Text) × Trimmed (ordinary_lines (iter_top_level_lines word wrapped)) middle
    × Closed (concat middle) (strip_transaction_wrappers word wrapped).0
    × ((strip_transaction_wrappers word wrapped).1
        ≡ ltb
            (length (ordinary_lines (iter_top_level_lines word wrapped)))
            (length (iter_top_level_lines word wrapped)))
strip_transaction_wrappers_example = strip_transaction_wrappers_lem word wrapped

-- A blank line in front of a text without BEGIN and COMMIT, and no newline at the end.
abbrev plain : Text
plain = nl ++ codes "SELECT 1;"
