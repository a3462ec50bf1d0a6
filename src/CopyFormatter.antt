-- ===== src/CopyFormatter.antt =====
-- python/confiture/core/seed/copy_formatter.py: seed rows in PostgreSQL's COPY text format.
pub mod Escapes
pub mod Rows
pub mod Tests
use confiture.Base.{
  ℕ, ◌≡◌, Bool, true, false, Option, none, some, List, [], ◌∷◌, ◌++◌, map, if◌then◌else◌, ◌==◌,
  nat_eq, list_eq,
}
use confiture.Base.Text.{Text, codes, join}

-- A row: the `str` of each value that is not None, by its column. A later entry of a column is not
-- there: the keys of a `dict` are distinct.
abbrev pub Row : Type 0
Row = List (Text × Option Text)

-- `row.get(col)`
abbrev pub get : Text → Row → Option Text
get column [] = none
get column ((name, value) ∷ row) =
    let rest = get column row in if name == column then value else rest

-- `s.replace(c, new)`, for a single character `c`.
abbrev pub replace : ℕ → Text → Text → Text
replace c new [] = []
replace c new (d ∷ s) = let rest = replace c new s in if d == c then new ++ rest else d ∷ rest

abbrev pub backslash : ℕ
backslash = 92

abbrev pub tab : ℕ
tab = 9

abbrev pub newline : ℕ
newline = 10

-- A backslash and a letter.
abbrev pub escape : ℕ → Text
escape letter = backslash ∷ letter ∷ []

-- The replacements of `_format_value`, in the order of the code.
unfoldable pub escape_all : Text → Text
escape_all s =
    let backslashes = replace backslash (escape backslash) s in
    let tabs = replace tab (escape 116) backslashes in
    let newlines = replace newline (escape 110) tabs in
    let returns = replace 13 (escape 114) newlines in
    let backspaces = replace 8 (escape 98) returns in replace 12 (escape 102) backspaces

unfoldable pub format_value : Option Text → Text
unfolding escape_all
format_value none = escape 78
format_value (some s) = escape_all s

unfoldable pub format_row : List Text → Row → Text
unfolding format_value
format_row columns row = join (tab ∷ []) (map (λ column. format_value (get column row)) columns)

unfoldable pub format_table : Text → List Row → List Text → Text
unfolding format_row
format_table table_name rows columns =
    let header =
      codes "COPY "
      ++ (table_name ++ (codes " (" ++ (join (codes ", ") columns ++ codes ") FROM stdin;"))) in
    join (newline ∷ []) (header ∷ (map (format_row columns) rows ++ ((backslash ∷ 46 ∷ []) ∷ [])))
    ++ (newline ∷ [])
