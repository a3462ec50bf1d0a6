-- ===== src/CopyFormatter/Tests.antt =====
-- Rows with characters that COPY reads specially.
use confiture.Base.{◌≡◌, ◌≢◌, refl, some, List, [], ◌∷◌, ◌++◌, map, All, nat_beq, filterb-nil}
use confiture.Base.Text.{Text, codes, split}
use confiture.CopyFormatter.{
  Row, get, tab, newline, backslash, escape_all, format_value, format_row, format_table,
}
use confiture.CopyFormatter.Escapes.{Apart}
use confiture.CopyFormatter.Rows.{
  read_row, format_row_roundtrip, end_of_data, header_of, format_table_lines,
}

abbrev tricky : Text
tricky = codes "a" ++ (tab ∷ newline ∷ backslash ∷ codes "N")

abbrev row : Row
row = (codes "id", some (codes "1")) ∷ (codes "note", some tricky) ∷ []

abbrev columns : List Text
columns = codes "id" ∷ codes "note" ∷ codes "missing" ∷ []

formats_row :
    format_row columns row ≡ codes "1" ++ (tab ∷ codes "a\\t\\n\\\\N") ++ (tab ∷ codes "\\N")
unfolding format_row format_value escape_all
formats_row = refl

format_row_roundtrip_example : read_row (format_row columns row) ≡ map (λ c. get c row) columns
format_row_roundtrip_example =
    format_row_roundtrip (codes "id") (codes "note" ∷ codes "missing" ∷ []) row

header-Apart : All (Apart newline) (header_of (codes "t") (codes "id" ∷ []))
header-Apart = filterb-nil (λ d. nat_beq d newline) (header_of (codes "t") (codes "id" ∷ [])) refl

format_table_lines_example :
    (split newline (format_table (codes "t") (row ∷ []) (codes "id" ∷ []))
      ≡ header_of (codes "t") (codes "id" ∷ [])
        ∷ (map (format_row (codes "id" ∷ [])) (row ∷ []) ++ (end_of_data ∷ [] ∷ [])))
    × ((r : Row) → format_row (codes "id" ∷ []) r ≢ end_of_data)
format_table_lines_example =
    format_table_lines (codes "t") (row ∷ []) (codes "id" ∷ []) header-Apart
