-- ===== src/CopyFormatter/Rows.antt =====
-- Proofs about formatted rows and tables.
use confiture.Base.{
  ◌≡◌, ◌≢◌, refl, sym, ◌∙◌, ap, append-nil, append_assoc, ◌==◌, nat_eq, list_eq, Bool, true, false,
  Option, List, [], ◌∷◌, ◌++◌, map, All, All-append,
}
use confiture.Base.Text.{Text, codes, join, split, split-join, text_eq_iff}
use confiture.CopyFormatter.{
  Row, get, tab, newline, backslash, format_value, format_row, format_table,
}
use confiture.CopyFormatter.Escapes.{
  read_field, format_value_roundtrip, Apart, Apart-value, value_goes_on,
}

-- What COPY reads in a line.
abbrev pub read_row : Text → List (Option Text)
read_row line = map read_field (split tab line)

Apart-values :
    (row : Row) (columns : List Text)
    → All (λ v. All (Apart tab) v) (map (λ c. format_value (get c row)) columns)
Apart-values row [] = tt
Apart-values row (c ∷ columns) = (Apart-value tab (get c row) refl, Apart-values row columns)

read_values :
    (row : Row) (columns : List Text)
    → map read_field (map (λ c. format_value (get c row)) columns) ≡ map (λ c. get c row) columns
read_values row [] = refl
read_values row (c ∷ columns) =
    ap (λ v. v ∷ map read_field (map (λ c. format_value (get c row)) columns))
      (format_value_roundtrip (get c row))
    ∙ ap (λ l. get c row ∷ l) (read_values row columns)

-- COPY reads the line of a row as the values of its columns, in the order of the columns, with NULL
-- for a column that the row lacks, if there is a column.
pub format_row_roundtrip :
    (column : Text) (columns : List Text) (row : Row)
    → read_row (format_row (column ∷ columns) row) ≡ map (λ c. get c row) (column ∷ columns)
unfolding format_row
format_row_roundtrip column columns row =
    ap (map read_field) (
      split-join tab (format_value (get column row)) (map (λ c. format_value (get c row)) columns)
        (Apart-values row (column ∷ columns)))
    ∙ read_values row (column ∷ columns)

one_line :
    (parts : List Text)
    → All (λ v. All (Apart newline) v) parts
    → All (Apart newline) (join (tab ∷ []) parts)
one_line [] h = tt
one_line (part ∷ []) h = h.0
one_line (part ∷ next ∷ parts) h =
    All-append (Apart newline) part (tab ∷ join (tab ∷ []) (next ∷ parts)) h.0
      (refl, one_line (next ∷ parts) h.1)

lines-Apart :
    (row : Row) (columns : List Text)
    → All (λ v. All (Apart newline) v) (map (λ c. format_value (get c row)) columns)
lines-Apart row [] = tt
lines-Apart row (c ∷ columns) = (Apart-value newline (get c row) refl, lines-Apart row columns)

pub format_row_line :
    (columns : List Text) (row : Row) → All (Apart newline) (format_row columns row)
unfolding format_row
format_row_line columns row = one_line _ (lines-Apart row columns)

abbrev pub end_of_data : Text
end_of_data = backslash ∷ 46 ∷ []

first_part : List Text → Text
first_part [] = []
first_part (part ∷ rest) = part

contradiction : {b : Bool} → b ≡ true → b ≡ false → ⊥
contradiction h k = cc

clash :
    (part : Text) (rest : List Text)
    → (part == end_of_data) ≡ false
    → part ∷ rest ≡ end_of_data ∷ []
    → ⊥
unfolding first_part
clash part rest apart same =
    contradiction ((text_eq_iff part end_of_data).1 (ap first_part same)) apart

-- A line of data is never taken for the end of the data.
pub row_goes_on : (columns : List Text) (row : Row) → format_row columns row ≢ end_of_data
unfolding format_row
row_goes_on [] row h = cc
row_goes_on (c ∷ columns) row h =
    clash (format_value (get c row)) (map (λ c. format_value (get c row)) columns)
      (value_goes_on (get c row)) parts
  where
    parts :
        format_value (get c row) ∷ map (λ c. format_value (get c row)) columns ≡ end_of_data ∷ []
    parts =
        sym (
          split-join tab (format_value (get c row)) (map (λ c. format_value (get c row)) columns)
            (Apart-values row (c ∷ columns)))
        ∙ ap (split tab) h

abbrev pub header_of : Text → List Text → Text
header_of table_name columns =
    codes "COPY "
    ++ (table_name ++ (codes " (" ++ (join (codes ", ") columns ++ codes ") FROM stdin;")))

join-snoc :
    (sep : Text) (part : Text) (parts : List Text)
    → join sep ((part ∷ parts) ++ ([] ∷ [])) ≡ join sep (part ∷ parts) ++ sep
join-snoc sep part [] = ap (λ t. part ++ t) (append-nil sep)
join-snoc sep part (next ∷ parts) =
    ap (λ t. part ++ (sep ++ t)) (join-snoc sep next parts)
    ∙ ap (λ t. part ++ t) (sym (append_assoc sep (join sep (next ∷ parts)) sep))
    ∙ sym (append_assoc part (sep ++ join sep (next ∷ parts)) sep)

rows-Apart :
    (columns : List Text) (rows : List Row)
    → All (λ v. All (Apart newline) v) (map (format_row columns) rows ++ (end_of_data ∷ [] ∷ []))
rows-Apart columns [] = ((refl, (refl, tt)), (tt, tt))
rows-Apart columns (row ∷ rows) = (format_row_line columns row, rows-Apart columns rows)

-- Where neither the table's name nor the header has a newline, the lines of a formatted table are
-- the header, one line for each row, in the order of the rows, and the end-of-data mark, which no
-- line of a row is; the text ends with a newline.
pub format_table_lines :
    (table_name : Text) (rows : List Row) (columns : List Text)
    → All (Apart newline) (header_of table_name columns)
    → (split newline (format_table table_name rows columns)
        ≡ header_of table_name columns ∷ (map (format_row columns) rows ++ (end_of_data ∷ [] ∷ [])))
      × ((row : Row) → format_row columns row ≢ end_of_data)
unfolding format_table
format_table_lines table_name rows columns h = (lines, λ row. row_goes_on columns row)
  where
    header : Text
    header = header_of table_name columns

    whole :
        join (newline ∷ []) (header ∷ (map (format_row columns) rows ++ (end_of_data ∷ [])))
          ++ (newline ∷ [])
        ≡ join (newline ∷ []) (header ∷ (map (format_row columns) rows ++ (end_of_data ∷ [] ∷ [])))
    whole =
        sym (join-snoc (newline ∷ []) header (map (format_row columns) rows ++ (end_of_data ∷ [])))
        ∙ ap (λ l. join (newline ∷ []) (header ∷ l))
            (append_assoc (map (format_row columns) rows) (end_of_data ∷ []) ([] ∷ []))

    lines :
        split newline (format_table table_name rows columns)
        ≡ header ∷ (map (format_row columns) rows ++ (end_of_data ∷ [] ∷ []))
    lines =
        ap (split newline) whole
        ∙ split-join newline header (map (format_row columns) rows ++ (end_of_data ∷ [] ∷ []))
            (h, rows-Apart columns rows)
