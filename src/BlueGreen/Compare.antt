-- ===== src/BlueGreen/Compare.antt =====
-- Proofs about `_compare_schemas`.
use confiture.Base.{
  ℕ, ◌≡◌, refl, ◌∙◌, ap, false, not, ◌&&◌, ◌||◌, List, [], ◌∷◌, map, if◌then◌else◌, contains,
  IsDistinct, ◌==◌, nat_eq, list_eq, arith, Bool-cases, inl, inr,
}
use confiture.Base.Text.{Text, text_eq_iff}
use confiture.BlueGreen.{TableCount, BlueGreenConfig}
use confiture.BlueGreen.Steps.{
  Counts, Stats, count_of, put_count, known_count, put_row, gather, discrepancies_of,
}

-- The count in the last row of a table in a schema, and `n` if no row has it.
abbrev pub latest : Text → Text → List TableCount → ℕ → ℕ
latest schema table [] n = n
latest schema table (row ∷ rows) n =
    latest schema table rows
      (if row.schema == schema && row.table == table then known_count row.count else n)

abbrev counts_of : Text → Stats → Counts
counts_of table [] = []
counts_of table ((t, counts) ∷ stats) =
    let rest = counts_of table stats in if t == table then counts else rest

abbrev keys : Stats → List Text
keys stats = map (λ s. s.0) stats

count_of-put_count :
    (s schema : Text) (n : ℕ) (counts : Counts)
    → count_of s (put_count schema n counts) ≡ (if schema == s then n else count_of s counts)
unfolding count_of put_count
count_of-put_count s schema n [] = refl
count_of-put_count s schema n ((x, k) ∷ counts) = ground (
  arith,
  count_of-put_count s schema n counts,
  text_eq_iff x schema,
  text_eq_iff schema s,
  text_eq_iff x s,
)

count_of-put_row :
    (schema table : Text) (row : TableCount) (stats : Stats)
    → count_of schema (counts_of table (put_row row stats)) ≡ (
        if row.schema == schema && row.table == table
        then known_count row.count
        else count_of schema (counts_of table stats))
unfolding put_row count_of put_count
count_of-put_row schema table row [] = ground arith
count_of-put_row schema table row ((t, counts) ∷ stats) = ground (
  arith,
  count_of-put_row schema table row stats,
  count_of-put_count schema row.schema (known_count row.count) counts,
  text_eq_iff t row.table,
  text_eq_iff row.table table,
  text_eq_iff t table,
)

count_of-gather :
    (schema table : Text) (rows : List TableCount) (stats : Stats)
    → count_of schema (counts_of table (gather rows stats))
      ≡ latest schema table rows (count_of schema (counts_of table stats))
unfolding gather
count_of-gather schema table [] stats = refl
count_of-gather schema table (row ∷ rows) stats =
    count_of-gather schema table rows (put_row row stats)
    ∙ ap (λ n. latest schema table rows n) (count_of-put_row schema table row stats)

contains-put_row :
    (table : Text) (row : TableCount) (stats : Stats)
    → contains (keys (put_row row stats)) table
      ≡ (contains (keys stats) table || table == row.table)
unfolding put_row
contains-put_row table row [] = ground arith
contains-put_row table row ((t, counts) ∷ stats) = ground (
  arith,
  contains-put_row table row stats,
  text_eq_iff t row.table,
  text_eq_iff table t,
  text_eq_iff table row.table,
)

contains-gather :
    (table : Text) (rows : List TableCount) (stats : Stats)
    → contains (keys (gather rows stats)) table
      ≡ (contains (keys stats) table || contains (map (λ r. r.table) rows) table)
unfolding gather
contains-gather table [] stats = ground arith
contains-gather table (row ∷ rows) stats =
    ground (arith, contains-gather table rows (put_row row stats), contains-put_row table row stats)

put_row-IsDistinct :
    (row : TableCount) (stats : Stats)
    → IsDistinct (keys stats)
    → IsDistinct (keys (put_row row stats))
unfolding put_row
put_row-IsDistinct row [] h = (refl, tt)
put_row-IsDistinct row ((t, counts) ∷ stats) h = elim (Bool-cases (t == row.table)) [
  | inl e ↦ rw e h
  | inr e ↦ rw e (ground (arith, contains-put_row t row stats), put_row-IsDistinct row stats h.1)
]

gather-IsDistinct :
    (rows : List TableCount) (stats : Stats)
    → IsDistinct (keys stats)
    → IsDistinct (keys (gather rows stats))
unfolding gather
gather-IsDistinct [] stats h = h
gather-IsDistinct (row ∷ rows) stats h =
    gather-IsDistinct rows (put_row row stats) (put_row-IsDistinct row stats h)

-- Of tables that are all different, those are reported whose counts differ.
contains-discrepancies_of :
    (config : BlueGreenConfig) (table : Text) (stats : Stats)
    → IsDistinct (keys stats)
    → contains (map (λ d. d.table) (discrepancies_of config stats)) table ≡ (
        contains (keys stats) table
        && not (
            count_of config.source_schema (counts_of table stats)
            == count_of config.target_schema (counts_of table stats)))
unfolding discrepancies_of
contains-discrepancies_of config table [] h = refl
contains-discrepancies_of config table ((t, counts) ∷ stats) h = elim (Bool-cases (table == t)) [
  | inl e ↦
      let absent : contains (keys stats) table ≡ false = rw ((text_eq_iff table t).0 e) h.0 in
      ground (
        arith,
        contains-discrepancies_of config table stats h.1,
        text_eq_iff table t,
        text_eq_iff t table,
      )
  | inr e ↦ ground (
    arith,
    contains-discrepancies_of config table stats h.1,
    text_eq_iff table t,
    text_eq_iff t table,
  )
]

-- `_compare_schemas` reports exactly the tables among the rows whose row count in the source schema
-- differs from that in the target schema: the count of the last row for the table in the schema, and
-- 0 where the schema has no row for it.
pub compare_schemas_lem :
    (config : BlueGreenConfig) (rows : List TableCount) (table : Text)
    → contains (map (λ d. d.table) (discrepancies_of config (gather rows []))) table ≡ (
        contains (map (λ r. r.table) rows) table
        && not
            (latest config.source_schema table rows 0 == latest config.target_schema table rows 0))
unfolding count_of
compare_schemas_lem config rows table =
    contains-discrepancies_of config table (gather rows []) (gather-IsDistinct rows [] tt)
    ∙ rw
        (
          count_of-gather config.source_schema table rows [],
          count_of-gather config.target_schema table rows [],
          contains-gather table rows [],
        )
        refl
