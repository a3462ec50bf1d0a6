-- ===== src/Migrator/Tracking.antt =====
-- state.py: the tracking table itself, made or brought up to date, and read.
use confiture.Base.{Bool, false, not, Option, none, some, List, ◌∷◌, [], if◌then◌else◌, ◌≡◌}
use confiture.Base.Text.{Text, codes}
use confiture.Base.Exec.{Exec, pure, raise, ◌>>=◌, ◌>>◌, try_except}
use confiture.Base.Triple.{Ends}
use confiture.Postgres.{Raised, migration_error, no_code, Connection}
use confiture.Postgres.Laws.{IsQuery}
use confiture.Migrator.{Migrator, on}

-- The statements of `initialize`; an index is told by its column.
pub data Ddl : Type 0 where
  create_table : Ddl
  create_index : (column : Text) → Ddl
  add_applied_by : Ddl

-- What the server does for `initialize`, besides what every connection does.
pub record Catalog (pg : Connection) : Type 0 where
  -- the row of `SELECT EXISTS (… information_schema.tables …)`
  pub table_exists : Exec pg.Conn Raised (Option Bool)
  pub execute : Ddl → Exec pg.Conn Raised Unit

-- None of the statements touches the rows of the table or ends the transaction.
pub record IsCatalog (pg : Connection) (catalog : Catalog pg) : Type 0 where
  pub exists_law : IsQuery pg catalog.table_exists (λ _ _. Unit)
  pub execute_law :
      (ddl : Ddl) (c : pg.Conn)
      → Ends
          (catalog.execute ddl c)
          (λ _ c'.
            (pg.committed c' ≡ pg.committed c)
            × (pg.versions (pg.current c') ≡ pg.versions (pg.current c)))
          (λ _ c'. pg.committed c' ≡ pg.committed c)

-- `result[0] if result else False`
abbrev pub found : Option Bool → Bool
found none = false
found (some b) = b

module _ {pg : Connection} (catalog : Catalog pg) where
  unfoldable pub execute_all : List Ddl → Exec (Migrator pg) Raised Unit
  execute_all [] = pure tt
  execute_all (ddl ∷ rest) = on (catalog.execute ddl) >> execute_all rest

  abbrev pub new_table : List Ddl
  new_table =
      create_table
      ∷ create_index (codes "pk_confiture")
      ∷ create_index (codes "slug")
      ∷ create_index (codes "version")
      ∷ create_index (codes "applied_at")
      ∷ []

  unfoldable pub initialize : Exec (Migrator pg) Raised Unit
  unfolding execute_all
  initialize =
      try_except
        (do
          row ← on catalog.table_exists
          if not (found row) then execute_all new_table else execute_all (add_applied_by ∷ [])
          on pg.commit)
        (λ e. do on pg.rollback; raise (migration_error no_code))
