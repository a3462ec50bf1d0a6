-- ===== src/Postgres/Laws.antt =====
-- The documented behaviour of a connection: what a statement may change for this session and for
-- the others, when it returns and when it raises.
use confiture.Base.{ltb, false, ◌≡◌, List, [], ◌∷◌, ◌++◌, contains, remove, nat_eq, list_eq}
use confiture.Base.Text.{Text}
use confiture.Base.Exec.{Exec}
use confiture.Base.Triple.{Ends}
use confiture.Postgres.{Raised, Row, Connection}

module _ (pg : Connection) where
  open pg use {
    Conn, Db, versions, current, committed, saved, create_savepoint, release_savepoint, rollback_to,
    current_user, insert_row, delete_version, select_versions, count_version, commit, rollback,
  }

  -- Nothing is published, and no savepoint of the name is touched.
  pub record Unpublished (name : Text) (c c' : Conn) : Type 0 where
    pub same_committed : committed c' ≡ committed c
    pub same_saved : saved c' name ≡ saved c name

  -- Where nothing was pending, nothing is: what a failed statement leaves is never published.
  abbrev pub StaysSettled : Conn → Conn → Type 0
  StaysSettled c c' = current c ≡ committed c → current c' ≡ committed c'

  -- A query that returns shows what the session sees and changes nothing.
  abbrev pub IsQuery : {A : Type 0} → Exec Conn Raised A → (Conn → A → Type 0) → Type 0
  IsQuery m Answer =
      (c : Conn)
      → Ends (m c)
          (λ a c'. ((name : Text) → Unpublished name c c') × (current c' ≡ current c) × Answer c a)
          (λ _ c'. ((name : Text) → Unpublished name c c') × StaysSettled c c')

  pub record IsPostgres : Type 0 where
    -- SAVEPOINT puts the present contents on the savepoints of its name.
    pub savepoint_law :
        (name : Text) (c : Conn)
        → Ends
            (create_savepoint name c)
            (λ _ c'.
              (committed c' ≡ committed c)
              × (current c' ≡ current c)
              × (saved c' name ≡ current c ∷ saved c name))
            (λ _ c'. Unpublished name c c')
    -- RELEASE SAVEPOINT takes the innermost one away and keeps the contents.
    pub release_law :
        (name : Text) (c : Conn)
        → Ends
            (release_savepoint name c)
            (λ _ c'.
              (committed c' ≡ committed c)
              × (current c' ≡ current c)
              × ((d : Db) × (saved c name ≡ d ∷ saved c' name)))
            (λ _ c'. Unpublished name c c')
    -- ROLLBACK TO SAVEPOINT needs such a savepoint, and brings its contents back.
    pub rollback_to_law :
        (name : Text) (c : Conn)
        → Ends
            (rollback_to name c)
            (λ _ c'.
              (committed c' ≡ committed c)
              × ((d : Db) × (rest : List Db) × (saved c name ≡ d ∷ rest) × (current c' ≡ d)))
            (λ _ c'. committed c' ≡ committed c)
    -- COMMIT publishes what the session sees; one that fails publishes nothing. Both end the
    -- transaction with its savepoints.
    pub commit_law :
        (c : Conn)
        → Ends
            (commit c)
            (λ _ c'.
              (committed c' ≡ current c)
              × (current c' ≡ current c)
              × ((name : Text) → saved c' name ≡ []))
            (λ _ c'.
              (committed c' ≡ committed c)
              × ((name : Text) → saved c' name ≡ [])
              × (current c' ≡ committed c'))
    pub rollback_law :
        (c : Conn)
        → Ends
            (rollback c)
            (λ _ c'.
              (committed c' ≡ committed c)
              × (current c' ≡ committed c)
              × ((name : Text) → saved c' name ≡ []))
            (λ _ c'. committed c' ≡ committed c)
    -- INSERT adds the row as the newest; the version is unique.
    pub insert_law :
        (row : Row) (name : Text) (c : Conn)
        → Ends
            (insert_row row c)
            (λ _ c'.
              Unpublished name c c'
              × (contains (versions (current c)) row.version ≡ false)
              × (versions (current c') ≡ versions (current c) ++ (row.version ∷ [])))
            (λ _ c'. Unpublished name c c')
    pub delete_law :
        (version name : Text) (c : Conn)
        → Ends
            (delete_version version c)
            (λ _ c'.
              Unpublished name c c'
              × (versions (current c') ≡ remove version (versions (current c))))
            (λ _ c'. Unpublished name c c')
    pub user_law : IsQuery current_user (λ _ _. Unit)
    pub select_law : IsQuery select_versions (λ c vs. vs ≡ versions (current c))
    -- `COUNT(*) WHERE version = …` is positive exactly when the version is in the table.
    pub count_law :
        (version : Text)
        → IsQuery (count_version version) (λ c n. ltb 0 n ≡ contains (versions (current c)) version)

  -- A connection that is not lost: ROLLBACK never fails.
  pub record StaysUp : Type 0 where
    pub rollback_up : (c : Conn) → Ends (rollback c) (λ _ _. Unit {0}) (λ _ _. ⊥)
