-- ===== src/Checksum/Laws.antt =====
-- What the two statements do to the rows of the tracking table.
use confiture.Base.{◌≡◌, ap, ◌∙◌, some, List, map, if◌then◌else◌, ◌==◌, nat_eq, list_eq}
use confiture.Base.Text.{Text}
use confiture.Base.Triple.{Ends, Triple, ends-Post}
use confiture.Checksum.{Failure, verification_error, file_error, database_error, Stored, Store}

-- Every exception of the connection is one of the database.
unfoldable pub IsDatabaseError : Failure → Type 0
IsDatabaseError (verification_error mismatches) = ⊥
IsDatabaseError (file_error message) = ⊥
IsDatabaseError (database_error message) = Unit

-- `UPDATE … SET checksum = %s WHERE version = %s`
abbrev pub with_checksum : Text → Text → Stored → Stored
with_checksum version checksum row =
    if row.version == version then record row { checksum = some checksum } else row

pub record IsStore (store : Store) : Type 0 where
  pub select_law :
      (c : store.Conn)
      → Ends
          (store.select_rows c)
          (λ rows c'. (rows ≡ store.rows c) × (store.rows c' ≡ store.rows c))
          (λ e c'. IsDatabaseError e × (store.rows c' ≡ store.rows c))
  pub update_law :
      (version checksum : Text) (c : store.Conn)
      → Ends
          (store.update_row version checksum c)
          (λ _ c'. store.rows c' ≡ map (with_checksum version checksum) (store.rows c))
          (λ e c'. IsDatabaseError e × (store.rows c' ≡ store.rows c))
  pub commit_law :
      (c : store.Conn)
      → Ends (store.commit c) (λ _ c'. store.rows c' ≡ store.rows c) (λ e _. IsDatabaseError e)

module _ (store : Store) (laws : IsStore store) (rows : List Stored) where
  -- The laws as rules, where the rows are known before.
  pub triple_select :
      Triple
        (λ c. store.rows c ≡ rows)
        store.select_rows
        (λ stored c. (stored ≡ rows) × (store.rows c ≡ rows))
        (λ e c. IsDatabaseError e × (store.rows c ≡ rows))
  triple_select = record {
    at = λ c p.
        ends-Post (λ stored c'. (stored ≡ rows) × (store.rows c' ≡ rows))
          (λ e c'. IsDatabaseError e × (store.rows c' ≡ rows)) (laws.select_law c)
          (λ _ _ h. (h.0 ∙ p, h.1 ∙ p)) (λ _ _ h. (h.0, h.1 ∙ p));
  }

  pub triple_update :
      (version checksum : Text)
      → Triple
          (λ c. store.rows c ≡ rows)
          (store.update_row version checksum)
          (λ _ c. store.rows c ≡ map (with_checksum version checksum) rows)
          (λ e _. IsDatabaseError e)
  triple_update version checksum = record {
    at = λ c p.
        ends-Post (λ _ c'. store.rows c' ≡ map (with_checksum version checksum) rows)
          (λ e _. IsDatabaseError e) (laws.update_law version checksum c)
          (λ _ _ h. h ∙ ap (map (with_checksum version checksum)) p) (λ _ _ h. h.0);
  }

  pub triple_commit :
      Triple
        (λ c. store.rows c ≡ rows)
        store.commit
        (λ _ c. store.rows c ≡ rows)
        (λ e _. IsDatabaseError e)
  triple_commit = record {
    at = λ c p.
        ends-Post (λ _ c'. store.rows c' ≡ rows) (λ e _. IsDatabaseError e) (laws.commit_law c)
          (λ _ _ h. h ∙ p) (λ _ _ h. h);
  }
