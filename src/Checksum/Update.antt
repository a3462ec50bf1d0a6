-- ===== src/Checksum/Update.antt =====
-- Proofs about `update_all_checksums`, and about `verify_all` after it.
use confiture.Base.{
  ℕ, ◌+◌, ◌≡◌, refl, ap, ◌∙◌, Bool, true, false, Option, none, some, List, [], ◌∷◌, map,
  if◌then◌else◌, contains, IsDistinct, ◌==◌, nat_eq, list_eq, length, filterb, arith, inl, inr, ◌⊎◌,
  Option-cases, Bool-cases, ap₂,
}
use confiture.Base.Text.{Text, text_eq_iff}
use confiture.Base.Exec.{Outcome, ok, err, Exec, pure, ◌>>=◌}
use confiture.Base.Triple.{
  Ends, Triple, ends-Post, triple-bind, triple-pure, triple-weaken, triple_assume,
}
use confiture.Discovery.{Directory}
use confiture.Checksum.{
  ChecksumConfig, ChecksumMismatch, Failure, file_error, Stored, Store, find_migration_file,
  update_checksum, update_found, update_each, update_all_checksums, verify_all,
}
use confiture.Checksum.Laws.{
  IsDatabaseError, with_checksum, IsStore, triple_select, triple_update, triple_commit,
}
use confiture.Checksum.Verify.{
  sum, sum_of, Unread, computed_step, is_modified, verify_all_lem, no_rows,
}

module _ (digest : Text → Text → Outcome Text Text) (config : ChecksumConfig)
    (dir : Directory) where
  abbrev pub found : Stored → Option Text
  found row = find_migration_file dir row.version row.name

  abbrev pub renew_by : Option Text → Stored → Stored
  renew_by none row = row
  renew_by (some checksum) row = record row { checksum = some checksum }

  abbrev sum_here : Stored → Option Text
  sum_here row = sum digest config dir row

  -- A row with the checksum of its file, if the file is there.
  abbrev pub renew : Stored → Stored
  renew row = renew_by (sum digest config dir row) row

  -- What is raised where the checksum of a file cannot be computed.
  abbrev pub IsFileError : Failure → Type 0
  IsFileError e =
      (file : Text) × (message : Text) × (digest config.algorithm file ≡ err message)
      × (e ≡ file_error message)

  abbrev pub has_file : Option Text → Bool
  has_file none = false
  has_file (some file) = true

  -- How many rows have a file.
  abbrev pub with_file : List Stored → ℕ
  with_file rows = length (filterb (λ row. has_file (found row)) rows)

  abbrev step : Stored → Option Text → List Stored → List Stored
  step row none rows = rows
  step row (some checksum) rows = map (with_checksum row.version checksum) rows

  -- What the statements for the rows do to the rows of a table.
  abbrev all_steps : List Stored → List Stored → List Stored
  all_steps [] rows = rows
  all_steps (row ∷ others) rows = all_steps others (step row (sum_here row) rows)

  abbrev versions : List Stored → List Text
  versions rows = map (λ row. row.version) rows

  with_checksum_absent :
      (version checksum : Text) (rows : List Stored)
      → contains (versions rows) version ≡ false
      → map (with_checksum version checksum) rows ≡ rows
  with_checksum_absent version checksum [] h = refl
  with_checksum_absent version checksum (row ∷ rows) h =
      let rest = with_checksum_absent version checksum rows (ground (arith, h)) in
      let other : (row.version == version) ≡ false =
        ground (arith, h, text_eq_iff row.version version, text_eq_iff version row.version) in
      rw (other, rest) refl

  all_steps_past :
      (others : List Stored) (row : Stored) (rows : List Stored)
      → contains (versions others) row.version ≡ false
      → all_steps others (row ∷ rows) ≡ row ∷ all_steps others rows
  all_steps_past [] row rows h = refl
  all_steps_past (other ∷ others) row rows h = elim (Option-cases (sum_here other)) [
    | inl gone ↦ rw gone (all_steps_past others row rows (ground (arith, h)))
    | inr there ↦
        let other_row : (row.version == other.version) ≡ false = ground (
          arith,
          h,
          text_eq_iff row.version other.version,
          text_eq_iff other.version row.version,
        ) in
        rw (there.1, other_row)
          (all_steps_past others row (map (with_checksum other.version there.0) rows)
            (ground (arith, h)))
  ]

  all_steps_lem :
      (rows : List Stored) → IsDistinct (versions rows) → all_steps rows rows ≡ map renew rows
  all_steps_lem [] h = refl
  all_steps_lem (row ∷ rows) h = elim (Option-cases (sum_here row)) [
    | inl gone ↦
        rw gone (all_steps_past rows row rows h.0 ∙ ap (λ l. row ∷ l) (all_steps_lem rows h.1))
    | inr there ↦
        let checksum = there.0 in
        let same : (row.version == row.version) ≡ true =
          (text_eq_iff row.version row.version).1 refl in
        rw (there.1, same, with_checksum_absent row.version checksum rows h.0)
          (all_steps_past rows (record row { checksum = some checksum }) rows h.0
            ∙ ap (λ l. record row { checksum = some checksum } ∷ l) (all_steps_lem rows h.1))
  ]

  all_renewed : (rows : List Stored) → filterb (is_modified digest config dir) (map renew rows) ≡ []
  all_renewed [] = refl
  all_renewed (row ∷ rows) = elim (Option-cases (sum_here row)) [
    | inl gone ↦ rw (gone, gone) (all_renewed rows)
    | inr there ↦
        let c = there.0 in
        let same : (c == c) ≡ true = (text_eq_iff c c).1 refl in
        rw (there.1, there.1, same) (all_renewed rows)
  ]

  Unread-file : (e : Failure) (rows : List Stored) → Unread digest config dir e rows → IsFileError e
  Unread-file e [] x = elim x [ ]
  Unread-file e (row ∷ rows) (inl (file, message, found, raised, same)) =
      (file, message, raised, same)
  Unread-file e (row ∷ rows) (inr later) = Unread-file e rows later

  counted :
      (row : Stored) (rows : List Stored)
      → (if has_file (found row) then 1 else 0) + with_file rows ≡ with_file (row ∷ rows)
  counted row rows = elim (Bool-cases (has_file (found row))) [
    | inl h ↦ rw h (omega arith)
    | inr h ↦ rw h (omega arith)
  ]

  module _ (store : Store) (laws : IsStore store) where
    abbrev Holds : List Stored → store.Conn → Type 0
    Holds rows c = store.rows c ≡ rows

    -- An exception of the database, or one of computing the checksum of a file.
    abbrev pub Failed : Failure → store.Conn → Type 0
    Failed e _ = IsDatabaseError e ⊎ IsFileError e

    updated :
        (row : Stored) (file : Option Text) (rows : List Stored)
        → Triple
            (Holds rows)
            (update_found digest config dir store row.version file)
            (λ n c.
              (n ≡ (if has_file file then 1 else 0))
              × (store.rows c ≡ step row (sum_of digest config dir file) rows))
            Failed
    unfolding update_found update_checksum
    updated row none rows = triple-pure 0 λ c p. (refl, p)
    updated row (some file) rows =
        triple-bind _ _
          (triple-weaken (λ _ p. p) (λ _ _ p. (p.1, p.0)) (λ _ _ u. inr (file, u.0.0, u.0.1, u.0.2))
            (computed_step digest config dir store laws rows file))
          λ checksum. triple_assume (Holds rows) (digest config.algorithm file ≡ ok checksum) λ e.
            triple-bind _ _
              (triple-bind _ _
                (triple-weaken (λ _ p. p) (λ _ _ p. p) (λ _ _ u. inl u)
                  (triple_update store laws rows row.version checksum))
                λ _.
                  triple-weaken (λ _ p. p) (λ _ _ p. p) (λ _ _ u. inl u)
                    (triple_commit store laws (map (with_checksum row.version checksum) rows)))
              λ _. triple-pure 1 λ c p. (refl, rw e p)

    updated_each :
        (others rows : List Stored)
        → Triple
            (Holds rows)
            (update_each digest config dir store others)
            (λ n c. (n ≡ with_file others) × (store.rows c ≡ all_steps others rows))
            Failed
    unfolding update_each
    updated_each [] rows = triple-pure 0 λ c p. (refl, p)
    updated_each (row ∷ others) rows =
        let after = step row (sum_here row) rows in
        triple-bind _ _ (updated row (found row) rows) λ this.
          triple-weaken
            {P' = λ c. (this ≡ (if has_file (found row) then 1 else 0)) × (store.rows c ≡ after)}
            (λ _ h. (h.1, h.0)) (λ _ _ h. h) (λ _ _ h. h)
            (triple_assume (λ c. store.rows c ≡ after)
              (this ≡ (if has_file (found row) then 1 else 0))
              λ e. triple-bind _ _ (updated_each others after) λ rest.
                triple-pure (this + rest)
                  λ c h. (ap₂ (λ a b. a + b) e h.0 ∙ counted row others, h.1))

    updated_all :
        (rows : List Stored)
        → IsDistinct (versions rows)
        → Triple
            (Holds rows)
            (update_all_checksums digest config dir store)
            (λ n c. (n ≡ with_file rows) × (store.rows c ≡ map renew rows))
            Failed
    unfolding update_all_checksums
    updated_all rows h =
        triple-bind _ _
          (triple-weaken (λ _ p. p) (λ _ _ p. p) (λ _ _ p. inl p.0) (triple_select store laws rows))
          λ stored.
            triple-weaken (λ _ p. (p.1, p.0)) (λ _ _ p. p) (λ _ _ p. p)
              (triple_assume (Holds rows) (stored ≡ rows) λ e. rw e (
                triple-weaken (λ _ p. p) (λ _ _ p. (p.0, p.1 ∙ all_steps_lem rows h)) (λ _ _ p. p)
                  (updated_each rows rows)))

    then_verified :
        (rows : List Stored)
        → Triple
            (Holds (map renew rows))
            (verify_all digest config dir store)
            (λ ms c. (ms ≡ []) × (store.rows c ≡ map renew rows))
            Failed
    then_verified rows = record {
      at = λ c p.
          let none_left = ap (filterb (is_modified digest config dir)) p ∙ all_renewed rows in
          ends-Post (λ ms c'. (ms ≡ []) × (store.rows c' ≡ map renew rows)) Failed
            (verify_all_lem digest config dir store laws c)
            (λ ms _ r. (no_rows _ ms config.enabled (store.rows c) none_left r.0, r.3 ∙ p))
            (λ e _ r. elim r.0 [
              | inl database ↦ inl database
              | inr (inl unread) ↦ inr (Unread-file e (store.rows c) unread)
              | inr (inr m) ↦ absurd (m.4 (no_rows _ m.0 true (store.rows c) none_left m.3))
            ]);
    }

  -- Updating, then verifying.
  abbrev pub update_then_verify :
      (store : Store) → Exec store.Conn Failure (ℕ × List ChecksumMismatch)
  update_then_verify store = do
    n ← update_all_checksums digest config dir store
    ms ← verify_all digest config dir store
    pure (n, ms)

-- After all checksums were updated there is nothing to find: updating answers how many rows have a
-- file, verifying after it returns the empty list in each of its modes, and the table has the old
-- rows, each with the checksum of its file where the file is there. The versions of the table are
-- distinct. The only exceptions are those of the database, and those of computing the checksum of a
-- file that cannot be read, or by an unknown algorithm.
pub update_all_checksums-verify_all :
    (digest : Text → Text → Outcome Text Text) (config : ChecksumConfig) (dir : Directory)
    (store : Store)
    → IsStore store
    → (c : store.Conn) → IsDistinct (map (λ row. row.version) (store.rows c))
    → Ends
        (update_then_verify digest config dir store c)
        (λ r c'.
          (r.0 ≡ with_file digest config dir (store.rows c))
          × (r.1 ≡ [])
          × (store.rows c' ≡ map (renew digest config dir) (store.rows c)))
        (λ e _. IsDatabaseError e ⊎ IsFileError digest config dir e)
update_all_checksums-verify_all digest config dir store laws c h = record { post = go.at c refl }
  where
    go :
        Triple
          (λ c'. store.rows c' ≡ store.rows c)
          (update_then_verify digest config dir store)
          (λ r c'.
            (r.0 ≡ with_file digest config dir (store.rows c))
            × (r.1 ≡ [])
            × (store.rows c' ≡ map (renew digest config dir) (store.rows c)))
          (λ e _. IsDatabaseError e ⊎ IsFileError digest config dir e)
    go = triple-bind _ _ (updated_all digest config dir store laws (store.rows c) h) λ n.
        triple-weaken (λ _ p. (p.1, p.0)) (λ _ _ p. p) (λ _ _ p. p)
          (triple_assume _ (n ≡ with_file digest config dir (store.rows c)) λ e.
            triple-bind _ _ (then_verified digest config dir store laws (store.rows c))
              λ ms. triple-pure (n, ms) λ _ p. (e, p.0, p.1))
