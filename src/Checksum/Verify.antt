-- ===== src/Checksum/Verify.antt =====
-- Proofs about `verify_all`.
use confiture.Base.{
  ◌≡◌, refl, ap, ◌∙◌, inl, inr, ◌⊎◌, Bool, true, false, not, Option, none, some, List, [], ◌∷◌,
  ◌++◌, map, ap₂, subst, arith, ◌≢◌, ◌==◌, nat_eq, list_eq, if◌then◌else◌, null, filterb,
  Bool-cases, All,
}
use confiture.Base.Text.{Text, text_eq_iff}
use confiture.Base.Exec.{Outcome, ok, err, pure, ◌>>◌, ◌>>=◌, relabel}
use confiture.Base.Triple.{
  Post, Ends, Triple, triple-bind, triple-pure, triple-raise, triple_assume, triple-if,
  triple-weaken,
}
use confiture.Discovery.{Directory}
use confiture.Checksum.{
  ChecksumMismatchBehavior, fail, warn, ignore, ChecksumConfig, ChecksumMismatch, Failure,
  verification_error, file_error, computed, Stored, Store, differs, mismatch_of, mismatches_of,
  find_migration_file, handle_mismatches, verify_all,
}
use confiture.Checksum.Laws.{IsDatabaseError, IsStore, triple_select}

-- The row that a mismatch is about.
abbrev pub row_of : ChecksumMismatch → Stored
row_of m = record { version = m.version; name = m.name; checksum = m.expected }

rows_of-append :
    (ms ns : List ChecksumMismatch) → map row_of (ms ++ ns) ≡ map row_of ms ++ map row_of ns
rows_of-append [] ns = refl
rows_of-append (m ∷ ms) ns = ap (λ l. row_of m ∷ l) (rows_of-append ms ns)

-- Whether a file whose checksum is known has another one than the stored one.
abbrev pub is_changed : Option Text → Option Text → Bool
is_changed none stored = false
is_changed (some actual) none = true
is_changed (some actual) (some expected) = not (expected == actual)

abbrev pub sum_in : Outcome Text Text → Option Text
sum_in (ok actual) = some actual
sum_in (err message) = none

abbrev pub is_ok : Outcome Text Text → Bool
is_ok (ok actual) = true
is_ok (err message) = false

module _ (digest : Text → Text → Outcome Text Text) (config : ChecksumConfig)
    (dir : Directory) where
  -- The checksum of the file that was found, where it can be computed.
  abbrev pub sum_of : Option Text → Option Text
  sum_of none = none
  sum_of (some file) = sum_in (digest config.algorithm file)

  abbrev pub sum : Stored → Option Text
  sum row = sum_of (find_migration_file dir row.version row.name)

  abbrev pub is_modified : Stored → Bool
  is_modified row = is_changed (sum row) row.checksum

  abbrev pub can_read : Option Text → Bool
  can_read none = true
  can_read (some file) = is_ok (digest config.algorithm file)

  -- The file of a row is not there, or its checksum can be computed.
  abbrev pub is_read : Stored → Bool
  is_read row = can_read (find_migration_file dir row.version row.name)

  -- What is raised where the checksum of the file of a row cannot be computed.
  abbrev pub RowUnread : Failure → Stored → Type 0
  RowUnread e row =
      (file : Text) × (message : Text) × (find_migration_file dir row.version row.name ≡ some file)
      × (digest config.algorithm file ≡ err message)
      × (e ≡ file_error message)

  -- The same for some row.
  abbrev pub Unread : Failure → List Stored → Type 0
  Unread e [] = ⊥
  Unread e (row ∷ rows) = RowUnread e row ⊎ Unread e rows

  differs_lem :
      (stored : Option Text) (actual : Text)
      → differs stored actual ≡ is_changed (some actual) stored
  differs_lem none actual = refl
  differs_lem (some expected) actual =
      ground (arith, text_eq_iff expected actual, text_eq_iff actual expected)

  one-append :
      (b : Bool) (row : Stored) (rows : List Stored)
      → (if b then row ∷ [] else []) ++ rows ≡ (if b then row ∷ rows else rows)
  one-append true row rows = refl
  one-append false row rows = refl

  module _ (store : Store) (rows : List Stored) where
    -- The rows that are looked at.
    abbrev pub looked_at : List Stored
    looked_at = if config.enabled then rows else []

    -- What is returned.
    abbrev pub Returned : List ChecksumMismatch → store.Conn → Type 0
    Returned ms c =
        (map row_of ms ≡ filterb is_modified looked_at)
        × All (λ row. is_read row ≡ true) looked_at
        × ((config.on_mismatch ≢ fail) ⊎ (ms ≡ []))
        × (store.rows c ≡ rows)

    -- What is raised.
    abbrev pub Refused : Failure → store.Conn → Type 0
    Refused e c =
        (IsDatabaseError e
          ⊎ (Unread e rows
              ⊎ ((ms : List ChecksumMismatch) × (e ≡ verification_error ms)
                  × (config.on_mismatch ≡ fail)
                  × (map row_of ms ≡ filterb is_modified rows)
                  × (ms ≢ []))))
        × (store.rows c ≡ rows)

  module _ (store : Store) (laws : IsStore store) (rows : List Stored) where
    abbrev Result : List ChecksumMismatch → store.Conn → Type 0
    Result ms c = Returned store rows ms c

    abbrev Error : Failure → store.Conn → Type 0
    Error e c = Refused store rows e c

    pub computed_step :
        (file : Text)
        → Triple
            (λ c. store.rows c ≡ rows)
            (computed digest config dir store file)
            (λ actual c. (digest config.algorithm file ≡ ok actual) × (store.rows c ≡ rows))
            (λ e c.
              ((message : Text) × (digest config.algorithm file ≡ err message)
                × (e ≡ file_error message))
              × (store.rows c ≡ rows))
    computed_step file = record { at = λ c p. go (digest config.algorithm file) refl c p }
      where
        go :
            (r : Outcome Text Text)
            → digest config.algorithm file ≡ r
            → (c : store.Conn) → store.rows c ≡ rows
            → Post
                (λ actual c. (digest config.algorithm file ≡ ok actual) × (store.rows c ≡ rows))
                (λ e c.
                  ((message : Text) × (digest config.algorithm file ≡ err message)
                    × (e ≡ file_error message))
                  × (store.rows c ≡ rows))
                (relabel file_error r)
                c
        go (ok actual) e c p = (e, p)
        go (err message) e c p = ((message, e, refl), p)

    one_row :
        (row : Stored) (file actual : Text)
        → map row_of (
            if differs row.checksum actual
            then record {
              version = row.version;
              name = row.name;
              file_path = file;
              expected = row.checksum;
              actual = actual;
            }
              ∷ []
            else [])
          ≡ (if is_changed (some actual) row.checksum then row ∷ [] else [])
    one_row row file actual =
        rw (← differs_lem row.checksum actual) (elim (Bool-cases (differs row.checksum actual)) [
          | inl h ↦ rw h refl
          | inr h ↦ rw h refl
        ])

    mismatch_step :
        (row : Stored) (file : Option Text)
        → find_migration_file dir row.version row.name ≡ file
        → Triple
            (λ c. store.rows c ≡ rows)
            (mismatch_of digest config dir store row file)
            (λ ms c.
              ((map row_of ms ≡ (if is_changed (sum_of file) row.checksum then row ∷ [] else []))
                × (can_read file ≡ true))
              × (store.rows c ≡ rows))
            (λ e c. RowUnread e row × (store.rows c ≡ rows))
    unfolding mismatch_of
    mismatch_step row none h = triple-pure [] λ c p. ((refl, refl), p)
    mismatch_step row (some file) h =
        triple-bind _ _
          (triple-weaken (λ _ p. p) (λ _ _ p. (p.1, p.0))
            (λ _ _ u. ((file, u.0.0, h, u.0.1, u.0.2), u.1)) (computed_step file))
          λ actual.
            triple_assume (λ c. store.rows c ≡ rows) (digest config.algorithm file ≡ ok actual)
              λ e. triple-pure _ λ c p. ((rw e (one_row row file actual), ap is_ok e), p)

    mismatches_step :
        (others : List Stored)
        → Triple
            (λ c. store.rows c ≡ rows)
            (mismatches_of digest config dir store others)
            (λ ms c.
              ((map row_of ms ≡ filterb is_modified others)
                × All (λ row. is_read row ≡ true) others)
              × (store.rows c ≡ rows))
            (λ e c. Unread e others × (store.rows c ≡ rows))
    unfolding mismatches_of
    mismatches_step [] = triple-pure [] λ c p. ((refl, tt), p)
    mismatches_step (row ∷ others) =
        let file = find_migration_file dir row.version row.name in
        triple-bind _ _
          (triple-weaken (λ _ p. p) (λ _ _ h. (h.1, h.0)) (λ _ _ h. (inl h.0, h.1))
            (mismatch_step row file refl))
          λ first.
            triple_assume (λ c. store.rows c ≡ rows)
              ((map row_of first ≡ (if is_modified row then row ∷ [] else []))
                × (is_read row ≡ true))
              λ e.
                triple-bind _ _
                  (triple-weaken (λ _ p. p) (λ _ _ h. h) (λ _ _ h. (inr h.0, h.1))
                    (mismatches_step others))
                  λ rest. triple-pure (first ++ rest) λ c h. (
                    (
                      rows_of-append first rest
                          ∙ ap₂ (λ a b. a ++ b) e.0 h.0.0
                          ∙ one-append (is_modified row) row (filterb is_modified others),
                      (e.1, h.0.1),
                    ),
                    h.1,
                  )

    handled :
        (ms : List ChecksumMismatch) (behavior : ChecksumMismatchBehavior)
        → config.on_mismatch ≡ behavior
        → ms ≢ []
        → map row_of ms ≡ filterb is_modified rows
        → Triple
            (λ c. store.rows c ≡ rows)
            (handle_mismatches digest config dir store behavior ms)
            (λ _ c. (config.on_mismatch ≢ fail) × (store.rows c ≡ rows))
            Error
    unfolding handle_mismatches
    handled ms fail b some_found h =
        triple-raise (verification_error ms) λ c p. (inr (inr (ms, refl, b, h, some_found)), p)
    handled ms warn b some_found h = triple-pure tt λ c p. ((λ e. cc), p)
    handled ms ignore b some_found h = triple-pure tt λ c p. ((λ e. cc), p)

    -- What was found, where all rows are looked at.
    abbrev Found : List ChecksumMismatch → Type 0
    Found ms = (map row_of ms ≡ filterb is_modified rows) × All (λ row. is_read row ≡ true) rows

    checked :
        (ms : List ChecksumMismatch)
        → config.enabled ≡ true
        → Found ms
        → Triple
            (λ c. store.rows c ≡ rows)
            (do
              if null ms
                  then pure tt
                  else handle_mismatches digest config dir store config.on_mismatch ms
              pure ms)
            Result
            Error
    checked [] on h = triple-pure [] λ c p. (rw on h.0, rw on h.1, inr refl, p)
    checked (m ∷ ms) on h =
        triple-bind _ _ (handled (m ∷ ms) config.on_mismatch refl (λ e. cc) h.0)
          λ _. triple-pure (m ∷ ms) λ c p. (rw on h.0, rw on h.1, inl p.0, p.1)

    stored_checked :
        (stored : List Stored)
        → config.enabled ≡ true
        → stored ≡ rows
        → Triple
            (λ c. store.rows c ≡ rows)
            (if null stored then pure [] else do
              mismatches ← mismatches_of digest config dir store stored
              if null mismatches
                  then pure tt
                  else handle_mismatches digest config dir store config.on_mismatch mismatches
              pure mismatches)
            Result
            Error
    stored_checked [] on e = triple-pure [] λ c h. (rw (on, ← e) refl, rw (on, ← e) tt, inr refl, h)
    stored_checked (row ∷ others) on e =
        triple-bind _ _
          (triple-weaken (λ _ p. p) (λ _ _ h. (h.1, h.0))
            (λ x _ h. (inr (inl (subst (Unread x) e h.0)), h.1)) (mismatches_step (row ∷ others)))
          λ ms.
            triple_assume (λ c. store.rows c ≡ rows)
              ((map row_of ms ≡ filterb is_modified (row ∷ others))
                × All (λ row. is_read row ≡ true) (row ∷ others))
              λ found. checked ms on (
                subst
                  (λ l. (map row_of ms ≡ filterb is_modified l) × All (λ row. is_read row ≡ true) l)
                  e found)

    verified : Triple (λ c. store.rows c ≡ rows) (verify_all digest config dir store) Result Error
    unfolding verify_all
    verified =
        triple-if (not config.enabled) (pure []) _
          (λ off.
            triple-pure [] λ c p.
              let e = enabled_of config.enabled true off in (rw e refl, rw e tt, inr refl, p))
          (λ on.
            triple-bind _ _
              (triple-weaken (λ _ p. p) (λ _ _ h. (h.1, h.0)) (λ e c h. (inl h.0, h.1))
                (triple_select store laws rows))
              λ stored.
                triple_assume (λ c. store.rows c ≡ rows) (stored ≡ rows)
                  λ e. stored_checked stored (enabled_of config.enabled false on) e)
      where
        enabled_of : (b c : Bool) → not b ≡ c → b ≡ not c
        enabled_of true c h = ground arith
        enabled_of false c h = ground arith

-- What verifying finds and does, on every branch. It returns a mismatch for each row whose file is
-- there with another checksum, in the order of the rows, or none where verification is switched
-- off; then the checksum of each file that it looked at could be computed, and where mismatches are
-- to fail, the list is empty: they are raised, all of them together. Any other exception is one of
-- the database, or is raised by computing the checksum of the file of some row. The rows stay as they
-- were.
pub verify_all_lem :
    (digest : Text → Text → Outcome Text Text) (config : ChecksumConfig) (dir : Directory)
    (store : Store)
    → IsStore store
    → (c : store.Conn)
    → Ends
        (verify_all digest config dir store c)
        (Returned digest config dir store (store.rows c))
        (Refused digest config dir store (store.rows c))
verify_all_lem digest config dir store laws c = record {
  post = (verified digest config dir store laws (store.rows c)).at c refl;
}

pub no_rows :
    (p : Stored → Bool) (ms : List ChecksumMismatch) (b : Bool) (rows : List Stored)
    → filterb p rows ≡ []
    → map row_of ms ≡ filterb p (if b then rows else [])
    → ms ≡ []
no_rows p [] b rows e h = refl
no_rows p (m ∷ ms) true rows e h = cc
no_rows p (m ∷ ms) false rows e h = cc
