-- ===== src/Checksum.antt =====
-- python/confiture/core/checksum.py: stored checksums against those of the files. The connection is a
-- parameter, and a directory is the list of its names.
pub mod Hashing
pub mod Laws
pub mod Verify
pub mod Skips
pub mod Update
pub mod Tests
use confiture.Base.{
  ℕ, suc, ◌+◌, Bool, true, false, not, ◌&&◌, ◌||◌, Option, none, some, List, [], ◌∷◌, ◌++◌,
  if◌then◌else◌, null, contains, ◌==◌, nat_eq, list_eq,
}
use confiture.Base.Text.{Text, codes, starts_with, ends_with}
use confiture.Base.Exec.{Outcome, ok, err, Exec, pure, raise, ◌>>=◌, ◌>>◌, relabel}
use confiture.Discovery.{Directory}

pub data ChecksumMismatchBehavior : Type 0 where
  fail warn ignore : ChecksumMismatchBehavior

pub record ChecksumConfig : Type 0 where
  pub enabled : Bool
  pub on_mismatch : ChecksumMismatchBehavior
  pub algorithm : Text

pub record ChecksumMismatch : Type 0 where
  pub version : Text
  pub name : Text
  pub file_path : Text
  pub expected : Option Text
  pub actual : Text

-- `ChecksumVerificationError`, what computing the checksum of a file raises, and what the connection
-- raises.
pub data Failure : Type 0 where
  verification_error : (mismatches : List ChecksumMismatch) → Failure
  file_error database_error : Text → Failure

-- A row of `SELECT version, name, checksum … ORDER BY version`. The version is unique in the table,
-- so the dictionary of the rows is their list.
pub record Stored : Type 0 where
  pub version : Text
  pub name : Text
  pub checksum : Option Text

-- The connection to a database, and what the tracking table holds behind it.
pub record Store : Type 1 where
  pub Conn : Type 0
  pub rows : Conn → List Stored
  pub select_rows : Exec Conn Failure (List Stored)
  pub update_row : (version checksum : Text) → Exec Conn Failure Unit
  pub commit : Exec Conn Failure Unit

-- `f"{version}_{name}.py"`
abbrev pub exact_name : Text → Text → Text
exact_name version name = version ++ (codes "_" ++ (name ++ codes ".py"))

-- What `glob(f"{version}_*.py")` takes.
unfoldable pub matches : Text → Text → Bool
matches version f = starts_with f (version ++ codes "_") && ends_with f (codes ".py")

unfoldable pub first_match : Text → List Text → Option Text
first_match version [] = none
first_match version (f ∷ names) = if matches version f then some f else first_match version names

-- `_find_migration_file`
unfoldable pub find_migration_file : Directory → Text → Text → Option Text
unfolding first_match
find_migration_file none version name = none
find_migration_file (some names) version name =
    if contains names (exact_name version name)
    then some (exact_name version name)
    else first_match version names

-- `expected_checksum is None or actual_checksum != expected_checksum`
abbrev pub differs : Option Text → Text → Bool
differs none actual = true
differs (some expected) actual = not (actual == expected)

abbrev pub agrees : Text → Outcome Text Text → Outcome Text Bool
agrees expected (ok actual) = ok (actual == expected)
agrees expected (err message) = err message

module _ (digest : Text → Text → Outcome Text Text) (config : ChecksumConfig)
    (dir : Directory) where
  -- `compute_checksum(file_path, self.config.algorithm)`; `digest` is the function of Hashing at the
  -- files that there are, or the message where a file cannot be read or the algorithm is unknown.
  abbrev pub checksum_of : Text → Outcome Text Text
  checksum_of file = digest config.algorithm file

  unfoldable pub verify_single : Text → Text → Outcome Text Bool
  verify_single file expected =
      if not config.enabled then ok true else agrees expected (checksum_of file)

  module _ (store : Store) where
    abbrev pub computed : Text → Exec store.Conn Failure Text
    computed file c = (relabel file_error (checksum_of file), c)

    -- The mismatch of a row with the file that was found, if there is one.
    unfoldable pub mismatch_of :
        Stored → Option Text → Exec store.Conn Failure (List ChecksumMismatch)
    mismatch_of row none = pure []
    mismatch_of row (some file) = do
      actual ← computed file
      pure (
          if differs row.checksum actual
          then record {
            version = row.version;
            name = row.name;
            file_path = file;
            expected = row.checksum;
            actual = actual;
          }
            ∷ []
          else [])

    unfoldable pub mismatches_of : List Stored → Exec store.Conn Failure (List ChecksumMismatch)
    unfolding mismatch_of
    mismatches_of [] = pure []
    mismatches_of (row ∷ rows) = do
      first ← mismatch_of row (find_migration_file dir row.version row.name)
      rest ← mismatches_of rows
      pure (first ++ rest)

    -- The message is logged, or raised with the error.
    unfoldable pub handle_mismatches :
        ChecksumMismatchBehavior → List ChecksumMismatch → Exec store.Conn Failure Unit
    handle_mismatches fail mismatches = raise (verification_error mismatches)
    handle_mismatches warn mismatches = pure tt
    handle_mismatches ignore mismatches = pure tt

    unfoldable pub verify_all : Exec store.Conn Failure (List ChecksumMismatch)
    verify_all = if not config.enabled then pure [] else do
      stored ← store.select_rows
      if null stored then pure [] else do
        mismatches ← mismatches_of stored
        if null mismatches then pure tt else handle_mismatches config.on_mismatch mismatches
        pure mismatches

    unfoldable pub update_checksum : Text → Text → Exec store.Conn Failure Unit
    update_checksum version new_checksum = store.update_row version new_checksum >> store.commit

    unfoldable pub update_found : Text → Option Text → Exec store.Conn Failure ℕ
    update_found version none = pure 0
    update_found version (some file) = do
      new_checksum ← computed file
      update_checksum version new_checksum
      pure 1

    unfoldable pub update_each : List Stored → Exec store.Conn Failure ℕ
    update_each [] = pure 0
    update_each (row ∷ rows) = do
      this ← update_found row.version (find_migration_file dir row.version row.name)
      rest ← update_each rows
      pure (this + rest)

    unfoldable pub update_all_checksums : Exec store.Conn Failure ℕ
    update_all_checksums = do stored ← store.select_rows; update_each stored
