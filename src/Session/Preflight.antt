-- ===== src/Session/Preflight.antt =====
-- session.py: `status` and `preflight`, and preflight.py: `run_preflight`. The analysis of the SQL in a
-- file (migration_analyzer.py) is a parameter.
use confiture.Base.{
  Bool, true, false, not, Option, none, some, List, [], ◌∷◌, ◌++◌, map, if◌then◌else◌, filterb,
  contains, nat_eq, list_eq, null, allb, ◌==◌, nat_beq,
}
use confiture.Base.Text.{Text, codes, ends_with, drop_last, before, text_gt}
use confiture.Base.Exec.{Outcome, Exec, pure, ◌>>=◌, relabel}
use confiture.Base.Sort.{sort}
use confiture.Postgres.{Raised, Connection}
use confiture.Migrator.{Migrator, on}
use confiture.Migrator.Tracking.{Catalog, found}
use confiture.Discovery.{
  Directory, Groups, up_sql, down_sql, underscore, is_python_migration, is_sql_migration,
  version_from_migration_filename, find_duplicate_migration_versions,
}
use confiture.Checksum.{warn, ChecksumConfig, ChecksumMismatch, Failure, Stored, Store, verify_all}
use confiture.Session.{
  SessionError, checksum_failure, Call, engine_call, outside, exists_in, or_else,
}

-- `MigrationInfo`; `is_applied` says whether the status is "applied" or "pending".
pub record MigrationInfo : Type 0 where
  pub version : Text
  pub name : Text
  pub is_applied : Bool
  pub applied_at : Option Text

-- `StatusResult`, without the name of the table and the counts of the summary.
pub record StatusResult : Type 0 where
  pub migrations : List MigrationInfo
  pub tracking_table_exists : Bool

-- `MigrationPreflightInfo`
pub record MigrationPreflightInfo : Type 0 where
  pub version : Text
  pub name : Text
  pub has_down : Bool
  pub non_transactional_statements : List Text
  pub filename : Text

-- `PreflightResult`
pub record PreflightResult : Type 0 where
  pub migrations : List MigrationPreflightInfo
  pub duplicate_versions : Groups
  pub checksum_mismatches : List ChecksumMismatch
  pub checksum_verified : Bool

-- `StatusResult.pending`
abbrev pub pending_of : List MigrationInfo → List Text
pending_of infos = map (λ m. m.version) (filterb (λ m. not m.is_applied) infos)

-- `all_reversible` and `irreversible`
abbrev pub all_reversible : PreflightResult → Bool
all_reversible r = allb (λ m. m.has_down) r.migrations

abbrev pub irreversible_versions : PreflightResult → List Text
irreversible_versions r = map (λ m. m.version) (filterb (λ m. not m.has_down) r.migrations)

-- What `preflight` needs of the connection and the files, besides what the engine needs.
pub record Checks (pg : Connection) : Type 0 where
  -- the versions with the times that `fromisoformat` reads
  pub select_timestamps : Exec pg.Conn Raised (List (Text × Option Text))
  pub checksums : pg.Conn → List Stored
  pub select_checksums : Exec pg.Conn Failure (List Stored)
  pub update_checksum : (version checksum : Text) → Exec pg.Conn Failure Unit
  pub commit : Exec pg.Conn Failure Unit
  -- the checksum of a file, by its algorithm, and the statements that cannot run in a transaction
  pub digest : (algorithm file : Text) → Outcome Text Text
  pub analyze : (file : Text) → List Text

-- `mf.stem`, of a name that ends in `.py` or `.sql`.
abbrev pub stem : Text → Text
stem f =
    if ends_with f (codes ".sql")
    then drop_last 4 f
    else if f == codes ".py"
    then f
    else drop_last 3 f

abbrev pub base_name : Text → Text
base_name f = if ends_with (stem f) (codes ".up") then drop_last 3 (stem f) else stem f

-- What stands after the first underscore.
abbrev pub after_underscore : Text → Option Text
after_underscore [] = none
after_underscore (c ∷ s) =
    let rest = after_underscore s in if nat_beq c underscore then some s else rest

-- `parts[1] if len(parts) > 1 else base_name`
abbrev pub name_in : Text → Text
name_in base = elim (after_underscore base) [ none ↦ base | some name ↦ name ]

-- `applied_at_by_version.get(version)`: of the rows of a version the last one counts.
unfoldable pub applied_at : List (Text × Option Text) → Text → Option (Option Text)
applied_at [] version = none
applied_at ((v, at) ∷ rows) version =
    or_else (applied_at rows version) (if v == version then some at else none)

abbrev pub flat : Option (Option Text) → Option Text
flat none = none
flat (some at) = at

abbrev pub info : List Text → List (Text × Option Text) → Text → MigrationInfo
info applied times f =
    let version = before underscore (base_name f) in
    let is_applied = contains applied version in
    record {
      version = version;
      name = name_in (base_name f);
      is_applied = is_applied;
      applied_at = if is_applied then flat (applied_at times version) else none;
    }

-- `key=lambda f: f.name.split("_")[0]`
abbrev pub later_prefix : Text → Text → Bool
later_prefix f g = text_gt (before underscore f) (before underscore g)

unfoldable pub status_files : List Text → List Text
status_files names =
    sort later_prefix
      (filterb (λ f. ends_with f (codes ".py")) names ++ filterb (λ f. ends_with f up_sql) names)

-- `versions is not None and version not in versions`, the other way round
abbrev pub asked_for : Option (List Text) → Text → Bool
asked_for none version = true
asked_for (some versions) version = contains versions version

module _ (dir : Directory) (analyze : Text → List Text) where
  -- An `.up.sql` file.
  abbrev pub sql_info : Text → MigrationPreflightInfo
  sql_info f = record {
    version = version_from_migration_filename f;
    name = name_in (drop_last 7 f);
    has_down = exists_in dir (drop_last 7 f ++ down_sql);
    non_transactional_statements = analyze f;
    filename = f;
  }

  abbrev pub py_info : Text → MigrationPreflightInfo
  py_info f = record {
    version = version_from_migration_filename f;
    name = name_in (stem f);
    has_down = true;
    non_transactional_statements = [];
    filename = f;
  }

  abbrev pub chosen : Option (List Text) → List Text → List Text
  chosen versions files =
      filterb (λ f. asked_for versions (version_from_migration_filename f)) files

  abbrev pub infos_in : List Text → Option (List Text) → List MigrationPreflightInfo
  infos_in names versions =
      map sql_info (chosen versions (sort text_gt (filterb is_sql_migration names)))
      ++ map py_info (chosen versions (sort text_gt (filterb is_python_migration names)))

unfoldable pub run_preflight : Directory → (Text → List Text) → Option (List Text) → PreflightResult
run_preflight none analyze versions = record {
  migrations = [];
  duplicate_versions = [];
  checksum_mismatches = [];
  checksum_verified = false;
}
run_preflight (some names) analyze versions = record {
  migrations = infos_in (some names) analyze names versions;
  duplicate_versions = find_duplicate_migration_versions (some names);
  checksum_mismatches = [];
  checksum_verified = false;
}

-- `status.pending if status.pending else None`
abbrev pub versions_to_check : List Text → Option (List Text)
versions_to_check [] = none
versions_to_check (v ∷ vs) = some (v ∷ vs)

module _ {pg : Connection} (catalog : Catalog pg) (checks : Checks pg) where
  abbrev pub checksum_store : Store
  checksum_store = record {
    Conn = pg.Conn;
    rows = checks.checksums;
    select_rows = checks.select_checksums;
    update_row = checks.update_checksum;
    commit = checks.commit;
  }

  -- What the tracking table says, if it is there.
  unfoldable pub applied_rows :
      Bool → Exec (Migrator pg) Raised (List Text × List (Text × Option Text))
  applied_rows exists =
      if exists
      then (do
        versions ← on pg.select_versions
        times ← on checks.select_timestamps
        pure (versions, times))
      else pure ([], [])

  unfoldable pub status : Directory → Exec (Migrator pg) Raised StatusResult
  unfolding status_files
  status none = pure (record { migrations = []; tracking_table_exists = false })
  status (some names) = do
    row ← on catalog.table_exists
    if null (status_files names)
        then pure (record { migrations = []; tracking_table_exists = found row })
        else do
          rows ← applied_rows (found row)
          pure (record {
            migrations = map (info rows.0 rows.1) (status_files names);
            tracking_table_exists = found row;
          })

  -- A call of the verifier.
  abbrev pub verifier_call : {A : Type 0} → Exec pg.Conn Failure A → Exec (Call pg) SessionError A
  verifier_call m s =
      let r = m s.engine.conn in
      (relabel checksum_failure r.0, record s { engine = record s.engine { conn = r.1 } })

  abbrev pub warning_only : ChecksumConfig
  warning_only = record { enabled = true; on_mismatch = warn; algorithm = codes "sha256" }

  -- `preflight` without versions.
  unfoldable pub preflight : Directory → Exec (Call pg) SessionError PreflightResult
  preflight dir = do
    st ← outside (engine_call (status dir))
    let result = run_preflight dir checks.analyze (versions_to_check (pending_of st.migrations))
    mismatches ← verifier_call (verify_all checks.digest warning_only dir checksum_store)
    pure (record result { checksum_mismatches = mismatches; checksum_verified = true })
