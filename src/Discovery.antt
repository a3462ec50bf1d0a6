-- ===== src/Discovery.antt =====
-- python/confiture/core/_migrator/discovery.py: migration files, told by their names. A directory is
-- the list of names that `glob` goes through, or `none` if it does not exist; where files are renamed,
-- it has their contents too.
pub mod Versions
pub mod Files
pub mod Pending
pub mod Orphans
pub mod Tests
use confiture.Base.{
  ℕ, Bool, true, false, not, ◌&&◌, ◌||◌, Option, none, some, List, [], ◌∷◌, ◌++◌, if◌then◌else◌,
  ltb, length, filterb, contains, map, ◌==◌, nat_eq, list_eq,
}
use confiture.Base.Text.{Text, codes, text_gt, starts_with, ends_with, drop_last, before}
use confiture.Base.Sort.{sort}

abbrev pub up_sql : Text
up_sql = codes ".up.sql"

abbrev pub down_sql : Text
down_sql = codes ".down.sql"

abbrev pub underscore : ℕ
underscore = b'_'

abbrev pub Directory : Type 0
Directory = Option (List Text)

unfoldable pub version_from_migration_filename : Text → Text
version_from_migration_filename filename = before underscore (
    if ends_with filename up_sql
    then drop_last 7 filename
    else if ends_with filename down_sql
    then drop_last 9 filename
    else filename)

-- `f.name != "__init__.py" and not f.name.startswith("_")`, for what `glob("*.py")` yields
unfoldable pub is_python_migration : Text → Bool
is_python_migration name =
    ends_with name (codes ".py")
    && (not (name == codes "__init__.py") && not (starts_with name (codes "_")))

unfoldable pub is_sql_migration : Text → Bool
is_sql_migration name = ends_with name up_sql

-- `py_files + sql_files`
unfoldable pub all_migration_files : List Text → List Text
unfolding is_python_migration is_sql_migration
all_migration_files names = filterb is_python_migration names ++ filterb is_sql_migration names

-- `key=lambda f: migrator._version_from_filename(f.name)`
unfoldable pub later_version : Text → Text → Bool
unfolding version_from_migration_filename
later_version f g = text_gt (version_from_migration_filename f) (version_from_migration_filename g)

unfoldable pub find_migration_files : Directory → List Text
unfolding all_migration_files later_version
find_migration_files none = []
find_migration_files (some names) = sort later_version (all_migration_files names)

-- A dictionary from version to files, in the order of insertion.
abbrev pub Groups : Type 0
Groups = List (Text × List Text)

-- `version_map.setdefault(version, []).append(f)`
add_file : Text → Text → Groups → Groups
add_file version f [] = (version, f ∷ []) ∷ []
add_file version f ((v, files) ∷ groups) =
    if v == version then (v, files ++ (f ∷ [])) ∷ groups else (v, files) ∷ add_file version f groups

unfoldable pub group_files : List Text → Groups → Groups
unfolding add_file version_from_migration_filename
group_files [] groups = groups
group_files (f ∷ files) groups =
    group_files files (add_file (version_from_migration_filename f) f groups)

-- The groups of more than one file, each sorted by name.
shared : Groups → Groups
shared [] = []
shared ((v, files) ∷ groups) =
    let rest = shared groups in
    if ltb 1 (length files) then (v, sort text_gt files) ∷ rest else rest

unfoldable pub find_duplicate_migration_versions : Directory → Groups
unfolding group_files shared all_migration_files
find_duplicate_migration_versions none = []
find_duplicate_migration_versions (some names) = shared (group_files (all_migration_files names) [])

-- A `.sql` file that is neither an up nor a down migration.
unfoldable pub is_orphan : Text → Bool
is_orphan name =
    ends_with name (codes ".sql") && not (ends_with name up_sql || ends_with name down_sql)

unfoldable pub find_orphaned_sql_files : Directory → List Text
unfolding is_orphan
find_orphaned_sql_files none = []
find_orphaned_sql_files (some names) = sort text_gt (filterb is_orphan names)

-- `f"{orphaned_file.stem}.up.sql"`, where the suffix is `.sql`
unfoldable pub repaired_name : Text → Text
repaired_name name = drop_last 4 name ++ up_sql

-- A file of the directory: its name and what is in it.
abbrev pub File : Type 0
File = Text × Text

abbrev pub name_of : File → Text
name_of f = f.0

-- `Path.rename`: a file that has the new name is replaced, without an error. The two names differ.
abbrev pub rename_to : Text → Text → File → File
rename_to old new f = if name_of f == old then (new, f.1) else f

abbrev pub rename : Text → Text → List File → List File
rename old new files = map (rename_to old new) (filterb (λ f. not (name_of f == new)) files)

-- The renames and the errors that `fix_orphaned_sql_files` reports, and the directory that it leaves.
pub record Fixed : Type 0 where
  pub files : List File
  pub renamed : List (Text × Text)
  pub errors : List Text

-- One turn of the loop; `can_rename` says whether the file system carries the rename out.
fix_one : (Text → Bool) → Bool → Text → Fixed → Fixed
unfolding repaired_name
fix_one can_rename dry_run old r =
    if dry_run
    then record r { renamed = r.renamed ++ ((old, repaired_name old) ∷ []) }
    else if contains (map name_of r.files) (repaired_name old)
    then record r { errors = r.errors ++ (old ∷ []) }
    else if can_rename old
    then record r {
      files = rename old (repaired_name old) r.files;
      renamed = r.renamed ++ ((old, repaired_name old) ∷ []);
    }
    else record r { errors = r.errors ++ (old ∷ []) }

fix_each : (Text → Bool) → Bool → List Text → Fixed → Fixed
unfolding fix_one
fix_each can_rename dry_run [] r = r
fix_each can_rename dry_run (old ∷ rest) r =
    fix_each can_rename dry_run rest (fix_one can_rename dry_run old r)

unfoldable pub fix_orphaned_sql_files : (Text → Bool) → Bool → Option (List File) → Fixed
unfolding fix_each find_orphaned_sql_files
fix_orphaned_sql_files can_rename dry_run none = record { files = []; renamed = []; errors = [] }
fix_orphaned_sql_files can_rename dry_run (some files) =
    fix_each can_rename dry_run (find_orphaned_sql_files (some (map name_of files)))
      (record { files = files; renamed = []; errors = [] })

-- The files whose version is not in the tracking table.
unfoldable pub not_applied_files : List Text → List Text → List Text
unfolding version_from_migration_filename
not_applied_files applied files =
    filterb (λ f. not (contains applied (version_from_migration_filename f))) files
