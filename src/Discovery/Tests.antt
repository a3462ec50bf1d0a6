-- ===== src/Discovery/Tests.antt =====
-- A directory with a shared version, an orphan and files that are no migrations.
use confiture.Base.{
  map, ◌≡◌, refl, true, false, not, ◌&&◌, some, List, [], ◌∷◌, if◌then◌else◌, ltb, length, contains,
  nat_eq, list_eq,
}
use confiture.Base.Text.{Text, codes, text_gt}
use confiture.Base.Sort.{IsSorted, sort}
use confiture.Discovery.{
  File, find_migration_files, all_migration_files, version_from_migration_filename,
  not_applied_files, find_duplicate_migration_versions, fix_orphaned_sql_files,
}
use confiture.Discovery.Versions.{version_roundtrip}
use confiture.Discovery.Files.{find_duplicate_migration_versions_lem, files_of, with_version}
use confiture.Discovery.Pending.{is_later, is_migration, pending_files_lem}

abbrev names : List Text
names =
    codes "003_c.py"
    ∷ codes "__init__.py"
    ∷ codes "001_a.up.sql"
    ∷ codes "001_a.down.sql"
    ∷ codes "001_z.up.sql"
    ∷ codes "002_b.sql"
    ∷ []

find_migration_files-names :
    find_migration_files (some names)
    ≡ codes "001_a.up.sql" ∷ codes "001_z.up.sql" ∷ codes "003_c.py" ∷ []
unfolding find_migration_files
find_migration_files-names = refl

-- The same names, each with some content.
abbrev files : List File
files = map (λ name. (name, codes "SELECT 1;")) names

fix_orphaned_sql_files-names :
    (fix_orphaned_sql_files (λ _. true) false (some files)).renamed
    ≡ (codes "002_b.sql", codes "002_b.up.sql") ∷ []
unfolding fix_orphaned_sql_files
fix_orphaned_sql_files-names = refl

version_roundtrip_example :
    (version_from_migration_filename (codes "001_a.up.sql") ≡ codes "001")
    × (version_from_migration_filename (codes "001_a.down.sql") ≡ codes "001")
    × (version_from_migration_filename (codes "001.up.sql") ≡ codes "001")
    × (version_from_migration_filename (codes "001.down.sql") ≡ codes "001")
version_roundtrip_example = version_roundtrip (codes "001") (codes "a") (refl, (refl, (refl, tt)))

pending_files_example :
    ((f : Text)
      → contains (not_applied_files (codes "001" ∷ []) (find_migration_files (some names))) f ≡ (
          (contains names f && is_migration f)
          && not (contains (codes "001" ∷ []) (version_from_migration_filename f))))
    × IsSorted is_later (not_applied_files (codes "001" ∷ []) (find_migration_files (some names)))
pending_files_example = pending_files_lem (codes "001" ∷ []) names

find_duplicate_example : files_of (codes "001") (find_duplicate_migration_versions (some names)) ≡ (
    if ltb 1 (length (with_version (codes "001") (all_migration_files names)))
    then sort text_gt (with_version (codes "001") (all_migration_files names))
    else [])
find_duplicate_example = find_duplicate_migration_versions_lem (codes "001") names
