-- ===== src/Migrator/Batch.antt =====
-- apply.py: `migrate_up_internal`, the batch under the lock, and discovery.py: `find_pending`.
use confiture.Base.{
  Bool, true, false, not, ◌&&◌, Option, none, some, List, [], ◌∷◌, if◌then◌else◌, ltb, length, null,
}
use confiture.Base.Text.{Text, text_gt}
use confiture.Base.Exec.{Outcome, Exec, pure, ◌>>=◌, ◌>>◌}
use confiture.Postgres.{Raised, Connection}
use confiture.Discovery.{Directory, find_migration_files, not_applied_files}
use confiture.Migrator.{Reading, Migration, Migrator, on}
use confiture.Migrator.Apply.{apply}

module _ {pg : Connection} where
  unfoldable pub find_pending : Directory → Exec (Migrator pg) Raised (List Text)
  find_pending dir = do
    applied ← on pg.select_versions
    pure (not_applied_files applied (find_migration_files dir))

  -- `load_migration_module` and `get_migration_class` run a user's file.
  module _ (load : Text → Outcome Raised (Migration pg)) (read : Text → Reading) where
    abbrev pub loaded : Text → Exec (Migrator pg) Raised (Migration pg)
    loaded file s = (load file, s)

    unfoldable pub load_all : List Text → Exec (Migrator pg) Raised Unit
    load_all [] = pure tt
    load_all (file ∷ files) = loaded file >> load_all files

    -- The warning itself changes nothing; loading the files may raise.
    unfoldable pub warn_mixed_transactional_modes : List Text → Exec (Migrator pg) Raised Unit
    unfolding load_all
    warn_mixed_transactional_modes files = if ltb 1 (length files) then load_all files else pure tt

    -- `target and migration.version > target`: an empty target is none.
    unfoldable pub past_target : Option Text → Text → Bool
    past_target none version = false
    past_target (some target) version = not (null target) && text_gt version target

    -- The loop; it returns the versions that it applied.
    unfoldable pub apply_each :
        Bool → Option Text → List Text → Exec (Migrator pg) Raised (List Text)
    apply_each force target [] = pure []
    apply_each force target (file ∷ files) = do
      m ← loaded file
      let rest = apply_each force target files
      if past_target target m.version then pure [] else do
        apply m (read file) force false true none
        versions ← rest
        pure (m.version ∷ versions)

    unfoldable pub migrate_up_internal :
        Bool → Directory → Option Text → Exec (Migrator pg) Raised (List Text)
    migrate_up_internal force dir target = do
      files ← if force then pure (find_migration_files dir) else find_pending dir
      warn_mixed_transactional_modes files
      apply_each force target files
