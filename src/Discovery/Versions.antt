-- ===== src/Discovery/Versions.antt =====
-- The version in a file name.
use mathlib.Core.List.{reverse-append}
use confiture.Base.{◌≡◌, refl, false, arith, [], ◌∷◌, ◌++◌, nat_beq, All}
use confiture.Base.Text.{Text, before, ends_with, ends_with-append, drop_last-append, before-append}
use confiture.Discovery.{version_from_migration_filename, up_sql, down_sql, underscore}

-- A version has no underscore.
abbrev pub IsVersion : Text → Type 0
IsVersion version = All (λ c. nat_beq c underscore ≡ false) version

down-not_up : (s : Text) → ends_with (s ++ down_sql) up_sql ≡ false
down-not_up s = rw (reverse-append s down_sql)

before_free : (version : Text) → IsVersion version → before underscore version ≡ version
before_free [] h = refl
before_free (c ∷ version) h = ground (arith, before_free version h.1)

-- The version that a migration file was named by is read back from its name, be it the up file or
-- the down file, and with a name behind the version or without one.
pub version_roundtrip :
    (version name : Text)
    → IsVersion version
    → (version_from_migration_filename ((version ++ (underscore ∷ name)) ++ up_sql) ≡ version)
      × (version_from_migration_filename ((version ++ (underscore ∷ name)) ++ down_sql) ≡ version)
      × (version_from_migration_filename (version ++ up_sql) ≡ version)
      × (version_from_migration_filename (version ++ down_sql) ≡ version)
unfolding version_from_migration_filename
version_roundtrip version name h =
    let stem = version ++ (underscore ∷ name) in
    (
      rw (ends_with-append stem up_sql, drop_last-append stem up_sql)
          (before-append underscore version name h),
      rw (down-not_up stem, ends_with-append stem down_sql, drop_last-append stem down_sql)
          (before-append underscore version name h),
      rw (ends_with-append version up_sql, drop_last-append version up_sql) (before_free version h),
      rw (down-not_up version, ends_with-append version down_sql, drop_last-append version down_sql)
          (before_free version h),
    )
