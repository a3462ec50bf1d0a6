-- ===== src/Session/Samples.antt =====
-- A session on the small server, with three migrations.
use confiture.Base.{
  ◌≡◌, refl, ap, subst, true, false, none, some, List, [], ◌∷◌, IsDistinct, nat_eq, list_eq,
}
use confiture.Base.Text.{Text, codes}
use confiture.Base.Exec.{Outcome, ok, err}
use confiture.Postgres.{Raised, idle}
use confiture.Postgres.Sample.{sample}
use confiture.Locking.{LockConfig, blocking, Digest}
use confiture.Migrator.{Reading, Migration}
use confiture.Migrator.Tracking.{Catalog, IsCatalog}
use confiture.Migrator.Prefix.{IsTame}
use confiture.Discovery.{Directory, version_from_migration_filename}
use confiture.Session.{Call, new_locals, LockStatements}
use confiture.Session.Laws.{IsLock}
use confiture.Session.Preflight.{Checks}
use confiture.Session.Gate.{IsChecks}
use confiture.Session.Sequence.{IsReverted}

abbrev pub migration_of : Text → Migration sample
migration_of file = record {
  version = version_from_migration_filename file;
  name = file;
  transactional = true;
  requires_superuser = false;
  up = λ s. (ok tt, s);
  down = λ s. (ok tt, s);
  up_preconditions = [];
  down_preconditions = [];
}

abbrev pub load : Text → Outcome Raised (Migration sample)
load file = ok (migration_of file)

abbrev pub read : Text → Reading
read file = record { timestamp = codes "20260101_000000"; elapsed_ms = 5; checksum = ok none }

abbrev pub unwrap : Text → Outcome Raised (Migration sample) → Migration sample
unwrap file (ok m) = m
unwrap file (err e) = migration_of file

pub load-IsTame : (file : Text) (m : Migration sample) → load file ≡ ok m → IsTame sample m
load-IsTame file m e = subst (IsTame sample) (ap (unwrap file) e) (record {
  transactional = refl;
  stays = record {
    inside = λ c. record { post = (record { same_committed = refl; same_saved = refl }, refl) };
  };
  checks = tt;
})

pub load-IsReverted :
    (file : Text) (m : Migration sample) → load file ≡ ok m → IsReverted sample file m
load-IsReverted file m e = subst (IsReverted sample file) (ap (unwrap file) e) (record {
  named = refl;
  undoable = record {
    transactional = refl;
    stays = record { inside = λ c. record { post = (refl, refl) } };
    checks = tt;
  };
})

abbrev pub catalog : Catalog sample
catalog = record { table_exists = λ s. (ok (some true), s); execute = λ ddl s. (ok tt, s) }

pub catalog-IsCatalog : IsCatalog sample catalog
catalog-IsCatalog = record {
  exists_law = λ c. record {
    post = (λ name. record { same_committed = refl; same_saved = refl }, refl, tt);
  };
  execute_law = λ ddl c. record { post = (refl, refl) };
}

abbrev pub lock : LockStatements sample
lock = record {
  held = λ s id. 0;
  aborted = λ s. false;
  current_database = λ s. (ok (some (codes "app")), s);
  set_statement_timeout = λ ms s. (ok tt, s);
  advisory_lock = λ id s. (ok tt, s);
  try_advisory_lock = λ id s. (ok (some true), s);
  advisory_unlock = λ id s. (ok (some true), s);
  write_holder = λ id s. (ok tt, s);
  delete_holder = λ id s. (ok tt, s);
  read_holder = λ id s. (ok tt, s);
}

pub lock-IsLock : IsLock sample lock
lock-IsLock = record {
  database_law = λ c. record { post = (refl, refl, λ name. refl) };
  timeout_law = λ ms c. record { post = (refl, refl, λ name. refl) };
  lock_law = λ id c. record { post = (refl, refl, λ name. refl) };
  try_law = λ id c. record { post = (refl, refl, λ name. refl) };
  unlock_law = λ id c. record { post = (refl, refl, λ name. refl) };
  read_law = λ id c. record { post = (refl, refl, λ name. refl) };
  write_law = λ id c. record { post = (refl, refl) };
  delete_law = λ id c. record { post = (refl, refl) };
}

abbrev pub digest : Digest
digest text = 1 ∷ 2 ∷ 3 ∷ 4 ∷ 5 ∷ []

abbrev pub config : LockConfig
config = record { enabled = true; timeout_ms = 30000; lock_id = none; mode = blocking }

abbrev pub checks : Checks sample
checks = record {
  select_timestamps = λ s. (ok [], s);
  checksums = λ s. [];
  select_checksums = λ s. (ok [], s);
  update_checksum = λ version checksum s. (ok tt, s);
  commit = λ s. (ok tt, s);
  digest = λ algorithm file. ok file;
  analyze = λ file. [];
}

pub checks-IsChecks : IsChecks sample checks
checks-IsChecks = record {
  timestamps_law = λ c. record {
    post = (λ name. record { same_committed = refl; same_saved = refl }, refl, tt);
  };
  checksums_law = λ c. record { post = (refl, refl, λ name. refl) };
}

-- `003` has no way down, and `004` no file.
abbrev pub dir : Directory
dir =
    some
      (codes "003_c.up.sql" ∷ codes "002_b.up.sql" ∷ codes "002_b.down.sql" ∷ codes "001_a.py" ∷ [])

abbrev pub with_table : List Text → Call sample
with_table vs = record {
  engine = record {
    conn = record { working = vs; published = vs; savepoints = []; status = idle; auto = false };
    calls = [];
  };
  locals = new_locals;
}

abbrev pub two : Call sample
two = with_table (codes "001" ∷ codes "002" ∷ [])

pub two-IsDistinct : IsDistinct (codes "001" ∷ codes "002" ∷ [])
two-IsDistinct = (refl, (refl, tt))
