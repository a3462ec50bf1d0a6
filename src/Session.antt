-- ===== src/Session.antt =====
-- python/confiture/core/_migrator/session.py: MigratorSession, the engine under the lock, on a
-- session that was entered. One connection serves the engine, the lock and the tracking table.
pub mod Down
pub mod Up
pub mod Preflight
mod Gate
pub mod Gated
pub mod FileNames
pub mod Laws
mod Rules
pub mod Sequence
pub mod Stack
pub mod Last
pub mod UpLoop
pub mod UpPushes
mod UpGuarded
pub mod UpGate
pub mod Runs
pub mod Tests
mod Samples
pub mod DownTo
mod CarryOut
pub mod DownSteps
mod Statements
mod Locked
use confiture.Base.{
  ℕ, zero, suc, ◌+◌, ◌-◌, Bool, true, false, not, Option, none, some, List, [], ◌∷◌, ◌++◌, map,
  if◌then◌else◌, filterb, contains, nat_eq, list_eq, length, ◌==◌, drop, take,
}
use confiture.Base.Text.{Text, codes, ends_with, starts_with}
use confiture.Base.Exec.{Outcome, ok, err, Exec, pure, ◌>>=◌, ◌>>◌, relabel}
use confiture.Postgres.{Raised, Connection}
use confiture.Locking.{Problem, engine_error, LockConfig, Session, Lock, Digest, acquire}
use confiture.Locking as Locking
use confiture.Migrator.{Migration, Migrator}
use confiture.Checksum.{Failure}
use confiture.Discovery.{
  Directory, find_migration_files, version_from_migration_filename, up_sql, down_sql,
}

-- The exceptions of a session: its own, and those of the engine and the lock.
pub data SessionError : Type 0 where
  configuration_error : SessionError
  rollback_600 : (missing : List Text) → SessionError
  checksum_failure : Failure → SessionError
  other : Problem → SessionError

-- `MigrationApplied`, without the number of rows, which is not set
pub record MigrationApplied : Type 0 where
  pub version : Text
  pub name : Text
  pub execution_time_ms : ℕ

-- What `up` keeps in local variables while it runs.
pub record Locals : Type 0 where
  pub migrations_applied : List MigrationApplied
  pub skipped_superuser : List Text
  pub pending_after_halt : List Text
  pub halted : Bool
  pub failed : Option Problem

abbrev pub new_locals : Locals
new_locals = record {
  migrations_applied = [];
  skipped_superuser = [];
  pending_after_halt = [];
  halted = false;
  failed = none;
}

-- A call of a session: the engine with its connection, and the local variables.
pub record Call (pg : Connection) : Type 0 where
  pub engine : Migrator pg
  pub locals : Locals

-- The lock's statements, on the engine's connection.
pub record LockStatements (pg : Connection) : Type 0 where
  pub held : pg.Conn → ℕ → ℕ
  pub aborted : pg.Conn → Bool
  pub current_database : Exec pg.Conn Problem (Option Text)
  pub set_statement_timeout : ℕ → Exec pg.Conn Problem Unit
  pub advisory_lock : ℕ → Exec pg.Conn Problem Unit
  pub try_advisory_lock : ℕ → Exec pg.Conn Problem (Option Bool)
  pub advisory_unlock : ℕ → Exec pg.Conn Problem (Option Bool)
  pub write_holder : ℕ → Exec pg.Conn Problem Unit
  pub delete_holder : ℕ → Exec pg.Conn Problem Unit
  pub read_holder : ℕ → Exec pg.Conn Problem Unit

-- An exception of the engine, or of its connection, as one of the block under the lock.
abbrev pub of_engine : {S A : Type 0} → Exec S Raised A → Exec S Problem A
of_engine m s = let r = m s in (relabel engine_error r.0, r.1)

module _ {pg : Connection} where
  abbrev pub statement : {A : Type 0} → Exec pg.Conn Problem A → Exec (Call pg) Problem A
  statement m s =
      let r = m s.engine.conn in (r.0, record s { engine = record s.engine { conn = r.1 } })

  -- A call of the engine.
  abbrev pub engine_call : {A : Type 0} → Exec (Migrator pg) Raised A → Exec (Call pg) Problem A
  engine_call m s = let r = m s.engine in (relabel engine_error r.0, record s { engine = r.1 })

  -- The same, where no lock is around it.
  abbrev pub outside : {A : Type 0} → Exec (Call pg) Problem A → Exec (Call pg) SessionError A
  outside m s = let r = m s in (relabel other r.0, r.1)

  -- What `MigrationLock(self._conn, …)` sees: the connection, and no more of the call.
  abbrev pub lock_session : LockStatements pg → Session
  lock_session lock = record {
    Conn = Call pg;
    held = λ s. lock.held s.engine.conn;
    aborted = λ s. lock.aborted s.engine.conn;
    current_database = statement lock.current_database;
    set_statement_timeout = λ ms. statement (lock.set_statement_timeout ms);
    advisory_lock = λ id. statement (lock.advisory_lock id);
    try_advisory_lock = λ id. statement (lock.try_advisory_lock id);
    advisory_unlock = λ id. statement (lock.advisory_unlock id);
    write_holder = λ id. statement (lock.write_holder id);
    delete_holder = λ id. statement (lock.delete_holder id);
    read_holder = λ id. statement (lock.read_holder id);
    commit = statement (of_engine pg.commit);
    rollback = statement (of_engine pg.rollback);
  }

  module _ (lock : LockStatements pg) (digest : Digest) (config : LockConfig) where
    abbrev pub new_lock : Call pg → Lock (lock_session lock)
    new_lock s = record { conn = s; lock_held = false; lock_id = none }

    -- `lock = MigrationLock(self._conn, lock_config)`, then `with lock.acquire(): body`
    unfoldable pub locked : {A : Type 0} → Exec (Call pg) Problem A → Exec (Call pg) Problem A
    locked body s =
        let r =
          acquire {session = lock_session lock} digest config (Locking.on body) (new_lock s) in
        (r.0, r.1.conn)

-- `s.replace(old, new)`: `skip` counts what is left of an occurrence that was replaced.
unfoldable pub replace_from : (old new : Text) → ℕ → Text → Text
replace_from old new skip [] = []
replace_from old new (suc skip) (c ∷ s) = replace_from old new skip s
replace_from old new zero (c ∷ s) = elim (starts_with (c ∷ s) old) [
  | true ↦ new ++ replace_from old new (length old - 1) s
  | false ↦ c ∷ replace_from old new zero s
]

abbrev pub or_else {ℓ} : {A : Type ℓ} → Option A → Option A → Option A
or_else (some a) b = some a
or_else none b = b

-- `by_version.get(version)`: of the files of a version the last one is in the dictionary.
unfoldable pub by_version : List Text → Text → Option Text
by_version [] version = none
by_version (f ∷ files) version =
    or_else (by_version files version)
      (if version_from_migration_filename f == version then some f else none)

-- `set` of the versions of the files.
unfoldable pub known_versions : Directory → List Text
known_versions dir = map version_from_migration_filename (find_migration_files dir)

-- `down_file.exists()`
abbrev pub exists_in : Directory → Text → Bool
exists_in none name = false
exists_in (some names) name = contains names name

unfoldable pub is_reversible : Directory → Text → Bool
unfolding replace_from
is_reversible dir f =
    if ends_with f up_sql then exists_in dir (replace_from up_sql down_sql 0 f) else true

unfoldable pub reversible_versions : Directory → List Text
unfolding is_reversible
reversible_versions dir =
    map version_from_migration_filename (filterb (is_reversible dir) (find_migration_files dir))
