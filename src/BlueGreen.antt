-- ===== src/BlueGreen.antt =====
-- python/confiture/core/blue_green.py: the phases of a blue-green migration, its state, and the
-- database behind it.
pub mod Steps
pub mod Execute
pub mod Compare
pub mod Traffic
pub mod Chain
pub mod Phases
pub mod Health
pub mod Quiet
pub mod Gate
pub mod Failure
pub mod Tests
use confiture.Base.{ℕ, ◌≡◌, Bool, true, false, Option, none, some, List, [], ◌∷◌}
use confiture.Base.Text.{Text, codes}
use confiture.Base.Exec.{Outcome, Exec}

pub data MigrationPhase : Type 0 where
  init schema_created data_syncing data_synced verifying traffic_switching : MigrationPhase
  traffic_switched cleanup_pending complete failed rolled_back : MigrationPhase

pub record BlueGreenConfig : Type 0 where
  pub source_schema : Text
  pub target_schema : Text
  pub health_check_retries : ℕ
  pub skip_cleanup : Bool

-- What `execute` raises: its own `RuntimeError` with the names of the failed checks, or what a
-- statement or the sync function raised.
pub data Problem : Type 0 where
  health_checks_failed : List Text → Problem
  database_problem : Text → Problem

-- The statements that the orchestrator sends.
pub data Statement : Type 0 where
  -- CREATE SCHEMA IF NOT EXISTS
  create_schema : Text → Statement
  -- ALTER SCHEMA source RENAME TO backup; ALTER SCHEMA target RENAME TO source
  swap : (source backup target : Text) → Statement
  -- DROP SCHEMA IF EXISTS … CASCADE
  drop_schema : Text → Statement
  -- ALTER SCHEMA source RENAME TO temp; ALTER SCHEMA backup RENAME TO source; DROP SCHEMA temp
  swap_back : (source temp backup : Text) → Statement

-- A row of `pg_stat_user_tables`.
pub record TableCount : Type 0 where
  pub schema : Text
  pub table : Text
  pub count : Option ℕ

pub record Database : Type 1 where
  pub Conn : Type 0
  pub execute : Statement → Exec Conn Problem Unit
  pub fetch_counts : Text → Text → Exec Conn Problem (List TableCount)
  pub commit : Exec Conn Problem Unit
  -- a statement of the transaction has failed, and it has not been rolled back
  pub aborted : Conn → Bool

pub record HealthCheckResult : Type 0 where
  pub name : Text
  pub passed : Bool
  pub message : Option Problem

-- A table whose counts differ.
pub record Discrepancy : Type 0 where
  pub table : Text
  pub source : ℕ
  pub target : ℕ

-- `MigrationState`; the keys of `metadata` that the code writes are fields.
pub record MigrationState : Type 0 where
  pub phase : MigrationPhase
  pub started : Bool
  pub completed : Bool
  pub error : Option Problem
  pub rollback_available : Bool
  pub sync_discrepancies : Option (List Discrepancy)
  pub health_check_results : Option (List HealthCheckResult)
  pub backup_schema : Option Text

abbrev pub initial_state : MigrationState
initial_state = record {
  phase = init;
  started = false;
  completed = false;
  error = none;
  rollback_available = true;
  sync_discrepancies = none;
  health_check_results = none;
  backup_schema = none;
}

-- A health check answers, or raises, once for each attempt.
pub record HealthCheck : Type 0 where
  pub name : Text
  pub check : ℕ → Outcome Problem Bool

-- The orchestrator: the connection, the state, and the phase changes that the callbacks were told.
pub record Orchestrator (db : Database) : Type 0 where
  pub conn : db.Conn
  pub state : MigrationState
  pub changes : List (MigrationPhase × MigrationPhase)

-- What the orchestrator was set up with, and what it reads of the clock: `int(time.time())` for the
-- names of the backup schema and of the temporary one.
pub record Setup (db : Database) : Type 0 where
  pub config : BlueGreenConfig
  pub health_checks : List HealthCheck
  pub data_sync : Option (Exec db.Conn Problem Unit)
  pub switch_time : Text
  pub rollback_time : Text
