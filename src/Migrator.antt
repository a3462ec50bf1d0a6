-- ===== src/Migrator.antt =====
-- python/confiture/core/_migrator/apply.py, rollback.py and state.py: applying a migration and
-- rolling it back, as methods that change the connection and may raise.
pub mod Steps
pub mod Tracking
pub mod Apply
pub mod Undo
pub mod Batch
pub mod Rules
mod Atomic
pub mod Applied
pub mod Prefix
pub mod Undone
pub mod Settled
pub mod Calm
pub mod Envelope
pub mod Tests
use confiture.Base.{
  ℕ, Bool, true, false, not, ◌&&◌, ◌||◌, Option, none, some, List, [], ◌∷◌, ◌++◌, if◌then◌else◌,
  ltb, null,
}
use confiture.Base.Text.{Text, codes}
use confiture.Base.Exec.{Outcome, Exec}
use confiture.Postgres.{
  TransactionStatus, in_trans, in_error, no_code, migr_100, Raised, migration_error, hook_error,
  precondition_error, driver_error, Row, Connection,
}

-- `HookPhase`, as far as the migrator triggers it.
pub data HookPhase : Type 0 where
  before_execute after_execute : HookPhase

-- One call of `trigger_hook`.
pub record HookCall : Type 0 where
  pub phase : HookPhase
  pub version : Text
  pub success : Bool

-- What a run reads from its surroundings: the clock, and the checksum of the migration file, if
-- there is a file, or the message where the file cannot be read.
pub record Reading : Type 0 where
  pub timestamp : Text
  pub elapsed_ms : ℕ
  pub checksum : Outcome Text (Option Text)

-- `transaction_status not in (INTRANS, INERROR)`
abbrev pub outside_transaction : TransactionStatus → Bool
outside_transaction in_trans = false
outside_transaction in_error = false
outside_transaction _ = true

-- `if isinstance(e, (MigrationError, HookError)): raise`, and else a new `MigrationError`.
abbrev pub wrapped : Raised → Raised
wrapped (migration_error code) = migration_error code
wrapped hook_error = hook_error
wrapped _ = migration_error no_code

-- A migration: its attributes, its two methods, and the checks that its preconditions make.
pub record Migration (pg : Connection) : Type 0 where
  pub version : Text
  pub name : Text
  pub transactional : Bool
  pub requires_superuser : Bool
  pub up : Exec pg.Conn Raised Unit
  pub down : Exec pg.Conn Raised Unit
  pub up_preconditions : List (Exec pg.Conn Raised Bool)
  pub down_preconditions : List (Exec pg.Conn Raised Bool)

-- The migrator's connection, and the hook calls that it has made.
pub record Migrator (pg : Connection) : Type 0 where
  pub conn : pg.Conn
  pub calls : List HookCall

module _ {pg : Connection} where
  -- A statement goes to the connection.
  abbrev pub on : {A : Type 0} → Exec pg.Conn Raised A → Exec (Migrator pg) Raised A
  on m s = let r = m s.conn in (r.0, record s { conn = r.1 })
