-- ===== src/Postgres.antt =====
-- What the program asks of a psycopg connection and of PostgreSQL behind it. Neither is part of the
-- repository: the operations are parameters, and the laws are those that PostgreSQL documents.
pub mod Laws
pub mod Sample
use confiture.Base.{ℕ, Bool, Option, List}
use confiture.Base.Text.{Text}
use confiture.Base.Exec.{Exec}

-- `psycopg.pq.TransactionStatus`
pub data TransactionStatus : Type 0 where
  idle active in_trans in_error unknown_status : TransactionStatus

-- The codes that the migrator passes to `MigrationError`.
pub data Code : Type 0 where
  migr_100 migr_101 migr_107 no_code : Code

-- The exceptions that pass through the migrator.
pub data Raised : Type 0 where
  migration_error : Code → Raised
  hook_error : Raised
  precondition_error : Raised
  driver_error os_error : Text → Raised

-- One row of the tracking table.
pub record Row : Type 0 where
  pub slug : Text
  pub version : Text
  pub name : Text
  pub execution_time_ms : ℕ
  pub checksum : Option Text
  pub applied_by : Option Text

pub record Connection : Type 1 where
  pub Conn : Type 0
  -- the contents of the database
  pub Db : Type 0
  -- `SELECT version FROM … ORDER BY applied_at ASC`
  pub versions : Db → List Text
  -- what this session sees, and what every other session sees
  pub current : Conn → Db
  pub committed : Conn → Db
  -- the contents at each open savepoint of a name, the innermost first
  pub saved : Conn → Text → List Db
  pub transaction_status : Conn → TransactionStatus
  pub autocommit : Conn → Bool
  -- statements
  pub create_savepoint : Text → Exec Conn Raised Unit
  pub release_savepoint : Text → Exec Conn Raised Unit
  pub rollback_to : Text → Exec Conn Raised Unit
  pub select_versions : Exec Conn Raised (List Text)
  pub count_version : Text → Exec Conn Raised ℕ
  pub current_user : Exec Conn Raised (Option Text)
  pub insert_row : Row → Exec Conn Raised Unit
  pub delete_version : Text → Exec Conn Raised Unit
  -- methods of the connection
  pub commit : Exec Conn Raised Unit
  pub rollback : Exec Conn Raised Unit
  pub set_autocommit : Bool → Exec Conn Raised Unit
