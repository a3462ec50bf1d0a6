-- ===== src/Locking.antt =====
-- python/confiture/core/locking.py: the advisory lock that keeps two migrations apart.
pub mod Laws
pub mod Quiet
pub mod Held
pub mod Unlock
pub mod Release
pub mod Tests
use confiture.Base.{
  ℕ, suc, ◌+◌, ◌*◌, ◌%◌, ◌^◌, ◌≡◌, Bool, true, false, not, Option, none, some, List, [], ◌∷◌,
  if◌then◌else◌, take,
}
use confiture.Base.Text.{Text, codes}
use confiture.Postgres.{Raised}
use confiture.Base.Exec.{
  Outcome, ok, err, Exec, pure, raise, gets, modify, ◌>>=◌, ◌>>◌, try_except, try_finally,
}

-- The exceptions that pass: the code's own, `QueryCanceled`, what the migrator raises in the body,
-- and what else a call raises.
pub data Problem : Type 0 where
  lock_acquisition_error : (timeout : Bool) → Problem
  query_canceled : Problem
  engine_error : Raised → Problem
  other_error : Text → Problem

pub data LockMode : Type 0 where
  blocking non_blocking : LockMode

pub record LockConfig : Type 0 where
  pub enabled : Bool
  pub timeout_ms : ℕ
  pub lock_id : Option ℕ
  pub mode : LockMode

-- The statements that the lock sends, and what PostgreSQL keeps for the session behind them.
pub record Session : Type 1 where
  pub Conn : Type 0
  -- how often this session holds the lock of an id
  pub held : Conn → ℕ → ℕ
  -- a statement of the transaction has failed, and it has not been rolled back
  pub aborted : Conn → Bool
  pub current_database : Exec Conn Problem (Option Text)
  pub set_statement_timeout : ℕ → Exec Conn Problem Unit
  pub advisory_lock : ℕ → Exec Conn Problem Unit
  pub try_advisory_lock : ℕ → Exec Conn Problem (Option Bool)
  pub advisory_unlock : ℕ → Exec Conn Problem (Option Bool)
  -- the row of `confiture_lock_holder`
  pub write_holder : ℕ → Exec Conn Problem Unit
  pub delete_holder : ℕ → Exec Conn Problem Unit
  pub read_holder : ℕ → Exec Conn Problem Unit
  pub commit : Exec Conn Problem Unit
  pub rollback : Exec Conn Problem Unit

-- `MigrationLock`
pub record Lock (session : Session) : Type 0 where
  pub conn : session.Conn
  pub lock_held : Bool
  pub lock_id : Option ℕ

-- `hashlib.sha256(s.encode()).digest()` is a parameter: its bytes.
abbrev pub Digest : Type 0
Digest = Text → List ℕ

-- `int.from_bytes(bytes, "big")`
abbrev pub from_bytes : ℕ → List ℕ → ℕ
from_bytes n [] = n
from_bytes n (b ∷ bytes) = from_bytes (n * 256 + b) bytes

-- `result[0] if result else "unknown"`
abbrev pub database_name : Option Text → Text
database_name none = codes "unknown"
database_name (some name) = name

-- `result[0] if result else False`
abbrev pub answer_of : Option Bool → Bool
answer_of none = false
answer_of (some b) = b

module _ {session : Session} where
  abbrev pub on : {A : Type 0} → Exec session.Conn Problem A → Exec (Lock session) Problem A
  on m l = let r = m l.conn in (r.0, record l { conn = r.1 })

  -- `except Exception: log`, with `rollback` under `contextlib.suppress(Exception)`.
  unfoldable pub suppressed_rollback : Exec (Lock session) Problem Unit
  suppressed_rollback = try_except (on session.rollback) (λ _. pure tt)

module _ {session : Session} (digest : Digest) (config : LockConfig) where
  -- `& 0x7FFFFFFF` keeps the lower 31 bits.
  unfoldable pub generate_lock_id : Exec (Lock session) Problem ℕ
  generate_lock_id = do
    name ← on session.current_database
    pure (from_bytes 0 (take 4 (digest (database_name name))) % 2 ^ 31)

  unfoldable pub chosen_lock_id : Option ℕ → Exec (Lock session) Problem ℕ
  unfolding generate_lock_id
  chosen_lock_id none = generate_lock_id
  chosen_lock_id (some id) = pure id

  unfoldable pub known_lock_id : Option ℕ → Exec (Lock session) Problem ℕ
  unfolding chosen_lock_id
  known_lock_id (some id) = pure id
  known_lock_id none = do
    id ← chosen_lock_id config.lock_id
    modify (λ l. record l { lock_id = some id })
    pure id

  unfoldable pub get_lock_id : Exec (Lock session) Problem ℕ
  unfolding known_lock_id
  get_lock_id = do id ← gets (λ l. l.lock_id); known_lock_id id

  unfoldable pub safe_read_lock_holder : Exec (Lock session) Problem Unit
  safe_read_lock_holder =
      try_except (do id ← get_lock_id; on (session.read_holder id)) (λ _. suppressed_rollback)

  unfoldable pub on_canceled : Problem → Exec (Lock session) Problem Unit
  on_canceled query_canceled = do
    suppressed_rollback
    safe_read_lock_holder
    raise (lock_acquisition_error true)
  on_canceled e = raise e

  unfoldable pub acquire_blocking : ℕ → Exec (Lock session) Problem Unit
  unfolding on_canceled
  acquire_blocking id = do
    on (session.set_statement_timeout config.timeout_ms)
    try_except (do on (session.advisory_lock id); on (session.set_statement_timeout 0)) on_canceled

  unfoldable pub acquire_non_blocking : ℕ → Exec (Lock session) Problem Unit
  acquire_non_blocking id = do
    result ← on (session.try_advisory_lock id)
    if not (answer_of result)
        then (do safe_read_lock_holder; raise (lock_acquisition_error false))
        else pure tt

  unfoldable pub write_holder_metadata : ℕ → Exec (Lock session) Problem Unit
  write_holder_metadata id =
      try_except (do on (session.write_holder id); on session.commit) (λ _. suppressed_rollback)

  unfoldable pub clear_holder_metadata : ℕ → Exec (Lock session) Problem Unit
  clear_holder_metadata id =
      try_except (do on (session.delete_holder id); on session.commit) (λ _. suppressed_rollback)

  unfoldable pub acquire_by : LockMode → ℕ → Exec (Lock session) Problem Unit
  acquire_by non_blocking id = acquire_non_blocking id
  acquire_by blocking id = acquire_blocking id

  unfoldable pub acquire_lock : Exec (Lock session) Problem Unit
  unfolding acquire_by
  acquire_lock = do
    id ← get_lock_id
    acquire_by config.mode id
    modify (λ l. record l { lock_held = true })
    write_holder_metadata id

  unfoldable pub release_lock : Exec (Lock session) Problem Unit
  release_lock = do
    held ← gets (λ l. l.lock_held)
    if not held then pure tt else do
      id ← get_lock_id
      try_finally (try_except (do on (session.advisory_unlock id); pure tt) (λ _. pure tt))
          (do modify (λ l. record l { lock_held = false }); clear_holder_metadata id)

  -- `with lock.acquire(): body`
  unfoldable pub acquire :
      {A : Type 0} → Exec (Lock session) Problem A → Exec (Lock session) Problem A
  acquire body =
      if not config.enabled then body else try_finally (do acquire_lock; body) release_lock

  unfoldable pub is_lock_held : Exec (Lock session) Problem Bool
  is_lock_held = gets (λ l. l.lock_held)
