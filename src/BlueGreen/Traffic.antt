-- ===== src/BlueGreen/Traffic.antt =====
-- `TrafficController`: the read-only mode, draining and terminating of connections. The database
-- connection, the Redis client and the feature-flag client are parameters.
pub mod ReadOnly
pub mod Drain
use confiture.Base.{
  ℕ, zero, suc, ◌+◌, ◌≡◌, Bool, true, false, not, ◌&&◌, ◌||◌, Option, none, some, List, [], ◌∷◌,
  if◌then◌else◌, filterb, null, ltb, contains, ◌==◌, nat_eq, list_eq,
}
use confiture.Base.Text.{Text, codes}
use confiture.Base.Exec.{Outcome, ok, err, Exec, pure, raise, gets, modify, ◌>>=◌, ◌>>◌, try_except}
use confiture.BlueGreen.{Problem}

-- What Redis answers: a `str`, or `bytes`.
pub data Stored : Type 0 where
  text bytes : Text → Stored

-- A row of `pg_stat_activity`, of which the code reads three columns.
pub record Activity : Type 0 where
  pub pid : ℕ
  pub application_name : Option Text
  pub state : Option Text

pub record Services : Type 1 where
  pub Conn : Type 0
  pub Redis : Type 0
  pub Flags : Type 0
  -- SET default_transaction_read_only = ON | OFF
  pub set_default_read_only : Bool → Exec Conn Problem Unit
  pub commit : Exec Conn Problem Unit
  pub get_active_connections : Exec Conn Problem (List Activity)
  -- SELECT pg_terminate_backend(pid)
  pub terminate_backend : ℕ → Exec Conn Problem Unit
  -- on the key "confiture:read_only", `set` with "1"
  pub redis_set : Exec Redis Problem Unit
  pub redis_delete : Exec Redis Problem Unit
  pub redis_get : Exec Redis Problem (Option Stored)
  pub flags_set : Bool → Exec Flags Problem Unit

pub record Controller (services : Services) : Type 0 where
  pub conn : services.Conn
  pub redis : Option services.Redis
  pub feature_flags : Option services.Flags
  pub read_only : Bool

-- `value == "1" or value == b"1"`
abbrev pub is_one : Option Stored → Bool
is_one none = false
is_one (some (text s)) = s == codes "1"
is_one (some (bytes s)) = s == codes "1"

unfoldable pub answer_of : Outcome Problem (Option Stored) → Outcome Problem Bool
answer_of (ok value) = ok (is_one value)
answer_of (err e) = err e

module _ {services : Services} where
  abbrev pub on_conn :
      {A : Type 0} → Exec services.Conn Problem A → Exec (Controller services) Problem A
  on_conn m t = let r = m t.conn in (r.0, record t { conn = r.1 })

  -- `if self.redis: …`
  unfoldable pub update_redis :
      Bool → Option services.Redis → Exec (Controller services) Problem Unit
  update_redis enabled none t = (ok tt, t)
  update_redis enabled (some redis) t =
      let r = (if enabled then services.redis_set else services.redis_delete) redis in
      (r.0, record t { redis = some r.1 })

  -- `if self.feature_flags: …`
  unfoldable pub update_flags :
      Bool → Option services.Flags → Exec (Controller services) Problem Unit
  update_flags enabled none t = (ok tt, t)
  update_flags enabled (some flags) t =
      let r = services.flags_set enabled flags in (r.0, record t { feature_flags = some r.1 })

  unfoldable pub set_read_only : Bool → Exec (Controller services) Problem Unit
  unfolding update_redis update_flags
  set_read_only enabled = do
    modify (λ t. record t { read_only = enabled })
    on_conn (services.set_default_read_only enabled)
    on_conn services.commit
    redis ← gets (λ t. t.redis)
    update_redis enabled redis
    flags ← gets (λ t. t.feature_flags)
    update_flags enabled flags

  unfoldable pub stored_read_only : Option services.Redis → Exec (Controller services) Problem Bool
  unfolding answer_of
  stored_read_only none t = (ok t.read_only, t)
  stored_read_only (some redis) t =
      let r = services.redis_get redis in (answer_of r.0, record t { redis = some r.1 })

  unfoldable pub is_read_only : Exec (Controller services) Problem Bool
  unfolding stored_read_only
  is_read_only = do redis ← gets (λ t. t.redis); stored_read_only redis

-- `exclude_apps or ["confiture"]`
unfoldable pub excluded_apps : Option (List Text) → List Text
excluded_apps none = codes "confiture" ∷ []
excluded_apps (some []) = codes "confiture" ∷ []
excluded_apps (some (app ∷ apps)) = app ∷ apps

abbrev pub is_excluded : List Text → Option Text → Bool
is_excluded apps none = false
is_excluded apps (some app) = contains apps app

abbrev pub is_idle : Option Text → Bool
is_idle none = false
is_idle (some state) = state == codes "idle"

-- The connections that a drain waits for.
unfoldable pub waiting : List Text → List Activity → List Activity
waiting apps active =
    filterb (λ c. not (is_excluded apps c.application_name) && not (is_idle c.state)) active

-- What a test of the loop does with the answer of the query, where `rest` are the tests after it.
abbrev pub drain_at :
    List Text
    → Outcome Problem (List Activity)
    → Option (Outcome Problem Bool)
    → Option (Outcome Problem Bool)
drain_at apps (err e) rest = some (err e)
drain_at apps (ok found) rest = if null (waiting apps found) then some (ok true) else rest

-- `drain_connections` from its test number `n` on: `elapsed n` is the time since the start at that
-- test, and `active n` what the query after it finds or raises. None where the fuel is used up.
unfoldable pub drain_connections :
    (ℕ → ℕ)
    → (ℕ → Outcome Problem (List Activity))
    → ℕ
    → List Text
    → ℕ
    → ℕ
    → Option (Outcome Problem Bool)
drain_connections elapsed active timeout apps zero n = none
drain_connections elapsed active timeout apps (suc fuel) n =
    let rest = drain_connections elapsed active timeout apps fuel (n + 1) in
    if ltb (elapsed n) timeout then drain_at apps (active n) rest else some (ok false)

module _ (services : Services) where
  -- The loop of `terminate_connections`, with the count so far; a failure is logged and passed over.
  unfoldable pub terminate_each : List Text → List Activity → ℕ → Exec services.Conn Problem ℕ
  terminate_each apps [] terminated = pure terminated
  terminate_each apps (c ∷ active) terminated =
      if is_excluded apps c.application_name
      then terminate_each apps active terminated
      else (try_except (do services.terminate_backend c.pid; pure (terminated + 1))
            (λ e. pure terminated)
          >>= λ count. terminate_each apps active count)

  unfoldable pub terminate_connections : Option (List Text) → Exec services.Conn Problem ℕ
  unfolding excluded_apps terminate_each
  terminate_connections exclude = do
    active ← services.get_active_connections
    terminated ← terminate_each (excluded_apps exclude) active 0
    services.commit
    pure terminated
