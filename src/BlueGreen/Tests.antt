-- ===== src/BlueGreen/Tests.antt =====
-- Runs of the orchestrator and of the traffic controller on small services.
use confiture.Base.{
  allb, ℕ, ◌*◌, ◌<◌, ◌≤◌, ◌≡◌, ◌⊎◌, refl, Bool, true, false, not, ◌&&◌, Option, none, some, List,
  [], ◌∷◌, map, if◌then◌else◌, contains, nat_eq, list_eq, ◌==◌, arith,
}
use confiture.Base.Text.{Text, codes}
use confiture.Base.Exec.{Outcome, ok, err, Exec, pure}
use confiture.Base.Triple.{Ends}
use confiture.BlueGreen.{
  init, verifying, complete, failed, rolled_back, BlueGreenConfig, Problem, database_problem,
  Statement, create_schema, swap, drop_schema, swap_back, TableCount, Database, HealthCheck,
  Orchestrator, Setup, initial_state,
}
use confiture.BlueGreen.Steps.{
  run_attempt, attempts, gather, discrepancies_of, set_phase, create_target_schema, sync_data,
  sync_function, verify_sync, compare_schemas, run_health_checks, switch_traffic, cleanup, count_of,
  put_count, known_count, put_row, run_check,
}
use confiture.BlueGreen.Execute.{
  execute, fail, rollback, migrate, attempt_rollback, go_back, is_rolled_back, rollback_drop_target,
}
use confiture.BlueGreen.Chain.{IsChain}
use confiture.BlueGreen.Phases.{execute_phases}
use confiture.BlueGreen.Health.{
  is_passed, answers, has_answered_true, has_switched, health_attempts,
}
use confiture.BlueGreen.Gate.{Passing, execute_gated}
use confiture.BlueGreen.Compare.{latest, compare_schemas_lem}
use confiture.BlueGreen.Failure.{
  RefusesAborted, Dropped, NotDropped, fail_drops, fail_aborted, rollback_lem, IsOneOf, way_back,
  zero_retries_ignore_checks,
}
use confiture.BlueGreen.Traffic.{
  Stored, text, Activity, Services, Controller, drain_connections, set_read_only,
}
use confiture.BlueGreen.Traffic.Drain.{Meaning, drain_connections_ends}
use confiture.BlueGreen.Traffic.ReadOnly.{
  IsStore, Answers, AnswersItself, set_read_only-Answers, set_read_only_itself,
}

-- The schemas of a small database, and whether its transaction has failed.
record Small : Type 0 where
  schemas : List Text
  broken : Bool

abbrev refused : Problem
refused = database_problem (codes "current transaction is aborted")

abbrev public_schema : Text
public_schema = codes "public"

abbrev next_schema : Text
next_schema = codes "next"

abbrev effect : Statement → List Text → List Text
effect (create_schema name) schemas = name ∷ schemas
effect (swap source backup target) schemas = source ∷ backup ∷ []
effect (drop_schema name) schemas = public_schema ∷ []
effect (swap_back source temp backup) schemas = source ∷ []

abbrev small_execute : Statement → Exec Small Problem Unit
small_execute statement s =
    if s.broken
    then (err refused, s)
    else (ok tt, record s { schemas = effect statement s.schemas })

abbrev rows : List TableCount
rows =
    record { schema = public_schema; table = codes "users"; count = some 3 }
    ∷ record { schema = next_schema; table = codes "users"; count = some 2 }
    ∷ record { schema = next_schema; table = codes "posts"; count = none }
    ∷ []

abbrev db : Database
db = record {
  Conn = Small;
  execute = small_execute;
  fetch_counts = λ source target. pure rows;
  commit = pure tt;
  aborted = λ s. s.broken;
}

abbrev config : BlueGreenConfig
config = record {
  source_schema = public_schema;
  target_schema = next_schema;
  health_check_retries = 2;
  skip_cleanup = false;
}

-- A check that passes from the second attempt on, and one that never passes.
abbrev slow_check : HealthCheck
slow_check = record { name = codes "api"; check = λ attempt. ok (not (attempt == 0)) }

abbrev never : HealthCheck
never = record { name = codes "queue"; check = λ attempt. err refused }

abbrev setup : Setup db
setup = record {
  config = config;
  health_checks = slow_check ∷ [];
  data_sync = none;
  switch_time = codes "1700000000";
  rollback_time = codes "1700000001";
}

abbrev unchecked : Setup db
unchecked = record setup {
  config = record config { health_check_retries = 0 };
  health_checks = slow_check ∷ [];
}

abbrev start : Orchestrator db
start = record {
  conn = record { schemas = public_schema ∷ []; broken = false };
  state = initial_state;
  changes = [];
}

program : Unit {0}
unfolding execute migrate fail create_target_schema sync_data sync_function verify_sync
    compare_schemas run_health_checks attempts run_attempt run_check switch_traffic cleanup
    set_phase gather discrepancies_of put_row put_count known_count count_of attempt_rollback
    go_back rollback_drop_target rollback
program = tt

completes : ((execute setup start).0 ≡ ok tt) × ((execute setup start).1.state.phase ≡ complete)
unfolding program
completes = (refl, refl)

-- A check that never passes does not keep the traffic from being switched if no attempt is allowed.
switches_unchecked :
    let r = execute (record unchecked { health_checks = never ∷ [] }) start in
    (r.0 ≡ ok tt) × (has_switched r.1.changes ≡ true)
unfolding program
switches_unchecked = (refl, refl)

-- After a completed run the state says that a rollback is available, but `rollback` does nothing.
no_rollback_after :
    let o = (execute setup start).1 in
    (o.state.rollback_available ≡ true) × (rollback setup o ≡ (ok false, o))
unfolding program
no_rollback_after = (refl, refl)

execute_phases_example :
    Ends
      (execute setup start)
      (λ _ o'. (o'.state.phase ≡ complete) × IsChain init o'.changes complete)
      (λ _ o'.
        (o'.state.phase ≡ failed) × IsChain init o'.changes failed
        ⊎ (o'.state.phase ≡ rolled_back) × IsChain init o'.changes rolled_back)
execute_phases_example = execute_phases db setup start refl refl

execute_gated_example :
    Ends
      (execute setup start)
      (λ _ o'. (has_switched o'.changes ≡ false) ⊎ Passing setup.health_checks 1)
      (λ _ o'. (has_switched o'.changes ≡ false) ⊎ Passing setup.health_checks 1)
execute_gated_example = execute_gated db setup 1 start refl refl refl

health_attempts_example :
    (a : ℕ) × (a ≤ 1)
    × (is_passed (attempts (slow_check ∷ never ∷ []) 2 0 []) ≡ answers (slow_check ∷ never ∷ []) a)
    × ((b : ℕ)
        → b < a
        → allb (λ h. has_answered_true (h.check b)) (slow_check ∷ never ∷ []) ≡ false)
    × ((allb (λ h. has_answered_true (h.check a)) (slow_check ∷ never ∷ []) ≡ true) ⊎ (a ≡ 1))
health_attempts_example = health_attempts (slow_check ∷ never ∷ []) 1

-- A run under way on a connection that still works, and on one whose transaction has failed.
abbrev under_way : Bool → Orchestrator db
under_way broken = record start {
  conn = record { schemas = next_schema ∷ public_schema ∷ []; broken = broken };
  state = record initial_state { phase = verifying };
}

fail_drops_example :
    Ends
      (fail setup refused (under_way false))
      (λ (_ : Unit {0}) _. ⊥)
      (λ e' o'.
        (e' ≡ refused)
        × (o'.state.error ≡ some refused)
        × (Dropped db setup (under_way false) o' ⊎ NotDropped db setup (under_way false) o'))
fail_drops_example = fail_drops db setup refused (under_way false) refl

db-RefusesAborted : RefusesAborted db
db-RefusesAborted statement s broken = rw broken (λ no. cc)

fail_aborted_example :
    Ends
      (fail setup refused (under_way true))
      (λ (_ : Unit {0}) _. ⊥)
      (λ e' o'. (e' ≡ refused) × (o'.state.phase ≡ failed) × (o'.state.rollback_available ≡ false))
fail_aborted_example = fail_aborted db setup refused (under_way true) db-RefusesAborted refl refl

rollback_lem_example :
    Ends
      (rollback setup (under_way false))
      (λ b o'.
        (b ≡ (true && is_rolled_back o'.state.phase))
        × (IsOneOf verifying way_back ⊎ (o' ≡ under_way false)))
      (λ _ _. ⊥)
rollback_lem_example = rollback_lem db setup (under_way false)

zero_retries_example :
    execute (record unchecked { health_checks = never ∷ [] }) start ≡ execute unchecked start
zero_retries_example = zero_retries_ignore_checks db unchecked (never ∷ []) start refl refl refl

compare_schemas_example :
    contains (map (λ d. d.table) (discrepancies_of config (gather rows []))) (codes "users") ≡ (
      contains (map (λ r. r.table) rows) (codes "users")
      && not (
          latest config.source_schema (codes "users") rows 0
          == latest config.target_schema (codes "users") rows 0))
compare_schemas_example = compare_schemas_lem config rows (codes "users")

-- One connection of an application, until the third test.
abbrev active : ℕ → Outcome Problem (List Activity)
active n = ok (
    if n == 2
    then []
    else record { pid = 7; application_name = some (codes "api"); state = some (codes "active") }
      ∷ [])

drain_example :
    (o : Outcome Problem Bool) × (drain_connections
        (λ n. 10 * n)
        active
        30
        (codes "confiture" ∷ [])
        31
        0
      ≡ some o)
    × Meaning (λ n. 10 * n) active 30 (codes "confiture" ∷ []) 0 o
drain_example =
    drain_connections_ends (λ n. 10 * n) active 30 (codes "confiture" ∷ []) (λ n. omega arith)

-- A connection that notes what it was asked, a Redis key and a flag.
abbrev services : Services
services = record {
  Conn = Bool;
  Redis = Option Stored;
  Flags = Bool;
  set_default_read_only = λ enabled s. if s then (ok tt, s) else (err refused, s);
  commit = pure tt;
  get_active_connections = λ s. (active 0, s);
  terminate_backend = λ pid s. if s then (ok tt, s) else (err refused, s);
  redis_set = λ r. (ok tt, some (text (codes "1")));
  redis_delete = λ r. (ok tt, none);
  redis_get = λ r. (ok r, r);
  flags_set = λ enabled r. (ok tt, enabled);
}

services-IsStore : IsStore services
services-IsStore = record {
  set_law = λ r. record { post = record { post = refl } };
  delete_law = λ r. record { post = record { post = refl } };
}

abbrev controller : Bool → Option (Option Stored) → Controller services
controller works redis = record {
  conn = works;
  redis = redis;
  feature_flags = some false;
  read_only = false;
}

set_read_only-Answers_example :
    Ends
      (set_read_only true (controller true (some none)))
      (λ _ t'. Answers services true t')
      (λ _ _. Unit {0})
set_read_only-Answers_example =
    set_read_only-Answers services true (controller true (some none)) none services-IsStore refl

set_read_only_itself_example :
    Ends
      (set_read_only true (controller false none))
      (λ _ t'. AnswersItself services true t')
      (λ _ t'. AnswersItself services true t')
set_read_only_itself_example = set_read_only_itself services true (controller false none) refl

-- One connection may not be terminated, and the database refuses to terminate the other one.
abbrev connected : List Activity
connected =
    record { pid = 7; application_name = some (codes "api"); state = none }
    ∷ record { pid = 8; application_name = some (codes "confiture"); state = none }
    ∷ []
