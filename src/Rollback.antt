-- ===== src/Rollback.antt =====
-- python/confiture/core/_migrator/rollback_planner.py: the plan of `migrate down-to`.
pub mod Plan
pub mod Tests
use confiture.Base.{
  ℕ, suc, ◌-◌, Bool, true, false, not, Option, none, some, List, [], reverse, if◌then◌else◌,
  nat_beq, length, drop, null, filterb, contains, index, nat_eq, list_eq,
}
use confiture.Base.Text.{Text}

-- Why a plan is invalid.
pub data Reason : Type 0 where
  target_newer unknown irreversible : Reason

pub record RollbackPlan : Type 0 where
  pub target : Text
  pub to_rollback : List Text
  pub valid : Bool
  pub noop : Bool
  pub reason : Option Reason
  pub missing_down : List Text

-- An invalid plan for a target that is not applied.
not_applied : List Text → Text → RollbackPlan
not_applied known target = record {
  target = target;
  to_rollback = [];
  valid = false;
  noop = false;
  reason = some (if contains known target then target_newer else unknown);
  missing_down = [];
}

-- The plan that rolls back `to_rollback`, refused when `missing` is not empty.
checked : Text → List Text → List Text → RollbackPlan
checked target to_rollback missing =
    if null missing
    then record {
      target = target;
      to_rollback = to_rollback;
      valid = true;
      noop = false;
      reason = none;
      missing_down = [];
    }
    else record {
      target = target;
      to_rollback = to_rollback;
      valid = false;
      noop = false;
      reason = some irreversible;
      missing_down = missing;
    }

-- `list(reversed(applied[idx + 1 :]))`
unfoldable pub newer : List Text → Text → List Text
newer applied target = reverse (drop (suc (index applied target)) applied)

unfoldable pub lacking : List Text → List Text → List Text
lacking down_available versions = filterb (λ v. not (contains down_available v)) versions

unfoldable pub plan_down_to : List Text → List Text → Text → List Text → RollbackPlan
unfolding not_applied checked newer lacking
plan_down_to applied known target down_available =
    if not (contains applied target)
    then not_applied known target
    else if nat_beq (index applied target) (length applied - 1)
    then record {
      target = target;
      to_rollback = [];
      valid = true;
      noop = true;
      reason = none;
      missing_down = [];
    }
    else checked target (newer applied target) (lacking down_available (newer applied target))
