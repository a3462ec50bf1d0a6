-- ===== src/Rollback/Tests.antt =====
-- Plans on three applied versions.
use confiture.Base.{
  ◌≡◌, refl, true, false, List, [], ◌∷◌, ◌++◌, reverse, All, contains, nat_eq, list_eq,
}
use confiture.Base.Text.{Text, codes}
use confiture.Rollback.{RollbackPlan, plan_down_to}
use confiture.Rollback.Plan.{Says, plan_valid, plan_cut}

abbrev v1 : Text
v1 = codes "001"

abbrev v2 : Text
v2 = codes "002"

abbrev v3 : Text
v3 = codes "003"

abbrev applied : List Text
applied = v1 ∷ v2 ∷ v3 ∷ []

-- Back to 001, with everything reversible, and with 002 irreversible.
abbrev good : RollbackPlan
good = plan_down_to applied applied v1 applied

abbrev bad : RollbackPlan
bad = plan_down_to applied applied v1 (v1 ∷ v3 ∷ [])

good-to_rollback : (good.to_rollback ≡ v3 ∷ v2 ∷ []) × (bad.missing_down ≡ v2 ∷ [])
unfolding plan_down_to
good-to_rollback = (refl, refl)

noop_at_newest : (plan_down_to applied applied v3 []).noop ≡ true
unfolding plan_down_to
noop_at_newest = refl

plan_valid_example :
    (older : List Text) × (applied ≡ older ++ (v1 ∷ reverse good.to_rollback))
    × (contains older v1 ≡ false)
    × All (λ v. contains applied v ≡ true) good.to_rollback
unfolding plan_down_to
plan_valid_example = plan_valid applied applied v1 applied refl

plan_cut_example : Says (v2 ∷ v3 ∷ []) v1 (v1 ∷ v3 ∷ []) bad
plan_cut_example = plan_cut [] (v2 ∷ v3 ∷ []) applied v1 (v1 ∷ v3 ∷ []) refl
