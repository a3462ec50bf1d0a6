-- ===== src/BlueGreen/Gate.antt =====
-- Proofs about the health checks and the switch of the traffic.
use confiture.Base.{
  ℕ, suc, ◌≤◌, ◌≡◌, ◌⊎◌, refl, sym, ◌∙◌, ap, true, false, not, List, [], allb, null, inl, inr,
  arith,
}
use confiture.Base.Exec.{Exec}
use confiture.Base.Triple.{
  Ends, Triple, triple-bind, triple-try_except, triple-if, triple-pure, triple-raise, triple-weaken,
  triple_any,
}
use confiture.BlueGreen.{Problem, Database, HealthCheck, HealthCheckResult, Orchestrator, Setup}
use confiture.BlueGreen.Steps.{
  create_target_schema, sync_data, verify_sync, run_health_checks, run_attempt, attempts,
}
use confiture.BlueGreen.Execute.{migrate, fail, execute}
use confiture.BlueGreen.Health.{all_passed, has_switched, counted_attempt}
use confiture.BlueGreen.Quiet.{
  Before, Quiet, update-Quiet, create-Quiet, sync-Quiet, verify-Quiet, fail-Quiet,
}

-- In one of the attempts from the first to attempt `k`, every check passed.
abbrev pub Passing : List HealthCheck → ℕ → Type 0
Passing checks k = (a : ℕ) × (a ≤ k) × (all_passed (run_attempt checks a) ≡ true)

Passing-from :
    (checks : List HealthCheck) (k : ℕ)
    → all_passed (attempts checks (suc k) 0 []) ≡ true
    → Passing checks k
Passing-from checks k h =
    let (a, low, same, earlier, last) = counted_attempt checks k in
    (a, low, ap all_passed (sym same) ∙ h)

module _ (db : Database) (setup : Setup db) (k : ℕ) where
  abbrev Passed : Type 0
  Passed = Passing setup.health_checks k

  abbrev Gated : Orchestrator db → Type 0
  Gated o = (has_switched o.changes ≡ false) ⊎ Passed

  quietly :
      {A : Type 0} (m : Exec (Orchestrator db) Problem A)
      → Quiet db m
      → Triple (Before db) m (λ _ o. Before db o) (λ _ o. Gated o)
  unfolding Quiet
  quietly m h = triple-weaken (λ _ p. p) (λ _ _ p. p) (λ _ _ p. inl p) h

  already :
      {A : Type 0} {P : Orchestrator db → Type 0} (m : Exec (Orchestrator db) Problem A)
      → Passed
      → Triple P m (λ _ o. Passed) (λ _ o. Gated o)
  already m h = triple-weaken (λ _ _. tt) (λ _ _ _. h) (λ _ _ _. inr h) (triple_any m)

  checks_step :
      null setup.health_checks ≡ false
      → setup.config.health_check_retries ≡ suc k
      → Triple
          (Before db)
          (run_health_checks setup)
          (λ results o. Before db o × (results ≡ attempts setup.health_checks (suc k) 0 []))
          (λ _ o. Gated o)
  unfolding run_health_checks
  checks_step some_check retries = record { at = λ o h. rw some_check (h, rw retries refl) }

  migrate_step :
      null setup.health_checks ≡ false
      → setup.config.health_check_retries ≡ suc k
      → Triple (Before db) (migrate setup) (λ _ o. Passed) (λ _ o. Gated o)
  unfolding migrate
  migrate_step some_check retries =
      triple-bind _ _ (quietly (create_target_schema setup) (create-Quiet db setup)) λ _.
        triple-bind _ _ (quietly (sync_data setup) (sync-Quiet db setup)) λ _.
          triple-bind _ _ (quietly (verify_sync setup) (verify-Quiet db setup)) λ _.
            triple-bind _ _ (checks_step some_check retries) λ results.
              triple-bind _ _
                (triple-if {Q = λ _ o. Passed} (not (allb (λ r. r.passed) results)) _ _
                  (λ _. triple-raise _ (λ _ h. inl h.0))
                  (λ all. triple-pure tt (λ _ h.
                    Passing-from setup.health_checks k
                      (ap all_passed (sym h.1) ∙ passes results all))))
                λ _. triple_through _ (λ h. already _ h)
    where
      passes :
          (results : List HealthCheckResult)
          → not (all_passed results) ≡ false
          → all_passed results ≡ true
      passes results h = ground arith

      triple_through :
          (m : Exec (Orchestrator db) Problem Unit)
          → (Passed → Triple (λ o. Passed) m (λ _ o. Passed) (λ _ o. Gated o))
          → Triple (λ o. Passed) m (λ _ o. Passed) (λ _ o. Gated o)
      triple_through m f = record { at = λ o h. (f h).at o h }

  fail-Before :
      (e : Problem)
      → Triple (Before db) (fail setup e) (λ (_ : Unit {0}) o. Gated o) (λ _ o. Gated o)
  fail-Before e =
      triple-weaken (λ _ p. p) (λ _ _ p. inl p) (λ _ _ p. p)
        (quietly (fail setup e) (fail-Quiet db setup e))

  fail_after :
      (e : Problem)
      → Passed
      → Triple (λ _. Unit {0}) (fail setup e) (λ (_ : Unit {0}) o. Gated o) (λ _ o. Gated o)
  fail_after e h = triple-weaken (λ _ p. p) (λ _ _ p. inr p) (λ _ _ p. p) (already (fail setup e) h)

  fail_step :
      (e : Problem) → Triple Gated (fail setup e) (λ (_ : Unit {0}) o. Gated o) (λ _ o. Gated o)
  fail_step e = record {
    at = λ o h. elim h [ inl b ↦ (fail-Before e).at o b | inr p ↦ (fail_after e p).at o tt ];
  }

  execute_step :
      null setup.health_checks ≡ false
      → setup.config.health_check_retries ≡ suc k
      → Triple (Before db) (execute setup) (λ _ o. Gated o) (λ _ o. Gated o)
  unfolding execute
  execute_step some_check retries =
      triple-bind _ _ (quietly _ (update-Quiet db (λ s. record s { started = true }))) λ _.
        triple-try_except _ _
          (triple-weaken (λ _ p. p) (λ _ _ p. inr p) (λ _ _ p. p) (migrate_step some_check retries))
          λ e. fail_step e

-- With a health check set up and at least one attempt allowed, a run that has not switched the
-- traffic before switches it only if in one of the allowed attempts every check passed: however the
-- run ends, no change led to the switch, or there is such an attempt.
pub execute_gated :
    (db : Database) (setup : Setup db) (k : ℕ) (o : Orchestrator db)
    → null setup.health_checks ≡ false
    → setup.config.health_check_retries ≡ suc k
    → has_switched o.changes ≡ false
    → Ends
        (execute setup o)
        (λ _ o'. (has_switched o'.changes ≡ false) ⊎ Passing setup.health_checks k)
        (λ _ o'. (has_switched o'.changes ≡ false) ⊎ Passing setup.health_checks k)
execute_gated db setup k o some_check retries before = record {
  post = (execute_step db setup k some_check retries).at o before;
}
