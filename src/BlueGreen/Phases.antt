-- ===== src/BlueGreen/Phases.antt =====
-- Proofs about the phases of a run, told by the changes that its callbacks see.
use confiture.Base.{
  ◌≡◌, ◌⊎◌, refl, sym, subst, Bool, true, false, not, some, [], if◌then◌else◌, inl, inr,
}
use confiture.Base.Exec.{pure}
use confiture.Base.Triple.{
  Ends, Triple, triple-bind, triple-try_except, triple-if, triple-pure, triple-raise, triple-weaken,
}
use confiture.BlueGreen.{
  MigrationPhase, init, complete, failed, rolled_back, Problem, Database, Orchestrator, Setup,
  drop_schema,
}
use confiture.BlueGreen.Execute.{
  way_from, rollback_drop_target, go_back, attempt_rollback, fail, execute,
}
use confiture.BlueGreen.Chain.{
  is_running, IsChain, given_up, taken_back, At, Midway, kept_step, set_phase_step, update_step,
  migrate_step,
}

module _ (db : Database) (setup : Setup db) where
  -- Where a failed run ends.
  abbrev GivenUp : Orchestrator db → Type 0
  GivenUp o = (At db) failed o ⊎ (At db) rolled_back o

  drop_step :
      {R : Problem → Orchestrator db → Type 0}
      → Triple ((At db) failed) (rollback_drop_target setup) (λ _ o. GivenUp o) R
  unfolding rollback_drop_target
  drop_step =
      triple-try_except _ _
        (triple-bind _ _
          ((kept_step db) failed (db.execute (drop_schema setup.config.target_schema)))
          λ _. triple-bind _ _ ((kept_step db) failed db.commit) λ _.
            triple-weaken (λ _ h. h) (λ _ _ h. inr h) (λ _ _ h. h)
              ((set_phase_step db) failed rolled_back taken_back {R = λ _ o. (At db) failed o}))
        (λ e.
          triple-weaken (λ _ h. h) (λ _ _ h. inl h) (λ _ _ h. h)
            ((update_step db) failed (λ s. record s { rollback_available = false }) (λ s. refl)))

  choose_step :
      {R : Problem → Orchestrator db → Type 0} (unavailable : Bool) (p : MigrationPhase)
      → p ≡ failed
      → Triple
          ((At db) failed)
          (if unavailable then pure tt else go_back setup (way_from p))
          (λ _ o. GivenUp o)
          R
  unfolding go_back
  choose_step {R} unavailable p e =
      triple-if unavailable _ _ (λ _. triple-pure tt (λ _ h. inl h))
        λ _.
          subst (λ p. Triple ((At db) failed) (go_back setup (way_from p)) (λ _ o. GivenUp o) R)
            (sym e) drop_step

  attempt_step :
      {R : Problem → Orchestrator db → Type 0}
      → Triple ((At db) failed) (attempt_rollback setup) (λ _ o. GivenUp o) R
  unfolding attempt_rollback
  attempt_step {R} = record {
    at = λ o h. (choose_step {R = R} (not o.state.rollback_available) o.state.phase h.0).at o h;
  }

  fail_step :
      (e : Problem) → Triple (Midway db) (fail setup e) (λ (_ : Unit {0}) o. ⊥) (λ _ o. GivenUp o)
  unfolding fail
  fail_step e = record { at = λ o h. (from h.0 h.1).at o h.2 }
    where
      from :
          (q : MigrationPhase)
          → is_running q ≡ true
          → Triple ((At db) q) (fail setup e) (λ (_ : Unit {0}) o. ⊥) (λ _ o. GivenUp o)
      from q running =
          triple-bind _ _ ((update_step db) q (λ s. record s { error = some e }) (λ s. refl)) λ _.
            triple-bind _ _ ((set_phase_step db) q failed (given_up q running))
              λ _. triple-bind _ _ attempt_step λ _. triple-raise e (λ _ h. h)

  run_step : Triple ((At db) init) (execute setup) (λ _ o. (At db) complete o) (λ _ o. GivenUp o)
  unfolding execute
  run_step =
      triple-bind _ _ ((update_step db) init (λ s. record s { started = true }) (λ s. refl)) λ _.
        triple-try_except _ _ (migrate_step db setup)
          λ e. triple-weaken (λ _ h. h) (λ _ _ no. absurd no) (λ _ _ h. h) (fail_step e)

-- A run from the initial phase ends in one of three phases: if it returns, in `complete`, and if it
-- raises, in `failed` or `rolled_back`. The changes that the callbacks were told lead from the
-- initial phase to that one, each from where the last one led, by the changes of `Next` alone:
-- no phase is left out, and a failure comes from a phase under way.
pub execute_phases :
    (db : Database) (setup : Setup db) (o : Orchestrator db)
    → o.state.phase ≡ init
    → o.changes ≡ []
    → Ends
        (execute setup o)
        (λ _ o'. (o'.state.phase ≡ complete) × IsChain init o'.changes complete)
        (λ _ o'.
          (o'.state.phase ≡ failed) × IsChain init o'.changes failed
          ⊎ (o'.state.phase ≡ rolled_back) × IsChain init o'.changes rolled_back)
execute_phases db setup o e none_yet = record {
  post = (run_step db setup).at o (e, rw none_yet refl);
}
