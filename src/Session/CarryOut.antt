-- ===== src/Session/CarryOut.antt =====
-- Proofs about what `down_to` does with a valid plan, on the stack.
use confiture.Base.{
  ◌≡◌, refl, sym, ◌∙◌, ap, subst, Bool, true, false, not, List, [], ◌∷◌, ◌++◌, append-nil,
  append_assoc, reverse, if◌then◌else◌, All, filterb, contains, IsDistinct, nat_eq, list_eq,
  filterb_none,
}
use confiture.Base.Text.{Text}
use confiture.Base.Exec.{Outcome, ok, pure, ◌>>=◌}
use confiture.Base.Triple.{Triple, triple-bind, triple-if, triple-pure, triple-weaken}
use confiture.Postgres.{Raised, Connection}
use confiture.Postgres.Laws.{IsPostgres, StaysUp}
use confiture.Locking.{LockConfig, Digest}
use confiture.Migrator.{Reading, Migration, Migrator}
use confiture.Migrator.Tracking.{Catalog, IsCatalog}
use confiture.Migrator.Prefix.{IsStart}
use confiture.Migrator.Calm.{Ready}
use confiture.Rollback.{RollbackPlan}
use confiture.Discovery.{Directory, find_migration_files}
use confiture.Session.{Locals, Call, LockStatements, engine_call, outside, locked}
use confiture.Session.Laws.{IsLock}
use confiture.Session.Down.{DownToResult, rollback_sequence, carry_out, total_ms}
use confiture.Session.Rules.{engine_rule, outside_rule}
use confiture.Session.Sequence.{
  IsReverted, Halted, filed, without, versions_of, has_file, each_step,
}
use confiture.Session.Stack.{
  pop_to, pop_to_bottom, filterb_every, without_cut, pop_to_cut, stack_cut, roll-applied,
}
use confiture.Session.Locked.{AtRest, locked_rule}

module _ (pg : Connection) (laws : IsPostgres pg) (up : StaysUp pg)
    (load : Text → Outcome Raised (Migration pg)) (read : Text → Reading) (dir : Directory)
    (reverted : (file : Text) (m : Migration pg) → load file ≡ ok m → IsReverted pg file m) where
  abbrev filed_here : List Text → List Text
  filed_here = filed pg laws up load read dir reverted

  abbrev pub Stops : List Text → List Text → Migrator pg → Type 0
  Stops versions vs s = Halted pg laws up load read dir reverted (filed_here versions) vs s.conn

  pub sequence_step :
      (versions vs : List Text)
      → Triple {S = Migrator pg}
          (λ s. Ready pg vs s.conn)
          (rollback_sequence load read dir versions false)
          (λ r s.
            Ready pg (without (filed_here versions) vs) s.conn
            × (versions_of r.0 ≡ filed_here versions))
          (λ _ s. Stops versions vs s)
  unfolding rollback_sequence
  sequence_step versions vs =
      triple-bind _ _ (each_step pg laws up load read dir reverted versions vs)
        (λ rs. triple-pure (rs, total_ms rs) (λ _ h. h))

  module _ (catalog : Catalog pg) (tables : IsCatalog pg catalog) (lock : LockStatements pg)
      (locks : IsLock pg lock) (digest : Digest) (config : LockConfig) (target : Text)
      (dry_run : Bool) (applied : List Text) (distinct : IsDistinct applied) where
    abbrev pub At : (List Text → Locals → Type 0) → Call pg → Type 0
    At G s = AtRest pg laws up lock locks digest config G s

    -- What is left of the stack.
    abbrev pub bottom : List Text
    bottom = pop_to target (reverse applied)

    -- The table `ws` after a call that raised: something was taken off, and not too much.
    abbrev pub Partly : List Text → Locals → Type 0
    Partly ws l =
        (popped : List Text) × (kept : List Text) × (reverse applied ≡ popped ++ reverse ws)
        × (reverse ws ≡ kept ++ bottom)

    abbrev pub Reached : DownToResult → List Text → Locals → Type 0
    Reached r ws l =
        (reverse ws ≡ (if dry_run then reverse applied else bottom))
        × (reverse applied ≡ r.rolled_back ++ bottom)
        × (r.skipped ≡ [])

    pub untouched : (l : Locals) → Partly applied l
    untouched l = let (top, e) = pop_to_bottom target (reverse applied) in ([], top, refl, e)

    module _ (older roll : List Text) (cut : applied ≡ older ++ (target ∷ reverse roll))
        (downs : All (λ v. has_file (find_migration_files dir) v ≡ true) roll) where
      all_filed : filed_here roll ≡ roll
      all_filed = filterb_every (has_file (find_migration_files dir)) roll downs

      stack_is : reverse applied ≡ roll ++ bottom
      stack_is =
          stack_cut applied older roll target cut distinct
          ∙ ap (λ l. roll ++ l) (sym (pop_to_cut applied older roll target cut distinct))

      done_Partly :
          (done : List Text) → IsStart done roll → (l : Locals) → Partly (without done applied) l
      done_Partly done (rest, e) l =
          let now = without_cut applied older roll target cut distinct done rest e in
          (
            done,
            rest,
            stack_is
                ∙ ap (λ l. l ++ bottom) e
                ∙ append_assoc done rest bottom
                ∙ ap (λ l. done ++ l) (sym now),
            now,
          )

      all_done : reverse (without roll applied) ≡ bottom
      all_done = without_cut applied older roll target cut distinct roll [] (sym (append-nil roll))

      under_lock :
          Triple
            (λ s. Ready pg applied s.engine.conn × Unit {0})
            (outside (
              locked lock digest config (engine_call (rollback_sequence load read dir roll false))))
            (λ _ s. At (λ ws l. ws ≡ without roll applied) s)
            (λ _ s. At Partly s)
      under_lock =
          outside_rule _ (λ s. At Partly s)
            (locked_rule pg laws up lock locks digest config _ applied (λ _. Unit {0})
              (λ _ ws l. ws ≡ without roll applied) Partly (λ l _. untouched l)
              (λ _ ws l e.
                subst (λ ws. Partly ws l) (sym e) (done_Partly roll ([], sym (append-nil roll)) l))
              (triple-weaken (λ _ h. h)
                (λ _ s h. (
                  without roll applied,
                  (h.0.0.0 ∙ ap (λ l. without l applied) all_filed, h.0.0.1),
                  refl,
                ))
                (λ _ s h. (
                  without h.0.0 applied,
                  h.0.1,
                  done_Partly h.0.0 (subst (IsStart h.0.0) all_filed h.0.2) s.locals,
                ))
                (engine_rule _ (λ _. Unit {0}) (λ s. Stops roll applied s)
                  (sequence_step roll applied) (λ _ t h. h))))

      abbrev Left : Call pg → Type 0
      Left s = At (λ ws l. reverse ws ≡ (if dry_run then reverse applied else bottom)) s

      run_step :
          (versions : List Text)
          → versions ≡ roll
          → (b : Bool) → b ≡ dry_run
          → Triple
              (λ s. Ready pg applied s.engine.conn × Unit {0})
              (if b
                then pure tt
                else (outside (
                      locked lock digest config
                        (engine_call (rollback_sequence load read dir versions false)))
                    >>= λ _. pure tt))
              (λ _ s. Left s)
              (λ _ s. At Partly s)
      run_step versions e true d =
          triple-pure tt (λ s h. (applied, (h.0.0, h.0.1), rw (sym d) refl))
      run_step versions e false d = rw e (
          triple-bind _ _ under_lock
            (λ _. triple-pure tt (λ s h. (h.0, h.1, ap reverse h.2 ∙ all_done ∙ rw (sym d) refl))))

    module _ (plan : RollbackPlan) (older : List Text)
        (cut : applied ≡ older ++ (target ∷ reverse plan.to_rollback))
        (downs : All (λ v. has_file (find_migration_files dir) v ≡ true) plan.to_rollback)
        (nothing : plan.noop ≡ true → plan.to_rollback ≡ []) where
      abbrev roll : List Text
      roll = plan.to_rollback

      executed : filterb (contains applied) roll ≡ roll
      executed =
          filterb_every (contains applied) roll
            (roll-applied applied older roll target cut distinct)

      not_skipped : filterb (λ v. not (contains applied v)) roll ≡ []
      not_skipped =
          filterb_none (λ v. not (contains applied v)) roll
            (flip roll (roll-applied applied older roll target cut distinct))
        where
          flip :
              (vs : List Text)
              → All (λ v. contains applied v ≡ true) vs
              → All (λ v. not (contains applied v) ≡ false) vs
          flip [] h = tt
          flip (v ∷ vs) h = (ap not h.0, flip vs h.1)

      same_stack : plan.noop ≡ true → reverse applied ≡ bottom
      same_stack n = stack_is older roll cut downs ∙ ap (λ l. l ++ bottom) (nothing n)

      either : {x y : List Text} (b : Bool) → x ≡ y → x ≡ (if b then x else y)
      either true e = refl
      either false e = e

      pub carry_step :
          Triple
            (λ s. Ready pg applied s.engine.conn × Unit {0})
            (carry_out load read dir catalog lock digest config applied plan dry_run)
            (λ r s. At (Reached r) s)
            (λ _ s. At Partly s)
      unfolding carry_out
      carry_step =
          triple-if plan.noop _ _
            (λ n. triple-pure _ (λ s h.
              (applied, (h.0.0, h.0.1), (either dry_run (same_stack n), same_stack n, refl))))
            λ _.
              triple-bind _ _
                (run_step older roll cut downs (filterb (contains applied) roll) executed dry_run
                  refl)
                λ _. triple-pure _ λ s h. (
                  h.0,
                  h.1,
                  (
                    h.2,
                    stack_is older roll cut downs ∙ ap (λ l. l ++ bottom) (sym executed),
                    not_skipped,
                  ),
                )
