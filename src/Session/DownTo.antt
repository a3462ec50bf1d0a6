-- ===== src/Session/DownTo.antt =====
-- Proofs about `down_to`, on the stack.
use confiture.Base.{
  ◌≡◌, refl, sym, ◌∙◌, ap, Bool, true, false, not, List, [], ◌∷◌, ◌++◌, reverse, if◌then◌else◌, All,
  contains, IsDistinct, nat_eq, list_eq, contains-append, beq_refl,
}
use confiture.Base.Text.{Text}
use confiture.Base.Exec.{Outcome, ok, raise}
use confiture.Base.Triple.{
  Ends, Triple, triple-bind, triple-if, triple-raise, triple-weaken, triple_assume,
}
use confiture.Postgres.{Raised, Connection}
use confiture.Postgres.Laws.{IsPostgres, StaysUp}
use confiture.Locking.{LockConfig, Digest}
use confiture.Migrator.{Reading, Migration}
use confiture.Migrator.Tracking.{Catalog, IsCatalog}
use confiture.Migrator.Calm.{Calm, Ready}
use confiture.Rollback.{RollbackPlan, plan_down_to}
use confiture.Rollback.Plan.{plan_valid, noop_rollback}
use confiture.Discovery.{Directory, find_migration_files}
use confiture.Session.{
  Locals, Call, LockStatements, known_versions, is_reversible, reversible_versions,
}
use confiture.Session.Laws.{IsLock}
use confiture.Session.Down.{DownToResult, carry_out, down_to, refusal}
use confiture.Session.Rules.{opened, selected}
use confiture.Session.Sequence.{IsReverted, has_file}
use confiture.Session.Stack.{stack, IsSettled, pop_to, reversible-has_file}
use confiture.Session.Locked.{AtRest}
use confiture.Session.CarryOut as CarryOut

module _ (pg : Connection) (laws : IsPostgres pg) (up : StaysUp pg)
    (load : Text → Outcome Raised (Migration pg)) (read : Text → Reading) (dir : Directory)
    (reverted : (file : Text) (m : Migration pg) → load file ≡ ok m → IsReverted pg file m) where
  module _ (catalog : Catalog pg) (tables : IsCatalog pg catalog) (lock : LockStatements pg)
      (locks : IsLock pg lock) (digest : Digest) (config : LockConfig) (target : Text)
      (dry_run : Bool) (applied : List Text) (distinct : IsDistinct applied) where
    abbrev At : (List Text → Locals → Type 0) → Call pg → Type 0
    At G s = AtRest pg laws up lock locks digest config G s

    abbrev bottom : List Text
    bottom = pop_to target (reverse applied)

    abbrev Partly : List Text → Locals → Type 0
    Partly =
        CarryOut.Partly pg laws up load read dir reverted catalog tables lock locks digest config
          target dry_run applied distinct

    abbrev Reached : DownToResult → List Text → Locals → Type 0
    Reached =
        CarryOut.Reached pg laws up load read dir reverted catalog tables lock locks digest config
          target dry_run applied distinct

    -- The plan of `down_to`.
    abbrev plan_of : List Text → RollbackPlan
    plan_of found = plan_down_to found (known_versions dir) target (reversible_versions dir)

    have_files :
        (vs : List Text)
        → All (λ v. contains (reversible_versions dir) v ≡ true) vs
        → All (λ v. has_file (find_migration_files dir) v ≡ true) vs
    unfolding reversible_versions
    have_files [] h = tt
    have_files (v ∷ vs) h = (
      reversible-has_file (is_reversible dir) (find_migration_files dir) v h.0,
      have_files vs h.1,
    )

    abbrev Told : DownToResult → Call pg → Type 0
    Told r s = At (Reached r) s × (contains applied target ≡ true)

    valid_step :
        (plan_of applied).valid ≡ true
        → Triple
            (λ s. Ready pg applied s.engine.conn × Unit {0})
            (carry_out load read dir catalog lock digest config applied (plan_of applied) dry_run)
            (λ r s. Told r s)
            (λ _ s. At Partly s)
    valid_step valid =
        let (older, cut, fresh, downs) =
          plan_valid applied (known_versions dir) target (reversible_versions dir) valid in
        let has : contains applied target ≡ true =
          ap (λ l. contains l target) cut
          ∙ contains-append older (target ∷ reverse (plan_of applied).to_rollback) target
          ∙ rw (fresh, beq_refl target) refl in
        triple-weaken (λ _ h. h) (λ _ s h. (h, has)) (λ _ _ h. h)
          (CarryOut.carry_step pg laws up load read dir reverted catalog tables lock locks digest
            config target dry_run applied distinct (plan_of applied) older cut
            (have_files (plan_of applied).to_rollback downs)
            (noop_rollback applied (known_versions dir) target (reversible_versions dir)))

    decide_step :
        Triple
          (λ s. Ready pg applied s.engine.conn × Unit {0})
          (if not (plan_of applied).valid
            then raise (refusal (plan_of applied) (plan_of applied).reason)
            else carry_out load read dir catalog lock digest config applied
                (plan_of applied)
                dry_run)
          (λ r s. Told r s)
          (λ _ s. At Partly s)
    decide_step =
        triple-if (not (plan_of applied).valid) _ _
          (λ _. triple-raise _ (λ s h. (
            applied,
            (h.0.0, h.0.1),
            CarryOut.untouched pg laws up load read dir reverted catalog tables lock locks digest
                config target dry_run applied distinct s.locals,
          )))
          (λ ok. valid_step (unnot (plan_of applied).valid ok))
      where
        unnot : (b : Bool) → not b ≡ false → b ≡ true
        unnot true h = refl
        unnot false h = sym h

    pub down_to_step :
        Triple
          (λ s. Calm pg applied s.engine.conn × Unit {0})
          (down_to load read dir catalog lock digest config target dry_run)
          (λ r s. Told r s)
          (λ _ s. At Partly s)
    unfolding down_to
    down_to_step =
        let stop : (s : Call pg) → Calm pg applied s.engine.conn × Unit {0} → At Partly s = λ s h. (
          applied,
          h.0,
          CarryOut.untouched pg laws up load read dir reverted catalog tables lock locks digest
              config target dry_run applied distinct s.locals,
        ) in
        triple-bind _ _
          (triple-weaken (λ _ h. h) (λ _ _ h. h) (λ _ s h. stop s h)
            (opened pg laws up catalog tables applied))
          λ _.
            triple-bind _ _
              (triple-weaken (λ _ h. h) (λ _ s h. ((h.0.0, h.1), h.0.1)) (λ _ s h. stop s h)
                (selected pg laws up catalog tables applied))
              λ found.
                triple_assume {S = Call pg} (λ s. Ready pg applied s.engine.conn × Unit {0})
                  (found ≡ applied) (λ e. rw e decide_step)

    pub down_to-stack :
        Triple
          (λ s. Calm pg applied s.engine.conn × Unit {0})
          (down_to load read dir catalog lock digest config target dry_run)
          (λ r s.
            (contains applied target ≡ true)
            × (stack s ≡ (if dry_run then reverse applied else bottom))
            × (reverse applied ≡ r.rolled_back ++ bottom)
            × (r.skipped ≡ [])
            × IsSettled s)
          (λ _ s.
            ((gone : List Text) × (reverse applied ≡ gone ++ stack s))
            × ((kept : List Text) × (stack s ≡ kept ++ bottom))
            × IsSettled s)
    down_to-stack =
        triple-weaken (λ _ h. h)
          (λ r s h.
            let (ws, (now, calm), (left, off, none_skipped)) = h.0 in
            (h.1, ap reverse now ∙ left, off, none_skipped, calm))
          (λ e s h.
            let (ws, (now, calm), (gone, kept, off, on_top)) = h in
            (
              (gone, off ∙ ap (λ l. gone ++ reverse l) (sym now)),
              (kept, ap reverse now ∙ on_top),
              calm,
            ))
          down_to_step

-- `down_to`, seen as an operation on a stack: the versions in the committed tracking table, the
-- newest first. The connection keeps PostgreSQL's laws and is not lost, the statements of the lock
-- and of `initialize` leave the rows of the table alone, each file is of the version in its name,
-- its migration is transactional and its `down` stays inside the transaction; no version is in the
-- table twice and nothing is pending. If `down_to` returns, the target was in the table, and the
-- stack is what is left when versions are taken off until the target is on top (with `dry_run`, the
-- stack is as before); what is reported as rolled back is what lies above the target, newest first,
-- and nothing is skipped. If it raises, be it at the plan, the lock, a file or a migration, some of
-- the versions above the target may be gone, from the top, and the target and all below it are left.
-- In either case nothing is pending.
pub down_to_pops :
    (pg : Connection) (laws : IsPostgres pg) (up : StaysUp pg)
    (load : Text → Outcome Raised (Migration pg)) (read : Text → Reading) (dir : Directory)
    → ((file : Text) (m : Migration pg) → load file ≡ ok m → IsReverted pg file m)
    → (catalog : Catalog pg) → IsCatalog pg catalog
    → (lock : LockStatements pg) → IsLock pg lock
    → (digest : Digest) (config : LockConfig) (target : Text) (dry_run : Bool) (s : Call pg)
    → IsDistinct (pg.versions (pg.committed s.engine.conn))
    → IsSettled s
    → Ends
        (down_to load read dir catalog lock digest config target dry_run s)
        (λ r s'.
          (contains (pg.versions (pg.committed s.engine.conn)) target ≡ true)
          × (stack s' ≡ (if dry_run then stack s else pop_to target (stack s)))
          × (stack s ≡ r.rolled_back ++ pop_to target (stack s))
          × (r.skipped ≡ [])
          × IsSettled s')
        (λ _ s'.
          ((gone : List Text) × (stack s ≡ gone ++ stack s'))
          × ((kept : List Text) × (stack s' ≡ kept ++ pop_to target (stack s)))
          × IsSettled s')
down_to_pops pg laws up load read dir reverted catalog tables lock locks digest config target
      dry_run s distinct settled =
    record {
      post =
          (down_to-stack pg laws up load read dir reverted catalog tables lock locks digest config
              target dry_run (pg.versions (pg.committed s.engine.conn)) distinct).at
            s ((refl, settled), tt);
    }
