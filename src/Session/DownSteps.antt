-- ===== src/Session/DownSteps.antt =====
-- Proofs about `down`, on the stack.
use confiture.Base.{
  ℕ, zero, suc, ◌≡◌, refl, sym, ◌∙◌, ap, subst, Bool, true, false, not, List, [], ◌∷◌, ◌++◌,
  append-nil, null, reverse, if◌then◌else◌, filterb, contains, IsDistinct, nat_eq, list_eq, take,
  drop, take-append-drop,
}
use confiture.Base.Text.{Text}
use confiture.Base.Exec.{Outcome, ok, pure, ◌>>=◌}
use confiture.Base.Triple.{
  Ends, Triple, triple-bind, triple-if, triple-pure, triple-weaken, triple_assume,
}
use confiture.Postgres.{Raised, Connection}
use confiture.Postgres.Laws.{IsPostgres, StaysUp}
use confiture.Locking.{LockConfig, Digest}
use confiture.Migrator.{Reading, Migration, Migrator}
use confiture.Migrator.Tracking.{Catalog, IsCatalog}
use confiture.Migrator.Prefix.{IsStart}
use confiture.Migrator.Calm.{Calm, Ready}
use confiture.Discovery.{Directory, find_migration_files}
use confiture.Session.{Locals, Call, LockStatements}
use confiture.Session.Laws.{IsLock}
use confiture.Session.Down.{
  MigrateDownResult, last_steps, rollback_sequence, sequence_under, down, total_ms,
}
use confiture.Session.Rules.{engine_rule, outside_rule, opened, selected}
use confiture.Session.Sequence.{
  IsReverted, filed, without, without_none, versions_of, has_file, dry_each_step,
}
use confiture.Session.Stack.{stack, IsSettled, filterb-reverse, IsDistinct-reverse}
use confiture.Session.Last.{span, last_steps-take, without_passing}
use confiture.Session.CarryOut.{sequence_step, Stops}
use confiture.Session.Locked.{AtRest, locked_rule}

module _ (pg : Connection) (laws : IsPostgres pg) (up : StaysUp pg)
    (load : Text → Outcome Raised (Migration pg)) (read : Text → Reading) (dir : Directory)
    (reverted : (file : Text) (m : Migration pg) → load file ≡ ok m → IsReverted pg file m)
    (catalog : Catalog pg) (tables : IsCatalog pg catalog) (lock : LockStatements pg)
    (locks : IsLock pg lock) (digest : Digest) (config : LockConfig) (steps : ℕ)
    (applied : List Text) (distinct : IsDistinct applied) where
  abbrev At : (List Text → Locals → Type 0) → Call pg → Type 0
  At G s = AtRest pg laws up lock locks digest config G s

  abbrev known : Text → Bool
  known v = has_file (find_migration_files dir) v

  abbrev n : ℕ
  n = span steps applied

  abbrev top : List Text
  top = take n (reverse applied)

  abbrev rest : List Text
  rest = drop n (reverse applied)

  abbrev chosen : List Text
  chosen = reverse (last_steps steps applied)

  whole : top ++ rest ≡ reverse applied
  whole = take-append-drop n (reverse applied)

  filed-top : filed pg laws up load read dir reverted chosen ≡ filterb known top
  filed-top = ap (filterb known) (last_steps-take steps applied)

  -- What was rolled back so far, and the table without it.
  abbrev Partly : List Text → Locals → Type 0
  Partly ws l =
      (done : List Text) × (reverse ws ≡ without done (reverse applied))
      × IsStart done (filterb known top)

  abbrev Gone : Bool → MigrateDownResult → List Text → Locals → Type 0
  Gone dry_run r ws l =
      (reverse ws ≡ (if dry_run then reverse applied else filterb (λ v. not (known v)) top ++ rest))
      × (versions_of r.migrations_rolled_back ≡ filterb known top)
      × (r.success ≡ true)

  untouched : (l : Locals) → Partly applied l
  untouched l = ([], sym (without_none (reverse applied)), (filterb known top, refl))

  all_gone :
      reverse (without (filterb known top) applied) ≡ filterb (λ v. not (known v)) top ++ rest
  all_gone =
      sym (filterb-reverse (λ v. not (contains (filterb known top) v)) applied)
      ∙ ap (without (filterb known top)) (sym whole)
      ∙ without_passing known top rest
          (subst IsDistinct (sym whole) (IsDistinct-reverse applied distinct))

  under_step :
      Triple
        (λ s. Ready pg applied s.engine.conn × Unit {0})
        (sequence_under load read dir catalog lock digest config chosen false)
        (λ r s.
          At
            (λ ws l.
              (ws ≡ without (filterb known top) applied) × (versions_of r.0 ≡ filterb known top))
            s)
        (λ _ s. At Partly s)
  unfolding sequence_under
  under_step =
      outside_rule _ (λ s. At Partly s)
        (locked_rule pg laws up lock locks digest config _ applied (λ _. Unit {0})
          (λ r ws l.
            (ws ≡ without (filterb known top) applied) × (versions_of r.0 ≡ filterb known top))
          Partly (λ l _. untouched l)
          (λ r ws l h. (
            filterb known top,
            ap reverse h.0
                ∙ sym (filterb-reverse (λ v. not (contains (filterb known top) v)) applied),
            ([], sym (append-nil (filterb known top))),
          ))
          (triple-weaken (λ _ h. h)
            (λ r s h. (
              without (filterb known top) applied,
              (h.0.0.0 ∙ ap (λ l. without l applied) filed-top, h.0.0.1),
              (refl, h.0.1 ∙ filed-top),
            ))
            (λ _ s h. (
              without h.0.0 applied,
              h.0.1,
              (
                h.0.0,
                sym (filterb-reverse (λ v. not (contains h.0.0 v)) applied),
                subst (IsStart h.0.0) filed-top h.0.2,
              ),
            ))
            (engine_rule _ (λ _. Unit {0})
              (λ s. Stops pg laws up load read dir reverted chosen applied s)
              (sequence_step pg laws up load read dir reverted chosen applied) (λ _ t h. h))))

  dry_sequence :
      Triple {S = Migrator pg}
        (λ s. Ready pg applied s.conn)
        (rollback_sequence load read dir chosen true)
        (λ r s. Ready pg applied s.conn × (versions_of r.0 ≡ filterb known top))
        (λ _ s. Calm pg applied s.conn)
  unfolding rollback_sequence
  dry_sequence =
      triple-bind _ _ (dry_each_step pg laws up load read dir reverted chosen applied)
        (λ rs. triple-pure (rs, total_ms rs) (λ _ h. (h.0, h.1 ∙ filed-top)))

  dry_step :
      Triple
        (λ s. Ready pg applied s.engine.conn × Unit {0})
        (sequence_under load read dir catalog lock digest config chosen true)
        (λ r s. At (λ ws l. (ws ≡ applied) × (versions_of r.0 ≡ filterb known top)) s)
        (λ _ s. At Partly s)
  unfolding sequence_under
  dry_step =
      triple-weaken (λ _ h. h) (λ _ s h. (applied, (h.0.0.0, h.0.0.1), (refl, h.0.1)))
        (λ _ s h. (applied, h.0, untouched s.locals))
        (outside_rule _ (λ s. Calm pg applied s.engine.conn × Unit {0})
          (engine_rule _ (λ _. Unit {0}) (λ s. Calm pg applied s.conn) dry_sequence (λ _ t h. h)))

  -- With versions to roll back.
  some_step :
      (dry_run : Bool)
      → Triple
          (λ s. Ready pg applied s.engine.conn × Unit {0})
          (sequence_under load read dir catalog lock digest config chosen dry_run >>= λ result.
            pure (record {
              success = true;
              migrations_rolled_back = result.0;
              total_execution_time_ms = result.1;
            }))
          (λ r s. At (Gone dry_run r) s)
          (λ _ s. At Partly s)
  some_step true =
      triple-bind _ _ dry_step
        λ r. triple-pure _ (λ s h. (h.0, h.1, (ap reverse h.2.0, h.2.1, refl)))
  some_step false =
      triple-bind _ _ under_step
        λ r. triple-pure _ (λ s h. (h.0, h.1, (ap reverse h.2.0 ∙ all_gone, h.2.1, refl)))

  decide_step :
      (dry_run : Bool)
      → Triple
          (λ s. Ready pg applied s.engine.conn × Unit {0})
          (if null applied
            then pure (record {
              success = true;
              migrations_rolled_back = [];
              total_execution_time_ms = 0;
            })
            else (sequence_under load read dir catalog lock digest config chosen dry_run
                >>= λ result. pure (record {
                  success = true;
                  migrations_rolled_back = result.0;
                  total_execution_time_ms = result.1;
                })))
          (λ r s. At (Gone dry_run r) s)
          (λ _ s. At Partly s)
  decide_step dry_run =
      triple-if (null applied) _ _
        (λ empty. triple-pure _ (λ s h. (applied, (h.0.0, h.0.1), nothing empty)))
        (λ _. some_step dry_run)
    where
      empty_of : (vs : List Text) → null vs ≡ true → vs ≡ []
      empty_of [] h = refl
      empty_of (v ∷ vs) h = cc

      cut_nil :
          (b : Bool) (k : ℕ)
          → ([] ≡ (if b then [] else filterb (λ v. not (known v)) (take k []) ++ drop k []))
            × ([] ≡ filterb known (take k []))
      cut_nil true zero = (refl, refl)
      cut_nil true (suc k) = (refl, refl)
      cut_nil false zero = (refl, refl)
      cut_nil false (suc k) = (refl, refl)

      nothing :
          null applied ≡ true
          → (reverse applied
              ≡ (if dry_run then reverse applied else filterb (λ v. not (known v)) top ++ rest))
            × ([] ≡ filterb known top)
            × (◌≡◌ {A = Bool} true true)
      nothing h =
          rw (empty_of applied h)
            ((cut_nil dry_run (span steps [])).0, (cut_nil dry_run (span steps [])).1, refl)

  down_step :
      (dry_run : Bool)
      → Triple
          (λ s. Calm pg applied s.engine.conn × Unit {0})
          (down load read dir catalog lock digest config steps dry_run)
          (λ r s. At (Gone dry_run r) s)
          (λ _ s. At Partly s)
  unfolding down
  down_step dry_run =
      triple-bind _ _
        (triple-weaken (λ _ h. h) (λ _ _ h. h) (λ _ s h. stop s h)
          (opened pg laws up catalog tables applied))
        λ _.
          triple-bind _ _
            (triple-weaken (λ _ h. h) (λ _ s h. ((h.0.0, h.1), h.0.1)) (λ _ s h. stop s h)
              (selected pg laws up catalog tables applied))
            λ found.
              triple_assume {S = Call pg} (λ s. Ready pg applied s.engine.conn × Unit {0})
                (found ≡ applied) (λ e. rw e (decide_step dry_run))
    where
      stop : (s : Call pg) → Calm pg applied s.engine.conn × Unit {0} → At Partly s
      stop s h = (applied, h.0, untouched s.locals)

  pub down_stack :
      (dry_run : Bool)
      → Triple
          (λ s. Calm pg applied s.engine.conn × Unit {0})
          (down load read dir catalog lock digest config steps dry_run)
          (λ r s.
            (stack s
              ≡ (if dry_run then reverse applied else filterb (λ v. not (known v)) top ++ rest))
            × (versions_of r.migrations_rolled_back ≡ filterb known top)
            × (r.success ≡ true)
            × IsSettled s)
          (λ _ s.
            ((done : List Text) × (stack s ≡ without done (reverse applied))
              × IsStart done (filterb known top))
            × IsSettled s)
  down_stack dry_run =
      triple-weaken (λ _ h. h)
        (λ r s h.
          let (ws, (now, calm), (left, told, good)) = h in
          (ap reverse now ∙ left, told, good, calm))
        (λ e s h.
          let (ws, (now, calm), (done, left, start)) = h in
          ((done, ap reverse now ∙ left, start), calm))
        (down_step dry_run)

-- `down`, seen as an operation on the same stack, under the same conditions. `steps` of 0 count as
-- all versions, as Python reads the slice. If `down` returns, it has taken off the stack, of as many
-- versions from the top as `steps` says, those that have a file, and reports them, newest first;
-- those without a file stay in the table, and it reports success all the same. With `dry_run` it
-- reports the same and the stack is as before. If it raises, a beginning of those versions is gone.
-- In either case nothing is pending.
pub down_pops :
    (pg : Connection) (laws : IsPostgres pg) (up : StaysUp pg)
    (load : Text → Outcome Raised (Migration pg)) (read : Text → Reading) (dir : Directory)
    → ((file : Text) (m : Migration pg) → load file ≡ ok m → IsReverted pg file m)
    → (catalog : Catalog pg) → IsCatalog pg catalog
    → (lock : LockStatements pg) → IsLock pg lock
    → (digest : Digest) (config : LockConfig) (steps : ℕ) (dry_run : Bool) (s : Call pg)
    → IsDistinct (pg.versions (pg.committed s.engine.conn))
    → IsSettled s
    → let n = span steps (pg.versions (pg.committed s.engine.conn)) in
      let has = has_file (find_migration_files dir) in
      Ends
        (down load read dir catalog lock digest config steps dry_run s)
        (λ r s'.
          (stack s' ≡ (
            if dry_run
            then stack s
            else filterb (λ v. not (has v)) (take n (stack s)) ++ drop n (stack s)))
          × (versions_of r.migrations_rolled_back ≡ filterb has (take n (stack s)))
          × (r.success ≡ true)
          × IsSettled s')
        (λ _ s'.
          ((done : List Text) × (stack s' ≡ without done (stack s))
            × IsStart done (filterb has (take n (stack s))))
          × IsSettled s')
down_pops pg laws up load read dir reverted catalog tables lock locks digest config steps dry_run s
      distinct settled =
    record {
      post =
          (down_stack pg laws up load read dir reverted catalog tables lock locks digest config
              steps (pg.versions (pg.committed s.engine.conn)) distinct dry_run).at
            s ((refl, settled), tt);
    }
