-- ===== src/Session/Runs.antt =====
-- Sequences of calls of a session, and the abstract machine on the stack of the versions.
use mathlib.Core.List.{reverse-reverse}
use confiture.Base.{
  ℕ, ◌≡◌, refl, sym, ◌∙◌, ap, subst, Bool, false, Option, List, [], ◌∷◌, ◌++◌, reverse, filterb,
  contains, IsDistinct, nat_eq, list_eq, take, take-append-drop, append-nil, if◌then◌else◌, ◌==◌,
  not, drop,
}
use confiture.Base.Text.{Text}
use confiture.Base.Exec.{Outcome, ok, err}
use confiture.Base.Triple.{Post, Ends}
use confiture.Base.Sets.{filterb-IsDistinct}
use confiture.Postgres.{Raised, Connection}
use confiture.Postgres.Laws.{IsPostgres, StaysUp}
use confiture.Locking.{LockConfig, Digest}
use confiture.Migrator.{Reading, Migration}
use confiture.Migrator.Tracking.{Catalog, IsCatalog}
use confiture.Migrator.Prefix.{IsTame, IsStart, planned}
use confiture.Discovery.{Directory, find_migration_files, not_applied_files}
use confiture.Session.{Call, LockStatements}
use confiture.Session.Laws.{IsLock}
use confiture.Session.Down.{down, down_to}
use confiture.Session.Up.{up}
use confiture.Session.Sequence.{IsReverted, without, has_file}
use confiture.Session.Stack.{stack, IsSettled, pop_to, IsDistinct-reverse}
use confiture.Session.Last.{span, length-reverse, without_passing}
use confiture.Session.DownTo.{down_to_pops}
use confiture.Session.DownSteps.{down_pops}
use confiture.Session.Preflight.{Checks}
use confiture.Session.Gate.{IsChecks}
use confiture.Session.UpPushes.{up_pushes}

-- The calls of a session that change the tracking table.
pub data Command : Type 0 where
  migrate_up : (target : Option Text) (require_reversible : Bool) → Command
  migrate_down : ℕ → Command
  migrate_down_to : Text → Command

-- The abstract machine: `plan` gives what is pending for a stack, and `has` tells which versions
-- have a file.
module _ (plan : List Text → List Text) (has : Text → Bool) where
  -- What a call may make of a stack, whether it returns or raises.
  abbrev pub Allowed : Command → List Text → List Text → Type 0
  Allowed (migrate_up target require_reversible) st st' =
      (pushed : List Text) × (st' ≡ reverse pushed ++ st) × IsStart pushed (plan st)
  Allowed (migrate_down steps) st st' =
      (done : List Text) × (st' ≡ without done st)
      × IsStart done (filterb has (take (span steps st) st))
  Allowed (migrate_down_to target) st st' =
      ((gone : List Text) × (st ≡ gone ++ st'))
      × ((kept : List Text) × (st' ≡ kept ++ pop_to target st))

  pub data Trace : List Command → List Text → List Text → Type 0 where
    over : {st : List Text} → Trace [] st st
    then_on :
        {c : Command} {commands : List Command} {st mid st' : List Text}
        → Allowed c st mid
        → Trace commands mid st'
        → Trace (c ∷ commands) st st'

module _ {pg : Connection} (load : Text → Outcome Raised (Migration pg)) (read : Text → Reading)
    (dir : Directory) (catalog : Catalog pg) (lock : LockStatements pg) (digest : Digest)
    (config : LockConfig) (checks : Checks pg) where
  -- The state that a call leaves, however it ends.
  unfoldable pub perform : Command → Call pg → Call pg
  perform (migrate_up target require_reversible) s =
      (up load read dir catalog lock digest config checks target require_reversible false false
        false s).1
  perform (migrate_down steps) s = (down load read dir catalog lock digest config steps false s).1
  perform (migrate_down_to target) s =
      (down_to load read dir catalog lock digest config target false s).1

  unfoldable pub run : List Command → Call pg → Call pg
  run [] s = s
  run (c ∷ commands) s = run commands (perform c s)

module _ {A B S : Type 0} where
  -- What holds in either case holds of the state.
  in_either :
      {Q : A → S → Type 0} {R : B → S → Type 0} (P : S → Type 0) (r : Outcome B A × S)
      → Ends r Q R
      → ((a : A) (s : S) → Q a s → P s)
      → ((b : B) (s : S) → R b s → P s)
      → P r.1
  in_either {Q} {R} P r h q k = go r.0 r.1 h.post
    where
      go : (o : Outcome B A) (s : S) → Post Q R o s → P s
      go (ok a) s h = q a s h
      go (err b) s h = k b s h

IsDistinct-end : (a b : List Text) → IsDistinct (a ++ b) → IsDistinct b
IsDistinct-end [] b h = h
IsDistinct-end (v ∷ a) b h = IsDistinct-end a b h.1

module _ (pg : Connection) (laws : IsPostgres pg) (up_law : StaysUp pg)
    (load : Text → Outcome Raised (Migration pg)) (read : Text → Reading) (dir : Directory)
    (tame : (file : Text) (m : Migration pg) → load file ≡ ok m → IsTame pg m)
    (reverted : (file : Text) (m : Migration pg) → load file ≡ ok m → IsReverted pg file m)
    (catalog : Catalog pg) (tables : IsCatalog pg catalog) (lock : LockStatements pg)
    (locks : IsLock pg lock) (digest : Digest) (config : LockConfig) (checks : Checks pg)
    (asks : IsChecks pg checks) where
  abbrev plan : List Text → List Text
  plan st = planned pg load (not_applied_files (reverse st) (find_migration_files dir))

  abbrev has : Text → Bool
  has v = has_file (find_migration_files dir) v

  abbrev table : Call pg → List Text
  table s = pg.versions (pg.committed s.engine.conn)

  -- Between two calls.
  abbrev Fine : Call pg → Type 0
  Fine s = IsDistinct (table s) × IsSettled s

  abbrev Performed : Command → Call pg → Call pg → Type 0
  Performed c s s' = Allowed plan has c (stack s) (stack s') × Fine s'

  of_stack : (s : Call pg) → IsDistinct (stack s) → IsDistinct (table s)
  of_stack s d = subst IsDistinct (reverse-reverse (table s)) (IsDistinct-reverse (stack s) d)

  plan-stack :
      (s : Call pg)
      → plan (stack s) ≡ planned pg load (not_applied_files (table s) (find_migration_files dir))
  plan-stack s =
      ap (λ l. planned pg load (not_applied_files l (find_migration_files dir)))
        (reverse-reverse (table s))

  up_performs :
      (target : Option Text) (require_reversible : Bool) (s : Call pg)
      → Fine s
      → Performed
          (migrate_up target require_reversible)
          s
          (up load read dir catalog lock digest config checks target require_reversible false false
            false s).1
  up_performs target require_reversible s fine =
      in_either (λ s'. Performed (migrate_up target require_reversible) s s') _
        (up_pushes pg laws up_law load read dir tame catalog tables lock locks digest config checks
          asks target require_reversible false s fine.1)
        (λ r s' h. ((_, h.0, subst (IsStart _) (sym (plan-stack s)) h.1), (h.4 fine.0, h.5)))
        (λ _ s' h.
          (([], ap reverse h.0, (plan (stack s), refl)), (subst IsDistinct (sym h.0) fine.0, h.1)))

  span-stack : (steps : ℕ) (s : Call pg) → span steps (table s) ≡ span steps (stack s)
  span-stack steps s = ap (λ n. if steps == 0 then n else steps) (sym (length-reverse (table s)))

  -- What `down` leaves is the stack without what it took.
  taken :
      (n : ℕ) (s : Call pg)
      → IsDistinct (table s)
      → filterb (λ v. not (has v)) (take n (stack s)) ++ drop n (stack s)
        ≡ without (filterb has (take n (stack s))) (stack s)
  taken n s d =
      let whole = take-append-drop n (stack s) in
      sym (
        without_passing has (take n (stack s)) (drop n (stack s))
          (subst IsDistinct (sym whole) (IsDistinct-reverse (table s) d)))
      ∙ ap (without (filterb has (take n (stack s)))) whole

  without-Fine :
      (done : List Text) (s s' : Call pg)
      → stack s' ≡ without done (stack s)
      → Fine s
      → IsDistinct (table s')
  without-Fine done s s' e fine = of_stack s' (
      subst IsDistinct (sym e) (
        filterb-IsDistinct (λ v. not (contains done v)) (stack s)
          (IsDistinct-reverse (table s) fine.0)))

  down_performs :
      (steps : ℕ) (s : Call pg)
      → Fine s
      → Performed
          (migrate_down steps)
          s
          (down load read dir catalog lock digest config steps false s).1
  down_performs steps s fine =
      in_either (λ s'. Performed (migrate_down steps) s s') _
        (down_pops pg laws up_law load read dir reverted catalog tables lock locks digest config
          steps false s fine.0 fine.1)
        (λ r s' h.
          let n = span steps (table s) in
          let e : stack s' ≡ without (filterb has (take n (stack s))) (stack s) =
            h.0 ∙ taken n s fine.0 in
          (
            (
              filterb has (take n (stack s)),
              e,
              (
                [],
                ap (λ n. filterb has (take n (stack s))) (sym (span-stack steps s))
                    ∙ sym (append-nil (filterb has (take n (stack s)))),
              ),
            ),
            (without-Fine (filterb has (take n (stack s))) s s' e fine, h.3),
          ))
        (λ _ s' h. (
          (
            h.0.0,
            h.0.1,
            subst (λ n. IsStart h.0.0 (filterb has (take n (stack s)))) (span-stack steps s) h.0.2,
          ),
          (without-Fine h.0.0 s s' h.0.1 fine, h.1),
        ))

  suffix_Fine :
      (gone : List Text) (s s' : Call pg)
      → stack s ≡ gone ++ stack s'
      → Fine s
      → IsDistinct (table s')
  suffix_Fine gone s s' e fine =
      of_stack s'
        (IsDistinct-end gone (stack s') (subst IsDistinct e (IsDistinct-reverse (table s) fine.0)))

  down_to_performs :
      (target : Text) (s : Call pg)
      → Fine s
      → Performed
          (migrate_down_to target)
          s
          (down_to load read dir catalog lock digest config target false s).1
  down_to_performs target s fine =
      in_either (λ s'. Performed (migrate_down_to target) s s') _
        (down_to_pops pg laws up_law load read dir reverted catalog tables lock locks digest config
          target false s fine.0 fine.1)
        (λ r s' h.
          let off : stack s ≡ r.rolled_back ++ stack s' =
            h.2 ∙ ap (λ l. r.rolled_back ++ l) (sym h.1) in
          (((r.rolled_back, off), ([], h.1)), (suffix_Fine r.rolled_back s s' off fine, h.4)))
        (λ _ s' h. ((h.0, h.1), (suffix_Fine h.0.0 s s' h.0.1 fine, h.2)))

  performs :
      (c : Command) (s : Call pg)
      → Fine s
      → Performed c s (perform load read dir catalog lock digest config checks c s)
  unfolding perform
  performs (migrate_up target require_reversible) s fine =
      up_performs target require_reversible s fine
  performs (migrate_down steps) s fine = down_performs steps s fine
  performs (migrate_down_to target) s fine = down_to_performs target s fine

  pub runs :
      (commands : List Command) (s : Call pg)
      → Fine s
      → Trace plan has commands
          (stack s)
          (stack (run load read dir catalog lock digest config checks commands s))
        × Fine (run load read dir catalog lock digest config checks commands s)
  unfolding run
  runs [] s fine = (over, fine)
  runs (c ∷ commands) s fine =
      let s' = perform load read dir catalog lock digest config checks c s in
      let (allowed, fine') = performs c s fine in
      let (rest, end) = runs commands s' fine' in (then_on {mid = stack s'} allowed rest, end)

-- Any sequence of `up` without force and without its dry runs, and of `down` and `down_to` without
-- dry run, where a caller goes on whatever a call returns or raises, follows the abstract machine on the stack of the committed versions: `up` pushes a
-- beginning of what is pending, `down` takes a beginning of the newest versions that have a file,
-- and `down_to` takes versions off the top but none from the target on. After each sequence the
-- versions in the table are distinct and nothing is pending, if it was so before. The connection
-- keeps PostgreSQL's laws and is not lost, the statements of the lock, of the preflight and of
-- `initialize` leave the rows alone, and the migrations are transactional, stay inside and are of the
-- version in their file's name.
pub session_refines :
    (pg : Connection) (laws : IsPostgres pg) (up_law : StaysUp pg)
    (load : Text → Outcome Raised (Migration pg)) (read : Text → Reading) (dir : Directory)
    → ((file : Text) (m : Migration pg) → load file ≡ ok m → IsTame pg m)
    → ((file : Text) (m : Migration pg) → load file ≡ ok m → IsReverted pg file m)
    → (catalog : Catalog pg) → IsCatalog pg catalog
    → (lock : LockStatements pg) → IsLock pg lock
    → (digest : Digest) (config : LockConfig) (checks : Checks pg) → IsChecks pg checks
    → (commands : List Command) (s : Call pg)
    → IsDistinct (pg.versions (pg.committed s.engine.conn))
    → IsSettled s
    → let s' = run load read dir catalog lock digest config checks commands s in
      Trace
        (λ st. planned pg load (not_applied_files (reverse st) (find_migration_files dir)))
        (has_file (find_migration_files dir))
        commands
        (stack s)
        (stack s')
      × IsDistinct (pg.versions (pg.committed s'.engine.conn))
      × IsSettled s'
session_refines pg laws up_law load read dir tame reverted catalog tables lock locks digest config
      checks asks commands s distinct settled =
    let (trace, fine) =
      runs pg laws up_law load read dir tame reverted catalog tables lock locks digest config checks
        asks commands s (distinct, settled) in
    (trace, fine.0, fine.1)
