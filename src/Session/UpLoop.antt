-- ===== src/Session/UpLoop.antt =====
-- Proofs about the loop of `up`, on the committed versions and the local variables.
use confiture.Base.{
  ◌≡◌, refl, sym, ◌∙◌, ap, subst, Bool, true, false, not, ◌&&◌, Option, none, some, List, [], ◌∷◌,
  ◌++◌, append-nil, append_assoc, if◌then◌else◌, null, contains, IsDistinct, nat_eq, list_eq,
}
use confiture.Base.Sets.{IsDistinct-snoc}
use confiture.Base.Text.{Text}
use confiture.Base.Exec.{Outcome, ok, err, Exec, pure}
use confiture.Base.Triple.{
  Triple, triple-bind, triple-try_except, triple-if, triple-pure, triple-weaken, triple_assume,
}
use confiture.Postgres.{Raised, Connection}
use confiture.Postgres.Laws.{IsPostgres, StaysUp}
use confiture.Locking.{Problem}
use confiture.Migrator.{Reading, Migration}
use confiture.Migrator.Batch.{past_target}
use confiture.Migrator.Rules.{load_step}
use confiture.Migrator.Prefix.{IsTame, IsStart, planned, planned_ok}
use confiture.Migrator.Calm.{Calm, Ready, apply-Ready}
use confiture.Session.{MigrationApplied, Locals, Call}
use confiture.Session.Down.{entry}
use confiture.Session.Up.{applied_too, failing, apply_one, halt, up_each}
use confiture.Session.Rules.{engine_rule, change_step}
use confiture.Session.Sequence.{versions_of, versions_of-append}

abbrev pub is_none : Option Problem → Bool
is_none none = true
is_none (some e) = false

-- No exception, and no stop for a superuser.
abbrev pub is_clean : Locals → Bool
is_clean l = is_none l.failed && not l.halted

module _ (pg : Connection) (load : Text → Outcome Raised (Migration pg)) (read : Text → Reading)
    (target : Option Text) where
  abbrev due_of : Outcome Raised (Migration pg) → List Text → List Text
  due_of (ok m) rest = if past_target load read target m.version then [] else m.version ∷ rest
  due_of (err e) rest = []

  -- The versions of the files up to the target, or to the first file that does not load.
  pub due : List Text → List Text
  due [] = []
  due (file ∷ files) = due_of (load file) (due files)

  pub due_none : (files : List Text) → null files ≡ true → [] ≡ due files
  unfolding due
  due_none [] h = refl
  due_none (file ∷ files) h = cc

  due_ok :
      (file : Text) (files : List Text) (m : Migration pg)
      → load file ≡ ok m
      → due (file ∷ files)
        ≡ (if past_target load read target m.version then [] else m.version ∷ due files)
  unfolding due
  due_ok file files m e = rw e refl

module _ (pg : Connection) (laws : IsPostgres pg) (up : StaysUp pg)
    (load : Text → Outcome Raised (Migration pg)) (read : Text → Reading) (target : Option Text)
    (tame : (file : Text) (m : Migration pg) → load file ≡ ok m → IsTame pg m)
    (vs0 : List Text) where
  -- The local variables while the loop goes on.
  abbrev pub Fresh : List MigrationApplied → Locals → Type 0
  Fresh acc l =
      (l.migrations_applied ≡ acc)
      × (l.skipped_superuser ≡ [])
      × (l.halted ≡ false)
      × (l.failed ≡ none)

  -- The table is what it was with what is reported, a beginning of `plan`.
  abbrev pub Reports : List Text → List Text → Locals → Type 0
  Reports plan ws l =
      (ws ≡ vs0 ++ versions_of l.migrations_applied)
      × IsStart (versions_of l.migrations_applied) plan
      × (l.halted ≡ not (null l.skipped_superuser))
      × (IsDistinct vs0 → IsDistinct ws)

  -- And without a failure it is all that was due.
  abbrev pub EndsWell : List Text → List Text → List Text → Locals → Type 0
  EndsWell plan dues ws l =
      Reports plan ws l × (is_clean l ≡ true → versions_of l.migrations_applied ≡ dues)

  abbrev At : (List Text → Locals → Type 0) → Call pg → Type 0
  At G s = (ws : List Text) × Calm pg ws s.engine.conn × G ws s.locals

  abbrev plan_from : List MigrationApplied → List Text → List Text
  plan_from acc files = versions_of acc ++ planned pg load files

  abbrev dues_from : List MigrationApplied → List Text → List Text
  dues_from acc files = versions_of acc ++ due pg load read target files

  abbrev Going : List MigrationApplied → List Text → Call pg → Type 0
  Going acc vs s = Ready pg vs s.engine.conn × Fresh acc s.locals

  -- A stop with what was applied so far.
  stop_report :
      (acc : List MigrationApplied) (files vs : List Text) (l : Locals)
      → vs ≡ vs0 ++ versions_of acc
      → l.migrations_applied ≡ acc
      → l.halted ≡ not (null l.skipped_superuser)
      → (IsDistinct vs0 → IsDistinct vs)
      → Reports (plan_from acc files) vs l
  stop_report acc files vs l e a h d = (
    e ∙ ap (λ a. vs0 ++ versions_of a) (sym a),
    (planned pg load files, ap (λ a. versions_of a ++ planned pg load files) (sym a)),
    h,
    d,
  )

  pub Fresh-report :
      (acc : List MigrationApplied) (files vs : List Text) (l : Locals)
      → vs ≡ vs0 ++ versions_of acc
      → Fresh acc l
      → (IsDistinct vs0 → IsDistinct vs)
      → Reports (plan_from acc files) vs l
  Fresh-report acc files vs l e (a, b, c, d) distinct =
      stop_report acc files vs l e a (c ∙ rw b refl) distinct

  -- One migration: it goes on with one more, or stops with what there was.
  abbrev Next : List MigrationApplied → List Text → Migration pg → Text → Bool → Call pg → Type 0
  Next acc vs m file true s =
      Going (acc ++ (entry m (read file).elapsed_ms ∷ [])) (vs ++ (m.version ∷ [])) s
      × (contains vs m.version ≡ false)
  Next acc vs m file false s =
      Calm pg vs s.engine.conn
      × (s.locals.migrations_applied ≡ acc)
      × (s.locals.skipped_superuser ≡ [])
      × (s.locals.halted ≡ false)
      × (is_none s.locals.failed ≡ false)

  one_step :
      (acc : List MigrationApplied) (vs : List Text) (m : Migration pg) (file : Text)
      → IsTame pg m
      → Triple
          (λ s. Going acc vs s)
          (apply_one load read false true m file)
          (λ go_on s. Next acc vs m file go_on s)
          (λ _ _. ⊥)
  unfolding apply_one
  one_step acc vs m file t =
      triple-try_except {R' = λ _ s. Calm pg vs s.engine.conn × Fresh acc s.locals} _ _
        (triple-bind _ _
          (engine_rule _ (Fresh acc) (λ s. Calm pg vs s.conn)
            (apply-Ready pg laws up m (read file) false none vs t) (λ _ t h. h))
          λ _.
            triple-bind _ _
              (change_step {Q = λ _ s. Next acc vs m file true s}
                (applied_too (entry m (read file).elapsed_ms))
                (λ s h. (
                  (
                    h.0.0,
                    (
                      ap (λ a. a ++ (entry m (read file).elapsed_ms ∷ [])) h.1.0,
                      h.1.1,
                      h.1.2,
                      h.1.3,
                    ),
                  ),
                  h.0.1,
                )))
              (λ _. triple-pure true (λ _ h. h)))
        λ e.
          triple-bind _ _
            (change_step {Q = λ _ s. Next acc vs m file false s} (failing e)
              (λ s h. (h.0, h.1.0, h.1.1, h.1.2, refl)))
            (λ _. triple-pure false (λ _ h. h))

  one_more :
      (acc : List MigrationApplied) (a : MigrationApplied) (rest : List Text)
      → versions_of (acc ++ (a ∷ [])) ++ rest ≡ versions_of acc ++ (a.version ∷ rest)
  one_more acc a rest =
      ap (λ l. l ++ rest) (versions_of-append acc (a ∷ []))
      ∙ append_assoc (versions_of acc) (a.version ∷ []) rest

  grown :
      (acc : List MigrationApplied) (a : MigrationApplied) (vs : List Text)
      → vs ≡ vs0 ++ versions_of acc
      → vs ++ (a.version ∷ []) ≡ vs0 ++ versions_of (acc ++ (a ∷ []))
  grown acc a vs e =
      ap (λ l. l ++ (a.version ∷ [])) e
      ∙ append_assoc vs0 (versions_of acc) (a.version ∷ [])
      ∙ ap (λ l. vs0 ++ l) (sym (versions_of-append acc (a ∷ [])))

  failed_unclean : (l : Locals) → is_none l.failed ≡ false → is_clean l ≡ true → ⊥
  failed_unclean l h k = contradiction (is_none l.failed) (not l.halted) h k
    where
      contradiction : (b c : Bool) → b ≡ false → (b && c) ≡ true → ⊥
      contradiction true c h k = cc
      contradiction false c h k = cc

  halted_unclean : (l : Locals) → l.halted ≡ true → is_clean l ≡ true → ⊥
  halted_unclean l h k = contradiction (is_none l.failed) l.halted h k
    where
      contradiction : (b c : Bool) → c ≡ true → (b && not c) ≡ true → ⊥
      contradiction true true h k = cc
      contradiction true false h k = cc
      contradiction false c h k = cc

  -- After one migration.
  after_one :
      (acc : List MigrationApplied) (vs : List Text) (m : Migration pg) (file : Text)
      (files : List Text) (rest : Exec (Call pg) Problem Unit) (go_on : Bool)
      → vs ≡ vs0 ++ versions_of acc
      → load file ≡ ok m
      → past_target load read target m.version ≡ false
      → (IsDistinct vs0 → IsDistinct vs)
      → (contains vs m.version ≡ false
          → Triple
              (λ s. Going (acc ++ (entry m (read file).elapsed_ms ∷ [])) (vs ++ (m.version ∷ [])) s)
              rest
              (λ _ s.
                At
                  (EndsWell
                    (plan_from (acc ++ (entry m (read file).elapsed_ms ∷ [])) files)
                    (dues_from (acc ++ (entry m (read file).elapsed_ms ∷ [])) files))
                  s)
              (λ _ s.
                At (Reports (plan_from (acc ++ (entry m (read file).elapsed_ms ∷ [])) files)) s))
      → Triple
          (λ s. Next acc vs m file go_on s)
          (if go_on then rest else pure tt)
          (λ _ s. At (EndsWell (plan_from acc (file ∷ files)) (dues_from acc (file ∷ files))) s)
          (λ _ s. At (Reports (plan_from acc (file ∷ files))) s)
  after_one acc vs m file files rest true e got within d ih =
      let a = entry m (read file).elapsed_ms in
      let same_plan : plan_from (acc ++ (a ∷ [])) files ≡ plan_from acc (file ∷ files) =
        one_more acc a (planned pg load files)
        ∙ ap (λ l. versions_of acc ++ l) (sym (planned_ok pg load file files m got)) in
      let same_dues : dues_from (acc ++ (a ∷ [])) files ≡ dues_from acc (file ∷ files) =
        one_more acc a (due pg load read target files)
        ∙ ap (λ l. versions_of acc ++ l)
            (sym (due_ok pg load read target file files m got ∙ rw within refl)) in
      triple_assume {S = Call pg} (λ s. Going (acc ++ (a ∷ [])) (vs ++ (m.version ∷ [])) s)
        (contains vs m.version ≡ false)
        λ fresh.
          triple-weaken (λ _ h. h)
            (λ _ s h. (
              h.0,
              h.1,
              (subst (λ p. Reports p h.0 s.locals) same_plan h.2.0, λ c. h.2.1 c ∙ same_dues),
            ))
            (λ _ s h. (h.0, h.1, subst (λ p. Reports p h.0 s.locals) same_plan h.2)) (ih fresh)
  after_one acc vs m file files rest false e got within d ih = triple-pure tt λ s h. (
    vs,
    h.0,
    (
      stop_report acc (file ∷ files) vs s.locals e h.1 (h.3 ∙ rw h.2 refl) d,
      λ c. absurd (failed_unclean s.locals h.4 c),
    ),
  )

  pub up_each_step :
      (files : List Text) (acc : List MigrationApplied) (vs : List Text)
      → vs ≡ vs0 ++ versions_of acc
      → (IsDistinct vs0 → IsDistinct vs)
      → Triple
          (λ s. Going acc vs s)
          (up_each load read false target files)
          (λ _ s. At (EndsWell (plan_from acc files) (dues_from acc files)) s)
          (λ _ s. At (Reports (plan_from acc files)) s)
  unfolding up_each due
  up_each_step [] acc vs e d = triple-pure tt λ s h. (
    vs,
    (h.0.0, h.0.1),
    (
      Fresh-report acc [] vs s.locals e h.1 d,
      λ _. ap versions_of h.1.0 ∙ sym (append-nil (versions_of acc)),
    ),
  )
  up_each_step (file ∷ files) acc vs e d =
      triple-bind _ _
        (triple-weaken (λ _ h. h) (λ _ _ h. ((h.0.0, h.1), h.0.1))
          (λ _ s h. (vs, (h.0.0, h.0.1), Fresh-report acc (file ∷ files) vs s.locals e h.1 d))
          (engine_rule _ (Fresh acc) (λ s. Ready pg vs s.conn)
            (load_step pg load read (λ s. Ready pg vs s.conn) file) (λ _ t h. h)))
        λ m.
          triple_assume {S = Call pg} (λ s. Going acc vs s) (load file ≡ ok m)
            λ got.
              triple-if (past_target load read target m.version) _ _
                (λ past. triple-pure tt λ s h. (
                  vs,
                  (h.0.0, h.0.1),
                  (
                    Fresh-report acc (file ∷ files) vs s.locals e h.1 d,
                    λ _.
                        ap versions_of h.1.0
                        ∙ sym (
                            ap (λ l. versions_of acc ++ l)
                              (due_ok pg load read target file files m got ∙ rw past refl)
                            ∙ append-nil (versions_of acc)),
                  ),
                ))
                λ within.
                  triple-if m.requires_superuser _ _
                    (λ _. change_step (halt m.version files) λ s h. (
                      vs,
                      (h.0.0, h.0.1),
                      (
                        stop_report acc (file ∷ files) vs (halt m.version files s.locals) e h.1.0
                            (rw h.1.1 refl) d,
                        λ c. absurd (halted_unclean (halt m.version files s.locals) refl c),
                      ),
                    ))
                    λ _.
                      triple-bind _ _
                        (triple-weaken (λ _ h. h) (λ _ _ h. h) (λ _ _ no. absurd no)
                          (one_step acc vs m file (tame file m got)))
                        λ go_on.
                          after_one acc vs m file files (up_each load read false target files) go_on
                            e got within d
                            (λ fresh.
                              up_each_step files (acc ++ (entry m (read file).elapsed_ms ∷ []))
                                (vs ++ (m.version ∷ []))
                                (grown acc (entry m (read file).elapsed_ms) vs e)
                                (λ h. IsDistinct-snoc vs m.version (d h) fresh))
