-- ===== src/Session/Sequence.antt =====
-- Proofs about the loop that rolls back.
use confiture.Base.{
  ◌≡◌, refl, sym, ◌∙◌, ap, ap₂, subst, Bool, true, false, not, Option, none, some, List, [], ◌∷◌,
  ◌++◌, map, if◌then◌else◌, arith, filterb, contains, contains-append, remove, nat_eq, list_eq,
  ◌==◌, append_assoc,
}
use confiture.Base.Text.{Text, text_eq_iff}
use confiture.Base.Exec.{Outcome, ok}
use confiture.Base.Triple.{Triple, triple-bind, triple-pure, triple-weaken, triple_assume}
use confiture.Postgres.{Raised, Connection}
use confiture.Postgres.Laws.{IsPostgres, StaysUp}
use confiture.Migrator.{Reading, Migration, Migrator}
use confiture.Migrator.Prefix.{IsStart}
use confiture.Migrator.Rules.{load_step}
use confiture.Migrator.Calm.{Calm, Ready, IsUndoable, rollback-Ready}
use confiture.Discovery.{Directory, find_migration_files, version_from_migration_filename}
use confiture.Session.{MigrationApplied, or_else, by_version}
use confiture.Session.Down.{rollback_file, rollback_each}

-- The versions without some.
abbrev pub without : List Text → List Text → List Text
without gone vs = filterb (λ v. not (contains gone v)) vs

pub without_none : (vs : List Text) → without [] vs ≡ vs
without_none [] = refl
without_none (v ∷ vs) = ap (λ l. v ∷ l) (without_none vs)

pub without-cons :
    (v : Text) (gone vs : List Text) → without (v ∷ gone) vs ≡ without gone (remove v vs)
without-cons v gone [] = refl
without-cons v gone (w ∷ vs) =
    ground (arith, without-cons v gone vs, text_eq_iff v w, text_eq_iff w v)

abbrev pub is_some {ℓ} : {A : Type ℓ} → Option A → Bool
is_some none = false
is_some (some a) = true

pub without-append : (ds es vs : List Text) → without es (without ds vs) ≡ without (ds ++ es) vs
without-append ds es [] = refl
without-append ds es (v ∷ vs) = ground (arith, without-append ds es vs, contains-append ds es v)

-- The versions that were rolled back.
abbrev pub versions_of : List MigrationApplied → List Text
versions_of entries = map (λ (a : MigrationApplied). a.version) entries

IsStart-append : (ds done plan : List Text) → IsStart done plan → IsStart (ds ++ done) (ds ++ plan)
IsStart-append ds done plan (rest, e) =
    (rest, ap (λ l. ds ++ l) e ∙ sym (append_assoc ds done rest))

pub versions_of-append :
    (xs ys : List MigrationApplied) → versions_of (xs ++ ys) ≡ versions_of xs ++ versions_of ys
versions_of-append [] ys = refl
versions_of-append (x ∷ xs) ys = ap (λ l. x.version ∷ l) (versions_of-append xs ys)

-- Whether a version has a file.
abbrev pub has_file : List Text → Text → Bool
has_file files v = is_some (by_version files v)

-- The file of a version is a file of that version.
chosen :
    (rest : Option Text) (g v f : Text)
    → ((f' : Text) → rest ≡ some f' → version_from_migration_filename f' ≡ v)
    → or_else rest (if version_from_migration_filename g == v then some g else none) ≡ some f
    → version_from_migration_filename f ≡ v
chosen (some f') g v f sound h = sound f h
chosen none g v f sound h = ground (arith, text_eq_iff (version_from_migration_filename g) v)

pub by_version_sound :
    (files : List Text) (v f : Text)
    → by_version files v ≡ some f
    → version_from_migration_filename f ≡ v
unfolding by_version
by_version_sound [] v f h = cc
by_version_sound (g ∷ files) v f h = chosen (by_version files v) g v f (by_version_sound files v) h

-- What rolling back asks of the files: each is of the version in its name, and can be undone.
pub record IsReverted (pg : Connection) (file : Text) (m : Migration pg) : Type 0 where
  pub named : m.version ≡ version_from_migration_filename file
  pub undoable : IsUndoable pg m

module _ (pg : Connection) (laws : IsPostgres pg) (up : StaysUp pg)
    (load : Text → Outcome Raised (Migration pg)) (read : Text → Reading) (dir : Directory)
    (reverted : (file : Text) (m : Migration pg) → load file ≡ ok m → IsReverted pg file m) where
  abbrev files : List Text
  files = find_migration_files dir

  -- Of the versions, those with a file.
  abbrev pub filed : List Text → List Text
  filed versions = filterb (has_file files) versions

  abbrev one : Option Text → Text → List Text
  one none v = []
  one (some f) v = v ∷ []

  filed-cons :
      (o : Option Text) (v : Text) (versions : List Text)
      → by_version files v ≡ o
      → filed (v ∷ versions) ≡ one o v ++ filed versions
  filed-cons none v versions e = rw e refl
  filed-cons (some f) v versions e = rw e refl

  file_step :
      (o : Option Text) (v : Text) (vs : List Text)
      → by_version files v ≡ o
      → Triple
          (λ s. Ready pg vs s.conn)
          (rollback_file load read dir false o)
          (λ first s. Ready pg (without (one o v) vs) s.conn × (versions_of first ≡ one o v))
          (λ _ s. Calm pg vs s.conn)
  unfolding rollback_file
  file_step none v vs e = triple-pure [] (λ s h. ((h.0 ∙ sym (without_none vs), h.1, h.2), refl))
  file_step (some file) v vs e =
      triple-bind _ _
        (triple-weaken (λ _ h. h) (λ _ _ h. h) (λ _ s h. (h.0, h.1))
          (load_step pg load read (λ s. Ready pg vs s.conn) file))
        λ m.
          triple_assume {S = Migrator pg} (λ s. Ready pg vs s.conn) (load file ≡ ok m)
            λ got.
              let r = reverted file m got in
              let same : m.version ≡ v = r.named ∙ by_version_sound files v file e in
              triple-bind _ _ (rollback-Ready pg laws up m false vs r.undoable) λ _.
                triple-pure _ λ s h. (
                  (
                    h.0.0
                        ∙ ap (λ v. remove v vs) same
                        ∙ sym (without-cons v [] vs ∙ without_none (remove v vs)),
                    h.0.1,
                    h.0.2,
                  ),
                  ap (λ v. v ∷ []) same,
                )

  -- A stop: what was rolled back until then is a beginning of what was to be.
  abbrev pub Halted : List Text → List Text → pg.Conn → Type 0
  Halted plan vs c = (done : List Text) × Calm pg (without done vs) c × IsStart done plan

  started_with :
      (o : Option Text) (v : Text) (versions vs : List Text) (c : pg.Conn)
      → by_version files v ≡ o
      → Halted (filed versions) (without (one o v) vs) c
      → Halted (filed (v ∷ versions)) vs c
  started_with o v versions vs c e (done, h, start) = (
    one o v ++ done,
    (h.0 ∙ without-append (one o v) done vs, h.1),
    subst (IsStart (one o v ++ done)) (sym (filed-cons o v versions e))
        (IsStart-append (one o v) done (filed versions) start),
  )

  pub each_step :
      (versions vs : List Text)
      → Triple
          (λ s. Ready pg vs s.conn)
          (rollback_each load read dir false versions)
          (λ rs s.
            Ready pg (without (filed versions) vs) s.conn × (versions_of rs ≡ filed versions))
          (λ _ s. Halted (filed versions) vs s.conn)
  unfolding rollback_each
  each_step [] vs = triple-pure [] (λ s h. ((h.0 ∙ sym (without_none vs), h.1, h.2), refl))
  each_step (v ∷ versions) vs =
      let o = by_version files v in
      triple-bind _ _
        (triple-weaken (λ _ h. h) (λ _ _ h. h)
          (λ _ s h. ([], (h.0 ∙ sym (without_none vs), h.1), (filed (v ∷ versions), refl)))
          (file_step o v vs refl))
        λ first.
          triple_assume {S = Migrator pg} (λ s. Ready pg (without (one o v) vs) s.conn)
            (versions_of first ≡ one o v)
            λ said.
              triple-bind _ _
                (triple-weaken (λ _ h. h) (λ _ _ h. h)
                  (λ _ s h. started_with o v versions vs s.conn refl h)
                  (each_step versions (without (one o v) vs)))
                λ rest. triple-pure (first ++ rest) λ s h. (
                  (
                    h.0.0
                        ∙ without-append (one o v) (filed versions) vs
                        ∙ ap (λ l. without l vs) (sym (filed-cons o v versions refl)),
                    h.0.1,
                    h.0.2,
                  ),
                  versions_of-append first rest
                      ∙ ap₂ (λ xs ys. xs ++ ys) said h.1
                      ∙ sym (filed-cons o v versions refl),
                )

  dry_file :
      (o : Option Text) (v : Text) (vs : List Text)
      → by_version files v ≡ o
      → Triple
          (λ s. Ready pg vs s.conn)
          (rollback_file load read dir true o)
          (λ first s. Ready pg vs s.conn × (versions_of first ≡ one o v))
          (λ _ s. Calm pg vs s.conn)
  unfolding rollback_file
  dry_file none v vs e = triple-pure [] (λ s h. (h, refl))
  dry_file (some file) v vs e =
      triple-bind _ _
        (triple-weaken (λ _ h. h) (λ _ _ h. h) (λ _ s h. (h.0, h.1))
          (load_step pg load read (λ s. Ready pg vs s.conn) file))
        λ m.
          triple_assume {S = Migrator pg} (λ s. Ready pg vs s.conn) (load file ≡ ok m)
            λ got. triple-pure _ λ s h.
              (h, ap (λ v. v ∷ []) ((reverted file m got).named ∙ by_version_sound files v file e))

  -- A dry run reports the same, and changes nothing.
  pub dry_each_step :
      (versions vs : List Text)
      → Triple
          (λ s. Ready pg vs s.conn)
          (rollback_each load read dir true versions)
          (λ rs s. Ready pg vs s.conn × (versions_of rs ≡ filed versions))
          (λ _ s. Calm pg vs s.conn)
  unfolding rollback_each
  dry_each_step [] vs = triple-pure [] (λ s h. (h, refl))
  dry_each_step (v ∷ versions) vs =
      let o = by_version files v in
      triple-bind _ _ (dry_file o v vs refl) λ first.
        triple_assume {S = Migrator pg} (λ s. Ready pg vs s.conn) (versions_of first ≡ one o v)
          λ said. triple-bind _ _ (dry_each_step versions vs) λ rest.
            triple-pure (first ++ rest) λ s h. (
              h.0,
              versions_of-append first rest
                  ∙ ap₂ (λ xs ys. xs ++ ys) said h.1
                  ∙ sym (filed-cons o v versions refl),
            )
