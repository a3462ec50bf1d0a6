-- ===== src/Session/Gated.antt =====
-- Proofs about what the preflight says of the pending migrations.
use confiture.Base.{
  ap₂, subst, and_true, ◌≡◌, inl, inr, refl, sym, ap, ◌∙◌, Bool, true, false, not, ◌&&◌, ◌||◌,
  Option, none, some, List, [], ◌∷◌, ◌++◌, map, filterb, contains, allb, All, null, nat_eq, list_eq,
  contains-append, contains-filterb, Bool-cases, arith,
}
use confiture.Base.Text.{Text, codes, ends_with, text_gt}
use confiture.Base.Sort.{sort}
use confiture.Base.Sets.{contains-sort}
use confiture.Discovery.{
  Directory, up_sql, is_sql_migration, is_python_migration, version_from_migration_filename,
  find_migration_files, all_migration_files, not_applied_files, later_version,
}
use confiture.Session.Preflight.{
  MigrationInfo, MigrationPreflightInfo, info, pending_of, status_files, later_prefix, asked_for,
  sql_info, py_info, chosen, run_preflight, all_reversible, versions_to_check,
}
use confiture.Session.FileNames.{
  has_way_down, All-contains, false-true, sql_version, contains-pending, allb-map,
}

module _ (vs names : List Text) where
  abbrev pending : List Text
  pending = not_applied_files vs (find_migration_files (some names))

  -- The versions of the pending `.up.sql` files are among those of a status.
  abbrev pub IsSeen : List MigrationInfo → Type 0
  IsSeen infos =
      (f : Text)
      → contains pending f ≡ true
      → ends_with f up_sql ≡ true
      → contains (pending_of infos) (version_from_migration_filename f) ≡ true

  pending_file :
      (f : Text)
      → contains pending f ≡ true
      → (contains names f ≡ true) × (contains vs (version_from_migration_filename f) ≡ false)
  unfolding not_applied_files find_migration_files all_migration_files
  pending_file f h =
      let new = λ (f : Text). not (contains vs (version_from_migration_filename f)) in
      let (there, fresh) =
        and_true (contains (find_migration_files (some names)) f) (new f)
          (sym (contains-filterb new (find_migration_files (some names)) f) ∙ h) in
      (
        either (contains names f) (is_python_migration f) (is_sql_migration f) (
            ap₂ (λ a b. a || b) (sym (contains-filterb is_python_migration names f))
              (sym (contains-filterb is_sql_migration names f))
            ∙ sym (
                contains-append (filterb is_python_migration names) (filterb is_sql_migration names)
                  f)
            ∙ sym (contains-sort later_version (all_migration_files names) f)
            ∙ there),
        ground (arith, fresh),
      )
    where
      either : (a b c : Bool) → ((a && b) || (a && c)) ≡ true → a ≡ true
      either true b c h = refl
      either false b c h = cc

  in_status :
      (f : Text)
      → contains names f ≡ true
      → ends_with f up_sql ≡ true
      → contains (status_files names) f ≡ true
  unfolding status_files
  in_status f there h =
      let py = λ (f : Text). ends_with f (codes ".py") in
      let sql = λ (f : Text). ends_with f up_sql in
      contains-sort later_prefix (filterb py names ++ filterb sql names) f
      ∙ contains-append (filterb py names) (filterb sql names) f
      ∙ ap₂ (λ a b. a || b) refl (contains-filterb sql names f ∙ rw (there, h) refl)
      ∙ or_true (contains (filterb py names) f)
    where
      or_true : (b : Bool) → (b || true) ≡ true
      or_true true = refl
      or_true false = refl

  pub seen :
      (applied : List Text) (times : List (Text × Option Text))
      → ((v : Text) → contains vs v ≡ false → contains applied v ≡ false)
      → IsSeen (map (info applied times) (status_files names))
  seen applied times fewer f h sql =
      let (there, fresh) = pending_file f h in
      let same = sql_version f sql in
      subst (λ v. contains (pending_of (map (info applied times) (status_files names))) v ≡ true)
        same
        (contains-pending applied times (status_files names) f (in_status f there sql)
          (fewer _ (ap (contains vs) same ∙ fresh)))

  pub seen_none : null (status_files names) ≡ true → IsSeen []
  seen_none empty f h sql =
      absurd (no_member (status_files names) f empty (in_status f (pending_file f h).0 sql))
    where
      no_member : (files : List Text) (f : Text) → null files ≡ true → contains files f ≡ true → ⊥
      no_member [] f e c = false-true c
      no_member (g ∷ files) f e c = false-true e

  asked :
      (versions : List Text) (v : Text)
      → contains versions v ≡ true
      → asked_for (versions_to_check versions) v ≡ true
  asked [] v h = refl
  asked (w ∷ versions) v h = h

  allb-first :
      (p : MigrationPreflightInfo → Bool) (xs ys : List MigrationPreflightInfo)
      → allb p (xs ++ ys) ≡ true
      → allb p xs ≡ true
  allb-first p [] ys h = refl
  allb-first p (x ∷ xs) ys h = ground (arith, allb-first p xs ys)

  pub gate_sound :
      (analyze : Text → List Text) (infos : List MigrationInfo)
      → IsSeen infos
      → all_reversible (run_preflight (some names) analyze (versions_to_check (pending_of infos)))
        ≡ true
      → All (λ f. has_way_down (some names) f ≡ true) pending
  unfolding run_preflight is_sql_migration
  gate_sound analyze infos seen_all h = All-contains pending λ f c.
      elim (Bool-cases (ends_with f up_sql)) [
        | inr other ↦ rw other refl
        | inl sql ↦
            let versions = versions_to_check (pending_of infos) in
            let sorted = sort text_gt (filterb is_sql_migration names) in
            let wanted = λ (f : Text). asked_for versions (version_from_migration_filename f) in
            rw sql (
              allb-map (some names) analyze (chosen (some names) analyze versions sorted) f
                (allb-first (λ m. m.has_down)
                  (map (sql_info (some names) analyze)
                    (chosen (some names) analyze versions sorted))
                  (map (py_info (some names) analyze) (
                    chosen (some names) analyze versions
                      (sort text_gt (filterb is_python_migration names))))
                  h)
                (contains-filterb wanted sorted f
                  ∙ ap₂ (λ a b. a && b)
                      (contains-sort text_gt (filterb is_sql_migration names) f
                        ∙ contains-filterb is_sql_migration names f
                        ∙ ap₂ (λ a b. a && b) (pending_file f c).0 sql)
                      (asked (pending_of infos) (version_from_migration_filename f)
                        (seen_all f c sql))))
      ]

-- Every pending migration has its way down.
abbrev pub IsSafe : Directory → List Text → Type 0
IsSafe dir vs =
    All (λ f. has_way_down dir f ≡ true) (not_applied_files vs (find_migration_files dir))

abbrev pub HasSeen : Directory → List Text → List MigrationInfo → Type 0
HasSeen none vs infos = Unit
HasSeen (some names) vs infos = IsSeen vs names infos

pub checked-IsSafe :
    (dir : Directory) (vs : List Text) (analyze : Text → List Text) (infos : List MigrationInfo)
    → HasSeen dir vs infos
    → all_reversible (run_preflight dir analyze (versions_to_check (pending_of infos))) ≡ true
    → IsSafe dir vs
unfolding find_migration_files not_applied_files
checked-IsSafe none vs analyze infos h all = tt
checked-IsSafe (some names) vs analyze infos h all = gate_sound vs names analyze infos h all
