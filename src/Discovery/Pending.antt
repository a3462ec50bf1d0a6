-- ===== src/Discovery/Pending.antt =====
-- Proofs about the pending files of a directory.
use confiture.Base.{
  ◌≡◌, refl, ap, ◌∙◌, Bool, false, not, ◌&&◌, ◌||◌, some, List, [], ◌∷◌, arith, filterb,
  contains-filterb, contains-append, contains, ◌==◌, nat_eq, list_eq, inl, inr, Bool-cases, All,
}
use confiture.Base.Text.{Text, codes, text_gt, text_gt-asym, text_eq_iff, starts_with, ends_with}
use confiture.Base.Sort.{sort, IsSorted, sort-IsSorted}
use confiture.Base.Sets.{contains-sort}
use confiture.Discovery.{
  find_migration_files, all_migration_files, is_python_migration, is_sql_migration, later_version,
  version_from_migration_filename, not_applied_files,
}

text_le_trans : (s t u : Text) → text_gt s t ≡ false → text_gt t u ≡ false → text_gt s u ≡ false
text_le_trans [] t u h k = refl
text_le_trans (c ∷ s) [] u h k = cc
text_le_trans (c ∷ s) (d ∷ t) [] h k = cc
text_le_trans (c ∷ s) (d ∷ t) (e ∷ u) h k = ground (arith, text_le_trans s t u)

-- Whether a file comes behind another one, by their versions.
abbrev pub is_later : Text → Text → Bool
is_later f g = text_gt (version_from_migration_filename f) (version_from_migration_filename g)

is_later_trans : (f g h : Text) → is_later f g ≡ false → is_later g h ≡ false → is_later f h ≡ false
is_later_trans f g h =
    text_le_trans (version_from_migration_filename f) (version_from_migration_filename g)
      (version_from_migration_filename h)

first_least :
    (f : Text) (files : List Text)
    → IsSorted is_later (f ∷ files)
    → All (λ g. is_later f g ≡ false) files
first_least f [] h = tt
first_least f (g ∷ files) h = (h.0, later files (first_least g files h.1))
  where
    later :
        (hs : List Text) → All (λ h. is_later g h ≡ false) hs → All (λ h. is_later f h ≡ false) hs
    later [] k = tt
    later (x ∷ hs) k = (is_later_trans f g x h.0 k.0, later hs k.1)

least-IsSorted :
    (f : Text) (files : List Text)
    → All (λ g. is_later f g ≡ false) files
    → IsSorted is_later files
    → IsSorted is_later (f ∷ files)
least-IsSorted f [] h k = tt
least-IsSorted f (g ∷ files) h k = (h.0, k)

All-filterb :
    (P : Text → Type 0) (p : Text → Bool) (files : List Text)
    → All P files
    → All P (filterb p files)
All-filterb P p [] h = tt
All-filterb P p (f ∷ files) h = elim (Bool-cases (p f)) [
  | inl e ↦ rw e (h.0, All-filterb P p files h.1)
  | inr e ↦ rw e (All-filterb P p files h.1)
]

rest-IsSorted :
    (f : Text) (files : List Text) → IsSorted is_later (f ∷ files) → IsSorted is_later files
rest-IsSorted f [] h = tt
rest-IsSorted f (g ∷ files) h = h.1

filterb-IsSorted :
    (p : Text → Bool) (files : List Text)
    → IsSorted is_later files
    → IsSorted is_later (filterb p files)
filterb-IsSorted p [] h = tt
filterb-IsSorted p (f ∷ files) h =
    let rest = filterb-IsSorted p files (rest-IsSorted f files h) in
    elim (Bool-cases (p f)) [
      | inl e ↦
          rw e (
            least-IsSorted f (filterb p files) (All-filterb _ p files (first_least f files h)) rest)
      | inr e ↦ rw e rest
    ]

-- The name of a migration.
abbrev pub is_migration : Text → Bool
is_migration f =
    ends_with f (codes ".up.sql") || (ends_with f (codes ".py") && not (starts_with f (codes "_")))

init_excluded :
    (f : Text)
    → is_python_migration f ≡ (ends_with f (codes ".py") && not (starts_with f (codes "_")))
unfolding is_python_migration
init_excluded f = elim (Bool-cases (f == codes "__init__.py")) [
  | inl same ↦
      let e = ap (λ g. starts_with g (codes "_")) ((text_eq_iff f (codes "__init__.py")).0 same) in
      rw (same, e) refl
  | inr other ↦ rw other refl
]

contains-migrations :
    (names : List Text) (f : Text)
    → contains (all_migration_files names) f ≡ (contains names f && is_migration f)
unfolding all_migration_files is_sql_migration
contains-migrations names f =
    contains-append (filterb is_python_migration names) (filterb is_sql_migration names) f
    ∙ rw
        (
          contains-filterb is_python_migration names f,
          contains-filterb is_sql_migration names f,
          init_excluded f,
        )
        (ground arith)

-- The files of a directory that `find_pending` finds, in their order: a file is one of them exactly
-- if it is in the directory, its name ends in `.up.sql`, or in `.py` with no underscore in front, and
-- its version is not applied; and no file stands before one with a smaller version.
pub pending_files_lem :
    (applied names : List Text)
    → ((f : Text)
        → contains (not_applied_files applied (find_migration_files (some names))) f ≡ (
            (contains names f && is_migration f)
            && not (contains applied (version_from_migration_filename f))))
      × IsSorted is_later (not_applied_files applied (find_migration_files (some names)))
unfolding not_applied_files find_migration_files later_version
pending_files_lem applied names = (
  λ f.
      contains-filterb (λ g. not (contains applied (version_from_migration_filename g)))
        (sort later_version (all_migration_files names)) f
      ∙ rw (contains-sort later_version (all_migration_files names) f, contains-migrations names f)
          refl,
  filterb-IsSorted (λ g. not (contains applied (version_from_migration_filename g)))
      (sort later_version (all_migration_files names))
      (sort-IsSorted later_version
        (λ f g h.
          text_gt-asym (version_from_migration_filename f) (version_from_migration_filename g) h)
        (all_migration_files names)),
)
