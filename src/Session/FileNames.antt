-- ===== src/Session/FileNames.antt =====
-- The names of the pending files, as `status`, the preflight and discovery read them.
use mathlib.Core.List.{reverse-append, reverse-reverse}
use confiture.Base.{
  append_assoc, ap₂, reverse, nat_beq, nat_beq_iff, and_true, ◌==◌, ◌≡◌, inl, inr, refl, sym, ap,
  ◌∙◌, Bool, true, false, ◌||◌, Option, List, [], ◌∷◌, ◌++◌, map, if◌then◌else◌, contains, allb,
  All, nat_eq, list_eq, Bool-cases, arith,
}
use confiture.Base.Text.{
  Text, codes, ends_with, drop_last, before, text_eq_iff, starts_with, ends_with-append,
  drop_last-append,
}
use confiture.Discovery.{Directory, up_sql, down_sql, underscore, version_from_migration_filename}
use confiture.Session.{exists_in}
use confiture.Session.Preflight.{info, pending_of, stem, base_name, sql_info}

-- A `.up.sql` file has its `.down.sql` beside it.
abbrev pub has_way_down : Directory → Text → Bool
has_way_down dir f = if ends_with f up_sql then exists_in dir (drop_last 7 f ++ down_sql) else true

pub All-contains :
    {P : Text → Type 0} (xs : List Text) → ((x : Text) → contains xs x ≡ true → P x) → All P xs
All-contains [] h = tt
All-contains (x ∷ xs) h =
    (h x (rw ((text_eq_iff x x).1 refl) refl), All-contains xs λ y c. h y (ground (arith, c)))

pub false-true : false ≡ true → ⊥
false-true h = cc

prefix_of : (s t : Text) → starts_with s t ≡ true → (rest : Text) × (s ≡ t ++ rest)
prefix_of s [] h = (s, refl)
prefix_of [] (d ∷ t) h = absurd (false-true h)
prefix_of (c ∷ s) (d ∷ t) h =
    let (same, later) = and_true (nat_beq c d) (starts_with s t) h in
    let (rest, e) = prefix_of s t later in (rest, ap₂ (λ x l. x ∷ l) ((nat_beq_iff c d).0 same) e)

suffix_of : (s t : Text) → ends_with s t ≡ true → (first : Text) × (s ≡ first ++ t)
suffix_of s t h =
    let (rest, e) = prefix_of (reverse s) (reverse t) h in
    (
      reverse rest,
      sym (reverse-reverse s)
          ∙ ap reverse e
          ∙ reverse-append (reverse t) rest
          ∙ ap (λ l. reverse rest ++ l) (reverse-reverse t),
    )

-- `status` reads the version of such a file as discovery does.
pub sql_version :
    (f : Text)
    → ends_with f up_sql ≡ true
    → before underscore (base_name f) ≡ version_from_migration_filename f
unfolding version_from_migration_filename
sql_version f h = let (s, e) = suffix_of f up_sql h in rw e (both s)
  where
    stem_of : (s : Text) → stem (s ++ up_sql) ≡ s ++ codes ".up"
    stem_of s =
        let e : s ++ up_sql ≡ (s ++ codes ".up") ++ codes ".sql" =
          sym (append_assoc s (codes ".up") (codes ".sql")) in
        rw
          (
            e,
            ends_with-append (s ++ codes ".up") (codes ".sql"),
            drop_last-append (s ++ codes ".up") (codes ".sql"),
          )
          refl

    both :
        (s : Text)
        → before underscore (base_name (s ++ up_sql))
          ≡ version_from_migration_filename (s ++ up_sql)
    both s =
        rw
          (
            stem_of s,
            ends_with-append s (codes ".up"),
            drop_last-append s (codes ".up"),
            ends_with-append s up_sql,
            drop_last-append s up_sql,
          )
          refl

pub contains-pending :
    (applied : List Text) (times : List (Text × Option Text)) (files : List Text) (f : Text)
    → contains files f ≡ true
    → contains applied (before underscore (base_name f)) ≡ false
    → contains (pending_of (map (info applied times) files)) (before underscore (base_name f))
      ≡ true
contains-pending applied times [] f h k = absurd (false-true h)
contains-pending applied times (g ∷ files) f h k = elim (Bool-cases (f == g)) [
  | inl same ↦
      let e : g ≡ f = sym ((text_eq_iff f g).0 same) in
      let version = before underscore (base_name f) in
      rw (e, k, (text_eq_iff version version).1 refl) refl
  | inr other ↦
      let rest = contains-pending applied times files f (rw other at h) k in
      elim (Bool-cases (contains applied (before underscore (base_name g)))) [
        | inl done ↦ rw done rest
        | inr new ↦ rw (new, rest) (or_true _)
      ]
]
  where
    or_true : (b : Bool) → (b || true) ≡ true
    or_true true = refl
    or_true false = refl

pub allb-map :
    (dir : Directory) (analyze : Text → List Text) (files : List Text) (f : Text)
    → allb (λ m. m.has_down) (map (sql_info dir analyze) files) ≡ true
    → contains files f ≡ true
    → exists_in dir (drop_last 7 f ++ down_sql) ≡ true
allb-map dir analyze [] f h c = absurd (false-true c)
allb-map dir analyze (g ∷ files) f h c =
    let (first, others) =
      and_true (exists_in dir (drop_last 7 g ++ down_sql))
        (allb (λ m. m.has_down) (map (sql_info dir analyze) files)) h in
    elim (Bool-cases (f == g)) [
      | inl same ↦ rw ((text_eq_iff f g).0 same) first
      | inr other ↦ allb-map dir analyze files f others (rw other at c)
    ]
