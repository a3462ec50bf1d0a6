-- ===== src/Discovery/Files.antt =====
-- Proofs about the migration files of a directory, and about those that share a version.
use confiture.Base.{
  ◌≡◌, refl, sym, ◌∙◌, false, some, List, [], ◌∷◌, ◌++◌, append-nil, append_assoc, arith,
  if◌then◌else◌, filterb, contains, IsDistinct, ◌==◌, nat_eq, list_eq, inl, inr, Bool-cases, length,
  ltb,
}
use confiture.Base.Text.{Text, text_gt, text_eq_iff}
use confiture.Base.Sort.{sort}
use confiture.Discovery.{
  Groups, all_migration_files, version_from_migration_filename, add_file, group_files, shared,
  find_duplicate_migration_versions,
}

-- The files of a version in a dictionary.
pub files_of : Text → Groups → List Text
files_of version [] = []
files_of version ((v, files) ∷ groups) = if version == v then files else files_of version groups

keys : Groups → List Text
keys [] = []
keys ((v, files) ∷ groups) = v ∷ keys groups

files_of-add_file :
    (version v f : Text) (groups : Groups)
    → files_of version (add_file v f groups)
      ≡ (if version == v then files_of version groups ++ (f ∷ []) else files_of version groups)
unfolding files_of add_file
files_of-add_file version v f [] = refl
files_of-add_file version v f ((w, files) ∷ groups) = ground (
  arith,
  files_of-add_file version v f groups,
  text_eq_iff w v,
  text_eq_iff version v,
  text_eq_iff version w,
)

contains-keys-add_file :
    (version v f : Text) (groups : Groups)
    → version == v ≡ false
    → contains (keys (add_file v f groups)) version ≡ contains (keys groups) version
unfolding keys add_file
contains-keys-add_file version v f [] h = ground arith
contains-keys-add_file version v f ((w, files) ∷ groups) h =
    ground (arith, contains-keys-add_file version v f groups h)

add_file-IsDistinct :
    (v f : Text) (groups : Groups)
    → IsDistinct (keys groups)
    → IsDistinct (keys (add_file v f groups))
unfolding keys add_file
add_file-IsDistinct v f [] h = (refl, tt)
add_file-IsDistinct v f ((w, files) ∷ groups) h = elim (Bool-cases (w == v)) [
  | inl same ↦ rw same h
  | inr other ↦
      rw other (contains-keys-add_file w v f groups other ∙ h.0, add_file-IsDistinct v f groups h.1)
]

-- The files of one version among `files`.
abbrev pub with_version : Text → List Text → List Text
with_version version files = filterb (λ f. version == version_from_migration_filename f) files

group_files_lem :
    (version : Text) (files : List Text) (groups : Groups)
    → files_of version (group_files files groups)
      ≡ files_of version groups ++ with_version version files
unfolding group_files
group_files_lem version [] groups = sym (append-nil (files_of version groups))
group_files_lem version (f ∷ files) groups =
    group_files_lem version files (add_file (version_from_migration_filename f) f groups)
    ∙ rw files_of-add_file (elim (Bool-cases (version == version_from_migration_filename f)) [
      | inl same ↦ rw (same, append_assoc)
      | inr other ↦ rw other
    ])

group_files-IsDistinct :
    (files : List Text) (groups : Groups)
    → IsDistinct (keys groups)
    → IsDistinct (keys (group_files files groups))
unfolding group_files
group_files-IsDistinct [] groups h = h
group_files-IsDistinct (f ∷ files) groups h =
    group_files-IsDistinct files _
      (add_file-IsDistinct (version_from_migration_filename f) f groups h)

files_of_absent :
    (version : Text) (groups : Groups)
    → contains (keys groups) version ≡ false
    → files_of version groups ≡ []
unfolding files_of keys
files_of_absent version [] h = refl
files_of_absent version ((v, files) ∷ groups) h = ground (arith, files_of_absent version groups)

keys-shared :
    (version : Text) (groups : Groups)
    → contains (keys groups) version ≡ false
    → contains (keys (shared groups)) version ≡ false
unfolding keys shared
keys-shared version [] h = refl
keys-shared version ((v, files) ∷ groups) h = ground (arith, keys-shared version groups)

files_of-shared :
    (version : Text) (groups : Groups)
    → IsDistinct (keys groups)
    → files_of version (shared groups) ≡ (
        if ltb 1 (length (files_of version groups))
        then sort text_gt (files_of version groups)
        else [])
unfolding files_of shared keys
files_of-shared version [] h = refl
files_of-shared version ((v, files) ∷ groups) h = elim (Bool-cases (version == v)) [
  | inl same ↦ elim (Bool-cases (ltb 1 (length files))) [
    | inl many ↦ rw (many, same, many)
    | inr one ↦
        rw (one, same, one)
          (files_of_absent version (shared groups)
            (keys-shared version groups (rw ((text_eq_iff version v).0 same) h.0)))
  ]
  | inr other ↦ elim (Bool-cases (ltb 1 (length files))) [
    | inl many ↦ rw (many, other) (files_of-shared version groups h.1)
    | inr one ↦ rw (one, other) (files_of-shared version groups h.1)
  ]
]

-- The duplicates reported for a version are all of its migration files, sorted by name, if it has
-- more than one, and there is no report for it otherwise.
pub find_duplicate_migration_versions_lem :
    (version : Text) (names : List Text)
    → files_of version (find_duplicate_migration_versions (some names)) ≡ (
        if ltb 1 (length (with_version version (all_migration_files names)))
        then sort text_gt (with_version version (all_migration_files names))
        else [])
find_duplicate_migration_versions_lem version names =
    let files = all_migration_files names in
    let groups : Groups = group_files files [] in
    let e : files_of version groups ≡ with_version version files =
      (unfold files_of in group_files_lem version files []) in
    (unfold find_duplicate_migration_versions in
      (rw (← e)
        (files_of-shared version groups (unfold keys in group_files-IsDistinct files [] tt))))
