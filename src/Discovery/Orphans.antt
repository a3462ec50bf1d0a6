-- ===== src/Discovery/Orphans.antt =====
-- Proofs about `fix_orphaned_sql_files`.
use mathlib.Core.List.{Perm}
use mathlib.Core.List.Perm
use confiture.Base.{◌≡◌, Bool, true, List, [], ◌∷◌, ◌++◌, map, nat_eq, list_eq, ◌⊎◌, All}
use confiture.Base.Text.{Text}
use confiture.Discovery.{File, name_of, Fixed, is_orphan, repaired_name}

-- A file afterwards, against the file before: with the same content, under its name or, if that was
-- the name of an orphan, under the repaired name.
abbrev pub Same : File → File → Type 0
Same f g =
    (g.1 ≡ f.1)
    × ((name_of g ≡ name_of f)
        ⊎ ((is_orphan (name_of f) ≡ true) × (name_of g ≡ repaired_name (name_of f))))

-- File by file.
abbrev pub AllSame : List File → List File → Type 0
AllSame [] [] = Unit
AllSame [] (g ∷ gs) = ⊥
AllSame (f ∷ fs) [] = ⊥
AllSame (f ∷ fs) (g ∷ gs) = Same f g × AllSame fs gs

module _ (old : Text) (orphan : is_orphan old ≡ true) where
  abbrev new : Text
  new = repaired_name old

-- What is reported: the files of the renames, and those of the errors.
abbrev pub reported : Fixed → List Text
reported r = map (λ p. p.0) r.renamed ++ r.errors

-- A rename is to the repaired name.
abbrev pub IsRepair : Text × Text → Type 0
IsRepair p = p.1 ≡ repaired_name p.0

module _ (can_rename : Text → Bool) where
  -- What one turn keeps and adds.
  Turn : List File → Text → Fixed → Fixed → Type 0
  Turn start old r r' =
      Perm (reported r') (old ∷ reported r)
      × (AllSame start r.files → AllSame start r'.files)
      × (All IsRepair r.renamed → All IsRepair r'.renamed)
