-- ===== src/Checksum/Skips.antt =====
-- Proofs about the files that `verify_all` looks for.
use confiture.Base.{
  ◌≡◌, refl, ◌∙◌, inl, inr, true, false, none, some, List, [], ◌∷◌, ◌++◌, append_assoc, All,
  contains, subst, arith, nat_eq, list_eq, filterb,
}
use confiture.Base.Text.{Text, codes, ends_with, ends_with-append, text_eq_iff}
use confiture.Base.Exec.{Outcome}
use confiture.Base.Triple.{Ends, ends-Post}
use confiture.Discovery.{Directory}
use confiture.Checksum.{
  ChecksumConfig, Failure, Stored, Store, find_migration_file, first_match, matches, exact_name,
  verify_all,
}
use confiture.Checksum.Laws.{IsDatabaseError, IsStore}
use confiture.Checksum.Verify.{Unread, is_modified, verify_all_lem, no_rows}

module _ (digest : Text → Text → Outcome Text Text) (config : ChecksumConfig)
    (dir : Directory) where
  pyless-first_match :
      (version : Text) (names : List Text)
      → All (λ f. ends_with f (codes ".py") ≡ false) names
      → first_match version names ≡ none
  unfolding first_match matches
  pyless-first_match version [] h = refl
  pyless-first_match version (f ∷ names) h = ground (arith, pyless-first_match version names h.1)

  pyless-contains :
      (name : Text) (names : List Text)
      → ends_with name (codes ".py") ≡ true
      → All (λ f. ends_with f (codes ".py") ≡ false) names
      → contains names name ≡ false
  pyless-contains name [] e h = refl
  pyless-contains name (f ∷ names) e h =
      ground (arith, pyless-contains name names e h.1, text_eq_iff name f)

  exact_name_ends : (version name : Text) → ends_with (exact_name version name) (codes ".py") ≡ true
  exact_name_ends version name =
      subst (λ s. ends_with s (codes ".py") ≡ true)
        (append_assoc (version ++ codes "_") name (codes ".py")
          ∙ append_assoc version (codes "_") (name ++ codes ".py"))
        (ends_with-append ((version ++ codes "_") ++ name) (codes ".py"))

  pyless-find :
      (names : List Text)
      → dir ≡ some names
      → All (λ f. ends_with f (codes ".py") ≡ false) names
      → (version name : Text) → find_migration_file dir version name ≡ none
  unfolding find_migration_file
  pyless-find names e h version name =
      rw (e, pyless-contains (exact_name version name) names (exact_name_ends version name) h)
        (pyless-first_match version names h)

nothing_modified :
    (digest : Text → Text → Outcome Text Text) (config : ChecksumConfig) (names : List Text)
    → All (λ f. ends_with f (codes ".py") ≡ false) names
    → (rows : List Stored) → filterb (is_modified digest config (some names)) rows ≡ []
nothing_modified digest config names h [] = refl
nothing_modified digest config names h (row ∷ rows) =
    rw (pyless-find digest config (some names) names refl h row.version row.name)
      (nothing_modified digest config names h rows)

nothing-Unread :
    (digest : Text → Text → Outcome Text Text) (config : ChecksumConfig) (names : List Text)
    → All (λ f. ends_with f (codes ".py") ≡ false) names
    → (e : Failure) (rows : List Stored) → Unread digest config (some names) e rows
    → ⊥
nothing-Unread digest config names h e [] x = elim x [ ]
nothing-Unread digest config names h e (row ∷ rows) (inl (file, message, found, raised, same)) =
    cc (pyless-find digest config (some names) names refl h row.version row.name)
nothing-Unread digest config names h e (row ∷ rows) (inr later) =
    nothing-Unread digest config names h e rows later

-- Where no file of the directory ends in `.py`, verifying returns the empty list, whatever is
-- stored and whatever is in the files: migrations that are written in SQL are never checked. The
-- only other end is an exception of the database.
pub verify_all_skips_sql :
    (digest : Text → Text → Outcome Text Text) (config : ChecksumConfig) (names : List Text)
    (store : Store)
    → IsStore store
    → All (λ f. ends_with f (codes ".py") ≡ false) names
    → (c : store.Conn)
    → Ends
        (verify_all digest config (some names) store c)
        (λ ms _. ms ≡ [])
        (λ e _. IsDatabaseError e)
verify_all_skips_sql digest config names store laws h c =
    let none_modified = nothing_modified digest config names h (store.rows c) in
    record {
      post =
          ends-Post (λ ms _. ms ≡ []) (λ e _. IsDatabaseError e)
            (verify_all_lem digest config (some names) store laws c)
            (λ ms _ r. no_rows _ ms config.enabled (store.rows c) none_modified r.0)
            (λ e _ r. elim r.0 [
              | inl database ↦ database
              | inr (inl unread) ↦
                  absurd (nothing-Unread digest config names h e (store.rows c) unread)
              | inr (inr mismatch) ↦
                  absurd
                    (mismatch.4 (no_rows _ mismatch.0 true (store.rows c) none_modified mismatch.3))
            ]);
    }
