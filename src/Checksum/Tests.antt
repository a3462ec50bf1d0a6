-- ===== src/Checksum/Tests.antt =====
-- A small table, and the theorems on it.
use confiture.Base.{
  ℕ, ◌⊎◌, ◌≡◌, refl, true, Option, none, some, List, [], ◌∷◌, ◌++◌, map, append-nil, append_assoc,
  nat_eq, list_eq,
}
use confiture.Base.Text.{Text, codes}
use confiture.Base.Exec.{Outcome, ok, err}
use confiture.Base.Triple.{Ends}
use confiture.Discovery.{Directory}
use confiture.Checksum.{
  fail, warn, ChecksumConfig, verification_error, Stored, Store, verify_all, handle_mismatches,
  mismatches_of, mismatch_of, find_migration_file, first_match, matches,
}
use confiture.Checksum.Hashing.{
  Hashlib, IsHashlib, update_chunks, compute_checksum, compute_checksum_from_content,
  compute_checksum-from_content,
}
use confiture.Checksum.Laws.{IsDatabaseError, with_checksum, IsStore}
use confiture.Checksum.Verify.{Returned, Refused, verify_all_lem}
use confiture.Checksum.Skips.{verify_all_skips_sql}
use confiture.Checksum.Update.{
  update_then_verify, with_file, renew, IsFileError, update_all_checksums-verify_all,
}

-- The table is the state.
abbrev store : Store
store = record {
  Conn = List Stored;
  rows = λ rows. rows;
  select_rows = λ rows. (ok rows, rows);
  update_row = λ version checksum rows. (ok tt, map (with_checksum version checksum) rows);
  commit = λ rows. (ok tt, rows);
}

store-IsStore : IsStore store
store-IsStore = record {
  select_law = λ c. record { post = (refl, refl) };
  update_law = λ version checksum c. record { post = refl };
  commit_law = λ c. record { post = refl };
}

abbrev digest : Text → Text → Outcome Text Text
digest algorithm file = ok (algorithm ++ file)

abbrev config : ChecksumConfig
config = record { enabled = true; on_mismatch = fail; algorithm = codes "md5:" }

abbrev dir : Directory
dir = some (codes "001_a.py" ∷ codes "002_renamed.py" ∷ codes "003_c.up.sql" ∷ [])

abbrev row : Text → Text → Option Text → Stored
row version name checksum = record { version = version; name = name; checksum = checksum }

-- The first is as it was, the second was changed, the third is in SQL and the fourth has no file.
abbrev table : List Stored
table =
    row (codes "001") (codes "a") (some (codes "md5:001_a.py"))
    ∷ row (codes "002") (codes "b") (some (codes "md5:old"))
    ∷ row (codes "003") (codes "c") (some (codes "md5:old"))
    ∷ row (codes "004") (codes "d") none
    ∷ []

verify_all_example :
    Ends
      (verify_all digest config dir store table)
      (Returned digest config dir store table)
      (Refused digest config dir store table)
verify_all_example = verify_all_lem digest config dir store store-IsStore table

verify_all_skips_sql_example :
    Ends
      (verify_all digest config (some (codes "003_c.up.sql" ∷ [])) store table)
      (λ ms _. ms ≡ [])
      (λ e _. IsDatabaseError e)
verify_all_skips_sql_example =
    verify_all_skips_sql digest config (codes "003_c.up.sql" ∷ []) store store-IsStore (refl, tt)
      table

update_all_checksums-verify_all_example :
    Ends
      (update_then_verify digest config dir store table)
      (λ r rows.
        (r.0 ≡ with_file digest config dir table)
        × (r.1 ≡ [])
        × (rows ≡ map (renew digest config dir) table))
      (λ e _. IsDatabaseError e ⊎ IsFileError digest config dir e)
update_all_checksums-verify_all_example =
    update_all_checksums-verify_all digest config dir store store-IsStore table
      (refl, (refl, (refl, (refl, tt))))

-- Only the second is reported.
verify_all_table :
    (verify_all digest config dir store table).0
    ≡ err (
        verification_error (
          record {
            version = codes "002";
            name = codes "b";
            file_path = codes "002_renamed.py";
            expected = some (codes "md5:old");
            actual = codes "md5:002_renamed.py";
          }
          ∷ []))
unfolding verify_all handle_mismatches mismatches_of mismatch_of find_migration_file first_match
    matches
verify_all_table = refl

verify_all_warns :
    (verify_all digest (record config { on_mismatch = warn }) (some []) store table).0 ≡ ok []
unfolding verify_all handle_mismatches mismatches_of mismatch_of find_migration_file first_match
    matches
verify_all_warns = refl

-- A hash that keeps everything.
abbrev lib : Hashlib
lib = record {
  Hash = List ℕ;
  new = λ algorithm. algorithm;
  update = λ h bytes. h ++ bytes;
  hexdigest = λ h. h;
}

lib-IsHashlib : IsHashlib lib
lib-IsHashlib = record {
  update_nothing = λ h. append-nil h;
  update_twice = λ h a b. append_assoc h a b;
}

abbrev contents : Text → List ℕ
contents file = 104 ∷ 105 ∷ []

compute_checksum_example :
    compute_checksum lib contents (codes "001_a.py") (codes "md5")
    ≡ compute_checksum_from_content lib (contents (codes "001_a.py")) (codes "md5")
compute_checksum_example =
    compute_checksum-from_content lib lib-IsHashlib contents (codes "001_a.py") (codes "md5")

-- Five bytes are hashed in chunks of two.
chunks_of_two : update_chunks lib 5 2 (1 ∷ 2 ∷ 3 ∷ 4 ∷ 5 ∷ []) [] ≡ 1 ∷ 2 ∷ 3 ∷ 4 ∷ 5 ∷ []
unfolding update_chunks
chunks_of_two = refl
