-- ===== src/Session/Gate.antt =====
-- Proofs about the preflight and the gate of `up`: what they leave in the tracking table, and what
-- the answer tells about the pending migrations.
use confiture.Base.{
  ◌≡◌, refl, sym, ◌∙◌, ap, Bool, true, false, Option, none, some, List, [], ◌∷◌, contains, nat_eq,
  list_eq, inl, inr, ◌⊎◌, ◌≢◌, if◌then◌else◌, null,
}
use confiture.Base.Text.{Text}
use confiture.Base.Exec.{Outcome, ok, err, Exec, relabel}
use confiture.Base.Triple.{
  Post, Ends, Triple, triple-bind, triple-if, triple-pure, triple-weaken, triple_assume, ends-Post,
}
use confiture.Postgres.{Raised, Connection}
use confiture.Postgres.Laws.{IsPostgres, IsQuery, StaysUp, StaysSettled}
use confiture.Migrator.{Migrator, on}
use confiture.Migrator.Tracking.{Catalog, IsCatalog, found}
use confiture.Migrator.Calm.{Calm, Ready, versions-Calm}
use confiture.Migrator.Rules.{triple-on}
use confiture.Discovery.{Directory}
use confiture.Checksum.{
  ChecksumConfig, Failure, file_error, Stored, computed, mismatch_of, mismatches_of,
  find_migration_file, handle_mismatches, verify_all,
}
use confiture.Session.{SessionError, checksum_failure, Call}
use confiture.Session.Rules.{engine_rule, outside_rule}
use confiture.Session.Up.{gate}
use confiture.Session.Gated.{IsSafe, HasSeen, checked-IsSafe, seen, seen_none}
use confiture.Session.Preflight.{
  Checks, PreflightResult, status, status_files, applied_rows, preflight, checksum_store,
  warning_only, all_reversible, irreversible_versions, verifier_call,
}

-- The two statements of the preflight are queries.
pub record IsChecks (pg : Connection) (checks : Checks pg) : Type 0 where
  pub timestamps_law : IsQuery pg checks.select_timestamps (λ _ _. Unit)
  pub checksums_law :
      (c : pg.Conn)
      → Ends
          (checks.select_checksums c)
          (λ _ c'.
            (pg.committed c' ≡ pg.committed c)
            × (pg.current c' ≡ pg.current c)
            × ((name : Text) → pg.saved c' name ≡ pg.saved c name))
          (λ _ c'. (pg.committed c' ≡ pg.committed c) × StaysSettled pg c c')

module _ (pg : Connection) (laws : IsPostgres pg) (up : StaysUp pg) (catalog : Catalog pg)
    (tables : IsCatalog pg catalog) (checks : Checks pg) (asks : IsChecks pg checks)
    (dir : Directory) (vs : List Text) where
  open pg use {versions, committed}

  -- A query, of whose answer nothing is asked.
  query_step :
      {A : Type 0} (m : Exec pg.Conn Raised A)
      → IsQuery pg m (λ _ _. Unit)
      → Triple {S = Migrator pg}
          (λ s. Ready pg vs s.conn)
          (on m)
          (λ _ s. Ready pg vs s.conn)
          (λ _ s. Calm pg vs s.conn)
  query_step m law =
      triple-on pg (Ready pg vs) (λ _ c. Ready pg vs c) (λ _ c. Calm pg vs c) law
        (λ c h _ c' l. (
          ap versions (l.0 []).same_committed ∙ h.0,
          l.1 ∙ h.1 ∙ sym (l.0 []).same_committed,
          λ name. (l.0 name).same_saved ∙ h.2 name,
        ))
        (λ c h _ c' l. (ap versions (l.0 []).same_committed ∙ h.0, l.1 h.1))

  -- No more versions than the committed ones.
  abbrev IsFewer : List Text → Type 0
  IsFewer applied = (v : Text) → contains vs v ≡ false → contains applied v ≡ false

  rows_step :
      (exists : Bool)
      → Triple {S = Migrator pg}
          (λ s. Ready pg vs s.conn)
          (applied_rows catalog checks exists)
          (λ r s. Ready pg vs s.conn × IsFewer r.0)
          (λ _ s. Calm pg vs s.conn)
  unfolding applied_rows
  rows_step true = triple-bind _ _ (versions-Calm pg laws up vs) λ applied.
      triple_assume (λ s. Ready pg vs s.conn) (applied ≡ vs)
        λ e.
          triple-bind _ _ (query_step checks.select_timestamps asks.timestamps_law)
            λ times. triple-pure (applied, times) λ _ h. (h, λ v c. ap (λ l. contains l v) e ∙ c)
  rows_step false = triple-pure ([], []) λ _ h. (h, λ v c. refl)

  status_step :
      (dir : Directory)
      → Triple {S = Migrator pg}
          (λ s. Ready pg vs s.conn)
          (status catalog checks dir)
          (λ st s. Ready pg vs s.conn × HasSeen dir vs st.migrations)
          (λ _ s. Calm pg vs s.conn)
  unfolding status
  status_step none = triple-pure _ λ _ h. (h, tt)
  status_step (some names) =
      triple-bind _ _ (query_step catalog.table_exists tables.exists_law) λ row.
        triple-if (null (status_files names)) _ _
          (λ empty. triple-pure _ λ _ h. (h, seen_none vs names empty))
          λ _.
            triple-bind _ _ (rows_step (found row))
              λ rows. triple-pure _ λ _ h. (h.0, seen vs names rows.0 rows.1 h.1)

  stored_step :
      Triple
        (λ c. Ready pg vs c)
        checks.select_checksums
        (λ _ c. Ready pg vs c)
        (λ _ c. Calm pg vs c)
  stored_step = record {
    at = λ c h.
        ends-Post (λ _ c. Ready pg vs c) (λ _ c. Calm pg vs c) (asks.checksums_law c)
          (λ _ c' l. (ap versions l.0 ∙ h.0, l.1 ∙ h.1 ∙ sym l.0, λ name. l.2 name ∙ h.2 name))
          (λ _ c' l. (ap versions l.0 ∙ h.0, l.1 h.1));
  }

  module _ (config : ChecksumConfig) where
    computed-Ready :
        (file : Text)
        → Triple
            (λ c. Ready pg vs c)
            (computed checks.digest config dir (checksum_store catalog checks) file)
            (λ _ c. Ready pg vs c)
            (λ _ c. Calm pg vs c)
    computed-Ready file = record { at = λ c h. go (checks.digest config.algorithm file) c h }
      where
        go :
            (o : Outcome Text Text) (c : pg.Conn)
            → Ready pg vs c
            → Post (λ _ c. Ready pg vs c) (λ _ c. Calm pg vs c) (relabel file_error o) c
        go (ok a) c h = h
        go (err e) c h = (h.0, h.1)

    mismatch_Ready :
        (row : Stored) (file : Option Text)
        → Triple
            (λ c. Ready pg vs c)
            (mismatch_of checks.digest config dir (checksum_store catalog checks) row file)
            (λ _ c. Ready pg vs c)
            (λ _ c. Calm pg vs c)
    unfolding mismatch_of
    mismatch_Ready row none = triple-pure [] λ _ h. h
    mismatch_Ready row (some file) =
        triple-bind _ _ (computed-Ready file) λ _. triple-pure _ λ _ h. h

    mismatches_Ready :
        (rows : List Stored)
        → Triple
            (λ c. Ready pg vs c)
            (mismatches_of checks.digest config dir (checksum_store catalog checks) rows)
            (λ _ c. Ready pg vs c)
            (λ _ c. Calm pg vs c)
    unfolding mismatches_of
    mismatches_Ready [] = triple-pure [] λ _ h. h
    mismatches_Ready (row ∷ rows) =
        triple-bind _ _ (mismatch_Ready row (find_migration_file dir row.version row.name))
          λ _. triple-bind _ _ (mismatches_Ready rows) λ _. triple-pure _ λ _ h. h

  verified_step :
      Triple
        (λ c. Ready pg vs c)
        (verify_all checks.digest (warning_only catalog checks) dir (checksum_store catalog checks))
        (λ _ c. Ready pg vs c)
        (λ _ c. Calm pg vs c)
  unfolding verify_all handle_mismatches
  verified_step = triple-bind _ _ stored_step λ stored.
      triple-if (null stored) _ _ (λ _. triple-pure _ λ _ h. h)
        λ _. triple-bind _ _ (mismatches_Ready (warning_only catalog checks) stored) λ mismatches.
          triple-bind {Q = λ _ c. Ready pg vs c} _ _
            (triple-if (null mismatches) _ _ (λ _. triple-pure tt λ _ h. h)
              (λ _. triple-pure tt λ _ h. h))
            λ _. triple-pure _ λ _ h. h

  verifier_rule :
      {A : Type 0} (m : Exec pg.Conn Failure A)
      → Triple (λ c. Ready pg vs c) m (λ _ c. Ready pg vs c) (λ _ c. Calm pg vs c)
      → Triple
          (λ s. Ready pg vs s.engine.conn × Unit {0})
          (verifier_call catalog checks m)
          (λ _ s. Ready pg vs s.engine.conn × Unit {0})
          (λ _ s. Calm pg vs s.engine.conn × Unit {0})
  verifier_rule {A} m t = record {
    at = λ s h. go s (m s.engine.conn).0 (m s.engine.conn).1 (t.at s.engine.conn h.0);
  }
    where
      go :
          (s : Call pg) (o : Outcome Failure A) (c : pg.Conn)
          → Post (λ _ c. Ready pg vs c) (λ _ c. Calm pg vs c) o c
          → Post {E = SessionError}
              (λ _ s. Ready pg vs s.engine.conn × Unit {0})
              (λ _ s. Calm pg vs s.engine.conn × Unit {0})
              (relabel checksum_failure o)
              (record s { engine = record s.engine { conn = c } })
      go s (ok a) c h = (h, tt)
      go s (err e) c h = (h, tt)

  abbrev Means : PreflightResult → Type 0
  Means r = all_reversible r ≡ true → IsSafe dir vs

  -- What the answer of the gate says.
  abbrev pub Passed : Bool → Option (List Text) → Type 0
  Passed require_reversible o = (require_reversible ≡ false) ⊎ ((o ≢ none) ⊎ IsSafe dir vs)

  abbrev Here : Call pg → Type 0
  Here s = Ready pg vs s.engine.conn × Unit {0}

  abbrev Left : Call pg → Type 0
  Left s = Calm pg vs s.engine.conn × Unit {0}

  preflight_step :
      Triple Here (preflight catalog checks dir) (λ r s. Here s × Means r) (λ _ s. Left s)
  unfolding preflight
  preflight_step =
      triple-bind _ _
        (triple-weaken (λ _ h. h) (λ _ _ h. ((h.0.0, h.1), h.0.1)) (λ _ _ h. h)
          (outside_rule _ Left (
            engine_rule _ (λ _. Unit {0}) (λ s. Calm pg vs s.conn) (status_step dir) (λ _ t h. h))))
        λ st. triple_assume Here (HasSeen dir vs st.migrations) λ h.
          triple-bind _ _ (verifier_rule _ verified_step) λ _.
            triple-pure _ λ _ here. (here, checked-IsSafe dir vs checks.analyze st.migrations h)

  -- The gate lets a run pass only if every pending migration has its way down.
  pub gate_step :
      (require_reversible : Bool)
      → Triple Here
          (gate catalog checks dir require_reversible)
          (λ o s. Here s × Passed require_reversible o)
          (λ _ s. Left s)
  unfolding gate
  gate_step true = triple-bind _ _ preflight_step λ r.
      triple_assume Here (Means r)
        λ means. triple-pure _ λ _ h. (h, passed (all_reversible r) (irreversible_versions r) means)
    where
      passed :
          (b : Bool) (versions : List Text)
          → (b ≡ true → IsSafe dir vs)
          → Passed true (if b then none else some versions)
      passed true versions means = inr (inr (means refl))
      passed false versions means = inr (inl λ e. cc)
  gate_step false = triple-pure none λ _ h. (h, inl refl)
