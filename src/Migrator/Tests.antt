-- ===== src/Migrator/Tests.antt =====
-- The migrator on the small server: a migration that works, one whose body commits, and one that
-- raises; and the theorems at such inputs.
use confiture.Base.{
  ◌≡◌, refl, ap, subst, Bool, true, false, none, some, List, [], ◌∷◌, nat_eq, list_eq,
}
use confiture.Base.Text.{Text, codes}
use confiture.Base.Exec.{Outcome, ok, err}
use confiture.Base.Triple.{Ends}
use confiture.Postgres.{Raised, migration_error, migr_107, idle}
use confiture.Postgres.Sample.{Server, sample, sample-IsPostgres}
use confiture.Migrator.{Reading, Migration, Migrator}
use confiture.Migrator.Apply.{apply, apply_transactional, transactional_body, transactional_failure}
use confiture.Migrator.Steps.{
  is_applied, validate_preconditions, check_preconditions, trigger_hook, check_envelope,
  record_migration, rollback_to_savepoint,
}
use confiture.Migrator.Undo.{rollback}
use confiture.Migrator.Batch.{migrate_up_internal}
use confiture.Migrator.Atomic.{StaysInside}
use confiture.Migrator.Envelope.{apply_transactional_refuses}
use confiture.Migrator.Applied.{apply_atomic}
use confiture.Migrator.Undone.{rollback_atomic}
use confiture.Migrator.Prefix.{IsTame, IsStart, planned, migrate_up_prefix}
use confiture.Discovery.{find_migration_files, not_applied_files}

abbrev now : Reading
now = record { timestamp = codes "20260101_000000"; elapsed_ms = 5; checksum = ok none }

abbrev users : Migration sample
users = record {
  version = codes "002";
  name = codes "users";
  transactional = true;
  requires_superuser = false;
  up = λ s. (ok tt, s);
  down = λ s. (ok tt, s);
  up_preconditions = (λ s. (ok true, s)) ∷ [];
  down_preconditions = [];
}

abbrev start : Migrator sample
start = record {
  conn = record {
    working = codes "001" ∷ [];
    published = codes "001" ∷ [];
    savepoints = [];
    status = idle;
    auto = false;
  };
  calls = [];
}

users-stays : StaysInside sample users
users-stays = record {
  inside = λ c. record { post = (record { same_committed = refl; same_saved = refl }, refl) };
}

users-checks :
    (c : Server) → Ends {S = Server} {E = Raised} (ok true, c) (λ _ c'. Unit {0}) (λ _ c'. Unit {0})
users-checks c = record { post = tt }

apply_atomic_example :
    Ends
      (apply users now false false true none start)
      (λ _ s'.
        (s'.conn.published ≡ codes "001" ∷ codes "002" ∷ [])
        × (◌≡◌ {A = Bool} false false)
        × (s'.conn.working ≡ s'.conn.published)
        × ((name : Text) → sample.saved s'.conn name ≡ []))
      (λ _ s'. s'.conn.published ≡ codes "001" ∷ [])
apply_atomic_example =
    apply_atomic sample sample-IsPostgres users now false false none refl users-stays
      (
        (λ c. record {
          post = (λ name. record { same_committed = refl; same_saved = refl }, refl, tt);
        }),
        tt,
      )
      start refl refl

program : Unit {0}
unfolding apply is_applied validate_preconditions check_preconditions apply_transactional
    transactional_body transactional_failure trigger_hook check_envelope record_migration
    rollback_to_savepoint
program = tt

apply-users : (apply users now false false true none start).0 ≡ ok tt
unfolding program
apply-users = refl

rollback_atomic_example :
    Ends
      (rollback users false (record start {
        conn = record start.conn {
          working = codes "001" ∷ codes "002" ∷ [];
          published = codes "001" ∷ codes "002" ∷ [];
        };
      }))
      (λ _ s'.
        (◌≡◌ {A = Bool} true true)
        × ((s'.conn.published ≡ codes "001" ∷ [])
            × (s'.conn.working ≡ s'.conn.published)
            × ((name : Text) → sample.saved s'.conn name ≡ [])))
      (λ _ s'. s'.conn.published ≡ codes "001" ∷ codes "002" ∷ [])
rollback_atomic_example =
    rollback_atomic sample sample-IsPostgres users false refl
      (record { inside = λ c. record { post = (refl, refl) } }) tt
      (record start {
        conn = record start.conn {
          working = codes "001" ∷ codes "002" ∷ [];
          published = codes "001" ∷ codes "002" ∷ [];
        };
      })
      refl refl

users-IsTame : IsTame sample users
users-IsTame = record {
  transactional = refl;
  stays = users-stays;
  checks = (
    (λ c. record {
      post = (λ name. record { same_committed = refl; same_saved = refl }, refl, tt);
    }),
    tt,
  );
}

abbrev unwrap : Outcome Raised (Migration sample) → Migration sample
unwrap (ok m) = m
unwrap (err e) = users

abbrev load_users : Text → Outcome Raised (Migration sample)
load_users file = ok users

load_users-IsTame : (file : Text) (m : Migration sample) → load_users file ≡ ok m → IsTame sample m
load_users-IsTame file m e = subst (IsTame sample) (ap unwrap e) users-IsTame

migrate_up_prefix_example :
    Ends
      (migrate_up_internal load_users
        (λ _. now)
        false
        (some (codes "002_users.up.sql" ∷ codes "001_base.up.sql" ∷ []))
        none
        start)
      (λ done s'.
        ((s'.conn.published ≡ codes "001" ∷ done)
          × (s'.conn.working ≡ s'.conn.published)
          × ((name : Text) → sample.saved s'.conn name ≡ []))
        × IsStart done (
            planned sample load_users (
              not_applied_files (codes "001" ∷ []) (
                find_migration_files
                  (some (codes "002_users.up.sql" ∷ codes "001_base.up.sql" ∷ []))))))
      (λ _ s'.
        (done : List Text) × (s'.conn.published ≡ codes "001" ∷ done)
        × IsStart done (
            planned sample load_users (
              not_applied_files (codes "001" ∷ []) (
                find_migration_files
                  (some (codes "002_users.up.sql" ∷ codes "001_base.up.sql" ∷ []))))))
migrate_up_prefix_example =
    migrate_up_prefix sample sample-IsPostgres load_users (λ _. now) load_users-IsTame
      (some (codes "002_users.up.sql" ∷ codes "001_base.up.sql" ∷ [])) none start refl
      (λ name. refl)

-- The body commits by itself.
abbrev committing : Migration sample
committing = record users {
  up = λ s. (ok tt, record s { published = s.working; savepoints = []; status = idle });
}

apply_transactional_refuses_example :
    Ends (apply_transactional committing false now true none start) (λ _ _. ⊥) (λ _ _. Unit {0})
apply_transactional_refuses_example =
    apply_transactional_refuses sample committing (record { outside = λ c. record { post = refl } })
      false now true none start

apply-committing :
    (apply_transactional committing false now true none start).0 ≡ err (migration_error migr_107)
unfolding program
apply-committing = refl
