-- ===== src/Locking/Tests.antt =====
-- A session that behaves as PostgreSQL documents, and bodies that leave its transaction in order or
-- failed.
use confiture.Base.{
  ℕ, suc, ◌-◌, ◌≡◌, ◌≢◌, ◌⊎◌, refl, Bool, true, false, Option, none, some, [], ◌∷◌, if◌then◌else◌,
  ◌==◌, nat_eq,
}
use confiture.Base.Text.{codes}
use confiture.Base.Exec.{ok, err, Exec, pure}
use confiture.Base.Triple.{Ends}
use confiture.Locking.{
  acquire_lock, Problem, query_canceled, other_error, non_blocking, LockConfig, Session, Lock,
  Digest, acquire, answer_of,
}
use confiture.Locking.Laws.{SameLocks, OneMore, OneLess, IsAdvisory}
use confiture.Locking.Unlock.{Body, Released, LeftBehind}
use confiture.Locking.Release.{acquire_releases, acquire_leaves_lock}

-- The holds of each lock, whether another session has them all, and whether the transaction failed.
record Small : Type 0 where
  holds : ℕ → ℕ
  elsewhere : Bool
  broken : Bool

abbrev refused : Problem
refused = other_error (codes "current transaction is aborted")

abbrev more : ℕ → Small → Small
more id s = record s { holds = λ i. if i == id then suc (s.holds i) else s.holds i; broken = false }

abbrev less : ℕ → Small → Small
less id s = record s { holds = λ i. if i == id then s.holds i - 1 else s.holds i }

abbrev small : Session
small = record {
  Conn = Small;
  held = λ s. s.holds;
  aborted = λ s. s.broken;
  current_database = pure (some (codes "app"));
  set_statement_timeout = λ ms s. if s.broken then (err refused, s) else (ok tt, s);
  advisory_lock = λ id s.
      if s.elsewhere then (err query_canceled, record s { broken = true }) else (ok tt, more id s);
  try_advisory_lock =
      λ id s. if s.elsewhere then (ok (some false), s) else (ok (some true), more id s);
  advisory_unlock = λ id s. if s.broken then (err refused, s) else (ok (some true), less id s);
  write_holder = λ id. pure tt;
  delete_holder = λ id s. if s.broken then (err refused, s) else (ok tt, s);
  read_holder = λ id. pure tt;
  commit = λ s. (ok tt, record s { broken = false });
  rollback = λ s. (ok tt, record s { broken = false });
}

timeout_branch :
    (b : Bool) (s : Small)
    → Ends
        (if b then (err refused, s) else (ok tt, s))
        (λ (_ : Unit {0}) c'. SameLocks small s c')
        (λ _ c'. SameLocks small s c')
timeout_branch true s = record { post = λ i. refl }
timeout_branch false s = record { post = λ i. refl }

lock_branch :
    (id : ℕ) (b : Bool) (s : Small)
    → Ends
        (if b then (err query_canceled, record s { broken = true }) else (ok tt, more id s))
        (λ (_ : Unit {0}) c'. OneMore small id s c' × (c'.broken ≡ false))
        (λ _ c'. SameLocks small s c')
lock_branch id true s = record { post = λ i. refl }
lock_branch id false s = record { post = (λ i. refl, refl) }

try_branch :
    (id : ℕ) (b : Bool) (s : Small)
    → Ends {S = Small} {E = Problem} {A = Option Bool}
        (if b then (ok (some false), s) else (ok (some true), more id s))
        (λ result c'. if answer_of result then OneMore small id s c' else SameLocks small s c')
        (λ _ c'. SameLocks small s c')
try_branch id true s = record { post = λ i. refl }
try_branch id false s = record { post = λ i. refl }

unlock_branch :
    (id : ℕ) (b : Bool) (s : Small)
    → b ≡ false
    → Ends {S = Small} {E = Problem} {A = Option Bool}
        (if b then (err refused, s) else (ok (some true), less id s))
        (λ _ c'. OneLess small id s c')
        (λ _ _. ⊥)
unlock_branch id true s h = cc
unlock_branch id false s h = record { post = λ i. refl }

refused_branch :
    (id : ℕ) (b : Bool) (s : Small)
    → b ≡ true
    → Ends {S = Small} {E = Problem} {A = Option Bool}
        (if b then (err refused, s) else (ok (some true), less id s))
        (λ _ _. ⊥)
        (λ _ c'. SameLocks small s c')
refused_branch id true s h = record { post = λ i. refl }
refused_branch id false s h = cc

reset_branch :
    (b : Bool) (s : Small)
    → b ≡ false
    → Ends
        (if b then (err refused, s) else (ok tt, s))
        (λ (_ : Unit {0}) c'. SameLocks small s c')
        (λ _ _. ⊥)
reset_branch true s h = cc
reset_branch false s h = record { post = λ i. refl }

small-IsAdvisory : IsAdvisory small
small-IsAdvisory = record {
  database_law = λ c. record { post = λ i. refl };
  write_law = λ id c. record { post = λ i. refl };
  delete_law = λ id c. timeout_branch c.broken c;
  read_law = λ id c. record { post = λ i. refl };
  timeout_law = λ ms c. timeout_branch c.broken c;
  reset_law = λ ms c h. reset_branch c.broken c h;
  commit_law = λ c. record { post = (λ i. refl, refl) };
  rollback_law = λ c. record { post = (λ i. refl, refl) };
  lock_law = λ id c. lock_branch id c.elsewhere c;
  try_law = λ id c. try_branch id c.elsewhere c;
  unlock_law = λ id c h. unlock_branch id c.broken c h;
  aborted_law = λ id c h. refused_branch id c.broken c h;
}

abbrev config : LockConfig
config = record { enabled = true; timeout_ms = 30000; lock_id = none; mode = non_blocking }

-- Some four bytes.
abbrev digest : Digest
digest name = 255 ∷ 1 ∷ 2 ∷ 3 ∷ []

abbrev start : Lock small
start = record {
  conn = record { holds = λ i. 0; elsewhere = false; broken = false };
  lock_held = false;
  lock_id = none;
}

abbrev works : Exec (Lock small) Problem Unit
works = pure tt

abbrev breaks : Exec (Lock small) Problem Unit
breaks l = (err refused, record l { conn = record l.conn { broken = true } })

works-Body : Body small (λ i. 0) false works
works-Body id = record { at = λ l h. h }

breaks-Body : Body small (λ i. 0) true breaks
breaks-Body id = record { at = λ l h. (h.0, h.1, h.2, refl) }

acquire_releases_example :
    Ends
      (acquire digest config works start)
      (λ _ l'. Released small (λ i. 0) l')
      (λ _ l'. Released small (λ i. 0) l')
acquire_releases_example =
    acquire_releases small small-IsAdvisory digest config works start refl refl works-Body

acquire_leaves_lock_example :
    Ends
      (acquire digest config breaks start)
      (λ _ l'. LeftBehind small (λ i. 0) l')
      (λ _ l'.
        (((acquire_lock digest config start).0 ≢ ok tt) × Released small (λ i. 0) l')
        ⊎ LeftBehind small (λ i. 0) l')
acquire_leaves_lock_example =
    acquire_leaves_lock small small-IsAdvisory digest config breaks start refl refl breaks-Body
