-- ===== src/Migrator/Rules.antt =====
-- One proof rule for each step of the migrator.
use confiture.Base.{Bool, List, ◌≡◌, refl}
use confiture.Base.Text.{Text}
use confiture.Base.Exec.{Outcome, ok, err, Exec}
use confiture.Base.Triple.{Post, Ends, Triple, Post-weaken}
use confiture.Postgres.{Raised, Connection}
use confiture.Migrator.{HookPhase, HookCall, Reading, Migration, Migrator, on}
use confiture.Migrator.Steps.{trigger_hook}
use confiture.Migrator.Batch.{loaded}

module _ (pg : Connection) where
  on_Post :
      {A : Type 0} (Q : A → pg.Conn → Type 0) (R : Raised → pg.Conn → Type 0) (r : Outcome Raised A)
      (c : pg.Conn) (calls : List HookCall)
      → Post Q R r c
      → Post {S = Migrator pg}
          (λ a s. Q a s.conn)
          (λ e s. R e s.conn)
          r
          (record { conn = c; calls = calls })
  on_Post Q R (ok a) c calls h = h
  on_Post Q R (err e) c calls h = h

  -- A statement: what it does to the connection, from its law.
  pub triple-on :
      {A : Type 0} (P : pg.Conn → Type 0) (Q : A → pg.Conn → Type 0) (R : Raised → pg.Conn → Type 0)
      {m : Exec pg.Conn Raised A} {Q' : pg.Conn → A → pg.Conn → Type 0}
      {R' : pg.Conn → Raised → pg.Conn → Type 0}
      → ((c : pg.Conn) → Ends (m c) (Q' c) (R' c))
      → ((c : pg.Conn) → P c → (a : A) (c' : pg.Conn) → Q' c a c' → Q a c')
      → ((c : pg.Conn) → P c → (e : Raised) (c' : pg.Conn) → R' c e c' → R e c')
      → Triple {S = Migrator pg} (λ s. P s.conn) (on m) (λ a s. Q a s.conn) (λ e s. R e s.conn)
  triple-on P Q R {m} {Q'} {R'} law ok_case err_case = record {
    at = λ s p. on_Post Q R (m s.conn).0 (m s.conn).1 s.calls (
        Post-weaken {Q = Q' s.conn} {R = R' s.conn} {Q' = Q} {R' = R} (m s.conn).0 (m s.conn).1
          (ok_case s.conn p) (err_case s.conn p) (law s.conn).post);
  }

  -- A hook call leaves the connection alone.
  pub triple-trigger :
      (P : pg.Conn → Type 0) (R : Raised → Migrator pg → Type 0) (phase : HookPhase)
      (m : Migration pg) (success : Bool)
      → Triple {S = Migrator pg} (λ s. P s.conn) (trigger_hook phase m success) (λ _ s. P s.conn) R
  unfolding trigger_hook
  triple-trigger P R phase m success = record { at = λ s p. p }

  -- Loading a user's file: an outcome that the state does not decide.
  pub load_step :
      (load : Text → Outcome Raised (Migration pg)) (read : Text → Reading)
      (P : Migrator pg → Type 0) (file : Text)
      → Triple P (loaded load read file) (λ m s. P s × (load file ≡ ok m)) (λ _ s. P s)
  load_step load read P file = record { at = λ s p. go (load file) refl s p }
    where
      go :
          (r : Outcome Raised (Migration pg))
          → load file ≡ r
          → (s : Migrator pg) → P s
          → Post (λ m s. P s × (load file ≡ ok m)) (λ _ s. P s) r s
      go (ok m) e s p = (p, e)
      go (err x) e s p = p
