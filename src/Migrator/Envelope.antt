-- ===== src/Migrator/Envelope.antt =====
-- Proofs about the check of the transaction that a migration body leaves.
use confiture.Base.{◌≡◌, Bool, true, false, Option}
use confiture.Base.Text.{Text}
use confiture.Base.Triple.{Ends, Triple, triple-bind, triple-try_except, triple-raise, triple_any}
use confiture.Postgres.{Raised, Connection}
use confiture.Migrator.{
  before_execute, after_execute, Reading, outside_transaction, wrapped, Migration, Migrator, on,
}
use confiture.Migrator.Steps.{trigger_hook, check_envelope, rollback_to_savepoint}
use confiture.Migrator.Apply.{
  savepoint_name, apply_transactional, transactional_body, transactional_failure,
}
use confiture.Migrator.Rules.{triple-on}

-- Whenever the body returns, the connection is outside a transaction.
pub record EndsTransaction (pg : Connection) (m : Migration pg) : Type 0 where
  pub outside :
      (c : pg.Conn)
      → Ends (m.up c) (λ _ c'. outside_transaction (pg.transaction_status c') ≡ true) (λ _ _. Unit)

module _ (pg : Connection) (m : Migration pg) where
  abbrev Anywhere : pg.Conn → Type 0
  Anywhere c = Unit

  abbrev Outside : pg.Conn → Type 0
  Outside c = outside_transaction (pg.transaction_status c) ≡ true

  refused_step :
      Triple {S = Migrator pg} (λ s. Outside s.conn) check_envelope (λ _ s. ⊥) (λ _ s. Unit {0})
  unfolding check_envelope
  refused_step = record { at = λ s h. rw h tt }

  body_step :
      (already_applied : Bool) (now : Reading) (commit : Bool) (applied_by : Option Text)
      → EndsTransaction pg m
      → Triple {S = Migrator pg}
          (λ s. Unit {0})
          (transactional_body m already_applied now commit applied_by)
          (λ _ s. ⊥)
          (λ _ s. Unit {0})
  unfolding transactional_body
  body_step already_applied now commit applied_by ends =
      triple-bind _ _ (triple_any (on (pg.create_savepoint (savepoint_name m)))) λ _.
        triple-bind _ _ (triple_any (trigger_hook before_execute m false)) λ _.
          triple-bind _ _
            (triple-on pg Anywhere (λ _ c. Outside c) (λ _ c. Anywhere c) ends.outside
              (λ c h _ c' l. l) (λ c h _ c' l. tt))
            λ _. triple-bind _ _ refused_step λ _. record { at = λ s no. absurd no }

  failure_step :
      (commit : Bool) (e : Raised)
      → Triple {S = Migrator pg}
          (λ s. Unit {0})
          (transactional_failure m commit e)
          (λ _ s. ⊥)
          (λ _ s. Unit {0})
  unfolding transactional_failure
  failure_step commit e = triple-bind _ _ (triple_any (trigger_hook after_execute m false)) λ _.
      triple-bind _ _ (triple_any (rollback_to_savepoint (savepoint_name m) commit))
        λ _. triple-raise (wrapped e) (λ _ h. tt)

  -- If the body ends the transaction whenever it returns, then applying it raises, whatever the
  -- connection does: the call never returns, on any state and with any options.
  pub apply_transactional_refuses :
      EndsTransaction pg m
      → (already_applied : Bool) (now : Reading) (commit : Bool) (applied_by : Option Text)
      → (s : Migrator pg)
      → Ends
          (apply_transactional m already_applied now commit applied_by s)
          (λ _ _. ⊥)
          (λ _ _. Unit {0})
  unfolding apply_transactional
  apply_transactional_refuses ends already_applied now commit applied_by s = record {
    post =
        (triple-try_except _ _ (body_step already_applied now commit applied_by ends)
            (failure_step commit)).at
          s tt;
  }
