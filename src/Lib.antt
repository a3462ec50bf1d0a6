-- ===== src/Lib.antt =====
-- confiture: PostgreSQL migrations. This library models the parts of python/confiture/core that
-- decide what happens to a database, and proves what they promise.
--
-- The parts and how they work together. Migration files are found by their names (discovery.py);
-- the engine (apply.py, rollback.py, state.py) runs the pending ones in the order of their
-- versions, each in a savepoint, and records it in the tracking table; the planner
-- (rollback_planner.py) says which to roll back; the lock (locking.py) keeps two runs apart. A
-- session (session.py) puts these together, on one connection: it makes the tracking table, reads
-- it, and calls the engine for one migration after the other while it holds the lock; seen from
-- outside, it pushes versions on a stack and takes them off. Stored checksums (checksum.py) tell
-- changed files. SQL files pass through the scanner (sql_utils.py), which takes BEGIN and COMMIT
-- lines away, since the engine has its own transaction. The blue-green orchestrator
-- (blue_green.py) builds a second schema and switches over to it. The COPY formatter
-- (seed/copy_formatter.py) writes seed rows for PostgreSQL to read, and the graph of foreign keys
-- (introspection/dependency_graph.py) gives the order of the tables. Linting rules have versions
-- (linting/versioning.py).
--
-- Where to find what:
--   Base           shared names, Boolean tests, lists, equality, text as code points (Text),
--                  methods that change an object and may raise (Exec), sorting (Sort), and the
--                  rules for what holds after a method (Triple)
--   Postgres       a psycopg connection as an interface, the documented laws of savepoints, commit
--                  and rollback (Laws), and a small server that satisfies them (Sample)
--   Rollback       python/confiture/core/_migrator/rollback_planner.py: plan_down_to
--   Discovery      python/confiture/core/_migrator/discovery.py: every function, by its name there
--   Migrator       python/confiture/core/_migrator/apply.py, rollback.py and state.py, and the loop
--                  of PreconditionValidator.check in python/confiture/core/preconditions.py: Steps
--                  has trigger_hook, rollback_to_savepoint, is_applied and record_migration; Apply
--                  has apply with its two ways; Undo has rollback; Batch has migrate_up_internal
--                  and find_pending. Rules, Atomic, Applied, Prefix, Undone and Envelope are
--                  proofs.
--   Migrator.Tracking  state.py: initialize, over the statements that it sends. Settled and Calm
--                  are proofs on what the engine leaves pending.
--   Session        python/confiture/core/_migrator/session.py: Down has down, down_to and
--                  _rollback_sequence, Up has up and _up_dry_run_execute, Preflight status and
--                  preflight, with run_preflight of core/preflight.py; Session itself has what they
--                  share, with `locked` for a block under MigrationLock.acquire. A call carries the
--                  engine's state, in which the connection is, and the local variables of up. Stack
--                  is the abstract view, Runs the machine on it and the commands; Laws says what
--                  the lock's statements leave alone; Rules, Statements, Locked, Sequence, Last,
--                  UpLoop, UpGuarded, UpPushes, Gate, FileNames, Gated, UpGate, CarryOut, DownTo
--                  and DownSteps are proofs, Samples a session for the tests.
--   Checksum       python/confiture/core/checksum.py: MigrationChecksumVerifier; Hashing has
--                  compute_checksum, Laws the statements; Verify, Skips and Update are proofs
--   BlueGreen      python/confiture/core/blue_green.py: Steps has the steps of
--                  BlueGreenOrchestrator.execute, Execute the run, the rollbacks and the clean-up,
--                  Traffic the TrafficController; Chain, Phases, Health, Quiet, Gate, Compare and
--                  Failure are proofs, as are Traffic.ReadOnly and Traffic.Drain
--   Locking        python/confiture/core/locking.py: MigrationLock and its laws (Laws); Quiet,
--                  Held, Unlock and Release are proofs
--   SqlUtils       python/confiture/core/sql_utils.py: _iter_top_level_lines (as
--                  iter_top_level_lines) and strip_transaction_wrappers
--   CopyFormatter  python/confiture/core/seed/copy_formatter.py: format_table and what it calls
--   DependencyGraph  python/confiture/core/introspection/dependency_graph.py: DependencyGraph, with
--                  from_introspection and topological_sort; Relax, Turn and Sorted are proofs
--   Versioning     python/confiture/core/linting/versioning.py: RuleVersion, whose comparisons are
--                  version_lt and so on, Rule and RuleVersionManager
-- A leading underscore of a Python name is left off. Each Tests module has runs on concrete data.
--
-- How the code is read. A method is a function from the object's state to an outcome, returned or
-- raised, and the state it leaves: what was written before an exception stays written. A
-- connection, a Redis client, a feature-flag client, a digest, which may raise where it reads a file,
-- and the class of \w characters are parameters; a theorem names the documented behaviour that it relies on, and its witness applies
-- it to a concrete instance. The clock is read into a record or a function. Logging changes
-- nothing and is left out. The steps of down are a natural number.
--
-- Bounds and fuel. The scanner of SqlUtils runs on fuel equal to the length of its text, and its
-- lines together are that text, so it is enough. drain_connections runs on one more turn than the
-- timeout has units, which is enough where time passes between two turns; its query may raise. The sort of the
-- dependency graph runs on one turn for each table, which is enough. A file of n bytes is hashed
-- in at most n chunks, so compute_checksum runs on fuel n. Every other loop is structural.
-- Numbers are natural numbers; the lock id is masked to 31 bits as in the code.
--
-- Not modelled. Of a session: run_against, reinit, rebuild, and what happens between the reading
-- of the table and the lock when another session runs at that time. The analysis of the SQL in a
-- file (migration_analyzer.py), which the preflight asks, is a parameter. Parsing of SQL, which
-- other libraries do; the text of messages; the commands of the command line; the queries of the
-- catalog; the linting rules, anonymization, seeds, drift, idempotency and schema generation.
pub mod Base
pub mod Rollback
pub mod Postgres
pub mod Discovery
pub mod Migrator
pub mod BlueGreen
pub mod SqlUtils
pub mod CopyFormatter
pub mod Locking
pub mod DependencyGraph
pub mod Versioning
pub mod Session
pub mod Checksum
