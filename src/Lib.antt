-- ===== src/Lib.antt =====
-- The canonical run protocol of `o7` (crates/o7-run), its reducer and its independent replay, and the
-- durable ledger (crates/o7-ledger) that conversations, runs and commands are projected to; and the verdict
-- over verifier evidence (crates/o7-verifier).
--
-- A run is a stream of events. Each event carries a digest of its own fields and the digest of the
-- event before it. The reducer folds the stream into a state and, at `RunSealed`, into a verdict
-- against the obligations that the contract in `RunStarted` declares. Replay checks a stored record
-- again from its events and artifacts, and compares the verdict that was stored.
--
-- The ledger keeps its own record of conversations, runs, attempts, events and commands in a
-- database. Each of its operations is one transaction; a `RunId` is what the two parts share.
--
-- The files and the code they model:
--   * Prelude (Tests, Lists, Results, Texts, Ordered, Sorts): Boolean tests, lists over the native numbers,
--     Rust's `Result`, strings, `BTreeSet` and `BTreeMap`; Sorts: `ORDER BY` and `LIMIT`.
--   * Run/Ids: crates/o7-run/src/ids.rs (`RunId`, `RunEventId`, `GateId`) and `Digest256` of
--     crates/o7-run/src/event.rs (`of_bytes`, `parse`, `genesis`, `hex_lower`).
--   * Run/Contract, Run/Event, Run/Encoding: crates/o7-run/src/event.rs: the data, and the digest
--     framing (`compute_digest`, `fold_kind`, `fold_contract`, `frame`).
--   * Run/State: crates/o7-run/src/state.rs (`RunState`, `Verdict`, `RunState::initial`).
--   * Run/Errors, Run/Admission, Run/Verdicts, Run/Handlers, Run/Reduce: crates/o7-run/src/reduce.rs:
--     `ReduceError`; `validate_contract` and `check_protected_start`; `compute_verdict`; a function for
--     each arm of `apply_with_contract`; `reduce` and `reduce_all`.
--   * Run/Artifacts, Run/Replay: crates/o7-run/src/replay.rs: `confined`, `RecordDirResolver`,
--     `referenced_artifacts`; `verify_prefix_core`, `verify_prefix`, `classify_record`, `replay`,
--     `replay_verify`.
--   * Run/Candidate: crates/o7-run/src/candidate.rs: `verify_candidate_state_captured` and
--     `verify_candidate_state_materialized`.
--   * Ledger/Models, Ledger/Errors: crates/o7-ledger/src/models.rs, ids.rs and `LedgerError` of lib.rs.
--   * Ledger/Transitions: crates/o7-ledger/src/transitions.rs.
--   * Ledger/Tables: the schema of crates/o7-ledger/src/migrations.rs and the statements on it.
--   * Ledger/Idempotency: crates/o7-ledger/src/idempotency.rs.
--   * Ledger/Events, Ledger/Runs, Ledger/Attempts, Ledger/Messages, Ledger/Commands (Outcomes): the
--     operations of crates/o7-ledger/src/sqlite.rs; `f_tx` is the body of the transaction of `f`.
--     Ledger/Recovery adds crates/o7-ledger/src/recovery.rs.
--   * Ledger/Reads: the queries of crates/o7-ledger/src/sqlite.rs that order and page their rows.
--   * Ledger/Operations: the calls of `SqliteLedger` that may write, and histories of them.
--   * Verifier (Command, Trust, Evidence, Verdicts): the files of crates/o7-verifier/src of these names
--     (verdict.rs for Verdicts): which commands are trusted, and what of their evidence is accepted.
--     Verifier/Examples holds concrete evidence.
-- The proofs stand below these: Run/Ids/Hex, Run/Encoding (Framing, Tells, and Payloads with its
-- Contracts, Outcomes and Kinds: what the bytes of a digest tell), Run/Artifacts/Confinement,
-- Run/Candidate (Lineage, Captured, Materialized), Run/Verdicts (Precedence, Discharge), Run/Steps
-- (Guards, Sound, Complete: the transition relation that the handlers implement), Run/Streams (Chain,
-- Tamper, Order, States, Reported, Additions, Evidence, Green: whole streams) and Run/Replay (Content, Judged, Reports,
-- Candidates). Run/Examples (Candidates, Tamper) holds concrete runs. Ledger/Machine is the
-- specification of the ledger: the machine of one run, the growth of the log, the commands in
-- flight. Ledger/Queries and Ledger/Steps (Rows, Status, Commands) say what each statement does to
-- it, Ledger/Refinement (Runs, Recovery, Commands, Outcomes, Operations) what each operation does,
-- Ledger/Log and Ledger/Invariants what follows; Ledger/Replays, Ledger/Claims, Ledger/Revival, Ledger/Statuses
-- and Ledger/Reads (Rows, Pages, Lists) are about single operations, and Ledger/Examples holds
-- concrete ledgers.
--
-- How the program is modelled:
--   * A `String` is the list of its UTF-8 bytes. An unsigned integer is a number; `last + 1` in
--     `reduce` is taken modulo 2 ^ 64, as in a release build. An exit code, a signal and a timestamp
--     are their bit patterns.
--   * `&mut RunState` is state passing; a failed handler returns its error and no state, since
--     `reduce` drops the state then.
--   * `BTreeSet` and `BTreeMap` are lists in the order of their keys. The binary search for the place
--     of new evidence is its result on a list in that order.
--   * SHA-256 is a parameter, a function to 32 bytes. So are `serde_json` (how a receipt and a
--     binding parse, how a state is written) and the resolver of artifacts (a file's content).
--   * The database is a record of tables, each the list of its rows in the order of their insertion.
--     An INSERT is refused by the constraints of the schema, written out; an UPDATE changes the rows
--     that its WHERE selects. A transaction that fails leaves the tables as they were, and one runs
--     at a time, as `IMMEDIATE` transactions do. `now_millis()` and generated ids are arguments, so
--     they may be anything; times are natural numbers. Other failures of the database (disk, lock,
--     a task that does not join) leave the tables as they were too, and are not modelled.
--   * Loops are structural recursion on the list they run over, so there is no fuel.
--
-- Not modelled: serialization of run events, the error texts; `stuck_commands` and
-- `active_command_for_conversation`, whose order among equal times the database chooses; the opening
-- and migration of the ledger's file; and the other crates of the repository (the worker, the
-- verifier's runner, the daemon, the closure tools and the command line), which call these.
pub mod Prelude
pub mod Run
pub mod Ledger
pub mod Verifier
