-- ===== src/Lib.antt =====
-- ai-bobnet: the trusted Python core of the engine, which keeps the task ledger, supervises the
-- turns of agents and lets a broker launch them.
--
-- The parts and how they interact. A project has an append-only stream of task events. The fold
-- of lib/task_ledger.py (`fold`) reads it into runs, tasks, rejections and invalid records;
-- nothing else is stored. A request comes from the command line of lib/task_cli.py, which looks
-- for an earlier decision on the same causation, has `decide` judge the request on the result of
-- the fold and on the registry, and commits the decision to the stream. A worker cannot write the
-- stream: the client of lib/task_intent.py queues its intents in a file, which the supervisor
-- validates. The supervisor of lib/aib_supervisor.py runs an agent's turns; all that it remembers
-- it journals and restores at its start (`restore`). Operators send it control requests, which
-- the control log of lib/aib_control.py audits; that file also says who a caller is. The attempt
-- stream of lib/attempts_fold.py tells which launches are open. A launch goes through a broker:
-- lib/aib_broker_security.py says who may ask, and lib/aib_broker_response.py reads the answer.
--
-- The files. Base holds the helpers: texts as lists of code points, dictionaries, results with
-- the exceptions that the code raises. Json is decoded JSON with Python's equality. Ledger is
-- lib/task_ledger.py: Types, Display, Deadlines and Callers for the constants and the tests on
-- texts and actors, Envelope, Tasks and Fold for `fold` and `_base_task` (one function per branch
-- of the loop), Reading for `read_events`, Registry, Requests and Decide for `limits`,
-- `team_lead`, `_valid_assignee`, `rejection` and `decide`. The state of the loop (its local
-- variables) is the record State, the result is the record Ledger. The proofs stand in Steps
-- (what a branch has checked), Moves (the diagram of a task's states), Effects, Invariant,
-- Evolution, Derived, Agreement, Outcomes, Accepted and Bounds. Cli is lib/task_cli.py: Refs for
-- `valid_ref`, Arguments for `validate_common` and `validate_utf8_arguments`, Payload for
-- `payload_for` and `read_body_file`, Replay for `causation_replay`, Run for `task_caller`,
-- `commit` and the writing half of `main` (proofs in Body, Locked, Once and Again). Intents is
-- lib/task_intent.py: Validate for `validate_intent_records`, Client for `append_intent` and
-- `main` (proofs in Sound, Wanted and Queue). Control is lib/aib_control.py: Identity for
-- `configured_role_uids` and `identity_for`, Log for `append_record`, `requested_record` and
-- `terminal_record` (proofs in Operators and Lookup). Supervisor is lib/aib_supervisor.py: the
-- attributes that are restored are the record Core (Memory), Restore has `restore` with one
-- function per branch, Machine the whole state with `journal` and the records of control
-- requests, JournalFile `_load_records` (proofs in Durable and FailedWrite), Sessions
-- `bind_session` and its callers, Turns and Results `_finish_result`, Controls and Handling
-- `control_authorized`, `clear_brake` and `process_controls`. An exception that leaves a step is
-- the constructor broke, with the state at that point. The steps of the supervisor are modelled
-- where the writes of its journal succeed; what a write that fails leaves is `write_journal`. A
-- control request's start or cancellation of a turn is a parameter (record Turning). The proofs:
-- EndedTurns and JournalSteps say what `restore` makes of each record that is written; Recovered
-- states the recovery, and Quiet, Sound, TurnRecovery, SessionRecovery, ResultRecovery,
-- ControlRecovery, HandlingRecovery, ProcessRecovery, Restart and Processing prove it; Rightful
-- and Permission are about the verdict on requests, Unfinished about the turn that a restart
-- finds. Attempts is lib/attempts_fold.py: Frames for `scan`, Records for `fold_records` (proofs
-- in Numbering, Coherence and Settled). Broker is lib/aib_broker_response.py (Response: `parse`;
-- proofs in Relay and Whole) and lib/aib_broker_security.py (Security: `peer_agent`,
-- `groups_safe`; proofs in Policy).
--
-- Bounds and fuel. Numbers are natural numbers without a bound, as Python's. The supervisor's
-- times are whole numbers of the clock's unit. `fold` and `decide` are structural. `parse` of the
-- broker's response runs its loop on one round more than there are bytes, which is enough since
-- each round reads one. `read_body_file` has 8194 rounds: each but the last reads a byte, and all
-- together at most 8193.
--
-- Assumed of what is outside, as named hypotheses: that a commit of the shell library appends one
-- record with the causation, kind, payload and task that it is given (Appends); that the encoder
-- of JSON writes a record on one line (OneLine); that one printable line more in the journal is
-- one line more to decode (AppendsLine); that `int` of a float that equals a whole number is this
-- number (Truncates); that the parts of the supervisor that are not modelled journal only what
-- `restore` passes over (AreQuiet).
--
-- Not modelled: files, locks, sockets, processes and clocks, which are parameters (records
-- Outside, World, Peer, System, Home, Accounts, Setting); of lib/aib_supervisor.py the start of
-- turns, alarms, notes, tasks and intents, repositories and the loop; list and show of
-- lib/task_cli.py; lib/aib_deployment.py, lib/aib_login.py, the dashboard, the views of the
-- ledger, and the shell library.
pub mod Base
pub mod Json
pub mod Ledger
pub mod Cli
pub mod Intents
pub mod Control
pub mod Supervisor
pub mod Attempts
pub mod Broker
