-- ===== src/Lib.antt =====
-- instruct-eval runs experiments on instructions for coding agents: Temporal workflows
-- (src/instruct_eval/workflows.py) drive activities (activities.py) that invoke roles and subject
-- trials, and every step that must happen once, or in order, goes through a durable ledger, the
-- class CoordinationStore of src/instruct_eval/coordination.py. The trials of an experiment are
-- handed out by the class TrialDispatcher of src/instruct_eval/trials.py.
--
-- Common, Sql and Exec are shared: tests of equality, lists and Python's ints; the statements of
-- SQLite over a table as the list of its rows (SELECT with fetchone, UPDATE with its rowcount,
-- INSERT with its constraints); and methods that change a state and may raise, where a
-- transaction that raises gives the state back. Every method of the store is one function into
-- Exec, with the checks and the statements of the source in their order. A do block is the body
-- of a method, and a helper on the row that a SELECT gives is what follows it.
--
-- Coordination models coordination.py: Types its enums, dataclasses and rows; Checks its checks
-- of arguments; Library what it takes from hashlib, json and pathlib, as parameters; Invocations
-- the methods on the table of invocations; Gates (Reserve, Release) the gate ledger; Decisions
-- the decision ledgers, which are gate ledgers under a workflow of their own; Children the
-- authorizations of child workflows; Opening the constructor on a database without rows.
-- Coordination.Calls is a sequence of calls of any of the methods that change the store. Because
-- each method runs in one BEGIN IMMEDIATE transaction, the calls of several processes happen in
-- some order, and a theorem about all sequences covers every interleaving of them.
--
-- Trials.Dispatcher models TrialDispatcher, whose dictionary is the list of its items in
-- insertion order; its method terminal is called finish. Trials.Outcome models classify_terminal
-- and schedule_batches, Trials.Authorization the decision of gate G6, and Trials.Release the
-- release of G5: the descriptors and commitments of private artifacts, the inventory of them, and
-- the packet of release_g5, with SHA-256 and HMAC as the parameter TrialLibrary.
--
-- Workflows models workflows.py: Json the values that workflows and activities exchange, and
-- Experiment the class InstructionExperimentWorkflow. Its state is one record, and each method
-- and coroutine is one function into Exec: the gates (_claim_authorization, _advance_gate,
-- _commit_terminal) in Experiment itself, _execute_gate and _recover_pending_gate in Pending, the
-- signed decisions and what happens while the workflow waits in Decisions, the checks of packets
-- in Packets and Results, the trials of G3 in Trials, the stages from the claim to G6 in Stages,
-- Design and Completion, and run with its except clauses in Run. Where a coroutine returns in the
-- middle of another's body, Next says whether it has finished. What comes from outside is the
-- instance World: the outcome of the activity of each await, the decisions that come in during
-- it, the ids of the run, the hash of canonical JSON, the validity of a signed wire and
-- str.lower; a theorem about all worlds covers every answer of every activity, every order of
-- decisions and a cancellation of any await of an activity or of a condition. TrialWorld says how
-- each trial ends, which of them each wait finds done, and which waits a cancellation ends, with
-- the drain of the trials after a terminal one and after a cancellation; a drain that is
-- cancelled after a cancellation makes the collection raise, as a token that is not there does.
-- The loops of _dispatch_trials and _collect_trials take rounds of 20, one for each assignment:
-- each dispatch takes a token or raises, and each wait ends a trial at least or is cancelled,
-- after which none is left or the loop has raised.
--
-- Gates, Quiet, Sound, Ends and Ending hold the proofs about the run: Quiet says which actions
-- leave the gate, the claim, the artifacts and the terminal state alone, Sound what holds of an
-- experiment that is running (Live) and of one that has ended (Closed), and Ending goes through
-- the stages with the rules of Exec.Ensures.
--
-- Not modelled: the campaign workflow; in trials.py the journal of private maps, the sealing of
-- evidence and the disclosure matcher; the modules activities, artifacts, behavior, messages,
-- models, signing, role_runtime, production, worker, provision and cli; a decision that waits for
-- its activity while the run goes on, since here each decision of an await is handled before the
-- next; the query status; the retries and timeouts of activities, which Temporal does; the checks
-- by isinstance, which hold by the types; files, their permissions and the PRAGMAs of the
-- connection; the bounds of SQLite's 64-bit integers, since an epoch grows by one for each
-- recovery; of the request of a gate, the fields that are the same in every request of a
-- workflow. A map whose tokens are not all texts is refused by record_map_lifecycle, where the
-- source asks only for twenty distinct ones. The number that secrets.randbelow draws is an
-- argument; str(Path(text)) is a parameter. Hashes and JSON are any functions, so nothing rests
-- on their being injective. The other loops are structural recursion on lists, except that
-- schedule_batches counts its steps, as many as there are tokens, of which each batch takes one
-- at least.
pub mod Common
pub mod Sql
pub mod Exec
pub mod Coordination
pub mod Trials
pub mod Workflows
