-- ===== src/Lib.antt =====
-- youk: the task graph, the verification contract and the registries of the core server.
--
-- The program keeps a graph of tasks in a small database and decides which task may be worked on
-- next; and it lets a claim ("this works on every host") be called done only after a checker has
-- decomposed it into sub-claims, each verified, through a fixed graph of stages.
--
-- TaskGraph is servers/core/src/graph.py.
-- TaskGraph/Cycle: `_would_cycle`, the search in three colours. It recurses on fuel, one more
-- than the endpoints of the edges, and Cycle/Fuel shows that the fuel is never used up; Walk,
-- Clear, Found and Exact relate its answer to walks along the edges.
-- TaskGraph/Store: the tables `tasks` and `edges` as lists of rows in rowid order, and the SQL
-- statements INSERT OR IGNORE, UPDATE and SELECT that the module uses on them. A `Db` is the
-- committed content; a rollback is the database from before.
-- TaskGraph/Create: create_task_graph. TaskGraph/Gates: set_gate, is_unblocked, next_task,
-- start_task, open_tasks, mark_done. ORDER BY is for any collation that is a total order.
-- TaskGraph/Rows, Valid, Steps, Reach: the invariant of the database and its preservation.
-- TaskGraph/Next, Progress, Effects, Accept: what next_task, set_gate and create_task_graph do.
--
-- Verification is servers/core/src/verification_contract.py.
-- Verification/Stage: Stage, FORWARD_EDGES, REWORK_EDGES, Claim, advance, rework and
-- _walk_forward_to, whose fuel is the source's own guard, the number of stages.
-- Verification/SubClaims: generate_sub_claims and build_claim. The graph is the list of the items
-- of the scanner's nested dictionary; the hints are what retrieve_similar_patterns answers.
-- Verification/Library: append_pattern_library_entries.
-- Verification/Gate: gate_claim_done, gate_all_claims, mark_externally_verified and the migration
-- of old claim files. A claim file is malformed or has a claim in all its fields; an unknown status or
-- level, and a field of the wrong type, are not modelled. Allows, Routing, Promote, Stored and Migrate
-- are the proofs.
-- Verification/Checker: run_checker and run_rework_loop, which take the scanner's graph, the loop once
-- a round (`graph_fn`), write the claim file after each step and use VERIFY's rework targets.
--
-- AgentHost is servers/shared/agent_host.py: evaluate_capability and require_capability (Policy),
-- select_host (Selection) and the configuration file (Configuration, where json is a parameter).
-- RevisableSets is servers/core/src/revisable_sets.py: the registry as the items of its dictionary,
-- with enroll, learn_add, unlearn_prune and revert; the three that change a set share `on_set`.
-- TurnCheckpoint is servers/core/src/turn_checkpoint.py: the log of notes as a list of records.
-- CoverageTree is servers/core/src/coverage_tree.py: build_tree with the populator and the adversary
-- as functions, check_mece, review_order and the choice of a task's asks among its fragments; the
-- regular expressions that split a task and the rendered text are left out. CoverageTree/Templates:
-- the seed, the overlay on disk and add_concept_to_template.
-- CapabilityLedger is servers/shared/capability_ledger.py, over the registry of AgentHost.
--
-- Routing is servers/core/src/routing.py, with TaskSize of servers/shared/models.py. Routing/Size:
-- _score_size, with _signal_in as a parameter; Routing/Escalation: write_scope_escalation and
-- _consume_scope_escalation over the files of the session directories; Routing/Decision and
-- Routing/Route: route_task.
-- The notes of a decision and the id in the breadcrumb are left out.
--
-- TaskContract is servers/core/src/task_contract.py, over Routing and TaskGraph. TaskContract/Frames
-- and Provoke: the frames and _generate_provocations; Desk: the files and the text of a contract;
-- Generate: generate_task_contract; Approve: approve_task_contract, which escalates through Routing
-- and registers its node through TaskGraph, and check_task_contract_gate. What the loaders of the
-- ledger and of the audit logs answer is an argument.
--
-- Experiments is servers/shared/ab_experiments.py: Experiments/Pilot, the exposures and the status of a
-- pilot; Experiments/Pending, the markers of pending reactions. The two uses of SHA-256 are parameters.
--
-- ContractGuard is servers/shared/contract_guard.py: evaluate_bash on a command that is already split
-- into segments and tokens. The regular expressions, shlex, git and the paths are parameters (Shell).
-- ContractGuard/Forbidden says of the words of a command what the contracts forbid, and Complete that
-- this is what is reported; the other files are the steps between.
--
-- GlobalPatterns is the store state/global-patterns.jsonl: Entry is servers/shared/pattern_entry.py;
-- Rows is effective_patterns of servers/shared/contracts.py, locked_append_if_id_absent of
-- servers/shared/jsonl_lock.py and the grouping of servers/core/src/pattern_promotion.py; Store, the
-- rest of that file and servers/core/src/global_contracts.py. Latest is the last row of an id. A write is an append to the list of
-- rows, done under the lock of the file. Similarity of meaning, abstract_claim, the hashes and the
-- schema are parameters (Tools).
--
-- ConceptGraph is write_concepts of servers/core/src/concept_graph.py: the two tables are lists of rows,
-- an upsert and an INSERT OR IGNORE are functions on them. The database itself and its errors are not
-- modelled.
--
-- GapResolution is servers/core/src/gap_resolution.py: the tokens of a text and the texts of the skills
-- are parameters, and the share 0.75 of the tokens is compared in whole numbers.
--
-- Texts are native strings; the order of texts is a parameter. Time stamps, the JSON text of files,
-- locks and the connection to SQLite are not modelled: an operation is one transaction. Not modelled
-- in graph.py are find_mentioned_task and the reads get_all_tasks and check_graph_health; in
-- verification_contract.py retrieve_similar_patterns, mark_founder_confirmed and the command line.
--
-- Prelude has what the parts share: lists measured by native numbers, Python's any, sorted and
-- sets of texts. The modules called Tests run small inputs and apply each theorem at one.
mod Prelude
pub mod TaskGraph
pub mod Verification
pub mod AgentHost
pub mod RevisableSets
pub mod TurnCheckpoint
pub mod CoverageTree
pub mod CapabilityLedger
pub mod Routing
pub mod TaskContract
pub mod Experiments
pub mod ContractGuard
pub mod GlobalPatterns
pub mod ConceptGraph
pub mod GapResolution
