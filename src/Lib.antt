-- ===== src/Lib.antt =====
-- Verification library of Kratos HARNESS: the decisions of the runtime, as models that compute.
--
-- The runtime (packages/runtime/src) keeps one append-only stream of events for each run of a
-- workflow and one for each lease. A command reads the stream, replays it to a state, decides on the
-- state what is allowed, and appends the event that records the decision. What decides and what
-- replays is in packages/runtime/src/domain, pure code, and that is what is modelled here.
--
-- * Workflow (Workflow, from domain/workflow/model.ts and reducer.ts). The state of a run is
--   `Workflow.Model.State`, an event `Workflow.Model.Event`. `reduce_workflow` and
--   `reduce_workflow_v1` are `reduceWorkflow` and `reduceWorkflowV1`, a function for each branch;
--   `reduce_with` is the registry that selects one by the event's policy version. `Run.Step` is one
--   event of a stream whose revisions follow each other, and `Run.Reach` the runs that such a stream
--   replays to (`replay` of domain/events/reduce.ts).
-- * Repair loop (RepairLoop, from domain/repair-loop/decision.ts, artifact.ts and model.ts).
--   `decide_repair_loop` decides on a verdict of acceptance: pass, back to code for a repair, or stop
--   at the ceiling of attempts. `build_acceptance_decision_metadata` binds the decision to its
--   artifacts; the reducer checks the result again, independently (`has_canonical_acceptance_decision`).
-- * Leases (Locks, from domain/locks/scope.ts, policy.ts, lifecycle.ts and model.ts).
--   `decide_acquire`, `decide_renew`, `decide_release` and `decide_takeover` are the policy;
--   `validate_lifecycle_events` is the check of a stream of lease events; `event_of` is the draft of the
--   event that `prepareLeaseTransition` seals for a transition, and `lock_root` the directory of
--   `lockPaths`. `History.History` is a sequence of transitions, each granted over the one before.
-- * Gates (Gates, from domain/gates/policy.ts, evaluate.ts and model.ts). `evaluate_gates` collects the
--   failures of a run and aggregates them into an outcome.
-- * Decisions (Decisions, from domain/workflow/decision.ts). `decide_start_workflow`,
--   `decide_continue_workflow`, `decide_record_fact` and `decide_resolve_repair_stop` check a request
--   against the replayed run and make the draft of the event that records the answer; `draft.event` is
--   what the reducer of Workflow then reads.
-- * Transactions (Transactions, from domain/transactions/normalize.ts, recovery.ts, model.ts and
--   transition.ts). `draft_plan` normalises the effects of a command to the operations it takes.
--   `decide_recovery` is the next step of an interrupted mutation of the project's files;
--   `drive_recovery` is `driveRecovery` of composition/transactions.ts, from the check of the leases on:
--   `drive_passes` is its loop, and `pass` what one decision leaves behind or throws, the checks of the
--   parent, the payload, the leases and the result included (`publish_operation`). `Interrupted` is such
--   a loop that may be killed between a publication and its record. Reading, validating and writing
--   the documents and the clean-up of directories are left out, and nobody else writes during a pass.
-- * Paths (Paths, from domain/paths/canonicalize.ts and domain/transactions/surface.ts).
--   `canonicalize_project_path` and `is_managed_destination`, on the segments of a path.
-- * Objective (Objective, from domain/objective/lifecycle.ts and identity.ts). `decide_objective`,
--   `complete_objective` and `feature_identity`.
-- * Shared modules. Common (texts as lists of UTF-16 code units, results for code that throws, maps as
--   association lists), Criterion (packages/contracts/src/acceptance-criteria.ts) and Grammar (the
--   regular expressions of identifiers, digests, references and timestamps, as tests).
--
-- Representation. Numbers are natural numbers: the contracts admit no others in the modelled fields,
-- and the tests of the source against the largest safe integer are kept. A function that throws
-- returns a `Result`. A frozen copy is the value itself. Fields with one constant value, such as a
-- contract version, are left out. An instant of the lease policy is a number of milliseconds since the
-- beginning of the year 0, up to the year 10000, as the contract of timestamps requires; an invalid
-- `Date`, or one before the year 0, is `none`. Stacks are lists with the
-- top first. All functions recurse on their data but two with fuel: `decimal`, for `String(n)`, whose
-- fuel is above the number, as each digit divides that by ten; and `drive_passes`, for a loop without
-- a bound: each pass over a publication records one operation more, then one commits and one
-- completes, so two passes more than there are operations are given.
--
-- Parameters. How ICU compares two gate identifiers (`localeCompare`) is an argument of the sorting.
-- How a text is folded to lower-case letters without marks, by the tables of Unicode, is an argument of
-- `feature_identity` and of what calls it; lower case, the digest of a content and its size in bytes are
-- arguments of `draft_plan`.
--
-- Not modelled: the composition root, the file system and process adapters and the command line, which
-- perform input and output; the generated contracts and their schema validation; digests, canonical
-- JSON, sealing and verification of an event chain; the adapters and extensions of the hosts; the
-- measurements and the documents that the runtime renders; and the scripts and tests.
pub mod Common
pub mod Criterion
pub mod Decisions
pub mod Gates
pub mod Grammar
pub mod Locks
pub mod Objective
pub mod Paths
pub mod RepairLoop
pub mod Transactions
pub mod Workflow
