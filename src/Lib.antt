-- ===== src/Lib.antt =====
-- The decision-making parts of browser-cortex, as definitions that compute, with the theorems that
-- make them correct.
--
-- The program keeps the work of a browser assistant local. Every request to act passes through a
-- few small stateful parts: an extension session authorizes the messages of a page, a capability
-- grant and a one-time approval allow an operation, the router picks the local or the online model,
-- the scheduler feeds one local worker, the recovery controller says what is available, and the
-- privacy package finds and replaces sensitive text before anything leaves. A workflow is validated,
-- then run step by step by an interpreter that saves checkpoints and consumes approvals before it
-- writes. The memory package cuts documents into chunks. They share the error codes, limits, JSON
-- values and schemas of packages/contracts.
--
-- Files and the code they model (paths from the repository's root):
--   Common              lists, strings as UTF-16 code units, numbers, `Map` in insertion order
--   Contracts           packages/contracts/src: errors.ts, limits.ts, json.ts, the string schemas
--   Policy.Approvals    packages/policy/src/approvals.ts: ApprovalStore
--   Policy.Grants       packages/policy/src/grants.ts: evaluateCapability and GrantStore
--   Bridge.Sessions     packages/bridge/src/sessions.ts: ExtensionSessionRegistry
--   Bridge.Messages     packages/bridge/src/messages.ts: the schemas and parseBridgeMessage
--   Memory.Encoding     packages/memory/src/encoding.ts: toBase64, fromBase64
--   Memory.Ingest       packages/memory/src/ingest.ts: preferredBoundary, createChunks
--   Core.Scheduler      packages/core/src/scheduler.ts: BoundedRuntimeScheduler
--   Core.Router         packages/core/src/router.ts: DeterministicRouter
--   Core.Context        packages/core/src/context.ts: the segments of a task's context
--   Core.Egress         packages/core/src/egress.ts: sendApproved, with the binding of a disclosure
--                       (packages/privacy/src/disclosure.ts); uses Policy.Approvals
--   Core.Recovery       packages/core/src/recovery.ts: LocalRecoveryController
--   Workflows.Approval  packages/workflows/src/approval.ts: ApprovalBroker
--   Workflows.Csv       packages/workflows/src/csv.ts: parseCsv; canonical.ts: assertSafeKey
--   Workflows.Validation   packages/workflows/src/validation.ts: validateWorkflow; Steps has one step
--                       and its references, Whole the rest
--   Workflows.Interpreter  packages/workflows/src/interpreter.ts: WorkflowInterpreter.run; Execute has
--                       one step, Run the loop and the checkpoints
--   Privacy.Redaction   packages/privacy/src/redaction.ts: mergeSensitiveSpans, redactSensitiveData
-- The children of each hold its theorems; a child named Tests holds runs at concrete inputs.
--
-- State is passed explicitly: a method that changes its object takes the state and returns it after
-- the answer. A thrown `CortexError` is its code in `Result`. The names are those of the source in
-- snake case; the part of a method behind a check or a look-up is a function of its own
-- (`consume`, `consume_as`, `consume_found`, `consume_record`), whose argument is the value that the
-- source looks up. A method that awaits is one step where nothing after the `await` depends on what
-- was read before it, and is cut at the `await` where something does (Workflows.Approval).
--
-- A run of a workflow is the list of its actions (a checkpoint is saved, an approval consumed, work
-- started) with its result, so that a crash is a prefix of that list. How the code ends that a step
-- calls, an operation on rows, an adapter or a tool, is read from an `Attempt`.
--
-- Numbers that the source checks with `Number.isSafeInteger` are `Number`: a natural number, a
-- negative integer, or neither; behind the check they are ℕ, and sums stay within the safe
-- integers where the source checks that. The status of a response is an integer of HTTP, in ℕ. The
-- clock, the platform's URL parser, digests and random values are arguments. The loops that draw a
-- fresh random name take the finite list of values drawn, and give `none` when that list runs out
-- before a fresh one. The loop of createChunks runs on fuel, one more than the length of the text,
-- which its theorem shows to be enough; the depth limit of 32 of the expressions in a workflow is
-- itself the fuel of their checks, and an integer below 10^21 has the 21 digits that are printed
-- at most; every other loop is a recursion on its data.
--
-- Not modelled: the digest of an approval's binding (a parameter, which may throw), zod itself, the
-- encryption and the storage of packages/memory, the model runtimes, the workflow compiler, the
-- readings of the clock in receipts and checkpoints, a save that throws, the detectors' regular
-- expressions, `rehydrateText`, timers, the applications and the user interface.
pub mod Common
pub mod Contracts
pub mod Memory
pub mod Policy
pub mod Workflows
pub mod Core
pub mod Bridge
pub mod Privacy
