-- ===== src/Workflows/Interpreter/Tests.antt =====
-- Runs of interpreter.ts on a workflow that asks for an approval and sends a message.
use browser_cortex.Common.{
  ℕ, ◌≡◌, ◌≤◌, ◌<◌, ◌⊎◌, refl, true, false, Option, none, some, List, [], ◌∷◌, Text, units, arith,
  All, Pairs, any,
}
use browser_cortex.Contracts.Json.{null, string, no_fields, field, get}
use browser_cortex.Workflows.Interpreter.{
  approval_require, tool_invoke, external_write, non_idempotent, read_only, keyed, grants_all, Step,
  Workflow, Checkpoint, Tool, Authorization, running, outcome_unknown,
}
use browser_cortex.Workflows.Interpreter.Wrote.{writes}
use browser_cortex.Workflows.Interpreter.Retry.{IsRepetition, retry-IsRepetition}
use browser_cortex.Workflows.Interpreter.Execute.{
  Attempt, Interpreter, started, gave, find_tool, execute_step,
}
use browser_cortex.Workflows.Interpreter.Run.{begun, failed_checkpoint, run, Outcome}
use browser_cortex.Workflows.Interpreter.Cut.{non_idempotent_writes, last_saved, stored_frontier}
use browser_cortex.Workflows.Interpreter.Approved.{
  is_write_start, ConsumesApproval, Repeats, execute_step-approved,
}
use browser_cortex.Workflows.Interpreter.Ends.{IsEnd, run-Ended}
use browser_cortex.Workflows.Interpreter.Once.{Call, history, history-once}

abbrev digest : List Text → Text
digest parts = units "digest"

abbrev send_tool : Tool
send_tool = record {
  name = units "send";
  version = units "1";
  effect = external_write;
  idempotency = non_idempotent;
  required_capabilities = units "tool:send@1" ∷ [];
}

abbrev interpreter : Interpreter
interpreter = record { tools = send_tool ∷ []; has_broker = true; can_export = false }

abbrev ask : Step
ask = record {
  id = units "ask";
  op = approval_require;
  input = null;
  output = none;
  continues = false;
  approval_ref = none;
  tool = none;
  arguments = no_fields;
}

abbrev send : Step
send = record {
  id = units "send";
  op = tool_invoke;
  input = null;
  output = none;
  continues = false;
  approval_ref = some (units "steps.ask");
  tool = some (record { name = units "send"; version = units "1" });
  arguments = no_fields;
}

abbrev workflow : Workflow
workflow = record {
  id = units "w";
  version = units "1";
  input_schema = [];
  origin_scope = [];
  required_capabilities = units "tool:send@1" ∷ [];
  source_dependencies = [];
  steps = ask ∷ send ∷ [];
}

abbrev authorization : Option Authorization
authorization = some (record {
  origin = none;
  granted_capabilities = units "tool:send@1" ∷ [];
  source_revisions = [];
})

abbrev attempts : ℕ → Attempt
attempts index = record {
  authorization = authorization;
  aborted = false;
  late = false;
  computed = gave (string (units "h1"));
  consumes = true;
  exports = false;
  starts = true;
  executed = gave null;
  is_cancellation = false;
}

abbrev call : ℕ → Call
call cut = record {
  inputs = no_fields;
  authorization = authorization;
  attempts = attempts;
  run_id = units "r";
  cut = cut;
}

abbrev whole_run : Outcome
whole_run =
    run digest interpreter workflow no_fields authorization attempts (units "p") (units "r") none

-- A run that is not cut off starts the write of the second step once.
whole : non_idempotent_writes whole_run.actions ≡ 1 ∷ []
unfolding non_idempotent_writes run get
whole = refl

-- Cut off behind the start of the write, the run is resumed twice and does not start it again.
resumed :
    non_idempotent_writes
      (history digest interpreter workflow (units "p") none (call 7 ∷ call 20 ∷ call 20 ∷ []))
    ≡ 1 ∷ []
unfolding non_idempotent_writes history run get
resumed = refl

-- Cut off before the dispatch is saved, the resumed run starts it.
started_late :
    non_idempotent_writes
      (history digest interpreter workflow (units "p") none (call 5 ∷ call 20 ∷ []))
    ≡ 1 ∷ []
unfolding non_idempotent_writes history run get
started_late = refl

history-once_example :
    All
      (λ i. stored_frontier none ≤ i)
      (non_idempotent_writes
        (history digest interpreter workflow (units "p") none (call 7 ∷ call 20 ∷ [])))
    × Pairs ◌<◌ (
        non_idempotent_writes
          (history digest interpreter workflow (units "p") none (call 7 ∷ call 20 ∷ [])))
unfolding stored_frontier
history-once_example =
    history-once digest interpreter workflow (units "p") none (call 7 ∷ call 20 ∷ []) (omega arith)

abbrev at_send : Checkpoint
at_send = record {
  run_id = units "r";
  workflow_id = units "w";
  workflow_version = units "1";
  plan_fingerprint = units "p";
  state = running;
  next_step_index = 1;
  values = field (units "steps.ask") (string (units "h1")) no_fields;
  receipts = [];
  active_step = none;
}

execute_step-approved_example :
    ((any is_write_start
          (execute_step digest interpreter workflow send 1 (attempts 1) at_send).actions
        ≡ false)
      ⊎ ConsumesApproval send at_send
          (execute_step digest interpreter workflow send 1 (attempts 1) at_send).actions)
    ⊎ Repeats interpreter send at_send
execute_step-approved_example =
    execute_step-approved send at_send (attempts 1) interpreter digest workflow 1

abbrev blocked : Checkpoint
blocked = record at_send {
  active_step = some (record {
    step_id = units "send";
    effect = external_write;
    idempotency = non_idempotent;
    idempotency_key = none;
  });
}

blocked_result :
    (run digest interpreter workflow no_fields authorization attempts
      (units "p")
      (units "r")
      (some blocked)).result
    ≡ some (record blocked { state = outcome_unknown })
unfolding run
blocked_result = refl

run-Ended_example :
    IsEnd outcome_unknown
    × (last_saved
          (some blocked)
          (run digest interpreter workflow no_fields authorization attempts
            (units "p")
            (units "r")
            (some blocked)).actions
        ≡ some (record blocked { state = outcome_unknown }))
run-Ended_example =
    run-Ended digest interpreter workflow no_fields authorization attempts (units "p") (units "r")
      (some blocked) (record blocked { state = outcome_unknown }) blocked_result

abbrev keyed_tool : Tool
keyed_tool = record send_tool { idempotency = keyed }

abbrev keyed_interpreter : Interpreter
keyed_interpreter = record interpreter { tools = keyed_tool ∷ [] }

retry-IsRepetition_example :
    IsRepetition 1 keyed_tool
      (execute_step digest keyed_interpreter workflow send 1 (attempts 1) at_send).actions
      (execute_step digest keyed_interpreter workflow send 1 (attempts 1) (
        begun 1 (
          failed_checkpoint send 1
            (attempts 1)
            none
            false
            (execute_step digest keyed_interpreter workflow send 1
              (attempts 1)
              at_send).checkpoint))).actions
unfolding execute_step find_tool grants_all get
retry-IsRepetition_example =
    retry-IsRepetition digest keyed_interpreter workflow send 1 keyed_tool (attempts 1) (attempts 1)
      none false at_send refl refl refl refl refl refl refl

-- A tool that writes may be declared with the idempotency "read-only". Its write has no key and does
-- not block a run that is resumed: cut off behind its start, it is started again.
abbrev read_only_tool : Tool
read_only_tool = record send_tool { idempotency = read_only }

abbrev read_only_interpreter : Interpreter
read_only_interpreter = record interpreter { tools = read_only_tool ∷ [] }

read_only_again :
    writes (history digest read_only_interpreter workflow (units "p") none (call 7 ∷ call 20 ∷ []))
    ≡ started 1 external_write read_only none ∷ started 1 external_write read_only none ∷ []
unfolding history run get
read_only_again = refl
