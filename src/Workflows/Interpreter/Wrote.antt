-- ===== src/Workflows/Interpreter/Wrote.antt =====
-- A step of interpreter.ts that has started the write of its tool (`#executeStep`, `#invokeTool`): how
-- far it has come.
use browser_cortex.Common.{
  ℕ, ◌≡◌, refl, ap, ◌∙◌, Bool, true, not, ◌||◌, Option, none, some, List, [], ◌∷◌, Text, ◌===◌,
  arith, if◌then◌else◌, if_intro, any,
}
use browser_cortex.Contracts.Json.{
  JsonValue, null, undefined, boolean, number, string, array, object, Fields,
}
use browser_cortex.Workflows.Interpreter.{
  tool_invoke, Effect, Idempotency, Step, Workflow, Checkpoint, Tool, is_write, resolve_input,
  resolve_arguments, grants_all,
}
use browser_cortex.Workflows.Interpreter.Execute.{
  Action, saved, consumed, started, Attempt, Interpreter, Ran, refuses, permission_denied,
  dispatched, start, with_handle, with_reference, call_with, resolved, idempotency_key, call_tool,
  invoke_tool, export_file, find_tool, execute_step,
}
use browser_cortex.Workflows.Interpreter.Approved.{is_write_start}

-- The writes among some actions.
abbrev pub writes : List Action → List Action
writes [] = []
writes (saved cp ∷ actions) = writes actions
writes (consumed handle ∷ actions) = writes actions
writes (started index effect idempotency key ∷ actions) =
    let rest = writes actions in
    if is_write effect then started index effect idempotency key ∷ rest else rest

-- `ran` has come to the call of the tool, and leaves what that leaves.
pub record Calls (called ran : Ran) : Type 0 where
  pub at : ran.checkpoint ≡ called.checkpoint
  pub written : writes ran.actions ≡ writes called.actions
  pub wrote : any is_write_start called.actions ≡ true

-- If `ran` has started a write, it has come to the call.
abbrev Called : Ran → Ran → Type 0
Called called ran = any is_write_start ran.actions ≡ true → Calls called ran

call-Called : (called : Ran) → Called called called
call-Called called w = record { at = refl; written = refl; wrote = w }

refuses-Called : (called : Ran) (cp : Checkpoint) → Called called (refuses cp permission_denied)
refuses-Called called cp = λ w. absurd (cc)

module _ (attempt : Attempt) (cp : Checkpoint) (called : Ran) where
  with_handle-Called : (v : Option JsonValue) → Called called (with_handle v attempt cp called)
  unfolding with_handle
  with_handle-Called none = λ w. absurd (cc)
  with_handle-Called (some (string handle)) =
      if_intro (Called called) attempt.consumes _ _
        (λ _ w. record { at = refl; written = refl; wrote = w }) (λ _ w. absurd (cc))
  with_handle-Called (some null) = λ w. absurd (cc)
  with_handle-Called (some undefined) = λ w. absurd (cc)
  with_handle-Called (some (boolean _)) = λ w. absurd (cc)
  with_handle-Called (some (number _)) = λ w. absurd (cc)
  with_handle-Called (some (array _)) = λ w. absurd (cc)
  with_handle-Called (some (object _)) = λ w. absurd (cc)

  with_reference-Called :
      (interpreter : Interpreter) (reference : Option Text)
      → Called called (with_reference interpreter reference attempt cp called)
  unfolding with_reference
  with_reference-Called interpreter none = λ w. absurd (cc)
  with_reference-Called interpreter (some reference) =
      if_intro (Called called) (reference === [] || not interpreter.has_broker) _ _
        (λ _ w. absurd (cc)) (λ _. with_handle-Called _)

module _ (digest : List Text → Text) (interpreter : Interpreter) (workflow : Workflow) (step : Step)
    (index : ℕ) (tool : Tool) where
  abbrev tool_call : Attempt → Checkpoint → Ran
  tool_call attempt cp = call_tool digest workflow step index tool attempt cp

  -- `#executeStep` at a step that calls `tool`, with the input and the arguments that it reads.
  abbrev pub tool_run : Option JsonValue → Option Fields → Attempt → Checkpoint → Ran
  tool_run value arguments attempt cp =
      resolved value tool_invoke attempt cp
        (if not (grants_all attempt.authorization tool.required_capabilities)
          then refuses cp permission_denied
          else call_with arguments interpreter step tool attempt cp (tool_call attempt cp))
        (export_file interpreter step index attempt cp)

  pub execute_step-tool_run :
      (attempt : Attempt) (cp : Checkpoint)
      → step.op ≡ tool_invoke
      → find_tool step.tool interpreter.tools ≡ some tool
      → execute_step digest interpreter workflow step index attempt cp
        ≡ tool_run
            (resolve_input step cp.values)
            (resolve_arguments step.arguments cp.values)
            attempt
            cp
  unfolding execute_step invoke_tool
  execute_step-tool_run attempt cp op named =
      ap
        (λ o.
          resolved (resolve_input step cp.values) o attempt cp
            (invoke_tool digest interpreter workflow step index
              (find_tool step.tool interpreter.tools) attempt cp)
            (export_file interpreter step index attempt cp))
        op
      ∙ ap
          (λ t.
            resolved (resolve_input step cp.values) tool_invoke attempt cp
              (invoke_tool digest interpreter workflow step index t attempt cp)
              (export_file interpreter step index attempt cp))
          named

  call_with-Called :
      (attempt : Attempt) (cp : Checkpoint) (arguments : Option Fields)
      → Called
          (tool_call attempt cp)
          (call_with arguments interpreter step tool attempt cp (tool_call attempt cp))
  unfolding call_with
  call_with-Called attempt cp none = λ w. absurd (cc)
  call_with-Called attempt cp (some arguments) =
      if_intro (Called (tool_call attempt cp)) _ _ _
        (λ _. with_reference-Called attempt cp (tool_call attempt cp) interpreter step.approval_ref)
        (λ _. call-Called (tool_call attempt cp))

  -- A step that calls `tool` and has started a write has come to the call.
  pub tool_run-Called :
      (value : Option JsonValue) (arguments : Option Fields) (attempt : Attempt) (cp : Checkpoint)
      → any is_write_start (tool_run value arguments attempt cp).actions ≡ true
      → Calls
          (call_tool digest workflow step index tool attempt cp)
          (tool_run value arguments attempt cp)
  tool_run-Called none arguments attempt cp = λ w. absurd (cc)
  tool_run-Called (some value) arguments attempt cp =
      if_intro (Called (tool_call attempt cp)) _ _ _ (λ _. refuses-Called (tool_call attempt cp) cp)
        (λ _. call_with-Called attempt cp arguments)

  -- The call of a tool that writes.
  abbrev pub key_at : Checkpoint → Option Text
  key_at cp = idempotency_key digest workflow step tool cp

  abbrev pub marked_at : Checkpoint → Checkpoint
  marked_at cp = dispatched step tool.effect tool.idempotency (key_at cp) cp

  pub call_tool-write :
      (attempt : Attempt) (cp : Checkpoint)
      → is_write tool.effect ≡ true
      → call_tool digest workflow step index tool attempt cp ≡ record {
        actions =
            saved (marked_at cp) ∷ start index tool.effect tool.idempotency (key_at cp) attempt;
        checkpoint = marked_at cp;
        ending = attempt.executed;
      }
  unfolding call_tool
  call_tool-write attempt cp h =
      ap
        (λ (b : Bool).
          let write : Ran = record {
            actions =
                saved (marked_at cp) ∷ start index tool.effect tool.idempotency (key_at cp) attempt;
            checkpoint = marked_at cp;
            ending = attempt.executed;
          } in
          let read : Ran = record {
            actions = start index tool.effect tool.idempotency (key_at cp) attempt;
            checkpoint = cp;
            ending = attempt.executed;
          } in
          if b then write else read)
        h

pub start-writes :
    (index : ℕ) (e : Effect) (u : Idempotency) (key : Option Text) (attempt : Attempt)
    → is_write e ≡ true
    → any is_write_start (start index e u key attempt) ≡ true
    → writes (start index e u key attempt) ≡ started index e u key ∷ []
unfolding start
start-writes index e u key attempt h w = ground arith
