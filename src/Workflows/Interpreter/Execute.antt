-- ===== src/Workflows/Interpreter/Execute.antt =====
-- packages/workflows/src/interpreter.ts: `#executeStep`, `#invokeTool` and `markDispatched`. What a
-- step does to the outside is a list of actions. How the code ends that a step calls (an operation
-- on rows, an adapter, a tool with the checks of its result, `consume` of the approval broker) is
-- read from an `Attempt`. The parameter `digest` stands for `fingerprint`.
use browser_cortex.Common.{
  ℕ, Bool, true, false, not, ◌&&◌, ◌||◌, Option, none, some, List, [], ◌∷◌, ◌++◌, Text, ◌===◌,
  units, if◌then◌else◌,
}
use browser_cortex.Contracts.Json.{JsonValue, string, Fields}
use browser_cortex.Workflows.Interpreter.{
  Operation, tool_invoke, file_export, Effect, read, local_write, external_write, Idempotency,
  keyed, non_idempotent, ToolReference, Step, Workflow, ActiveStep, Checkpoint, Tool, Authorization,
  is_write, resolve_reference, resolve_input, resolve_arguments, grants_all,
}

-- What happens outside, in order: a checkpoint is saved, an approval is consumed, or the work of the
-- step at this index is started, with the idempotency key that it gets.
pub data Action : Type 0 where
  saved : Checkpoint → Action
  consumed : (handle : Text) → Action
  started : (index : ℕ) (effect : Effect) (idempotency : Idempotency) (key : Option Text) → Action

-- A value, or an error: the code of a `WorkflowExecutionError` and its `outcomeUnknown`.
pub data Ending : Type 0 where
  gave : JsonValue → Ending
  threw : (code : Option Text) (outcome_unknown : Bool) → Ending

-- One turn of the loop of `run`, as the outside has it: the authorization and the signal, whether the
-- deadline has passed, how the operation of a step without a dispatch ends, whether `consume` and
-- `createExport` return, whether the signal lets dispatched work start and how that ends, and whether
-- an error comes from a cancellation.
pub record Attempt : Type 0 where
  pub authorization : Option Authorization
  pub aborted : Bool
  pub late : Bool
  pub computed : Ending
  pub consumes : Bool
  pub exports : Bool
  pub starts : Bool
  pub executed : Ending
  pub is_cancellation : Bool

-- The fields of a WorkflowInterpreter that a step reads.
pub record Interpreter : Type 0 where
  pub tools : List Tool
  pub has_broker : Bool
  pub can_export : Bool

-- How a step has run: its actions, the checkpoint behind `markDispatched`, and its end.
pub record Ran : Type 0 where
  pub actions : List Action
  pub checkpoint : Checkpoint
  pub ending : Ending

abbrev pub ends : Checkpoint → Ending → Ran
ends cp ending = record { actions = []; checkpoint = cp; ending = ending }

-- `throw new WorkflowExecutionError(..., code)`, and another error.
abbrev pub refuses : Checkpoint → Text → Ran
refuses cp code = ends cp (threw (some code) false)

abbrev pub fails : Checkpoint → Ran
fails cp = ends cp (threw none false)

abbrev pub permission_denied : Text
permission_denied = units "PERMISSION_DENIED"

abbrev pub same_effect : Effect → Effect → Bool
same_effect read read = true
same_effect local_write local_write = true
same_effect external_write external_write = true
same_effect _ _ = false

abbrev pub is_keyed : Idempotency → Bool
is_keyed keyed = true
is_keyed _ = false

-- markDispatched
unfoldable pub dispatched : Step → Effect → Idempotency → Option Text → Checkpoint → Checkpoint
dispatched step effect idempotency key cp = record cp {
  active_step = some (record {
    step_id = step.id;
    effect = effect;
    idempotency = idempotency;
    idempotency_key = key;
  });
}

-- The dispatched work behind `withTimeout`: it is not started when the signal is aborted already.
unfoldable pub start : ℕ → Effect → Idempotency → Option Text → Attempt → List Action
start index effect idempotency key attempt =
    if attempt.starts then started index effect idempotency key ∷ [] else []

-- The handle that an approval reference gives is consumed before the rest.
unfoldable pub with_handle : Option JsonValue → Attempt → Checkpoint → Ran → Ran
with_handle none attempt cp rest = fails cp
with_handle (some (string handle)) attempt cp rest =
    if attempt.consumes then record rest { actions = consumed handle ∷ rest.actions } else fails cp
with_handle (some _) attempt cp rest = refuses cp permission_denied

unfoldable pub with_reference : Interpreter → Option Text → Attempt → Checkpoint → Ran → Ran
unfolding with_handle resolve_reference ◌===◌
with_reference interpreter none attempt cp rest = refuses cp permission_denied
with_reference interpreter (some reference) attempt cp rest =
    if reference === [] || not interpreter.has_broker
    then refuses cp permission_denied
    else with_handle (resolve_reference reference cp.values) attempt cp rest

-- `checkpoint.activeStep` is a keyed write of this step, with this effect and a key.
unfoldable pub is_resumed : Step → Effect → Option ActiveStep → Bool
unfolding ◌===◌
is_resumed step effect none = false
is_resumed step effect (some active) =
    active.step_id === step.id
    && same_effect active.effect effect
    && is_keyed active.idempotency
    && elim active.idempotency_key [ none ↦ false | some key ↦ true ]

-- The key of the active step, when that is this step and has one that is not empty.
unfoldable pub filled : Option Text → Option Text
unfolding ◌===◌
filled none = none
filled (some key) = if key === [] then none else some key

unfoldable pub active_key : Step → Option ActiveStep → Option Text
unfolding ◌===◌ filled
active_key step none = none
active_key step (some active) =
    if active.step_id === step.id then filled active.idempotency_key else none

abbrev pub or_fresh : Option Text → Text → Text
or_fresh none fresh = fresh
or_fresh (some key) fresh = key

-- The switch of `#executeStep`, behind `resolveInput`.
abbrev pub resolved : Option JsonValue → Operation → Attempt → Checkpoint → Ran → Ran → Ran
resolved none op attempt cp called exported = fails cp
resolved (some value) tool_invoke attempt cp called exported = called
resolved (some value) file_export attempt cp called exported = exported
resolved (some value) _ attempt cp called exported = ends cp attempt.computed

-- A tool is called with the arguments that were resolved, a write behind its approval, unless it
-- repeats a keyed write.
unfoldable pub call_with :
    Option Fields → Interpreter → Step → Tool → Attempt → Checkpoint → Ran → Ran
unfolding with_reference is_resumed
call_with none interpreter step tool attempt cp called = fails cp
call_with (some arguments) interpreter step tool attempt cp called =
    if is_write tool.effect && not (is_resumed step tool.effect cp.active_step)
    then with_reference interpreter step.approval_ref attempt cp called
    else called

-- The case "file.export".
unfoldable pub export_file : Interpreter → Step → ℕ → Attempt → Checkpoint → Ran
unfolding dispatched start with_reference
export_file interpreter step index attempt cp =
    let marked = dispatched step local_write non_idempotent none cp in
    let written : Ran = record {
      actions = saved marked ∷ start index local_write non_idempotent none attempt;
      checkpoint = marked;
      ending = attempt.executed;
    } in
    let exported = if interpreter.can_export then written else ends cp attempt.executed in
    with_reference interpreter step.approval_ref attempt cp
      (if attempt.exports then exported else fails cp)

-- `this.#tools.get(toolKey(step.tool))`, for a tool step.
unfoldable pub find_tool : Option ToolReference → List Tool → Option Tool
unfolding ◌===◌
find_tool none tools = none
find_tool (some reference) [] = none
find_tool (some reference) (tool ∷ tools) =
    let rest = find_tool (some reference) tools in
    if tool.name ++ b'@' ∷ tool.version === reference.name ++ b'@' ∷ reference.version
    then some tool
    else rest

module _ (digest : List Text → Text) where
  -- `bc-workflow-v1:${await fingerprint({ ... })}`
  unfoldable pub fresh_key : Workflow → Step → Tool → Checkpoint → Text
  fresh_key workflow step tool cp =
      units "bc-workflow-v1:"
      ++ digest (
          cp.run_id ∷ workflow.id ∷ workflow.version ∷ cp.plan_fingerprint ∷ step.id ∷ tool.name
          ∷ tool.version ∷ [])

  unfoldable pub idempotency_key : Workflow → Step → Tool → Checkpoint → Option Text
  unfolding active_key fresh_key
  idempotency_key workflow step tool cp =
      if is_keyed tool.idempotency
      then some (or_fresh (active_key step cp.active_step) (fresh_key workflow step tool cp))
      else none

  -- `markDispatched` for a write, and `tool.execute`.
  unfoldable pub call_tool : Workflow → Step → ℕ → Tool → Attempt → Checkpoint → Ran
  unfolding dispatched start idempotency_key
  call_tool workflow step index tool attempt cp =
      let key = idempotency_key workflow step tool cp in
      let marked = dispatched step tool.effect tool.idempotency key cp in
      let work = start index tool.effect tool.idempotency key attempt in
      if is_write tool.effect
      then record { actions = saved marked ∷ work; checkpoint = marked; ending = attempt.executed }
      else record { actions = work; checkpoint = cp; ending = attempt.executed }

  unfoldable pub invoke_tool :
      Interpreter → Workflow → Step → ℕ → Option Tool → Attempt → Checkpoint → Ran
  unfolding grants_all resolve_arguments call_tool call_with
  invoke_tool interpreter workflow step index none attempt cp =
      refuses cp (units "UNSUPPORTED_TASK")
  invoke_tool interpreter workflow step index (some tool) attempt cp =
      let called = call_tool workflow step index tool attempt cp in
      if not (grants_all attempt.authorization tool.required_capabilities)
      then refuses cp permission_denied
      else call_with (resolve_arguments step.arguments cp.values) interpreter step tool attempt cp
          called

  -- #executeStep
  unfoldable pub execute_step : Interpreter → Workflow → Step → ℕ → Attempt → Checkpoint → Ran
  unfolding resolve_input invoke_tool export_file find_tool
  execute_step interpreter workflow step index attempt cp =
      let tool = find_tool step.tool interpreter.tools in
      let called = invoke_tool interpreter workflow step index tool attempt cp in
      let exported = export_file interpreter step index attempt cp in
      resolved (resolve_input step cp.values) step.op attempt cp called exported
