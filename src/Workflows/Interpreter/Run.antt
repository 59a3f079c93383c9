-- ===== src/Workflows/Interpreter/Run.antt =====
-- packages/workflows/src/interpreter.ts: `run`, its turns, and `#transition`, behind the validation
-- of the workflow. `loaded` is what `checkpointStore.load` returns for a run that is resumed.
use mathlib.Core.Option
use browser_cortex.Common.{
  ℕ, suc, Bool, true, false, not, ◌&&◌, ◌||◌, Option, none, some, List, [], ◌∷◌, ◌++◌, Text, ◌===◌,
  units, drop, length, if◌then◌else◌,
}
use browser_cortex.Contracts.Json.{JsonValue, Fields, no_fields, field}
use browser_cortex.Workflows.Interpreter.{
  Step, Workflow, RunState, validated, running, paused, succeeded, failed, cancelled,
  outcome_unknown, ActiveStep, Checkpoint, Authorization, is_write, is_non_idempotent, set,
  json_clone, has_inputs, has_authority,
}
use browser_cortex.Workflows.Interpreter.Execute.{
  Action, saved, Ending, gave, threw, Attempt, Interpreter, execute_step,
}

-- What `run` does: its actions, and the checkpoint of its result, or `none` when it throws.
pub record Outcome : Type 0 where
  pub actions : List Action
  pub result : Option Checkpoint

abbrev pub after : List Action → Outcome → Outcome
after actions outcome = record outcome { actions = actions ++ outcome.actions }

abbrev pub returns : Checkpoint → Outcome
returns cp = record { actions = saved cp ∷ []; result = some cp }

-- A dispatched write that is declared with idempotency "none".
abbrev pub is_blocking : ActiveStep → Bool
is_blocking active = is_write active.effect && is_non_idempotent active.idempotency

unfoldable pub is_blocked : Option ActiveStep → Bool
is_blocked none = false
is_blocked (some active) = is_blocking active

-- `dispatchedWrite` of the `catch`.
unfoldable pub dispatched_write : Step → Option ActiveStep → Bool
unfolding ◌===◌
dispatched_write step none = false
dispatched_write step (some active) = active.step_id === step.id && is_write active.effect

-- #transition
abbrev pub transition : Checkpoint → RunState → ℕ → Bool → Checkpoint
transition cp state index preserve = record cp {
  state = state;
  next_step_index = index;
  active_step = if preserve then cp.active_step else none;
}

-- The checkpoint of a step that returned, where its value is copied; `none` is an error of the copy.
-- `step.output`, when it is not empty.
unfoldable pub output_name : Option Text → Option Text
unfolding ◌===◌
output_name none = none
output_name (some output) = if output === [] then none else some output

unfoldable pub output_values : Step → JsonValue → Fields → Fields
unfolding set output_name
output_values step v values =
    let own = set (units "steps." ++ step.id) v values in
    elim (output_name step.output) [
      | none ↦ own
      | some output ↦ set (units "steps." ++ step.id ++ b'.' ∷ output) v own
    ]

unfoldable pub completed : Step → ℕ → JsonValue → Checkpoint → Checkpoint
unfolding output_values output_name
completed step index v cp = record cp {
  values = output_values step v cp.values;
  state = running;
  next_step_index = suc index;
  receipts =
      cp.receipts
      ++ record {
        step_id = step.id;
        operation = step.op;
        state = succeeded;
        output_name = output_name step.output;
        error_code = none;
      }
        ∷ [];
  active_step = none;
}

-- The state and the code of a receipt in the `catch`.
unfoldable pub failed_state : Bool → Bool → Bool → RunState
failed_state blocked unknown is_cancellation =
    if blocked || unknown then outcome_unknown else if is_cancellation then cancelled else failed

unfoldable pub error_code : Bool → Option Text → Bool → Text
error_code true known is_cancellation = units "OUTCOME_UNKNOWN"
error_code false (some code) is_cancellation = code
error_code false none is_cancellation =
    if is_cancellation then units "CANCELLED" else units "STEP_FAILED"

-- The checkpoint that the `catch` saves.
unfoldable pub failed_checkpoint : Step → ℕ → Attempt → Option Text → Bool → Checkpoint → Checkpoint
unfolding dispatched_write is_blocked failed_state error_code
failed_checkpoint step index attempt code unknown cp =
    let dispatched = dispatched_write step cp.active_step in
    let blocked = dispatched && is_blocked cp.active_step in
    let state = failed_state blocked unknown attempt.is_cancellation in
    record cp {
      state = state;
      next_step_index = index;
      receipts =
          cp.receipts
          ++ record {
            step_id = step.id;
            operation = step.op;
            state = state;
            output_name = none;
            error_code = some (error_code (blocked || unknown) code attempt.is_cancellation);
          }
            ∷ [];
      active_step = if dispatched then cp.active_step else none;
    }

-- The run ends at a failed step, unless the step's policy is to continue and no write was dispatched.
unfoldable pub stops : Step → Bool → Checkpoint → Bool
unfolding dispatched_write is_blocked
stops step unknown cp = not step.continues || unknown || dispatched_write step cp.active_step

-- What follows `#executeStep`: `rest` is the loop from the next index on.
unfoldable pub finish_failed :
    Step → ℕ → Attempt → Option Text → Bool → Checkpoint → (Checkpoint → Outcome) → Outcome
unfolding failed_checkpoint stops
finish_failed step index attempt code unknown cp rest =
    let cp' = failed_checkpoint step index attempt code unknown cp in
    let continued = rest (record cp' { state = running; next_step_index = suc index }) in
    if stops step unknown cp then returns cp' else after (saved cp' ∷ []) continued

unfoldable pub finish_given :
    Step → ℕ → Attempt → Option JsonValue → Checkpoint → (Checkpoint → Outcome) → Outcome
unfolding finish_failed completed
finish_given step index attempt none cp rest = finish_failed step index attempt none false cp rest
finish_given step index attempt (some v) cp rest =
    after (saved (completed step index v cp) ∷ []) (rest (completed step index v cp))

unfoldable pub finish_step :
    Step → ℕ → Attempt → Ending → Checkpoint → (Checkpoint → Outcome) → Outcome
unfolding finish_given finish_failed json_clone
finish_step step index attempt (gave v) cp rest =
    finish_given step index attempt (json_clone v) cp rest
finish_step step index attempt (threw code unknown) cp rest =
    finish_failed step index attempt code unknown cp rest

-- The checkpoint that is saved before a step.
abbrev pub begun : ℕ → Checkpoint → Checkpoint
begun index cp = record cp { state = running; next_step_index = index }

-- `checkpoint.activeStep !== undefined`
abbrev pub is_active : Option ActiveStep → Bool
is_active none = false
is_active (some active) = true

module _ (digest : List Text → Text) (interpreter : Interpreter) (workflow : Workflow) where
  -- The loop over the steps from an index on.
  unfoldable pub run_steps : (ℕ → Attempt) → List Step → ℕ → Checkpoint → Outcome
  unfolding has_authority execute_step finish_step
  run_steps attempts [] index cp = returns (transition cp succeeded (length workflow.steps) false)
  run_steps attempts (step ∷ steps) index cp =
      let attempt = attempts index in
      let ran = execute_step digest interpreter workflow step index attempt (begun index cp) in
      let finished =
        finish_step step index attempt ran.ending ran.checkpoint
          (λ next. run_steps attempts steps (suc index) next) in
      if not (has_authority workflow attempt.authorization)
      then record { actions = []; result = none }
      else if attempt.aborted
      then returns (transition cp cancelled index (is_active cp.active_step))
      else if attempt.late
      then returns (transition cp paused index (is_active cp.active_step))
      else after (saved (begun index cp) ∷ ran.actions) finished

  -- `values["input.KEY"] = jsonClone(value)` of every input.
  unfoldable pub input_values : Fields → Option Fields
  unfolding json_clone
  input_values no_fields = some no_fields
  input_values (field key v inputs) = elim (json_clone v) [
    | none ↦ none
    | some w ↦ Option.map (λ rest. field (units "input." ++ key) w rest) (input_values inputs)
  ]

  -- The first checkpoint of a run.
  abbrev pub first_checkpoint : Text → Text → Fields → Checkpoint
  first_checkpoint run_id plan_fingerprint values = record {
    run_id = run_id;
    workflow_id = workflow.id;
    workflow_version = workflow.version;
    plan_fingerprint = plan_fingerprint;
    state = validated;
    next_step_index = 0;
    values = values;
    receipts = [];
    active_step = none;
  }

  unfoldable pub run_new : (ℕ → Attempt) → Option Checkpoint → Outcome
  unfolding run_steps
  run_new attempts none = record { actions = []; result = none }
  run_new attempts (some cp) = after (saved cp ∷ []) (run_steps attempts workflow.steps 0 cp)

  unfoldable pub run_loaded : (ℕ → Attempt) → Text → Checkpoint → Outcome
  unfolding run_steps is_blocked ◌===◌
  run_loaded attempts plan_fingerprint cp =
      if not (cp.plan_fingerprint === plan_fingerprint) || not (cp.workflow_id === workflow.id)
      then record { actions = []; result = none }
      else if is_blocked cp.active_step
      then returns (record cp { state = outcome_unknown })
      else run_steps attempts (drop cp.next_step_index workflow.steps) cp.next_step_index cp

  -- `run` of a validated workflow, with the fingerprint of its plan and the identifier of the run.
  unfoldable pub run :
      Fields → Option Authorization → (ℕ → Attempt) → Text → Text → Option Checkpoint → Outcome
  unfolding has_inputs has_authority run_new run_loaded input_values
  run inputs authorization attempts plan_fingerprint run_id loaded =
      if not (has_inputs workflow.input_schema inputs) || not (has_authority workflow authorization)
      then record { actions = []; result = none }
      else elim loaded [
        | some cp ↦ run_loaded attempts plan_fingerprint cp
        | none ↦
            run_new attempts
              (Option.map (first_checkpoint run_id plan_fingerprint) (input_values inputs))
      ]
