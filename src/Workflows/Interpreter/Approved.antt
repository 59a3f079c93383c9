-- ===== src/Workflows/Interpreter/Approved.antt =====
-- The approval behind a write of one step (interpreter.ts: `#executeStep`, `#invokeTool`).
use browser_cortex.Common.{
  ℕ, ◌≡◌, refl, ◌⊎◌, inl, inr, Bool, true, false, not, ◌&&◌, ◌||◌, Option, none, some, List, [],
  ◌∷◌, Text, ◌===◌, arith, Bool-cases, if_intro, any,
}
use browser_cortex.Contracts.Json.{
  JsonValue, null, undefined, boolean, number, string, array, object, Fields,
}
use browser_cortex.Workflows.Interpreter.{
  Operation, source_select, csv_parse, rows_filter, rows_sort, rows_project, rows_aggregate,
  records_compare, memory_search, text_extract, draft_create, preview_show, approval_require,
  tool_invoke, file_export, Effect, Idempotency, Step, Workflow, Checkpoint, Tool, is_write,
  resolve_reference, resolve_input, resolve_arguments, grants_all,
}
use browser_cortex.Workflows.Interpreter.Execute.{
  Action, consumed, started, Attempt, Interpreter, Ran, start, with_handle, with_reference,
  call_with, resolved, is_resumed, call_tool, invoke_tool, export_file, find_tool, execute_step,
}

abbrev pub is_write_start : Action → Bool
is_write_start (started index effect idempotency key) = is_write effect
is_write_start _ = false

-- `actions` consumes, before anything else, the handle that the step's approval reference gives.
pub record ConsumesApproval (step : Step) (cp : Checkpoint) (actions : List Action) : Type 0 where
  pub reference : Text
  pub handle : Text
  pub rest : List Action
  pub referred : step.approval_ref ≡ some reference
  pub resolved : resolve_reference reference cp.values ≡ some (string handle)
  pub first : actions ≡ consumed handle ∷ rest

-- `cp` holds a keyed write of this step, by the tool that the step names.
pub record Repeats (interpreter : Interpreter) (step : Step) (cp : Checkpoint) : Type 0 where
  pub tool : Tool
  pub named : find_tool step.tool interpreter.tools ≡ some tool
  pub again : is_resumed step tool.effect cp.active_step ≡ true

module _ (step : Step) (cp : Checkpoint) (attempt : Attempt) (interpreter : Interpreter) where
  -- Nothing is written, or an approval was consumed.
  abbrev Guarded : Ran → Type 0
  Guarded ran = (any is_write_start ran.actions ≡ false) ⊎ ConsumesApproval step cp ran.actions

  handle-Guarded :
      (reference : Text) (v : Option JsonValue) (rest : Ran)
      → step.approval_ref ≡ some reference
      → resolve_reference reference cp.values ≡ v
      → Guarded (with_handle v attempt cp rest)
  unfolding with_handle
  handle-Guarded reference none rest a r = inl refl
  handle-Guarded reference (some (string handle)) rest a r =
      if_intro Guarded attempt.consumes _ _
        (λ _. inr (record {
          reference = reference;
          handle = handle;
          rest = rest.actions;
          referred = a;
          resolved = r;
          first = refl;
        }))
        (λ _. inl refl)
  handle-Guarded reference (some null) rest a r = inl refl
  handle-Guarded reference (some undefined) rest a r = inl refl
  handle-Guarded reference (some (boolean _)) rest a r = inl refl
  handle-Guarded reference (some (number _)) rest a r = inl refl
  handle-Guarded reference (some (array _)) rest a r = inl refl
  handle-Guarded reference (some (object _)) rest a r = inl refl

  reference-Guarded :
      (reference : Option Text) (rest : Ran)
      → step.approval_ref ≡ reference
      → Guarded (with_reference interpreter reference attempt cp rest)
  unfolding with_reference
  reference-Guarded none rest a = inl refl
  reference-Guarded (some reference) rest a =
      if_intro Guarded (reference === [] || not interpreter.has_broker) _ _ (λ _. inl refl)
        (λ _. handle-Guarded reference _ rest a refl)

  start-no_write :
      (index : ℕ) (e : Effect) (u : Idempotency) (key : Option Text)
      → is_write e ≡ false
      → any is_write_start (start index e u key attempt) ≡ false
  unfolding start
  start-no_write index e u key h =
      if_intro (λ actions. any is_write_start actions ≡ false) attempt.starts _ _
        (λ _. ground arith) (λ _. refl)

  module _ (digest : List Text → Text) (workflow : Workflow) (index : ℕ) where
    call_tool-no_write :
        (tool : Tool)
        → is_write tool.effect ≡ false
        → any is_write_start (call_tool digest workflow step index tool attempt cp).actions ≡ false
    unfolding call_tool
    call_tool-no_write tool h =
        if_intro (λ (ran : Ran). any is_write_start ran.actions ≡ false) (is_write tool.effect) _ _
          (λ y. absurd (cc)) (λ _. start-no_write index tool.effect tool.idempotency _ h)

    call_with-Guarded :
        (arguments : Option Fields) (tool : Tool)
        → (is_resumed step tool.effect cp.active_step ≡ true)
          ⊎ Guarded (
              call_with arguments interpreter step tool attempt cp
                (call_tool digest workflow step index tool attempt cp))
    unfolding call_with
    call_with-Guarded none tool = inr (inl refl)
    call_with-Guarded (some arguments) tool =
        elim (Bool-cases (is_resumed step tool.effect cp.active_step)) [
          | inl again ↦ inl again
          | inr fresh ↦ inr (
              if_intro Guarded
                (is_write tool.effect && not (is_resumed step tool.effect cp.active_step)) _ _
                (λ _. reference-Guarded step.approval_ref _ refl)
                (λ h. inl (call_tool-no_write tool (ground arith))))
        ]

    invoke_tool-Guarded :
        (tool : Option Tool)
        → find_tool step.tool interpreter.tools ≡ tool
        → Guarded (invoke_tool digest interpreter workflow step index tool attempt cp)
          ⊎ Repeats interpreter step cp
    unfolding invoke_tool
    invoke_tool-Guarded none named = inl (inl refl)
    invoke_tool-Guarded (some tool) named =
        elim (call_with-Guarded (resolve_arguments step.arguments cp.values) tool) [
          | inl again ↦ inr (record { tool = tool; named = named; again = again })
          | inr guarded ↦ inl (
              if_intro Guarded (not (grants_all attempt.authorization tool.required_capabilities)) _
                _ (λ _. inl refl) (λ _. guarded))
        ]

    export_file-Guarded : Guarded (export_file interpreter step index attempt cp)
    unfolding export_file
    export_file-Guarded = reference-Guarded step.approval_ref _ refl

    abbrev Allowed : Ran → Type 0
    Allowed ran = Guarded ran ⊎ Repeats interpreter step cp

    resolved-Guarded :
        (value : Option JsonValue) (op : Operation) (called exported : Ran)
        → Allowed called
        → Allowed exported
        → Allowed (resolved value op attempt cp called exported)
    resolved-Guarded none op called exported h k = inl (inl refl)
    resolved-Guarded (some value) tool_invoke called exported h k = h
    resolved-Guarded (some value) file_export called exported h k = k
    resolved-Guarded (some value) source_select called exported h k = inl (inl refl)
    resolved-Guarded (some value) csv_parse called exported h k = inl (inl refl)
    resolved-Guarded (some value) rows_filter called exported h k = inl (inl refl)
    resolved-Guarded (some value) rows_sort called exported h k = inl (inl refl)
    resolved-Guarded (some value) rows_project called exported h k = inl (inl refl)
    resolved-Guarded (some value) rows_aggregate called exported h k = inl (inl refl)
    resolved-Guarded (some value) records_compare called exported h k = inl (inl refl)
    resolved-Guarded (some value) memory_search called exported h k = inl (inl refl)
    resolved-Guarded (some value) text_extract called exported h k = inl (inl refl)
    resolved-Guarded (some value) draft_create called exported h k = inl (inl refl)
    resolved-Guarded (some value) preview_show called exported h k = inl (inl refl)
    resolved-Guarded (some value) approval_require called exported h k = inl (inl refl)

    -- A step starts no write, or it first consumes the handle that its approval reference gives, or
    -- it repeats a keyed write that the checkpoint holds as dispatched, by the tool that it names.
    pub execute_step-approved :
        ((any is_write_start
              (execute_step digest interpreter workflow step index attempt cp).actions
            ≡ false)
          ⊎ ConsumesApproval step cp
              (execute_step digest interpreter workflow step index attempt cp).actions)
        ⊎ Repeats interpreter step cp
    unfolding execute_step
    execute_step-approved =
        resolved-Guarded (resolve_input step cp.values) step.op _ _ (invoke_tool-Guarded _ refl)
          (inl export_file-Guarded)
