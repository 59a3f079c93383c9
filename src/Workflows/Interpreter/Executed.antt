-- ===== src/Workflows/Interpreter/Executed.antt =====
-- What `#executeStep` and the `catch` of `run` leave (interpreter.ts), put together from the actions
-- of their parts.
use browser_cortex.Common.{
  ℕ, suc, ◌≤◌, ◌<◌, ◌≡◌, refl, Bool, true, false, not, ◌&&◌, Option, none, some, List, [], ◌∷◌,
  Text, arith, Bool-cases, inl, inr, if_intro,
}
use browser_cortex.Contracts.Json.{JsonValue, Fields}
use browser_cortex.Workflows.Interpreter.{
  Operation, source_select, csv_parse, rows_filter, rows_sort, rows_project, rows_aggregate,
  records_compare, memory_search, text_extract, draft_create, preview_show, approval_require,
  tool_invoke, file_export, Step, Workflow, Checkpoint, Tool, is_write, running, json_clone,
  grants_all,
}
use browser_cortex.Workflows.Interpreter.Execute.{
  Action, saved, Ending, gave, threw, Attempt, Interpreter, Ran, call_with, resolved, is_resumed,
  call_tool, invoke_tool, export_file, execute_step,
}
use browser_cortex.Workflows.Interpreter.Run.{
  Outcome, after, returns, is_blocked, dispatched_write, failed_checkpoint, stops, completed,
  finish_failed, finish_given, finish_step,
}
use browser_cortex.Workflows.Interpreter.Steps.{
  frontier, Steps, stay, save, Steps-append, Leaves, ends-Leaves, marked-Leaves, work-Leaves,
  approval-Leaves,
}

module _ (digest : List Text → Text) (interpreter : Interpreter) (workflow : Workflow) (step : Step)
    (total index b : ℕ) (cp : Checkpoint) (at : cp.next_step_index ≡ index)
    (open_ : is_blocked cp.active_step ≡ false) (below : b ≤ index) (room : index < total)
    (attempt : Attempt) (f : ℕ) where
  call_tool-Leaves :
      (tool : Tool)
      → Leaves step total index b f (call_tool digest workflow step index tool attempt cp)
  unfolding call_tool
  call_tool-Leaves tool =
      if_intro (Leaves step total index b f) (is_write tool.effect) _ _
        (λ _. marked-Leaves step total index b cp at open_ below room f _ _ _ attempt _)
        (λ h. work-Leaves step total index b cp at open_ below room f _ _ _ attempt _ h)

  call_with-Leaves :
      (arguments : Option Fields) (tool : Tool) (called : Ran)
      → Leaves step total index b f called
      → Leaves step total index b f (call_with arguments interpreter step tool attempt cp called)
  unfolding call_with
  call_with-Leaves none tool called h = ends-Leaves step total index b cp at open_ below room f _
  call_with-Leaves (some arguments) tool called h =
      if_intro (Leaves step total index b f)
        (is_write tool.effect && not (is_resumed step tool.effect cp.active_step)) _ _
        (λ _.
          approval-Leaves step total index b cp at open_ below room f _ interpreter attempt called
            h)
        (λ _. h)

  invoke_tool-Leaves :
      (tool : Option Tool)
      → Leaves step total index b f
          (invoke_tool digest interpreter workflow step index tool attempt cp)
  unfolding invoke_tool
  invoke_tool-Leaves none = ends-Leaves step total index b cp at open_ below room f _
  invoke_tool-Leaves (some tool) =
      if_intro (Leaves step total index b f)
        (not (grants_all attempt.authorization tool.required_capabilities)) _ _
        (λ _. ends-Leaves step total index b cp at open_ below room f _)
        (λ _. call_with-Leaves _ tool _ (call_tool-Leaves tool))

  export_file-Leaves : Leaves step total index b f (export_file interpreter step index attempt cp)
  unfolding export_file
  export_file-Leaves =
      approval-Leaves step total index b cp at open_ below room f step.approval_ref interpreter
        attempt _
        (if_intro (Leaves step total index b f) attempt.exports _ _
          (λ _.
            if_intro (Leaves step total index b f) interpreter.can_export _ _
              (λ _. marked-Leaves step total index b cp at open_ below room f _ _ _ attempt _)
              (λ _. ends-Leaves step total index b cp at open_ below room f _))
          (λ _. ends-Leaves step total index b cp at open_ below room f _))

  resolved-Leaves :
      (value : Option JsonValue) (op : Operation) (called exported : Ran)
      → Leaves step total index b f called
      → Leaves step total index b f exported
      → Leaves step total index b f (resolved value op attempt cp called exported)
  resolved-Leaves none op called exported h k =
      ends-Leaves step total index b cp at open_ below room f _
  resolved-Leaves (some value) tool_invoke called exported h k = h
  resolved-Leaves (some value) file_export called exported h k = k
  resolved-Leaves (some value) source_select called exported h k =
      ends-Leaves step total index b cp at open_ below room f _
  resolved-Leaves (some value) csv_parse called exported h k =
      ends-Leaves step total index b cp at open_ below room f _
  resolved-Leaves (some value) rows_filter called exported h k =
      ends-Leaves step total index b cp at open_ below room f _
  resolved-Leaves (some value) rows_sort called exported h k =
      ends-Leaves step total index b cp at open_ below room f _
  resolved-Leaves (some value) rows_project called exported h k =
      ends-Leaves step total index b cp at open_ below room f _
  resolved-Leaves (some value) rows_aggregate called exported h k =
      ends-Leaves step total index b cp at open_ below room f _
  resolved-Leaves (some value) records_compare called exported h k =
      ends-Leaves step total index b cp at open_ below room f _
  resolved-Leaves (some value) memory_search called exported h k =
      ends-Leaves step total index b cp at open_ below room f _
  resolved-Leaves (some value) text_extract called exported h k =
      ends-Leaves step total index b cp at open_ below room f _
  resolved-Leaves (some value) draft_create called exported h k =
      ends-Leaves step total index b cp at open_ below room f _
  resolved-Leaves (some value) preview_show called exported h k =
      ends-Leaves step total index b cp at open_ below room f _
  resolved-Leaves (some value) approval_require called exported h k =
      ends-Leaves step total index b cp at open_ below room f _

  pub execute_step-Leaves :
      Leaves step total index b f (execute_step digest interpreter workflow step index attempt cp)
  unfolding execute_step
  execute_step-Leaves = resolved-Leaves _ step.op _ _ (invoke_tool-Leaves _) export_file-Leaves

-- The actions of an outcome keep the order.
abbrev pub Kept : ℕ → ℕ → ℕ → Outcome → Type 0
Kept total b f outcome = (b' : ℕ) × (f' : ℕ) × Steps total b f outcome.actions b' f'

pub after-Kept :
    (total b f b' f' : ℕ) (actions : List Action) (outcome : Outcome)
    → Steps total b f actions b' f'
    → Kept total b' f' outcome
    → Kept total b f (after actions outcome)
after-Kept total b f b' f' actions outcome h k =
    (k.0, k.1, Steps-append total b f actions b' f' outcome.actions k.0 k.1 h k.2)

pub returns-Kept :
    (total b f : ℕ) (cp : Checkpoint)
    → b ≤ frontier cp
    → frontier cp ≤ total
    → Kept total b f (returns cp)
returns-Kept total b f cp h l =
    (b, frontier cp, save total b f b (frontier cp) cp [] h l (stay total b (frontier cp)))

module _ (step : Step) (total index b f : ℕ) (attempt : Attempt) (cp : Checkpoint)
    (at : cp.next_step_index ≡ index)
    (own : is_blocked cp.active_step ≡ true → dispatched_write step cp.active_step ≡ true)
    (below : b ≤ frontier cp) (room : index < total) where
  failed-frontier :
      (code : Option Text) (unknown : Bool)
      → frontier (failed_checkpoint step index attempt code unknown cp) ≡ frontier cp
  unfolding frontier failed_checkpoint is_blocked
  failed-frontier code unknown = elim (Bool-cases (dispatched_write step cp.active_step)) [
    | inl yours ↦ ground arith
    | inr other ↦ ground arith
  ]

  failed-open :
      (code : Option Text) (unknown : Bool)
      → stops step unknown cp ≡ false
      → is_blocked (failed_checkpoint step index attempt code unknown cp).active_step ≡ false
  unfolding failed_checkpoint is_blocked stops
  failed-open code unknown h = ground arith

  below-next : b ≤ suc index
  unfolding frontier
  below-next = ground arith

  frontier-room : frontier cp ≤ total
  unfolding frontier
  frontier-room = ground arith

  completed-room : (v : JsonValue) → frontier (completed step index v cp) ≤ total
  unfolding completed is_blocked frontier
  completed-room v = room

  completed-at : (v : JsonValue) → (completed step index v cp).next_step_index ≡ suc index
  unfolding completed
  completed-at v = refl

  completed-open : (v : JsonValue) → is_blocked (completed step index v cp).active_step ≡ false
  unfolding completed is_blocked
  completed-open v = refl

  completed-below : (v : JsonValue) → b ≤ frontier (completed step index v cp)
  unfolding completed is_blocked frontier
  completed-below v = below-next

  -- What the rest of the loop must keep, from a checkpoint at the next index on.
  module _ (rest : Checkpoint → Outcome)
      (kept : (b' f' : ℕ) (next : Checkpoint)
        → next.next_step_index ≡ suc index
        → is_blocked next.active_step ≡ false
        → b' ≤ suc index
        → Kept total b' f' (rest next)) where
    finish_failed-Kept :
        (code : Option Text) (unknown : Bool)
        → Kept total b f (finish_failed step index attempt code unknown cp rest)
    unfolding finish_failed
    finish_failed-Kept code unknown =
        let cp' = failed_checkpoint step index attempt code unknown cp in
        let same = failed-frontier code unknown in
        let next : Checkpoint = record cp' { state = running; next_step_index = suc index } in
        if_intro (Kept total b f) (stops step unknown cp) _ _
          (λ _.
            returns-Kept total b f cp' (omega (arith, same)) (omega (arith, same, frontier-room)))
          (λ h.
            after-Kept total b f b (frontier cp') (saved cp' ∷ []) (rest next)
              (save total b f b (frontier cp') cp' [] (omega (arith, same))
                (omega (arith, same, frontier-room)) (stay total b (frontier cp')))
              (kept b (frontier cp') next refl (failed-open code unknown h) below-next))

    finish_given-Kept :
        (v : Option JsonValue) → Kept total b f (finish_given step index attempt v cp rest)
    unfolding finish_given
    finish_given-Kept none = finish_failed-Kept none false
    finish_given-Kept (some v) =
        let cp' = completed step index v cp in
        after-Kept total b f b (frontier cp') (saved cp' ∷ []) (rest cp')
          (save total b f b (frontier cp') cp' [] (completed-below v) (completed-room v)
            (stay total b (frontier cp')))
          (kept b (frontier cp') cp' (completed-at v) (completed-open v) below-next)

    pub finish_step-Kept :
        (ending : Ending) → Kept total b f (finish_step step index attempt ending cp rest)
    unfolding finish_step
    finish_step-Kept (gave v) = finish_given-Kept (json_clone v)
    finish_step-Kept (threw code unknown) = finish_failed-Kept code unknown
