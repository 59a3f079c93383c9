-- ===== src/Workflows/Interpreter/Retry.antt =====
-- A write with an idempotency key that fails and is tried again (interpreter.ts: `#executeStep` on the
-- checkpoint that the `catch` of `run` saves).
use browser_cortex.Common.{
  ℕ, ◌≡◌, sym, ap, ◌∙◌, Bool, true, false, Option, none, some, List, [], ◌∷◌, Text, arith, any,
  subst,
}
use browser_cortex.Contracts.Json.{JsonValue, Fields}
use browser_cortex.Workflows.Interpreter.{
  Effect, Idempotency, Step, Workflow, Checkpoint, Tool, tool_invoke, is_write, grants_all,
  resolve_input, resolve_arguments,
}
use browser_cortex.Workflows.Interpreter.Execute.{
  Action, consumed, started, Attempt, Interpreter, is_keyed, Ran, dispatched, is_resumed,
  idempotency_key, call_tool, call_with, find_tool, execute_step, start,
}
use browser_cortex.Workflows.Interpreter.Run.{begun, failed_checkpoint}
use browser_cortex.Workflows.Interpreter.Approved.{is_write_start}
use browser_cortex.Workflows.Interpreter.Wrote.{
  writes, tool_run, execute_step-tool_run, tool_run-Called, call_tool-write, start-writes,
}
use browser_cortex.Workflows.Interpreter.Resumes.{Resumes, key_of, key-eq-some, failed-Resumes}

abbrev pub is_consumption : Action → Bool
is_consumption (consumed handle) = true
is_consumption _ = false

-- `first` and `again` start one write each, of this step and tool and with the same idempotency key,
-- and `again` consumes no approval.
pub record IsRepetition (index : ℕ) (tool : Tool) (first again : List Action) : Type 0 where
  pub key : Text
  pub before : writes first ≡ started index tool.effect tool.idempotency (some key) ∷ []
  pub after : writes again ≡ started index tool.effect tool.idempotency (some key) ∷ []
  pub unapproved : any is_consumption again ≡ false

module _ (digest : List Text → Text) (interpreter : Interpreter) (workflow : Workflow) (step : Step)
    (index : ℕ) (tool : Tool) where
  -- Behind the check of capabilities a resumed keyed write is called at once.
  tool_run-resumed :
      (value : JsonValue) (arguments : Fields) (again : Attempt) (after : Checkpoint)
      → grants_all again.authorization tool.required_capabilities ≡ true
      → is_resumed step tool.effect after.active_step ≡ true
      → tool_run digest interpreter workflow step index tool
          (some value)
          (some arguments)
          again
          after
        ≡ call_tool digest workflow step index tool again after
  unfolding call_with
  tool_run-resumed value arguments again after g r = ground arith

  no_arguments :
      (value : JsonValue) (attempt : Attempt) (cp : Checkpoint)
      → any is_write_start
          (tool_run digest interpreter workflow step index tool
            (some value)
            none
            attempt
            cp).actions
        ≡ false
  unfolding call_with
  no_arguments value attempt cp = ground arith

  -- A call that starts a write starts that one only, with the key of the checkpoint.
  call_tool-writes :
      (attempt : Attempt) (cp : Checkpoint)
      → is_write tool.effect ≡ true
      → any is_write_start (call_tool digest workflow step index tool attempt cp).actions ≡ true
      → writes (call_tool digest workflow step index tool attempt cp).actions
        ≡ started index tool.effect tool.idempotency (idempotency_key digest workflow step tool cp)
          ∷ []
  call_tool-writes attempt cp w s =
      ap (λ (ran : Ran). writes ran.actions)
        (call_tool-write digest interpreter workflow step index tool attempt cp w)
      ∙ start-writes index tool.effect tool.idempotency _ attempt w (
          sym (
            ap (λ (ran : Ran). any is_write_start ran.actions)
              (call_tool-write digest interpreter workflow step index tool attempt cp w))
          ∙ s)

  -- The repeated call starts, and consumes nothing.
  start_starts :
      (e : Effect) (u : Idempotency) (key : Option Text) (again : Attempt)
      → is_write e ≡ true
      → again.starts ≡ true
      → (any is_write_start (start index e u key again) ≡ true)
        × (any is_consumption (start index e u key again) ≡ false)
  unfolding start
  start_starts e u key again w s = ground arith

  call_tool-starts :
      (again : Attempt) (after : Checkpoint)
      → is_write tool.effect ≡ true
      → again.starts ≡ true
      → (any is_write_start (call_tool digest workflow step index tool again after).actions ≡ true)
        × (any is_consumption (call_tool digest workflow step index tool again after).actions
            ≡ false)
  call_tool-starts again after w s =
      subst
        (λ (ran : Ran).
          (any is_write_start ran.actions ≡ true) × (any is_consumption ran.actions ≡ false))
        (sym (call_tool-write digest interpreter workflow step index tool again after w))
        (start_starts tool.effect tool.idempotency _ again w s)

  tool_run-IsRepetition :
      (value : Option JsonValue) (arguments : Option Fields) (attempt again : Attempt)
      (cp after : Checkpoint)
      → is_write tool.effect ≡ true
      → is_keyed tool.idempotency ≡ true
      → grants_all again.authorization tool.required_capabilities ≡ true
      → again.starts ≡ true
      → Resumes digest workflow step tool cp after
      → any is_write_start
          (tool_run digest interpreter workflow step index tool value arguments attempt cp).actions
        ≡ true
      → IsRepetition index tool
          (tool_run digest interpreter workflow step index tool value arguments attempt cp).actions
          (tool_run digest interpreter workflow step index tool value arguments again after).actions
  tool_run-IsRepetition none arguments attempt again cp after w k g s r d = absurd (cc)
  tool_run-IsRepetition (some value) none attempt again cp after w k g s r d =
      absurd (cc (no_arguments value attempt cp))
  tool_run-IsRepetition (some value) (some arguments) attempt again cp after w k g s r d =
      let called =
        tool_run-Called digest interpreter workflow step index tool (some value) (some arguments)
          attempt cp d in
      let entry = λ (key : Option Text). started index tool.effect tool.idempotency key ∷ [] in
      let starts = call_tool-starts again after w s in
      let repeated = tool_run-resumed value arguments again after g r.again in
      record {
        key = key_of digest workflow step tool cp;
        before =
            called.written
            ∙ call_tool-writes attempt cp w called.wrote
            ∙ ap entry (key-eq-some digest workflow step tool cp k);
        after =
            ap (λ (ran : Ran). writes ran.actions) repeated
            ∙ call_tool-writes again after w starts.0
            ∙ ap entry r.key;
        unapproved = ap (λ (ran : Ran). any is_consumption ran.actions) repeated ∙ starts.1;
      }

  -- A step has started the write of its tool, whose idempotency is keyed, and failed, in whatever
  -- way. Run again on the checkpoint that is then saved, with the tool's capabilities granted and
  -- with nothing that keeps dispatched work from its start, it starts that write once more, with the
  -- idempotency key of the first time, and consumes no approval.
  pub retry-IsRepetition :
      (attempt again : Attempt) (code : Option Text) (unknown : Bool) (cp : Checkpoint)
      → step.op ≡ tool_invoke
      → find_tool step.tool interpreter.tools ≡ some tool
      → is_write tool.effect ≡ true
      → is_keyed tool.idempotency ≡ true
      → any is_write_start (execute_step digest interpreter workflow step index attempt cp).actions
        ≡ true
      → grants_all again.authorization tool.required_capabilities ≡ true
      → again.starts ≡ true
      → IsRepetition index tool
          (execute_step digest interpreter workflow step index attempt cp).actions
          (execute_step digest interpreter workflow step index again (
            begun index (
              failed_checkpoint step index attempt code unknown
                (execute_step digest interpreter workflow step index attempt
                  cp).checkpoint))).actions
  unfolding failed_checkpoint dispatched
  retry-IsRepetition attempt again code unknown cp op named w k d g s =
      let value = resolve_input step cp.values in
      let arguments = resolve_arguments step.arguments cp.values in
      let first =
        execute_step-tool_run digest interpreter workflow step index tool attempt cp op named in
      let d' = sym (ap (λ (ran : Ran). any is_write_start ran.actions) first) ∙ d in
      let called =
        tool_run-Called digest interpreter workflow step index tool value arguments attempt cp d' in
      let marked_cp =
        dispatched step tool.effect tool.idempotency (idempotency_key digest workflow step tool cp)
          cp in
      let after = begun index (failed_checkpoint step index attempt code unknown marked_cp) in
      let repeated = execute_step digest interpreter workflow step index again after in
      let left =
        ap (λ (ran : Ran). ran.checkpoint) first
        ∙ called.at
        ∙ ap (λ (ran : Ran). ran.checkpoint)
            (call_tool-write digest interpreter workflow step index tool attempt cp w) in
      subst
        (λ (c : Checkpoint).
          IsRepetition index tool
            (execute_step digest interpreter workflow step index attempt cp).actions
            (execute_step digest interpreter workflow step index again
              (begun index (failed_checkpoint step index attempt code unknown c))).actions)
        (sym left)
        (subst (λ (ran : Ran). IsRepetition index tool ran.actions repeated.actions) (sym first)
          (subst
            (λ (ran : Ran).
              IsRepetition index tool
                (tool_run digest interpreter workflow step index tool value arguments attempt
                  cp).actions
                ran.actions)
            (sym (
              execute_step-tool_run digest interpreter workflow step index tool again after op
                named))
            (tool_run-IsRepetition value arguments attempt again cp after w k g s
              (failed-Resumes digest workflow step tool index attempt code unknown cp w k) d')))
