-- ===== src/Workflows/Interpreter/Once.antt =====
-- The writes of all the runs of one workflow (interpreter.ts: `run` with `resume`), each cut off after
-- any of its actions.
use mathlib.Core.Option
use browser_cortex.Common.{
  ℕ, suc, ◌+◌, ◌≤◌, ◌<◌, ◌≡◌, refl, sym, subst, Bool, true, false, not, ◌||◌, Option, none, some,
  List, [], ◌∷◌, ◌++◌, Text, ◌===◌, arith, length, take, drop, All, Pairs, All-append, All-map_of,
  if_intro,
}
use browser_cortex.Contracts.Json.{Fields}
use browser_cortex.Workflows.Interpreter.{
  Step, Workflow, Checkpoint, Authorization, RunState, paused, cancelled, succeeded,
  outcome_unknown, has_inputs, has_authority,
}
use browser_cortex.Workflows.Interpreter.Execute.{Action, saved, Attempt, Interpreter, execute_step}
use browser_cortex.Workflows.Interpreter.Run.{
  Outcome, returns, transition, begun, is_active, is_blocked, run_steps, run_new, run_loaded, run,
  first_checkpoint, input_values, finish_step,
}
use browser_cortex.Workflows.Interpreter.Steps.{frontier, stay, save}
use browser_cortex.Workflows.Interpreter.Executed.{
  Kept, after-Kept, returns-Kept, execute_step-Leaves, finish_step-Kept,
}
use browser_cortex.Workflows.Interpreter.Cut.{
  non_idempotent_writes, last_saved, stored_frontier, Steps-Cut, non_idempotent_writes-append,
  Pairs-append, length-drop,
}

transition-Kept :
    (total : ℕ) (cp : Checkpoint) (state : RunState) (index : ℕ) (preserve : Bool) (b f : ℕ)
    → is_blocked cp.active_step ≡ false
    → b ≤ index
    → index ≤ total
    → Kept total b f (returns (transition cp state index preserve))
unfolding frontier is_blocked
transition-Kept total cp state index true b f open_ below l =
    returns-Kept total b f (transition cp state index true) (ground arith) (ground arith)
transition-Kept total cp state index false b f open_ below l =
    returns-Kept total b f (transition cp state index false) below l

begun-frontier :
    (cp : Checkpoint) (index b : ℕ)
    → is_blocked cp.active_step ≡ false
    → b ≤ index
    → (total : ℕ) → index < total
    → (b ≤ frontier (begun index cp)) × (frontier (begun index cp) ≤ total)
unfolding frontier is_blocked
begun-frontier cp index b open_ below total room = (ground arith, ground arith)

frontier-state : (cp : Checkpoint) → frontier (record cp { state = outcome_unknown }) ≡ frontier cp
unfolding frontier
frontier-state cp = refl

frontier-open :
    (cp : Checkpoint) → is_blocked cp.active_step ≡ false → frontier cp ≡ cp.next_step_index
unfolding frontier
frontier-open cp h = ground arith

-- A run that is resumed with what the store holds and ends, or is cut off, after `cut` actions.
pub record Call : Type 0 where
  pub inputs : Fields
  pub authorization : Option Authorization
  pub attempts : ℕ → Attempt
  pub run_id : Text
  pub cut : ℕ

module _ (digest : List Text → Text) (interpreter : Interpreter) (workflow : Workflow)
    (plan_fingerprint : Text) where
  abbrev total : ℕ
  total = length workflow.steps

  abbrev pub run_call : Call → Option Checkpoint → Outcome
  run_call call stored =
      run digest interpreter workflow call.inputs call.authorization call.attempts plan_fingerprint
        call.run_id stored

  -- The actions of one call after another on one store.
  unfoldable pub history : Option Checkpoint → List Call → List Action
  unfolding last_saved
  history stored [] = []
  history stored (call ∷ calls) =
      let actions = take call.cut (run_call call stored).actions in
      actions ++ history (last_saved stored actions) calls

  run_steps-Kept :
      (attempts : ℕ → Attempt) (steps : List Step) (index b f : ℕ) (cp : Checkpoint)
      → index + length steps ≡ length workflow.steps
      → is_blocked cp.active_step ≡ false
      → b ≤ index
      → Kept total b f (run_steps digest interpreter workflow attempts steps index cp)
  unfolding run_steps
  run_steps-Kept attempts [] index b f cp size open_ below =
      transition-Kept total cp succeeded (length workflow.steps) false b f open_ (omega arith)
        (omega arith)
  run_steps-Kept attempts (step ∷ steps) index b f cp size open_ below =
      let attempt = attempts index in
      let cp' = begun index cp in
      let ran = execute_step digest interpreter workflow step index attempt cp' in
      let room : index < total = omega arith in
      let left =
        execute_step-Leaves digest interpreter workflow step total index b cp' refl open_ below room
          attempt (frontier cp') in
      let rest : Checkpoint → Outcome =
        λ next. run_steps digest interpreter workflow attempts steps (suc index) next in
      let finished =
        finish_step-Kept step total index left.bound left.front attempt ran.checkpoint left.at_index
          left.own left.below room rest
          (λ b' f' next at o le.
            run_steps-Kept attempts steps (suc index) b' f' next (omega arith) o le)
          ran.ending in
      if_intro (Kept total b f) (not (has_authority workflow attempt.authorization)) _ _
        (λ _. (b, f, stay total b f))
        (λ _.
          if_intro (Kept total b f) attempt.aborted _ _
            (λ _.
              transition-Kept total cp cancelled index (is_active cp.active_step) b f open_ below
                (omega arith))
            (λ _.
              if_intro (Kept total b f) attempt.late _ _
                (λ _.
                  transition-Kept total cp paused index (is_active cp.active_step) b f open_ below
                    (omega arith))
                (λ _.
                  after-Kept total b f left.bound left.front (saved cp' ∷ ran.actions)
                    (finish_step step index attempt ran.ending ran.checkpoint rest)
                    (save total b f left.bound left.front cp' ran.actions
                      (begun-frontier cp index b open_ below total room).0
                      (begun-frontier cp index b open_ below total room).1 left.steps)
                    finished)))

  run_loaded-Kept :
      (attempts : ℕ → Attempt) (cp : Checkpoint)
      → frontier cp ≤ total
      → Kept total
          (frontier cp)
          (frontier cp)
          (run_loaded digest interpreter workflow attempts plan_fingerprint cp)
  unfolding run_loaded
  run_loaded-Kept attempts cp l =
      if_intro (Kept total (frontier cp) (frontier cp))
        (not (cp.plan_fingerprint === plan_fingerprint) || not (cp.workflow_id === workflow.id)) _ _
        (λ _. (frontier cp, frontier cp, stay total (frontier cp) (frontier cp)))
        (λ _.
          if_intro (Kept total (frontier cp) (frontier cp)) (is_blocked cp.active_step) _ _
            (λ _.
              returns-Kept total (frontier cp) (frontier cp) (record cp { state = outcome_unknown })
                (omega (arith, frontier-state cp)) (omega (arith, frontier-state cp)))
            (λ o.
              run_steps-Kept attempts (drop cp.next_step_index workflow.steps) cp.next_step_index
                (frontier cp) (frontier cp) cp
                (length-drop cp.next_step_index workflow.steps (omega (arith, frontier-open cp o)))
                o (omega (arith, frontier-open cp o))))

  first-frontier :
      (run_id : Text) (values : Fields)
      → frontier (first_checkpoint digest interpreter workflow run_id plan_fingerprint values) ≡ 0
  unfolding frontier is_blocked
  first-frontier run_id values = refl

  run_new-Kept :
      (attempts : ℕ → Attempt) (run_id : Text) (values : Option Fields)
      → Kept total 0 0 (
          run_new digest interpreter workflow attempts (
            Option.map
              (first_checkpoint digest interpreter workflow run_id plan_fingerprint)
              values))
  unfolding run_new is_blocked
  run_new-Kept attempts run_id none = (0, 0, stay total 0 0)
  run_new-Kept attempts run_id (some values) =
      let cp = first_checkpoint digest interpreter workflow run_id plan_fingerprint values in
      after-Kept total 0 0 0 (frontier cp) (saved cp ∷ [])
        (run_steps digest interpreter workflow attempts workflow.steps 0 cp)
        (save total 0 0 0 (frontier cp) cp [] (omega arith)
          (omega (arith, first-frontier run_id values)) (stay total 0 (frontier cp)))
        (run_steps-Kept attempts workflow.steps 0 0 (frontier cp) cp (omega arith) refl
          (omega arith))

  run-Kept :
      (call : Call) (stored : Option Checkpoint)
      → stored_frontier stored ≤ total
      → Kept total (stored_frontier stored) (stored_frontier stored) (run_call call stored)
  unfolding run stored_frontier
  run-Kept call none l =
      if_intro (Kept total 0 0)
        (not (has_inputs workflow.input_schema call.inputs)
          || not (has_authority workflow call.authorization))
        _ _ (λ _. (0, 0, stay total 0 0))
        (λ _.
          run_new-Kept call.attempts call.run_id
            (input_values digest interpreter workflow call.inputs))
  run-Kept call (some cp) l =
      if_intro (Kept total (frontier cp) (frontier cp))
        (not (has_inputs workflow.input_schema call.inputs)
          || not (has_authority workflow call.authorization))
        _ _ (λ _. (frontier cp, frontier cp, stay total (frontier cp) (frontier cp)))
        (λ _. run_loaded-Kept call.attempts cp l)

  -- Over any sequence of runs on one store, whose frontier is at first no further than the number of
  -- steps, each run resumed with what the last one saved and ended or cut off after any of its
  -- actions: the writes that are started with the idempotency "none" (a tool's that declares it, and
  -- that of file.export) have increasing step indices, so that each of these steps starts its write
  -- at most once, and no such index is below the frontier of the first store.
  pub history-once :
      (stored : Option Checkpoint) (calls : List Call)
      → stored_frontier stored ≤ length workflow.steps
      → All (λ i. stored_frontier stored ≤ i) (non_idempotent_writes (history stored calls))
        × Pairs ◌<◌ (non_idempotent_writes (history stored calls))
  unfolding history non_idempotent_writes
  history-once stored [] l = (tt, tt)
  history-once stored (call ∷ calls) l =
      let kept = run-Kept call stored l in
      let actions = take call.cut (run_call call stored).actions in
      let c =
        Steps-Cut total (stored_frontier stored) (stored_frontier stored)
          (run_call call stored).actions kept.0 kept.1 stored call.cut kept.2 (omega arith) l
          refl in
      let later = history-once (last_saved stored actions) calls c.3 in
      let g = stored_frontier (last_saved stored actions) in
      let own = non_idempotent_writes actions in
      let others = non_idempotent_writes (history (last_saved stored actions) calls) in
      subst (λ ws. All (λ i. stored_frontier stored ≤ i) ws × Pairs ◌<◌ ws)
        (sym (non_idempotent_writes-append actions (history (last_saved stored actions) calls)))
        (
          All-append (λ i. stored_frontier stored ≤ i) own others
              (All-map_of _ (λ i. stored_frontier stored ≤ i) own (λ i p. p.0) c.0)
              (All-map_of (λ i. g ≤ i) (λ i. stored_frontier stored ≤ i) others
                (λ i p. omega (arith, c.2, p)) later.0),
          Pairs-append g own others (All-map_of _ (λ i. i < g) own (λ i p. p.1) c.0) later.0 c.1
              later.1,
        )
