-- ===== src/Workflows/Interpreter/Ends.antt =====
-- How a run ends (interpreter.ts: `run`), and what its result says of its steps.
use browser_cortex.Common.{
  ℕ, suc, ◌≡◌, refl, subst, ◌===◌, ◌∙◌, Bool, false, not, ◌||◌, Option, none, some, List, [], ◌∷◌,
  ◌++◌, Text, length, drop, if_intro,
}
use browser_cortex.Contracts.Json.{JsonValue, Fields}
use browser_cortex.Workflows.Interpreter.{
  Step, Workflow, RunState, paused, succeeded, failed, cancelled, outcome_unknown, running,
  Checkpoint, has_authority, has_inputs, Authorization, json_clone,
}
use browser_cortex.Workflows.Interpreter.Execute.{
  Action, saved, consumed, started, Ending, gave, threw, Attempt, Interpreter, execute_step,
}
use browser_cortex.Workflows.Interpreter.Run.{
  Outcome, after, returns, transition, begun, is_active, is_blocked, run_steps, run_new, run_loaded,
  run, finish_step, finish_given, finish_failed, failed_checkpoint, failed_state, stops, completed,
}
use browser_cortex.Workflows.Interpreter.Cut.{last_saved}

-- The states in which a run returns.
abbrev pub IsEnd : RunState → Type 0
IsEnd paused = Unit
IsEnd succeeded = Unit
IsEnd failed = Unit
IsEnd cancelled = Unit
IsEnd outcome_unknown = Unit
IsEnd _ = ⊥

-- A result is the checkpoint that was saved last, and in a state in which a run ends.
abbrev pub Ended : Option Checkpoint → Outcome → Type 0
Ended stored outcome =
    (cp : Checkpoint)
    → outcome.result ≡ some cp
    → IsEnd cp.state × (last_saved stored outcome.actions ≡ some cp)

last_saved-append :
    (stored : Option Checkpoint) (xs ys : List Action)
    → last_saved stored (xs ++ ys) ≡ last_saved (last_saved stored xs) ys
unfolding last_saved
last_saved-append stored [] ys = refl
last_saved-append stored (saved cp ∷ xs) ys = last_saved-append (some cp) xs ys
last_saved-append stored (consumed handle ∷ xs) ys = last_saved-append stored xs ys
last_saved-append stored (started i e k key ∷ xs) ys = last_saved-append stored xs ys

some_injective {ℓ} : {A : Type ℓ} (a b : A) → some a ≡ some b → a ≡ b
some_injective a b h = cc

returns-Ended :
    (stored : Option Checkpoint) (cp : Checkpoint) → IsEnd cp.state → Ended stored (returns cp)
unfolding last_saved
returns-Ended stored cp h r e =
    (subst (λ (c : Checkpoint). IsEnd c.state) (some_injective cp r e) h, e)

after-Ended :
    (stored : Option Checkpoint) (xs : List Action) (outcome : Outcome)
    → Ended (last_saved stored xs) outcome
    → Ended stored (after xs outcome)
after-Ended stored xs outcome h cp e =
    ((h cp e).0, last_saved-append stored xs outcome.actions ∙ (h cp e).1)

failed_state-IsEnd : (a b c : Bool) → IsEnd (failed_state a b c)
unfolding failed_state
failed_state-IsEnd a b c =
    if_intro IsEnd (a || b) _ _ (λ _. tt) (λ _. if_intro IsEnd c _ _ (λ _. tt) (λ _. tt))

failed-IsEnd :
    (step : Step) (index : ℕ) (attempt : Attempt) (code : Option Text) (unknown : Bool)
    (cp : Checkpoint)
    → IsEnd (failed_checkpoint step index attempt code unknown cp).state
unfolding failed_checkpoint
failed-IsEnd step index attempt code unknown cp =
    failed_state-IsEnd _ unknown attempt.is_cancellation

module _ (step : Step) (index : ℕ) (attempt : Attempt) (cp : Checkpoint)
    (rest : Checkpoint → Outcome)
    (ended : (stored : Option Checkpoint) (next : Checkpoint) → Ended stored (rest next)) where
  finish_failed-Ended :
      (code : Option Text) (unknown : Bool) (stored : Option Checkpoint)
      → Ended stored (finish_failed step index attempt code unknown cp rest)
  unfolding finish_failed
  finish_failed-Ended code unknown stored =
      let cp' = failed_checkpoint step index attempt code unknown cp in
      let next : Checkpoint = record cp' { state = running; next_step_index = suc index } in
      if_intro (Ended stored) (stops step unknown cp) _ _
        (λ _. returns-Ended stored cp' (failed-IsEnd step index attempt code unknown cp))
        (λ _. after-Ended stored (saved cp' ∷ []) (rest next) (ended _ next))

  finish_given-Ended :
      (v : Option JsonValue) (stored : Option Checkpoint)
      → Ended stored (finish_given step index attempt v cp rest)
  unfolding finish_given
  finish_given-Ended none stored = finish_failed-Ended none false stored
  finish_given-Ended (some v) stored =
      let cp' = completed step index v cp in
      after-Ended stored (saved cp' ∷ []) (rest cp') (ended _ cp')

  finish_step-Ended :
      (ending : Ending) (stored : Option Checkpoint)
      → Ended stored (finish_step step index attempt ending cp rest)
  unfolding finish_step
  finish_step-Ended (gave v) stored = finish_given-Ended (json_clone v) stored
  finish_step-Ended (threw code unknown) stored = finish_failed-Ended code unknown stored

module _ (digest : List Text → Text) (interpreter : Interpreter) (workflow : Workflow) where
  throws-Ended :
      (stored : Option Checkpoint) → Ended stored (record { actions = []; result = none })
  throws-Ended stored cp h = absurd (cc)

  run_steps-Ended :
      (attempts : ℕ → Attempt) (steps : List Step) (index : ℕ) (cp : Checkpoint)
      (stored : Option Checkpoint)
      → Ended stored (run_steps digest interpreter workflow attempts steps index cp)
  unfolding run_steps
  run_steps-Ended attempts [] index cp stored =
      returns-Ended stored (transition cp succeeded (length workflow.steps) false) tt
  run_steps-Ended attempts (step ∷ steps) index cp stored =
      let attempt = attempts index in
      let ran = execute_step digest interpreter workflow step index attempt (begun index cp) in
      let rest : Checkpoint → Outcome =
        λ next. run_steps digest interpreter workflow attempts steps (suc index) next in
      let ended : (stored : Option Checkpoint) (next : Checkpoint) → Ended stored (rest next) =
        λ stored' next. run_steps-Ended attempts steps (suc index) next stored' in
      if_intro (Ended stored) (not (has_authority workflow attempt.authorization)) _ _
        (λ _. throws-Ended stored)
        (λ _.
          if_intro (Ended stored) attempt.aborted _ _
            (λ _.
              returns-Ended stored (transition cp cancelled index (is_active cp.active_step)) tt)
            (λ _.
              if_intro (Ended stored) attempt.late _ _
                (λ _.
                  returns-Ended stored (transition cp paused index (is_active cp.active_step)) tt)
                (λ _.
                  after-Ended stored (saved (begun index cp) ∷ ran.actions)
                    (finish_step step index attempt ran.ending ran.checkpoint rest)
                    (finish_step-Ended step index attempt ran.checkpoint rest ended ran.ending _))))

  run_loaded-Ended :
      (attempts : ℕ → Attempt) (plan_fingerprint : Text) (cp : Checkpoint)
      (stored : Option Checkpoint)
      → Ended stored (run_loaded digest interpreter workflow attempts plan_fingerprint cp)
  unfolding run_loaded
  run_loaded-Ended attempts plan_fingerprint cp stored =
      if_intro (Ended stored)
        (not (cp.plan_fingerprint === plan_fingerprint) || not (cp.workflow_id === workflow.id)) _ _
        (λ _. throws-Ended stored)
        (λ _.
          if_intro (Ended stored) (is_blocked cp.active_step) _ _
            (λ _. returns-Ended stored (record cp { state = outcome_unknown }) tt)
            (λ _.
              run_steps-Ended attempts (drop cp.next_step_index workflow.steps) cp.next_step_index
                cp stored))

  run_new-Ended :
      (attempts : ℕ → Attempt) (first : Option Checkpoint) (stored : Option Checkpoint)
      → Ended stored (run_new digest interpreter workflow attempts first)
  unfolding run_new
  run_new-Ended attempts none stored = throws-Ended stored
  run_new-Ended attempts (some cp) stored =
      after-Ended stored (saved cp ∷ [])
        (run_steps digest interpreter workflow attempts workflow.steps 0 cp)
        (run_steps-Ended attempts workflow.steps 0 cp _)

  -- A run, of a new or of a resumed checkpoint, that returns a result has saved that checkpoint last,
  -- and its state is paused, succeeded, failed, cancelled or outcome-unknown.
  pub run-Ended :
      (inputs : Fields) (authorization : Option Authorization) (attempts : ℕ → Attempt)
      (plan_fingerprint run_id : Text) (stored : Option Checkpoint) (cp : Checkpoint)
      → (run digest interpreter workflow inputs authorization attempts plan_fingerprint run_id
          stored).result
        ≡ some cp
      → IsEnd cp.state
        × (last_saved stored
              (run digest interpreter workflow inputs authorization attempts plan_fingerprint run_id
                stored).actions
            ≡ some cp)
  unfolding run
  run-Ended inputs authorization attempts plan_fingerprint run_id none =
      if_intro (Ended none)
        (not (has_inputs workflow.input_schema inputs)
          || not (has_authority workflow authorization))
        _ _ (λ _. throws-Ended none) (λ _. run_new-Ended attempts _ none)
  run-Ended inputs authorization attempts plan_fingerprint run_id (some cp) =
      if_intro (Ended (some cp))
        (not (has_inputs workflow.input_schema inputs)
          || not (has_authority workflow authorization))
        _ _ (λ _. throws-Ended (some cp))
        (λ _. run_loaded-Ended attempts plan_fingerprint cp (some cp))
