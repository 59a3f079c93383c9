-- ===== src/Workflows/Interpreter/Resumes.antt =====
-- What the failure of a write with an idempotency key leaves in the checkpoint (interpreter.ts: the
-- `catch` of `run`) for `#invokeTool` of the run that is resumed.
use browser_cortex.Common.{
  ℕ, ◌≡◌, refl, ap, ◌∙◌, Bool, true, false, Option, none, some, List, [], Text, ◌===◌, ===_refl,
  arith,
}
use browser_cortex.Workflows.Interpreter.{
  Effect, read, local_write, external_write, Idempotency, Step, Workflow, ActiveStep, Checkpoint,
  Tool, is_write,
}
use browser_cortex.Workflows.Interpreter.Execute.{
  Attempt, same_effect, is_keyed, dispatched, filled, active_key, or_fresh, is_resumed, fresh_key,
  idempotency_key,
}
use browser_cortex.Workflows.Interpreter.Run.{begun, dispatched_write, failed_checkpoint}

-- The active step of a write that was dispatched.
abbrev marked : Step → Effect → Idempotency → Option Text → Option ActiveStep
marked step effect idempotency key = some (record {
  step_id = step.id;
  effect = effect;
  idempotency = idempotency;
  idempotency_key = key;
})

same_effect_refl : (e : Effect) → same_effect e e ≡ true
same_effect_refl read = refl
same_effect_refl local_write = refl
same_effect_refl external_write = refl

active_key-marked :
    (step : Step) (e : Effect) (u : Idempotency) (key : Text)
    → (key === []) ≡ false
    → active_key step (marked step e u (some key)) ≡ some key
unfolding active_key
active_key-marked step e u key h = ground (arith, ===_refl step.id, h)

is_resumed-marked :
    (step : Step) (e : Effect) (u : Idempotency) (key : Text)
    → is_keyed u ≡ true
    → is_resumed step e (marked step e u (some key)) ≡ true
unfolding is_resumed
is_resumed-marked step e u key h = ground (arith, ===_refl step.id, same_effect_refl e, h)

filled-nonempty : (o : Option Text) (key : Text) → filled o ≡ some key → (key === []) ≡ false
unfolding filled
filled-nonempty none key h = absurd (cc)
filled-nonempty (some k) key h = ground (arith, h)

active_key-nonempty :
    (step : Step) (active : Option ActiveStep) (key : Text)
    → active_key step active ≡ some key
    → (key === []) ≡ false
unfolding active_key
active_key-nonempty step none key h = absurd (cc)
active_key-nonempty step (some active) key h =
    filled-nonempty active.idempotency_key key (ground (arith, h))

or_fresh-nonempty :
    (step : Step) (active : Option ActiveStep) (o : Option Text) (fresh : Text)
    → active_key step active ≡ o
    → (fresh === []) ≡ false
    → (or_fresh o fresh === []) ≡ false
or_fresh-nonempty step active none fresh e h = h
or_fresh-nonempty step active (some key) fresh e h = active_key-nonempty step active key e

module _ (digest : List Text → Text) (workflow : Workflow) (step : Step) (tool : Tool) where
  fresh_key-nonempty : (cp : Checkpoint) → (fresh_key digest workflow step tool cp === []) ≡ false
  unfolding fresh_key ◌===◌
  fresh_key-nonempty cp = refl

  abbrev pub key_of : Checkpoint → Text
  key_of cp = or_fresh (active_key step cp.active_step) (fresh_key digest workflow step tool cp)

  pub key-eq-some :
      (cp : Checkpoint)
      → is_keyed tool.idempotency ≡ true
      → idempotency_key digest workflow step tool cp ≡ some (key_of cp)
  unfolding idempotency_key
  key-eq-some cp h = ground (arith, h)

  -- The checkpoint of a write that was dispatched and failed, as a resumed run has it at the step.
  abbrev pub failed_at : ℕ → Attempt → Option Text → Bool → Checkpoint → Checkpoint
  failed_at index attempt code unknown cp =
      begun index (failed_checkpoint step index attempt code unknown cp)

  failed-active :
      (index : ℕ) (attempt : Attempt) (code : Option Text) (unknown : Bool) (cp : Checkpoint)
      (key : Option Text)
      → is_write tool.effect ≡ true
      → (failed_at index attempt code unknown
          (dispatched step tool.effect tool.idempotency key cp)).active_step
        ≡ marked step tool.effect tool.idempotency key
  unfolding failed_checkpoint dispatched dispatched_write
  failed-active index attempt code unknown cp key h = ground (arith, ===_refl step.id, h)

  -- What a failed keyed write leaves to the run that is resumed: its key, and that it was dispatched.
  pub record Resumes (cp after : Checkpoint) : Type 0 where
    pub again : is_resumed step tool.effect after.active_step ≡ true
    pub key : idempotency_key digest workflow step tool after ≡ some (key_of cp)

  pub failed-Resumes :
      (index : ℕ) (attempt : Attempt) (code : Option Text) (unknown : Bool) (cp : Checkpoint)
      → is_write tool.effect ≡ true
      → is_keyed tool.idempotency ≡ true
      → Resumes cp (
          failed_at index attempt code unknown (
            dispatched step tool.effect tool.idempotency
              (idempotency_key digest workflow step tool cp)
              cp))
  failed-Resumes index attempt code unknown cp w k =
      let key = key_of cp in
      let after : Checkpoint = failed_at index attempt code unknown (
        dispatched step tool.effect tool.idempotency (idempotency_key digest workflow step tool cp)
          cp) in
      let active : after.active_step ≡ marked step tool.effect tool.idempotency (some key) =
        failed-active index attempt code unknown cp _ w
        ∙ ap (marked step tool.effect tool.idempotency) (key-eq-some cp k) in
      let full =
        or_fresh-nonempty step cp.active_step _ (fresh_key digest workflow step tool cp) refl
          (fresh_key-nonempty cp) in
      record {
        again =
            ap (is_resumed step tool.effect) active
            ∙ is_resumed-marked step tool.effect tool.idempotency key k;
        key =
            key-eq-some after k
            ∙ ap some (
                ap (λ a. or_fresh a (fresh_key digest workflow step tool after))
                  (ap (active_key step) active
                    ∙ active_key-marked step tool.effect tool.idempotency key full));
      }
