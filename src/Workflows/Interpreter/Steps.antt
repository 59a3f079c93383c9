-- ===== src/Workflows/Interpreter/Steps.antt =====
-- The actions of one step (interpreter.ts: `#executeStep` and the `catch` of `run`), by the index
-- from which on no write that is declared with idempotency "none" has been started.
use browser_cortex.Common.{
  ℕ, suc, ◌≤◌, ◌<◌, ◌≡◌, ap, inl, inr, Bool, true, false, not, ◌&&◌, ◌||◌, Option, none, some, List,
  [], ◌∷◌, ◌++◌, Text, ◌===◌, ===_refl, arith, if◌then◌else◌, Bool-cases, if_intro,
}
use browser_cortex.Contracts.Json.{
  JsonValue, null, undefined, boolean, number, string, array, object,
}
use browser_cortex.Workflows.Interpreter.{
  Effect, Idempotency, Step, Checkpoint, is_write, is_non_idempotent, resolve_reference,
}
use browser_cortex.Workflows.Interpreter.Execute.{
  Action, saved, consumed, started, Ending, Attempt, Interpreter, Ran, ends, dispatched, start,
  with_handle, with_reference,
}
use browser_cortex.Workflows.Interpreter.Run.{is_blocked, dispatched_write}

-- The first index whose step may still start a write that is declared with idempotency "none", when
-- the run is resumed here.
unfoldable pub frontier : Checkpoint → ℕ
unfolding is_blocked
frontier cp = if is_blocked cp.active_step then suc cp.next_step_index else cp.next_step_index

abbrev pub is_non_idempotent_write : Effect → Idempotency → Bool
is_non_idempotent_write effect idempotency = is_write effect && is_non_idempotent idempotency

-- `Steps total b f actions b' f'`: the writes with idempotency "none" in `actions` have increasing indices
-- from `b` on and below `b'`, each starts below the frontier of the checkpoint that is saved last, and no saved
-- frontier is below a write that was started. `f` and `f'` are the frontiers before
-- and after, and no saved frontier exceeds `total`.
pub data Steps : ℕ → ℕ → ℕ → List Action → ℕ → ℕ → Type 0 where
  stay : (total b f : ℕ) → Steps total b f [] b f
  save :
      (total b f b' f' : ℕ) (cp : Checkpoint) (rest : List Action)
      → b ≤ frontier cp
      → frontier cp ≤ total
      → Steps total b (frontier cp) rest b' f'
      → Steps total b f (saved cp ∷ rest) b' f'
  consume :
      (total b f b' f' : ℕ) (handle : Text) (rest : List Action)
      → Steps total b f rest b' f'
      → Steps total b f (consumed handle ∷ rest) b' f'
  write :
      (total b f b' f' i : ℕ) (e : Effect) (k : Idempotency) (key : Option Text)
      (rest : List Action)
      → b ≤ i
      → i < f
      → Steps total (suc i) f rest b' f'
      → Steps total b f (started i e k key ∷ rest) b' f'
  work :
      (total b f b' f' i : ℕ) (e : Effect) (k : Idempotency) (key : Option Text)
      (rest : List Action)
      → is_non_idempotent_write e k ≡ false
      → Steps total b f rest b' f'
      → Steps total b f (started i e k key ∷ rest) b' f'

pub Steps-append :
    (total b f : ℕ) (xs : List Action) (b' f' : ℕ) (ys : List Action) (b'' f'' : ℕ)
    → Steps total b f xs b' f'
    → Steps total b' f' ys b'' f''
    → Steps total b f (xs ++ ys) b'' f''
Steps-append _ _ _ _ _ _ ys b'' f'' (stay total b f) k = k
Steps-append _ _ _ _ _ _ ys b'' f'' (save total b f b' f' cp rest d l h) k =
    save _ _ _ _ _ cp _ d l (Steps-append _ _ _ _ _ _ ys _ _ h k)
Steps-append _ _ _ _ _ _ ys b'' f'' (consume total b f b' f' handle rest h) k =
    consume _ _ _ _ _ handle _ (Steps-append _ _ _ _ _ _ ys _ _ h k)
Steps-append _ _ _ _ _ _ ys b'' f'' (write total b f b' f' i e u key rest d l h) k =
    write _ _ _ _ _ i e u key _ d l (Steps-append _ _ _ _ _ _ ys _ _ h k)
Steps-append _ _ _ _ _ _ ys b'' f'' (work total b f b' f' i e u key rest d h) k =
    work _ _ _ _ _ i e u key _ d (Steps-append _ _ _ _ _ _ ys _ _ h k)

-- What a step leaves: its actions keep the order, and its checkpoint is at the step, blocked by a
-- write of this step only.
pub record Leaves (step : Step) (total index b f : ℕ) (ran : Ran) : Type 0 where
  pub bound : ℕ
  pub front : ℕ
  pub steps : Steps total b f ran.actions bound front
  pub below : bound ≤ frontier ran.checkpoint
  pub at_index : ran.checkpoint.next_step_index ≡ index
  pub own :
      is_blocked ran.checkpoint.active_step ≡ true
      → dispatched_write step ran.checkpoint.active_step ≡ true

module _ (step : Step) (total index b : ℕ) (cp : Checkpoint) (at : cp.next_step_index ≡ index)
    (open_ : is_blocked cp.active_step ≡ false) (below : b ≤ index) (room : index < total) where
  frontier-open : frontier cp ≡ index
  unfolding frontier
  frontier-open = ground arith

  pub ends-Leaves : (f : ℕ) (ending : Ending) → Leaves step total index b f (ends cp ending)
  ends-Leaves f ending = record {
    bound = b;
    front = f;
    steps = stay total b f;
    below = omega (arith, frontier-open);
    at_index = at;
    own = λ h. absurd (cc);
  }

  start-Steps :
      (f : ℕ) (e : Effect) (u : Idempotency) (key : Option Text) (attempt : Attempt)
      → (is_non_idempotent_write e u ≡ true → index < f)
      → (bound : ℕ) × Steps total b f (start index e u key attempt) bound f
        × (bound ≤ (if is_non_idempotent_write e u then suc index else index))
  unfolding start
  start-Steps f e u key attempt h = elim (Bool-cases attempt.starts) [
    | inr idle ↦ (
      b,
      if_intro (λ a. Steps total b f a b f) attempt.starts _ _ (λ y. absurd (cc))
          (λ n. stay total b f),
      ground arith,
    )
    | inl busy ↦ elim (Bool-cases (is_non_idempotent_write e u)) [
      | inl bad ↦ (
        suc index,
        if_intro (λ a. Steps total b f a (suc index) f) attempt.starts _ _
            (λ y.
              write total b f (suc index) f index e u key [] below (h bad)
                (stay total (suc index) f))
            (λ n. absurd (cc)),
        ground arith,
      )
      | inr good ↦ (
        b,
        if_intro (λ a. Steps total b f a b f) attempt.starts _ _
            (λ y. work total b f b f index e u key [] good (stay total b f)) (λ n. absurd (cc)),
        ground arith,
      )
    ]
  ]

  frontier-dispatched :
      (e : Effect) (u : Idempotency) (key : Option Text)
      → frontier (dispatched step e u key cp)
        ≡ (if is_non_idempotent_write e u then suc index else index)
  unfolding frontier dispatched is_blocked
  frontier-dispatched e u key = ap (λ n. if is_non_idempotent_write e u then suc n else n) at

  dispatched-own :
      (e : Effect) (u : Idempotency) (key : Option Text)
      → is_blocked (dispatched step e u key cp).active_step ≡ true
      → dispatched_write step (dispatched step e u key cp).active_step ≡ true
  unfolding dispatched is_blocked dispatched_write
  dispatched-own e u key h = ground (arith, ===_refl step.id)

  -- A write that is marked as dispatched, and its work.
  pub marked-Leaves :
      (f : ℕ) (e : Effect) (u : Idempotency) (key : Option Text) (attempt : Attempt)
      (ending : Ending)
      → Leaves step total index b f (record {
        actions = saved (dispatched step e u key cp) ∷ start index e u key attempt;
        checkpoint = dispatched step e u key cp;
        ending = ending;
      })
  unfolding dispatched
  marked-Leaves f e u key attempt ending =
      let front = frontier (dispatched step e u key cp) in
      let same = frontier-dispatched e u key in
      let (bound, steps, le) = start-Steps front e u key attempt (λ h. ground arith) in
      record {
        bound = bound;
        front = front;
        steps =
            save total b f bound front (dispatched step e u key cp) _ (ground arith) (ground arith)
              steps;
        below = omega arith;
        at_index = at;
        own = dispatched-own e u key;
      }

  -- Work that is no write.
  pub work-Leaves :
      (f : ℕ) (e : Effect) (u : Idempotency) (key : Option Text) (attempt : Attempt)
      (ending : Ending)
      → is_write e ≡ false
      → Leaves step total index b f
          (record { actions = start index e u key attempt; checkpoint = cp; ending = ending })
  work-Leaves f e u key attempt ending h =
      let (bound, steps, le) = start-Steps f e u key attempt (λ h'. ground arith) in
      record {
        bound = bound;
        front = f;
        steps = steps;
        below = ground (arith, frontier-open);
        at_index = at;
        own = λ h'. absurd (cc);
      }

  -- `rest` behind the consumption of an approval.
  consume-Leaves :
      (f : ℕ) (handle : Text) (rest : Ran)
      → Leaves step total index b f rest
      → Leaves step total index b f (record rest { actions = consumed handle ∷ rest.actions })
  consume-Leaves f handle rest h = record {
    bound = h.bound;
    front = h.front;
    steps = consume total b f h.bound h.front handle _ h.steps;
    below = h.below;
    at_index = h.at_index;
    own = h.own;
  }

  handle-Leaves :
      (f : ℕ) (v : Option JsonValue) (attempt : Attempt) (rest : Ran)
      → Leaves step total index b f rest
      → Leaves step total index b f (with_handle v attempt cp rest)
  unfolding with_handle
  handle-Leaves f none attempt rest h = ends-Leaves f _
  handle-Leaves f (some (string handle)) attempt rest h =
      if_intro (Leaves step total index b f) attempt.consumes _ _
        (λ _. consume-Leaves f handle rest h) (λ _. ends-Leaves f _)
  handle-Leaves f (some null) attempt rest h = ends-Leaves f _
  handle-Leaves f (some undefined) attempt rest h = ends-Leaves f _
  handle-Leaves f (some (boolean _)) attempt rest h = ends-Leaves f _
  handle-Leaves f (some (number _)) attempt rest h = ends-Leaves f _
  handle-Leaves f (some (array _)) attempt rest h = ends-Leaves f _
  handle-Leaves f (some (object _)) attempt rest h = ends-Leaves f _

  pub approval-Leaves :
      (f : ℕ) (reference : Option Text) (interpreter : Interpreter) (attempt : Attempt) (rest : Ran)
      → Leaves step total index b f rest
      → Leaves step total index b f (with_reference interpreter reference attempt cp rest)
  unfolding with_reference
  approval-Leaves f none interpreter attempt rest h = ends-Leaves f _
  approval-Leaves f (some reference) interpreter attempt rest h =
      if_intro (Leaves step total index b f) (reference === [] || not interpreter.has_broker) _ _
        (λ _. ends-Leaves f _)
        (λ _. handle-Leaves f (resolve_reference reference cp.values) attempt rest h)
