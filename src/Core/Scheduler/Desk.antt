-- ===== src/Core/Scheduler/Desk.antt =====
-- The desk that the scheduler (scheduler.ts) is measured by: two first-in-first-out queues, where a
-- generation is served before any embedding, and one worker.
use browser_cortex.Common.{
  ◌≡◌, Bool, true, false, Option, none, some, List, [], ◌∷◌, ◌++◌, Text, ◌===◌, arith,
  if◌then◌else◌,
}
use browser_cortex.Contracts.Errors.{Result, ok, err}
use browser_cortex.Core.Scheduler.{
  Kind, generation, embedding, Task, Entry, Scheduler, id_of, is_embedding, take_out, schedule,
  abort_active, closed,
}
use browser_cortex.Core.Scheduler.Invariant.{IsOrdered}
use browser_cortex.Core.Scheduler.Conservation.{
  Event, scheduling, cancelling, disposing, ending, step,
}
use browser_cortex.Core.Scheduler.Queues.{
  generations, embeddings, embedding_only, is_embedding_kind, behind_embedding,
}

pub record Desk : Type 0 where
  pub generations : List Entry
  pub embeddings : List Entry
  pub active : Option Entry
  pub closed : Bool

-- The queues of an embedding before embeddings, and of a generation.
pub rest_generations :
    (e : Entry) (rest : List Entry)
    → is_embedding e.task.kind ≡ true
    → IsOrdered (e ∷ rest)
    → generations rest ≡ []
rest_generations e rest last o =
    (embedding_only rest (behind_embedding e rest (is_embedding_kind e.task.kind last) o)).0

pub last_queues :
    (e : Entry) (rest : List Entry)
    → is_embedding e.task.kind ≡ true
    → IsOrdered (e ∷ rest)
    → (generations (e ∷ rest) ≡ []) × (embeddings (e ∷ rest) ≡ e ∷ embeddings rest)
unfolding generations embeddings
last_queues e rest last o =
    (ground (arith, last, rest_generations e rest last o), ground (arith, last))

pub first_queues :
    (e : Entry) (rest : List Entry)
    → is_embedding e.task.kind ≡ false
    → (generations (e ∷ rest) ≡ e ∷ generations rest) × (embeddings (e ∷ rest) ≡ embeddings rest)
unfolding generations embeddings
first_queues e rest earlier = (ground (arith, earlier), ground (arith, earlier))

abbrev pub desk_of : List Entry → List Entry → Option Entry → Bool → Desk
desk_of generations embeddings active closed = record {
  generations = generations;
  embeddings = embeddings;
  active = active;
  closed = closed;
}

-- What the desk does of itself: an idle worker takes the first generation, or else the first
-- embedding.
unfoldable pub serve_from : List Entry → List Entry → Option Entry → Bool → Desk
serve_from (e ∷ rest) others active closed = record {
  generations = rest;
  embeddings = others;
  active = some e;
  closed = closed;
}
serve_from [] (e ∷ rest) active closed = record {
  generations = [];
  embeddings = rest;
  active = some e;
  closed = closed;
}
serve_from [] [] active closed = record {
  generations = [];
  embeddings = [];
  active = active;
  closed = closed;
}

unfoldable pub next_with : Option Entry → Desk → Desk
unfolding serve_from
next_with (some e) d = d
next_with none d = if d.closed then d else serve_from d.generations d.embeddings d.active d.closed

unfoldable pub next : Desk → Desk
unfolding next_with
next d = next_with d.active d

unfoldable pub arrive : Kind → Entry → Desk → Desk
unfolding next
arrive generation e d = next (record d { generations = d.generations ++ e ∷ [] })
arrive embedding e d = next (record d { embeddings = d.embeddings ++ e ∷ [] })

unfoldable pub withdraw_queued : Text → Desk → Desk
withdraw_queued id d =
    if (take_out id d.generations).0
    then record d { generations = (take_out id d.generations).1 }
    else record d { embeddings = (take_out id d.embeddings).1 }

-- The active entry is marked, an entry that waits leaves its queue.
unfoldable pub withdraw_with : Text → Option Entry → Desk → Desk
unfolding withdraw_queued
withdraw_with id none d = withdraw_queued id d
withdraw_with id (some e) d =
    if id_of e === id
    then record d { active = some (record e { aborted = true }) }
    else withdraw_queued id d

unfoldable pub withdraw : Text → Desk → Desk
unfolding withdraw_with
withdraw id d = withdraw_with id d.active d

unfoldable pub close : Desk → Desk
unfolding abort_active
close d =
    if d.closed
    then d
    else record { generations = []; embeddings = []; active = abort_active d.active; closed = true }

unfoldable pub leave_with : Option Entry → Desk → Desk
unfolding next
leave_with none d = d
leave_with (some e) d = next (record d { active = none })

unfoldable pub leave : Desk → Desk
unfolding leave_with
leave d = leave_with d.active d

unfoldable pub desk : List Entry → Option Entry → Bool → Desk
unfolding generations embeddings
desk queue active closed = record {
  generations = generations queue;
  embeddings = embeddings queue;
  active = active;
  closed = closed;
}

unfoldable pub contents : Scheduler → Desk
unfolding desk
contents s = desk s.queue s.active s.disposed

-- The desk at an event: a call of `schedule` that is not accepted does nothing.
unfoldable pub desk_schedule : Result (Unit {0}) → Task → Desk → Desk
unfolding arrive
desk_schedule (ok accepted) task d = arrive task.kind (record { task = task; aborted = false }) d
desk_schedule (err code) task d = d

unfoldable pub desk_step : Event → Scheduler → Desk → Desk
unfolding desk_schedule withdraw close leave
desk_step (scheduling task) s d = desk_schedule (schedule task s).0 task d
desk_step (cancelling id) s d = withdraw id d
desk_step disposing s d = close d
desk_step (ending end) s d = leave d

unfoldable pub desk_events : List Event → Scheduler → Desk → Desk
unfolding desk_step
desk_events [] s d = d
desk_events (event ∷ events) s d = desk_events events (step event s) (desk_step event s d)
