-- ===== src/Core/Scheduler/Refine.antt =====
-- The scheduler (scheduler.ts) against the desk with two first-in-first-out queues.
use browser_cortex.Common.{
  ◌≡◌, ◌≢◌, ◌⊎◌, refl, sym, ap, ap₂, ◌∙◌, Bool, true, false, ◌||◌, Option, none, some, List, [],
  ◌∷◌, Text, ◌===◌, arith, All, Bool-cases, inl, inr, if◌then◌else◌, if_intro,
}
use browser_cortex.Core.Scheduler.{
  Kind, generation, embedding, Task, Entry, RunEnd, Scheduler, id_of, is_embedding, release,
  enqueue, take_out, drain, enqueued, accept, schedule, cancel_queued, cancel_with, cancel,
  abort_active, reject_all, dispose, closed, finish_active, finish, finished,
}
use browser_cortex.Core.Scheduler.Invariant.{
  IsSound, IsOrdered, Fresh, taken, All-enqueue, drain-cases, reject_all-fields, enqueue-IsOrdered,
}
use browser_cortex.Core.Scheduler.Conservation.{
  Event, scheduling, cancelling, disposing, ending, step, run_events, step-IsSound,
}
use browser_cortex.Core.Scheduler.Queues.{
  generations, embeddings, insert-queues, push-queues, take_out-queues,
}
use browser_cortex.Core.Scheduler.Desk.{
  Desk, desk_of, rest_generations, last_queues, first_queues, serve_from, next_with, next, arrive,
  withdraw_queued, withdraw_with, withdraw, close, leave_with, leave, desk, contents, desk_schedule,
  desk_step, desk_events,
}

serve-desk :
    (queue : List Entry) (active : Option Entry) (closed : Bool) (s : Scheduler)
    → IsOrdered queue
    → s.active ≡ active
    → s.disposed ≡ closed
    → serve_from (generations queue) (embeddings queue) active closed ≡ contents (taken queue s)
unfolding serve_from contents generations embeddings is_embedding
serve-desk [] active closed s o a c = ap₂ (λ x y. desk [] x y) (sym a) (sym c)
serve-desk (e ∷ rest) active closed s o a c = elim (Bool-cases (is_embedding e.task.kind)) [
  | inl last ↦
      let (g, m) = last_queues e rest last o in
      ap₂ (λ x y. serve_from x y active closed) g m
      ∙ ap₂ (λ x y. desk_of x (embeddings rest) (some e) y) (sym (rest_generations e rest last o))
          (sym c)
  | inr earlier ↦
      let (g, m) = first_queues e rest earlier in
      ap₂ (λ x y. serve_from x y active closed) g m ∙ ap (λ y. desk rest (some e) y) (sym c)
]

next-idle :
    (active : Option Entry) (d : Desk)
    → (d.closed ≡ true) ⊎ (active ≢ none)
    → next_with active d ≡ d
unfolding next_with
next-idle (some e) d h = refl
next-idle none d (inl off) = ground arith
next-idle none d (inr busy) = absurd (busy refl)

next-serves :
    (active : Option Entry) (d : Desk)
    → active ≡ none
    → d.closed ≡ false
    → next_with active d ≡ serve_from d.generations d.embeddings d.active d.closed
unfolding next_with
next-serves (some e) d idle running = absurd (cc)
next-serves none d idle running = ground arith

drain-refines :
    (s : Scheduler) → All Fresh s.queue → IsOrdered s.queue → contents (drain s) ≡ next (contents s)
unfolding next contents desk
drain-refines s f o = elim (drain-cases s f) [
  | inl (same, why) ↦ ap contents same ∙ sym (next-idle s.active (contents s) why)
  | inr (same, idle, running) ↦
      ap contents same
      ∙ sym (serve-desk s.queue s.active s.disposed s o refl refl)
      ∙ sym (next-serves s.active (contents s) idle running)
]

enqueue-refines :
    (kind : Kind) (e : Entry) (queue : List Entry) (active : Option Entry) (closed : Bool)
    → e.task.kind ≡ kind
    → IsOrdered queue
    → next (desk (enqueue kind e queue) active closed) ≡ arrive kind e (desk queue active closed)
unfolding enqueue arrive desk
enqueue-refines generation e queue active closed k o =
    let (a, b) = insert-queues e queue k o in ap₂ (λ g m. next (desk_of g m active closed)) a b
enqueue-refines embedding e queue active closed k o =
    let (a, b) = push-queues e queue k in ap₂ (λ g m. next (desk_of g m active closed)) a b

accept-refines :
    (task : Task) (s : Scheduler)
    → IsSound s
    → contents (accept task s)
      ≡ arrive task.kind (record { task = task; aborted = false }) (contents s)
unfolding accept contents
accept-refines task s h =
    let e : Entry = record { task = task; aborted = false } in
    drain-refines (enqueued task s) (All-enqueue Fresh task.kind e s.queue refl h.fresh)
      (enqueue-IsOrdered task.kind e s.queue refl h.ordered)
    ∙ enqueue-refines task.kind e s.queue s.active s.disposed refl h.ordered

schedule-refines :
    (task : Task) (s : Scheduler)
    → IsSound s
    → contents (schedule task s).1 ≡ desk_schedule (schedule task s).0 task (contents s)
unfolding schedule desk_schedule
schedule-refines task s h = ground (arith, accept-refines task s h)

take_out-missing :
    (id : Text) (queue : List Entry) → (take_out id queue).0 ≡ false → (take_out id queue).1 ≡ queue
unfolding take_out
take_out-missing id [] h = refl
take_out-missing id (e ∷ queue) h = ground (arith, take_out-missing id queue)

-- What leaves the generations, or else the embeddings.
withdrawn :
    (id : Text) (gs es : List Entry) (active : Option Entry) (closed : Bool)
    → desk_of
        (take_out id gs).1
        (if (take_out id gs).0 then es else (take_out id es).1)
        active
        closed
      ≡ withdraw_queued id (desk_of gs es active closed)
unfolding withdraw_queued
withdrawn id gs es active closed = elim (Bool-cases (take_out id gs).0) [
  | inl found ↦ ground (arith, found)
  | inr missing ↦ ground (arith, missing, take_out-missing id gs missing)
]

not_withdrawn :
    (id : Text) (gs es : List Entry) (active : Option Entry) (closed : Bool)
    → ((take_out id gs).0 || (take_out id es).0) ≡ false
    → desk_of gs es active closed ≡ withdraw_queued id (desk_of gs es active closed)
unfolding withdraw_queued
not_withdrawn id gs es active closed h = ground (arith, h, take_out-missing id es)

withdraw_queued-refines :
    (id : Text) (s : Scheduler)
    → IsOrdered s.queue
    → contents (cancel_queued id s).1 ≡ withdraw_queued id (contents s)
unfolding cancel_queued contents desk release
withdraw_queued-refines id s o =
    let (a, b, c) = take_out-queues id s.queue o in
    let gs = generations s.queue in
    let es = embeddings s.queue in
    if_intro (λ (p : Bool × Scheduler). contents p.1 ≡ withdraw_queued id (contents s))
      (take_out id s.queue).0 _ _
      (λ found.
        ap₂ (λ g m. desk_of g m s.active s.disposed) b c ∙ withdrawn id gs es s.active s.disposed)
      (λ missing. not_withdrawn id gs es s.active s.disposed (sym a ∙ missing))

cancel_with-refines :
    (id : Text) (active : Option Entry) (s : Scheduler)
    → s.active ≡ active
    → IsOrdered s.queue
    → contents (cancel_with id active s).1 ≡ withdraw_with id active (contents s)
unfolding cancel_with withdraw_with contents desk
cancel_with-refines id none s e o = withdraw_queued-refines id s o
cancel_with-refines id (some a) s e o = elim (Bool-cases (id_of a === id)) [
  | inl same ↦ rw same refl
  | inr other ↦ rw other (withdraw_queued-refines id s o)
]

close-closed : (d : Desk) → d.closed ≡ true → close d ≡ d
unfolding close
close-closed d h = ground arith

close-open : (d : Desk) → d.closed ≡ false → close d ≡ desk_of [] [] (abort_active d.active) true
unfolding close
close-open d h = ground arith

dispose-refines : (s : Scheduler) → contents (dispose s) ≡ close (contents s)
unfolding dispose contents desk generations embeddings
dispose-refines s =
    let (q, a, d) = reject_all-fields s.queue (closed s) in
    if_intro (λ (t : Scheduler). contents t ≡ close (contents s)) s.disposed _ _
      (λ off. sym (close-closed (contents s) off))
      (λ running.
        ap₂ (λ queue active. desk queue active (reject_all s.queue (closed s)).disposed) q a
        ∙ ap (desk [] (abort_active s.active)) d
        ∙ sym (close-open (contents s) running))

finish_active-refines :
    (active : Option Entry) (end : RunEnd) (s : Scheduler)
    → IsSound s
    → contents (finish_active active end s) ≡ leave_with active (contents s)
unfolding finish_active leave_with contents desk release
finish_active-refines none end s h = refl
finish_active-refines (some e) end s h = drain-refines (finished e end s) h.fresh h.ordered

step-refines :
    (event : Event) (s : Scheduler)
    → IsSound s
    → contents (step event s) ≡ desk_step event s (contents s)
unfolding step desk_step cancel finish withdraw leave contents desk
step-refines (scheduling task) s h = schedule-refines task s h
step-refines (cancelling id) s h = cancel_with-refines id s.active s refl h.ordered
step-refines disposing s h = dispose-refines s
step-refines (ending end) s h = finish_active-refines s.active end s h

-- Over any calls and ends of runs, from a sound state, the scheduler holds what the desk holds: two
-- first-in-first-out queues, where an idle worker takes the first generation, or else the first
-- embedding, a cancelled entry leaves its queue, and a disposed desk is empty and takes nothing.
pub run_events-refines :
    (events : List Event) (s : Scheduler)
    → IsSound s
    → contents (run_events events s) ≡ desk_events events s (contents s)
unfolding run_events desk_events
run_events-refines [] s h = refl
run_events-refines (event ∷ events) s h =
    run_events-refines events (step event s) (step-IsSound event s h)
    ∙ ap (desk_events events (step event s)) (step-refines event s h)
