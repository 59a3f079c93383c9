-- ===== src/Core/Scheduler/Progress.antt =====
-- The worker of the scheduler (scheduler.ts) makes progress: each end of a run settles one task.
use browser_cortex.Common.{
  ℕ, ◌+◌, ◌≤◌, ◌≡◌, refl, ap, true, inl, inr, ◌-◌, All, Option, none, some, List, [], ◌∷◌, map,
  length, Text, arith,
}
use browser_cortex.Core.Scheduler.{
  Entry, RunEnd, Scheduler, drain, finish_active, finish, finished, release,
}
use browser_cortex.Core.Scheduler.Counts.{queue_count, active_count, settled_count}
use browser_cortex.Core.Scheduler.Invariant.{IsSound, Fresh, taken, drain-cases}
use browser_cortex.Core.Scheduler.Conservation.{
  ending, step, step-IsSound, run_events, total_accepted, accepted, live, Tracks,
  run_events-Balanced,
}

-- The tasks that wait or run.
abbrev active_length : Option Entry → ℕ
active_length none = 0
active_length (some e) = 1

abbrev pub waiting : Scheduler → ℕ
waiting s = length s.queue + active_length s.active

taken-waiting :
    (queue : List Entry) (s : Scheduler) → s.active ≡ none → waiting (taken queue s) ≤ length queue
taken-waiting [] s idle = omega (arith, ap active_length idle)
taken-waiting (e ∷ rest) s idle = omega arith

-- A worker that is idle takes an entry, so that no more than the queue is left.
drain-waiting :
    (s : Scheduler)
    → All Fresh s.queue
    → (s.disposed ≡ true → s.queue ≡ [])
    → s.active ≡ none
    → waiting (drain s) ≤ length s.queue
drain-waiting s f stopped idle = elim (drain-cases s f) [
  | inl (same, inl off) ↦
      omega (arith, ap waiting same, ap active_length idle, ap length (stopped off))
  | inl (same, inr busy) ↦ absurd (busy idle)
  | inr (same, idle', running) ↦ omega (arith, ap waiting same, taken-waiting s.queue s idle)
]

finish_active-waiting :
    (active : Option Entry) (end : RunEnd) (s : Scheduler)
    → s.active ≡ active
    → IsSound s
    → waiting (finish_active active end s) ≤ waiting s - 1
unfolding finish_active release
finish_active-waiting none end s e h = omega (arith, ap active_length e, ap length (h.busy e))
finish_active-waiting (some a) end s e h =
    omega (arith, drain-waiting (finished a end s) h.fresh h.stopped refl, ap active_length e)

ends-waiting :
    (ends : List RunEnd) (s : Scheduler)
    → IsSound s
    → waiting (run_events (map ending ends) s) ≤ waiting s - length ends
unfolding run_events step finish
ends-waiting [] s h = omega arith
ends-waiting (end ∷ ends) s h = omega (
  arith,
  finish_active-waiting s.active end s refl h,
  ends-waiting ends (finish end s) (step-IsSound (ending end) s h),
)

none-accepted :
    (id : Text) (ends : List RunEnd) (s : Scheduler) → total_accepted id (map ending ends) s ≡ 0
unfolding total_accepted accepted
none-accepted id [] s = refl
none-accepted id (end ∷ ends) s = omega (arith, none-accepted id ends (step (ending end) s))

live-of_empty :
    (id : Text) (queue : List Entry) (active : Option Entry)
    → length queue ≡ 0
    → active_length active ≡ 0
    → active_count id active + queue_count id queue ≡ 0
unfolding queue_count
live-of_empty id [] none q a = refl
live-of_empty id (e ∷ queue) active q a = absurd (omega (arith, q))
live-of_empty id [] (some e) q a = absurd (omega (arith, a))

live-done : (id : Text) (s : Scheduler) → waiting s ≡ 0 → live id s ≡ 0
unfolding queue_count
live-done id s h = live-of_empty id s.queue s.active (omega (arith, h)) (omega (arith, h))

-- From a sound state, as many ends of runs as tasks are waiting or running leave none of them, and
-- settle each of them once: for every identifier, the promises settled are those settled before and
-- one for each task that was waiting or running.
pub ends-settle :
    (id : Text) (ends : List RunEnd) (s : Scheduler)
    → IsSound s
    → Tracks id s
    → waiting s ≤ length ends
    → (waiting (run_events (map ending ends) s) ≡ 0)
      × (settled_count id (run_events (map ending ends) s).settled
          ≡ settled_count id s.settled + live id s)
ends-settle id ends s h t l =
    let after = run_events (map ending ends) s in
    let done : waiting after ≡ 0 = omega (arith, ends-waiting ends s h) in
    let b = run_events-Balanced id (map ending ends) s h t in
    (done, omega (arith, b.counted, none-accepted id ends s, live-done id after done))
