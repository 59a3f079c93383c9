-- ===== src/Core/Scheduler/Conservation.antt =====
-- The tasks of one identifier in the scheduler (scheduler.ts), over sequences of events.
use browser_cortex.Common.{
  ℕ, ◌+◌, ◌≤◌, ◌≡◌, refl, ap, inl, inr, false, Option, none, some, List, [], ◌∷◌, Text, ◌===◌,
  ===_iff, includes, if◌then◌else◌, arith, All, Bool-cases, if_intro,
}
use browser_cortex.Contracts.Errors.{Result, ok, err}
use browser_cortex.Core.Scheduler.{
  Task, Entry, Settlement, RunEnd, Scheduler, id_of, release, take_out, drain, enqueued, accept,
  schedule, cancel_queued, cancel_with, cancel, abort_active, reject_all, dispose, closed,
  finish_active, finish, finished, settlement,
}
use browser_cortex.Core.Scheduler.Counts.{
  one_if, occurrences, queue_count, active_count, settled_count, occurrences-append,
  settled_count-append, occurrences_of_not_includes, occurrences-forget, queue_count-enqueue,
  queue_count-take_out,
}
use browser_cortex.Core.Scheduler.Invariant.{
  IsSound, Fresh, taken, All-enqueue, drain-cases, schedule-IsSound, cancel-IsSound,
  dispose-IsSound, finish-IsSound,
}

-- The tasks of this identifier that are queued or active.
abbrev pub live : Text → Scheduler → ℕ
live id s = active_count id s.active + queue_count id s.queue

-- The set of identifiers holds exactly those of the tasks that are queued or active, each once.
pub record Tracks (id : Text) (s : Scheduler) : Type 0 where
  pub tracked : occurrences id s.request_ids ≡ live id s
  pub single : live id s ≤ 1

-- What a call that accepts `accepted` tasks of this identifier does to its counts.
pub record Balanced (id : Text) (s after : Scheduler) (accepted : ℕ) : Type 0 where
  pub tracks : Tracks id after
  pub counted :
      accepted + settled_count id s.settled + live id s
      ≡ settled_count id after.settled + live id after

record SameCounts (id : Text) (s after : Scheduler) : Type 0 where
  lives : live id after ≡ live id s
  ids : after.request_ids ≡ s.request_ids
  log : after.settled ≡ s.settled

taken-SameCounts :
    (id : Text) (queue : List Entry) (s : Scheduler)
    → s.queue ≡ queue
    → s.active ≡ none
    → SameCounts id s (taken queue s)
unfolding queue_count
taken-SameCounts id [] s e idle = record { lives = ground (arith, e, idle); ids = refl; log = refl }
taken-SameCounts id (q ∷ rest) s e idle = record {
  lives = ground (arith, e, idle);
  ids = refl;
  log = refl;
}

drain-SameCounts : (id : Text) (s : Scheduler) → All Fresh s.queue → SameCounts id s (drain s)
drain-SameCounts id s fresh = elim (drain-cases s fresh) [
  | inl (same, why) ↦ rw same (record { lives = refl; ids = refl; log = refl })
  | inr (same, idle, running) ↦ rw same (taken-SameCounts id s.queue s refl idle)
]

Balanced-of_same : (id : Text) (s : Scheduler) → Tracks id s → Balanced id s s 0
Balanced-of_same id s t = record { tracks = t; counted = omega arith }

Balanced-drain :
    (id : Text) (s between : Scheduler) (accepted : ℕ)
    → All Fresh between.queue
    → Balanced id s between accepted
    → Balanced id s (drain between) accepted
Balanced-drain id s between accepted fresh b =
    let c = drain-SameCounts id between fresh in
    record {
      tracks = record {
        tracked = rw (c.ids, c.lives) b.tracks.tracked;
        single = rw c.lives b.tracks.single;
      };
      counted = rw (c.log, c.lives) b.counted;
    }

release-Balanced :
    (id x : Text) (end : Settlement) (s between : Scheduler)
    → Tracks id s
    → between.request_ids ≡ s.request_ids
    → between.settled ≡ s.settled
    → one_if (x === id) + live id between ≡ live id s
    → Balanced id s (release x end between) 0
unfolding release
release-Balanced id x end s between t ids log lives = record {
  tracks = record {
    tracked =
        rw occurrences-forget
          (ground (arith, ids, lives, t.tracked, t.single, ap (occurrences id) ids));
    single = omega (arith, lives, t.single);
  };
  counted = rw settled_count-append (omega (arith, lives, ap (settled_count id) log));
}

accept-Balanced :
    (id : Text) (task : Task) (s : Scheduler)
    → IsSound s
    → Tracks id s
    → includes s.request_ids task.request_id ≡ false
    → Balanced id s (accept task s) (one_if (task.request_id === id))
unfolding accept
accept-Balanced id task s h t fresh_id =
    let entry : Entry = record { task = task; aborted = false } in
    let absent = occurrences_of_not_includes task.request_id s.request_ids fresh_id in
    Balanced-drain id s (enqueued task s) (one_if (task.request_id === id))
      (All-enqueue Fresh task.kind entry s.queue refl h.fresh)
      (record {
        tracks = record {
          tracked = rw (occurrences-append, queue_count-enqueue) (omega (arith, t.tracked));
          single =
              rw queue_count-enqueue
                (ground (arith, t.tracked, t.single, absent, ===_iff task.request_id id));
        };
        counted = rw queue_count-enqueue (omega arith);
      })

schedule_answer : Result (Unit {0}) → ℕ
schedule_answer (ok accepted) = 1
schedule_answer (err code) = 0

-- The tasks of this identifier that a call of `schedule` accepts.
pub accepted_by : Text → Task → Scheduler → ℕ
unfolding schedule_answer
accepted_by id task s = if task.request_id === id then schedule_answer (schedule task s).0 else 0

schedule-Balanced :
    (id : Text) (task : Task) (s : Scheduler)
    → IsSound s
    → Tracks id s
    → Balanced id s (schedule task s).1 (accepted_by id task s)
unfolding schedule accepted_by
schedule-Balanced id task s h t =
    ground (arith, accept-Balanced id task s h t, Balanced-of_same id s t)

cancel_queued-Balanced :
    (id x : Text) (s : Scheduler) → Tracks id s → Balanced id s (cancel_queued x s).1 0
unfolding cancel_queued
cancel_queued-Balanced id x s t = elim (Bool-cases (take_out x s.queue).0) [
  | inr missing ↦ rw missing (Balanced-of_same id s t)
  | inl found ↦ rw found (
      release-Balanced id x _ s (record s { queue = (take_out x s.queue).1 }) t refl refl
        (omega (arith, queue_count-take_out id x s.queue found)))
]

cancel_with-Balanced :
    (id x : Text) (active : Option Entry) (s : Scheduler)
    → s.active ≡ active
    → Tracks id s
    → Balanced id s (cancel_with x active s).1 0
unfolding cancel_with
cancel_with-Balanced id x none s e t = cancel_queued-Balanced id x s t
cancel_with-Balanced id x (some a) s e t = elim (Bool-cases (id_of a === x)) [
  | inr other ↦ rw other (cancel_queued-Balanced id x s t)
  | inl same ↦ rw same (
      let lives : active_count id s.active ≡ one_if (id_of a === id) = ap (active_count id) e in
      record {
        tracks = record {
          tracked = omega (arith, t.tracked, lives);
          single = omega (arith, t.single, lives);
        };
        counted = omega (arith, lives);
      })
]

-- The entries are out of the queue and not yet rejected.
record Pending (id : Text) (entries : List Entry) (s between : Scheduler) : Type 0 where
  tracked : occurrences id between.request_ids ≡ queue_count id entries + live id between
  single : queue_count id entries + live id between ≤ 1
  counted :
      settled_count id s.settled + live id s
      ≡ settled_count id between.settled + (queue_count id entries + live id between)

release-Pending :
    (id : Text) (e : Entry) (end : Settlement) (rest : List Entry) (s between : Scheduler)
    → Pending id (e ∷ rest) s between
    → Pending id rest s (release (id_of e) end between)
unfolding release queue_count
release-Pending id e end rest s between p = record {
  tracked = rw occurrences-forget (ground (arith, p.tracked, p.single));
  single = omega (arith, p.single);
  counted = rw settled_count-append (omega (arith, p.counted));
}

reject_all-Balanced :
    (id : Text) (entries : List Entry) (s between : Scheduler)
    → Pending id entries s between
    → Balanced id s (reject_all entries between) 0
unfolding reject_all queue_count
reject_all-Balanced id [] s between p = record {
  tracks = record { tracked = omega (arith, p.tracked); single = omega (arith, p.single) };
  counted = omega (arith, p.counted);
}
reject_all-Balanced id (e ∷ rest) s between p =
    reject_all-Balanced id rest s _ (release-Pending id e _ rest s between p)

abort_active-count :
    (id : Text) (active : Option Entry)
    → active_count id (abort_active active) ≡ active_count id active
unfolding abort_active
abort_active-count id none = refl
abort_active-count id (some e) = refl

dispose-Balanced : (id : Text) (s : Scheduler) → Tracks id s → Balanced id s (dispose s) 0
unfolding dispose
dispose-Balanced id s t =
    if_intro (λ after. Balanced id s after 0) s.disposed s (reject_all s.queue (closed s))
      (λ off. Balanced-of_same id s t)
      (λ running.
        unfold queue_count in
        reject_all-Balanced id s.queue s (closed s) (record {
          tracked = omega (arith, t.tracked, abort_active-count id s.active);
          single = omega (arith, t.single, abort_active-count id s.active);
          counted = omega (arith, abort_active-count id s.active);
        }))

finish_active-Balanced :
    (id : Text) (active : Option Entry) (end : RunEnd) (s : Scheduler)
    → s.active ≡ active
    → IsSound s
    → Tracks id s
    → Balanced id s (finish_active active end s) 0
unfolding finish_active release
finish_active-Balanced id none end s e h t = Balanced-of_same id s t
finish_active-Balanced id (some a) end s e h t =
    let lives : active_count id s.active ≡ one_if (id_of a === id) = ap (active_count id) e in
    Balanced-drain id s (finished a end s) 0 h.fresh (
      release-Balanced id (id_of a) (settlement s.disposed a.aborted end) s
        (record s { active = none }) t refl refl (omega (arith, lives)))

-- A call of a method, or the end of the active run.
pub data Event : Type 0 where
  scheduling : Task → Event
  cancelling : Text → Event
  disposing : Event
  ending : RunEnd → Event

unfoldable pub step : Event → Scheduler → Scheduler
step (scheduling task) s = (schedule task s).1
step (cancelling id) s = (cancel id s).1
step disposing s = dispose s
step (ending end) s = finish end s

-- The tasks of this identifier that an event accepts.
unfoldable pub accepted : Text → Event → Scheduler → ℕ
accepted id (scheduling task) s = accepted_by id task s
accepted id (cancelling other) s = 0
accepted id disposing s = 0
accepted id (ending end) s = 0

unfoldable pub run_events : List Event → Scheduler → Scheduler
run_events [] s = s
run_events (event ∷ events) s = run_events events (step event s)

unfoldable pub total_accepted : Text → List Event → Scheduler → ℕ
total_accepted id [] s = 0
total_accepted id (event ∷ events) s = accepted id event s + total_accepted id events (step event s)

pub step-IsSound : (event : Event) (s : Scheduler) → IsSound s → IsSound (step event s)
unfolding step
step-IsSound (scheduling task) s h = schedule-IsSound task s h
step-IsSound (cancelling id) s h = cancel-IsSound id s h
step-IsSound disposing s h = dispose-IsSound s h
step-IsSound (ending end) s h = finish-IsSound end s h

step-Balanced :
    (id : Text) (event : Event) (s : Scheduler)
    → IsSound s
    → Tracks id s
    → Balanced id s (step event s) (accepted id event s)
unfolding step accepted cancel finish
step-Balanced id (scheduling task) s h t = schedule-Balanced id task s h t
step-Balanced id (cancelling x) s h t = cancel_with-Balanced id x s.active s refl t
step-Balanced id disposing s h t = dispose-Balanced id s t
step-Balanced id (ending end) s h t = finish_active-Balanced id s.active end s refl h t

-- Over any events, the state stays sound.
pub run_events-IsSound :
    (events : List Event) (s : Scheduler) → IsSound s → IsSound (run_events events s)
unfolding run_events
run_events-IsSound [] s h = h
run_events-IsSound (event ∷ events) s h =
    run_events-IsSound events (step event s) (step-IsSound event s h)

-- Over any events from a sound state, for every identifier: the tasks accepted, those settled
-- before and those live before are together the tasks settled after and those live after; and at
-- the end the identifier set holds the live tasks, each once.
pub run_events-Balanced :
    (id : Text) (events : List Event) (s : Scheduler)
    → IsSound s
    → Tracks id s
    → Balanced id s (run_events events s) (total_accepted id events s)
unfolding run_events total_accepted
run_events-Balanced id [] s h t = Balanced-of_same id s t
run_events-Balanced id (event ∷ events) s h t =
    let b = step-Balanced id event s h t in
    let c = run_events-Balanced id events (step event s) (step-IsSound event s h) b.tracks in
    record { tracks = c.tracks; counted = omega (arith, b.counted, c.counted) }
