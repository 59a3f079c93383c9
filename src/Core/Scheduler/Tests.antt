-- ===== src/Core/Scheduler/Tests.antt =====
-- Runs of the scheduler of scheduler.ts.
use browser_cortex.Contracts.Schemas.{is_identifier, utf8_byte_length}
use browser_cortex.Core.Scheduler.Counts.{occurrences, queue_count, settled_count}
use browser_cortex.Core.Scheduler.Desk.{contents, desk_events}
use browser_cortex.Core.Scheduler.Refine.{run_events-refines}
use browser_cortex.Core.Scheduler.Progress.{waiting, ends-settle}
use browser_cortex.Common.{
  ◌≡◌, refl, none, some, List, [], ◌∷◌, Text, nat, units, false, arith, map, ◌+◌, bounded_positive,
  includes, ◌===◌,
}
use browser_cortex.Contracts.Errors.{Result, ok, err, cancelled}
use browser_cortex.Contracts.Errors
use browser_cortex.Core.Scheduler.{
  Kind, generation, embedding, Task, resolved, rejected, returned, Scheduler, snapshot, create,
  cancel, dispose, finish, schedule,
}
use browser_cortex.Core.Scheduler.Invariant.{IsSound}
use browser_cortex.Core.Scheduler.Conservation.{
  Tracks, Balanced, Event, scheduling, cancelling, disposing, ending, run_events, total_accepted,
  run_events-IsSound, run_events-Balanced, step, live,
}

abbrev idle : Scheduler
idle = record {
  queue = [];
  request_ids = [];
  maximum_queued = 3;
  active = none;
  disposed = false;
  settled = [];
}

create_test : create (some (nat 3)) ≡ ok idle
unfolding create bounded_positive
create_test = refl

abbrev task : Text → Kind → Task
task id kind = record { request_id = id; kind = kind; serialized_input = []; aborted = false }

abbrev events : List Event
events =
    scheduling (task (units "e1") embedding)
    ∷ scheduling (task (units "e2") embedding)
    ∷ scheduling (task (units "g1") generation)
    ∷ ending returned
    ∷ cancelling (units "e2")
    ∷ scheduling (task (units "e3") embedding)
    ∷ disposing
    ∷ ending returned
    ∷ []

events_test :
    (run_events events idle).settled
    ≡ (units "e1", resolved)
      ∷ (units "e2", rejected cancelled)
      ∷ (units "e3", rejected Errors.disposed)
      ∷ (units "g1", rejected Errors.disposed)
      ∷ []
unfolding run_events step finish dispose schedule cancel is_identifier utf8_byte_length includes
    ◌===◌
events_test = refl

idle-IsSound : IsSound idle
idle-IsSound = record {
  fresh = tt;
  bounded = omega arith;
  ordered = tt;
  busy = λ e. refl;
  stopped = λ e. refl;
}

run_events-IsSound_example : IsSound (run_events events idle)
run_events-IsSound_example = run_events-IsSound events idle idle-IsSound

idle-Tracks : (id : Text) → Tracks id idle
unfolding queue_count occurrences
idle-Tracks id = record { tracked = refl; single = omega arith }

run_events-Balanced_example :
    Balanced (units "g1") idle (run_events events idle) (total_accepted (units "g1") events idle)
run_events-Balanced_example =
    run_events-Balanced (units "g1") events idle idle-IsSound (idle-Tracks (units "g1"))

snapshot_test :
    snapshot (run_events (scheduling (task (units "e1") embedding) ∷ []) idle)
    ≡ record { active_request_id = some (units "e1"); queued_request_ids = []; disposed = false }
unfolding snapshot run_events step schedule is_identifier utf8_byte_length includes
snapshot_test = refl

run_events-refines_example :
    contents (run_events events idle) ≡ desk_events events idle (contents idle)
run_events-refines_example = run_events-refines events idle idle-IsSound

-- Two tasks wait behind one that runs.
abbrev arrivals : List Event
arrivals =
    scheduling (task (units "e1") embedding)
    ∷ scheduling (task (units "e2") embedding)
    ∷ scheduling (task (units "g1") generation)
    ∷ []

abbrev loaded : Scheduler
loaded = run_events arrivals idle

loaded-waiting : waiting loaded ≡ 3
unfolding run_events step schedule is_identifier utf8_byte_length includes ◌===◌
loaded-waiting = refl

ends-settle_example :
    (waiting (run_events (map ending (returned ∷ returned ∷ returned ∷ [])) loaded) ≡ 0)
    × (settled_count
          (units "g1")
          (run_events (map ending (returned ∷ returned ∷ returned ∷ [])) loaded).settled
        ≡ settled_count (units "g1") loaded.settled + live (units "g1") loaded)
ends-settle_example =
    ends-settle (units "g1") (returned ∷ returned ∷ returned ∷ []) loaded
      (run_events-IsSound arrivals idle idle-IsSound)
      (run_events-Balanced (units "g1") arrivals idle idle-IsSound
        (idle-Tracks (units "g1"))).tracks
      (omega (arith, loaded-waiting))
