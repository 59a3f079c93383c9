-- ===== src/Core/Scheduler.antt =====
-- packages/core/src/scheduler.ts: the host-side scheduler of one local inference worker. The calls
-- of its methods and the settlements of `task.run` come one after another; what a promise of
-- `schedule` is settled with is appended to `settled`.
pub mod Counts
pub mod Invariant
pub mod Conservation
pub mod Queues
pub mod Desk
pub mod Refine
pub mod Progress
mod Tests
use mathlib.Core.Option
use browser_cortex.Common.{
  ℕ, ◌≡◌, Bool, true, false, not, ◌&&◌, ◌||◌, Option, none, some, List, [], ◌∷◌, ◌++◌, Text, Number,
  nat, bounded_positive, ◌===◌, includes, length, map, ltb, leb, ◌==◌, if◌then◌else◌,
}
use browser_cortex.Contracts.Limits
use browser_cortex.Contracts.Errors.{
  ErrorCode, Result, ok, err, invalid_input, payload_too_large, duplicate_request, out_of_memory,
  cancelled, invalid_model_output,
}
use browser_cortex.Contracts.Errors
use browser_cortex.Contracts.Schemas.{is_identifier, utf8_byte_length}

pub data Kind : Type 0 where
  generation embedding : Kind

-- interface ScheduledTask; `aborted` is `signal?.aborted` when the task is scheduled, and the work
-- of `run` is not modelled: its settlement is an argument of `finish`.
pub record Task : Type 0 where
  pub request_id : Text
  pub kind : Kind
  pub serialized_input : Text
  pub aborted : Bool

-- interface QueueEntry; `aborted` is `controller.signal.aborted`.
pub record Entry : Type 0 where
  pub task : Task
  pub aborted : Bool

pub data Settlement : Type 0 where
  resolved : Settlement
  rejected : ErrorCode → Settlement

-- How `task.run` ends: with a value, with a `CortexError`, or with another error.
pub data RunEnd : Type 0 where
  returned : RunEnd
  threw_safe : ErrorCode → RunEnd
  threw_other : RunEnd

pub record Scheduler : Type 0 where
  pub queue : List Entry
  pub request_ids : List Text
  pub maximum_queued : ℕ
  pub active : Option Entry
  pub disposed : Bool
  pub settled : List (Text × Settlement)

abbrev pub id_of : Entry → Text
id_of e = e.task.request_id

-- `this.#requestIds.delete(id)`
pub forget : Text → List Text → List Text
forget id [] = []
forget id (x ∷ xs) = let rest = forget id xs in if x === id then rest else x ∷ rest

-- `this.#requestIds.delete(id)`, and the promise is settled.
pub release : Text → Settlement → Scheduler → Scheduler
unfolding forget
release id end s = record s {
  request_ids = forget id s.request_ids;
  settled = s.settled ++ (id, end) ∷ [];
}

pub is_embedding : Kind → Bool
is_embedding generation = false
is_embedding embedding = true

-- `findIndex` of the first embedding and `splice` there, or `push` when there is none.
pub insert_generation : Entry → List Entry → List Entry
unfolding is_embedding
insert_generation e [] = e ∷ []
insert_generation e (q ∷ queue) =
    if is_embedding q.task.kind then e ∷ q ∷ queue else q ∷ insert_generation e queue

pub enqueue : Kind → Entry → List Entry → List Entry
unfolding insert_generation
enqueue generation e queue = insert_generation e queue
enqueue embedding e queue = queue ++ e ∷ []

-- The code that a task whose controller is aborted is rejected with.
abbrev pub abort_code : Bool → ErrorCode
abort_code disposed = if disposed then Errors.disposed else cancelled

-- `#drain` with no active entry: an entry that was aborted is rejected at once, and the next taken.
pub drain_queue : List Entry → Scheduler → Scheduler
unfolding release
drain_queue [] s = record s { queue = [] }
drain_queue (e ∷ rest) s =
    let skipped =
      drain_queue rest
        (release (id_of e) (rejected (abort_code s.disposed)) (record s { queue = rest })) in
    if e.aborted then skipped else record s { active = some e; queue = rest }

pub drain_idle : Option Entry → Scheduler → Scheduler
unfolding drain_queue
drain_idle (some e) s = s
drain_idle none s = if s.disposed then s else drain_queue s.queue s

pub drain : Scheduler → Scheduler
unfolding drain_idle
drain s = drain_idle s.active s

-- The state with the task queued.
abbrev pub enqueued : Task → Scheduler → Scheduler
enqueued task s = record s {
  request_ids = s.request_ids ++ task.request_id ∷ [];
  queue = enqueue task.kind (record { task = task; aborted = false }) s.queue;
}

pub accept : Task → Scheduler → Scheduler
unfolding drain enqueue
accept task s = drain (enqueued task s)

-- The promise is rejected at once, or the task is queued.
pub schedule : Task → Scheduler → Result (Unit {0}) × Scheduler
unfolding accept
schedule task s =
    if s.disposed
    then (err Errors.disposed, s)
    else if not (is_identifier task.request_id)
    then (err invalid_input, s)
    else if ltb Limits.extension_message_bytes (utf8_byte_length task.serialized_input)
    then (err payload_too_large, s)
    else if includes s.request_ids task.request_id
    then (err duplicate_request, s)
    else if leb s.maximum_queued (length s.queue)
    then (err out_of_memory, s)
    else if task.aborted
    then (err cancelled, s)
    else (ok tt, accept task s)

-- `findIndex` and `splice(index, 1)`: whether an entry was found, and what stays queued.
pub take_out : Text → List Entry → Bool × List Entry
take_out id [] = (false, [])
take_out id (e ∷ queue) =
    let (found, rest) = take_out id queue in
    if id_of e === id then (true, queue) else (found, e ∷ rest)

pub cancel_queued : Text → Scheduler → Bool × Scheduler
unfolding take_out release
cancel_queued id s =
    let (found, rest) = take_out id s.queue in
    if found
    then (true, release id (rejected cancelled) (record s { queue = rest }))
    else (false, s)

pub cancel_with : Text → Option Entry → Scheduler → Bool × Scheduler
unfolding cancel_queued
cancel_with id none s = cancel_queued id s
cancel_with id (some e) s =
    if id_of e === id
    then (true, record s { active = some (record e { aborted = true }) })
    else cancel_queued id s

pub cancel : Text → Scheduler → Bool × Scheduler
unfolding cancel_with
cancel id s = cancel_with id s.active s

pub abort_active : Option Entry → Option Entry
abort_active none = none
abort_active (some e) = some (record e { aborted = true })

-- `for (const entry of this.#queue.splice(0))` of `dispose`.
pub reject_all : List Entry → Scheduler → Scheduler
unfolding release
reject_all [] s = s
reject_all (e ∷ rest) s = reject_all rest (release (id_of e) (rejected Errors.disposed) s)

-- The state before the queued entries are rejected.
abbrev pub closed : Scheduler → Scheduler
closed s = record s { disposed = true; active = abort_active s.active; queue = [] }

pub dispose : Scheduler → Scheduler
unfolding reject_all abort_active
dispose s = if s.disposed then s else reject_all s.queue (closed s)

-- What the promise of the active task is settled with.
pub settlement : Bool → Bool → RunEnd → Settlement
settlement disposed true end = rejected (abort_code disposed)
settlement disposed false returned = resolved
settlement disposed false (threw_safe code) = rejected code
settlement disposed false threw_other = rejected invalid_model_output

-- The state before the next entry is taken.
abbrev pub finished : Entry → RunEnd → Scheduler → Scheduler
finished e end s = record (release (id_of e) (settlement s.disposed e.aborted end) s) {
  active = none;
}

pub finish_active : Option Entry → RunEnd → Scheduler → Scheduler
unfolding settlement release drain
finish_active none end s = s
finish_active (some e) end s = drain (finished e end s)

-- `#drain` behind the `await` of `task.run`.
pub finish : RunEnd → Scheduler → Scheduler
unfolding finish_active
finish end s = finish_active s.active end s

-- The constructor; `none` is an option that is left out.
pub create : Option Number → Result Scheduler
create maximum_queued = elim (bounded_positive 256 (Option.get_or maximum_queued (nat 32))) [
  | none ↦ err invalid_input
  | some maximum ↦ ok (record {
    queue = [];
    request_ids = [];
    maximum_queued = maximum;
    active = none;
    disposed = false;
    settled = [];
  })
]

-- interface SchedulerSnapshot
pub record Snapshot : Type 0 where
  pub active_request_id : Option Text
  pub queued_request_ids : List Text
  pub disposed : Bool

pub snapshot : Scheduler → Snapshot
snapshot s = record {
  active_request_id = Option.map id_of s.active;
  queued_request_ids = map id_of s.queue;
  disposed = s.disposed;
}
