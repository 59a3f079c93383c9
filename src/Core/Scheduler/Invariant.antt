-- ===== src/Core/Scheduler/Invariant.antt =====
-- The queue and the worker of the scheduler (scheduler.ts) after each operation.
use browser_cortex.Common.{
  suc, ◌≤◌, ◌<◌, ◌≡◌, ◌≢◌, refl, ◌⊎◌, inl, inr, true, false, Option, none, some, List, [], ◌∷◌,
  ◌++◌, Text, ◌===◌, arith, length, length-append, All, All-append, Bool-cases, if_intro,
}
use browser_cortex.Core.Scheduler.{
  Kind, generation, embedding, Task, Entry, RunEnd, Scheduler, id_of, release, insert_generation,
  enqueue, is_embedding, take_out, drain_queue, drain_idle, drain, enqueued, accept, schedule,
  cancel_queued, cancel_with, cancel, reject_all, dispose, finish_active, finish, finished, closed,
}

abbrev pub Fresh : Entry → Type 0
Fresh e = e.aborted ≡ false

abbrev pub IsEmbedding : Entry → Type 0
IsEmbedding e = e.task.kind ≡ embedding

-- What may stand behind an entry of this kind.
abbrev After : Kind → List Entry → Type 0
After generation queue = Unit
After embedding queue = All IsEmbedding queue

abbrev pub IsOrdered : List Entry → Type 0
IsOrdered [] = Unit
IsOrdered (e ∷ queue) = After e.task.kind queue × IsOrdered queue

pub record IsSound (s : Scheduler) : Type 0 where
  pub fresh : All Fresh s.queue
  pub bounded : length s.queue ≤ s.maximum_queued
  pub ordered : IsOrdered s.queue
  pub busy : s.active ≡ none → s.queue ≡ []
  pub stopped : s.disposed ≡ true → s.queue ≡ []

-- The first entry of the queue becomes active.
abbrev pub taken : List Entry → Scheduler → Scheduler
taken [] s = record s { queue = [] }
taken (e ∷ rest) s = record s { active = some e; queue = rest }

drain_queue-fresh :
    (queue : List Entry) (s : Scheduler) → All Fresh queue → drain_queue queue s ≡ taken queue s
unfolding drain_queue
drain_queue-fresh [] s h = refl
drain_queue-fresh (e ∷ rest) s h = rw h.0

drain_idle-cases :
    (active : Option Entry) (s : Scheduler)
    → All Fresh s.queue
    → ((drain_idle active s ≡ s) × ((s.disposed ≡ true) ⊎ (active ≢ none)))
      ⊎ ((drain_idle active s ≡ taken s.queue s) × (active ≡ none) × (s.disposed ≡ false))
unfolding drain_idle
drain_idle-cases (some e) s h = inl (refl, inr (λ idle. cc))
drain_idle-cases none s h = elim (Bool-cases s.disposed) [
  | inl stopped ↦ inl (ground arith, inl stopped)
  | inr running ↦ inr (ground (arith, drain_queue-fresh s.queue s h), refl, running)
]

pub drain-cases :
    (s : Scheduler)
    → All Fresh s.queue
    → ((drain s ≡ s) × ((s.disposed ≡ true) ⊎ (s.active ≢ none)))
      ⊎ ((drain s ≡ taken s.queue s) × (s.active ≡ none) × (s.disposed ≡ false))
unfolding drain
drain-cases s h = drain_idle-cases s.active s h

length-insert :
    (e : Entry) (queue : List Entry) → length (insert_generation e queue) ≡ suc (length queue)
unfolding insert_generation
length-insert e [] = refl
length-insert e (q ∷ queue) = ground (arith, length-insert e queue)

length-enqueue :
    (kind : Kind) (e : Entry) (queue : List Entry)
    → length (enqueue kind e queue) ≡ suc (length queue)
unfolding enqueue
length-enqueue generation e queue = length-insert e queue
length-enqueue embedding e queue = omega (arith, length-append queue (e ∷ []))

module _ (P : Entry → Type 0) where
  All-insert :
      (e : Entry) (queue : List Entry) → P e → All P queue → All P (insert_generation e queue)
  unfolding insert_generation
  All-insert e [] p h = (p, tt)
  All-insert e (q ∷ queue) p h = ground (arith, All-insert e queue)

  pub All-enqueue :
      (kind : Kind) (e : Entry) (queue : List Entry)
      → P e
      → All P queue
      → All P (enqueue kind e queue)
  unfolding enqueue
  All-enqueue generation e queue p h = All-insert e queue p h
  All-enqueue embedding e queue p h = All-append P queue (e ∷ []) h (p, tt)

  All-take_out : (id : Text) (queue : List Entry) → All P queue → All P (take_out id queue).1
  unfolding take_out
  All-take_out id [] h = tt
  All-take_out id (e ∷ queue) h = ground (arith, All-take_out id queue)

insert-IsOrdered :
    (e : Entry) (queue : List Entry)
    → e.task.kind ≡ generation
    → IsOrdered queue
    → IsOrdered (insert_generation e queue)
unfolding insert_generation is_embedding
insert-IsOrdered e [] k h = rw k (tt, tt)
insert-IsOrdered e (q ∷ queue) k h = ground (arith, insert-IsOrdered e queue k h.1)

push-IsOrdered :
    (e : Entry) (queue : List Entry)
    → e.task.kind ≡ embedding
    → IsOrdered queue
    → IsOrdered (queue ++ e ∷ [])
push-IsOrdered e [] k h = rw k (tt, tt)
push-IsOrdered e (q ∷ queue) k h =
    ground (arith, push-IsOrdered e queue k h.1, All-append IsEmbedding queue (e ∷ []))

pub enqueue-IsOrdered :
    (kind : Kind) (e : Entry) (queue : List Entry)
    → e.task.kind ≡ kind
    → IsOrdered queue
    → IsOrdered (enqueue kind e queue)
unfolding enqueue
enqueue-IsOrdered generation e queue k h = insert-IsOrdered e queue k h
enqueue-IsOrdered embedding e queue k h = push-IsOrdered e queue k h

taken-IsSound :
    (queue : List Entry) (s : Scheduler)
    → All Fresh queue
    → length queue ≤ s.maximum_queued
    → IsOrdered queue
    → s.disposed ≡ false
    → IsSound (taken queue s)
taken-IsSound [] s f b o running = record {
  fresh = tt;
  bounded = omega arith;
  ordered = tt;
  busy = λ idle. refl;
  stopped = λ stopped. refl;
}
taken-IsSound (e ∷ rest) s f b o running = record {
  fresh = f.1;
  bounded = omega arith;
  ordered = o.1;
  busy = λ idle. cc;
  stopped = λ stopped. cc;
}

-- `#drain` makes a state sound in which a worker may be idle beside a queue.
drain-IsSound :
    (s : Scheduler)
    → All Fresh s.queue
    → length s.queue ≤ s.maximum_queued
    → IsOrdered s.queue
    → (s.disposed ≡ true → s.queue ≡ [])
    → IsSound (drain s)
drain-IsSound s f b o stopped = elim (drain-cases s f) [
  | inl (same, why) ↦ rw same (record {
    fresh = f;
    bounded = b;
    ordered = o;
    busy = λ idle. elim why [ inl off ↦ stopped off | inr some_active ↦ absurd (some_active idle) ];
    stopped = stopped;
  })
  | inr (same, idle, running) ↦ rw same (taken-IsSound s.queue s f b o running)
]

accept-IsSound :
    (task : Task) (s : Scheduler)
    → IsSound s
    → s.disposed ≡ false
    → length s.queue < s.maximum_queued
    → IsSound (accept task s)
unfolding accept
accept-IsSound task s h running room =
    drain-IsSound (enqueued task s)
      (All-enqueue Fresh task.kind (record { task = task; aborted = false }) s.queue refl h.fresh)
      (omega (arith, length-enqueue task.kind (record { task = task; aborted = false }) s.queue))
      (enqueue-IsOrdered task.kind (record { task = task; aborted = false }) s.queue refl h.ordered)
      (λ off. cc)

-- Each method, and each end of a run, keeps the scheduler sound.
pub schedule-IsSound : (task : Task) (s : Scheduler) → IsSound s → IsSound (schedule task s).1
unfolding schedule
schedule-IsSound task s h = ground (arith, accept-IsSound task s)

take_out-IsOrdered :
    (id : Text) (queue : List Entry) → IsOrdered queue → IsOrdered (take_out id queue).1
unfolding take_out
take_out-IsOrdered id [] h = tt
take_out-IsOrdered id (e ∷ queue) h =
    ground (arith, take_out-IsOrdered id queue h.1, All-take_out IsEmbedding id queue)

length-take_out : (id : Text) (queue : List Entry) → length (take_out id queue).1 ≤ length queue
unfolding take_out
length-take_out id [] = omega arith
length-take_out id (e ∷ queue) = ground (arith, length-take_out id queue)

take_out-nil : (id : Text) (queue : List Entry) → queue ≡ [] → (take_out id queue).1 ≡ []
unfolding take_out
take_out-nil id [] h = refl
take_out-nil id (e ∷ queue) h = absurd (cc)

cancel_queued-IsSound : (id : Text) (s : Scheduler) → IsSound s → IsSound (cancel_queued id s).1
unfolding cancel_queued release
cancel_queued-IsSound id s h = elim (Bool-cases (take_out id s.queue).0) [
  | inr missing ↦ rw missing h
  | inl found ↦ rw found (record {
    fresh = All-take_out Fresh id s.queue h.fresh;
    bounded = omega (arith, length-take_out id s.queue, h.bounded);
    ordered = take_out-IsOrdered id s.queue h.ordered;
    busy = λ idle. take_out-nil id s.queue (h.busy idle);
    stopped = λ off. take_out-nil id s.queue (h.stopped off);
  })
]

cancel_with-IsSound :
    (id : Text) (active : Option Entry) (s : Scheduler)
    → s.active ≡ active
    → IsSound s
    → IsSound (cancel_with id active s).1
unfolding cancel_with
cancel_with-IsSound id none s e h = cancel_queued-IsSound id s h
cancel_with-IsSound id (some a) s e h = elim (Bool-cases (id_of a === id)) [
  | inr other ↦ rw other (cancel_queued-IsSound id s h)
  | inl same ↦ rw same (record {
    fresh = h.fresh;
    bounded = h.bounded;
    ordered = h.ordered;
    busy = λ idle. cc;
    stopped = h.stopped;
  })
]

pub cancel-IsSound : (id : Text) (s : Scheduler) → IsSound s → IsSound (cancel id s).1
unfolding cancel
cancel-IsSound id s h = cancel_with-IsSound id s.active s refl h

pub reject_all-fields :
    (entries : List Entry) (s : Scheduler)
    → ((reject_all entries s).queue ≡ s.queue)
      × ((reject_all entries s).active ≡ s.active)
      × ((reject_all entries s).disposed ≡ s.disposed)
unfolding reject_all release
reject_all-fields [] s = (refl, refl, refl)
reject_all-fields (e ∷ rest) s = reject_all-fields rest _

IsSound-of_empty : (s : Scheduler) → s.queue ≡ [] → IsSound s
IsSound-of_empty s e = record {
  fresh = rw e tt;
  bounded = rw e (omega arith);
  ordered = rw e tt;
  busy = λ idle. e;
  stopped = λ off. e;
}

pub dispose-IsSound : (s : Scheduler) → IsSound s → IsSound (dispose s)
unfolding dispose
dispose-IsSound s h =
    if_intro IsSound s.disposed s (reject_all s.queue (closed s)) (λ off. h)
      (λ running. IsSound-of_empty _ (reject_all-fields s.queue (closed s)).0)

finish_active-IsSound :
    (active : Option Entry) (end : RunEnd) (s : Scheduler)
    → IsSound s
    → IsSound (finish_active active end s)
unfolding finish_active release
finish_active-IsSound none end s h = h
finish_active-IsSound (some e) end s h =
    drain-IsSound (finished e end s) h.fresh h.bounded h.ordered h.stopped

pub finish-IsSound : (end : RunEnd) (s : Scheduler) → IsSound s → IsSound (finish end s)
unfolding finish
finish-IsSound end s h = finish_active-IsSound s.active end s h
