-- ===== src/Core/Scheduler/Counts.antt =====
-- How often an identifier stands in the lists of the scheduler (scheduler.ts), and what each
-- operation on a list does to that number.
use browser_cortex.Common.{
  ℕ, ◌+◌, ◌≡◌, refl, Bool, true, false, Option, none, some, List, [], ◌∷◌, ◌++◌, Text, ◌===◌,
  ===_iff, includes, if◌then◌else◌, arith,
}
use browser_cortex.Core.Scheduler.{
  Kind, generation, embedding, Entry, Settlement, id_of, forget, insert_generation, enqueue,
  take_out,
}

abbrev pub one_if : Bool → ℕ
one_if true = 1
one_if false = 0

unfoldable pub occurrences : Text → List Text → ℕ
occurrences id [] = 0
occurrences id (x ∷ xs) = one_if (x === id) + occurrences id xs

unfoldable pub queue_count : Text → List Entry → ℕ
queue_count id [] = 0
queue_count id (e ∷ queue) = one_if (id_of e === id) + queue_count id queue

abbrev pub active_count : Text → Option Entry → ℕ
active_count id none = 0
active_count id (some e) = one_if (id_of e === id)

unfoldable pub settled_count : Text → List (Text × Settlement) → ℕ
settled_count id [] = 0
settled_count id ((x, end) ∷ log) = one_if (x === id) + settled_count id log

pub occurrences-append :
    (id x : Text) (xs : List Text)
    → occurrences id (xs ++ x ∷ []) ≡ occurrences id xs + one_if (x === id)
unfolding occurrences
occurrences-append id x [] = omega arith
occurrences-append id x (y ∷ xs) = omega (arith, occurrences-append id x xs)

pub settled_count-append :
    (id x : Text) (end : Settlement) (log : List (Text × Settlement))
    → settled_count id (log ++ (x, end) ∷ []) ≡ settled_count id log + one_if (x === id)
unfolding settled_count
settled_count-append id x end [] = omega arith
settled_count-append id x end ((y, e) ∷ log) = omega (arith, settled_count-append id x end log)

pub occurrences_of_not_includes :
    (id : Text) (xs : List Text) → includes xs id ≡ false → occurrences id xs ≡ 0
unfolding occurrences includes
occurrences_of_not_includes id [] h = refl
occurrences_of_not_includes id (x ∷ xs) h = ground (arith, occurrences_of_not_includes id xs)

pub occurrences-forget :
    (id x : Text) (xs : List Text)
    → occurrences id (forget x xs) ≡ (if x === id then 0 else occurrences id xs)
unfolding occurrences forget
occurrences-forget id x [] = ground arith
occurrences-forget id x (y ∷ xs) =
    ground (arith, occurrences-forget id x xs, ===_iff y x, ===_iff y id, ===_iff x id)

queue_count-insert :
    (id : Text) (e : Entry) (queue : List Entry)
    → queue_count id (insert_generation e queue) ≡ one_if (id_of e === id) + queue_count id queue
unfolding queue_count insert_generation
queue_count-insert id e [] = refl
queue_count-insert id e (q ∷ queue) = ground (arith, queue_count-insert id e queue)

queue_count-push :
    (id : Text) (e : Entry) (queue : List Entry)
    → queue_count id (queue ++ e ∷ []) ≡ one_if (id_of e === id) + queue_count id queue
unfolding queue_count
queue_count-push id e [] = refl
queue_count-push id e (q ∷ queue) = omega (arith, queue_count-push id e queue)

pub queue_count-enqueue :
    (id : Text) (kind : Kind) (e : Entry) (queue : List Entry)
    → queue_count id (enqueue kind e queue) ≡ one_if (id_of e === id) + queue_count id queue
unfolding enqueue
queue_count-enqueue id generation e queue = queue_count-insert id e queue
queue_count-enqueue id embedding e queue = queue_count-push id e queue

pub queue_count-take_out :
    (id x : Text) (queue : List Entry)
    → (take_out x queue).0 ≡ true
    → one_if (x === id) + queue_count id (take_out x queue).1 ≡ queue_count id queue
unfolding queue_count take_out
queue_count-take_out id x [] h = absurd (cc)
queue_count-take_out id x (e ∷ queue) h = ground (
  arith,
  queue_count-take_out id x queue,
  ===_iff (id_of e) x,
  ===_iff (id_of e) id,
  ===_iff x id,
)
