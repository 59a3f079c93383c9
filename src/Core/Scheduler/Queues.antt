-- ===== src/Core/Scheduler/Queues.antt =====
-- The one queue of the scheduler (scheduler.ts) as the two first-in-first-out queues that it holds.
use browser_cortex.Common.{
  ◌≡◌, refl, true, List, [], ◌∷◌, ◌++◌, Text, ◌||◌, arith, All, Bool-cases, inl, inr, if◌then◌else◌,
}
use browser_cortex.Core.Scheduler.{
  Kind, generation, embedding, Entry, is_embedding, insert_generation, take_out,
}
use browser_cortex.Core.Scheduler.Invariant.{IsEmbedding, IsOrdered}

-- The entries of one kind, in the order of the queue.
unfoldable pub generations : List Entry → List Entry
unfolding is_embedding
generations [] = []
generations (e ∷ queue) =
    let rest = generations queue in if is_embedding e.task.kind then rest else e ∷ rest

unfoldable pub embeddings : List Entry → List Entry
unfolding is_embedding
embeddings [] = []
embeddings (e ∷ queue) =
    let rest = embeddings queue in if is_embedding e.task.kind then e ∷ rest else rest

pub embedding_only :
    (queue : List Entry)
    → All IsEmbedding queue
    → (generations queue ≡ []) × (embeddings queue ≡ queue)
unfolding generations embeddings is_embedding
embedding_only [] h = (refl, refl)
embedding_only (e ∷ queue) h =
    let (a, b) = embedding_only queue h.1 in (ground (arith, a, h.0), ground (arith, b, h.0))

pub is_embedding_kind : (kind : Kind) → is_embedding kind ≡ true → kind ≡ embedding
unfolding is_embedding
is_embedding_kind generation h = absurd (cc)
is_embedding_kind embedding h = refl

pub behind_embedding :
    (q : Entry) (queue : List Entry)
    → q.task.kind ≡ embedding
    → IsOrdered (q ∷ queue)
    → All IsEmbedding queue
behind_embedding q queue k h = ground (arith, k, h.0)

pub insert-queues :
    (e : Entry) (queue : List Entry)
    → e.task.kind ≡ generation
    → IsOrdered queue
    → (generations (insert_generation e queue) ≡ generations queue ++ e ∷ [])
      × (embeddings (insert_generation e queue) ≡ embeddings queue)
unfolding insert_generation generations embeddings is_embedding
insert-queues e [] k h = (ground (arith, k), ground (arith, k))
insert-queues e (q ∷ queue) k h = elim (Bool-cases (is_embedding q.task.kind)) [
  | inl last ↦
      let kind = is_embedding_kind q.task.kind last in
      let (none_left, same) = embedding_only queue (behind_embedding q queue kind h) in
      (ground (arith, last, none_left, k), ground (arith, last, k))
  | inr earlier ↦
      let (a, b) = insert-queues e queue k h.1 in
      (ground (arith, earlier, a), ground (arith, earlier, b))
]

pub push-queues :
    (e : Entry) (queue : List Entry)
    → e.task.kind ≡ embedding
    → (generations (queue ++ e ∷ []) ≡ generations queue)
      × (embeddings (queue ++ e ∷ []) ≡ embeddings queue ++ e ∷ [])
unfolding generations embeddings is_embedding
push-queues e [] k = (ground (arith, k), ground (arith, k))
push-queues e (q ∷ queue) k =
    let (a, b) = push-queues e queue k in (ground (arith, a), ground (arith, b))

pub take_out-queues :
    (id : Text) (queue : List Entry)
    → IsOrdered queue
    → ((take_out id queue).0
        ≡ ((take_out id (generations queue)).0 || (take_out id (embeddings queue)).0))
      × (generations (take_out id queue).1 ≡ (take_out id (generations queue)).1)
      × (embeddings (take_out id queue).1 ≡ (
          if (take_out id (generations queue)).0
          then embeddings queue
          else (take_out id (embeddings queue)).1))
unfolding take_out generations embeddings is_embedding
take_out-queues id [] h = (refl, refl, refl)
take_out-queues id (e ∷ queue) h =
    let (a, b, c) = take_out-queues id queue h.1 in
    elim (Bool-cases (is_embedding e.task.kind)) [
      | inl last ↦
          let kind = is_embedding_kind e.task.kind last in
          let (none_left, same) = embedding_only queue (behind_embedding e queue kind h) in
          (
            ground (arith, last, none_left, a),
            ground (arith, last, none_left, b),
            ground (arith, last, none_left, c),
          )
      | inr earlier ↦
          (ground (arith, earlier, a), ground (arith, earlier, b), ground (arith, earlier, c))
    ]
