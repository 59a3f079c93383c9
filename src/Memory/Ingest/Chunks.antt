-- ===== src/Memory/Ingest/Chunks.antt =====
-- The chunks that a text is cut into (createChunks of ingest.ts).
use mathlib.Core.Option
use browser_cortex.Common.{
  ℕ, zero, suc, ◌+◌, ◌-◌, min, ◌≤◌, ◌<◌, ◌≡◌, ◌⊎◌, inl, inr, refl, true, Option, none, some, List,
  [], ◌∷◌, Text, units, starts_with, All, length, drop, take, leb, arith, if_intro,
}
use browser_cortex.Memory.Ingest.{
  last_index_of, first_from, preferred_boundary, Chunk, Chunked, chunks, too_many, unfinished,
  with_chunk, chunk_end, chunk_at, next_start, chunk_from, create_chunks,
}

abbrev AtMost : ℕ → Option ℕ → Type 0
AtMost bound none = Unit
AtMost bound (some i) = i ≤ bound

AtMost-weaken : (n m : ℕ) (o : Option ℕ) → n ≤ m → AtMost n o → AtMost m o
AtMost-weaken n m none l h = tt
AtMost-weaken n m (some i) l h = omega (arith, h)

le_of_test : (a b : ℕ) → leb a b ≡ true → a ≤ b
le_of_test a b h = ground arith

last_index_of-AtMost :
    (pattern input : Text) (from : ℕ) → AtMost from (last_index_of pattern input from)
unfolding last_index_of
last_index_of-AtMost pattern input zero =
    if_intro (AtMost 0) (starts_with input pattern) _ _ (λ _. omega arith) (λ _. tt)
last_index_of-AtMost pattern input (suc n) =
    if_intro (AtMost (suc n)) (starts_with (drop (suc n) input) pattern) _ _ (λ _. omega arith)
      (λ _.
        AtMost-weaken n (suc n) (last_index_of pattern input n) (omega arith)
          (last_index_of-AtMost pattern input n))

first_from-bounds :
    (minimum bound : ℕ) (candidates : List (Option ℕ)) (otherwise : ℕ)
    → All (AtMost bound) candidates
    → minimum ≤ otherwise
    → otherwise ≤ bound
    → (minimum ≤ first_from minimum candidates otherwise)
      × (first_from minimum candidates otherwise ≤ bound)
unfolding first_from
first_from-bounds minimum bound [] otherwise a m b = (m, b)
first_from-bounds minimum bound (none ∷ cs) otherwise a m b =
    first_from-bounds minimum bound cs otherwise a.1 m b
first_from-bounds minimum bound (some c ∷ cs) otherwise a m b =
    if_intro (λ r. (minimum ≤ r) × (r ≤ bound)) (leb minimum c) _ _ (λ h. (ground arith, a.0))
      (λ _. first_from-bounds minimum bound cs otherwise a.1 m b)

AtMost-map :
    (bound : ℕ) (o : Option ℕ)
    → AtMost bound o
    → AtMost (bound + 1) (Option.map (λ index. index + 1) o)
AtMost-map bound none h = tt
AtMost-map bound (some i) h = omega (arith, h)

-- What is known of the end of the chunk that starts here.
abbrev pub EndsWell : Text → ℕ → ℕ → Type 0
EndsWell text start end =
    (start < end)
    × (end ≤ length text)
    × (end ≤ start + 1801)
    × ((end ≡ length text) ⊎ (start + 990 ≤ end))

preferred_boundary-EndsWell :
    (input : Text) (start hard_end : ℕ)
    → hard_end ≡ min (length input) (start + 1800)
    → start < length input
    → EndsWell input start (preferred_boundary input start hard_end)
unfolding preferred_boundary
preferred_boundary-EndsWell input start hard_end e l =
    if_intro (EndsWell input start) (leb (length input) hard_end) _ _
      (λ whole. (l, omega arith, ground arith, inl refl))
      (λ cut.
        let inside : hard_end < length input = ground arith in
        let here : hard_end ≡ start + 1800 = omega (arith, e, inside) in
        let (low, high) =
          first_from-bounds (start + 990) (hard_end + 1)
            (last_index_of (units "\n#") input hard_end
              ∷ last_index_of (units "\n\n") input hard_end
              ∷ Option.map (λ index. index + 1) (last_index_of (units ". ") input hard_end)
              ∷ [])
            hard_end
            (
              AtMost-weaken hard_end (hard_end + 1) _ (omega arith)
                  (last_index_of-AtMost (units "\n#") input hard_end),
              (
                AtMost-weaken hard_end (hard_end + 1) _ (omega arith)
                    (last_index_of-AtMost (units "\n\n") input hard_end),
                (AtMost-map hard_end _ (last_index_of-AtMost (units ". ") input hard_end), tt),
              ),
            )
            (omega (arith, here)) (omega arith) in
        (omega (arith, low), omega (arith, high, inside), omega (arith, high, here), inr low))

module _ (make_id : ℕ → Text) (tokenize : Text → List Text) (max_chunks : ℕ) (text : Text) where
  -- A chunk at its offsets, with the slice of the text between them.
  pub record Piece (start index : ℕ) (c : Chunk) : Type 0 where
    pub starts : c.start_offset ≡ start
    pub numbered : c.index ≡ index
    pub identified : c.id ≡ make_id index
    pub sliced : c.text ≡ take (c.end_offset - start) (drop start text)
    pub some_text : start < c.end_offset
    pub within : c.end_offset ≤ length text
    pub short : c.end_offset ≤ start + 1801

  -- The chunks cover the text from `start` on: each follows the last one without a gap, at least 830
  -- characters behind its start, and the last ends with the text.
  abbrev pub Covers : ℕ → ℕ → List Chunk → Type 0
  Covers start index [] = length text ≤ start
  Covers start index (c ∷ cs) =
      Piece start index c
      × (((c.end_offset ≡ length text) × (cs ≡ []))
          ⊎ ((n : ℕ) × (start + 830 ≤ n)
              × (n ≤ c.end_offset)
              × (n < length text)
              × Covers n (suc index) cs))

  chunk_at-Piece :
      (start index : ℕ)
      → start < length text
      → Piece start index (chunk_at make_id tokenize max_chunks text start index)
  unfolding chunk_at chunk_end
  chunk_at-Piece start index l =
      let w = preferred_boundary-EndsWell text start (min (length text) (start + 1800)) refl l in
      record {
        starts = refl;
        numbered = refl;
        identified = refl;
        sliced = refl;
        some_text = w.0;
        within = w.1;
        short = w.2;
      }

  -- What the loop gives: chunks that cover the rest, or the error of too many.
  abbrev Cut : ℕ → ℕ → Chunked → Type 0
  Cut start index (chunks cs) = Covers start index cs
  Cut start index too_many = Unit
  Cut start index unfinished = ⊥

  next_start-bounds :
      (start : ℕ)
      → start < length text
      → chunk_end make_id tokenize max_chunks text start < length text
      → (start + 830 ≤ next_start make_id tokenize max_chunks text start)
        × (next_start make_id tokenize max_chunks text start
            ≤ chunk_end make_id tokenize max_chunks text start)
        × (next_start make_id tokenize max_chunks text start < length text)
  unfolding next_start chunk_end
  next_start-bounds start l short =
      let w = preferred_boundary-EndsWell text start (min (length text) (start + 1800)) refl l in
      elim w.3 [
        | inl all ↦ absurd (omega (arith, all, short))
        | inr far ↦ (omega (arith, far), omega (arith, far), omega (arith, far, short))
      ]

  ends_here :
      (start index : ℕ)
      → leb (length text) (chunk_end make_id tokenize max_chunks text start) ≡ true
      → Piece start index (chunk_at make_id tokenize max_chunks text start index)
      → (chunk_at make_id tokenize max_chunks text start index).end_offset ≡ length text
  unfolding chunk_at
  ends_here start index h p = ground (arith, p.within)

  near_end :
      (start index : ℕ)
      → next_start make_id tokenize max_chunks text start
        ≤ chunk_end make_id tokenize max_chunks text start
      → next_start make_id tokenize max_chunks text start
        ≤ (chunk_at make_id tokenize max_chunks text start index).end_offset
  unfolding chunk_at
  near_end start index h = h

  chunked-cases :
      (r : Chunked)
      → Cut 0 0 r
      → (r ≡ too_many) ⊎ ((cs : List Chunk) × (r ≡ chunks cs) × Covers 0 0 cs)
  chunked-cases (chunks cs) h = inr (cs, refl, h)
  chunked-cases too_many h = inl refl
  chunked-cases unfinished h = absurd h

  with_chunk-Cut :
      (start index n : ℕ) (c : Chunk) (rest : Chunked)
      → Piece start index c
      → start + 830 ≤ n
      → n ≤ c.end_offset
      → n < length text
      → Cut n (suc index) rest
      → Cut start index (with_chunk c rest)
  with_chunk-Cut start index n c (chunks cs) p far near inside h =
      (p, inr (n, far, near, inside, h))
  with_chunk-Cut start index n c too_many p far near inside h = tt
  with_chunk-Cut start index n c unfinished p far near inside h = h

  chunk_from-Cut :
      (fuel start index : ℕ)
      → length text < fuel + start
      → start ≤ length text
      → Cut start index (chunk_from make_id tokenize max_chunks text fuel start index)
  unfolding chunk_from
  chunk_from-Cut zero start index f l = absurd (omega arith)
  chunk_from-Cut (suc fuel) start index f l =
      if_intro (Cut start index) (leb (length text) start) _ _
        (λ over. le_of_test (length text) start over)
        (λ more.
          let inside : start < length text = ground arith in
          let p = chunk_at-Piece start index inside in
          if_intro (Cut start index) (leb max_chunks index) _ _ (λ _. tt)
            (λ _.
              if_intro (Cut start index)
                (leb (length text) (chunk_end make_id tokenize max_chunks text start)) _ _
                (λ last. (p, inl (ends_here start index last p, refl)))
                (λ goes_on.
                  let n = next_start make_id tokenize max_chunks text start in
                  let (far, near, below) = next_start-bounds start inside (ground arith) in
                  with_chunk-Cut start index n
                    (chunk_at make_id tokenize max_chunks text start index)
                    (chunk_from make_id tokenize max_chunks text fuel n (suc index)) p far
                    (near_end start index near) below
                    (chunk_from-Cut fuel n (suc index) (omega (arith, far))
                      (omega (arith, below))))))

  -- The fuel of the length of the text and one more is enough: the loop ends, with the error of too
  -- many chunks, or with chunks in order that cover the text without a gap, each at least 830
  -- characters behind the start of the last one, at most 1,801 characters long, and equal to the slice
  -- of the text between its offsets.
  pub create_chunks-Covers :
      (create_chunks make_id tokenize max_chunks text ≡ too_many)
      ⊎ ((cs : List Chunk) × (create_chunks make_id tokenize max_chunks text ≡ chunks cs)
          × Covers 0 0 cs)
  unfolding create_chunks
  create_chunks-Covers =
      chunked-cases _ (chunk_from-Cut (length text + 1) 0 0 (omega arith) (omega arith))
