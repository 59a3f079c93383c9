-- ===== src/Memory/Ingest.antt =====
-- packages/memory/src/ingest.ts: `preferredBoundary` and `createChunks`. The fields that every chunk
-- copies from the arguments are not modelled. `make_id` gives the identifier of the chunk at an index,
-- and the parameter `tokenize` stands for the search terms that the platform's Unicode classes give.
pub mod Chunks
mod Tests
use mathlib.Core.Option
use browser_cortex.Common.{
  ℕ, zero, suc, ◌+◌, ◌-◌, max, min, Option, none, some, List, [], ◌∷◌, Text, units, starts_with,
  length, drop, take, leb, if◌then◌else◌,
}

-- DEFAULT_CHUNK_CHARACTERS, and `Math.floor(DEFAULT_CHUNK_CHARACTERS * 0.55)`
abbrev pub chunk_characters : ℕ
chunk_characters = 1800

abbrev pub minimum_characters : ℕ
minimum_characters = 990

abbrev pub overlap_characters : ℕ
overlap_characters = 160

-- `input.lastIndexOf(pattern, from)`; `none` is -1.
unfoldable pub last_index_of : Text → Text → ℕ → Option ℕ
unfolding starts_with
last_index_of pattern input zero = if starts_with input pattern then some 0 else none
last_index_of pattern input (suc n) =
    let before = last_index_of pattern input n in
    if starts_with (drop (suc n) input) pattern then some (suc n) else before

-- `candidates.find((candidate) => candidate >= minimum) ?? otherwise`
unfoldable pub first_from : ℕ → List (Option ℕ) → ℕ → ℕ
first_from minimum [] otherwise = otherwise
first_from minimum (none ∷ candidates) otherwise = first_from minimum candidates otherwise
first_from minimum (some candidate ∷ candidates) otherwise =
    let rest = first_from minimum candidates otherwise in
    if leb minimum candidate then candidate else rest

-- A sentence that is not found gives 0, which is below every minimum.
unfoldable pub preferred_boundary : Text → ℕ → ℕ → ℕ
unfolding last_index_of first_from
preferred_boundary input start hard_end =
    if leb (length input) hard_end
    then length input
    else first_from (start + minimum_characters)
        (last_index_of (units "\n#") input hard_end
          ∷ last_index_of (units "\n\n") input hard_end
          ∷ Option.map (λ index. index + 1) (last_index_of (units ". ") input hard_end)
          ∷ [])
        hard_end

-- ChunkRecord
pub record Chunk : Type 0 where
  pub id : Text
  pub index : ℕ
  pub text : Text
  pub start_offset : ℕ
  pub end_offset : ℕ
  pub token_terms : List Text

-- The chunks, the error of too many of them, or a loop that has not ended within the fuel.
pub data Chunked : Type 0 where
  chunks : List Chunk → Chunked
  too_many : Chunked
  unfinished : Chunked

abbrev pub with_chunk : Chunk → Chunked → Chunked
with_chunk c (chunks cs) = chunks (c ∷ cs)
with_chunk c too_many = too_many
with_chunk c unfinished = unfinished

module _ (make_id : ℕ → Text) (tokenize : Text → List Text) (max_chunks : ℕ) (text : Text) where
  -- `Math.min(args.text.length, start + DEFAULT_CHUNK_CHARACTERS)`, and the end of the chunk there.
  unfoldable pub chunk_end : ℕ → ℕ
  unfolding preferred_boundary
  chunk_end start = preferred_boundary text start (min (length text) (start + chunk_characters))

  unfoldable pub chunk_at : ℕ → ℕ → Chunk
  unfolding chunk_end
  chunk_at start index = record {
    id = make_id index;
    index = index;
    text = take (chunk_end start - start) (drop start text);
    start_offset = start;
    end_offset = chunk_end start;
    token_terms = tokenize (take (chunk_end start - start) (drop start text));
  }

  -- `Math.max(start + 1, end - CHUNK_OVERLAP_CHARACTERS)`; a difference below 0 is below `start + 1`.
  unfoldable pub next_start : ℕ → ℕ
  unfolding chunk_end
  next_start start = max (start + 1) (chunk_end start - overlap_characters)

  -- The loop of `createChunks`, where `index` is `chunks.length`.
  unfoldable pub chunk_from : ℕ → ℕ → ℕ → Chunked
  unfolding chunk_at next_start
  chunk_from zero start index = unfinished
  chunk_from (suc fuel) start index =
      let rest = chunk_from fuel (next_start start) (suc index) in
      if leb (length text) start
      then chunks []
      else if leb max_chunks index
      then too_many
      else if leb (length text) (chunk_end start)
      then chunks (chunk_at start index ∷ [])
      else with_chunk (chunk_at start index) rest

  unfoldable pub create_chunks : Chunked
  unfolding chunk_from
  create_chunks = chunk_from (length text + 1) 0 0
