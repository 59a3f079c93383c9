-- ===== src/Memory/Ingest/Tests.antt =====
-- Runs of ingest.ts at concrete texts.
use browser_cortex.Common.{ℕ, ◌≡◌, ◌⊎◌, refl, List, [], ◌∷◌, Text, units}
use browser_cortex.Memory.Ingest.{Chunk, chunks, too_many, create_chunks}
use browser_cortex.Memory.Ingest.Chunks.{Covers, create_chunks-Covers}

abbrev name_chunk : ℕ → Text
name_chunk index = index ∷ []

abbrev one_term : Text → List Text
one_term t = t ∷ []

whole_text :
    create_chunks name_chunk one_term 8 (units "short")
    ≡ chunks (
        record {
          id = 0 ∷ [];
          index = 0;
          text = units "short";
          start_offset = 0;
          end_offset = 5;
          token_terms = units "short" ∷ [];
        }
        ∷ [])
unfolding create_chunks
whole_text = refl

no_room : create_chunks name_chunk one_term 0 (units "short") ≡ too_many
unfolding create_chunks
no_room = refl

create_chunks-Covers_example :
    (create_chunks name_chunk one_term 8 (units "short") ≡ too_many)
    ⊎ ((cs : List Chunk) × (create_chunks name_chunk one_term 8 (units "short") ≡ chunks cs)
        × Covers name_chunk one_term 8 (units "short") 0 0 cs)
create_chunks-Covers_example = create_chunks-Covers name_chunk one_term 8 (units "short")
