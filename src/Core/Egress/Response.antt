-- ===== src/Core/Egress/Response.antt =====
-- The answer of the transport in packages/core/src/egress.ts: `readBoundedBody`, `readHeader`, and
-- what `sendApproved` makes of the answer. `lower` and `trim` stand for the string methods, `decode`
-- for `TextDecoder`, which may throw, and `parse` for `JSON.parse` with the schema of a response.
pub mod Bounded
use browser_cortex.Common.{
  ℕ, ◌+◌, ◌≡◌, Bool, true, false, not, ◌&&◌, Option, none, some, List, [], ◌∷◌, ◌++◌, Text, units,
  ◌===◌, same_option, length, if◌then◌else◌, leb, ltb, ◌==◌,
}
use mathlib.Core.Option
use browser_cortex.Contracts.Errors.{
  ErrorCode, Result, ok, err, guard, ◌>>=◌, ◌>>◌, response_rejected, transport_failed, cancelled,
  timeout,
}
use browser_cortex.Contracts.Schemas.{utf8_byte_length}

-- A chunk of a streamed body, and whether the signal is aborted when it arrives; `none` is a chunk
-- that is no `Uint8Array`.
pub record Chunk : Type 0 where
  pub aborted : Bool
  pub bytes : Option (List ℕ)

pub data Body : Type 0 where
  plain : Text → Body
  whole : List ℕ → Body
  streamed : List Chunk → Body

-- interface OnlineTransportResponse
pub record Response : Type 0 where
  pub status : ℕ
  pub headers : List (Text × Text)
  pub body : Body
  pub final_url : Text

-- How the race between the work and the abort ends.
pub data Ending : Type 0 where
  answered : Response → Ending
  threw : Option ErrorCode → Ending
  timed_out aborted : Ending

-- One round of the loop over the chunks, with the bytes so far.
unfoldable pub collect_chunk : ℕ → List ℕ → Option (List ℕ) → Result (List ℕ)
collect_chunk maximum so_far none = err response_rejected
collect_chunk maximum so_far (some bytes) =
    if ltb maximum (length (so_far ++ bytes)) then err response_rejected else ok (so_far ++ bytes)

unfoldable pub collect_chunks : ℕ → List ℕ → List Chunk → Result (List ℕ)
unfolding collect_chunk
collect_chunks maximum so_far [] = ok so_far
collect_chunks maximum so_far (c ∷ chunks) = do
  guard (not c.aborted) cancelled
  bytes ← collect_chunk maximum so_far c.bytes
  collect_chunks maximum bytes chunks

unfoldable pub decoded : Option Text → Result Text
decoded none = err response_rejected
decoded (some text) = ok text

unfoldable pub read_bounded_body : (List ℕ → Option Text) → ℕ → Body → Result Text
unfolding collect_chunks decoded
read_bounded_body decode maximum (plain text) =
    if ltb maximum (utf8_byte_length text) then err response_rejected else ok text
read_bounded_body decode maximum (whole bytes) =
    if ltb maximum (length bytes) then err response_rejected else decoded (decode bytes)
read_bounded_body decode maximum (streamed chunks) = do
  bytes ← collect_chunks maximum [] chunks
  decoded (decode bytes)

unfoldable pub read_header : (Text → Text) → List (Text × Text) → Text → Option Text
read_header lower [] name = none
read_header lower ((key, value) ∷ headers) name =
    if lower key === lower name then some value else read_header lower headers name

-- `text.split(';', 1)[0]`
unfoldable pub before_semicolon : Text → Text
before_semicolon [] = []
before_semicolon (c ∷ text) = if c == b';' then [] else c ∷ before_semicolon text

module _ {Reply : Type 0} (lower trim : Text → Text) (decode : List ℕ → Option Text)
    (parse : Text → Result Reply) where
  unfoldable pub content_type : Response → Option Text
  unfolding read_header before_semicolon
  content_type r =
      Option.map (λ value. lower (trim (before_semicolon value)))
        (read_header lower r.headers (units "content-type"))

  -- `work` behind the transport, for the endpoint that was called.
  unfoldable pub receive : Text → ℕ → Response → Result Reply
  unfolding content_type read_bounded_body
  receive endpoint maximum r = do
    guard (r.final_url === endpoint) response_rejected
    guard (leb 200 r.status && ltb r.status 300) transport_failed
    guard (same_option (content_type r) (some (units "application/json"))) response_rejected
    body ← read_bounded_body decode maximum r.body
    parse body

  -- What `sendApproved` returns, or throws, when the race has ended.
  unfoldable pub conclude : Text → ℕ → Ending → Result Reply
  unfolding receive
  conclude endpoint maximum timed_out = err timeout
  conclude endpoint maximum aborted = err cancelled
  conclude endpoint maximum (threw code) = err (Option.get_or code transport_failed)
  conclude endpoint maximum (answered r) = receive endpoint maximum r
