-- ===== src/Core/Context.antt =====
-- packages/core/src/context.ts: the segments of a task's context, with the schemas of a segment, a
-- source reference and a task context from packages/contracts/src/schemas.ts. An offset is a natural
-- number; one that is none is refused by the schema and is not represented.
pub mod Assembled
mod Tests
use browser_cortex.Common.{
  ℕ, ◌+◌, ◌*◌, ◌≡◌, Bool, true, false, not, ◌&&◌, ◌||◌, Option, none, some, List, [], ◌∷◌, Text,
  Number, nat, length, every, includes, if◌then◌else◌, leb, ltb, ◌==◌, bounded_positive,
  max_safe_integer,
}
use browser_cortex.Contracts.Limits
use browser_cortex.Contracts.Errors.{
  Result, ok, err, guard, ◌>>=◌, ◌>>◌, invalid_input, invalid_schema_version, payload_too_large,
  permission_denied,
}
use browser_cortex.Contracts.Schemas.{is_identifier, is_bounded_text}
use browser_cortex.Core.Router.{TaskRequest, OnlinePolicy, parse_task_request}
use mathlib.Core.Option

-- ProvenanceLabelSchema
pub data Label : Type 0 where
  user_input trusted_application_state selected_page_content retrieved_source tool_output : Label

-- SensitivitySchema
pub data Sensitivity : Type 0 where
  public internal sensitive restricted : Sensitivity

-- SourceReference
pub record SourceReference : Type 0 where
  pub document_id : Text
  pub revision : Text
  pub chunk_id : Text
  pub start_offset : ℕ
  pub end_offset : ℕ

-- ContextSegment
pub record Segment : Type 0 where
  pub schema_version : ℕ
  pub id : Text
  pub label : Label
  pub content : Text
  pub sensitivity : Sensitivity
  pub source : Option SourceReference
  pub trusted_instructions : Bool

-- interface ContextSegmentInput
pub record SegmentInput : Type 0 where
  pub id : Text
  pub label : Label
  pub content : Text
  pub sensitivity : Sensitivity
  pub source : Option SourceReference

-- TaskContext
pub record TaskContext : Type 0 where
  pub request_id : Text
  pub workspace_id : Text
  pub goal : Text
  pub segments : List Segment
  pub allowed_tool_names : List Text
  pub sensitivity : Sensitivity
  pub online_policy : OnlinePolicy
  pub time_budget_ms : ℕ

-- interface AssembleTaskContextInput
pub record AssembleInput : Type 0 where
  pub request : TaskRequest
  pub segments : List Segment
  pub allowed_tool_names : Option (List Text)
  pub sensitivity : Sensitivity
  pub time_budget_ms : Option Number

-- SourceReferenceSchema
pub is_source_reference : SourceReference → Bool
is_source_reference r =
    is_identifier r.document_id
    && is_bounded_text 256 r.revision
    && is_identifier r.chunk_id
    && leb r.end_offset max_safe_integer
    && leb r.start_offset r.end_offset

pub has_source_shape : Option SourceReference → Bool
unfolding is_source_reference
has_source_shape none = true
has_source_shape (some r) = is_source_reference r

-- ContextSegmentSchema, but for the literal of `schemaVersion`.
pub has_segment_shape : Segment → Bool
unfolding has_source_shape
has_segment_shape s =
    is_identifier s.id
    && leb (length s.content) Limits.context_segment_characters
    && has_source_shape s.source

-- `parseVersioned(ContextSegmentSchema, segment)`
pub parse_segment : Segment → Result Segment
parse_segment s =
    if s.schema_version == 1
    then (if has_segment_shape s then ok s else err invalid_input)
    else err invalid_schema_version

pub is_trusted_label : Label → Bool
is_trusted_label user_input = true
is_trusted_label trusted_application_state = true
is_trusted_label _ = false

pub create_context_segment : SegmentInput → Result Segment
unfolding is_trusted_label parse_segment
create_context_segment input = parse_segment (record {
  schema_version = 1;
  id = input.id;
  label = input.label;
  content = input.content;
  sensitivity = input.sensitivity;
  source = input.source;
  trusted_instructions = is_trusted_label input.label;
})

pub parse_segments : List Segment → Result (List Segment)
unfolding parse_segment
parse_segments [] = ok []
parse_segments (s ∷ segments) = do
  parsed ← parse_segment s
  rest ← parse_segments segments
  ok (parsed ∷ rest)

-- A retrieved source outside of those that the request names.
pub is_foreign : List Text → Label → Option SourceReference → Bool
is_foreign allowed retrieved_source (some r) = not (includes allowed r.document_id)
is_foreign allowed _ _ = false

pub is_untrusted_label : Label → Bool
is_untrusted_label selected_page_content = true
is_untrusted_label retrieved_source = true
is_untrusted_label tool_output = true
is_untrusted_label _ = false

-- LIMITS.contextSegments * LIMITS.contextSegmentCharacters
abbrev pub total_limit : ℕ
total_limit = Limits.context_segments * Limits.context_segment_characters

-- The loop of `assembleTaskContext`, with `totalCharacters`.
pub check_segments : List Text → ℕ → List Segment → Result (Unit {0})
unfolding is_foreign is_untrusted_label
check_segments allowed total [] = ok tt
check_segments allowed total (s ∷ segments) = do
  guard (leb (total + length s.content) total_limit) payload_too_large
  guard (not (is_foreign allowed s.label s.source)) permission_denied
  guard (not (is_untrusted_label s.label && s.trusted_instructions)) invalid_input
  check_segments allowed (total + length s.content) segments

-- TaskContextSchema: what the request and the segments leave open; `none` is a time budget that the
-- schema refuses.
pub parse_context :
    TaskRequest → List Segment → List Text → Sensitivity → Option ℕ → Result TaskContext
parse_context request segments names sensitivity none = err invalid_input
parse_context request segments names sensitivity (some time_budget_ms) =
    if leb (length segments) Limits.context_segments
      && leb (length names) 128
      && every is_identifier names
    then ok (record {
      request_id = request.request_id;
      workspace_id = request.workspace_id;
      goal = request.input;
      segments = segments;
      allowed_tool_names = names;
      sensitivity = sensitivity;
      online_policy = request.online_policy;
      time_budget_ms = time_budget_ms;
    })
    else err invalid_input

pub assemble_task_context : AssembleInput → Result TaskContext
unfolding parse_segments check_segments parse_context
assemble_task_context input = do
  request ← parse_task_request input.request
  segments ← parse_segments input.segments
  check_segments request.source_ids 0 segments
  parse_context request segments (Option.get_or input.allowed_tool_names []) input.sensitivity
      (bounded_positive 120000 (Option.get_or input.time_budget_ms (nat 120000)))
