-- ===== src/Core/Context/Tests.antt =====
-- Runs of context.ts.
use browser_cortex.Contracts.Schemas.{is_bounded_text, is_identifier}
use browser_cortex.Common.{
  ◌≡◌, refl, true, false, not, none, some, List, [], ◌∷◌, Text, units, bounded_positive, includes,
  ◌===◌,
}
use browser_cortex.Contracts.Errors.{ok, err, permission_denied}
use browser_cortex.Core.Router.{summarize, ask, parse_task_request, has_request_shape}
use browser_cortex.Core.Context.{
  retrieved_source, user_input, internal, public, Segment, SegmentInput, TaskContext, AssembleInput,
  create_context_segment, assemble_task_context, is_untrusted_label, has_segment_shape,
}
use browser_cortex.Core.Context.Assembled.{
  IsAssembled, assemble_task_context-IsAssembled, create_context_segment-trusted,
}

abbrev asks : SegmentInput
asks = record {
  id = units "q";
  label = user_input;
  content = units "What is new?";
  sensitivity = internal;
  source = none;
}

abbrev question : Segment
question = record {
  schema_version = 1;
  id = units "q";
  label = user_input;
  content = units "What is new?";
  sensitivity = internal;
  source = none;
  trusted_instructions = true;
}

abbrev note : Text → Segment
note document_id = record {
  schema_version = 1;
  id = units "n";
  label = retrieved_source;
  content = units "A note.";
  sensitivity = public;
  source = some (record {
    document_id = document_id;
    revision = units "1";
    chunk_id = units "c";
    start_offset = 0;
    end_offset = 7;
  });
  trusted_instructions = false;
}

abbrev input : List Segment → AssembleInput
input segments = record {
  request = record {
    schema_version = 1;
    request_id = units "r1";
    task = summarize;
    input = units "Summarize.";
    source_ids = units "d1" ∷ [];
    workspace_id = units "w";
    online_policy = ask;
    output_schema_id = none;
  };
  segments = segments;
  allowed_tool_names = none;
  sensitivity = internal;
  time_budget_ms = none;
}

abbrev context : TaskContext
context = record {
  request_id = units "r1";
  workspace_id = units "w";
  goal = units "Summarize.";
  segments = question ∷ note (units "d1") ∷ [];
  allowed_tool_names = [];
  sensitivity = internal;
  online_policy = ask;
  time_budget_ms = 120000;
}

create_test : create_context_segment asks ≡ ok question
unfolding create_context_segment has_segment_shape is_identifier
create_test = refl

assemble_test : assemble_task_context (input (question ∷ note (units "d1") ∷ [])) ≡ ok context
unfolding assemble_task_context parse_task_request has_request_shape is_identifier is_bounded_text
    has_segment_shape includes ◌===◌ bounded_positive
assemble_test = refl

foreign_test : assemble_task_context (input (note (units "d2") ∷ [])) ≡ err permission_denied
unfolding assemble_task_context parse_task_request has_request_shape is_identifier is_bounded_text
    has_segment_shape includes ◌===◌
foreign_test = refl

assemble_task_context-IsAssembled_example :
    IsAssembled (input (question ∷ note (units "d1") ∷ [])) context
assemble_task_context-IsAssembled_example =
    assemble_task_context-IsAssembled (input (question ∷ note (units "d1") ∷ [])) context
      assemble_test

create_context_segment-trusted_example :
    (question.label ≡ asks.label)
    × (question.content ≡ asks.content)
    × (question.trusted_instructions ≡ not (is_untrusted_label question.label))
create_context_segment-trusted_example = create_context_segment-trusted asks question create_test
