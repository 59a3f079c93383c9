-- ===== src/Contracts/Limits.antt =====
-- packages/contracts/src/limits.ts: the members of `LIMITS` that the modelled packages read.
use browser_cortex.Common.{ℕ}

abbrev pub identifier_characters : ℕ
identifier_characters = 128

abbrev pub source_ids : ℕ
source_ids = 128

abbrev pub extension_message_bytes : ℕ
extension_message_bytes = 65536

abbrev pub json_string_characters : ℕ
json_string_characters = 1048576

abbrev pub generated_output_bytes : ℕ
generated_output_bytes = 1048576

abbrev pub approval_lifetime_ms : ℕ
approval_lifetime_ms = 300000

abbrev pub session_inactivity_ms : ℕ
session_inactivity_ms = 1800000

abbrev pub approval_uses : ℕ
approval_uses = 32

abbrev pub bridge_session_requests : ℕ
bridge_session_requests = 1000

abbrev pub task_instruction_characters : ℕ
task_instruction_characters = 24000

abbrev pub policy_version_characters : ℕ
policy_version_characters = 128

abbrev pub context_segments : ℕ
context_segments = 128

abbrev pub context_segment_characters : ℕ
context_segment_characters = 24000

abbrev pub source_references : ℕ
source_references = 256

abbrev pub model_label_characters : ℕ
model_label_characters = 256

abbrev pub endpoint_characters : ℕ
endpoint_characters = 2048

abbrev pub canonical_bytes : ℕ
canonical_bytes = 2097152

abbrev pub json_depth : ℕ
json_depth = 32

abbrev pub json_entries : ℕ
json_entries = 10000

abbrev pub selected_page_characters : ℕ
selected_page_characters = 16000
