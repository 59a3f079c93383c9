-- ===== src/Bridge/Messages.antt =====
-- packages/bridge/src/messages.ts: the schemas of the messages of a page, the search for claims of
-- authority in a payload, and `parseBridgeMessage`; JsonValueSchema of packages/contracts/src/
-- schemas.ts. The parameter `lower` stands for the platform's `toLocaleLowerCase('en-US')`. The
-- parsed message is the value itself: what zod copies differs in the order of keys at most.
pub mod Unclaimed
mod Tests
use mathlib.Core.Option
use browser_cortex.Common.{
  ℕ, suc, Bool, true, false, not, ◌&&◌, ◌||◌, Option, none, some, List, [], ◌∷◌, ◌++◌, Text, ◌===◌,
  units, includes, starts_with, length, every, drop, leb, ltb, ◌==◌, if◌then◌else◌,
}
use browser_cortex.Contracts.Limits
use browser_cortex.Contracts.Errors.{
  ErrorCode, Result, ok, err, guard, ◌>>=◌, ◌>>◌, invalid_input, permission_denied,
  payload_too_large, invalid_schema_version,
}
use browser_cortex.Contracts.Schemas.{is_identifier, is_alphanumeric, is_hex, is_bounded_text}
use browser_cortex.Bridge.Sessions.Create.{is_tool_version}
use browser_cortex.Contracts.Json
use browser_cortex.Contracts.Json.Shapes.{is_text, is_object, is_array, has, may_have, has_only}
use browser_cortex.Contracts.Json.{
  Double, whole, JsonValue, null, undefined, boolean, number, string, array, object, Items,
  no_items, item, Fields, no_fields, field, keys, item_count, every_item, forbidden_keys,
  default_limits, is_finite, assert_json_value, canonicalize,
}

-- SessionIdSchema
unfoldable pub is_session_id : Text → Bool
unfolding starts_with is_hex
is_session_id t = starts_with t (units "ses_") && length t == 68 && every is_hex (drop 4 t)

-- JsonValueSchema of schemas.ts.
unfoldable mutual
  unfolding is_finite item_count includes

  pub is_json_value : JsonValue → Bool
  is_json_value null = true
  is_json_value undefined = false
  is_json_value (boolean b) = true
  is_json_value (number n) = is_finite n
  is_json_value (string s) = leb (length s) Limits.json_string_characters
  is_json_value (array xs) = leb (item_count xs) Limits.json_entries && are_json_values xs
  is_json_value (object fs) = are_json_fields fs

  pub are_json_values : Items → Bool
  are_json_values no_items = true
  are_json_values (item v xs) = is_json_value v && are_json_values xs

  pub are_json_fields : Fields → Bool
  are_json_fields no_fields = true
  are_json_fields (field key v fs) =
      leb (length key) Limits.identifier_characters
      && not (includes forbidden_keys key)
      && is_json_value v
      && are_json_fields fs

-- SourceIdsSchema
unfoldable pub are_distinct_texts : List Text → Bool
unfolding includes
are_distinct_texts [] = true
are_distinct_texts (t ∷ ts) = not (includes ts t) && are_distinct_texts ts

unfoldable pub texts_of : Items → List Text
texts_of no_items = []
texts_of (item (string s) xs) = s ∷ texts_of xs
texts_of (item v xs) = texts_of xs

unfoldable pub are_source_ids : Items → Bool
unfolding item_count every_item is_text is_identifier texts_of are_distinct_texts
are_source_ids xs =
    leb 1 (item_count xs)
    && leb (item_count xs) Limits.source_ids
    && every_item (is_text is_identifier) xs
    && are_distinct_texts (texts_of xs)

-- ParameterObjectSchema
unfoldable pub every_value : (JsonValue → Bool) → Fields → Bool
every_value test no_fields = true
every_value test (field key v fs) = test v && every_value test fs

unfoldable pub are_parameters : Fields → Bool
unfolding is_bounded_text is_json_value keys every_value
are_parameters fs =
    every (is_bounded_text Limits.identifier_characters) (keys fs) && every_value is_json_value fs

-- PageToolDescriptionSchema
abbrev tool_keys : List Text
tool_keys =
    units "name"
    ∷ units "version"
    ∷ units "description"
    ∷ units "inputSchema"
    ∷ units "outputSchema"
    ∷ units "claimedEffect"
    ∷ []

abbrev pub is_effect : Text → Bool
is_effect t = t === units "read" || t === units "local-write" || t === units "external-write"

unfoldable pub is_tool_description : Fields → Bool
unfolding has_only has may_have is_text is_identifier is_tool_version is_bounded_text is_json_value
    ◌===◌
is_tool_description fs =
    has_only tool_keys fs
    && has (units "name") (is_text is_identifier) fs
    && has (units "version") (is_text is_tool_version) fs
    && has (units "description") (is_text (is_bounded_text 1024)) fs
    && has (units "inputSchema") is_json_value fs
    && has (units "outputSchema") is_json_value fs
    && may_have (units "claimedEffect") (is_text is_effect) fs

-- `${tool.name}\u0000${tool.version}`
unfoldable pub text_at : Text → Fields → Text
text_at key fs = elim (Json.get key fs) [ some (string s) ↦ s | _ ↦ [] ]

unfoldable pub tool_names : Items → List Text
unfolding text_at
tool_names no_items = []
tool_names (item (object fs) xs) =
    (text_at (units "name") fs ++ 0 ∷ text_at (units "version") fs) ∷ tool_names xs
tool_names (item v xs) = tool_names xs

unfoldable pub are_tools : Items → Bool
unfolding item_count every_item is_object is_tool_description tool_names are_distinct_texts
are_tools xs =
    leb 1 (item_count xs)
    && leb (item_count xs) 32
    && every_item (is_object is_tool_description) xs
    && are_distinct_texts (tool_names xs)

-- z.number().int().positive().max(limit)
unfoldable pub is_positive : ℕ → JsonValue → Bool
is_positive limit (number (whole n)) = ltb 0 n && leb n limit
is_positive limit _ = false

-- The payload of each message type.
unfoldable pub is_capture : Fields → Bool
unfolding has_only has is_text is_bounded_text
is_capture fs =
    has_only (units "selectedText" ∷ []) fs
    && has (units "selectedText") (is_text (is_bounded_text Limits.selected_page_characters)) fs

unfoldable pub is_description : Fields → Bool
unfolding has_only has is_array are_tools
is_description fs = has_only (units "tools" ∷ []) fs && has (units "tools") (is_array are_tools) fs

unfoldable pub is_search : Fields → Bool
unfolding has_only has is_text is_identifier is_array are_source_ids is_bounded_text is_positive
is_search fs =
    has_only (units "workspaceId" ∷ units "sourceIds" ∷ units "query" ∷ units "limit" ∷ []) fs
    && has (units "workspaceId") (is_text is_identifier) fs
    && has (units "sourceIds") (is_array are_source_ids) fs
    && has (units "query") (is_text (is_bounded_text Limits.task_instruction_characters)) fs
    && has (units "limit") (is_positive 100) fs

unfoldable pub is_preview : Fields → Bool
unfolding has_only has is_text is_identifier is_tool_version is_object are_parameters
is_preview fs =
    has_only (units "toolName" ∷ units "toolVersion" ∷ units "parameters" ∷ []) fs
    && has (units "toolName") (is_text is_identifier) fs
    && has (units "toolVersion") (is_text is_tool_version) fs
    && has (units "parameters") (is_object are_parameters) fs

unfoldable pub is_cancellation : Fields → Bool
unfolding has_only has is_text is_identifier
is_cancellation fs =
    has_only (units "targetRequestId" ∷ []) fs
    && has (units "targetRequestId") (is_text is_identifier) fs

-- BridgeMessageSchema: the message type picks the schema of the payload.
unfoldable pub payload_test : Text → Fields → Bool
unfolding is_capture is_description is_search is_preview is_cancellation ◌===◌
payload_test message_type fs =
    if message_type === units "page.capture-selection"
    then is_capture fs
    else if message_type === units "page.describe-tools"
    then is_description fs
    else if message_type === units "page.request-source-search"
    then is_search fs
    else if message_type === units "page.request-action-preview"
    then is_preview fs
    else message_type === units "bridge.cancel" && is_cancellation fs

abbrev envelope_keys : List Text
envelope_keys =
    units "schemaVersion"
    ∷ units "requestId"
    ∷ units "sessionId"
    ∷ units "documentId"
    ∷ units "messageType"
    ∷ units "payload"
    ∷ []

abbrev pub is_version_one : JsonValue → Bool
is_version_one (number (whole n)) = n == 1
is_version_one _ = false

unfoldable pub is_message : Fields → Bool
unfolding has_only has is_text is_identifier is_session_id is_object payload_test text_at
is_message fs =
    has_only envelope_keys fs
    && has (units "schemaVersion") is_version_one fs
    && has (units "requestId") (is_text is_identifier) fs
    && has (units "sessionId") (is_text is_session_id) fs
    && has (units "documentId") (is_text is_identifier) fs
    && has (units "messageType") (is_text (λ t. true)) fs
    && has (units "payload") (is_object (payload_test (text_at (units "messageType") fs))) fs

-- parseVersioned: the code that an input which the schema refuses is rejected with.
unfoldable pub is_other_version : JsonValue → Bool
is_other_version (object fs) = elim (Json.get (units "schemaVersion") fs) [
  | none ↦ false
  | some undefined ↦ false
  | some v ↦ not (is_version_one v)
]
is_other_version _ = false

unfoldable pub parse_versioned : (JsonValue → Bool) → JsonValue → Result JsonValue
unfolding is_other_version
parse_versioned schema input =
    if schema input
    then ok input
    else if is_other_version input
    then err invalid_schema_version
    else err invalid_input

-- AUTHORITY_KEYS
abbrev pub authority_keys : List Text
authority_keys =
    units "approved"
    ∷ units "approval"
    ∷ units "approvalhandle"
    ∷ units "grant"
    ∷ units "grants"
    ∷ units "capabilitygrant"
    ∷ units "istrusted"
    ∷ units "onlinepolicy"
    ∷ units "permissiongranted"
    ∷ units "trustedinstructions"
    ∷ []

-- `key.replace(/[-_]/gu, '')`
unfoldable pub without_separators : Text → Text
without_separators [] = []
without_separators (c ∷ t) =
    let rest = without_separators t in if c == b'-' || c == b'_' then rest else c ∷ rest

-- `input.payload`, when `'payload' in input`. An array has no such key.
unfoldable pub payload_of : JsonValue → Option JsonValue
payload_of (object fs) = Json.get (units "payload") fs
payload_of _ = none

-- The canonical form of the message within the bytes of an extension message.
abbrev pub message_limits : Json.CanonicalizeLimits
message_limits = record default_limits { max_bytes = Limits.extension_message_bytes }

abbrev pub sized : Option Text → JsonValue → Result JsonValue
sized none message = err payload_too_large
sized (some text) message = ok message

unfoldable pub check_size : JsonValue → Result JsonValue
unfolding canonicalize
check_size message = sized (canonicalize message_limits message) message

-- A payload that is no JSON is invalid, and one that claims authority is denied.
abbrev pub checked : Option (Unit {0}) → Bool → Result (Unit {0})
checked none claims = err invalid_input
checked (some _) claims = guard (not claims) permission_denied

module _ (lower : Text → Text) where
  unfoldable pub is_authority_key : Text → Bool
  unfolding without_separators includes
  is_authority_key key = includes authority_keys (lower (without_separators key))

  unfoldable mutual
    unfolding is_authority_key

    pub contains_authority_claim : JsonValue → ℕ → Bool
    contains_authority_claim (array xs) depth =
        leb depth Limits.json_depth && claims_in_items xs (suc depth)
    contains_authority_claim (object fs) depth =
        leb depth Limits.json_depth && claims_in_fields fs (suc depth)
    contains_authority_claim _ depth = false

    pub claims_in_items : Items → ℕ → Bool
    claims_in_items no_items depth = false
    claims_in_items (item v xs) depth = contains_authority_claim v depth || claims_in_items xs depth

    pub claims_in_fields : Fields → ℕ → Bool
    claims_in_fields no_fields depth = false
    claims_in_fields (field key v fs) depth =
        is_authority_key key || contains_authority_claim v depth || claims_in_fields fs depth

  -- The checks of the payload before the schema.
  unfoldable pub check_payload : Option JsonValue → Result (Unit {0})
  unfolding contains_authority_claim assert_json_value
  check_payload none = ok tt
  check_payload (some payload) =
      checked (assert_json_value default_limits payload) (contains_authority_claim payload 0)

  unfoldable pub parse_bridge_message : JsonValue → Result JsonValue
  unfolding payload_of check_payload parse_versioned check_size is_object is_message
  parse_bridge_message input = do
    check_payload (payload_of input)
    message ← parse_versioned (is_object is_message) input
    check_size message
