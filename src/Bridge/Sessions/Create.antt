-- ===== src/Bridge/Sessions/Create.antt =====
-- `create` of sessions.ts: the checks of its input, and the session that it stores.
use mathlib.Core.Option
use browser_cortex.Common.{
  ℕ, Bool, true, false, not, ◌&&◌, ◌||◌, Option, none, some, List, [], ◌∷◌, Text, Number, nat,
  includes, length, every, leb, ltb, ◌==◌, if◌then◌else◌, safe_natural, bounded_positive,
}
use browser_cortex.Common.Map
use browser_cortex.Common.Map.{Map}
use browser_cortex.Contracts.Limits
use browser_cortex.Contracts.Errors.{Result, ok, err, guard, ◌>>=◌, ◌>>◌, invalid_input}
use browser_cortex.Contracts.Schemas.{is_identifier, is_alphanumeric}
use browser_cortex.Bridge.Sessions.{
  MessageType, source_search, describe_tools, action_preview, has_type, Sender, Url, SearchScope,
  ToolScope, Session, Registry, validate_sender, normalized_origin, tool_key,
}

-- SourceSearchSessionScopeInput
pub record SearchInput : Type 0 where
  pub workspace_id : Text
  pub allowed_source_ids : List Text
  pub max_results : Option Number

-- AllowedToolScopeInput
pub record ToolInput : Type 0 where
  pub name : Text
  pub version : Text
  pub allowed_keys : List Text

-- CreateSessionInput
pub record Input : Type 0 where
  pub sender : Sender
  pub allowed_types : List MessageType
  pub search_scope : Option SearchInput
  pub tool_scope : Option (List ToolInput)
  pub now : Option Number
  pub inactivity_ms : Option Number
  pub max_requests : Option Number

-- `new Set(texts).size === texts.length`
pub are_distinct : List Text → Bool
are_distinct [] = true
are_distinct (x ∷ xs) = not (includes xs x) && are_distinct xs

-- [A-Za-z0-9.+_-]
unfoldable pub is_version_unit : ℕ → Bool
is_version_unit c = is_alphanumeric c || c == b'.' || c == b'+' || c == b'_' || c == b'-'

-- BridgeToolVersionSchema: 1 to 128 characters of ^[A-Za-z0-9][A-Za-z0-9.+_-]*$.
unfoldable pub is_tool_version : Text → Bool
unfolding is_version_unit is_alphanumeric
is_tool_version [] = false
is_tool_version (c ∷ rest) =
    leb (length (c ∷ rest)) 128 && is_alphanumeric c && every is_version_unit rest

unfoldable pub search_scope_of : SearchInput → Option ℕ → Result (Option SearchScope)
search_scope_of input none = err invalid_input
search_scope_of input (some max_results) = ok (
    some (record {
      workspace_id = input.workspace_id;
      allowed_source_ids = input.allowed_source_ids;
      max_results = max_results;
    }))

pub normalize_search_scope : Option SearchInput → Bool → Result (Option SearchScope)
unfolding search_scope_of are_distinct
normalize_search_scope none true = err invalid_input
normalize_search_scope none false = ok none
normalize_search_scope (some input) false = err invalid_input
normalize_search_scope (some input) true = do
  guard (is_identifier input.workspace_id) invalid_input
  guard
      (ltb 0 (length input.allowed_source_ids)
        && leb (length input.allowed_source_ids) Limits.source_ids)
      invalid_input
  guard (every is_identifier input.allowed_source_ids) invalid_input
  guard (are_distinct input.allowed_source_ids) invalid_input
  search_scope_of input (bounded_positive 100 (Option.get_or input.max_results (nat 20)))

-- The checks of one tool of the loop of `normalizeToolScope`.
pub check_tool : ToolInput → Map ToolScope → Result (Unit {0})
unfolding is_tool_version are_distinct tool_key
check_tool tool allowed = do
  guard (is_identifier tool.name) invalid_input
  guard (is_tool_version tool.version) invalid_input
  guard (leb (length tool.allowed_keys) 64) invalid_input
  guard (every is_identifier tool.allowed_keys) invalid_input
  guard (are_distinct tool.allowed_keys) invalid_input
  guard (not (Map.has (tool_key tool.name tool.version) allowed)) invalid_input

pub collect_tools : List ToolInput → Map ToolScope → Result (Map ToolScope)
unfolding check_tool
collect_tools [] allowed = ok allowed
collect_tools (tool ∷ tools) allowed = do
  check_tool tool allowed
  collect_tools tools (
      Map.set (tool_key tool.name tool.version)
        (record { name = tool.name; version = tool.version; allowed_keys = tool.allowed_keys })
        allowed)

pub normalize_tool_scope : Option (List ToolInput) → Bool → Result (Option (Map ToolScope))
unfolding collect_tools
normalize_tool_scope none true = err invalid_input
normalize_tool_scope none false = ok none
normalize_tool_scope (some tools) false = err invalid_input
normalize_tool_scope (some tools) true = do
  guard (ltb 0 (length tools) && leb (length tools) 32) invalid_input
  allowed ← collect_tools tools []
  ok (some allowed)

-- What `create` has computed when it draws an identifier.
pub record Prepared : Type 0 where
  pub tab_id : ℕ
  pub frame_id : ℕ
  pub inactivity_ms : ℕ
  pub max_requests : ℕ
  pub search_scope : Option SearchScope
  pub tool_scope : Option (Map ToolScope)

unfoldable pub prepare_limits : Input → ℕ × ℕ → Option ℕ → Option ℕ → Result Prepared
unfolding normalize_search_scope normalize_tool_scope
prepare_limits input (tab, frame) (some inactivity_ms) (some max_requests) = do
  guard (ltb 0 (length input.allowed_types)) invalid_input
  search ← normalize_search_scope input.search_scope (has_type input.allowed_types source_search)
  tools ←
      normalize_tool_scope input.tool_scope
        (has_type input.allowed_types describe_tools || has_type input.allowed_types action_preview)
  ok (record {
    tab_id = tab;
    frame_id = frame;
    inactivity_ms = inactivity_ms;
    max_requests = max_requests;
    search_scope = search;
    tool_scope = tools;
  })
prepare_limits input numbers _ _ = err invalid_input

unfoldable pub prepare : Input → Result Prepared
unfolding prepare_limits
prepare input = do
  numbers ← validate_sender input.sender
  prepare_limits input numbers
      (bounded_positive Limits.session_inactivity_ms
        (Option.get_or input.inactivity_ms (nat Limits.session_inactivity_ms)))
      (bounded_positive Limits.bridge_session_requests
        (Option.get_or input.max_requests (nat Limits.bridge_session_requests)))

-- The loop that draws identifiers, on those that `randomSessionId` gives in turn; `none` when those
-- given run out.
unfoldable pub fresh_session : Registry → List Text → Option Text
fresh_session registry [] = none
fresh_session registry (id ∷ draws) =
    let rest = fresh_session registry draws in if Map.has id registry then rest else some id

abbrev pub new_session : Input → Prepared → ℕ → Text → Session
new_session input p now origin = record {
  tab_id = p.tab_id;
  frame_id = p.frame_id;
  origin = origin;
  document_id = input.sender.document_id;
  extension_id = input.sender.extension_id;
  allowed_types = input.allowed_types;
  search_scope = p.search_scope;
  tool_scope = p.tool_scope;
  created_at = now;
  inactivity_ms = p.inactivity_ms;
  max_requests = p.max_requests;
  seen = [];
  last_used_at = now;
  request_count = 0;
  revoked = false;
}

-- `create` behind the loop.
unfoldable pub store_session :
    Input → Prepared → Option ℕ → Result Text → Text → Registry → Result Text × Registry
store_session input p none origin id registry = (err invalid_input, registry)
store_session input p (some now) (err code) id registry = (err code, registry)
store_session input p (some now) (ok origin) id registry =
    (ok id, Map.set id (new_session input p now origin) registry)

unfoldable pub create_prepared :
    (Text → Option Url)
    → Number
    → Input
    → Result Prepared
    → List Text
    → Registry
    → Option (Result Text × Registry)
unfolding fresh_session store_session
create_prepared parse_url clock input (err code) draws registry = some (err code, registry)
create_prepared parse_url clock input (ok p) draws registry =
    Option.map
      (λ id.
        store_session input p (safe_natural (Option.get_or input.now clock))
          (normalized_origin parse_url input.sender.origin) id registry)
      (fresh_session registry draws)

unfoldable pub create :
    (Text → Option Url) → Number → Input → List Text → Registry → Option (Result Text × Registry)
unfolding prepare create_prepared
create parse_url clock input draws registry =
    create_prepared parse_url clock input (prepare input) draws registry
