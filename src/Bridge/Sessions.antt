-- ===== src/Bridge/Sessions.antt =====
-- packages/bridge/src/sessions.ts: the registry of extension sessions. The parameter `parse_url`
-- stands for the platform's `new URL`, and the draws for the values of `randomSessionId`.
pub mod Create
pub mod Authorize
pub mod Requests
pub mod Traces
pub mod Quota
mod Tests
use mathlib.Core.Option
use browser_cortex.Common.{
  ℕ, ◌+◌, ◌-◌, ◌≡◌, Bool, true, false, not, ◌&&◌, ◌||◌, Option, none, some, List, [], ◌∷◌, ◌++◌,
  Text, Number, nat, ◌===◌, same_option, includes, length, every, map, units, ltb, leb, ◌==◌,
  if◌then◌else◌, safe_natural, bounded_positive,
}
use browser_cortex.Common.Map
use browser_cortex.Common.Map.{Map}
use browser_cortex.Contracts.Limits
use browser_cortex.Contracts.Errors.{
  ErrorCode, Result, ok, err, guard, ◌>>=◌, ◌>>◌, invalid_input, permission_denied, session_revoked,
  session_expired, stale_document, duplicate_request,
}
use browser_cortex.Contracts.Schemas.{is_identifier}

pub data MessageType : Type 0 where
  capture_selection source_search describe_tools action_preview cancel : MessageType

-- The payloads, as far as `authorizeMessageScope` looks into them; of the parameters of an action,
-- the keys.
pub data Payload : Type 0 where
  captures : Payload
  searches : (workspace_id : Text) (limit : ℕ) (source_ids : List Text) → Payload
  describes : List (Text × Text) → Payload
  previews : (tool_name tool_version : Text) (keys : List Text) → Payload
  cancels : (target : Text) → Payload

pub record Message : Type 0 where
  pub session_id : Text
  pub request_id : Text
  pub document_id : Text
  pub payload : Payload

-- `message.messageType`, the tag of the payload.
abbrev pub type_of : Payload → MessageType
type_of captures = capture_selection
type_of (searches w l s) = source_search
type_of (describes tools) = describe_tools
type_of (previews n v k) = action_preview
type_of (cancels t) = cancel

-- BrowserSenderIdentity
pub record Sender : Type 0 where
  pub tab_id : Number
  pub frame_id : Number
  pub origin : Text
  pub document_id : Text
  pub extension_id : Option Text

-- What the code reads of a `URL`.
pub record Url : Type 0 where
  pub origin : Text
  pub username : Text
  pub password : Text

pub record SearchScope : Type 0 where
  pub workspace_id : Text
  pub allowed_source_ids : List Text
  pub max_results : ℕ

-- AllowedToolScope, under its `toolKey`.
pub record ToolScope : Type 0 where
  pub name : Text
  pub version : Text
  pub allowed_keys : List Text

-- interface SessionRecord
pub record Session : Type 0 where
  pub tab_id : ℕ
  pub frame_id : ℕ
  pub origin : Text
  pub document_id : Text
  pub extension_id : Option Text
  pub allowed_types : List MessageType
  pub search_scope : Option SearchScope
  pub tool_scope : Option (Map ToolScope)
  pub created_at : ℕ
  pub inactivity_ms : ℕ
  pub max_requests : ℕ
  pub seen : List Text
  pub last_used_at : ℕ
  pub request_count : ℕ
  pub revoked : Bool

abbrev pub Registry : Type 0
Registry = Map Session

pub type_index : MessageType → ℕ
type_index capture_selection = 0
type_index source_search = 1
type_index describe_tools = 2
type_index action_preview = 3
type_index cancel = 4

-- `allowedMessageTypes.has(type)`
pub has_type : List MessageType → MessageType → Bool
unfolding type_index
has_type [] t = false
has_type (x ∷ xs) t = type_index x == type_index t || has_type xs t

identified : Option Text → Bool
identified none = true
identified (some id) = is_identifier id

validate_numbers : Option ℕ → Option ℕ → Text → Option Text → Result (ℕ × ℕ)
unfolding identified
validate_numbers (some tab) (some frame) document_id extension_id = do
  guard (is_identifier document_id) invalid_input
  guard (identified extension_id) invalid_input
  ok (tab, frame)
validate_numbers _ _ document_id extension_id = err invalid_input

-- The tab and frame of a sender that `validateSenderNumbers` accepts.
pub validate_sender : Sender → Result (ℕ × ℕ)
unfolding validate_numbers
validate_sender sender =
    validate_numbers (safe_natural sender.tab_id) (safe_natural sender.frame_id) sender.document_id
      sender.extension_id

pub origin_of : Option Url → Result Text
origin_of none = err invalid_input
origin_of (some url) =
    if url.origin === units "null" || not (url.username === []) || not (url.password === [])
    then err invalid_input
    else ok url.origin

pub normalized_origin : (Text → Option Url) → Text → Result Text
unfolding origin_of
normalized_origin parse_url input = origin_of (parse_url input)

-- `${name}\u0000${version}`
pub tool_key : Text → Text → Text
tool_key name version = name ++ 0 ∷ version

-- authorizeSourceSearch
pub allows_search : Option SearchScope → Text → ℕ → List Text → Bool
allows_search none workspace_id limit source_ids = false
allows_search (some scope) workspace_id limit source_ids =
    workspace_id === scope.workspace_id
    && leb limit scope.max_results
    && every (includes scope.allowed_source_ids) source_ids

-- authorizeToolDescriptions
pub allows_tools : Option (Map ToolScope) → List (Text × Text) → Bool
unfolding tool_key
allows_tools none tools = false
allows_tools (some scope) tools = every (λ tool. Map.has (tool_key tool.0 tool.1) scope) tools

pub allows_keys : Option ToolScope → List Text → Bool
allows_keys none keys = false
allows_keys (some tool) keys = every (includes tool.allowed_keys) keys

-- authorizeActionPreview
pub allows_preview : Option (Map ToolScope) → Text → Text → List Text → Bool
unfolding allows_keys tool_key
allows_preview none name version keys = false
allows_preview (some scope) name version keys =
    allows_keys (Map.get (tool_key name version) scope) keys

-- authorizeMessageScope
pub in_scope : Session → Payload → Bool
unfolding allows_search allows_tools allows_preview
in_scope s captures = true
in_scope s (searches workspace_id limit source_ids) =
    allows_search s.search_scope workspace_id limit source_ids
in_scope s (describes tools) = allows_tools s.tool_scope tools
in_scope s (previews name version keys) = allows_preview s.tool_scope name version keys
in_scope s (cancels target) = includes s.seen target

-- `now < record.createdAt || now - record.lastUsedAt >= record.inactivityMs`; the difference may
-- be negative, and then it is below the positive limit.
pub is_expired : ℕ → Session → Bool
is_expired now s = ltb now s.created_at || leb (s.last_used_at + s.inactivity_ms) now

pub same_sender : Session → ℕ → ℕ → Text → Sender → Message → Bool
same_sender s tab frame origin sender message =
    s.tab_id == tab
    && s.frame_id == frame
    && s.origin === origin
    && s.document_id === sender.document_id
    && s.document_id === message.document_id
    && same_option s.extension_id sender.extension_id

-- The session after a request that is let through.
abbrev pub used : Session → Text → ℕ → Session
used s request_id now = record s {
  seen = s.seen ++ request_id ∷ [];
  request_count = s.request_count + 1;
  last_used_at = now;
}

-- `authorize` behind the checks of the session's identity.
pub authorize_request : ℕ → Session → Message → Registry → Result (Unit {0}) × Registry
unfolding has_type in_scope
authorize_request now s message registry =
    if not (has_type s.allowed_types (type_of message.payload))
    then (err permission_denied, registry)
    else if leb s.max_requests s.request_count
    then (err session_expired, Map.delete message.session_id registry)
    else if includes s.seen message.request_id
    then (err duplicate_request, registry)
    else if not (in_scope s message.payload)
    then (err permission_denied, registry)
    else (ok tt, Map.set message.session_id (used s message.request_id now) registry)

pub authorize_origin :
    ℕ → ℕ → ℕ → Session → Result Text → Message → Sender → Registry → Result (Unit {0}) × Registry
unfolding same_sender authorize_request
authorize_origin now tab frame s (err code) message sender registry =
    if s.tab_id == tab && s.frame_id == frame
    then (err code, registry)
    else (err stale_document, registry)
authorize_origin now tab frame s (ok origin) message sender registry =
    if same_sender s tab frame origin sender message
    then authorize_request now s message registry
    else (err stale_document, registry)

pub authorize_found :
    (Text → Option Url)
    → Option ℕ
    → ℕ
    → ℕ
    → Option Session
    → Message
    → Sender
    → Registry
    → Result (Unit {0}) × Registry
unfolding authorize_origin is_expired normalized_origin
authorize_found parse_url now tab frame none message sender registry =
    (err session_revoked, registry)
authorize_found parse_url none tab frame (some s) message sender registry =
    if s.revoked
    then (err session_revoked, registry)
    else (err session_expired, Map.delete message.session_id registry)
authorize_found parse_url (some now) tab frame (some s) message sender registry =
    if s.revoked
    then (err session_revoked, registry)
    else if is_expired now s
    then (err session_expired, Map.delete message.session_id registry)
    else authorize_origin now tab frame s (normalized_origin parse_url sender.origin) message sender
        registry

pub authorize_sender :
    (Text → Option Url)
    → Option ℕ
    → Result (ℕ × ℕ)
    → Message
    → Sender
    → Registry
    → Result (Unit {0}) × Registry
unfolding authorize_found
authorize_sender parse_url now (err code) message sender registry = (err code, registry)
authorize_sender parse_url now (ok (tab, frame)) message sender registry =
    authorize_found parse_url now tab frame (Map.get message.session_id registry) message sender
      registry

pub authorize :
    (Text → Option Url) → Message → Sender → Number → Registry → Result (Unit {0}) × Registry
unfolding authorize_sender validate_sender
authorize parse_url message sender now registry =
    authorize_sender parse_url (safe_natural now) (validate_sender sender) message sender registry

pub revoke : Text → Registry → Bool × Registry
revoke id registry = (Map.has id registry, Map.delete id registry)

pub invalidate_document : ℕ → ℕ → Text → Registry → Registry × ℕ
invalidate_document tab frame current registry =
    Map.remove_where
      (λ s. s.tab_id == tab && s.frame_id == frame && not (s.document_id === current)) registry

pub purge_at : Option ℕ → Registry → Result ℕ × Registry
unfolding is_expired
purge_at none registry = (err invalid_input, registry)
purge_at (some now) registry =
    let (kept, removed) = Map.remove_where (λ s. s.revoked || is_expired now s) registry in
    (ok removed, kept)

pub purge_expired : Number → Registry → Result ℕ × Registry
unfolding purge_at
purge_expired now registry = purge_at (safe_natural now) registry

pub size : Registry → ℕ
size registry = length registry
