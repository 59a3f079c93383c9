-- ===== src/Core/Router.antt =====
-- packages/core/src/router.ts: the route of a task, with the schemas of a task request and of a
-- route decision from packages/contracts/src/schemas.ts. The strings of the reason codes are the
-- constructors of `Reason`, all of which the schema of a reason code admits.
pub mod Routes
mod Tests
use browser_cortex.Common.{
  ℕ, ◌≡◌, Bool, true, false, not, ◌&&◌, ◌||◌, Option, none, some, List, [], ◌∷◌, Text, length,
  every, any, if◌then◌else◌, leb, ◌==◌,
}
use browser_cortex.Contracts.Limits
use browser_cortex.Contracts.Errors.{Result, ok, err, invalid_input, invalid_schema_version, ◌>>=◌}
use browser_cortex.Contracts.Schemas.{is_identifier, is_bounded_text}
use mathlib.Core.Option

-- TaskKindSchema
pub data Task : Type 0 where
  search extract summarize transform plan : Task

pub data OnlinePolicy : Type 0 where
  deny ask : OnlinePolicy

-- TaskRequest
pub record TaskRequest : Type 0 where
  pub schema_version : ℕ
  pub request_id : Text
  pub task : Task
  pub input : Text
  pub source_ids : List Text
  pub workspace_id : Text
  pub online_policy : OnlinePolicy
  pub output_schema_id : Option Text

-- interface LocalRouteCapability
pub record Local : Type 0 where
  pub available : Bool
  pub supported_tasks : List Task
  pub model_id : Option Text
  pub model_revision : Option Text

-- interface OnlineRouteCapability
pub record Online : Type 0 where
  pub configured : Bool
  pub explicitly_requested : Bool
  pub approved_for_sources : Bool
  pub supported_tasks : List Task
  pub model_id : Option Text
  pub model_revision : Option Text

pub data Reason : Type 0 where
  permission_denied source_revoked sensitive_data_blocked task_outside_validated_scope : Reason
  deterministic_operation local_capability_verified local_execution_failed : Reason
  online_policy_deny online_explicit_request_required online_not_configured : Reason
  online_task_unsupported online_approval_needed : Reason

-- interface RouterEnvironment; `policyDenialReason` is one of the first three reasons in the source.
pub record Environment : Type 0 where
  pub policy_version : Text
  pub policy_allowed : Bool
  pub policy_denial_reason : Option Reason
  pub supported_tasks : Option (List Task)
  pub deterministic_tasks : Option (List Task)
  pub local : Local
  pub online : Online
  pub local_failure : Bool

pub data Route : Type 0 where
  deterministic local_model online_model unavailable : Route

-- RouteDecision
pub record RouteDecision : Type 0 where
  pub request_id : Text
  pub route : Route
  pub reason_codes : List Reason
  pub model_id : Option Text
  pub model_revision : Option Text
  pub policy_version : Text
  pub requires_disclosure : Bool

unfoldable same_task : Task → Task → Bool
same_task search search = true
same_task extract extract = true
same_task summarize summarize = true
same_task transform transform = true
same_task plan plan = true
same_task _ _ = false

-- `tasks.includes(task)`
pub supports : List Task → Task → Bool
unfolding same_task
supports tasks task = any (same_task task) tasks

abbrev optionally : (Text → Bool) → Option Text → Bool
optionally test none = true
optionally test (some t) = test t

-- TaskRequestSchema, but for the literal of `schemaVersion`.
unfoldable pub has_request_shape : TaskRequest → Bool
has_request_shape r =
    is_identifier r.request_id
    && is_bounded_text Limits.task_instruction_characters r.input
    && leb (length r.source_ids) Limits.source_ids
    && every is_identifier r.source_ids
    && is_identifier r.workspace_id
    && optionally is_identifier r.output_schema_id

unfoldable pub parse_task_request : TaskRequest → Result TaskRequest
parse_task_request r =
    if r.schema_version == 1
    then (if has_request_shape r then ok r else err invalid_input)
    else err invalid_schema_version

-- RouteDecisionSchema: what the types leave open.
pub has_decision_shape : RouteDecision → Bool
has_decision_shape d =
    is_identifier d.request_id
    && optionally is_identifier d.model_id
    && optionally (is_bounded_text 256) d.model_revision
    && is_bounded_text Limits.policy_version_characters d.policy_version

-- `parseVersioned(RouteDecisionSchema, { schemaVersion: 1, ... })`
pub parse_decision : RouteDecision → Result RouteDecision
parse_decision d = if has_decision_shape d then ok d else err invalid_input

abbrev plain : TaskRequest → Environment → Route → Reason → RouteDecision
plain r e route reason = record {
  request_id = r.request_id;
  route = route;
  reason_codes = reason ∷ [];
  model_id = none;
  model_revision = none;
  policy_version = e.policy_version;
  requires_disclosure = false;
}

-- DEFAULT_SUPPORTED and DEFAULT_DETERMINISTIC
abbrev pub default_supported : List Task
default_supported = search ∷ extract ∷ summarize ∷ transform ∷ plan ∷ []

abbrev pub default_deterministic : List Task
default_deterministic = search ∷ transform ∷ []

pub is_denied : OnlinePolicy → Bool
is_denied deny = true
is_denied ask = false

-- What `decide` gives to `parseVersioned`.
pub decision : TaskRequest → Environment → RouteDecision
decision r e =
    if not e.policy_allowed
    then plain r e unavailable (Option.get_or e.policy_denial_reason permission_denied)
    else if not (supports (Option.get_or e.supported_tasks default_supported) r.task)
    then plain r e unavailable task_outside_validated_scope
    else if supports (Option.get_or e.deterministic_tasks default_deterministic) r.task
    then plain r e deterministic deterministic_operation
    else if e.local.available && supports e.local.supported_tasks r.task
    then record (plain r e local_model local_capability_verified) {
      model_id = e.local.model_id;
      model_revision = e.local.model_revision;
    }
    else if e.local_failure
    then plain r e unavailable local_execution_failed
    else if is_denied r.online_policy
    then plain r e unavailable online_policy_deny
    else if not e.online.explicitly_requested
    then plain r e unavailable online_explicit_request_required
    else if not e.online.configured
    then plain r e unavailable online_not_configured
    else if not e.online.approved_for_sources
    then plain r e unavailable sensitive_data_blocked
    else if not (supports e.online.supported_tasks r.task)
    then plain r e unavailable online_task_unsupported
    else record (plain r e online_model online_approval_needed) {
      model_id = e.online.model_id;
      model_revision = e.online.model_revision;
      requires_disclosure = true;
    }

pub decide : TaskRequest → Environment → Result RouteDecision
unfolding decision
decide input e = do r ← parse_task_request input; parse_decision (decision r e)
