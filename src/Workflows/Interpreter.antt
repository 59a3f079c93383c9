-- ===== src/Workflows/Interpreter.antt =====
-- packages/workflows/src/interpreter.ts and types.ts: the data of a workflow run, its references to
-- values, the checks of its inputs and of its authority. The clock's readings in receipts and
-- checkpoints are not modelled.
pub mod Execute
pub mod Run
pub mod Steps
pub mod Executed
pub mod Cut
pub mod Approved
pub mod Wrote
pub mod Resumes
pub mod Retry
pub mod Ends
pub mod Once
mod Tests
use mathlib.Core.Option
use browser_cortex.Common.{
  ℕ, Bool, true, false, not, ◌&&◌, ◌||◌, Option, none, some, List, [], ◌∷◌, ◌++◌, Text, ◌===◌,
  units, includes, in_range, starts_with, same_option, length, every, any, map, drop, ltb, ◌==◌,
  if◌then◌else◌,
}
use browser_cortex.Contracts.Schemas.{is_alphanumeric}
use browser_cortex.Contracts.Json
use browser_cortex.Contracts.Json.{
  JsonValue, null, undefined, boolean, number, string, array, object, Items, Fields, no_fields,
  field, behind, keys, serialize,
}

-- WorkflowOperation
pub data Operation : Type 0 where
  source_select csv_parse rows_filter rows_sort rows_project rows_aggregate : Operation
  records_compare memory_search text_extract draft_create preview_show : Operation
  approval_require tool_invoke file_export : Operation

-- The effect and the idempotency of a ToolDescriptor; `non_idempotent` is "none".
pub data Effect : Type 0 where
  read local_write external_write : Effect

pub data Idempotency : Type 0 where
  read_only keyed non_idempotent : Idempotency

pub record ToolReference : Type 0 where
  pub name : Text
  pub version : Text

-- WorkflowStep, as far as the interpreter's own code reads it; `input` is `undefined` when it is left
-- out, and `continues` is `failurePolicy === "continue"`.
pub record Step : Type 0 where
  pub id : Text
  pub op : Operation
  pub input : JsonValue
  pub output : Option Text
  pub continues : Bool
  pub approval_ref : Option Text
  pub tool : Option ToolReference
  pub arguments : Fields

-- WorkflowDefinition, as far as the interpreter's own code reads it.
pub record Workflow : Type 0 where
  pub id : Text
  pub version : Text
  pub input_schema : List (Text × Text)
  pub origin_scope : List Text
  pub required_capabilities : List Text
  pub source_dependencies : List (Text × Text)
  pub steps : List Step

-- RunState
pub data RunState : Type 0 where
  draft validated awaiting_approval ready running : RunState
  paused succeeded failed cancelled outcome_unknown : RunState

-- StepReceipt
pub record Receipt : Type 0 where
  pub step_id : Text
  pub operation : Operation
  pub state : RunState
  pub output_name : Option Text
  pub error_code : Option Text

-- RunCheckpoint.activeStep
pub record ActiveStep : Type 0 where
  pub step_id : Text
  pub effect : Effect
  pub idempotency : Idempotency
  pub idempotency_key : Option Text

-- RunCheckpoint
pub record Checkpoint : Type 0 where
  pub run_id : Text
  pub workflow_id : Text
  pub workflow_version : Text
  pub plan_fingerprint : Text
  pub state : RunState
  pub next_step_index : ℕ
  pub values : Fields
  pub receipts : List Receipt
  pub active_step : Option ActiveStep

-- ToolDescriptor, as far as the interpreter's own code reads it.
pub record Tool : Type 0 where
  pub name : Text
  pub version : Text
  pub effect : Effect
  pub idempotency : Idempotency
  pub required_capabilities : List Text

-- WorkflowAuthorizationContext
pub record Authorization : Type 0 where
  pub origin : Option Text
  pub granted_capabilities : List Text
  pub source_revisions : List (Text × Text)

abbrev pub is_write : Effect → Bool
is_write read = false
is_write local_write = true
is_write external_write = true

abbrev pub is_non_idempotent : Idempotency → Bool
is_non_idempotent non_idempotent = true
is_non_idempotent _ = false

-- `{ ...values, [key]: value }`
unfoldable pub set : Text → JsonValue → Fields → Fields
set key v no_fields = field key v no_fields
set key v (field k w fs) =
    let rest = set key v fs in if k === key then field k v fs else field k w rest

-- jsonClone; the length of the text does not depend on the order of keys.
unfoldable pub json_clone : JsonValue → Option JsonValue
unfolding serialize
json_clone undefined = none
json_clone v = behind (not (ltb 2097152 (length (serialize v)))) (some v)

-- [A-Za-z] and [A-Za-z0-9_-]
unfoldable pub is_letter : ℕ → Bool
unfolding in_range
is_letter c = in_range b'A' b'Z' c || in_range b'a' b'z' c

unfoldable pub is_name_unit : ℕ → Bool
unfolding is_alphanumeric
is_name_unit c = is_alphanumeric c || c == b'_' || c == b'-'

unfoldable pub is_name : Text → Bool
unfolding is_letter is_name_unit
is_name [] = false
is_name (c ∷ t) = is_letter c && every is_name_unit t

-- The longest prefix without a dot, and what follows the dot.
unfoldable pub split_dot : Text → Text × Option Text
split_dot [] = ([], none)
split_dot (c ∷ t) =
    let (name, rest) = split_dot t in if c == b'.' then ([], some t) else (c ∷ name, rest)

-- /^(steps\.NAME)\.(NAME)$/: the step's key and the field, for a reference that matches.
unfoldable pub parent_and_child : Text → Option (Text × Text)
unfolding starts_with split_dot is_name
parent_and_child reference =
    let (name, rest) = split_dot (drop 6 reference) in
    behind (starts_with reference (units "steps.") && is_name name) (elim rest [
      | none ↦ none
      | some child ↦ behind (is_name child) (some (units "steps." ++ name, child))
    ])

-- `values[key]`, where a value that is `undefined` counts as missing.
unfoldable pub present : Option JsonValue → Option JsonValue
present none = none
present (some undefined) = none
present (some v) = some v

unfoldable pub child_of : Option JsonValue → Text → Option JsonValue
unfolding present
child_of (some (object fs)) child = present (Json.get child fs)
child_of _ child = none

-- resolveReference; `none` is an error.
unfoldable pub resolve_reference : Text → Fields → Option JsonValue
unfolding present parent_and_child child_of
resolve_reference reference values = elim (present (Json.get reference values)) [
  | some v ↦ some v
  | none ↦ elim (parent_and_child reference) [
    | none ↦ none
    | some p ↦ child_of (Json.get p.0 values) p.1
  ]
]

-- `typeof value === "object" && ... && "ref" in value && typeof value.ref === "string"`
unfoldable pub reference_of : JsonValue → Option Text
reference_of (object fs) = elim (Json.get (units "ref") fs) [ some (string s) ↦ some s | _ ↦ none ]
reference_of _ = none

-- A reference is resolved and another value copied.
unfoldable pub resolve : JsonValue → Fields → Option JsonValue
unfolding reference_of resolve_reference json_clone
resolve v values = elim (reference_of v) [
  | some reference ↦ resolve_reference reference values
  | none ↦ json_clone v
]

-- resolveInput
unfoldable pub resolve_input : Step → Fields → Option JsonValue
unfolding resolve
resolve_input step values = elim step.input [ undefined ↦ some null | v ↦ resolve v values ]

-- The arguments of a tool step.
unfoldable pub resolve_arguments : Fields → Fields → Option Fields
unfolding resolve
resolve_arguments no_fields values = some no_fields
resolve_arguments (field key v fs) values = elim (resolve v values) [
  | none ↦ none
  | some w ↦ Option.map (λ rest. field key w rest) (resolve_arguments fs values)
]

-- `typeof`, with "array" and "null".
unfoldable pub type_name : JsonValue → Text
type_name null = units "null"
type_name undefined = units "undefined"
type_name (boolean b) = units "boolean"
type_name (number n) = units "number"
type_name (string s) = units "string"
type_name (array xs) = units "array"
type_name (object fs) = units "object"

-- Whether `validateInputs` returns.
unfoldable pub has_inputs : List (Text × Text) → Fields → Bool
unfolding includes keys present type_name ◌===◌
has_inputs schema inputs =
    every (includes (map (λ entry. entry.0) schema)) (keys inputs)
    && every
        (λ entry. elim (present (Json.get entry.0 inputs)) [
          | none ↦ false
          | some v ↦ type_name v === entry.1
        ])
        schema

-- `sourceRevisions?.[sourceId]`
unfoldable pub lookup : Text → List (Text × Text) → Option Text
lookup key [] = none
lookup key ((k, v) ∷ entries) = let rest = lookup key entries in if k === key then some v else rest

-- `authorization?.grantedCapabilities ?? []` has every one of these.
unfoldable pub grants_all : Option Authorization → List Text → Bool
unfolding includes
grants_all none capabilities = every (λ capability. false) capabilities
grants_all (some authorization) capabilities =
    every (includes authorization.granted_capabilities) capabilities

-- Whether `assertWorkflowAuthority` returns.
unfoldable pub has_authority : Workflow → Option Authorization → Bool
unfolding grants_all includes lookup
has_authority workflow none =
    grants_all none workflow.required_capabilities
    && length workflow.origin_scope == 0
    && length workflow.source_dependencies == 0
has_authority workflow (some authorization) =
    grants_all (some authorization) workflow.required_capabilities
    && (length workflow.origin_scope == 0 || elim authorization.origin [
      | none ↦ false
      | some origin ↦ not (length origin == 0) && includes workflow.origin_scope origin
    ])
    && every
        (λ dependency.
          same_option (lookup dependency.0 authorization.source_revisions) (some dependency.1))
        workflow.source_dependencies
