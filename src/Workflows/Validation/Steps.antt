-- ===== src/Workflows/Validation/Steps.antt =====
-- packages/workflows/src/validation.ts: `validateReference`, `validateStep`, and the loop over the
-- steps, which hands each the identifiers of the steps before it.
use browser_cortex.Common.{
  ℕ, Bool, true, false, not, ◌&&◌, ◌||◌, Option, none, some, List, [], ◌∷◌, ◌++◌, Text, ◌===◌,
  units, includes, starts_with, length, drop, leb, ◌==◌, max_safe_integer, if◌then◌else◌,
}
use browser_cortex.Contracts.Json.{
  whole, JsonValue, null, undefined, boolean, number, string, object, Items, no_items, item, Fields,
  no_fields, field, field_count, item_count, every_item,
}
use browser_cortex.Contracts.Json.Shapes.{is_text, is_object, is_array, may_have}
use browser_cortex.Workflows.Interpreter.{is_name, split_dot}
use browser_cortex.Workflows.Validation.{
  is_bounded_string, is_safe_key, is_safe_string, has_known, is_key_array, names_one, at,
  is_predicate, is_plain,
}

-- MAX_VALUE_DEPTH allows the depths 0 to 32.
abbrev pub all_levels : ℕ
all_levels = 33

-- [A-Za-z][A-Za-z0-9_-]{0,127}
unfoldable pub is_short_name : Text → Bool
unfolding is_name
is_short_name t = is_name t && leb (length t) 128

-- What a reference names: an input, a step, or nothing.
pub data Target : Type 0 where
  to_input : Text → Target
  to_step : Text → Target
  nowhere : Target

-- The two regular expressions of validateReference.
unfoldable pub step_target : Text × Option Text → Target
unfolding is_short_name
step_target (name, none) = if is_short_name name then to_step name else nowhere
step_target (name, some child) =
    if is_short_name name && is_short_name child then to_step name else nowhere

unfoldable pub target_of : Text → Target
unfolding starts_with is_short_name split_dot step_target
target_of reference =
    if starts_with reference (units "input.") && is_short_name (drop 6 reference)
    then to_input (drop 6 reference)
    else if starts_with reference (units "steps.")
    then step_target (split_dot (drop 6 reference))
    else nowhere

unfoldable pub is_available : List Text → List Text → Target → Bool
unfolding includes
is_available steps inputs (to_input name) = includes inputs name
is_available steps inputs (to_step name) = includes steps name
is_available steps inputs nowhere = false

-- validateReference
unfoldable pub is_reference : List Text → List Text → Text → Bool
unfolding target_of is_available
is_reference steps inputs reference = is_available steps inputs (target_of reference)

-- isReference: an object with the one key "ref", that holds a string.
unfoldable pub ref_of : JsonValue → Option Text
unfolding ◌===◌
ref_of (object (field key (string reference) no_fields)) =
    if key === units "ref" then some reference else none
ref_of _ = none

-- A reference is validated, and another value is plain JSON.
unfoldable pub input_test : List Text → List Text → Option Text → JsonValue → Bool
unfolding is_reference is_plain
input_test steps inputs (some reference) v = is_reference steps inputs reference
input_test steps inputs none v = is_plain all_levels v

unfoldable pub is_input : List Text → List Text → JsonValue → Bool
unfolding ref_of input_test
is_input steps inputs v = input_test steps inputs (ref_of v) v

unfoldable pub are_arguments : List Text → List Text → Fields → Bool
unfolding is_input is_safe_key
are_arguments steps inputs no_fields = true
are_arguments steps inputs (field key v fs) =
    is_safe_key key && is_input steps inputs v && are_arguments steps inputs fs

-- OPERATIONS
abbrev operations : List Text
operations =
    units "source.select"
    ∷ units "csv.parse"
    ∷ units "rows.filter"
    ∷ units "rows.sort"
    ∷ units "rows.project"
    ∷ units "rows.aggregate"
    ∷ units "records.compare"
    ∷ units "memory.search"
    ∷ units "text.extract"
    ∷ units "draft.create"
    ∷ units "preview.show"
    ∷ units "approval.require"
    ∷ units "tool.invoke"
    ∷ units "file.export"
    ∷ []

-- STEP_KEYS
abbrev step_keys : List Text
step_keys =
    units "id"
    ∷ units "op"
    ∷ units "input"
    ∷ units "output"
    ∷ units "timeoutMs"
    ∷ units "failurePolicy"
    ∷ units "predicate"
    ∷ units "fields"
    ∷ units "sort"
    ∷ units "aggregate"
    ∷ units "compareFields"
    ∷ units "scope"
    ∷ units "approvalRef"
    ∷ units "tool"
    ∷ units "arguments"
    ∷ units "filename"
    ∷ units "format"
    ∷ units "schema"
    ∷ units "query"
    ∷ []

-- `Number.isSafeInteger(value) && value >= 1 && value <= limit`
unfoldable pub is_count : ℕ → JsonValue → Bool
is_count limit (number (whole n)) = leb n max_safe_integer && leb 1 n && leb n limit
is_count limit _ = false

unfoldable pub is_sort_item : JsonValue → Bool
unfolding is_object has_known is_text is_safe_string at names_one may_have ◌===◌
is_sort_item = is_object (λ fs.
    has_known (units "field" ∷ units "direction" ∷ units "mode" ∷ []) fs
    && is_text is_safe_string (at (units "field") fs)
    && is_text (λ d. d === units "asc" || d === units "desc") (at (units "direction") fs)
    && may_have (units "mode")
        (names_one (units "primitive" ∷ units "decimal" ∷ units "iso-date" ∷ [])) fs)

unfoldable pub is_aggregate : JsonValue → Bool
unfolding is_object has_known is_text is_safe_string at names_one may_have ◌===◌
is_aggregate = is_object (λ fs.
    has_known (units "field" ∷ units "operation" ∷ units "output" ∷ units "currency" ∷ []) fs
    && is_text is_safe_string (at (units "field") fs)
    && is_text is_safe_string (at (units "output") fs)
    && names_one (units "count" ∷ units "sum" ∷ units "min" ∷ units "max" ∷ units "average" ∷ [])
        (at (units "operation") fs)
    && may_have (units "currency")
        (λ currency.
          not (is_text (λ o. o === units "count") (at (units "operation") fs))
          && is_object
              (λ cs.
                has_known (units "field" ∷ units "output" ∷ []) cs
                && is_text is_safe_string (at (units "field") cs)
                && is_text is_safe_string (at (units "output") cs))
              currency)
        fs)

-- `Object.entries(schema)`: safe keys, each with one of the type names.
unfoldable pub are_types : List Text → Fields → Bool
unfolding is_safe_key names_one
are_types names no_fields = true
are_types names (field key v fs) = is_safe_key key && names_one names v && are_types names fs

-- `step.key !== undefined`
unfoldable pub is_defined : JsonValue → Bool
is_defined undefined = false
is_defined _ = true

-- What JavaScript takes for true; JSON has no number that is not finite.
unfoldable pub is_truthy : JsonValue → Bool
is_truthy null = false
is_truthy undefined = false
is_truthy (boolean b) = b
is_truthy (string s) = not (length s == 0)
is_truthy (number (whole n)) = not (n == 0)
is_truthy _ = true

unfoldable pub is_tool : JsonValue → Bool
unfolding is_object has_known is_text is_bounded_string at
is_tool = is_object (λ fs.
    has_known (units "name" ∷ units "version" ∷ []) fs
    && is_text (is_bounded_string 512) (at (units "name") fs)
    && is_text (is_bounded_string 512) (at (units "version") fs))

-- What an operation requires of its step.
unfoldable pub has_required : Text → Fields → Bool
unfolding is_defined at is_text is_tool is_truthy ◌===◌
has_required op fs =
    (not (op === units "rows.filter") || is_defined (at (units "predicate") fs))
    && (not (op === units "rows.sort") || is_defined (at (units "sort") fs))
    && (not (op === units "rows.project") || is_defined (at (units "fields") fs))
    && (not (op === units "rows.aggregate") || is_defined (at (units "aggregate") fs))
    && (not (op === units "text.extract") || is_defined (at (units "schema") fs))
    && (not (op === units "approval.require") || is_text (λ s. true) (at (units "scope") fs))
    && (not (op === units "tool.invoke") || is_tool (at (units "tool") fs))
    && (not (op === units "file.export")
        || (is_truthy (at (units "filename") fs) && is_truthy (at (units "format") fs)))

-- The optional fields that name no other step.
unfoldable pub has_options : Fields → Bool
unfolding may_have is_text is_bounded_string is_count is_predicate is_array is_key_array
    is_sort_item is_aggregate is_object are_types every_item item_count field_count ◌===◌
has_options fs =
    may_have (units "output") (is_text (is_bounded_string 128)) fs
    && may_have (units "timeoutMs") (is_count 120000) fs
    && may_have (units "failurePolicy")
        (is_text (λ p. p === units "stop" || p === units "continue")) fs
    && may_have (units "predicate") (is_predicate all_levels) fs
    && may_have (units "fields") (is_array is_key_array) fs
    && may_have (units "compareFields") (is_array is_key_array) fs
    && may_have (units "sort")
        (is_array (λ xs. leb (item_count xs) 16 && every_item is_sort_item xs)) fs
    && may_have (units "aggregate")
        (is_array (λ xs. leb (item_count xs) 32 && every_item is_aggregate xs)) fs
    && may_have (units "schema")
        (is_object (λ types.
          leb 1 (field_count types)
          && leb (field_count types) 128
          && are_types (units "string" ∷ units "number" ∷ units "boolean" ∷ units "null" ∷ [])
              types))
        fs

-- The fields that may name an input or another step.
unfoldable pub has_references : List Text → List Text → Fields → Bool
unfolding may_have is_input is_object are_arguments is_text is_bounded_string is_reference
has_references steps inputs fs =
    may_have (units "input") (is_input steps inputs) fs
    && may_have (units "arguments") (is_object (are_arguments steps inputs)) fs
    && may_have (units "approvalRef")
        (is_text (λ r. is_bounded_string 512 r && is_reference steps inputs r)) fs

-- boundedString(step.id), the regular expression of identifiers, and that it is new.
unfoldable pub is_new_id : List Text → Text → Bool
unfolding is_bounded_string is_name includes
is_new_id steps id = is_bounded_string 128 id && is_name id && not (includes steps id)

unfoldable pub text_of : JsonValue → Text
text_of (string s) = s
text_of _ = []

-- validateStep, behind `object`.
unfoldable pub is_step : List Text → List Text → Fields → Bool
unfolding has_known is_text is_new_id at includes has_references has_options has_required text_of
is_step steps inputs fs =
    has_known step_keys fs
    && is_text (is_new_id steps) (at (units "id") fs)
    && is_text (includes operations) (at (units "op") fs)
    && has_references steps inputs fs
    && has_options fs
    && has_required (text_of (at (units "op") fs)) fs

-- `workflow.steps.map((step) => validateStep(step, availableSteps, inputNames))`
unfoldable pub are_steps : List Text → List Text → Items → Bool
unfolding is_step text_of at
are_steps steps inputs no_items = true
are_steps steps inputs (item (object fs) xs) =
    is_step steps inputs fs && are_steps (steps ++ text_of (at (units "id") fs) ∷ []) inputs xs
are_steps steps inputs (item v xs) = false
