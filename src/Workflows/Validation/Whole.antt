-- ===== src/Workflows/Validation/Whole.antt =====
-- packages/workflows/src/validation.ts: `validateSchema` and `validateWorkflow`, with the capabilities
-- that it finds a workflow to require. The canonical plan is not modelled.
use browser_cortex.Common.{
  ℕ, Bool, true, false, not, ◌&&◌, ◌||◌, Option, none, some, List, [], ◌∷◌, ◌++◌, Text, ◌===◌,
  units, includes, text_le, length, leb, ◌==◌, if◌then◌else◌,
}
use browser_cortex.Contracts.Json.{
  whole, JsonValue, number, array, object, Items, no_items, item, Fields, no_fields, field_count,
  item_count, every_item, keys, behind,
}
use browser_cortex.Contracts.Json.Shapes.{is_text, is_object, is_array, may_have}
use browser_cortex.Workflows.Validation.{is_bounded_string, has_known, is_string_array, at}
use browser_cortex.Workflows.Validation.Steps.{is_count, are_types, is_tool, text_of, are_steps}

-- TOP_LEVEL_KEYS
abbrev top_level_keys : List Text
top_level_keys =
    units "schemaVersion"
    ∷ units "id"
    ∷ units "version"
    ∷ units "name"
    ∷ units "description"
    ∷ units "inputSchema"
    ∷ units "outputSchema"
    ∷ units "originScope"
    ∷ units "requiredCapabilities"
    ∷ units "sourceDependencies"
    ∷ units "toolDependencies"
    ∷ units "limits"
    ∷ units "steps"
    ∷ []

-- validateSchema
unfoldable pub is_schema : JsonValue → Bool
unfolding is_object field_count are_types
is_schema = is_object (λ fs.
    leb (field_count fs) 128
    && are_types
        (units "string" ∷ units "number" ∷ units "boolean" ∷ units "object" ∷ units "array" ∷ [])
        fs)

abbrev pub items_of : JsonValue → Items
items_of (array xs) = xs
items_of _ = no_items

abbrev pub fields_of : JsonValue → Fields
fields_of (object fs) = fs
fields_of _ = no_fields

unfoldable pub strings_of : Items → List Text
unfolding text_of
strings_of no_items = []
strings_of (item v xs) = text_of v ∷ strings_of xs

unfoldable pub are_unlike : List Text → Bool
unfolding includes
are_unlike [] = true
are_unlike (t ∷ ts) = not (includes ts t) && are_unlike ts

-- The text of a key of each object.
unfoldable pub texts_at : Text → Items → List Text
unfolding text_of at
texts_at key no_items = []
texts_at key (item v xs) = text_of (at key (fields_of v)) ∷ texts_at key xs

unfoldable pub is_source : JsonValue → Bool
unfolding is_object has_known is_text is_bounded_string at
is_source = is_object (λ fs.
    has_known (units "sourceId" ∷ units "revision" ∷ []) fs
    && is_text (is_bounded_string 512) (at (units "sourceId") fs)
    && is_text (is_bounded_string 512) (at (units "revision") fs))

unfoldable pub are_sources : Items → Bool
unfolding item_count every_item is_source are_unlike texts_at
are_sources xs =
    leb (item_count xs) 128
    && every_item is_source xs
    && are_unlike (texts_at (units "sourceId") xs)

unfoldable pub are_tools : Items → Bool
unfolding item_count every_item is_tool
are_tools xs = leb (item_count xs) 64 && every_item is_tool xs

-- MAX_WORKFLOW_ROWS and MAX_WORKFLOW_STEPS are 10,000 and 32.
unfoldable pub are_limits : Fields → Bool
unfolding has_known is_count at
are_limits fs =
    has_known (units "maxRows" ∷ units "maxSteps" ∷ units "maxDurationMs" ∷ []) fs
    && is_count 10000 (at (units "maxRows") fs)
    && is_count 32 (at (units "maxSteps") fs)
    && is_count 120000 (at (units "maxDurationMs") fs)

abbrev pub count_of : JsonValue → ℕ
count_of (number (whole n)) = n
count_of _ = 0

-- `${tool.name}@${tool.version}`
unfoldable pub tool_key : Fields → Text
unfolding text_of at
tool_key fs = text_of (at (units "name") fs) ++ b'@' ∷ text_of (at (units "version") fs)

unfoldable pub tool_keys_of : Items → List Text
unfolding tool_key
tool_keys_of no_items = []
tool_keys_of (item v xs) = tool_key (fields_of v) ∷ tool_keys_of xs

unfoldable pub op_of : JsonValue → Text
unfolding text_of at
op_of v = text_of (at (units "op") (fields_of v))

unfoldable pub reads_sources : JsonValue → Bool
unfolding op_of ◌===◌
reads_sources v = op_of v === units "source.select" || op_of v === units "memory.search"

unfoldable pub any_item : (JsonValue → Bool) → Items → Bool
any_item test no_items = false
any_item test (item v xs) = test v || any_item test xs

-- The tool that a step invokes.
unfoldable pub invoked : JsonValue → Text
unfolding tool_key at
invoked v = tool_key (fields_of (at (units "tool") (fields_of v)))

-- Whether the exact tool of a step is declared.
unfoldable pub is_declared : List Text → JsonValue → Bool
unfolding op_of includes invoked ◌===◌
is_declared tools v = not (op_of v === units "tool.invoke") || includes tools (invoked v)

-- What the last loop pushes for a step.
unfoldable pub needs : JsonValue → List Text
unfolding op_of invoked ◌===◌
needs v =
    if op_of v === units "source.select"
    then units "source:read" ∷ []
    else if op_of v === units "memory.search"
    then units "memory:search" ∷ []
    else if op_of v === units "file.export"
    then units "local-file:export" ∷ []
    else if op_of v === units "tool.invoke"
    then (units "tool:" ++ invoked v) ∷ []
    else []

unfoldable pub all_needs : Items → List Text
unfolding needs
all_needs no_items = []
all_needs (item v xs) = needs v ++ all_needs xs

-- `[...new Set(texts)].sort()`
unfoldable pub insert_new : Text → List Text → List Text
unfolding text_le ◌===◌
insert_new t [] = t ∷ []
insert_new t (u ∷ us) =
    let rest = insert_new t us in
    if t === u then u ∷ us else if text_le t u then t ∷ u ∷ us else u ∷ rest

unfoldable pub sorted_set : List Text → List Text
unfolding insert_new
sorted_set [] = []
sorted_set (t ∷ ts) = insert_new t (sorted_set ts)

module _ (is_exact_origin : Text → Bool) where
  unfoldable pub are_origins : Items → Bool
  unfolding is_string_array every_item is_text is_bounded_string are_unlike strings_of
  are_origins xs =
      is_string_array 32 xs
      && every_item (is_text (λ t. is_bounded_string 2048 t && is_exact_origin t)) xs
      && are_unlike (strings_of xs)

  -- The head of a workflow: all but its steps.
  unfoldable pub has_head : Fields → Bool
  unfolding has_known is_count is_text is_bounded_string is_schema may_have is_array is_string_array
      are_origins are_sources are_tools is_object are_limits at
  has_head fs =
      has_known top_level_keys fs
      && is_count 1 (at (units "schemaVersion") fs)
      && is_text (is_bounded_string 128) (at (units "id") fs)
      && is_text (is_bounded_string 64) (at (units "version") fs)
      && is_text (is_bounded_string 256) (at (units "name") fs)
      && may_have (units "description") (is_text (λ t. leb (length t) 4096)) fs
      && is_schema (at (units "inputSchema") fs)
      && may_have (units "outputSchema") is_schema fs
      && is_array (is_string_array 128) (at (units "requiredCapabilities") fs)
      && may_have (units "originScope") (is_array are_origins) fs
      && is_array are_sources (at (units "sourceDependencies") fs)
      && is_array are_tools (at (units "toolDependencies") fs)
      && is_object are_limits (at (units "limits") fs)

  -- The steps of a workflow, with its sources and tools.
  unfoldable pub has_steps : Fields → Bool
  unfolding is_array item_count are_steps any_item reads_sources every_item is_declared tool_keys_of
      keys at
  has_steps fs =
      let steps = items_of (at (units "steps") fs) in
      let limit = count_of (at (units "maxSteps") (fields_of (at (units "limits") fs))) in
      let sources = item_count (items_of (at (units "sourceDependencies") fs)) in
      let tools = tool_keys_of (items_of (at (units "toolDependencies") fs)) in
      leb 1 (item_count steps)
      && leb (item_count steps) limit
      && are_steps [] (keys (fields_of (at (units "inputSchema") fs))) steps
      && (not (any_item reads_sources steps) || not (sources == 0))
      && every_item (is_declared tools) steps

  -- validateWorkflow: the capabilities that a valid workflow requires.
  unfoldable pub validate_workflow : JsonValue → Option (List Text)
  unfolding has_head has_steps sorted_set strings_of all_needs at
  validate_workflow (object fs) = behind (has_head fs && has_steps fs) (
      some (
        sorted_set (
          strings_of (items_of (at (units "requiredCapabilities") fs))
          ++ all_needs (items_of (at (units "steps") fs)))))
  validate_workflow _ = none
