-- ===== src/Workflows/Validation/Needs.antt =====
-- What a workflow that is valid guarantees (validateWorkflow of validation.ts).
use browser_cortex.Common.{◌≡◌, true, List, Text, units, includes}
use browser_cortex.Contracts.Json.{JsonValue, Items, no_items, item, Fields, keys}
use browser_cortex.Workflows.Validation.{at}
use browser_cortex.Workflows.Validation.Whole.{items_of, fields_of, strings_of, tool_keys_of}

-- What holds of every item of an array.
abbrev pub AllItems : (JsonValue → Type 0) → Items → Type 0
AllItems P no_items = Unit
AllItems P (item v xs) = P v × AllItems P xs

abbrev pub Holds : List Text → Text → Type 0
Holds texts t = includes texts t ≡ true

-- The steps of a workflow, the names of its inputs and its exact tools.
abbrev pub steps_of : Fields → Items
steps_of fs = items_of (at (units "steps") fs)

abbrev declared_caps : Fields → List Text
declared_caps fs = strings_of (items_of (at (units "requiredCapabilities") fs))

abbrev pub input_names : Fields → List Text
input_names fs = keys (fields_of (at (units "inputSchema") fs))

abbrev pub tools_of : Fields → List Text
tools_of fs = tool_keys_of (items_of (at (units "toolDependencies") fs))
