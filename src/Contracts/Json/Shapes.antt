-- ===== src/Contracts/Json/Shapes.antt =====
-- What a schema asks of a JSON value (the `z.strictObject` schemas of packages/bridge/src/messages.ts,
-- and the checks of packages/workflows/src/validation.ts).
use browser_cortex.Common.{Bool, true, false, Option, none, some, List, Text, includes, every}
use browser_cortex.Contracts.Json
use browser_cortex.Contracts.Json.{JsonValue, undefined, string, array, object, Items, Fields, keys}

-- What a schema asks of a string, and of an object.
unfoldable pub is_text : (Text → Bool) → JsonValue → Bool
is_text test (string s) = test s
is_text test _ = false

unfoldable pub is_object : (Fields → Bool) → JsonValue → Bool
is_object test (object fs) = test fs
is_object test _ = false

unfoldable pub is_array : (Items → Bool) → JsonValue → Bool
is_array test (array xs) = test xs
is_array test _ = false

-- A key that must be there, and one that may be left out.
unfoldable pub has : Text → (JsonValue → Bool) → Fields → Bool
has key test fs = elim (Json.get key fs) [ none ↦ false | some v ↦ test v ]

abbrev pub passes : (JsonValue → Bool) → Option JsonValue → Bool
passes test none = true
passes test (some undefined) = true
passes test (some v) = test v

unfoldable pub may_have : Text → (JsonValue → Bool) → Fields → Bool
may_have key test fs = passes test (Json.get key fs)

-- `z.strictObject`: no key but these.
unfoldable pub has_only : List Text → Fields → Bool
unfolding includes keys
has_only allowed fs = every (includes allowed) (keys fs)
