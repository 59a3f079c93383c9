-- ===== src/Contracts/Json/Tests.antt =====
-- Runs of json.ts at concrete values.
use browser_cortex.Contracts.Schemas.{utf8_byte_length}
use browser_cortex.Common.{◌≡◌, refl, ◌≢◌, ◌↔◌, ◌≤◌, ◌===◌, ===_iff, none, some, units, true, ◌===◌}
use browser_cortex.Contracts.Json.{
  JsonValue, null, boolean, number, string, array, object, no_items, item, no_fields, field,
  negative, not_finite, default_limits, assert_json_value, canonicalize,
}
use browser_cortex.Contracts.Json.Fits.{height, entry_count, IsClean, assert_json_value_iff}
use browser_cortex.Contracts.Json.Order.{swapped, objects, canonicalize-Same}

abbrev first : JsonValue
first = object (
    field (units "b") (array (item null (item (boolean true) no_items)))
      (field (units "a") (string (units "x\"y")) no_fields))

abbrev second : JsonValue
second = object (
    field (units "a") (string (units "x\"y"))
      (field (units "b") (array (item null (item (boolean true) no_items))) no_fields))

b-neq-a : units "b" ≢ units "a"
unfolding ◌===◌
b-neq-a h =
    let e : (units "b" === units "a") ≡ true = (===_iff (units "b") (units "a")).1 h in absurd (cc)

first_text : canonicalize default_limits first ≡ some (units "{\"a\":\"x\\\"y\",\"b\":[null,true]}")
unfolding canonicalize ◌===◌ utf8_byte_length
first_text = refl

number_text : canonicalize default_limits (number (negative 41)) ≡ some (units "-42")
unfolding canonicalize utf8_byte_length
number_text = refl

forbidden_key :
    canonicalize default_limits (object (field (units "constructor") null no_fields)) ≡ none
unfolding canonicalize ◌===◌
forbidden_key = refl

infinite_number : canonicalize default_limits (number not_finite) ≡ none
unfolding canonicalize
infinite_number = refl

assert_json_value_iff_example : (assert_json_value default_limits first ≡ some tt) ↔ (
    (height first ≤ default_limits.max_depth)
    × (entry_count first ≤ default_limits.max_entries)
    × IsClean default_limits first)
assert_json_value_iff_example = assert_json_value_iff default_limits first

canonicalize-Same_example : canonicalize default_limits first ≡ canonicalize default_limits second
canonicalize-Same_example =
    canonicalize-Same default_limits first second
      (objects _ _ (swapped (units "b") (units "a") _ _ no_fields b-neq-a))
