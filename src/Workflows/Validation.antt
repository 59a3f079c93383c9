-- ===== src/Workflows/Validation.antt =====
-- packages/workflows/src/validation.ts: the checks of a workflow before it is run. A thrown error is
-- `false`, or `none`. The parameter `is_exact_origin` stands for `canonicalOrigin` on the platform's
-- URL parser.
pub mod Steps
pub mod Back
pub mod Whole
pub mod Needs
mod Tests
use browser_cortex.Common.{
  ℕ, zero, suc, Bool, true, false, not, ◌&&◌, ◌||◌, Option, none, some, List, [], ◌∷◌, ◌++◌, Text,
  ◌===◌, units, includes, in_range, starts_with, length, every, drop, ltb, leb, ◌==◌,
  max_safe_integer, if◌then◌else◌,
}
use browser_cortex.Contracts.Json
use browser_cortex.Contracts.Json.{
  whole, JsonValue, null, undefined, boolean, number, string, array, object, Items, no_items, item,
  Fields, no_fields, field, keys, field_count, item_count, every_item, forbidden_keys, is_finite,
  print_number, join_commas,
}
use browser_cortex.Contracts.Json.Shapes.{is_text, is_object, is_array, has, may_have, has_only}
use browser_cortex.Workflows.Interpreter.{is_letter, is_name, is_name_unit, split_dot}

-- The white space that `trim` takes away.
unfoldable pub is_white : ℕ → Bool
unfolding in_range
is_white c =
    in_range 9 13 c
    || c == 32
    || c == 160
    || c == 0x1680
    || in_range 0x2000 0x200a c
    || c == 0x2028
    || c == 0x2029
    || c == 0x202f
    || c == 0x205f
    || c == 0x3000
    || c == 0xfeff

-- boundedString
unfoldable pub is_bounded_string : ℕ → Text → Bool
unfolding is_white
is_bounded_string limit t = not (every is_white t) && leb (length t) limit

-- assertSafeKey of canonical.ts
unfoldable pub is_safe_key : Text → Bool
unfolding includes
is_safe_key key = not (includes forbidden_keys key)

unfoldable pub is_safe_string : Text → Bool
unfolding is_bounded_string is_safe_key
is_safe_string t = is_bounded_string 512 t && is_safe_key t

-- rejectUnknown; the allowed keys are safe.
unfoldable pub has_known : List Text → Fields → Bool
unfolding has_only is_safe_key keys
has_known allowed fs = every is_safe_key (keys fs) && has_only allowed fs

-- stringArray
unfoldable pub is_string_array : ℕ → Items → Bool
unfolding item_count every_item is_text is_bounded_string
is_string_array limit xs =
    leb (item_count xs) limit && every_item (is_text (is_bounded_string 512)) xs

unfoldable pub is_key_array : Items → Bool
unfolding is_string_array every_item is_text is_safe_key
is_key_array xs = is_string_array 128 xs && every_item (is_text is_safe_key) xs

-- `String(value)`
unfoldable mutual
  unfolding print_number join_commas

  pub to_string : JsonValue → Text
  to_string null = units "null"
  to_string undefined = units "undefined"
  to_string (boolean true) = units "true"
  to_string (boolean false) = units "false"
  to_string (number n) = print_number n
  to_string (string s) = s
  to_string (array xs) = join_commas (to_strings xs)
  to_string (object fs) = units "[object Object]"

  pub to_strings : Items → List Text
  to_strings no_items = []
  to_strings (item null xs) = [] ∷ to_strings xs
  to_strings (item undefined xs) = [] ∷ to_strings xs
  to_strings (item v xs) = to_string v ∷ to_strings xs

-- `[...].includes(String(value))`
unfoldable pub names_one : List Text → JsonValue → Bool
unfolding to_string includes
names_one names v = includes names (to_string v)

-- `typeof value` of a literal, with a finite number.
unfoldable pub is_literal : JsonValue → Bool
unfolding is_finite
is_literal null = true
is_literal (boolean b) = true
is_literal (string s) = true
is_literal (number n) = is_finite n
is_literal _ = false

-- `key in node`
abbrev pub is_in : Text → Fields → Bool
is_in key fs = has key (λ v. true) fs

-- `node[key]`, which is `undefined` for a key that is missing.
abbrev pub or_undefined : Option JsonValue → JsonValue
or_undefined none = undefined
or_undefined (some v) = v

unfoldable pub at : Text → Fields → JsonValue
at key fs = or_undefined (Json.get key fs)

-- validateValueExpression: the fuel is the levels that the depth limit leaves, 33 at the top.
unfoldable pub is_value_expression : ℕ → JsonValue → Bool
unfolding is_literal has has_known is_text is_safe_string names_one at
is_value_expression zero v = false
is_value_expression (suc levels) (object fs) =
    let left = is_value_expression levels (at (units "left") fs) in
    let right = is_value_expression levels (at (units "right") fs) in
    if is_in (units "literal") fs
    then has_known (units "literal" ∷ []) fs && is_literal (at (units "literal") fs)
    else if is_in (units "field") fs
    then has_known (units "field" ∷ []) fs && is_text is_safe_string (at (units "field") fs)
    else has_known (units "op" ∷ units "left" ∷ units "right" ∷ []) fs
      && names_one (units "add" ∷ units "subtract" ∷ units "multiply" ∷ units "divide" ∷ [])
          (at (units "op") fs)
      && left
      && right
is_value_expression (suc levels) _ = false

abbrev comparisons : List Text
comparisons = units "eq" ∷ units "neq" ∷ units "gt" ∷ units "gte" ∷ units "lt" ∷ units "lte" ∷ []

-- validatePredicate
unfoldable pub is_predicate : ℕ → JsonValue → Bool
unfolding names_one at has_known is_text is_array every_item item_count is_value_expression ◌===◌
is_predicate zero v = false
is_predicate (suc levels) (object fs) =
    let operand = is_predicate levels (at (units "operand") fs) in
    let operands =
      is_array
        (λ xs.
          leb 1 (item_count xs)
          && leb (item_count xs) 32
          && every_item (λ v. is_predicate levels v) xs)
        (at (units "operands") fs) in
    if names_one comparisons (at (units "op") fs)
    then has_known (units "op" ∷ units "left" ∷ units "right" ∷ []) fs
      && is_value_expression levels (at (units "left") fs)
      && is_value_expression levels (at (units "right") fs)
    else if is_text (λ op. op === units "and" || op === units "or") (at (units "op") fs)
    then has_known (units "op" ∷ units "operands" ∷ []) fs && operands
    else is_text (λ op. op === units "not") (at (units "op") fs)
      && has_known (units "op" ∷ units "operand" ∷ []) fs
      && operand
is_predicate (suc levels) _ = false

-- assertJsonValue of validation.ts, by the levels that are left.
unfoldable mutual
  unfolding is_finite is_safe_key

  pub is_plain : ℕ → JsonValue → Bool
  is_plain zero v = false
  is_plain (suc levels) null = true
  is_plain (suc levels) undefined = false
  is_plain (suc levels) (boolean b) = true
  is_plain (suc levels) (string s) = true
  is_plain (suc levels) (number n) = is_finite n
  is_plain (suc levels) (array xs) = are_plain levels xs
  is_plain (suc levels) (object fs) = are_plain_fields levels fs

  pub are_plain : ℕ → Items → Bool
  are_plain levels no_items = true
  are_plain levels (item v xs) = is_plain levels v && are_plain levels xs

  pub are_plain_fields : ℕ → Fields → Bool
  are_plain_fields levels no_fields = true
  are_plain_fields levels (field key v fs) =
      is_safe_key key && is_plain levels v && are_plain_fields levels fs
