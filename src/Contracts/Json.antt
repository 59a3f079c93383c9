-- ===== src/Contracts/Json.antt =====
-- packages/contracts/src/json.ts: JSON values, the check of an unknown value, and the canonical form.
-- A thrown `TypeError` is `none`.
pub mod Shapes
pub mod Fits
pub mod Order
mod Tests
use browser_cortex.Common.{
  ℕ, zero, suc, ◌===◌, ◌+◌, ◌*◌, ◌/◌, ◌%◌, Bool, true, false, not, ◌&&◌, ◌||◌, Option, none, some,
  List, [], ◌∷◌, ◌++◌, Text, length, map, units, includes, in_range, text_le, leb, ltb, ◌==◌,
  if◌then◌else◌,
}
use browser_cortex.Contracts.Limits
use browser_cortex.Contracts.Schemas.{utf8_byte_length}

-- A number of JavaScript: an integer below 10^21 in magnitude (`negative n` is -(n + 1), and -0 is
-- 0), another finite number, by what `JSON.stringify` prints for it, or NaN and the infinities.
pub data Double : Type 0 where
  whole : ℕ → Double
  negative : ℕ → Double
  fraction : Text → Double
  not_finite : Double

-- type JsonValue, and `undefined`, which stands for all that `typeof` tells apart from JSON. The
-- keys of `Fields` are in the order of `Object.keys`.
mutual
  pub data JsonValue : Type 0 where
    null undefined : JsonValue
    boolean : Bool → JsonValue
    number : Double → JsonValue
    string : Text → JsonValue
    array : Items → JsonValue
    object : Fields → JsonValue

  pub data Items : Type 0 where
    no_items : Items
    item : JsonValue → Items → Items

  pub data Fields : Type 0 where
    no_fields : Fields
    field : Text → JsonValue → Fields → Fields

-- `array.length` and `Object.keys(object).length`
unfoldable pub item_count : Items → ℕ
item_count no_items = 0
item_count (item v xs) = suc (item_count xs)

unfoldable pub field_count : Fields → ℕ
field_count no_fields = 0
field_count (field key v fs) = suc (field_count fs)

-- `Object.keys(object)`
unfoldable pub keys : Fields → List Text
keys no_fields = []
keys (field key v fs) = key ∷ keys fs

-- FORBIDDEN_KEYS
abbrev pub forbidden_keys : List Text
forbidden_keys = units "__proto__" ∷ units "constructor" ∷ units "prototype" ∷ []

-- interface CanonicalizeLimits, with the defaults filled in.
pub record CanonicalizeLimits : Type 0 where
  pub max_depth : ℕ
  pub max_entries : ℕ
  pub max_string_characters : ℕ
  pub max_bytes : ℕ

abbrev pub default_limits : CanonicalizeLimits
default_limits = record {
  max_depth = Limits.json_depth;
  max_entries = Limits.json_entries;
  max_string_characters = Limits.json_string_characters;
  max_bytes = Limits.canonical_bytes;
}

-- What follows a check that throws when it fails.
abbrev pub behind {ℓ} : {A : Type ℓ} → Bool → Option A → Option A
behind true rest = rest
behind false rest = none

abbrev pub then_visit : Option ℕ → (ℕ → Option ℕ) → Option ℕ
then_visit none rest = none
then_visit (some entries) rest = rest entries

unfoldable pub is_finite : Double → Bool
is_finite not_finite = false
is_finite _ = true

-- A key of an object before its value is visited.
unfoldable pub is_clean_key : CanonicalizeLimits → Text → Bool
unfolding includes
is_clean_key limits key =
    not (includes forbidden_keys key) && leb (length key) limits.max_string_characters

-- `visit(candidate, depth)`: the count of entries after it, or `none` when it throws. A value of the
-- model has no cycles.
unfoldable mutual
  unfolding is_finite item_count field_count is_clean_key

  pub visit : CanonicalizeLimits → JsonValue → ℕ → ℕ → Option ℕ
  visit limits null depth entries = behind (leb depth limits.max_depth) (some entries)
  visit limits undefined depth entries = none
  visit limits (boolean b) depth entries = behind (leb depth limits.max_depth) (some entries)
  visit limits (number n) depth entries =
      behind (leb depth limits.max_depth) (behind (is_finite n) (some entries))
  visit limits (string s) depth entries =
      behind (leb depth limits.max_depth)
        (behind (leb (length s) limits.max_string_characters) (some entries))
  visit limits (array xs) depth entries = behind (leb depth limits.max_depth) (
      behind (leb (entries + item_count xs) limits.max_entries)
        (visit_items limits xs (suc depth) (entries + item_count xs)))
  visit limits (object fs) depth entries = behind (leb depth limits.max_depth) (
      behind (leb (entries + field_count fs) limits.max_entries)
        (visit_fields limits fs (suc depth) (entries + field_count fs)))

  pub visit_items : CanonicalizeLimits → Items → ℕ → ℕ → Option ℕ
  visit_items limits no_items depth entries = some entries
  visit_items limits (item v xs) depth entries =
      then_visit (visit limits v depth entries) (λ n. visit_items limits xs depth n)

  pub visit_fields : CanonicalizeLimits → Fields → ℕ → ℕ → Option ℕ
  visit_fields limits no_fields depth entries = some entries
  visit_fields limits (field key v fs) depth entries =
      behind (is_clean_key limits key)
        (then_visit (visit limits v depth entries) (λ n. visit_fields limits fs depth n))

abbrev pub returned : Option ℕ → Option (Unit {0})
returned none = none
returned (some entries) = some tt

-- Whether `assertJsonValue` returns.
unfoldable pub assert_json_value : CanonicalizeLimits → JsonValue → Option (Unit {0})
unfolding visit
assert_json_value limits v = elim (visit limits v 0 0) [ none ↦ none | some n ↦ some tt ]

-- The lower-case hexadecimal digit below 16.
abbrev hex_digit : ℕ → ℕ
hex_digit d = if ltb d 10 then 48 + d else 87 + d

-- \uXXXX
unfoldable pub unicode_escape : ℕ → Text
unicode_escape c =
    b'\\'
    ∷ b'u'
    ∷ hex_digit (c / 4096)
    ∷ hex_digit ((c / 256) % 16)
    ∷ hex_digit ((c / 16) % 16)
    ∷ hex_digit (c % 16)
    ∷ []

-- How `JSON.stringify` writes a code unit that is no half of a surrogate pair.
unfoldable pub escape_unit : ℕ → Text
unfolding unicode_escape
escape_unit c =
    if c == b'"'
    then b'\\' ∷ b'"' ∷ []
    else if c == b'\\'
    then b'\\' ∷ b'\\' ∷ []
    else if c == 8
    then b'\\' ∷ b'b' ∷ []
    else if c == 12
    then b'\\' ∷ b'f' ∷ []
    else if c == 10
    then b'\\' ∷ b'n' ∷ []
    else if c == 13
    then b'\\' ∷ b'r' ∷ []
    else if c == 9
    then b'\\' ∷ b't' ∷ []
    else if ltb c 32 || in_range 0xd800 0xdfff c
    then unicode_escape c
    else c ∷ []

unfoldable pub escape_text : Text → Text
unfolding escape_unit in_range
escape_text [] = []
escape_text (c ∷ []) = escape_unit c
escape_text (c ∷ d ∷ rest) =
    let pair = c ∷ d ∷ escape_text rest in
    let single = escape_unit c ++ escape_text (d ∷ rest) in
    if in_range 0xd800 0xdbff c && in_range 0xdc00 0xdfff d then pair else single

-- `JSON.stringify` of a string.
unfoldable pub quote : Text → Text
unfolding escape_text
quote t = b'"' ∷ (escape_text t ++ b'"' ∷ [])

-- The decimal digits before `rest`; an integer below 10^21 has 21 at most.
unfoldable pub digits_from : ℕ → ℕ → Text → Text
digits_from zero n rest = rest
digits_from (suc fuel) n rest =
    let more = digits_from fuel (n / 10) ((48 + n % 10) ∷ rest) in
    if ltb n 10 then (48 + n) ∷ rest else more

-- `JSON.stringify` of a number.
unfoldable pub print_number : Double → Text
unfolding digits_from
print_number (whole n) = digits_from 21 n []
print_number (negative n) = b'-' ∷ digits_from 21 (suc n) []
print_number (fraction t) = t
print_number not_finite = units "null"

-- `parts.join(',')`
unfoldable pub join_commas : List Text → Text
join_commas [] = []
join_commas (t ∷ []) = t
join_commas (t ∷ u ∷ ts) = t ++ b',' ∷ join_commas (u ∷ ts)

-- `Object.keys(candidate).sort()`, each key with the text of its value.
unfoldable pub insert_key : Text × Text → List (Text × Text) → List (Text × Text)
unfolding text_le
insert_key e [] = e ∷ []
insert_key e (f ∷ fs) = if text_le e.0 f.0 then e ∷ f ∷ fs else f ∷ insert_key e fs

unfoldable pub sort_keys : List (Text × Text) → List (Text × Text)
unfolding insert_key
sort_keys [] = []
sort_keys (e ∷ es) = insert_key e (sort_keys es)

-- `${JSON.stringify(key)}:${serialize(candidate[key])}`
unfoldable pub member : Text × Text → Text
unfolding quote
member e = quote e.0 ++ b':' ∷ e.1

unfoldable pub members : List (Text × Text) → Text
unfolding join_commas sort_keys member
members es = b'{' ∷ (join_commas (map member (sort_keys es)) ++ b'}' ∷ [])

unfoldable mutual
  unfolding members print_number

  pub serialize : JsonValue → Text
  serialize null = units "null"
  serialize undefined = units "undefined"
  serialize (boolean true) = units "true"
  serialize (boolean false) = units "false"
  serialize (number n) = print_number n
  serialize (string s) = quote s
  serialize (array xs) = b'[' ∷ (join_commas (serialize_items xs) ++ b']' ∷ [])
  serialize (object fs) = members (serialize_fields fs)

  pub serialize_items : Items → List Text
  serialize_items no_items = []
  serialize_items (item v xs) = serialize v ∷ serialize_items xs

  pub serialize_fields : Fields → List (Text × Text)
  serialize_fields no_fields = []
  serialize_fields (field key v fs) = (key, serialize v) ∷ serialize_fields fs

-- The canonical text within the limit of bytes, or `none` when `canonicalize` throws.
unfoldable pub canonicalize : CanonicalizeLimits → JsonValue → Option Text
unfolding assert_json_value serialize
canonicalize limits v =
    let serialized = serialize v in
    elim (assert_json_value limits v) [
      | none ↦ none
      | some _ ↦ behind (leb (utf8_byte_length serialized) limits.max_bytes) (some serialized)
    ]

-- `object[key]`, or `none` when the object has no such key.
unfoldable pub get : Text → Fields → Option JsonValue
get key no_fields = none
get key (field k v fs) = let rest = get key fs in if k === key then some v else rest

-- `array.every`, and the elements of an array.
unfoldable pub every_item : (JsonValue → Bool) → Items → Bool
every_item test no_items = true
every_item test (item v xs) = test v && every_item test xs
