-- ===== src/Contracts/Schemas.antt =====
-- packages/contracts/src/schemas.ts: the string schemas, as Boolean tests on code units.
use browser_cortex.Common.{
  ℕ, Bool, false, ◌&&◌, ◌||◌, [], ◌∷◌, Text, length, every, units, in_range, starts_with, drop, leb,
  ltb, ◌==◌, ◌+◌, if◌then◌else◌,
}
use browser_cortex.Contracts.Limits

-- [A-Za-z0-9]
unfoldable pub is_alphanumeric : ℕ → Bool
unfolding in_range
is_alphanumeric c = in_range b'A' b'Z' c || in_range b'a' b'z' c || in_range b'0' b'9' c

-- [A-Za-z0-9._:-]
unfoldable pub is_identifier_unit : ℕ → Bool
unfolding is_alphanumeric
is_identifier_unit c = is_alphanumeric c || c == b'.' || c == b'_' || c == b':' || c == b'-'

-- IdentifierSchema: 1 to 128 characters of ^[A-Za-z0-9][A-Za-z0-9._:-]*$.
unfoldable pub is_identifier : Text → Bool
unfolding is_identifier_unit
is_identifier [] = false
is_identifier (c ∷ rest) =
    leb (length (c ∷ rest)) Limits.identifier_characters
    && is_alphanumeric c
    && every is_identifier_unit rest

-- [a-f0-9]
unfoldable pub is_hex : ℕ → Bool
unfolding in_range
is_hex c = in_range b'a' b'f' c || in_range b'0' b'9' c

-- FingerprintSchema: ^sha256:[a-f0-9]{64}$.
unfoldable pub is_fingerprint : Text → Bool
unfolding starts_with is_hex
is_fingerprint t = starts_with t (units "sha256:") && length t == 71 && every is_hex (drop 7 t)

-- z.string().min(1).max(limit)
unfoldable pub is_bounded_text : ℕ → Text → Bool
is_bounded_text limit t = leb 1 (length t) && leb (length t) limit

-- [0xD800-0xDBFF] and [0xDC00-0xDFFF]
abbrev is_high_surrogate : ℕ → Bool
is_high_surrogate c = leb 0xd800 c && leb c 0xdbff

abbrev is_low_surrogate : ℕ → Bool
is_low_surrogate c = leb 0xdc00 c && leb c 0xdfff

-- The bytes of a code unit that is no half of a surrogate pair; a lone surrogate is encoded as U+FFFD.
abbrev unit_bytes : ℕ → ℕ
unit_bytes c = if ltb c 0x80 then 1 else if ltb c 0x800 then 2 else 3

-- utf8ByteLength of json.ts: the length of what `TextEncoder` gives.
unfoldable pub utf8_byte_length : Text → ℕ
utf8_byte_length [] = 0
utf8_byte_length (c ∷ []) = unit_bytes c
utf8_byte_length (c ∷ d ∷ rest) =
    let pair = 4 + utf8_byte_length rest in
    let single = unit_bytes c + utf8_byte_length (d ∷ rest) in
    if is_high_surrogate c && is_low_surrogate d then pair else single
