-- ===== src/Memory/Encoding.antt =====
-- packages/memory/src/encoding.ts: `toBase64` and `fromBase64`. A byte string is the list of its
-- bytes. `|` joins numbers whose bits do not overlap, so that it is written `+`.
pub mod Groups
pub mod RoundTrip
mod Tests
use browser_cortex.Common.{
  ℕ, zero, suc, ◌+◌, ◌-◌, ◌*◌, ◌/◌, ◌%◌, Bool, true, false, not, ◌&&◌, ◌||◌, Option, none, some,
  List, [], ◌∷◌, ◌++◌, Text, ◌===◌, units, in_range, length, every, take, ltb, leb, ◌==◌,
  if◌then◌else◌,
}

abbrev pub alphabet : Text
alphabet = units "ABCDEFGHIJKLMNOPQRSTUVWXYZabcdefghijklmnopqrstuvwxyz0123456789+/"

-- `BASE64_ALPHABET[index]`
unfoldable pub char_at : ℕ → Text → ℕ
char_at n [] = 0
char_at zero (c ∷ cs) = c
char_at (suc n) (c ∷ cs) = char_at n cs

-- `BASE64_ALPHABET.indexOf(char)`; `none` is -1.
unfoldable pub index_of : ℕ → Text → Option ℕ
index_of c [] = none
index_of c (d ∷ ds) =
    let rest = index_of c ds in
    if d == c then some 0 else elim rest [ none ↦ none | some n ↦ some (suc n) ]

-- The four units of three bytes.
unfoldable pub group : ℕ → ℕ → ℕ → Text
unfolding char_at
group a b c =
    let triple = a * 65536 + b * 256 + c in
    char_at ((triple / 262144) % 64) alphabet
    ∷ char_at ((triple / 4096) % 64) alphabet
    ∷ char_at ((triple / 64) % 64) alphabet
    ∷ char_at (triple % 64) alphabet
    ∷ []

-- toBase64; the loop goes by three bytes, and "=" stands for a byte that is missing.
unfoldable pub to_base64 : List ℕ → Text
unfolding group
to_base64 [] = []
to_base64 (a ∷ []) = take 2 (group a 0 0) ++ b'=' ∷ b'=' ∷ []
to_base64 (a ∷ b ∷ []) = take 3 (group a b 0) ++ b'=' ∷ []
to_base64 (a ∷ b ∷ c ∷ rest) = group a b c ++ to_base64 rest

-- [A-Za-z0-9+/=]
unfoldable pub is_base64_unit : ℕ → Bool
unfolding in_range
is_base64_unit c =
    in_range b'A' b'Z' c
    || in_range b'a' b'z' c
    || in_range b'0' b'9' c
    || c == b'+'
    || c == b'/'
    || c == b'='

-- `value.endsWith(suffix)`
unfoldable pub ends_with : Text → Text → Bool
unfolding ◌===◌
ends_with [] suffix = [] === suffix
ends_with (c ∷ t) suffix = (c ∷ t) === suffix || ends_with t suffix

unfoldable pub padding : Text → ℕ
unfolding ends_with
padding value =
    if ends_with value (units "==") then 2 else if ends_with value (units "=") then 1 else 0

-- `char === "=" ? 0 : BASE64_ALPHABET.indexOf(char)`
unfoldable pub value_of : ℕ → Option ℕ
unfolding index_of
value_of c = if c == b'=' then some 0 else index_of c alphabet

-- The three bytes of four units.
abbrev pub bytes_of_group : Option ℕ → Option ℕ → Option ℕ → Option ℕ → Option (List ℕ)
bytes_of_group (some p) (some q) (some r) (some s) =
    let triple = p * 262144 + q * 4096 + r * 64 + s in
    some ((triple / 65536) % 256 ∷ (triple / 256) % 256 ∷ triple % 256 ∷ [])
bytes_of_group _ _ _ _ = none

abbrev pub append_option : Option (List ℕ) → Option (List ℕ) → Option (List ℕ)
append_option (some xs) (some ys) = some (xs ++ ys)
append_option _ _ = none

-- The loop by four units, with no bound on what it writes.
unfoldable pub all_bytes : Text → Option (List ℕ)
unfolding value_of
all_bytes (c ∷ d ∷ e ∷ f ∷ rest) =
    append_option (bytes_of_group (value_of c) (value_of d) (value_of e) (value_of f))
      (all_bytes rest)
all_bytes _ = some []

abbrev pub first_bytes : ℕ → Option (List ℕ) → Option (List ℕ)
first_bytes n none = none
first_bytes n (some bytes) = some (take n bytes)

-- fromBase64; `none` is the error. The result has room for `(value.length / 4) * 3 - padding` bytes.
unfoldable pub from_base64 : Text → Option (List ℕ)
unfolding padding all_bytes is_base64_unit
from_base64 value =
    if length value == 0 || not (length value % 4 == 0) || not (every is_base64_unit value)
    then none
    else first_bytes (length value / 4 * 3 - padding value) (all_bytes value)
