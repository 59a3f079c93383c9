-- ===== src/Memory/Encoding/RoundTrip.antt =====
-- Bytes that are written in base64 and read back (encoding.ts).
use browser_cortex.Common.{
  ℕ, zero, suc, ◌+◌, ◌-◌, ◌*◌, ◌/◌, ◌%◌, ◌≤◌, ◌≡◌, refl, ap, ap₂, ◌∙◌, Bool, true, false, not, ◌&&◌,
  ◌||◌, some, List, [], ◌∷◌, ◌++◌, Text, ◌===◌, ===_iff, units, in_range, length, every, take, All,
  arith, ◌==◌, if◌then◌else◌, Bool-cases, inl, inr, if_intro,
}
use browser_cortex.Memory.Encoding.{
  alphabet, char_at, group, to_base64, is_base64_unit, ends_with, padding, first_bytes, from_base64,
}
use browser_cortex.Memory.Encoding.Groups.{IsByte, pad, zeros, groups, char-allowed, all_bytes-to}

length-to : (bytes : List ℕ) → length (to_base64 bytes) ≡ 4 * groups bytes
unfolding to_base64 group groups
length-to [] = refl
length-to (a ∷ []) = refl
length-to (a ∷ b ∷ []) = refl
length-to (a ∷ b ∷ c ∷ rest) = omega (arith, length-to rest)

groups-length : (bytes : List ℕ) → 3 * groups bytes ≡ length bytes + pad bytes
unfolding groups pad
groups-length [] = refl
groups-length (a ∷ []) = refl
groups-length (a ∷ b ∷ []) = refl
groups-length (a ∷ b ∷ c ∷ rest) = omega (arith, groups-length rest)

groups-positive : (a : ℕ) (rest : List ℕ) → 1 ≤ groups (a ∷ rest)
unfolding groups
groups-positive a [] = omega arith
groups-positive a (b ∷ []) = omega arith
groups-positive a (b ∷ c ∷ rest) = omega arith

===-length : (a b : Text) → (a === b) ≡ true → length a ≡ length b
===-length a b h = ap length ((===_iff a b).0 h)

ends_with-cons :
    (c : ℕ) (t suffix : Text)
    → length suffix ≤ length t
    → ends_with (c ∷ t) suffix ≡ ends_with t suffix
unfolding ends_with
ends_with-cons c t suffix h = elim (Bool-cases ((c ∷ t) === suffix)) [
  | inl same ↦ absurd (omega (arith, ===-length (c ∷ t) suffix same))
  | inr other ↦ ap (λ b. b || ends_with t suffix) other
]

padding-cons : (c : ℕ) (t : Text) → 2 ≤ length t → padding (c ∷ t) ≡ padding t
unfolding padding
padding-cons c t h =
    ap₂ (λ (x y : Bool). if x then 2 else if y then 1 else 0) (ends_with-cons c t (units "==") h)
      (ends_with-cons c t (units "=") (omega arith))

char-no_padding : (n : ℕ) → (char_at (n % 64) alphabet == b'=') ≡ false
char-no_padding n = ground (arith, char-allowed (n % 64) (omega arith))

padding-two : padding (b'=' ∷ b'=' ∷ []) ≡ 2
unfolding padding ends_with ◌===◌
padding-two = refl

padding-one : (e : ℕ) → (e == b'=') ≡ false → padding (e ∷ b'=' ∷ []) ≡ 1
unfolding padding ends_with ◌===◌
padding-one e h = ground (arith, h)

padding-zero : (e f : ℕ) → (f == b'=') ≡ false → padding (e ∷ f ∷ []) ≡ 0
unfolding padding ends_with ◌===◌
padding-zero e f h = ground (arith, h)

padding-group :
    (c d e f : ℕ) (rest : Text) → 2 ≤ length rest → padding (c ∷ d ∷ e ∷ f ∷ rest) ≡ padding rest
padding-group c d e f rest h =
    padding-cons c (d ∷ e ∷ f ∷ rest) (omega arith)
    ∙ padding-cons d (e ∷ f ∷ rest) (omega arith)
    ∙ padding-cons e (f ∷ rest) (omega arith)
    ∙ padding-cons f rest h

padding-last : (c d e f : ℕ) → padding (c ∷ d ∷ e ∷ f ∷ []) ≡ padding (e ∷ f ∷ [])
padding-last c d e f =
    padding-cons c (d ∷ e ∷ f ∷ []) (omega arith) ∙ padding-cons d (e ∷ f ∷ []) (omega arith)

padding-to : (a : ℕ) (bytes : List ℕ) → padding (to_base64 (a ∷ bytes)) ≡ pad (a ∷ bytes)
unfolding to_base64 group pad
padding-to a [] = padding-last _ _ _ _ ∙ padding-two
padding-to a (b ∷ []) =
    padding-last _ _ _ _ ∙ padding-one _ (char-no_padding ((a * 65536 + b * 256 + 0) / 64))
padding-to a (b ∷ c ∷ []) =
    padding-last _ _ _ _ ∙ padding-zero _ _ (char-no_padding (a * 65536 + b * 256 + c))
padding-to a (b ∷ c ∷ d ∷ rest) =
    padding-group _ _ _ _ (to_base64 (d ∷ rest))
      (omega (arith, length-to (d ∷ rest), groups-positive d rest))
    ∙ padding-to d rest

char-unit : (n : ℕ) → is_base64_unit (char_at (n % 64) alphabet) ≡ true
char-unit n = ground (arith, char-allowed (n % 64) (omega arith))

padding-unit : is_base64_unit b'=' ≡ true
unfolding is_base64_unit in_range
padding-unit = refl

all_five :
    (v w x y z : Bool)
    → v ≡ true
    → w ≡ true
    → x ≡ true
    → y ≡ true
    → z ≡ true
    → (v && (w && (x && (y && z)))) ≡ true
all_five v w x y z a b c d e = ground arith

units-to : (bytes : List ℕ) → every is_base64_unit (to_base64 bytes) ≡ true
unfolding to_base64 group
units-to [] = refl
units-to (a ∷ []) =
    let t = a * 65536 + 0 * 256 + 0 in
    all_five _ _ _ _ _ (char-unit (t / 262144)) (char-unit (t / 4096)) padding-unit padding-unit
      refl
units-to (a ∷ b ∷ []) =
    let t = a * 65536 + b * 256 + 0 in
    all_five _ _ _ _ _ (char-unit (t / 262144)) (char-unit (t / 4096)) (char-unit (t / 64))
      padding-unit refl
units-to (a ∷ b ∷ c ∷ rest) =
    let t = a * 65536 + b * 256 + c in
    all_five _ _ _ _ _ (char-unit (t / 262144)) (char-unit (t / 4096)) (char-unit (t / 64))
      (char-unit t) (units-to rest)

take-append : (xs ys : List ℕ) (n : ℕ) → n ≡ length xs → take n (xs ++ ys) ≡ xs
take-append [] ys zero h = refl
take-append [] ys (suc n) h = absurd (omega arith)
take-append (x ∷ xs) ys zero h = absurd (omega arith)
take-append (x ∷ xs) ys (suc n) h = ap (λ zs. x ∷ zs) (take-append xs ys n (omega arith))

-- The guards of fromBase64 for a text of whole groups of allowed units.
guards-pass :
    (value : Text) (n : ℕ)
    → length value ≡ 4 * n
    → 1 ≤ n
    → every is_base64_unit value ≡ true
    → (length value == 0 || not (length value % 4 == 0) || not (every is_base64_unit value)) ≡ false
guards-pass value n size some_group units_pass = ground arith

-- Reading back what was written in base64 gives the same bytes, for every non-empty list of bytes.
pub from_base64-to_base64 :
    (a : ℕ) (bytes : List ℕ)
    → All IsByte (a ∷ bytes)
    → from_base64 (to_base64 (a ∷ bytes)) ≡ some (a ∷ bytes)
unfolding from_base64
from_base64-to_base64 a bytes h =
    let value = to_base64 (a ∷ bytes) in
    let size = length-to (a ∷ bytes) in
    let room : length value / 4 * 3 - padding value ≡ length (a ∷ bytes) =
      omega (arith, size, padding-to a bytes, groups-length (a ∷ bytes)) in
    if_intro (λ r. r ≡ some (a ∷ bytes))
      (length value == 0 || not (length value % 4 == 0) || not (every is_base64_unit value)) _ _
      (λ bad. absurd (
        cc (
          bad,
          guards-pass value (groups (a ∷ bytes)) size (groups-positive a bytes)
              (units-to (a ∷ bytes)),
        )))
      (λ good.
        ap (first_bytes (length value / 4 * 3 - padding value)) (all_bytes-to (a ∷ bytes) h)
        ∙ ap some (take-append (a ∷ bytes) (zeros (pad (a ∷ bytes))) _ room))
