-- ===== src/Common/Numbers.antt =====
-- JavaScript numbers, as far as the guards look at them.
use Prim.Native.Nat.{ℕ, ◌≤◌, ◌<◌}
use mathlib.Core.Path.{◌≡◌}
use mathlib.Core.Option.{Option, none, some}
use native.Mathlib.Omega.{arith}
use browser_cortex.Common.Tests.{leb, ltb, if◌then◌else◌}
use mathlib.Core.Bool.{Bool, false, ◌&&◌}

-- `minus n` is -(n + 1); `inexact` is a number that is no integer, NaN or an infinity.
pub data Number : Type 0 where
  nat : ℕ → Number
  minus : ℕ → Number
  inexact : Number

-- Number.MAX_SAFE_INTEGER
abbrev pub max_safe_integer : ℕ
max_safe_integer = 9007199254740991

-- Number.isSafeInteger
unfoldable pub is_safe_integer : Number → Bool
is_safe_integer (nat n) = leb n max_safe_integer
is_safe_integer (minus n) = ltb n max_safe_integer
is_safe_integer inexact = false

-- The value of a number that passes `Number.isSafeInteger(value) && value >= 0`.
unfoldable pub safe_natural : Number → Option ℕ
unfolding is_safe_integer
safe_natural (nat n) = if is_safe_integer (nat n) then some n else none
safe_natural (minus n) = none
safe_natural inexact = none

-- The value of a number that passes `Number.isSafeInteger(value) && value > 0 && value <= limit`.
unfoldable pub bounded_positive : ℕ → Number → Option ℕ
unfolding is_safe_integer
bounded_positive limit (nat n) =
    if is_safe_integer (nat n) && ltb 0 n && leb n limit then some n else none
bounded_positive limit (minus n) = none
bounded_positive limit inexact = none

pub safe_natural-eq-some :
    (v : Number) (n : ℕ) → safe_natural v ≡ some n → (v ≡ nat n) × (n ≤ max_safe_integer)
unfolding safe_natural
safe_natural-eq-some v n h = ground arith

pub bounded_positive-eq-some :
    (limit : ℕ) (v : Number) (n : ℕ)
    → bounded_positive limit v ≡ some n
    → (v ≡ nat n) × (0 < n) × (n ≤ limit) × (n ≤ max_safe_integer)
unfolding bounded_positive
bounded_positive-eq-some limit v n h = ground arith
