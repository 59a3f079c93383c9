-- ===== src/Common/Texts.antt =====
-- JavaScript strings as the lists of their UTF-16 code units, so that `length`, `charCodeAt`,
-- `slice`, `startsWith` and `===` are the source's.
use Prim.Native.Nat.{ℕ}
use Prim.Native.Char.{code}
use Prim.Native.String.{String}
use mathlib.Core.Path.{◌≡◌, refl}
use mathlib.Core.Logic.{◌↔◌}
use mathlib.Core.Bool.{Bool, true, false, ◌&&◌, ◌||◌}
use mathlib.Core.Option.{Option, none, some}
use mathlib.Core.List.{List, [], ◌∷◌, ◌++◌}
use native.Mathlib.Omega.{arith}
use browser_cortex.Common.Tests.{◌==◌, leb, ltb}

abbrev pub Text : Type 0
Text = List ℕ

-- The code units of a literal whose characters lie in the basic plane.
abbrev pub units : String → Text
units String.[] = []
units (String.◌∷◌ c s) = code c ∷ units s

infix 50 ◌===◌
unfoldable pub ◌===◌ : Text → Text → Bool
[] === [] = true
[] === (b ∷ bs) = false
(a ∷ as') === [] = false
(a ∷ as') === (b ∷ bs) = a == b && as' === bs

pub ===_iff : (a b : Text) → ((a === b) ≡ true) ↔ (a ≡ b)
unfolding ◌===◌
===_iff [] [] = ground arith
===_iff [] (b ∷ bs) = ground arith
===_iff (a ∷ as') [] = ground arith
===_iff (a ∷ as') (b ∷ bs) = ground (arith, ===_iff as' bs)

pub ===_refl : (a : Text) → (a === a) ≡ true
===_refl a = (===_iff a a).1 refl

pub ===_sym : (a b : Text) → (a === b) ≡ (b === a)
===_sym a b = ground (arith, ===_iff a b, ===_iff b a)

-- `left === right` where either may be `undefined`.
abbrev pub same_option : Option Text → Option Text → Bool
same_option none none = true
same_option none (some b) = false
same_option (some a) none = false
same_option (some a) (some b) = a === b

pub same_option_iff : (a b : Option Text) → (same_option a b ≡ true) ↔ (a ≡ b)
same_option_iff none none = ground arith
same_option_iff none (some b) = ground arith
same_option_iff (some a) none = ground arith
same_option_iff (some a) (some b) = ground (arith, ===_iff a b)

-- `text.startsWith(prefix)`.
unfoldable pub starts_with : Text → Text → Bool
starts_with text [] = true
starts_with [] (p ∷ ps) = false
starts_with (c ∷ cs) (p ∷ ps) = c == p && starts_with cs ps

pub starts_with-append : (p rest : Text) → starts_with (p ++ rest) p ≡ true
unfolding starts_with
starts_with-append [] rest = refl
starts_with-append (c ∷ p) rest = ground (arith, starts_with-append p rest)

pub append_of_starts_with :
    (text p : Text) → starts_with text p ≡ true → (rest : Text) × (text ≡ p ++ rest)
unfolding starts_with
append_of_starts_with text [] h = (text, refl)
append_of_starts_with [] (c ∷ p) h = absurd (ground arith)
append_of_starts_with (d ∷ text) (c ∷ p) h =
    let (rest, e) = append_of_starts_with text p (ground arith) in (rest, ground arith)

-- `list.includes(text)`, and `Set.has`.
unfoldable pub includes : List Text → Text → Bool
includes [] a = false
includes (x ∷ xs) a = x === a || includes xs a

pub includes-append :
    (xs : List Text) (x a : Text) → includes (xs ++ x ∷ []) a ≡ (includes xs a || x === a)
unfolding includes
includes-append [] x a = ground arith
includes-append (y ∷ xs) x a = ground (arith, includes-append xs x a)

-- Character classes of the regular expressions.
unfoldable pub in_range : ℕ → ℕ → ℕ → Bool
in_range low high c = leb low c && leb c high

-- The order of strings by code units, as `<=` and `sort` have it.
unfoldable pub text_le : Text → Text → Bool
text_le [] b = true
text_le (x ∷ a) [] = false
text_le (x ∷ a) (y ∷ b) = ltb x y || (x == y && text_le a b)
