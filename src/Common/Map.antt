-- ===== src/Common/Map.antt =====
-- JavaScript's `Map` with string keys: an association list in the order of insertion. `set` on a
-- key that is present keeps its place.
pub mod Distinct
use Prim.Native.Nat.{ℕ, ◌+◌, zero, ◌≤◌}
use mathlib.Core.Path.{◌≡◌, refl}
use mathlib.Core.Bool.{Bool, true, false}
use mathlib.Core.Option.{Option, none, some}
use mathlib.Core.List.{List, [], ◌∷◌}
use native.Mathlib.Omega.{arith}
use browser_cortex.Common.Tests.{if◌then◌else◌}
use browser_cortex.Common.Texts.{Text, ◌===◌, ===_iff}
use browser_cortex.Common.Lists.{length}

abbrev pub Map {ℓ} : Type ℓ → Type ℓ
Map V = List (Text × V)

module _ {ℓ} {V : Type ℓ} where
  unfoldable pub get : Text → Map V → Option V
  get k [] = none
  get k ((j, v) ∷ m) = if j === k then some v else get k m

  abbrev pub has : Text → Map V → Bool
  has k m = elim (get k m) [ none ↦ false | some v ↦ true ]

  unfoldable pub set : Text → V → Map V → Map V
  set k v [] = (k, v) ∷ []
  set k v ((j, w) ∷ m) = if j === k then (j, v) ∷ m else (j, w) ∷ set k v m

  unfoldable pub delete : Text → Map V → Map V
  delete k [] = []
  delete k ((j, w) ∷ m) = let rest = delete k m in if j === k then rest else (j, w) ∷ rest

  -- `for (const [key, value] of map) if (test(value)) { map.delete(key); removed += 1; }`, with the
  -- count of the entries that were removed.
  unfoldable pub remove_where : (V → Bool) → Map V → Map V × ℕ
  remove_where test [] = ([], 0)
  remove_where test ((k, v) ∷ m) =
      let (kept, removed) = remove_where test m in
      if test v then (kept, removed + 1) else ((k, v) ∷ kept, removed)

  pub get-set :
      (k j : Text) (v : V) (m : Map V) → get j (set k v m) ≡ (if k === j then some v else get j m)
  unfolding get set
  get-set k j v [] = refl
  get-set k j v ((i, w) ∷ m) =
      ground (arith, ===_iff k j, ===_iff i k, ===_iff i j, get-set k j v m)

  pub get-delete :
      (k j : Text) (m : Map V) → get j (delete k m) ≡ (if k === j then none else get j m)
  unfolding get delete
  get-delete k j [] = ground arith
  get-delete k j ((i, w) ∷ m) =
      ground (arith, ===_iff k j, ===_iff i k, ===_iff i j, get-delete k j m)

  pub get_of_has : (k : Text) (m : Map V) → has k m ≡ true → (v : V) × (get k m ≡ some v)
  get_of_has k m h = ground arith

  pub get_of_not_has : (k : Text) (m : Map V) → has k m ≡ false → get k m ≡ none
  get_of_not_has k m h = ground arith

  pub length-delete-le : (k : Text) (m : Map V) → length (delete k m) ≤ length m
  unfolding delete
  length-delete-le k [] = omega arith
  length-delete-le k ((j, v) ∷ m) = ground (arith, length-delete-le k m)
