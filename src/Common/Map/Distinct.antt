-- ===== src/Common/Map/Distinct.antt =====
-- What every value of a map has, and maps whose keys are distinct, as a JavaScript `Map` keeps them.
use Prim.Native.Nat.{◌+◌}
use mathlib.Core.Path.{◌≡◌, refl, subst}
use mathlib.Core.Logic.{◌≢◌, inl, inr}
use mathlib.Core.Bool.{Bool}
use mathlib.Core.Option.{Option, none, some}
use mathlib.Core.List.{[], ◌∷◌}
use native.Mathlib.Omega.{arith}
use browser_cortex.Common.Tests.{if◌then◌else◌, Bool-cases}
use browser_cortex.Common.Texts.{Text, ◌===◌, ===_iff}
use browser_cortex.Common.Lists.{length, All}
use browser_cortex.Common.Map.{Map, get, set, delete, remove_where}

module _ {ℓ} {V : Type ℓ} where
  -- Every value of the map satisfies `P`.
  abbrev pub Values {κ} : (V → Type κ) → Map V → Type κ
  Values P m = All (λ (e : Text × V). P e.1) m

  abbrev pub Absent : Text → Map V → Type 0
  Absent k m = All (λ (e : Text × V). k ≢ e.0) m

  abbrev pub Distinct : Map V → Type 0
  Distinct [] = Unit
  Distinct (e ∷ m) = Absent e.0 m × Distinct m

  abbrev pub unless : (V → Bool) → Option V → Option V
  unless test none = none
  unless test (some v) = if test v then none else some v

module _ {ℓ κ} {V : Type ℓ} (P : V → Type κ) where
  pub Values_get : (k : Text) (v : V) (m : Map V) → Values P m → get k m ≡ some v → P v
  unfolding get
  Values_get k v [] h e = absurd (ground arith)
  Values_get k v ((j, w) ∷ m) h e = elim (Bool-cases (j === k)) [
    | inl same ↦ subst P (ground arith) h.0
    | inr other ↦ Values_get k v m h.1 (ground arith)
  ]

  pub Values-set : (k : Text) (v : V) (m : Map V) → P v → Values P m → Values P (set k v m)
  unfolding set
  Values-set k v [] p h = (p, tt)
  Values-set k v ((j, w) ∷ m) p h = ground (arith, Values-set k v m)

  pub Values-delete : (k : Text) (m : Map V) → Values P m → Values P (delete k m)
  unfolding delete
  Values-delete k [] h = tt
  Values-delete k ((j, w) ∷ m) h = ground (arith, Values-delete k m)

  pub Values-remove_where :
      (test : V → Bool) (m : Map V) → Values P m → Values P (remove_where test m).0
  unfolding remove_where
  Values-remove_where test [] h = tt
  Values-remove_where test ((j, w) ∷ m) h = ground (arith, Values-remove_where test m)

module _ {ℓ} {V : Type ℓ} where
  pub get_of_Absent : (k : Text) (m : Map V) → Absent k m → get k m ≡ none
  unfolding get
  get_of_Absent k [] h = refl
  get_of_Absent k ((j, v) ∷ m) h = ground (arith, ===_iff j k, get_of_Absent k m)

  Absent-set : (j k : Text) (v : V) (m : Map V) → j ≢ k → Absent j m → Absent j (set k v m)
  unfolding set
  Absent-set j k v [] n h = (n, tt)
  Absent-set j k v ((i, w) ∷ m) n h = ground (arith, Absent-set j k v m)

  Absent-delete : (j k : Text) (m : Map V) → Absent j m → Absent j (delete k m)
  unfolding delete
  Absent-delete j k [] h = tt
  Absent-delete j k ((i, w) ∷ m) h = ground (arith, Absent-delete j k m)

  Absent-remove_where :
      (j : Text) (test : V → Bool) (m : Map V) → Absent j m → Absent j (remove_where test m).0
  unfolding remove_where
  Absent-remove_where j test [] h = tt
  Absent-remove_where j test ((i, w) ∷ m) h = ground (arith, Absent-remove_where j test m)

  pub Distinct-set : (k : Text) (v : V) (m : Map V) → Distinct m → Distinct (set k v m)
  unfolding set
  Distinct-set k v [] h = (tt, tt)
  Distinct-set k v ((j, w) ∷ m) h =
      ground (arith, ===_iff j k, Distinct-set k v m, Absent-set j k v m)

  pub Distinct-delete : (k : Text) (m : Map V) → Distinct m → Distinct (delete k m)
  unfolding delete
  Distinct-delete k [] h = tt
  Distinct-delete k ((j, w) ∷ m) h = ground (arith, Distinct-delete k m, Absent-delete j k m)

  pub Distinct-remove_where :
      (test : V → Bool) (m : Map V) → Distinct m → Distinct (remove_where test m).0
  unfolding remove_where
  Distinct-remove_where test [] h = tt
  Distinct-remove_where test ((j, w) ∷ m) h =
      ground (arith, Distinct-remove_where test m, Absent-remove_where j test m)

  pub get-remove_where :
      (k : Text) (test : V → Bool) (m : Map V)
      → Distinct m
      → get k (remove_where test m).0 ≡ unless test (get k m)
  unfolding get remove_where
  get-remove_where k test [] h = refl
  get-remove_where k test ((j, v) ∷ m) h =
      ground (arith, ===_iff j k, get-remove_where k test m, get_of_Absent k m)

  pub length-remove_where :
      (test : V → Bool) (m : Map V)
      → length (remove_where test m).0 + (remove_where test m).1 ≡ length m
  unfolding remove_where
  length-remove_where test [] = refl
  length-remove_where test ((j, v) ∷ m) = ground (arith, length-remove_where test m)
