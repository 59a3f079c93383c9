-- ===== src/Workflows/Validation/Back.antt =====
-- The references between the steps of a workflow that is valid (validateStep of validation.ts).
use browser_cortex.Common.{
  ◌≡◌, ◌⊎◌, inl, inr, refl, sym, ap, ◌∙◌, subst, Bool, true, false, not, ◌&&◌, Option, none, some,
  List, [], ◌∷◌, ◌++◌, Text, units, includes, arith, All, All-append,
}
use browser_cortex.Contracts.Json
use browser_cortex.Contracts.Json.{
  JsonValue, null, undefined, boolean, number, string, array, object, Items, no_items, item, Fields,
  no_fields, field,
}
use browser_cortex.Contracts.Json.Shapes.{is_text, is_object, may_have, passes}
use browser_cortex.Workflows.Interpreter.{is_name}
use browser_cortex.Workflows.Validation.{at, or_undefined, is_bounded_string}
use browser_cortex.Workflows.Validation.Steps.{
  target_of, is_available, is_reference, ref_of, input_test, is_input, are_arguments,
  has_references, is_new_id, text_of, is_step, are_steps,
}

-- The references of a step: of its input, of each argument, and to its approval.
unfoldable pub option_refs : Option Text → List Text
option_refs none = []
option_refs (some reference) = reference ∷ []

unfoldable pub argument_refs : Fields → List Text
unfolding option_refs ref_of
argument_refs no_fields = []
argument_refs (field key v fs) = option_refs (ref_of v) ++ argument_refs fs

unfoldable pub object_refs : JsonValue → List Text
unfolding argument_refs
object_refs (object fs) = argument_refs fs
object_refs _ = []

unfoldable pub text_refs : JsonValue → List Text
text_refs (string s) = s ∷ []
text_refs _ = []

unfoldable pub references_of : Fields → List Text
unfolding option_refs object_refs text_refs at ref_of
references_of fs =
    option_refs (ref_of (at (units "input") fs))
    ++ (object_refs (at (units "arguments") fs) ++ text_refs (at (units "approvalRef") fs))

abbrev pub Resolves : List Text → List Text → Text → Type 0
Resolves steps inputs reference = is_available steps inputs (target_of reference) ≡ true

-- Every step has a new identifier, and its references name inputs or steps before it. `steps` are
-- the identifiers before.
unfoldable pub PointsBack : List Text → List Text → Items → Type 0
unfolding references_of text_of at
PointsBack steps inputs no_items = Unit
PointsBack steps inputs (item (object fs) xs) =
    (includes steps (text_of (at (units "id") fs)) ≡ false)
    × All (Resolves steps inputs) (references_of fs)
    × PointsBack (steps ++ text_of (at (units "id") fs) ∷ []) inputs xs
PointsBack steps inputs (item _ xs) = ⊥

last_two : (a b c : Bool) → (a && b && c) ≡ true → (b ≡ true) × (c ≡ true)
last_two a b c h = (ground arith, ground arith)

both_of : (a b : Bool) → (a && b) ≡ true → (a ≡ true) × (b ≡ true)
both_of a b h = (ground arith, ground arith)

not_last : (a b c : Bool) → (a && b && not c) ≡ true → c ≡ false
not_last a b c h = ground arith

second_fourth : (a b c d e f : Bool) → (a && b && c && d && e && f) ≡ true → (b ≡ true) × (d ≡ true)
second_fourth a b c d e f h = (ground arith, ground arith)

second_of : (a b : Bool) → (a && b) ≡ true → b ≡ true
second_of a b h = ground arith

all_three : (a b c : Bool) → (a && b && c) ≡ true → (a ≡ true) × (b ≡ true) × (c ≡ true)
all_three a b c h = (ground arith, ground arith, ground arith)

no_refs : option_refs (ref_of undefined) ≡ []
unfolding option_refs ref_of
no_refs = refl

no_object_refs : object_refs undefined ≡ []
unfolding object_refs
no_object_refs = refl

no_text_refs : text_refs undefined ≡ []
unfolding text_refs
no_text_refs = refl

passes-present :
    (o : Option JsonValue) (test : JsonValue → Bool)
    → passes test o ≡ true
    → (or_undefined o ≡ undefined) ⊎ (test (or_undefined o) ≡ true)
passes-present none test h = inl refl
passes-present (some undefined) test h = inl refl
passes-present (some null) test h = inr h
passes-present (some (boolean b)) test h = inr h
passes-present (some (number n)) test h = inr h
passes-present (some (string s)) test h = inr h
passes-present (some (array xs)) test h = inr h
passes-present (some (object fs)) test h = inr h

present-may_have :
    (key : Text) (test : JsonValue → Bool) (fs : Fields)
    → may_have key test fs ≡ true
    → (at key fs ≡ undefined) ⊎ (test (at key fs) ≡ true)
unfolding may_have at
present-may_have key test fs h = passes-present (Json.get key fs) test h

module _ (steps inputs : List Text) where
  option-Resolves :
      (o : Option Text) (v : JsonValue)
      → input_test steps inputs o v ≡ true
      → All (Resolves steps inputs) (option_refs o)
  unfolding input_test is_reference option_refs
  option-Resolves none v h = tt
  option-Resolves (some reference) v h = (h, tt)

  arguments-Resolves :
      (fs : Fields)
      → are_arguments steps inputs fs ≡ true
      → All (Resolves steps inputs) (argument_refs fs)
  unfolding are_arguments argument_refs is_input
  arguments-Resolves no_fields h = tt
  arguments-Resolves (field key v fs) h =
      let (own, others) = last_two _ _ _ h in
      All-append (Resolves steps inputs) (option_refs (ref_of v)) (argument_refs fs)
        (option-Resolves (ref_of v) v own) (arguments-Resolves fs others)

  object-Resolves :
      (v : JsonValue)
      → is_object (are_arguments steps inputs) v ≡ true
      → All (Resolves steps inputs) (object_refs v)
  unfolding is_object object_refs
  object-Resolves (object fs) h = arguments-Resolves fs h
  object-Resolves null h = tt
  object-Resolves undefined h = tt
  object-Resolves (boolean _) h = tt
  object-Resolves (number _) h = tt
  object-Resolves (string _) h = tt
  object-Resolves (array _) h = tt

  text-Resolves :
      (v : JsonValue)
      → is_text (λ r. is_bounded_string 512 r && is_reference steps inputs r) v ≡ true
      → All (Resolves steps inputs) (text_refs v)
  unfolding is_text text_refs is_reference
  text-Resolves (string s) h = (second_of _ _ h, tt)
  text-Resolves null h = tt
  text-Resolves undefined h = tt
  text-Resolves (boolean _) h = tt
  text-Resolves (number _) h = tt
  text-Resolves (object _) h = tt
  text-Resolves (array _) h = tt

  -- What an optional field that is left out, or passes its test, refers to.
  optional-Resolves :
      (key : Text) (test : JsonValue → Bool) (refs : JsonValue → List Text) (fs : Fields)
      → may_have key test fs ≡ true
      → refs undefined ≡ []
      → ((v : JsonValue) → test v ≡ true → All (Resolves steps inputs) (refs v))
      → All (Resolves steps inputs) (refs (at key fs))
  optional-Resolves key test refs fs h empty passes = elim (present-may_have key test fs h) [
    | inl gone ↦ subst (λ rs. All (Resolves steps inputs) rs) (sym (ap refs gone ∙ empty)) tt
    | inr passed ↦ passes (at key fs) passed
  ]

  references-Resolves :
      (fs : Fields)
      → has_references steps inputs fs ≡ true
      → All (Resolves steps inputs) (references_of fs)
  unfolding has_references references_of is_input
  references-Resolves fs h =
      let (a, b, c) = all_three _ _ _ h in
      All-append _ (option_refs (ref_of (at (units "input") fs))) _
        (optional-Resolves (units "input") _ (λ v. option_refs (ref_of v)) fs a no_refs
          (λ v. option-Resolves (ref_of v) v))
        (All-append _ (object_refs (at (units "arguments") fs)) _
          (optional-Resolves (units "arguments") _ object_refs fs b no_object_refs object-Resolves)
          (optional-Resolves (units "approvalRef") _ text_refs fs c no_text_refs text-Resolves))

  new_id-fresh :
      (v : JsonValue) → is_text (is_new_id steps) v ≡ true → includes steps (text_of v) ≡ false
  unfolding is_text is_new_id text_of
  new_id-fresh (string s) h = not_last (is_bounded_string 128 s) (is_name s) (includes steps s) h
  new_id-fresh null h = absurd (cc)
  new_id-fresh undefined h = absurd (cc)
  new_id-fresh (boolean _) h = absurd (cc)
  new_id-fresh (number _) h = absurd (cc)
  new_id-fresh (object _) h = absurd (cc)
  new_id-fresh (array _) h = absurd (cc)

-- The steps that pass validateWorkflow's loop, from the identifiers `steps` on, have new identifiers,
-- and every reference of a step, in its input, its arguments or to its approval, names an input of
-- the workflow or a step before it: the graph of the steps has no cycle.
pub are_steps-PointsBack :
    (steps inputs : List Text) (xs : Items)
    → are_steps steps inputs xs ≡ true
    → PointsBack steps inputs xs
unfolding are_steps PointsBack is_step
are_steps-PointsBack steps inputs no_items h = tt
are_steps-PointsBack steps inputs (item (object fs) xs) h =
    let (here, later) = both_of _ _ h in
    let (id, references) = second_fourth _ _ _ _ _ _ here in
    (
      new_id-fresh steps inputs (at (units "id") fs) id,
      references-Resolves steps inputs fs references,
      are_steps-PointsBack (steps ++ text_of (at (units "id") fs) ∷ []) inputs xs later,
    )
are_steps-PointsBack steps inputs (item null xs) h = absurd (cc)
are_steps-PointsBack steps inputs (item undefined xs) h = absurd (cc)
are_steps-PointsBack steps inputs (item (boolean _) xs) h = absurd (cc)
are_steps-PointsBack steps inputs (item (number _) xs) h = absurd (cc)
are_steps-PointsBack steps inputs (item (string _) xs) h = absurd (cc)
are_steps-PointsBack steps inputs (item (array _) xs) h = absurd (cc)
