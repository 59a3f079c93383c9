-- ===== src/Policy/Grants/Tests.antt =====
-- Runs of the store of grants.ts.
use browser_cortex.Contracts.Schemas.{is_bounded_text, is_identifier}
use browser_cortex.Common.{
  arith, ===_iff, ◌+◌, ◌≤◌, ◌≡◌, ◌↔◌, refl, ◌⊎◌, none, some, List, [], ◌∷◌, ◌++◌, Text, nat, units,
  true, false, All, includes, safe_natural, starts_with, ◌===◌,
}
use browser_cortex.Common.Map
use browser_cortex.Contracts.Errors.{ok}
use browser_cortex.Policy.Grants.{
  get, Grant, Request, allowed, denied, source_scope_mismatch, Store, Options, evaluate_capability,
  authorize, find_and_authorize, add, evaluate_parsed, evaluate_request, has_grant_shape,
  parse_grant, source_scope_allows,
}
use browser_cortex.Policy.Grants.Evaluate.{Allows, evaluate_capability-allowed_iff, allowed_sources}
use browser_cortex.Policy.Grants.Usage.{used, IsWithin}
use browser_cortex.Policy.Grants.Calls.{
  Call, authorizing, finding, total_spent, total_spent-le, spent, step,
}

abbrev reader : Grant
reader = record {
  schema_version = 1;
  grant_id = units "g1";
  subject = units "alice";
  originating_application = units "notes";
  workspace_id = units "w";
  operation = units "read";
  source_ids = units "s1" ∷ [];
  source_namespace = some (units "wiki");
  tool_version = none;
  parameter_fingerprint = none;
  recipient = none;
  issued_at = 100;
  expires_at = 200;
  usage_limit = 2;
  revoked = false;
}

abbrev reads : List Text → Request
reads source_ids = record {
  subject = units "alice";
  originating_application = units "notes";
  workspace_id = units "w";
  operation = units "read";
  source_ids = source_ids;
  tool_version = none;
  parameter_fingerprint = none;
  recipient = none;
}

abbrev both : Request
both = reads (units "s1" ∷ units "wiki:page" ∷ [])

abbrev counted : Options
counted = record { consume = none; now = none }

abbrev stored : Store
stored = record { grants = (units "g1", reader) ∷ []; usage = (units "g1", 0) ∷ [] }

add_test : add reader (record { grants = []; usage = [] }) ≡ (ok reader, stored)
unfolding add parse_grant has_grant_shape is_identifier is_bounded_text Map.get Map.set
add_test = refl

evaluate_test : evaluate_capability reader both (nat 0) (nat 150) ≡ ok (allowed (units "g1") 1)
unfolding evaluate_capability parse_grant has_grant_shape is_identifier is_bounded_text
    evaluate_parsed safe_natural evaluate_request ◌===◌ source_scope_allows includes starts_with
evaluate_test = refl

scope_test :
    evaluate_capability reader (reads (units "wikipedia" ∷ [])) (nat 0) (nat 150)
    ≡ ok (denied source_scope_mismatch)
unfolding evaluate_capability parse_grant has_grant_shape is_identifier is_bounded_text
    evaluate_parsed safe_natural evaluate_request ◌===◌ source_scope_allows includes starts_with
scope_test = refl

abbrev uses : List Call
uses =
    authorizing (nat 150) (units "g1") both counted
    ∷ finding (nat 160) both counted
    ∷ authorizing (nat 170) (units "g1") both counted
    ∷ []

spent_test : total_spent (units "g1") uses stored ≡ 2
unfolding total_spent authorize find_and_authorize spent Map.get ◌===◌ evaluate_capability
    parse_grant has_grant_shape is_identifier is_bounded_text evaluate_parsed safe_natural
    evaluate_request source_scope_allows includes starts_with step Map.set
spent_test = refl

-- The one grant of the store is under its identifier.
stored_key : (j : Text) (g : Grant) → Map.get j stored.grants ≡ some g → g.grant_id ≡ j
unfolding Map.get
stored_key j g e = ground (arith, ===_iff (units "g1") j)

stored-IsWithin : IsWithin (units "g1") 2 stored
unfolding Map.get ◌===◌
stored-IsWithin = record { grant = reader; stored = refl; limited = refl; bounded = omega arith }

total_spent-le_example : total_spent (units "g1") uses stored + used (units "g1") stored ≤ 2
total_spent-le_example =
    total_spent-le (units "g1") 2 uses stored (tt, (tt, (tt, tt))) stored_key stored-IsWithin

evaluate_capability-allowed_iff_example :
    (evaluate_capability reader both (nat 0) (nat 150) ≡ ok (allowed (units "g1") 1))
    ↔ Allows reader both (nat 0) (nat 150) (units "g1") 1
evaluate_capability-allowed_iff_example =
    evaluate_capability-allowed_iff reader both (nat 0) (nat 150) (units "g1") 1

allowed_sources_example :
    All
      (λ source_id.
        (includes reader.source_ids source_id ≡ true)
        ⊎ ((name : Text) × (rest : Text) × (reader.source_namespace ≡ some name)
            × (source_id ≡ (name ++ units ":") ++ rest)))
      both.source_ids
allowed_sources_example = allowed_sources reader both (nat 0) (nat 150) (units "g1") 1 evaluate_test

get_test : get (units "g1") stored ≡ some reader
unfolding get Map.get ◌===◌
get_test = refl
