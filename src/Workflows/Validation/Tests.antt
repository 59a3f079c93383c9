-- ===== src/Workflows/Validation/Tests.antt =====
-- Runs of validation.ts at concrete workflows, where every origin is exact.
use browser_cortex.Common.{◌≡◌, refl, Bool, true, some, none, List, [], ◌∷◌, Text, units}
use browser_cortex.Contracts.Json.{
  JsonValue, null, string, number, array, object, Items, no_items, item, Fields, no_fields, field,
  whole, get,
}
use browser_cortex.Workflows.Validation.{is_predicate}
use browser_cortex.Workflows.Validation.Steps.{all_levels}
use browser_cortex.Workflows.Validation.Whole.{validate_workflow}

abbrev any_origin : Text → Bool
any_origin t = true

abbrev reference : Text → JsonValue
reference t = object (field (units "ref") (string t) no_fields)

abbrev select : JsonValue
select = object (
    field (units "id") (string (units "pick")) (
      field (units "op") (string (units "source.select"))
        (field (units "input") (reference (units "input.file")) no_fields)))

abbrev ask : JsonValue
ask = object (
    field (units "id") (string (units "ask")) (
      field (units "op") (string (units "approval.require")) (
        field (units "scope") (string (units "send"))
          (field (units "input") (reference (units "steps.pick")) no_fields))))

abbrev send : JsonValue
send = object (
    field (units "id") (string (units "send")) (
      field (units "op") (string (units "tool.invoke")) (
        field (units "tool")
          (object (
            field (units "name") (string (units "mail"))
              (field (units "version") (string (units "1")) no_fields)))
          (field (units "arguments")
            (object (field (units "text") (reference (units "steps.pick")) no_fields))
            (field (units "approvalRef") (string (units "steps.ask")) no_fields)))))

abbrev workflow : Items → Fields
workflow steps = field (units "schemaVersion") (number (whole 1)) (
    field (units "id") (string (units "w")) (
      field (units "version") (string (units "1")) (
        field (units "name") (string (units "Send a file")) (
          field (units "inputSchema")
            (object (field (units "file") (string (units "string")) no_fields))
            (field (units "requiredCapabilities") (array no_items) (
              field (units "sourceDependencies")
                (array (
                  item
                    (object (
                      field (units "sourceId") (string (units "s"))
                        (field (units "revision") (string (units "r1")) no_fields)))
                    no_items))
                (field (units "toolDependencies")
                  (array (
                    item
                      (object (
                        field (units "name") (string (units "mail"))
                          (field (units "version") (string (units "1")) no_fields)))
                      no_items))
                  (field (units "limits")
                    (object (
                      field (units "maxRows") (number (whole 10)) (
                        field (units "maxSteps") (number (whole 8))
                          (field (units "maxDurationMs") (number (whole 1000)) no_fields))))
                    (field (units "steps") (array steps) no_fields)))))))))

abbrev good : Fields
good = workflow (item select (item ask (item send no_items)))

abbrev good_caps : List Text
good_caps = units "source:read" ∷ units "tool:mail@1" ∷ []

accepted : validate_workflow any_origin (object good) ≡ some good_caps
unfolding validate_workflow get
accepted = refl

-- A step that refers to one behind it.
forward : validate_workflow any_origin (object (workflow (item ask (item select no_items)))) ≡ none
unfolding validate_workflow get
forward = refl

-- An operator that is given as an array of its name is taken.
listed_operator :
    is_predicate all_levels (
      object (
        field (units "op") (array (item (string (units "eq")) no_items)) (
          field
            (units "left")
            (object (field (units "field") (string (units "a")) no_fields))
            (field (units "right") (object (field (units "literal") null no_fields)) no_fields))))
    ≡ true
unfolding is_predicate get
listed_operator = refl
