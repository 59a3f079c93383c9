-- ===== src/Core/Router/Tests.antt =====
-- Runs of the router of router.ts.
use browser_cortex.Contracts.Schemas.{is_bounded_text, is_identifier}
use browser_cortex.Common.{◌≡◌, ◌↔◌, refl, none, some, [], ◌∷◌, units, true, false, Bool}
use browser_cortex.Contracts.Errors.{ok}
use browser_cortex.Core.Router.{
  summarize, plan, ask, TaskRequest, Environment, online_model, local_execution_failed,
  online_approval_needed, RouteDecision, decision, decide, has_decision_shape, has_request_shape,
  is_denied, parse_decision, parse_task_request, supports,
}
use browser_cortex.Core.Router.Routes.{
  NeedsOnline, MayGoOnline, decide-online_iff, decide-requires_disclosure,
}

abbrev request : TaskRequest
request = record {
  schema_version = 1;
  request_id = units "r1";
  task = summarize;
  input = units "text";
  source_ids = [];
  workspace_id = units "w";
  online_policy = ask;
  output_schema_id = none;
}

abbrev environment : Bool → Environment
environment failed = record {
  policy_version = units "p1";
  policy_allowed = true;
  policy_denial_reason = none;
  supported_tasks = none;
  deterministic_tasks = none;
  local = record {
    available = false;
    supported_tasks = [];
    model_id = none;
    model_revision = none;
  };
  online = record {
    configured = true;
    explicitly_requested = true;
    approved_for_sources = true;
    supported_tasks = summarize ∷ plan ∷ [];
    model_id = some (units "m1");
    model_revision = none;
  };
  local_failure = failed;
}

abbrev goes_online : RouteDecision
goes_online = record {
  request_id = units "r1";
  route = online_model;
  reason_codes = online_approval_needed ∷ [];
  model_id = some (units "m1");
  model_revision = none;
  policy_version = units "p1";
  requires_disclosure = true;
}

online_test : decide request (environment false) ≡ ok goes_online
unfolding decide parse_task_request has_request_shape is_identifier is_bounded_text parse_decision
    has_decision_shape supports is_denied
online_test = refl

failure_test : (decision request (environment true)).reason_codes ≡ local_execution_failed ∷ []
unfolding decision supports
failure_test = refl

decide-online_iff_example :
    (online_model ≡ online_model)
    ↔ (NeedsOnline request (environment false) × MayGoOnline request (environment false))
decide-online_iff_example = decide-online_iff request (environment false) goes_online online_test

decide-requires_disclosure_example : (true ≡ true) ↔ (online_model ≡ online_model)
decide-requires_disclosure_example =
    decide-requires_disclosure request (environment false) goes_online online_test
