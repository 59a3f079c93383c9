-- ===== src/Core/Router/Routes.antt =====
-- When `DeterministicRouter.decide` (router.ts) goes online.
use browser_cortex.Common.{◌≡◌, ◌↔◌, true, false, ◌&&◌, arith}
use browser_cortex.Contracts.Errors.{ok}
use browser_cortex.Core.Router.{
  TaskRequest, Environment, online_model, RouteDecision, is_denied, supports, default_supported,
  default_deterministic, parse_task_request, parse_decision, decision, decide,
}
use mathlib.Core.Option

-- The task may be routed, and neither a deterministic operation nor the local model takes it.
abbrev pub NeedsOnline : TaskRequest → Environment → Type 0
NeedsOnline r e =
    (e.policy_allowed ≡ true)
    × (supports (Option.get_or e.supported_tasks default_supported) r.task ≡ true)
    × (supports (Option.get_or e.deterministic_tasks default_deterministic) r.task ≡ false)
    × ((e.local.available && supports e.local.supported_tasks r.task) ≡ false)

-- The conditions of an online request.
abbrev pub MayGoOnline : TaskRequest → Environment → Type 0
MayGoOnline r e =
    (e.local_failure ≡ false)
    × (is_denied r.online_policy ≡ false)
    × (e.online.explicitly_requested ≡ true)
    × (e.online.configured ≡ true)
    × (e.online.approved_for_sources ≡ true)
    × (supports e.online.supported_tasks r.task ≡ true)

decision-online_iff :
    (r : TaskRequest) (e : Environment)
    → ((decision r e).route ≡ online_model) ↔ (NeedsOnline r e × MayGoOnline r e)
unfolding decision
decision-online_iff r e = ground arith

decision-requires_disclosure :
    (r : TaskRequest) (e : Environment)
    → ((decision r e).requires_disclosure ≡ true) ↔ ((decision r e).route ≡ online_model)
unfolding decision
decision-requires_disclosure r e = ground arith

-- What `decide` returns is the decision on the request that was given.
decide-eq-ok :
    (r : TaskRequest) (e : Environment) (d : RouteDecision) → decide r e ≡ ok d → d ≡ decision r e
unfolding decide parse_task_request parse_decision
decide-eq-ok r e d h = ground arith

-- When `decide` returns, the route is the online model exactly when the policy allows the task, the
-- task is supported, no deterministic operation and no available local model takes it, no local
-- failure is recorded, the request does not deny going online, and the online model is requested
-- explicitly, configured, approved for the sources, and supports the task.
pub decide-online_iff :
    (r : TaskRequest) (e : Environment) (d : RouteDecision)
    → decide r e ≡ ok d
    → (d.route ≡ online_model) ↔ (NeedsOnline r e × MayGoOnline r e)
decide-online_iff r e d h = rw (decide-eq-ok r e d h) (decision-online_iff r e)

-- When `decide` returns, it requires a disclosure exactly when the route is the online model.
pub decide-requires_disclosure :
    (r : TaskRequest) (e : Environment) (d : RouteDecision)
    → decide r e ≡ ok d
    → (d.requires_disclosure ≡ true) ↔ (d.route ≡ online_model)
decide-requires_disclosure r e d h = rw (decide-eq-ok r e d h) (decision-requires_disclosure r e)
