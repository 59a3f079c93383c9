-- ===== src/Bridge/Sessions/Quota.antt =====
-- The requests of one session of sessions.ts over sequences of calls.
use browser_cortex.Common.{
  ℕ, ◌+◌, ◌-◌, ◌≤◌, refl, subst, Bool, inl, inr, Option, none, some, List, [], ◌∷◌, Text, ◌===◌,
  ===_iff, includes, arith, if◌then◌else◌, safe_natural, Bool-cases, All, includes-append,
}
use browser_cortex.Common.Map
use browser_cortex.Common.Map.{get-set, get-delete}
use browser_cortex.Common.Map.Distinct.{Distinct, get-remove_where, unless}
use browser_cortex.Bridge.Sessions.{
  Url, Session, Registry, validate_sender, authorize, authorize_sender, revoke, invalidate_document,
  purge_at, purge_expired,
}
use browser_cortex.Bridge.Sessions.Create.{prepare, create}
use browser_cortex.Bridge.Sessions.Requests.{Measure, passed, sender_pays, others_sender}
use browser_cortex.Bridge.Sessions.Traces.{
  Call, creating, authorizing, revoking, invalidating, purging, NeverDraws, step, spent,
  total_spent, create_others, step-Distinct,
}

module _ (weight : Text → ℕ) (left : Option Session → ℕ) (m : Measure weight left) where
  left_unless :
      (test : Session → Bool) (found : Option Session) → left (unless test found) ≤ left found
  left_unless test none = omega arith
  left_unless test (some s) = ground (arith, m.absent)

  purge-left :
      (id : Text) (now : Option ℕ) (registry : Registry)
      → Distinct registry
      → left (Map.get id (purge_at now registry).1) ≤ left (Map.get id registry)
  unfolding purge_at
  purge-left id none registry d = omega arith
  purge-left id (some t) registry d =
      rw (get-remove_where id _ registry d) (left_unless _ (Map.get id registry))

  invalidate-left :
      (id : Text) (tab frame : ℕ) (current : Text) (registry : Registry)
      → Distinct registry
      → left (Map.get id (invalidate_document tab frame current registry).0)
        ≤ left (Map.get id registry)
  unfolding invalidate_document
  invalidate-left id tab frame current registry d =
      rw (get-remove_where id _ registry d) (left_unless _ (Map.get id registry))

  step-left :
      (parse_url : Text → Option Url) (id : Text) (call : Call) (registry : Registry)
      → NeverDraws id call
      → Distinct registry
      → spent parse_url weight id call registry + left (Map.get id (step parse_url call registry))
        ≤ left (Map.get id registry)
  unfolding step spent create authorize revoke invalidate_document purge_expired
  step-left parse_url id (creating clock input draws) registry never d =
      rw (create_others id parse_url clock input (prepare input) draws registry never) (omega arith)
  step-left parse_url id (authorizing message sender now) registry never d =
      elim (Bool-cases (message.session_id === id)) [
        | inl same ↦ rw same (
            subst
              (λ j.
                passed
                    (authorize_sender parse_url (safe_natural now) (validate_sender sender) message
                      sender registry).0
                    (weight message.request_id)
                  + left (
                      Map.get j
                        (authorize_sender parse_url (safe_natural now) (validate_sender sender)
                          message sender registry).1)
                ≤ left (Map.get j registry))
              ((===_iff message.session_id id).0 same)
              (sender_pays weight left m parse_url (safe_natural now) (validate_sender sender)
                message sender registry))
        | inr other ↦ rw other (
            rw
              (others_sender id parse_url (safe_natural now) (validate_sender sender) message sender
                registry (λ e. ground (arith, ===_iff message.session_id id)))
              (omega arith))
      ]
  step-left parse_url id (revoking other) registry never d =
      rw get-delete (ground (arith, m.absent))
  step-left parse_url id (invalidating tab frame current) registry never d =
      omega (arith, invalidate-left id tab frame current registry d)
  step-left parse_url id (purging now) registry never d =
      omega (arith, purge-left id (safe_natural now) registry d)

  pub spent_within :
      (parse_url : Text → Option Url) (id : Text) (calls : List Call) (registry : Registry)
      → All (NeverDraws id) calls
      → Distinct registry
      → total_spent parse_url weight id calls registry ≤ left (Map.get id registry)
  unfolding total_spent
  spent_within parse_url id [] registry never d = omega arith
  spent_within parse_url id (call ∷ calls) registry never d = omega (
    arith,
    step-left parse_url id call registry never.0 d,
    spent_within parse_url id calls (step parse_url call registry) never.1
        (step-Distinct parse_url call registry d),
  )

-- 1 for the request in question.
abbrev pub same_request : Text → Text → ℕ
same_request wanted id = if id === wanted then 1 else 0

-- Whether a session may still let the request through.
abbrev pub unseen : Text → Option Session → ℕ
unseen wanted none = 0
unseen wanted (some s) = if includes s.seen wanted then 0 else 1

unseen-Measure : (wanted : Text) → Measure (same_request wanted) (unseen wanted)
unseen-Measure wanted = record {
  absent = refl;
  pays = λ s request_id now room fresh.
      ground (arith, includes-append s.seen request_id wanted, ===_iff request_id wanted);
}

-- The requests that a session may still let through.
abbrev pub budget_left : Option Session → ℕ
budget_left none = 0
budget_left (some s) = s.max_requests - s.request_count

budget-Measure : Measure (λ id. 1) budget_left
budget-Measure = record { absent = refl; pays = λ s request_id now room fresh. omega arith }

unseen-le : (wanted : Text) (found : Option Session) → unseen wanted found ≤ 1
unseen-le wanted none = omega arith
unseen-le wanted (some s) = ground arith

-- Over any calls that do not create the session anew, a request of one identifier is let through at
-- most once in one session, whatever else the message holds and whoever sends it.
pub request_once :
    (parse_url : Text → Option Url) (id wanted : Text) (calls : List Call) (registry : Registry)
    → All (NeverDraws id) calls
    → Distinct registry
    → total_spent parse_url (same_request wanted) id calls registry ≤ 1
request_once parse_url id wanted calls registry never d = omega (
  arith,
  spent_within (same_request wanted) (unseen wanted) (unseen-Measure wanted) parse_url id calls
      registry never d,
  unseen-le wanted (Map.get id registry),
)

-- Over any calls that do not create the session anew, it lets through at most the requests that its
-- budget has left.
pub requests-le :
    (parse_url : Text → Option Url) (id : Text) (calls : List Call) (registry : Registry)
    → All (NeverDraws id) calls
    → Distinct registry
    → total_spent parse_url (λ request. 1) id calls registry ≤ budget_left (Map.get id registry)
requests-le parse_url id calls registry never d =
    spent_within (λ request. 1) budget_left budget-Measure parse_url id calls registry never d
