-- ===== src/Bridge/Sessions/Traces.antt =====
-- Sequences of calls on the registry of sessions.ts.
use mathlib.Core.Option
use browser_cortex.Common.{
  ℕ, ◌+◌, ◌≡◌, ◌≢◌, refl, ◌∙◌, inl, inr, Option, none, some, List, [], ◌∷◌, Text, Number, ◌===◌,
  ===_iff, arith, if◌then◌else◌, safe_natural, Bool-cases, All,
}
use browser_cortex.Common.Map
use browser_cortex.Common.Map.{get-set, get-delete}
use browser_cortex.Common.Map.Distinct.{
  Distinct, Distinct-set, Distinct-delete, Distinct-remove_where,
}
use browser_cortex.Contracts.Errors.{Result, ok, err}
use browser_cortex.Bridge.Sessions.{
  Message, Sender, Url, Session, Registry, used, validate_sender, authorize, authorize_sender,
  authorize_found, authorize_origin, authorize_request, normalized_origin, revoke,
  invalidate_document, purge_at, purge_expired,
}
use browser_cortex.Bridge.Sessions.Create.{
  Input, Prepared, prepare, fresh_session, store_session, new_session, create_prepared, create,
}
use browser_cortex.Bridge.Sessions.Requests.{passed}

-- A call of one of the methods, with what the clock and the generator of identifiers give it.
pub data Call : Type 0 where
  creating : Number → Input → List Text → Call
  authorizing : Message → Sender → Number → Call
  revoking : Text → Call
  invalidating : (tab frame : ℕ) (current : Text) → Call
  purging : Number → Call

abbrev pub registry_after : Registry → Option (Result Text × Registry) → Registry
registry_after registry none = registry
registry_after registry (some (reply, after)) = after

-- No call creates a session of this identifier.
abbrev pub NeverDraws : Text → Call → Type 0
NeverDraws id (creating clock input draws) = All (λ (x : Text). x ≢ id) draws
NeverDraws id (authorizing message sender now) = Unit
NeverDraws id (revoking other) = Unit
NeverDraws id (invalidating tab frame current) = Unit
NeverDraws id (purging now) = Unit

module _ (parse_url : Text → Option Url) where
  unfoldable pub step : Call → Registry → Registry
  step (creating clock input draws) registry =
      registry_after registry (create parse_url clock input draws registry)
  step (authorizing message sender now) registry =
      (authorize parse_url message sender now registry).1
  step (revoking id) registry = (revoke id registry).1
  step (invalidating tab frame current) registry =
      (invalidate_document tab frame current registry).0
  step (purging now) registry = (purge_expired now registry).1

  -- The weight of the request that the call lets through in this session.
  unfoldable pub spent : (Text → ℕ) → Text → Call → Registry → ℕ
  spent weight id (authorizing message sender now) registry =
      if message.session_id === id
      then passed (authorize parse_url message sender now registry).0 (weight message.request_id)
      else 0
  spent weight id (creating clock input draws) registry = 0
  spent weight id (revoking other) registry = 0
  spent weight id (invalidating tab frame current) registry = 0
  spent weight id (purging now) registry = 0

  unfoldable pub total_spent : (Text → ℕ) → Text → List Call → Registry → ℕ
  total_spent weight id [] registry = 0
  total_spent weight id (call ∷ calls) registry =
      spent weight id call registry + total_spent weight id calls (step call registry)

fresh_session-ne :
    (id drawn : Text) (registry : Registry) (draws : List Text)
    → All (λ (x : Text). x ≢ id) draws
    → fresh_session registry draws ≡ some drawn
    → drawn ≢ id
unfolding fresh_session
fresh_session-ne id drawn registry [] never e = absurd (cc)
fresh_session-ne id drawn registry (x ∷ draws) never e = elim (Bool-cases (Map.has x registry)) [
  | inl taken ↦ fresh_session-ne id drawn registry draws never.1 (ground arith)
  | inr fresh ↦ let same : x ≡ drawn = ground arith in λ p. never.0 (same ∙ p)
]

store_session_others :
    (j : Text) (input : Input) (p : Prepared) (now : Option ℕ) (origin : Result Text) (id : Text)
    (registry : Registry)
    → id ≢ j
    → Map.get j (store_session input p now origin id registry).1 ≡ Map.get j registry
unfolding store_session
store_session_others j input p none origin id registry other = refl
store_session_others j input p (some now) (err code) id registry other = refl
store_session_others j input p (some now) (ok origin) id registry other =
    ground (arith, get-set id j (new_session input p now origin) registry, ===_iff id j)

drawn_others :
    (j : Text) (store : Text → Result Text × Registry) (drawn : Option Text) (registry : Registry)
    → ((id : Text) → drawn ≡ some id → Map.get j (store id).1 ≡ Map.get j registry)
    → Map.get j (registry_after registry (Option.map store drawn)) ≡ Map.get j registry
drawn_others j store none registry h = refl
drawn_others j store (some id) registry h = h id refl

pub create_others :
    (j : Text) (parse_url : Text → Option Url) (clock : Number) (input : Input)
    (p : Result Prepared) (draws : List Text) (registry : Registry)
    → All (λ (x : Text). x ≢ j) draws
    → Map.get j (registry_after registry (create_prepared parse_url clock input p draws registry))
      ≡ Map.get j registry
unfolding create_prepared
create_others j parse_url clock input (err code) draws registry never = refl
create_others j parse_url clock input (ok p) draws registry never =
    drawn_others j _ (fresh_session registry draws) registry (λ id e.
      store_session_others j input p _ _ id registry (fresh_session-ne j id registry draws never e))

-- A registry whose sessions have distinct identifiers stays one.
registry_after-Distinct :
    (store : Text → Result Text × Registry) (drawn : Option Text) (registry : Registry)
    → ((id : Text) → Distinct (store id).1)
    → Distinct registry
    → Distinct (registry_after registry (Option.map store drawn))
registry_after-Distinct store none registry h d = d
registry_after-Distinct store (some id) registry h d = h id

store_session-Distinct :
    (input : Input) (p : Prepared) (now : Option ℕ) (origin : Result Text) (id : Text)
    (registry : Registry)
    → Distinct registry
    → Distinct (store_session input p now origin id registry).1
unfolding store_session
store_session-Distinct input p none origin id registry d = d
store_session-Distinct input p (some now) (err code) id registry d = d
store_session-Distinct input p (some now) (ok origin) id registry d =
    Distinct-set id (new_session input p now origin) registry d

create-Distinct :
    (parse_url : Text → Option Url) (clock : Number) (input : Input) (p : Result Prepared)
    (draws : List Text) (registry : Registry)
    → Distinct registry
    → Distinct (registry_after registry (create_prepared parse_url clock input p draws registry))
unfolding create_prepared
create-Distinct parse_url clock input (err code) draws registry d = d
create-Distinct parse_url clock input (ok p) draws registry d =
    registry_after-Distinct _ (fresh_session registry draws) registry
      (λ id. store_session-Distinct input p _ _ id registry d) d

request-Distinct :
    (now : ℕ) (s : Session) (message : Message) (registry : Registry)
    → Distinct registry
    → Distinct (authorize_request now s message registry).1
unfolding authorize_request
request-Distinct now s message registry d = ground (
  arith,
  Distinct-set message.session_id (used s message.request_id now) registry d,
  Distinct-delete message.session_id registry d,
)

origin-Distinct :
    (now tab frame : ℕ) (s : Session) (origin : Result Text) (message : Message) (sender : Sender)
    (registry : Registry)
    → Distinct registry
    → Distinct (authorize_origin now tab frame s origin message sender registry).1
unfolding authorize_origin
origin-Distinct now tab frame s (err code) message sender registry d = ground arith
origin-Distinct now tab frame s (ok origin) message sender registry d =
    ground (arith, request-Distinct now s message registry d)

found-Distinct :
    (parse_url : Text → Option Url) (now : Option ℕ) (tab frame : ℕ) (found : Option Session)
    (message : Message) (sender : Sender) (registry : Registry)
    → Distinct registry
    → Distinct (authorize_found parse_url now tab frame found message sender registry).1
unfolding authorize_found
found-Distinct parse_url now tab frame none message sender registry d = d
found-Distinct parse_url none tab frame (some s) message sender registry d =
    ground (arith, Distinct-delete message.session_id registry d)
found-Distinct parse_url (some t) tab frame (some s) message sender registry d = ground (
  arith,
  Distinct-delete message.session_id registry d,
  origin-Distinct t tab frame s (normalized_origin parse_url sender.origin) message sender registry
      d,
)

sender-Distinct :
    (parse_url : Text → Option Url) (now : Option ℕ) (checked : Result (ℕ × ℕ)) (message : Message)
    (sender : Sender) (registry : Registry)
    → Distinct registry
    → Distinct (authorize_sender parse_url now checked message sender registry).1
unfolding authorize_sender
sender-Distinct parse_url now (err code) message sender registry d = d
sender-Distinct parse_url now (ok (tab, frame)) message sender registry d =
    found-Distinct parse_url now tab frame (Map.get message.session_id registry) message sender
      registry d

purge-Distinct :
    (now : Option ℕ) (registry : Registry) → Distinct registry → Distinct (purge_at now registry).1
unfolding purge_at
purge-Distinct none registry d = d
purge-Distinct (some t) registry d = Distinct-remove_where _ registry d

pub step-Distinct :
    (parse_url : Text → Option Url) (call : Call) (registry : Registry)
    → Distinct registry
    → Distinct (step parse_url call registry)
unfolding step create authorize revoke invalidate_document purge_expired
step-Distinct parse_url (creating clock input draws) registry d =
    create-Distinct parse_url clock input (prepare input) draws registry d
step-Distinct parse_url (authorizing message sender now) registry d =
    sender-Distinct parse_url (safe_natural now) (validate_sender sender) message sender registry d
step-Distinct parse_url (revoking id) registry d = Distinct-delete id registry d
step-Distinct parse_url (invalidating tab frame current) registry d =
    Distinct-remove_where _ registry d
step-Distinct parse_url (purging now) registry d = purge-Distinct (safe_natural now) registry d
