-- ===== src/Bridge/Sessions/Requests.antt =====
-- One call of `authorize` (sessions.ts), and what it takes of a session's measure.
use browser_cortex.Common.{
  ℕ, ◌+◌, ◌≤◌, ◌<◌, ◌≡◌, ◌≢◌, refl, false, Option, none, some, Text, ===_iff, ===_refl, includes,
  arith,
}
use browser_cortex.Common.Map
use browser_cortex.Common.Map.{get-set, get-delete}
use browser_cortex.Contracts.Errors.{Result, ok, err}
use browser_cortex.Bridge.Sessions.{
  Message, Sender, Url, Session, Registry, normalized_origin, used, authorize_request,
  authorize_origin, authorize_found, authorize_sender,
}

abbrev pub passed : Result (Unit {0}) → ℕ → ℕ
passed (ok done) n = n
passed (err code) n = 0

-- A measure of what a session may still be used for, of which each request takes its weight.
pub record Measure (weight : Text → ℕ) (left : Option Session → ℕ) : Type 0 where
  pub absent : left none ≡ 0
  pub pays :
      (s : Session) (request_id : Text) (now : ℕ)
      → s.request_count < s.max_requests
      → includes s.seen request_id ≡ false
      → weight request_id + left (some (used s request_id now)) ≤ left (some s)

module _ (weight : Text → ℕ) (left : Option Session → ℕ) (m : Measure weight left) where
  request_pays :
      (now : ℕ) (s : Session) (message : Message) (registry : Registry)
      → Map.get message.session_id registry ≡ some s
      → passed (authorize_request now s message registry).0 (weight message.request_id)
          + left (Map.get message.session_id (authorize_request now s message registry).1)
        ≤ left (some s)
  unfolding authorize_request
  request_pays now s message registry found = ground (
    arith,
    found,
    m.absent,
    m.pays s message.request_id now,
    get-set message.session_id message.session_id (used s message.request_id now) registry,
    get-delete message.session_id message.session_id registry,
    ===_refl message.session_id,
  )

  origin_pays :
      (now tab frame : ℕ) (s : Session) (origin : Result Text) (message : Message) (sender : Sender)
      (registry : Registry)
      → Map.get message.session_id registry ≡ some s
      → passed
            (authorize_origin now tab frame s origin message sender registry).0
            (weight message.request_id)
          + left (
              Map.get message.session_id
                (authorize_origin now tab frame s origin message sender registry).1)
        ≤ left (some s)
  unfolding authorize_origin
  origin_pays now tab frame s (err code) message sender registry found = ground (arith, found)
  origin_pays now tab frame s (ok origin) message sender registry found =
      ground (arith, found, request_pays now s message registry)

  found_pays :
      (parse_url : Text → Option Url) (now : Option ℕ) (tab frame : ℕ) (found : Option Session)
      (message : Message) (sender : Sender) (registry : Registry)
      → Map.get message.session_id registry ≡ found
      → passed
            (authorize_found parse_url now tab frame found message sender registry).0
            (weight message.request_id)
          + left (
              Map.get message.session_id
                (authorize_found parse_url now tab frame found message sender registry).1)
        ≤ left found
  unfolding authorize_found
  found_pays parse_url now tab frame none message sender registry found = ground (arith, found)
  found_pays parse_url none tab frame (some s) message sender registry found = ground (
    arith,
    found,
    m.absent,
    get-delete message.session_id message.session_id registry,
    ===_refl message.session_id,
  )
  found_pays parse_url (some t) tab frame (some s) message sender registry found = ground (
    arith,
    found,
    m.absent,
    get-delete message.session_id message.session_id registry,
    ===_refl message.session_id,
    origin_pays t tab frame s (normalized_origin parse_url sender.origin) message sender registry,
  )

  pub sender_pays :
      (parse_url : Text → Option Url) (now : Option ℕ) (checked : Result (ℕ × ℕ))
      (message : Message) (sender : Sender) (registry : Registry)
      → passed
            (authorize_sender parse_url now checked message sender registry).0
            (weight message.request_id)
          + left (
              Map.get message.session_id
                (authorize_sender parse_url now checked message sender registry).1)
        ≤ left (Map.get message.session_id registry)
  unfolding authorize_sender
  sender_pays parse_url now (err code) message sender registry = omega arith
  sender_pays parse_url now (ok (tab, frame)) message sender registry =
      found_pays parse_url now tab frame (Map.get message.session_id registry) message sender
        registry refl

-- A call changes no session but its own.
others_request :
    (j : Text) (now : ℕ) (s : Session) (message : Message) (registry : Registry)
    → message.session_id ≢ j
    → Map.get j (authorize_request now s message registry).1 ≡ Map.get j registry
unfolding authorize_request
others_request j now s message registry other = ground (
  arith,
  get-set message.session_id j (used s message.request_id now) registry,
  get-delete message.session_id j registry,
  ===_iff message.session_id j,
)

others_origin :
    (j : Text) (now tab frame : ℕ) (s : Session) (origin : Result Text) (message : Message)
    (sender : Sender) (registry : Registry)
    → message.session_id ≢ j
    → Map.get j (authorize_origin now tab frame s origin message sender registry).1
      ≡ Map.get j registry
unfolding authorize_origin
others_origin j now tab frame s (err code) message sender registry other = ground arith
others_origin j now tab frame s (ok origin) message sender registry other =
    ground (arith, others_request j now s message registry)

others_found :
    (j : Text) (parse_url : Text → Option Url) (now : Option ℕ) (tab frame : ℕ)
    (found : Option Session) (message : Message) (sender : Sender) (registry : Registry)
    → message.session_id ≢ j
    → Map.get j (authorize_found parse_url now tab frame found message sender registry).1
      ≡ Map.get j registry
unfolding authorize_found
others_found j parse_url now tab frame none message sender registry other = refl
others_found j parse_url none tab frame (some s) message sender registry other =
    ground (arith, get-delete message.session_id j registry, ===_iff message.session_id j)
others_found j parse_url (some t) tab frame (some s) message sender registry other = ground (
  arith,
  get-delete message.session_id j registry,
  ===_iff message.session_id j,
  others_origin j t tab frame s (normalized_origin parse_url sender.origin) message sender registry,
)

pub others_sender :
    (j : Text) (parse_url : Text → Option Url) (now : Option ℕ) (checked : Result (ℕ × ℕ))
    (message : Message) (sender : Sender) (registry : Registry)
    → message.session_id ≢ j
    → Map.get j (authorize_sender parse_url now checked message sender registry).1
      ≡ Map.get j registry
unfolding authorize_sender
others_sender j parse_url now (err code) message sender registry other = refl
others_sender j parse_url now (ok (tab, frame)) message sender registry other =
    others_found j parse_url now tab frame (Map.get message.session_id registry) message sender
      registry other
