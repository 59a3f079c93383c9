-- ===== src/Bridge/Sessions/Authorize.antt =====
-- When `authorize` of sessions.ts lets a message through, and what it leaves in the registry.
use browser_cortex.Common.{
  ℕ, ◌+◌, ◌≤◌, ◌<◌, ◌≡◌, refl, sym, ap, ◌∙◌, ◌↔◌, true, false, Option, none, some, Text, Number,
  ===_iff, same_option_iff, includes, arith, safe_natural,
}
use browser_cortex.Common.Map
use browser_cortex.Contracts.Errors.{Result, ok, err}
use browser_cortex.Bridge.Sessions.{
  Message, Sender, Url, Session, Registry, type_of, has_type, validate_sender, normalized_origin,
  in_scope, is_expired, same_sender, used, authorize_request, authorize_origin, authorize_found,
  authorize_sender, authorize,
}

-- What holds of a session, a message and its sender when the message is let through.
pub record Authorized (parse_url : Text → Option Url) (message : Message) (sender : Sender)
    (now : ℕ) (s : Session) : Type 0 where
  pub tab_frame : validate_sender sender ≡ ok (s.tab_id, s.frame_id)
  pub origin : normalized_origin parse_url sender.origin ≡ ok s.origin
  pub document : s.document_id ≡ sender.document_id
  pub same_document : s.document_id ≡ message.document_id
  pub extension : s.extension_id ≡ sender.extension_id
  pub live : s.revoked ≡ false
  pub created : s.created_at ≤ now
  pub active : now < s.last_used_at + s.inactivity_ms
  pub typed : has_type s.allowed_types (type_of message.payload) ≡ true
  pub budget : s.request_count < s.max_requests
  pub unseen : includes s.seen message.request_id ≡ false
  pub scoped : in_scope s message.payload ≡ true

authorize_request_ok :
    (now : ℕ) (s : Session) (message : Message) (registry after : Registry)
    → authorize_request now s message registry ≡ (ok tt, after)
    → (has_type s.allowed_types (type_of message.payload) ≡ true)
      × (s.request_count < s.max_requests)
      × (includes s.seen message.request_id ≡ false)
      × (in_scope s message.payload ≡ true)
      × (after ≡ Map.set message.session_id (used s message.request_id now) registry)
unfolding authorize_request
authorize_request_ok now s message registry after e = ground arith

authorize_origin_ok :
    (now tab frame : ℕ) (s : Session) (origin : Result Text) (message : Message) (sender : Sender)
    (registry after : Registry)
    → authorize_origin now tab frame s origin message sender registry ≡ (ok tt, after)
    → (origin ≡ ok s.origin)
      × (s.tab_id ≡ tab)
      × (s.frame_id ≡ frame)
      × (s.document_id ≡ sender.document_id)
      × (s.document_id ≡ message.document_id)
      × (s.extension_id ≡ sender.extension_id)
      × (authorize_request now s message registry ≡ (ok tt, after))
unfolding authorize_origin same_sender
authorize_origin_ok now tab frame s (err code) message sender registry after e =
    absurd (ground arith)
authorize_origin_ok now tab frame s (ok origin) message sender registry after e = ground (
  arith,
  ===_iff s.origin origin,
  ===_iff s.document_id sender.document_id,
  ===_iff s.document_id message.document_id,
  same_option_iff s.extension_id sender.extension_id,
)

authorize_found_ok :
    (parse_url : Text → Option Url) (now : Option ℕ) (tab frame : ℕ) (found : Option Session)
    (message : Message) (sender : Sender) (registry after : Registry)
    → validate_sender sender ≡ ok (tab, frame)
    → authorize_found parse_url now tab frame found message sender registry ≡ (ok tt, after)
    → (t : ℕ) × (s : Session) × (now ≡ some t)
      × (found ≡ some s)
      × Authorized parse_url message sender t s
      × (after ≡ Map.set message.session_id (used s message.request_id t) registry)
unfolding authorize_found is_expired
authorize_found_ok parse_url now tab frame none message sender registry after v e =
    absurd (ground arith)
authorize_found_ok parse_url none tab frame (some s) message sender registry after v e =
    absurd (ground arith)
authorize_found_ok parse_url (some t) tab frame (some s) message sender registry after v e =
    let (origin, same_tab, same_frame, document, same_document, extension, request) =
      authorize_origin_ok t tab frame s (normalized_origin parse_url sender.origin) message sender
        registry after (ground arith) in
    let (typed, budget, unseen, scoped, left) =
      authorize_request_ok t s message registry after request in
    (
      t,
      s,
      refl,
      refl,
      record {
        tab_frame = rw (same_tab, same_frame) v;
        origin = origin;
        document = document;
        same_document = same_document;
        extension = extension;
        live = ground arith;
        created = ground arith;
        active = ground arith;
        typed = typed;
        budget = budget;
        unseen = unseen;
        scoped = scoped;
      },
      left,
    )

authorize_sender_ok :
    (parse_url : Text → Option Url) (now : Option ℕ) (checked : Result (ℕ × ℕ)) (message : Message)
    (sender : Sender) (registry after : Registry)
    → validate_sender sender ≡ checked
    → authorize_sender parse_url now checked message sender registry ≡ (ok tt, after)
    → (t : ℕ) × (s : Session) × (now ≡ some t)
      × (Map.get message.session_id registry ≡ some s)
      × Authorized parse_url message sender t s
      × (after ≡ Map.set message.session_id (used s message.request_id t) registry)
unfolding authorize_sender
authorize_sender_ok parse_url now (err code) message sender registry after v e =
    absurd (ground arith)
authorize_sender_ok parse_url now (ok (tab, frame)) message sender registry after v e =
    authorize_found_ok parse_url now tab frame (Map.get message.session_id registry) message sender
      registry after v e

module _ (parse_url : Text → Option Url) (message : Message) (sender : Sender) (t : ℕ) (s : Session)
    (registry : Registry) (a : Authorized parse_url message sender t s) where
  request_passes :
      authorize_request t s message registry
      ≡ (ok tt, Map.set message.session_id (used s message.request_id t) registry)
  unfolding authorize_request
  request_passes = ground (arith, a.typed, a.budget, a.unseen, a.scoped)

  sender_matches : same_sender s s.tab_id s.frame_id s.origin sender message ≡ true
  unfolding same_sender
  sender_matches = ground (
    arith,
    a.document,
    a.same_document,
    a.extension,
    ===_iff s.origin s.origin,
    ===_iff s.document_id sender.document_id,
    ===_iff s.document_id message.document_id,
    same_option_iff s.extension_id sender.extension_id,
  )

  origin_passes :
      authorize_origin t s.tab_id s.frame_id s (ok s.origin) message sender registry
      ≡ (ok tt, Map.set message.session_id (used s message.request_id t) registry)
  unfolding authorize_origin
  origin_passes = ground (arith, sender_matches, request_passes)

  session_passes :
      authorize_found parse_url (some t) s.tab_id s.frame_id (some s) message sender registry
      ≡ (ok tt, Map.set message.session_id (used s message.request_id t) registry)
  unfolding authorize_found is_expired
  session_passes = rw a.origin (ground (arith, a.live, a.created, a.active, origin_passes))

-- `authorize` lets a message through exactly when the time is a timestamp and the session of the
-- message is stored, live, bound to the sender's tab, frame, origin, document and extension, allowed
-- the type of the message, within its budget of requests, has not seen the request before, and has
-- the message in its scope; and then the registry differs by that one use.
pub authorize_iff :
    (parse_url : Text → Option Url) (message : Message) (sender : Sender) (now : Number)
    (registry after : Registry)
    → (authorize parse_url message sender now registry ≡ (ok tt, after)) ↔ (
        (t : ℕ) × (s : Session) × (safe_natural now ≡ some t)
        × (Map.get message.session_id registry ≡ some s)
        × Authorized parse_url message sender t s
        × (after ≡ Map.set message.session_id (used s message.request_id t) registry))
unfolding authorize
authorize_iff parse_url message sender now registry after = (
  λ e.
      authorize_sender_ok parse_url (safe_natural now) (validate_sender sender) message sender
        registry after refl e,
  λ (t, s, timestamp, found, a, left).
      rw (a.tab_frame, timestamp)
        (unfold authorize_sender in
          rw found (session_passes parse_url message sender t s registry a)
          ∙ ap (λ r. (ok tt, r)) (sym left)),
)
