-- ===== src/Bridge/Sessions/Tests.antt =====
-- Runs of the registry of sessions.ts.
use browser_cortex.Contracts.Schemas.{is_identifier}
use browser_cortex.Common.{
  ℕ, ◌≤◌, ◌≡◌, ◌↔◌, refl, Option, none, some, List, [], ◌∷◌, Text, nat, units, false, safe_natural,
  bounded_positive, includes, ◌===◌,
}
use browser_cortex.Common.Map
use browser_cortex.Contracts.Errors.{ok, err, duplicate_request}
use browser_cortex.Bridge.Sessions.{
  size, Message, Sender, Url, Session, Registry, captures, capture_selection, authorize, used,
  revoke, has_type, normalized_origin, validate_sender,
}
use browser_cortex.Bridge.Sessions.Create.{Input, create}
use browser_cortex.Bridge.Sessions.Authorize.{Authorized, authorize_iff}
use browser_cortex.Bridge.Sessions.Traces.{Call, authorizing, revoking, total_spent, spent, step}
use browser_cortex.Bridge.Sessions.Quota.{same_request, budget_left, request_once, requests-le}

-- Every address is its own origin here.
abbrev plain_url : Text → Option Url
plain_url text = some (record { origin = text; username = []; password = [] })

abbrev tab : Sender
tab = record {
  tab_id = nat 7;
  frame_id = nat 0;
  origin = units "https://example.com";
  document_id = units "d1";
  extension_id = none;
}

abbrev input : Input
input = record {
  sender = tab;
  allowed_types = capture_selection ∷ [];
  search_scope = none;
  tool_scope = none;
  now = none;
  inactivity_ms = none;
  max_requests = some (nat 2);
}

abbrev session : Session
session = record {
  tab_id = 7;
  frame_id = 0;
  origin = units "https://example.com";
  document_id = units "d1";
  extension_id = none;
  allowed_types = capture_selection ∷ [];
  search_scope = none;
  tool_scope = none;
  created_at = 1000;
  inactivity_ms = 1800000;
  max_requests = 2;
  seen = [];
  last_used_at = 1000;
  request_count = 0;
  revoked = false;
}

abbrev registry : Registry
registry = (units "s1", session) ∷ []

abbrev asks : Text → Message
asks request_id = record {
  session_id = units "s1";
  request_id = request_id;
  document_id = units "d1";
  payload = captures;
}

abbrev asked : Registry
asked = Map.set (units "s1") (used session (units "q1") 2000) registry

create_test :
    create plain_url (nat 1000) input (units "s1" ∷ []) [] ≡ some (ok (units "s1"), registry)
unfolding create validate_sender safe_natural is_identifier bounded_positive has_type Map.get
    normalized_origin ◌===◌ Map.set
create_test = refl

authorize_test : authorize plain_url (asks (units "q1")) tab (nat 2000) registry ≡ (ok tt, asked)
unfolding authorize safe_natural is_identifier Map.get ◌===◌ includes
authorize_test = refl

replay_test :
    authorize plain_url (asks (units "q1")) tab (nat 2001) asked ≡ (err duplicate_request, asked)
unfolding authorize safe_natural is_identifier Map.get Map.set ◌===◌ includes
replay_test = refl

abbrev calls : List Call
calls =
    authorizing (asks (units "q1")) tab (nat 2000)
    ∷ authorizing (asks (units "q1")) tab (nat 2001)
    ∷ authorizing (asks (units "q2")) tab (nat 2002)
    ∷ authorizing (asks (units "q3")) tab (nat 2003)
    ∷ revoking (units "s1")
    ∷ []

spent_test : total_spent plain_url (λ request. 1) (units "s1") calls registry ≡ 2
unfolding total_spent authorize revoke spent ◌===◌ safe_natural is_identifier Map.get includes step
    Map.set
spent_test = refl

request_once_example :
    total_spent plain_url (same_request (units "q1")) (units "s1") calls registry ≤ 1
request_once_example =
    request_once plain_url (units "s1") (units "q1") calls registry (tt, (tt, (tt, (tt, (tt, tt)))))
      (tt, tt)

requests-le_example :
    total_spent plain_url (λ request. 1) (units "s1") calls registry
    ≤ budget_left (Map.get (units "s1") registry)
requests-le_example =
    requests-le plain_url (units "s1") calls registry (tt, (tt, (tt, (tt, (tt, tt))))) (tt, tt)

authorize_iff_example :
    (authorize plain_url (asks (units "q1")) tab (nat 2000) registry ≡ (ok tt, asked)) ↔ (
      (t : ℕ) × (s : Session) × (safe_natural (nat 2000) ≡ some t)
      × (Map.get (units "s1") registry ≡ some s)
      × Authorized plain_url (asks (units "q1")) tab t s
      × (asked ≡ Map.set (units "s1") (used s (units "q1") t) registry))
authorize_iff_example = authorize_iff plain_url (asks (units "q1")) tab (nat 2000) registry asked

size_test : size asked ≡ 1
unfolding size Map.set ◌===◌
size_test = refl
