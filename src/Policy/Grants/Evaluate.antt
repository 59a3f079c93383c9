-- ===== src/Policy/Grants/Evaluate.antt =====
-- When `evaluateCapability` of grants.ts allows a request.
use browser_cortex.Common.{
  ℕ, ◌+◌, ◌-◌, ◌≤◌, ◌<◌, ◌≡◌, refl, ◌↔◌, ◌⊎◌, inl, inr, true, false, ◌||◌, Option, none, some, ◌++◌,
  Text, Number, ===_iff, same_option_iff, All, All-every, All-map_of, includes,
  append_of_starts_with, units, arith, safe_natural, Bool-cases, ap,
}
use browser_cortex.Contracts.Errors.{ok}
use browser_cortex.Policy.Grants.{
  Grant, Request, allowed, has_grant_shape, parse_grant, source_scope_allows, namespace_allows,
  evaluate_request, evaluate_parsed, evaluate_capability,
}

-- The request names exactly what the grant names, and only sources within its scope.
pub record Fits (g : Grant) (r : Request) : Type 0 where
  pub subject : g.subject ≡ r.subject
  pub application : g.originating_application ≡ r.originating_application
  pub workspace : g.workspace_id ≡ r.workspace_id
  pub operation : g.operation ≡ r.operation
  pub sources : source_scope_allows g r.source_ids ≡ true
  pub tool : g.tool_version ≡ r.tool_version
  pub parameters : g.parameter_fingerprint ≡ r.parameter_fingerprint
  pub recipient : g.recipient ≡ r.recipient

evaluate_request_iff :
    (g : Grant) (r : Request) (used left : ℕ) (id : Text)
    → (evaluate_request g r used ≡ allowed id left)
      ↔ (Fits g r × (id ≡ g.grant_id) × (left ≡ g.usage_limit - used - 1))
unfolding evaluate_request
evaluate_request_iff g r used left id = ground (
  arith,
  ===_iff g.subject r.subject,
  ===_iff g.originating_application r.originating_application,
  ===_iff g.workspace_id r.workspace_id,
  ===_iff g.operation r.operation,
  same_option_iff g.tool_version r.tool_version,
  same_option_iff g.parameter_fingerprint r.parameter_fingerprint,
  same_option_iff g.recipient r.recipient,
)

-- All that an allowed request has met.
pub record Allows (g : Grant) (r : Request) (usage now : Number) (id : Text) (left : ℕ)
    : Type 0 where
  pub version : g.schema_version ≡ 1
  pub shape : has_grant_shape g ≡ true
  pub used : ℕ
  pub counted : safe_natural usage ≡ some used
  pub time : ℕ
  pub timestamp : safe_natural now ≡ some time
  pub live : g.revoked ≡ false
  pub active : g.issued_at ≤ time
  pub unexpired : time < g.expires_at
  pub unused : used < g.usage_limit
  pub fits : Fits g r
  pub named : id ≡ g.grant_id
  pub remaining : left + used + 1 ≡ g.usage_limit

parsed_sound :
    (g : Grant) (r : Request) (usage now : Option ℕ) (id : Text) (left : ℕ)
    → evaluate_parsed g r usage now ≡ allowed id left
    → (u : ℕ) × (t : ℕ) × (usage ≡ some u)
      × (now ≡ some t)
      × (g.revoked ≡ false)
      × (g.issued_at ≤ t)
      × (t < g.expires_at)
      × (u < g.usage_limit)
      × (evaluate_request g r u ≡ allowed id left)
unfolding evaluate_parsed
parsed_sound g r usage none id left e = absurd (cc)
parsed_sound g r none (some t) id left e = absurd (cc)
parsed_sound g r (some u) (some t) id left e =
    (u, t, refl, refl, ground arith, ground arith, ground arith, ground arith, ground arith)

parsed_complete :
    (g : Grant) (r : Request) (u t : ℕ) (id : Text) (left : ℕ)
    → g.revoked ≡ false
    → g.issued_at ≤ t
    → t < g.expires_at
    → u < g.usage_limit
    → evaluate_request g r u ≡ allowed id left
    → evaluate_parsed g r (some u) (some t) ≡ allowed id left
unfolding evaluate_parsed
parsed_complete g r u t id left live active unexpired unused request = ground arith

parse_grant_shaped :
    (g : Grant) → g.schema_version ≡ 1 → has_grant_shape g ≡ true → parse_grant g ≡ ok g
unfolding parse_grant
parse_grant_shaped g version shape = ground arith

-- `evaluateCapability` allows a request, with `left` uses remaining, exactly when the grant fits
-- its schema, the count and the time are natural safe integers, the grant is not revoked, the time
-- lies in its term, a use is left, and the request fits it in every field.
pub evaluate_capability-allowed_iff :
    (g : Grant) (r : Request) (usage now : Number) (id : Text) (left : ℕ)
    → (evaluate_capability g r usage now ≡ ok (allowed id left)) ↔ Allows g r usage now id left
unfolding evaluate_capability parse_grant
evaluate_capability-allowed_iff g r usage now id left = (
  λ e.
      let parsed : evaluate_parsed g r (safe_natural usage) (safe_natural now) ≡ allowed id left =
        ground arith in
      let (u, t, counted, timestamp, live, active, unexpired, unused, request) =
        parsed_sound g r (safe_natural usage) (safe_natural now) id left parsed in
      let (fits, named, remaining) = (evaluate_request_iff g r u left id).0 request in
      record {
        version = ground arith;
        shape = ground arith;
        used = u;
        counted = counted;
        time = t;
        timestamp = timestamp;
        live = live;
        active = active;
        unexpired = unexpired;
        unused = unused;
        fits = fits;
        named = named;
        remaining = omega arith;
      },
  λ a.
      let request =
        (evaluate_request_iff g r a.used left id).1
          (a.fits, a.named, omega (arith, a.remaining, a.unused)) in
      rw (parse_grant_shaped g a.version a.shape, a.counted, a.timestamp)
        (ap ok
          (parsed_complete g r a.used a.time id left a.live a.active a.unexpired a.unused request)),
)

namespace_scope :
    (namespace : Option Text) (source_id : Text)
    → namespace_allows namespace source_id ≡ true
    → (name : Text) × (rest : Text) × (namespace ≡ some name)
      × (source_id ≡ (name ++ units ":") ++ rest)
unfolding namespace_allows
namespace_scope none source_id h = absurd (cc)
namespace_scope (some name) source_id h =
    let (rest, e) = append_of_starts_with source_id (name ++ units ":") h in (name, rest, refl, e)

scope_of :
    (g : Grant) (source_id : Text)
    → (includes g.source_ids source_id || namespace_allows g.source_namespace source_id) ≡ true
    → (includes g.source_ids source_id ≡ true)
      ⊎ ((name : Text) × (rest : Text) × (g.source_namespace ≡ some name)
          × (source_id ≡ (name ++ units ":") ++ rest))
scope_of g source_id h = elim (Bool-cases (includes g.source_ids source_id)) [
  | inl listed ↦ inl listed
  | inr unlisted ↦ inr (namespace_scope g.source_namespace source_id (rw unlisted at h))
]

-- A source that an allowed request names is listed in the grant, or begins with the grant's
-- namespace and a colon.
pub allowed_sources :
    (g : Grant) (r : Request) (usage now : Number) (id : Text) (left : ℕ)
    → evaluate_capability g r usage now ≡ ok (allowed id left)
    → All
        (λ source_id.
          (includes g.source_ids source_id ≡ true)
          ⊎ ((name : Text) × (rest : Text) × (g.source_namespace ≡ some name)
              × (source_id ≡ (name ++ units ":") ++ rest)))
        r.source_ids
allowed_sources g r usage now id left e =
    All-map_of
      (λ source_id.
        (includes g.source_ids source_id || namespace_allows g.source_namespace source_id) ≡ true)
      _ r.source_ids (λ source_id. scope_of g source_id)
      (All-every
        (λ source_id.
          includes g.source_ids source_id || namespace_allows g.source_namespace source_id)
        r.source_ids
        (unfold source_scope_allows in
          ((evaluate_capability-allowed_iff g r usage now id left).0 e).fits.sources))
