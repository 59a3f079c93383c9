-- ===== src/Policy/Grants.antt =====
-- packages/policy/src/grants.ts: capability grants and their use counts, with the schema of a grant
-- from packages/contracts/src/schemas.ts. An input of another shape, or with a number that is no
-- natural number where the schema wants one, is refused by the schema and is not represented.
pub mod Evaluate
pub mod Usage
pub mod Calls
mod Tests
use mathlib.Core.Option
use browser_cortex.Common.{
  ℕ, zero, suc, ◌+◌, ◌-◌, ◌≡◌, Bool, true, false, not, ◌&&◌, ◌||◌, Option, none, some, List, [],
  ◌∷◌, ◌++◌, Text, Number, nat, ◌===◌, same_option, ltb, leb, ◌==◌, if◌then◌else◌, length, every,
  units, starts_with, includes, safe_natural, max_safe_integer,
}
use browser_cortex.Common.Map
use browser_cortex.Common.Map.{Map}
use browser_cortex.Contracts.Limits
use browser_cortex.Contracts.Errors.{
  Result, ok, err, invalid_input, invalid_schema_version, ErrorCode, ◌>>=◌,
}
use browser_cortex.Contracts.Schemas.{is_identifier, is_fingerprint, is_bounded_text}

-- CapabilityGrant
pub record Grant : Type 0 where
  pub schema_version : ℕ
  pub grant_id : Text
  pub subject : Text
  pub originating_application : Text
  pub workspace_id : Text
  pub operation : Text
  pub source_ids : List Text
  pub source_namespace : Option Text
  pub tool_version : Option Text
  pub parameter_fingerprint : Option Text
  pub recipient : Option Text
  pub issued_at : ℕ
  pub expires_at : ℕ
  pub usage_limit : ℕ
  pub revoked : Bool

-- interface CapabilityRequest
pub record Request : Type 0 where
  pub subject : Text
  pub originating_application : Text
  pub workspace_id : Text
  pub operation : Text
  pub source_ids : List Text
  pub tool_version : Option Text
  pub parameter_fingerprint : Option Text
  pub recipient : Option Text

-- CapabilityDenialReason
pub data Denial : Type 0 where
  grant_not_found grant_revoked grant_not_yet_active grant_expired grant_exhausted : Denial
  invalid_time invalid_usage subject_mismatch application_mismatch workspace_mismatch : Denial
  operation_mismatch source_scope_mismatch tool_version_mismatch parameter_mismatch : Denial
  recipient_mismatch : Denial

pub data Decision : Type 0 where
  allowed : Text → ℕ → Decision
  denied : Denial → Decision

abbrev pub optionally : (Text → Bool) → Option Text → Bool
optionally test none = true
optionally test (some t) = test t

-- CapabilityGrantSchema, but for the literal of `schemaVersion`.
pub has_grant_shape : Grant → Bool
has_grant_shape g =
    is_identifier g.grant_id
    && is_identifier g.subject
    && is_bounded_text 512 g.originating_application
    && is_identifier g.workspace_id
    && is_identifier g.operation
    && leb (length g.source_ids) Limits.source_ids
    && every is_identifier g.source_ids
    && optionally (is_bounded_text 256) g.source_namespace
    && optionally (is_bounded_text 128) g.tool_version
    && optionally is_fingerprint g.parameter_fingerprint
    && optionally (is_bounded_text 512) g.recipient
    && leb g.issued_at max_safe_integer
    && leb g.expires_at max_safe_integer
    && ltb 0 g.usage_limit
    && leb g.usage_limit 10000
    && ltb g.issued_at g.expires_at

-- `parseVersioned(CapabilityGrantSchema, input)`
pub parse_grant : Grant → Result Grant
parse_grant g =
    if g.schema_version == 1
    then (if has_grant_shape g then ok g else err invalid_input)
    else err invalid_schema_version

pub namespace_allows : Option Text → Text → Bool
namespace_allows none source_id = false
namespace_allows (some name) source_id = starts_with source_id (name ++ units ":")

pub source_scope_allows : Grant → List Text → Bool
unfolding namespace_allows
source_scope_allows g requested =
    every
      (λ source_id.
        includes g.source_ids source_id || namespace_allows g.source_namespace source_id)
      requested

-- The checks of `evaluateCapability` behind those of the times and the uses.
pub evaluate_request : Grant → Request → ℕ → Decision
evaluate_request g r used =
    if not (g.subject === r.subject)
    then denied subject_mismatch
    else if not (g.originating_application === r.originating_application)
    then denied application_mismatch
    else if not (g.workspace_id === r.workspace_id)
    then denied workspace_mismatch
    else if not (g.operation === r.operation)
    then denied operation_mismatch
    else if not (source_scope_allows g r.source_ids)
    then denied source_scope_mismatch
    else if not (same_option g.tool_version r.tool_version)
    then denied tool_version_mismatch
    else if not (same_option g.parameter_fingerprint r.parameter_fingerprint)
    then denied parameter_mismatch
    else if not (same_option g.recipient r.recipient)
    then denied recipient_mismatch
    else allowed g.grant_id (g.usage_limit - used - 1)

-- The checks of `evaluateCapability` behind the schema; `none` is a number that fails its check.
pub evaluate_parsed : Grant → Request → Option ℕ → Option ℕ → Decision
evaluate_parsed g r used none = denied invalid_time
evaluate_parsed g r none (some now) = denied invalid_usage
evaluate_parsed g r (some used) (some now) =
    if g.revoked
    then denied grant_revoked
    else if ltb now g.issued_at
    then denied grant_not_yet_active
    else if leb g.expires_at now
    then denied grant_expired
    else if leb g.usage_limit used
    then denied grant_exhausted
    else evaluate_request g r used

pub evaluate_capability : Grant → Request → Number → Number → Result Decision
evaluate_capability grant request usage_count now = do
  g ← parse_grant grant
  ok (evaluate_parsed g request (safe_natural usage_count) (safe_natural now))

-- class GrantStore
pub record Store : Type 0 where
  pub grants : Map Grant
  pub usage : Map ℕ

-- The stored part of `add`.
pub store_grant : Grant → Store → Result Grant × Store
store_grant g s = if Map.has g.grant_id s.grants then (err invalid_input, s) else (
  ok g,
  record { grants = Map.set g.grant_id g s.grants; usage = Map.set g.grant_id 0 s.usage },
)

pub add_parsed : Result Grant → Store → Result Grant × Store
unfolding store_grant
add_parsed (ok g) s = store_grant g s
add_parsed (err code) s = (err code, s)

pub add : Grant → Store → Result Grant × Store
unfolding add_parsed
add input s = add_parsed (parse_grant input) s

pub revoke_found : Text → Option Grant → Store → Bool × Store
revoke_found id none s = (false, s)
revoke_found id (some g) s =
    (true, record s { grants = Map.set id (record g { revoked = true }) s.grants })

pub revoke : Text → Store → Bool × Store
unfolding revoke_found
revoke id s = revoke_found id (Map.get id s.grants) s

pub remove : Text → Store → Bool × Store
remove id s =
    (Map.has id s.grants, record { grants = Map.delete id s.grants; usage = Map.delete id s.usage })

-- `if (decision.allowed && consume) this.#usage.set(grantId, usageCount + 1)`
pub count_use : Text → ℕ → Bool → Result Decision → Store → Result Decision × Store
count_use id used consume (ok (allowed grant left)) s =
    if consume
    then (ok (allowed grant left), record s { usage = Map.set id (used + 1) s.usage })
    else (ok (allowed grant left), s)
count_use id used consume (ok (denied reason)) s = (ok (denied reason), s)
count_use id used consume (err code) s = (err code, s)

-- interface of the options of `authorize`; `none` is a field that is left out.
pub record Options : Type 0 where
  pub consume : Option Bool
  pub now : Option Number

pub authorize_found :
    Number → Text → Option Grant → Request → Options → Store → Result Decision × Store
unfolding count_use
authorize_found clock id none request options s = (ok (denied grant_not_found), s)
authorize_found clock id (some g) request options s =
    let used = Option.get_or (Map.get id s.usage) 0 in
    count_use id used (Option.get_or options.consume true)
      (evaluate_capability g request (nat used) (Option.get_or options.now clock)) s

-- `clock` is `Date.now()`.
pub authorize : Number → Text → Request → Options → Store → Result Decision × Store
unfolding authorize_found
authorize clock id request options s =
    authorize_found clock id (Map.get id s.grants) request options s

-- The loop of `findAndAuthorize` over the grants that are left, with `lastReason`. What the answer
-- to one of them means for the loop is `decide_next`.
pub decide_next :
    Result Decision × Store → (Denial → Store → Result Decision × Store) → Result Decision × Store
decide_next (err code, s) rest = (err code, s)
decide_next (ok (allowed id left), s) rest = (ok (allowed id left), s)
decide_next (ok (denied reason), s) rest = rest reason s

pub find_from :
    Number → Request → Options → List (Text × Grant) → Denial → Store → Result Decision × Store
find_from clock request options [] last s = (ok (denied last), s)
find_from clock request options ((id, g) ∷ rest) last s =
    decide_next (authorize clock g.grant_id request options s)
      (λ reason after. find_from clock request options rest reason after)

pub find_and_authorize : Number → Request → Options → Store → Result Decision × Store
unfolding find_from decide_next
find_and_authorize clock request options s =
    find_from clock request options s.grants grant_not_found s

pub get : Text → Store → Option Grant
get id s = Map.get id s.grants
