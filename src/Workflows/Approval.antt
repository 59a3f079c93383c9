-- ===== src/Workflows/Approval.antt =====
-- packages/workflows/src/approval.ts: the broker of one-time approvals for workflow steps. A method
-- that awaits is cut at its `await`: other calls may run between its parts. Times are milliseconds;
-- `toISOString` and `Date.parse` are inverse on them.
pub mod Sequential
pub mod Race
mod Tests
use browser_cortex.Common.{
  ℕ, ◌+◌, ◌≡◌, Bool, true, false, not, ◌&&◌, ◌||◌, Option, none, some, [], Text, Number, ◌===◌, leb,
  if◌then◌else◌, bounded_positive,
}
use browser_cortex.Common.Map
use browser_cortex.Common.Map.{Map}

-- ApprovalBinding without `expiresAt`, from types.ts.
pub record Binding : Type 0 where
  pub run_id : Text
  pub workflow_id : Text
  pub step_id : Text
  pub scope : Text
  pub plan_fingerprint : Text
  pub arguments_fingerprint : Text

-- ApprovalHandle, from types.ts; its `id` is the key in the map.
pub record Handle : Type 0 where
  pub binding : Binding
  pub expires_at : ℕ
  pub approved : Bool
  pub consumed : Bool

abbrev pub Broker : Type 0
Broker = Map Handle

-- The errors that the methods throw.
pub data Failure : Type 0 where
  invalid_lifetime expired_during_review unavailable expired mismatch : Failure

pub data Outcome {ℓ} (A : Type ℓ) : Type ℓ where
  done : A → Outcome A
  failed : Failure → Outcome A

-- `request` up to its `await` of the review, with the handle that is drawn.
pub request_begin : ℕ → ℕ → Number → Text → Binding → Broker → Outcome Handle × Broker
request_begin maximum_lifetime now lifetime id binding broker =
    elim (bounded_positive maximum_lifetime lifetime) [
      | none ↦ (failed invalid_lifetime, broker)
      | some lifetime_ms ↦
          let handle : Handle = record {
            binding = binding;
            expires_at = now + lifetime_ms;
            approved = false;
            consumed = false;
          } in
          (done handle, Map.set id handle broker)
    ]

-- `request` behind the review, which answered `approved`.
pub request_finish : Text → Bool → Broker → Outcome Handle × Broker
request_finish id approved broker = elim (Map.get id broker) [
  | none ↦ (failed expired_during_review, broker)
  | some current ↦ (
    done (record current { approved = approved }),
    Map.set id (record current { approved = approved }) broker,
  )
]

begin_found : Text → ℕ → Option Handle → Broker → Outcome Binding × Broker
begin_found id now none broker = (failed unavailable, broker)
begin_found id now (some handle) broker =
    if not handle.approved || handle.consumed
    then (failed unavailable, broker)
    else if leb handle.expires_at now
    then (failed expired, Map.delete id broker)
    else (done handle.binding, broker)

-- `consume` up to its `await` of the fingerprints: the binding that the handle carries.
pub consume_begin : Text → ℕ → Broker → Outcome Binding × Broker
unfolding begin_found
consume_begin id now broker = begin_found id now (Map.get id broker) broker

-- `consume` behind the `await`. The handle is deleted; that it is also marked as consumed shows
-- nowhere, since no call reads a handle that it does not find in the map.
pub consume_finish :
    (Binding → Text) → Text → Binding → Binding → Broker → Outcome (Unit {0}) × Broker
consume_finish fingerprint id actual expected broker =
    if fingerprint actual === fingerprint expected
    then (done tt, Map.delete id broker)
    else (failed mismatch, broker)

finish_begun :
    (Binding → Text) → Text → Binding → Outcome Binding × Broker → Outcome (Unit {0}) × Broker
finish_begun fingerprint id expected (done actual, broker) =
    consume_finish fingerprint id actual expected broker
finish_begun fingerprint id expected (failed reason, broker) = (failed reason, broker)

-- `consume` with nothing between its two parts.
pub consume : (Binding → Text) → ℕ → Text → Binding → Broker → Outcome (Unit {0}) × Broker
unfolding finish_begun
consume fingerprint now id expected broker =
    finish_begun fingerprint id expected (consume_begin id now broker)

pub revoke : Text → Broker → Broker
revoke id broker = Map.delete id broker

pub clear : Broker → Broker
clear broker = []
