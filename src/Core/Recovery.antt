-- ===== src/Core/Recovery.antt =====
-- packages/core/src/recovery.ts: the controller that tracks whether local generation is available.
pub mod Runs
mod Tests
use browser_cortex.Common.{
  ℕ, zero, suc, ◌+◌, ◌≡◌, Bool, true, false, not, Option, none, some, if◌then◌else◌,
}
use browser_cortex.Contracts.Errors.{
  ErrorCode, gpu_unavailable, model_not_installed, model_incompatible, model_integrity_failed,
  out_of_memory, storage_full, disposed, Result, ok, err,
}

-- LocalCapabilityMode; `closed` is 'disposed'.
pub data Mode : Type 0 where
  full reduced failing closed : Mode

-- class LocalRecoveryController
pub record Controller : Type 0 where
  pub mode : Mode
  pub reason : Option ErrorCode
  pub worker_generation : ℕ

-- interface RecoverySnapshot
pub record Snapshot : Type 0 where
  pub mode : Mode
  pub generation_available : Bool
  pub deterministic_tools_available : Bool
  pub reason : Option ErrorCode
  pub worker_generation : ℕ

abbrev pub fresh : Controller
fresh = record { mode = reduced; reason = some model_not_installed; worker_generation = 0 }

-- REDUCED_MODE_ERRORS.has(code)
pub is_reduced_mode_error : ErrorCode → Bool
is_reduced_mode_error gpu_unavailable = true
is_reduced_mode_error model_not_installed = true
is_reduced_mode_error model_incompatible = true
is_reduced_mode_error model_integrity_failed = true
is_reduced_mode_error out_of_memory = true
is_reduced_mode_error storage_full = true
is_reduced_mode_error _ = false

-- `this.#mode === 'full'`, and 'disposed'.
pub is_full : Mode → Bool
is_full full = true
is_full _ = false

pub is_closed : Mode → Bool
is_closed closed = true
is_closed _ = false

-- `this.#mode === 'full' ? undefined : this.#reason`
pub shown_reason : Mode → Option ErrorCode → Option ErrorCode
shown_reason full reason = none
shown_reason _ reason = reason

pub snapshot : Controller → Snapshot
unfolding is_full is_closed shown_reason
snapshot c = record {
  mode = c.mode;
  generation_available = is_full c.mode;
  deterministic_tools_available = not (is_closed c.mode);
  reason = shown_reason c.mode c.reason;
  worker_generation = c.worker_generation;
}

pub ready : Controller → Result Snapshot × Controller
unfolding snapshot
ready c =
    let after = record c { mode = full; reason = none } in
    if is_closed c.mode then (err disposed, c) else (ok (snapshot after), after)

pub failed : ErrorCode → Controller → Result Snapshot × Controller
unfolding is_reduced_mode_error
failed code c =
    let after = record c {
      mode = if is_reduced_mode_error code then reduced else failing;
      reason = some code;
      worker_generation = c.worker_generation + 1;
    } in
    if is_closed c.mode then (err disposed, c) else (ok (snapshot after), after)

pub dispose : Controller → Snapshot × Controller
dispose c =
    let after = record c { mode = closed; reason = some disposed } in (snapshot after, after)
