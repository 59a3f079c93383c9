-- ===== src/Contracts/Errors.antt =====
-- packages/contracts/src/errors.ts: the codes of the errors that the packages throw. A thrown
-- `CortexError` is its code; its message and retry hint are not modelled.
use browser_cortex.Common.{Bool, true, false, ◌≡◌, refl}

-- ERROR_CODES
pub data ErrorCode : Type 0 where
  gpu_unavailable model_not_installed model_integrity_failed model_incompatible : ErrorCode
  out_of_memory storage_full vault_locked permission_denied source_revoked : ErrorCode
  sensitive_data_blocked stale_document invalid_model_output unsupported_task : ErrorCode
  online_disabled disclosure_required approval_expired approval_invalid : ErrorCode
  postcondition_failed outcome_unknown cancelled invalid_input invalid_schema_version : ErrorCode
  payload_too_large response_rejected transport_failed timeout already_initialized : ErrorCode
  not_initialized disposed duplicate_request session_expired session_revoked : ErrorCode

-- What a function returns, or the code of the error that it throws.
pub data Result {ℓ} (A : Type ℓ) : Type ℓ where
  ok : A → Result A
  err : ErrorCode → Result A

infixl 5 ◌>>=◌ ◌>>◌
abbrev pub ◌>>=◌ {ℓ κ} : {A : Type ℓ} {B : Type κ} → Result A → (A → Result B) → Result B
ok a >>= f = f a
err c >>= f = err c

abbrev pub ◌>>◌ {ℓ} : {B : Type ℓ} → Result (Unit {0}) → Result B → Result B
m >> k = m >>= λ _. k

-- `if (!test) throw createSafeError(code)`
abbrev pub guard : Bool → ErrorCode → Result (Unit {0})
guard true code = ok tt
guard false code = err code

-- What a chain that returns has returned at its first step.
pub bind-eq-ok {ℓ κ} :
    {A : Type ℓ} {B : Type κ} (m : Result A) (f : A → Result B) (b : B)
    → (m >>= f) ≡ ok b
    → (a : A) × (m ≡ ok a) × (f a ≡ ok b)
bind-eq-ok (ok a) f b h = (a, refl, h)
bind-eq-ok (err code) f b h = absurd (cc)
