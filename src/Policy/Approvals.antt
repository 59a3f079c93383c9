-- ===== src/Policy/Approvals.antt =====
-- packages/policy/src/approvals.ts: the store of one-time approvals.
pub mod ConstantTime
pub mod Consume
pub mod Bounds
pub mod Traces
pub mod Uses
mod Tests
use browser_cortex.Common.{
  ℕ, zero, suc, ◌+◌, ◌-◌, ◌≡◌, Bool, true, false, not, ◌&&◌, ◌||◌, Option, none, some, List, [],
  ◌∷◌, ◌++◌, Text, Number, nat, ◌===◌, ltb, leb, ◌==◌, if◌then◌else◌, length, every, units, drop,
  starts_with, arith, safe_natural, bounded_positive, max_safe_integer, max,
}
use Prim.Native.Nat.{bit_or, bit_xor}
use browser_cortex.Common.Map
use browser_cortex.Common.Map.{Map}
use browser_cortex.Contracts.Limits
use browser_cortex.Contracts.Errors.{Result, ok, err, invalid_input, ErrorCode, ◌>>=◌}
use browser_cortex.Contracts.Schemas.{is_hex}
use mathlib.Core.Option

-- interface StoredApproval
pub record StoredApproval : Type 0 where
  pub binding_fingerprint : Text
  pub expires_at : ℕ
  pub issued_at : ℕ
  pub max_uses : ℕ
  pub uses : ℕ

abbrev pub Store : Type 0
Store = Map StoredApproval

-- interface ApprovalIssueOptions; `none` is a field that is left out.
pub record IssueOptions : Type 0 where
  pub now : Option Number
  pub lifetime_ms : Option Number
  pub max_uses : Option Number

pub data Reason : Type 0 where
  unknown_handle expired binding_mismatch exhausted : Reason

pub data Decision : Type 0 where
  approved : ℕ → Decision
  refused : Reason → Decision

-- `text.charCodeAt(index) || 0`: past the end `charCodeAt` is NaN.
unfoldable pub char_code_at : Text → ℕ → ℕ
char_code_at [] index = 0
char_code_at (c ∷ text) zero = c
char_code_at (c ∷ text) (suc index) = char_code_at text index

-- The loop of `constantTimeEqual`, with the rounds that are left.
unfoldable pub difference_from : ℕ → ℕ → ℕ → Text → Text → ℕ
difference_from zero index difference left right = difference
difference_from (suc rounds) index difference left right =
    difference_from rounds (suc index)
      (bit_or difference (bit_xor (char_code_at left index) (char_code_at right index))) left right

unfoldable pub constant_time_equal : Text → Text → Bool
unfolding difference_from char_code_at
constant_time_equal left right =
    difference_from (max (length left) (length right)) 0 (bit_xor (length left) (length right)) left
      right
    == 0

-- The loop that draws a handle until the store has none of that name, on the values that
-- `randomHex(32)` gives in turn; `none` when those given run out.
pub fresh_handle : Store → List Text → Option Text
fresh_handle records [] = none
fresh_handle records (hex ∷ draws) =
    let handle = units "apv_" ++ hex in
    let rest = fresh_handle records draws in if Map.has handle records then rest else some handle

-- The record that `issue` stores.
abbrev pub issued_record : ℕ → ℕ → ℕ → Text → StoredApproval
issued_record now lifetime_ms max_uses digest = record {
  binding_fingerprint = digest;
  expires_at = now + lifetime_ms;
  issued_at = now;
  max_uses = max_uses;
  uses = 0;
}

-- The part of `issue` behind the loop.
pub store_issued : ℕ → ℕ → ℕ → Text → Text → Store → Result Text × Store
store_issued now lifetime_ms max_uses digest handle records =
    if ltb max_safe_integer (now + lifetime_ms)
    then (err invalid_input, records)
    else (ok handle, Map.set handle (issued_record now lifetime_ms max_uses digest) records)

-- `/^apv_[a-f0-9]{64}$/u.test(handle)`
unfoldable pub is_handle : Text → Bool
is_handle handle =
    starts_with handle (units "apv_") && length handle == 68 && every is_hex (drop 4 handle)

-- `now < record.issuedAt || now >= record.expiresAt`
unfoldable pub is_expired : ℕ → StoredApproval → Bool
is_expired now r = ltb now r.issued_at || leb r.expires_at now

-- The part of `consume` behind the check of `now`.
unfoldable pub consume_record : Text → Text → ℕ → StoredApproval → Store → Decision × Store
unfolding is_expired
consume_record handle incoming now r records =
    if is_expired now r
    then (refused expired, Map.delete handle records)
    else if leb r.max_uses r.uses
    then (refused exhausted, Map.delete handle records)
    else if not (constant_time_equal r.binding_fingerprint incoming)
    then (refused binding_mismatch, records)
    else if r.max_uses - (r.uses + 1) == 0
    then (approved 0, Map.delete handle records)
    else (
      approved (r.max_uses - (r.uses + 1)),
      Map.set handle (record r { uses = r.uses + 1 }) records,
    )

-- `now` is a timestamp, or `none` when `isTimestamp(now)` fails.
unfoldable pub consume_found :
    Text → Text → Option ℕ → Option StoredApproval → Store → Decision × Store
unfolding consume_record
consume_found handle incoming now none records = (refused unknown_handle, records)
consume_found handle incoming none (some r) records = (refused expired, Map.delete handle records)
consume_found handle incoming (some t) (some r) records = consume_record handle incoming t r records

-- The part of `consume` behind the fingerprint.
unfoldable pub consume_as : Text → Result Text → Number → Store → Result Decision × Store
unfolding consume_found
consume_as handle (err code) now records = (err code, records)
consume_as handle (ok incoming) now records =
    let (decision, after) =
      consume_found handle incoming (safe_natural now) (Map.get handle records) records in
    (ok decision, after)

-- The part of `issue` behind the three checks: what it awaits, and then the loop. `none` stands for
-- a check that fails, and `fingerprint` for `fingerprintApprovalBinding(input)`.
pub issue_checked :
    Result Text → List Text → Option ℕ → Option ℕ → Option ℕ → Store → Option (Result Text × Store)
issue_checked (err code) draws (some now) (some lifetime_ms) (some max_uses) records =
    some (err code, records)
issue_checked (ok digest) draws (some now) (some lifetime_ms) (some max_uses) records =
    Option.map (λ handle. store_issued now lifetime_ms max_uses digest handle records)
      (fresh_handle records draws)
issue_checked fingerprint draws _ _ _ records = some (err invalid_input, records)

-- `fingerprint` is `fingerprintApprovalBinding`, which may throw; `clock` is `Date.now()`.
module _ {Binding : Type 0} (fingerprint : Binding → Result Text) (clock : Number) where
  pub issue : Binding → IssueOptions → List Text → Store → Option (Result Text × Store)
  unfolding issue_checked store_issued fresh_handle
  issue binding options draws records =
      issue_checked (fingerprint binding) draws (safe_natural (Option.get_or options.now clock))
        (bounded_positive Limits.approval_lifetime_ms
          (Option.get_or options.lifetime_ms (nat Limits.approval_lifetime_ms)))
        (bounded_positive Limits.approval_uses (Option.get_or options.max_uses (nat 1))) records

  -- The look-up stands behind the `await` of the fingerprint, so nothing comes between it and the
  -- end of the method.
  unfoldable pub consume : Text → Binding → Option Number → Store → Result Decision × Store
  unfolding consume_as is_handle
  consume handle binding now records =
      if not (is_handle handle)
      then (ok (refused unknown_handle), records)
      else consume_as handle (fingerprint binding) (Option.get_or now clock) records

pub purge_at : Option ℕ → Store → Result ℕ × Store
purge_at none records = (err invalid_input, records)
purge_at (some t) records =
    let (kept, removed) = Map.remove_where (is_expired t) records in (ok removed, kept)

pub purge_expired : Number → Option Number → Store → Result ℕ × Store
unfolding purge_at
purge_expired clock now records = purge_at (safe_natural (Option.get_or now clock)) records

pub revoke : Text → Store → Bool × Store
revoke handle records = (Map.has handle records, Map.delete handle records)

pub size : Store → ℕ
size records = length records
