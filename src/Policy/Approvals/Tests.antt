-- ===== src/Policy/Approvals/Tests.antt =====
-- Runs of the store of approvals.ts.
use browser_cortex.Contracts.Schemas.{is_hex}
use browser_cortex.Common.{
  ◌≤◌, ◌≡◌, ◌↔◌, refl, none, some, List, [], ◌∷◌, ◌++◌, Text, nat, units, true, bounded_positive,
  safe_natural, starts_with, ◌===◌,
}
use browser_cortex.Common.Map
use browser_cortex.Contracts.Errors.{Result, ok}
use browser_cortex.Policy.Approvals.{
  size, Store, approved, refused, binding_mismatch, expired, IssueOptions, issued_record, issue,
  consume, constant_time_equal, purge_expired,
}
use browser_cortex.Policy.Approvals.Consume.{Grants, consume-approved_iff}
use browser_cortex.Policy.Approvals.ConstantTime.{constant_time_equal_iff}
use browser_cortex.Policy.Approvals.Bounds.{IsSound}
use browser_cortex.Policy.Approvals.Traces.{
  Call, issuing, consuming, revoking, purging, grants, run, run-IsSound, granted, step,
}
use browser_cortex.Policy.Approvals.Uses.{issue_grants}

-- The binding stands for its own canonical text here.
abbrev digest : Text → Result Text
digest binding = ok (units "sha256:" ++ binding)

abbrev hex : Text
hex = units "00112233445566778899aabbccddeeff00112233445566778899aabbccddeeff"

abbrev handle : Text
handle = units "apv_" ++ hex

abbrev two_uses : IssueOptions
two_uses = record { now = none; lifetime_ms = some (nat 1000); max_uses = some (nat 2) }

abbrev issued : Store
issued = (handle, issued_record 5000 1000 2 (units "sha256:send")) ∷ []

abbrev consumed_once : Call Text
consumed_once = consuming (nat 5500) handle (units "send") none

abbrev calls : List (Call Text)
calls =
    consumed_once ∷ purging (nat 5600) none ∷ consumed_once ∷ consumed_once ∷ revoking handle ∷ []

issue_test :
    issue digest (nat 5000) (units "send") two_uses (hex ∷ []) [] ≡ some (ok handle, issued)
unfolding issue safe_natural bounded_positive Map.get Map.set
issue_test = refl

consume_test : (consume digest (nat 5500) handle (units "send") none issued).0 ≡ ok (approved 1)
unfolding consume constant_time_equal starts_with is_hex Map.get ◌===◌ safe_natural
consume_test = refl

mismatch_test :
    (consume digest (nat 5500) handle (units "read") none issued).0 ≡ ok (refused binding_mismatch)
unfolding consume constant_time_equal starts_with is_hex Map.get ◌===◌ safe_natural
mismatch_test = refl

expired_test :
    consume digest (nat 6000) handle (units "send") none issued ≡ (ok (refused expired), [])
unfolding consume starts_with is_hex Map.get ◌===◌ safe_natural Map.delete
expired_test = refl

grants_test : grants digest handle calls issued ≡ 2
unfolding grants consume purge_expired constant_time_equal granted ◌===◌ starts_with is_hex Map.get
    safe_natural step Map.remove_where Map.set Map.delete
grants_test = refl

issue_grants_example : grants digest handle calls issued ≤ 2
unfolding issue bounded_positive safe_natural Map.get Map.set
issue_grants_example =
    issue_grants digest (nat 5000) (units "send") two_uses (hex ∷ []) [] issued handle 2 calls
      (record { valid = tt; distinct = tt }) refl refl (tt, (tt, (tt, (tt, (tt, tt)))))

consume-approved_iff_example :
    ((consume digest (nat 5500) handle (units "send") none issued).0 ≡ ok (approved 1))
    ↔ Grants digest handle (units "send") (nat 5500) issued 1
consume-approved_iff_example =
    consume-approved_iff digest (nat 5500) handle (units "send") none issued 1

run-IsSound_example :
    IsSound (run digest (issuing (nat 5000) (units "send") two_uses (hex ∷ []) ∷ calls) [])
run-IsSound_example =
    run-IsSound digest (issuing (nat 5000) (units "send") two_uses (hex ∷ []) ∷ calls)

constant_time_equal_iff_example :
    (constant_time_equal (units "sha256:send") (units "sha256:sent") ≡ true)
    ↔ (units "sha256:send" ≡ units "sha256:sent")
constant_time_equal_iff_example =
    constant_time_equal_iff (units "sha256:send") (units "sha256:sent")

size_test : size issued ≡ 1
unfolding size
size_test = refl
