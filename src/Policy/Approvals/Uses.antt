-- ===== src/Policy/Approvals/Uses.antt =====
-- The approvals of one handle of approvals.ts over sequences of calls.
use mathlib.Core.Option
use browser_cortex.Common.{
  ℕ, ◌+◌, ◌≤◌, ◌≡◌, ◌≢◌, refl, ◌∙◌, subst, Bool, inl, inr, Option, none, some, List, [], ◌∷◌, ◌++◌,
  Text, Number, nat, arith, safe_natural, bounded_positive, units, ◌===◌, ===_iff, All, Bool-cases,
  some_injective,
}
use browser_cortex.Common.Map
use browser_cortex.Common.Map.{get-set, get-delete}
use browser_cortex.Common.Map.Distinct.{unless, get-remove_where}
use browser_cortex.Contracts.Limits
use browser_cortex.Contracts.Errors.{Result, ok, err}
use browser_cortex.Policy.Approvals.{
  StoredApproval, Store, IssueOptions, is_expired, is_handle, consume_as, consume, issue,
  issue_checked, issued_record, store_issued, fresh_handle, purge_expired, purge_at, revoke,
}
use browser_cortex.Policy.Approvals.Bounds.{
  IsSound, uses_left, approvals_of, consume_found_uses, consume_found_others,
}
use browser_cortex.Policy.Approvals.Traces.{
  Call, issuing, consuming, revoking, purging, store_after, NeverDraws, step, granted, grants,
  step-IsSound,
}

consume_as_uses :
    (handle : Text) (digest : Result Text) (now : Number) (records : Store)
    → approvals_of (consume_as handle digest now records).0
        + uses_left (Map.get handle (consume_as handle digest now records).1)
      ≤ uses_left (Map.get handle records)
unfolding consume_as
consume_as_uses handle (err code) now records = omega arith
consume_as_uses handle (ok incoming) now records =
    consume_found_uses handle incoming (safe_natural now) (Map.get handle records) records refl

consume_as_others :
    (handle j : Text) (digest : Result Text) (now : Number) (records : Store)
    → handle ≢ j
    → Map.get j (consume_as handle digest now records).1 ≡ Map.get j records
unfolding consume_as
consume_as_others handle j (err code) now records other = refl
consume_as_others handle j (ok incoming) now records other =
    consume_found_others handle incoming j (safe_natural now) (Map.get handle records) records other

module _ {Binding : Type 0} (fingerprint : Binding → Result Text) where
  consume_uses :
      (handle : Text) (clock : Number) (binding : Binding) (now : Option Number) (records : Store)
      → approvals_of (consume fingerprint clock handle binding now records).0
          + uses_left (Map.get handle (consume fingerprint clock handle binding now records).1)
        ≤ uses_left (Map.get handle records)
  unfolding consume
  consume_uses handle clock binding now records = elim (Bool-cases (is_handle handle)) [
    | inl good ↦ rw good (consume_as_uses handle (fingerprint binding) _ records)
    | inr bad ↦ rw bad (omega arith)
  ]

  consume_others :
      (handle j : Text) (clock : Number) (binding : Binding) (now : Option Number) (records : Store)
      → handle ≢ j
      → Map.get j (consume fingerprint clock handle binding now records).1 ≡ Map.get j records
  unfolding consume
  consume_others handle j clock binding now records other = elim (Bool-cases (is_handle handle)) [
    | inl good ↦ rw good (consume_as_others handle j (fingerprint binding) _ records other)
    | inr bad ↦ rw bad
  ]

uses_left-unless :
    (test : StoredApproval → Bool) (r : Option StoredApproval)
    → uses_left (unless test r) ≤ uses_left r
uses_left-unless test none = omega arith
uses_left-unless test (some r) = ground arith

purge_at_uses :
    (handle : Text) (now : Option ℕ) (records : Store)
    → IsSound records
    → uses_left (Map.get handle (purge_at now records).1) ≤ uses_left (Map.get handle records)
unfolding purge_at
purge_at_uses handle none records s = omega arith
purge_at_uses handle (some t) records s =
    rw (get-remove_where handle (is_expired t) records s.distinct)
      (uses_left-unless (is_expired t) (Map.get handle records))

-- The loop returns a handle that it has drawn.
fresh_handle-ne :
    (handle drawn : Text) (records : Store) (draws : List Text)
    → All (λ hex. units "apv_" ++ hex ≢ handle) draws
    → fresh_handle records draws ≡ some drawn
    → drawn ≢ handle
unfolding fresh_handle
fresh_handle-ne handle drawn records [] never e = absurd (cc)
fresh_handle-ne handle drawn records (hex ∷ draws) never e =
    elim (Bool-cases (Map.has (units "apv_" ++ hex) records)) [
      | inl taken ↦ fresh_handle-ne handle drawn records draws never.1 (ground arith)
      | inr fresh ↦ let same : units "apv_" ++ hex ≡ drawn = ground arith in λ p. never.0 (same ∙ p)
    ]

store_issued_others :
    (t l u : ℕ) (digest handle j : Text) (records : Store)
    → handle ≢ j
    → Map.get j (store_issued t l u digest handle records).1 ≡ Map.get j records
unfolding store_issued
store_issued_others t l u digest handle j records other =
    ground (arith, get-set handle j (issued_record t l u digest) records, ===_iff handle j)

drawn_others :
    (t l u : ℕ) (digest j : Text) (drawn : Option Text) (records : Store)
    → ((handle : Text) → drawn ≡ some handle → handle ≢ j)
    → Map.get j (
        store_after records (Option.map (λ handle. store_issued t l u digest handle records) drawn))
      ≡ Map.get j records
drawn_others t l u digest j none records other = refl
drawn_others t l u digest j (some handle) records other =
    store_issued_others t l u digest handle j records (other handle refl)

issue_checked_others :
    (digest : Result Text) (draws : List Text) (t l u : Option ℕ) (j : Text) (records : Store)
    → All (λ hex. units "apv_" ++ hex ≢ j) draws
    → Map.get j (store_after records (issue_checked digest draws t l u records)) ≡ Map.get j records
unfolding issue_checked
issue_checked_others (ok digest) draws (some t) (some l) (some u) j records never =
    drawn_others t l u digest j (fresh_handle records draws) records
      (λ handle e. fresh_handle-ne j handle records draws never e)
issue_checked_others (err code) draws (some t) (some l) (some u) j records never = refl
issue_checked_others digest draws t l u j records never = refl

module _ {Binding : Type 0} (fingerprint : Binding → Result Text) where
  granted-le :
      (handle : Text) (call : Call Binding) (records : Store)
      → NeverDraws handle call
      → IsSound records
      → granted fingerprint handle call records
          + uses_left (Map.get handle (step fingerprint call records))
        ≤ uses_left (Map.get handle records)
  unfolding granted step issue purge_expired revoke
  granted-le handle (issuing clock binding options draws) records never s =
      rw
        (issue_checked_others (fingerprint binding) draws
          (safe_natural (Option.get_or options.now clock))
          (bounded_positive Limits.approval_lifetime_ms
            (Option.get_or options.lifetime_ms (nat Limits.approval_lifetime_ms)))
          (bounded_positive Limits.approval_uses (Option.get_or options.max_uses (nat 1))) handle
          records never)
        (omega arith)
  granted-le handle (consuming clock other binding now) records never s =
      elim (Bool-cases (other === handle)) [
        | inl same ↦ rw same (
            subst
              (λ h.
                approvals_of (consume fingerprint clock other binding now records).0
                  + uses_left (Map.get h (consume fingerprint clock other binding now records).1)
                ≤ uses_left (Map.get h records))
              ((===_iff other handle).0 same)
              (consume_uses fingerprint other clock binding now records))
        | inr differs ↦ rw differs (
            rw
              (consume_others fingerprint other handle clock binding now records
                (λ e. ground (arith, ===_iff other handle)))
              (omega arith))
      ]
  granted-le handle (revoking other) records never s = rw get-delete (ground arith)
  granted-le handle (purging clock now) records never s =
      omega (arith, purge_at_uses handle (safe_natural (Option.get_or now clock)) records s)

  -- Over any calls that do not draw the handle anew, it is approved at most as often as the store
  -- has uses left for it.
  pub grants-le :
      (handle : Text) (calls : List (Call Binding)) (records : Store)
      → All (NeverDraws handle) calls
      → IsSound records
      → grants fingerprint handle calls records ≤ uses_left (Map.get handle records)
  unfolding grants
  grants-le handle [] records never s = omega arith
  grants-le handle (call ∷ calls) records never s = omega (
    arith,
    granted-le handle call records never.0 s,
    grants-le handle calls (step fingerprint call records) never.1
        (step-IsSound fingerprint call records s),
  )

store_issued_uses :
    (t l u : ℕ) (digest handle h : Text) (records after : Store)
    → store_issued t l u digest handle records ≡ (ok h, after)
    → uses_left (Map.get h after) ≡ u
unfolding store_issued
store_issued_uses t l u digest handle h records after e =
    ground
      (arith, get-set handle handle (issued_record t l u digest) records, ===_iff handle handle)

drawn_uses :
    (t l u : ℕ) (digest h : Text) (drawn : Option Text) (records after : Store)
    → Option.map (λ handle. store_issued t l u digest handle records) drawn ≡ some (ok h, after)
    → uses_left (Map.get h after) ≡ u
drawn_uses t l u digest h none records after e = absurd (cc)
drawn_uses t l u digest h (some handle) records after e =
    store_issued_uses t l u digest handle h records after (some_injective e)

issue_checked_uses :
    (digest : Result Text) (draws : List Text) (t l u : Option ℕ) (h : Text) (n : ℕ)
    (records after : Store)
    → u ≡ some n
    → issue_checked digest draws t l u records ≡ some (ok h, after)
    → uses_left (Map.get h after) ≡ n
unfolding issue_checked
issue_checked_uses (ok digest) draws (some t) (some l) (some u) h n records after same e =
    drawn_uses t l u digest h (fresh_handle records draws) records after e ∙ some_injective same
issue_checked_uses (err code) draws (some t) (some l) (some u) h n records after same e =
    absurd (cc)
issue_checked_uses digest draws t l u h n records after same e = absurd (cc)

-- A handle that `issue` returns for `n` uses is approved at most `n` times by the calls that
-- follow, whatever they are and in whatever order, as long as none of them draws the same handle.
pub issue_grants :
    {Binding : Type 0} (fingerprint : Binding → Result Text) (clock : Number) (binding : Binding)
    (options : IssueOptions) (draws : List Text) (records after : Store) (handle : Text) (n : ℕ)
    (calls : List (Call Binding))
    → IsSound records
    → bounded_positive Limits.approval_uses (Option.get_or options.max_uses (nat 1)) ≡ some n
    → issue fingerprint clock binding options draws records ≡ some (ok handle, after)
    → All (NeverDraws handle) calls
    → grants fingerprint handle calls after ≤ n
unfolding issue
issue_grants fingerprint clock binding options draws records after handle n calls s uses e never =
    let sound : IsSound after =
      subst (λ r. IsSound (store_after records r)) e
        (unfold step issue in
          step-IsSound fingerprint (issuing clock binding options draws) records s) in
    omega (
      arith,
      grants-le fingerprint handle calls after never sound,
      issue_checked_uses (fingerprint binding) draws _ _ _ handle n records after uses e,
    )
