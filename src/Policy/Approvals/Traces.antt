-- ===== src/Policy/Approvals/Traces.antt =====
-- Sequences of calls on the store of approvals.ts.
use mathlib.Core.Option
use browser_cortex.Common.{
  ℕ, ◌+◌, ◌≤◌, ◌<◌, ◌≡◌, ◌≢◌, refl, inl, inr, Option, none, some, List, [], ◌∷◌, ◌++◌, Text, Number,
  safe_natural, bounded_positive, units, ◌===◌, if◌then◌else◌, All, Bool-cases,
  bounded_positive-eq-some,
}
use browser_cortex.Common.Map
use browser_cortex.Common.Map.{get-set, get-delete}
use browser_cortex.Common.Map.Distinct.{
  Values-delete, Values-remove_where, Distinct-delete, Distinct-remove_where,
}
use browser_cortex.Contracts.Limits
use browser_cortex.Contracts.Errors.{Result, ok, err}
use browser_cortex.Policy.Approvals.{
  Store, IssueOptions, is_expired, is_handle, consume_as, consume, issue, issue_checked,
  store_issued, fresh_handle, purge_expired, purge_at, revoke,
}
use browser_cortex.Policy.Approvals.Bounds.{
  IsValid, IsSound, approvals_of, consume_found-IsSound, store_issued-IsSound,
}

-- A call of one of the methods, with what `Date.now()` and the generator of handles give it.
pub data Call (Binding : Type 0) : Type 0 where
  issuing : Number → Binding → IssueOptions → List Text → Call Binding
  consuming : Number → Text → Binding → Option Number → Call Binding
  revoking : Text → Call Binding
  purging : Number → Option Number → Call Binding

abbrev pub store_after : Store → Option (Result Text × Store) → Store
store_after records none = records
store_after records (some (reply, after)) = after

-- No call issues the handle.
abbrev pub NeverDraws : {Binding : Type 0} → Text → Call Binding → Type 0
NeverDraws handle (issuing clock binding options draws) =
    All (λ hex. units "apv_" ++ hex ≢ handle) draws
NeverDraws handle (consuming clock other binding now) = Unit
NeverDraws handle (revoking other) = Unit
NeverDraws handle (purging clock now) = Unit

consume_as-IsSound :
    (handle : Text) (digest : Result Text) (now : Number) (records : Store)
    → IsSound records
    → IsSound (consume_as handle digest now records).1
unfolding consume_as
consume_as-IsSound handle (err code) now records s = s
consume_as-IsSound handle (ok incoming) now records s =
    consume_found-IsSound handle incoming (safe_natural now) (Map.get handle records) records refl s

module _ {Binding : Type 0} (fingerprint : Binding → Result Text) where
  unfoldable pub step : Call Binding → Store → Store
  step (issuing clock binding options draws) records =
      store_after records (issue fingerprint clock binding options draws records)
  step (consuming clock handle binding now) records =
      (consume fingerprint clock handle binding now records).1
  step (revoking handle) records = (revoke handle records).1
  step (purging clock now) records = (purge_expired clock now records).1

  -- 1 if the call approves this handle, else 0.
  unfoldable pub granted : Text → Call Binding → Store → ℕ
  granted handle (consuming clock other binding now) records =
      if other === handle
      then approvals_of (consume fingerprint clock other binding now records).0
      else 0
  granted handle (issuing clock binding options draws) records = 0
  granted handle (revoking other) records = 0
  granted handle (purging clock now) records = 0

  unfoldable pub grants : Text → List (Call Binding) → Store → ℕ
  grants handle [] records = 0
  grants handle (call ∷ calls) records =
      granted handle call records + grants handle calls (step call records)

  pub run : List (Call Binding) → Store → Store
  run [] records = records
  run (call ∷ calls) records = run calls (step call records)

module _ {Binding : Type 0} (fingerprint : Binding → Result Text) where
  consume-IsSound :
      (handle : Text) (clock : Number) (binding : Binding) (now : Option Number) (records : Store)
      → IsSound records
      → IsSound (consume fingerprint clock handle binding now records).1
  unfolding consume
  consume-IsSound handle clock binding now records s = elim (Bool-cases (is_handle handle)) [
    | inl good ↦ rw good (consume_as-IsSound handle (fingerprint binding) _ records s)
    | inr bad ↦ rw bad s
  ]

-- A number that passes the check is positive and within the limit.
abbrev Within : Option ℕ → ℕ → Type 0
Within none limit = Unit
Within (some n) limit = (0 < n) × (n ≤ limit)

Within-of_eq :
    (limit : ℕ) (v : Number) (n : Option ℕ) → bounded_positive limit v ≡ n → Within n limit
Within-of_eq limit v none e = tt
Within-of_eq limit v (some n) e =
    let (same, positive, bounded, safe) = bounded_positive-eq-some limit v n e in
    (positive, bounded)

handle-IsSound :
    (t l u : ℕ) (digest : Text) (drawn : Option Text) (records : Store)
    → Within (some l) Limits.approval_lifetime_ms
    → Within (some u) Limits.approval_uses
    → IsSound records
    → IsSound (
        store_after records (Option.map (λ handle. store_issued t l u digest handle records) drawn))
handle-IsSound t l u digest none records p q s = s
handle-IsSound t l u digest (some handle) records p q s =
    store_issued-IsSound t l u digest handle records p.0 p.1 q.0 q.1 s

issue_checked-IsSound :
    (digest : Result Text) (draws : List Text) (t l u : Option ℕ) (records : Store)
    → Within l Limits.approval_lifetime_ms
    → Within u Limits.approval_uses
    → IsSound records
    → IsSound (store_after records (issue_checked digest draws t l u records))
unfolding issue_checked
issue_checked-IsSound (ok digest) draws (some t) (some l) (some u) records p q s =
    handle-IsSound t l u digest (fresh_handle records draws) records p q s
issue_checked-IsSound (err code) draws (some t) (some l) (some u) records p q s = s
issue_checked-IsSound digest draws t l u records p q s = s

purge_at-IsSound :
    (now : Option ℕ) (records : Store) → IsSound records → IsSound (purge_at now records).1
unfolding purge_at
purge_at-IsSound none records s = s
purge_at-IsSound (some t) records s = record {
  valid = Values-remove_where IsValid (is_expired t) records s.valid;
  distinct = Distinct-remove_where (is_expired t) records s.distinct;
}

module _ {Binding : Type 0} (fingerprint : Binding → Result Text) where
  -- Every call keeps the store sound.
  pub step-IsSound :
      (call : Call Binding) (records : Store)
      → IsSound records
      → IsSound (step fingerprint call records)
  unfolding step issue purge_expired revoke
  step-IsSound (issuing clock binding options draws) records s =
      issue_checked-IsSound (fingerprint binding) draws
        (safe_natural (Option.get_or options.now clock)) _ _ records
        (Within-of_eq Limits.approval_lifetime_ms _ _ refl)
        (Within-of_eq Limits.approval_uses _ _ refl) s
  step-IsSound (consuming clock handle binding now) records s =
      consume-IsSound fingerprint handle clock binding now records s
  step-IsSound (revoking handle) records s = record {
    valid = Values-delete IsValid handle records s.valid;
    distinct = Distinct-delete handle records s.distinct;
  }
  step-IsSound (purging clock now) records s =
      purge_at-IsSound (safe_natural (Option.get_or now clock)) records s

  run_from-IsSound :
      (calls : List (Call Binding)) (records : Store)
      → IsSound records
      → IsSound (run fingerprint calls records)
  unfolding run
  run_from-IsSound [] records s = s
  run_from-IsSound (call ∷ calls) records s =
      run_from-IsSound calls (step fingerprint call records) (step-IsSound call records s)

  -- From the empty store, every sequence of calls keeps the store sound: keys are distinct, and each
  -- record has a use left, at most 32 uses, and a life of at most five minutes that ends at a safe
  -- integer.
  pub run-IsSound : (calls : List (Call Binding)) → IsSound (run fingerprint calls [])
  run-IsSound calls = run_from-IsSound calls [] (record { valid = tt; distinct = tt })
