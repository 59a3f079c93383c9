-- ===== src/Core/Egress/Released.antt =====
-- When `sendApproved` (egress.ts) calls the transport.
use browser_cortex.Common.{
  ℕ, ◌<◌, ◌≡◌, refl, sym, subst, ap, ◌∙◌, Bool, true, false, Option, none, some, Text, nat, ===_iff,
  arith,
}
use browser_cortex.Contracts.Errors.{Result, ok, err, bind-eq-ok}
use browser_cortex.Policy.Approvals.{
  Store, Decision, approved, refused, expired, unknown_handle, binding_mismatch, exhausted, consume,
}
use browser_cortex.Policy.Approvals.Consume.{Grants, consume-approved_iff}
use browser_cortex.Core.Egress.{
  Disclosure, Binding, Context, Moment, check_context, context_of, after_consume, parse_disclosure,
  has_disclosure_shape, binding_of, approval_binding_for_disclosure, consume_bound, send_parsed,
  send_approved,
}

check_context-eq-ok :
    (d released : Disclosure) (m : Moment) (valid : Option Bool)
    → check_context d m valid ≡ ok released
    → (released ≡ d) × (valid ≡ some true) × (m.last < d.expires_at) × (m.aborted_after ≡ false)
unfolding check_context
check_context-eq-ok d released m none h = absurd (cc)
check_context-eq-ok d released m (some false) h = absurd (cc)
check_context-eq-ok d released m (some true) h = ground arith

after_consume-eq-ok :
    (validate : Context → Option Bool) (d released : Disclosure) (m : Moment)
    (answer : Result Decision × Store) (after : Store)
    → after_consume validate d m answer ≡ (ok released, after)
    → (left : ℕ) × (answer ≡ (ok (approved left), after))
      × (check_context d m (validate (context_of d)) ≡ ok released)
unfolding after_consume
after_consume-eq-ok validate d released m (err code, records) after h = absurd (cc)
after_consume-eq-ok validate d released m (ok (refused expired), records) after h = absurd (cc)
after_consume-eq-ok validate d released m (ok (refused unknown_handle), records) after h =
    absurd (cc)
after_consume-eq-ok validate d released m (ok (refused binding_mismatch), records) after h =
    absurd (cc)
after_consume-eq-ok validate d released m (ok (refused exhausted), records) after h = absurd (cc)
after_consume-eq-ok validate d released m (ok (approved left), records) after h = (left, cc, cc)

module _ (is_url : Text → Bool) (digest : Text → Text) (fingerprint : Binding → Result Text)
    (validate : Context → Option Bool) where
  -- All that holds when the payload of a disclosure is released to the transport.
  pub record IsReleased (enabled : Bool) (d : Disclosure) (handle : Text) (m : Moment)
      (records after : Store) : Type 0 where
    pub online : enabled ≡ true
    pub wanted : m.aborted_before ≡ false
    pub still_wanted : m.aborted_after ≡ false
    pub version : d.schema_version ≡ 1
    pub shape : has_disclosure_shape is_url digest fingerprint validate d ≡ true
    pub current : m.first < d.expires_at
    pub still_current : m.last < d.expires_at
    pub intact : digest d.serialized_payload ≡ d.payload_fingerprint
    pub left : ℕ
    pub approval :
        Grants fingerprint handle
          (binding_of is_url digest fingerprint validate d)
          (nat m.consumed_at)
          records
          left
    pub kept :
        after
        ≡ (consume fingerprint
            (nat m.consumed_at)
            handle
            (binding_of is_url digest fingerprint validate d)
            none
            records).1
    pub valid : validate (context_of d) ≡ some true

  parse_disclosure-eq-ok :
      (input d : Disclosure)
      → parse_disclosure is_url digest fingerprint validate input ≡ ok d
      → (d ≡ input)
        × (input.schema_version ≡ 1)
        × (has_disclosure_shape is_url digest fingerprint validate input ≡ true)
  unfolding parse_disclosure
  parse_disclosure-eq-ok input d h = ground arith

  approval_binding-eq-ok :
      (input : Disclosure) (b : Binding)
      → approval_binding_for_disclosure is_url digest fingerprint validate input ≡ ok b
      → b ≡ binding_of is_url digest fingerprint validate input
  unfolding approval_binding_for_disclosure
  approval_binding-eq-ok input b h =
      let (d, parsed, e) =
        bind-eq-ok (parse_disclosure is_url digest fingerprint validate input) _ b h in
      let (same, _, _) = parse_disclosure-eq-ok input d parsed in
      let here : b ≡ binding_of is_url digest fingerprint validate d = ground arith in
      here ∙ ap (binding_of is_url digest fingerprint validate) same

  consume_bound-approved :
      (handle : Text) (m : Moment) (binding : Result Binding) (records after : Store) (left : ℕ)
      → consume_bound is_url digest fingerprint validate handle m binding records
        ≡ (ok (approved left), after)
      → (b : Binding) × (binding ≡ ok b)
        × (consume fingerprint (nat m.consumed_at) handle b none records
            ≡ (ok (approved left), after))
  unfolding consume_bound
  consume_bound-approved handle m (err code) records after left h = absurd (cc)
  consume_bound-approved handle m (ok b) records after left h = (b, refl, h)

  send_parsed-eq-ok :
      (handle : Text) (m : Moment) (d released : Disclosure) (records after : Store)
      → send_parsed is_url digest fingerprint validate handle m (ok d) records
        ≡ (ok released, after)
      → (m.first < d.expires_at)
        × (digest d.serialized_payload ≡ d.payload_fingerprint)
        × (after_consume validate d m (
              consume_bound is_url digest fingerprint validate handle m
                (approval_binding_for_disclosure is_url digest fingerprint validate d)
                records)
            ≡ (ok released, after))
  unfolding send_parsed
  send_parsed-eq-ok handle m d released records after h =
      ground (arith, ===_iff (digest d.serialized_payload) d.payload_fingerprint)

  send_parsed-err :
      (handle : Text) (m : Moment) (parsed : Result Disclosure) (released : Disclosure)
      (records after : Store)
      → send_parsed is_url digest fingerprint validate handle m parsed records
        ≡ (ok released, after)
      → (d : Disclosure) × (parsed ≡ ok d)
  unfolding send_parsed
  send_parsed-err handle m (ok d) released records after h = (d, refl)
  send_parsed-err handle m (err code) released records after h = absurd (cc)

  send_approved-eq-ok :
      (enabled : Bool) (input released : Disclosure) (handle : Text) (m : Moment)
      (records after : Store)
      → send_approved is_url digest fingerprint validate enabled input handle m records
        ≡ (ok released, after)
      → (enabled ≡ true)
        × (m.aborted_before ≡ false)
        × (send_parsed is_url digest fingerprint validate handle m
              (parse_disclosure is_url digest fingerprint validate input)
              records
            ≡ (ok released, after))
  unfolding send_approved
  send_approved-eq-ok enabled input released handle m records after h = ground arith

  -- When `sendApproved` reaches the transport, it sends the given disclosure, which follows its
  -- schema; going online is enabled; the caller has not aborted; the disclosure is unexpired at the
  -- first check and at the last; the digest of the payload is the stated fingerprint; the store of
  -- approvals approves the handle for this disclosure's binding at that time, and is left as that
  -- use leaves it; and the context is validated.
  pub send_approved-IsReleased :
      (enabled : Bool) (input released : Disclosure) (handle : Text) (m : Moment)
      (records after : Store)
      → send_approved is_url digest fingerprint validate enabled input handle m records
        ≡ (ok released, after)
      → (released ≡ input) × IsReleased enabled input handle m records after
  send_approved-IsReleased enabled input released handle m records after h =
      let (online, wanted, e) =
        send_approved-eq-ok enabled input released handle m records after h in
      let (d, parsed) =
        send_parsed-err handle m (parse_disclosure is_url digest fingerprint validate input)
          released records after e in
      let (same, version, shape) = parse_disclosure-eq-ok input d parsed in
      let parsed' : parse_disclosure is_url digest fingerprint validate input ≡ ok input =
        parsed ∙ ap ok same in
      let (current, intact, consumed) =
        send_parsed-eq-ok handle m input released records after (rw parsed' at e) in
      let (left, answer, checked) =
        after_consume-eq-ok validate input released m _ after consumed in
      let (b, bound, granted) =
        consume_bound-approved handle m
          (approval_binding_for_disclosure is_url digest fingerprint validate input) records after
          left answer in
      let same_binding = approval_binding-eq-ok input b bound in
      let granted' : consume fingerprint (nat m.consumed_at) handle
            (binding_of is_url digest fingerprint validate input) none records
          ≡ (ok (approved left), after) =
        subst
          (λ x.
            consume fingerprint (nat m.consumed_at) handle x none records
            ≡ (ok (approved left), after))
          same_binding granted in
      let (same_released, valid, still_current, still_wanted) =
        check_context-eq-ok input released m (validate (context_of input)) checked in
      (
        same_released,
        record {
          online = online;
          wanted = wanted;
          still_wanted = still_wanted;
          version = version;
          shape = shape;
          current = current;
          still_current = still_current;
          intact = intact;
          left = left;
          approval =
              (consume-approved_iff fingerprint (nat m.consumed_at) handle
                  (binding_of is_url digest fingerprint validate input) none records left).0
                (ap (λ x. x.0) granted');
          kept = sym (ap (λ x. x.1) granted');
          valid = valid;
        },
      )
