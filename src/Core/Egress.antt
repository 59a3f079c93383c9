-- ===== src/Core/Egress.antt =====
-- packages/core/src/egress.ts: what `sendApproved` checks before the transport is called, with
-- `approvalBindingForDisclosure` of packages/privacy/src/disclosure.ts and the schemas of a
-- disclosure and of an approval's binding from packages/contracts/src/schemas.ts.
pub mod Response
pub mod Released
mod Tests
use browser_cortex.Common.{
  ℕ, ◌≡◌, Bool, true, false, not, ◌&&◌, Option, none, some, List, [], ◌∷◌, Text, Number, nat, ◌===◌,
  length, every, if◌then◌else◌, leb, ltb, ◌==◌, max_safe_integer,
}
use browser_cortex.Contracts.Limits
use browser_cortex.Contracts.Errors.{
  Result, ok, err, ◌>>=◌, invalid_input, invalid_schema_version, online_disabled, cancelled,
  approval_expired, approval_invalid,
}
use browser_cortex.Contracts.Schemas.{is_identifier, is_bounded_text, is_fingerprint}
use browser_cortex.Policy.Approvals.{Store, Decision, approved, refused, expired, consume}

-- SourceRevision
pub record SourceRevision : Type 0 where
  pub source_id : Text
  pub revision : Text

-- Disclosure; its method is always 'POST'.
pub record Disclosure : Type 0 where
  pub schema_version : ℕ
  pub disclosure_id : Text
  pub endpoint : Text
  pub endpoint_origin : Text
  pub model_label : Text
  pub serialized_payload : Text
  pub payload_byte_length : ℕ
  pub payload_fingerprint : Text
  pub source_revisions : List SourceRevision
  pub detected_categories : List Text
  pub limitations : List Text
  pub policy_version : Text
  pub expires_at : ℕ

-- ApprovalBinding of an online disclosure.
pub record Binding : Type 0 where
  pub payload_fingerprint : Text
  pub endpoint : Text
  pub model : Text
  pub source_revisions : List SourceRevision
  pub policy_version : Text

-- The argument of `validateApprovalContext`.
pub record Context : Type 0 where
  pub source_revisions : List SourceRevision
  pub policy_version : Text
  pub endpoint : Text
  pub model_label : Text

-- What the clock and the caller's signal give to one call: the time at the first check, at `consume`
-- and at the last check, and whether the signal is aborted at the start and at the end.
pub record Moment : Type 0 where
  pub first : ℕ
  pub consumed_at : ℕ
  pub last : ℕ
  pub aborted_before : Bool
  pub aborted_after : Bool

-- SourceRevisionSchema
pub is_source_revision : SourceRevision → Bool
is_source_revision r = is_identifier r.source_id && is_bounded_text 256 r.revision

-- The end of `sendApproved` before the transport; `none` is a validation that throws.
pub check_context : Disclosure → Moment → Option Bool → Result Disclosure
check_context d m none = err approval_invalid
check_context d m (some false) = err approval_invalid
check_context d m (some true) =
    if leb d.expires_at m.last
    then err approval_expired
    else if m.aborted_after
    then err cancelled
    else ok d

abbrev pub context_of : Disclosure → Context
context_of d = record {
  source_revisions = d.source_revisions;
  policy_version = d.policy_version;
  endpoint = d.endpoint;
  model_label = d.model_label;
}

-- `validate` is `validateApprovalContext`.
pub after_consume :
    (Context → Option Bool)
    → Disclosure
    → Moment
    → Result Decision × Store
    → Result Disclosure × Store
unfolding check_context
after_consume validate d m (err code, records) = (err code, records)
after_consume validate d m (ok (refused expired), records) = (err approval_expired, records)
after_consume validate d m (ok (refused reason), records) = (err approval_invalid, records)
after_consume validate d m (ok (approved left), records) =
    (check_context d m (validate (context_of d)), records)

-- `is_url` is the schema's `url()`, `digest` is `sha256Text`, `fingerprint` is
-- `fingerprintApprovalBinding`.
module _ (is_url : Text → Bool) (digest : Text → Text) (fingerprint : Binding → Result Text)
    (validate : Context → Option Bool) where
  -- DisclosureSchema, but for the literal of `schemaVersion`.
  pub has_disclosure_shape : Disclosure → Bool
  unfolding is_source_revision
  has_disclosure_shape d =
      is_identifier d.disclosure_id
      && is_url d.endpoint
      && leb (length d.endpoint) Limits.endpoint_characters
      && is_url d.endpoint_origin
      && leb (length d.endpoint_origin) Limits.endpoint_characters
      && is_bounded_text Limits.model_label_characters d.model_label
      && leb (length d.serialized_payload) Limits.canonical_bytes
      && leb d.payload_byte_length Limits.canonical_bytes
      && is_fingerprint d.payload_fingerprint
      && leb (length d.source_revisions) Limits.source_references
      && every is_source_revision d.source_revisions
      && leb (length d.detected_categories) 64
      && every is_identifier d.detected_categories
      && leb (length d.limitations) 32
      && every (is_bounded_text 512) d.limitations
      && is_bounded_text Limits.policy_version_characters d.policy_version
      && leb d.expires_at max_safe_integer

  -- `parseVersioned(DisclosureSchema, disclosure)`
  pub parse_disclosure : Disclosure → Result Disclosure
  unfolding has_disclosure_shape
  parse_disclosure d =
      if d.schema_version == 1
      then (if has_disclosure_shape d then ok d else err invalid_input)
      else err invalid_schema_version

  -- ApprovalBindingSchema
  pub has_binding_shape : Binding → Bool
  unfolding is_source_revision
  has_binding_shape b =
      is_fingerprint b.payload_fingerprint
      && is_url b.endpoint
      && leb (length b.endpoint) Limits.endpoint_characters
      && is_bounded_text Limits.model_label_characters b.model
      && leb (length b.source_revisions) Limits.source_references
      && every is_source_revision b.source_revisions
      && is_bounded_text Limits.policy_version_characters b.policy_version

  abbrev pub binding_of : Disclosure → Binding
  binding_of d = record {
    payload_fingerprint = d.payload_fingerprint;
    endpoint = d.endpoint;
    model = d.model_label;
    source_revisions = d.source_revisions;
    policy_version = d.policy_version;
  }

  pub approval_binding_for_disclosure : Disclosure → Result Binding
  unfolding parse_disclosure has_binding_shape
  approval_binding_for_disclosure input = do
    d ← parse_disclosure input
    if has_binding_shape (binding_of d) then ok (binding_of d) else err invalid_input

  pub consume_bound : Text → Moment → Result Binding → Store → Result Decision × Store
  consume_bound handle m (err code) records = (err code, records)
  consume_bound handle m (ok binding) records =
      consume fingerprint (nat m.consumed_at) handle binding none records

  pub send_parsed : Text → Moment → Result Disclosure → Store → Result Disclosure × Store
  unfolding approval_binding_for_disclosure consume_bound after_consume
  send_parsed handle m (err code) records = (err code, records)
  send_parsed handle m (ok d) records =
      if leb d.expires_at m.first
      then (err approval_expired, records)
      else if not (digest d.serialized_payload === d.payload_fingerprint)
      then (err approval_invalid, records)
      else after_consume validate d m
          (consume_bound handle m (approval_binding_for_disclosure d) records)

  -- `sendApproved` up to the transport: the disclosure whose payload is sent to its endpoint.
  pub send_approved : Bool → Disclosure → Text → Moment → Store → Result Disclosure × Store
  unfolding send_parsed
  send_approved online_enabled input handle m records =
      if not online_enabled
      then (err online_disabled, records)
      else if m.aborted_before
      then (err cancelled, records)
      else send_parsed handle m (parse_disclosure input) records
