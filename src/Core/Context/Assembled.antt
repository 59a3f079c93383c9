-- ===== src/Core/Context/Assembled.antt =====
-- What `assembleTaskContext` (context.ts) guarantees of the context that it returns.
use browser_cortex.Common.{
  ℕ, ◌+◌, ◌≤◌, ◌≡◌, refl, sym, ap, ◌∙◌, subst, true, false, not, ◌&&◌, Option, none, some, List, [],
  ◌∷◌, Text, length, arith, All,
}
use browser_cortex.Contracts.Limits
use browser_cortex.Contracts.Errors.{ok, bind-eq-ok}
use browser_cortex.Core.Router.{TaskRequest, parse_task_request}
use browser_cortex.Core.Context.{
  Label, Sensitivity, Segment, SegmentInput, TaskContext, AssembleInput, parse_segment,
  has_segment_shape, parse_segments, is_foreign, is_untrusted_label, is_trusted_label, total_limit,
  check_segments, parse_context, assemble_task_context, create_context_segment,
}

-- The segment follows the schema, comes from no source outside of the allowed ones, and claims no
-- trust for what is not trusted.
pub record IsAdmitted (allowed : List Text) (s : Segment) : Type 0 where
  pub version : s.schema_version ≡ 1
  pub shape : has_segment_shape s ≡ true
  pub scoped : is_foreign allowed s.label s.source ≡ false
  pub modest : (is_untrusted_label s.label && s.trusted_instructions) ≡ false

abbrev pub characters : List Segment → ℕ
characters [] = 0
characters (s ∷ segments) = length s.content + characters segments

parse_segment-eq-ok :
    (s parsed : Segment)
    → parse_segment s ≡ ok parsed
    → (parsed ≡ s) × (s.schema_version ≡ 1) × (has_segment_shape s ≡ true)
unfolding parse_segment
parse_segment-eq-ok s parsed h = ground arith

parse_segments-cons :
    (s : Segment) (segments parsed : List Segment)
    → parse_segments (s ∷ segments) ≡ ok parsed
    → (first : Segment) × (rest : List Segment) × (parse_segment s ≡ ok first)
      × (parse_segments segments ≡ ok rest)
      × (parsed ≡ first ∷ rest)
unfolding parse_segments
parse_segments-cons s segments parsed h = ground arith

parse_segments-eq-ok :
    (segments parsed : List Segment)
    → parse_segments segments ≡ ok parsed
    → (parsed ≡ segments)
      × All (λ (s : Segment). (s.schema_version ≡ 1) × (has_segment_shape s ≡ true)) segments
unfolding parse_segments
parse_segments-eq-ok [] parsed h = (ground arith, tt)
parse_segments-eq-ok (s ∷ segments) parsed h =
    let (first, rest, one, others, e) = parse_segments-cons s segments parsed h in
    let (same, version, shape) = parse_segment-eq-ok s first one in
    let (kept, shaped) = parse_segments-eq-ok segments rest others in
    (e ∙ ap (λ x. x ∷ rest) same ∙ ap (λ xs. s ∷ xs) kept, ((version, shape), shaped))

check_segments-cons :
    (allowed : List Text) (total : ℕ) (s : Segment) (segments : List Segment)
    → check_segments allowed total (s ∷ segments) ≡ ok tt
    → (total + length s.content ≤ total_limit)
      × (is_foreign allowed s.label s.source ≡ false)
      × ((is_untrusted_label s.label && s.trusted_instructions) ≡ false)
      × (check_segments allowed (total + length s.content) segments ≡ ok tt)
unfolding check_segments
check_segments-cons allowed total s segments h = ground arith

check_segments-eq-ok :
    (allowed : List Text) (total : ℕ) (segments : List Segment)
    → total ≤ total_limit
    → All (λ (s : Segment). (s.schema_version ≡ 1) × (has_segment_shape s ≡ true)) segments
    → check_segments allowed total segments ≡ ok tt
    → (total + characters segments ≤ total_limit) × All (IsAdmitted allowed) segments
unfolding check_segments
check_segments-eq-ok allowed total [] small shaped h = (omega arith, tt)
check_segments-eq-ok allowed total (s ∷ segments) small shaped h =
    let (fits, scoped, modest, others) = check_segments-cons allowed total s segments h in
    let (short, admitted) =
      check_segments-eq-ok allowed (total + length s.content) segments fits shaped.1 others in
    (
      omega (arith, short),
      (
        record { version = shaped.0.0; shape = shaped.0.1; scoped = scoped; modest = modest },
        admitted,
      ),
    )

-- What a context keeps of the request and the segments that it was assembled from.
pub record IsAssembled (input : AssembleInput) (c : TaskContext) : Type 0 where
  pub request : c.request_id ≡ input.request.request_id
  pub goal : c.goal ≡ input.request.input
  pub policy : c.online_policy ≡ input.request.online_policy
  pub segments : c.segments ≡ input.segments
  pub few : length c.segments ≤ Limits.context_segments
  pub short : characters c.segments ≤ total_limit
  pub admitted : All (IsAdmitted input.request.source_ids) c.segments

parse_task_request-eq-ok : (r parsed : TaskRequest) → parse_task_request r ≡ ok parsed → parsed ≡ r
unfolding parse_task_request
parse_task_request-eq-ok r parsed h = ground arith

-- What `parse_context` returns.
parse_context-eq-ok :
    (r : TaskRequest) (segments : List Segment) (names : List Text) (sensitivity : Sensitivity)
    (time : Option ℕ) (c : TaskContext)
    → parse_context r segments names sensitivity time ≡ ok c
    → (c.request_id ≡ r.request_id)
      × (c.goal ≡ r.input)
      × (c.online_policy ≡ r.online_policy)
      × (c.segments ≡ segments)
      × (length segments ≤ Limits.context_segments)
unfolding parse_context
parse_context-eq-ok r segments names sensitivity none c h = absurd (cc)
parse_context-eq-ok r segments names sensitivity (some t) c h = ground arith

assemble_steps :
    (input : AssembleInput) (c : TaskContext)
    → assemble_task_context input ≡ ok c
    → (r : TaskRequest) × (segments : List Segment) × (names : List Text) × (time : Option ℕ)
      × (parse_task_request input.request ≡ ok r)
      × (parse_segments input.segments ≡ ok segments)
      × (check_segments r.source_ids 0 segments ≡ ok tt)
      × (parse_context r segments names input.sensitivity time ≡ ok c)
unfolding assemble_task_context
assemble_steps input c h =
    let (r, requested, h₁) = bind-eq-ok (parse_task_request input.request) _ c h in
    let (segments, parsed, h₂) = bind-eq-ok (parse_segments input.segments) _ c h₁ in
    let (done, checked, h₃) = bind-eq-ok (check_segments r.source_ids 0 segments) _ c h₂ in
    (r, segments, _, _, requested, parsed, checked, h₃)

-- When `assembleTaskContext` returns, the context has the request's identifier, goal and online
-- policy and the given segments in their order, at most 128 segments with at most 128 times 24000
-- characters together, and every segment is admitted: it follows the schema, a retrieved source is
-- one that the request names, and content of a page, a retrieved source or a tool claims no trust.
pub assemble_task_context-IsAssembled :
    (input : AssembleInput) (c : TaskContext)
    → assemble_task_context input ≡ ok c
    → IsAssembled input c
assemble_task_context-IsAssembled input c h =
    let (r, segments, names, time, requested, parsed, checked, e) = assemble_steps input c h in
    let same = parse_task_request-eq-ok input.request r requested in
    let (kept, shaped) = parse_segments-eq-ok input.segments segments parsed in
    let (id, goal, policy, held, few) =
      parse_context-eq-ok r segments names input.sensitivity time c e in
    let (short, admitted) =
      check_segments-eq-ok r.source_ids 0 segments (omega arith)
        (subst (All (λ (s : Segment). (s.schema_version ≡ 1) × (has_segment_shape s ≡ true)))
          (sym kept) shaped)
        checked in
    record {
      request = id ∙ ap (λ (x : TaskRequest). x.request_id) same;
      goal = goal ∙ ap (λ (x : TaskRequest). x.input) same;
      policy = policy ∙ ap (λ (x : TaskRequest). x.online_policy) same;
      segments = held ∙ kept;
      few = rw held few;
      short = rw held (omega (arith, short));
      admitted =
          subst (λ allowed. All (IsAdmitted allowed) c.segments)
            (ap (λ (x : TaskRequest). x.source_ids) same)
            (subst (All (IsAdmitted r.source_ids)) (sym held) admitted);
    }

trusted_or_untrusted : (label : Label) → is_untrusted_label label ≡ not (is_trusted_label label)
unfolding is_untrusted_label is_trusted_label
trusted_or_untrusted Label.user_input = refl
trusted_or_untrusted Label.trusted_application_state = refl
trusted_or_untrusted Label.selected_page_content = refl
trusted_or_untrusted Label.retrieved_source = refl
trusted_or_untrusted Label.tool_output = refl

created_trust :
    (input : SegmentInput) (s : Segment)
    → create_context_segment input ≡ ok s
    → (s.label ≡ input.label)
      × (s.content ≡ input.content)
      × (s.trusted_instructions ≡ is_trusted_label input.label)
unfolding create_context_segment parse_segment
created_trust input s h = ground arith

-- A segment that `createContextSegment` returns has the given label and content, and carries
-- trusted instructions exactly when its label is not one of the untrusted ones that
-- `assembleTaskContext` refuses trust for.
pub create_context_segment-trusted :
    (input : SegmentInput) (s : Segment)
    → create_context_segment input ≡ ok s
    → (s.label ≡ input.label)
      × (s.content ≡ input.content)
      × (s.trusted_instructions ≡ not (is_untrusted_label s.label))
create_context_segment-trusted input s h =
    let (label, content, trust) = created_trust input s h in
    (
      label,
      content,
      ground (arith, label, trust, trusted_or_untrusted input.label, ap is_untrusted_label label),
    )
