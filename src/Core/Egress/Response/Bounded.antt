-- ===== src/Core/Egress/Response/Bounded.antt =====
-- What `sendApproved` (egress.ts) accepts of the transport's answer.
use browser_cortex.Common.{
  ℕ, ◌+◌, ◌≤◌, ◌<◌, ◌≡◌, refl, Bool, true, false, not, ◌&&◌, Option, none, some, List, [], ◌∷◌,
  Text, units, ◌===◌, ===_iff, same_option, same_option_iff, length, length-append, ap, leb, ltb,
  arith,
}
use browser_cortex.Contracts.Errors.{
  ErrorCode, response_rejected, transport_failed, cancelled, Result, ok, guard, bind-eq-ok,
}
use browser_cortex.Contracts.Schemas.{utf8_byte_length}
use browser_cortex.Core.Egress.Response.{
  Chunk, Body, plain, whole, streamed, Response, Ending, answered, threw, timed_out, aborted,
  collect_chunk, collect_chunks, read_bounded_body, content_type, receive, conclude,
}

-- The bytes that the transport gives.
abbrev bytes_of : Option (List ℕ) → ℕ
bytes_of none = 0
bytes_of (some bytes) = length bytes

abbrev chunk_bytes : List Chunk → ℕ
chunk_bytes [] = 0
chunk_bytes (c ∷ chunks) = bytes_of c.bytes + chunk_bytes chunks

abbrev pub body_bytes : Body → ℕ
body_bytes (plain text) = utf8_byte_length text
body_bytes (whole bytes) = length bytes
body_bytes (streamed chunks) = chunk_bytes chunks

collect_chunk-eq-ok :
    (maximum : ℕ) (so_far after : List ℕ) (bytes : Option (List ℕ))
    → collect_chunk maximum so_far bytes ≡ ok after
    → (length after ≡ length so_far + bytes_of bytes) × (length after ≤ maximum)
unfolding collect_chunk
collect_chunk-eq-ok maximum so_far after none h = absurd (cc)
collect_chunk-eq-ok maximum so_far after (some bytes) h =
    ground (arith, length-append so_far bytes, ap (length {A = ℕ}))

collect_chunks-le :
    (maximum : ℕ) (so_far after : List ℕ) (chunks : List Chunk)
    → length so_far ≤ maximum
    → collect_chunks maximum so_far chunks ≡ ok after
    → length so_far + chunk_bytes chunks ≤ maximum
unfolding collect_chunks
collect_chunks-le maximum so_far after [] small h = omega (arith, small)
collect_chunks-le maximum so_far after (c ∷ chunks) small h =
    let (_, going, rest) = bind-eq-ok (guard (not c.aborted) cancelled) _ after h in
    let (bytes, one, others) = bind-eq-ok (collect_chunk maximum so_far c.bytes) _ after rest in
    let (grown, fits) = collect_chunk-eq-ok maximum so_far bytes c.bytes one in
    omega (arith, grown, collect_chunks-le maximum bytes after chunks fits others)

read_bounded_body-le :
    (decode : List ℕ → Option Text) (maximum : ℕ) (body : Body) (text : Text)
    → read_bounded_body decode maximum body ≡ ok text
    → body_bytes body ≤ maximum
unfolding read_bounded_body
read_bounded_body-le decode maximum (plain t) text h = ground arith
read_bounded_body-le decode maximum (whole bytes) text h = ground arith
read_bounded_body-le decode maximum (streamed chunks) text h =
    let (bytes, collected, _) = bind-eq-ok (collect_chunks maximum [] chunks) _ text h in
    omega (arith, collect_chunks-le maximum [] bytes chunks (omega arith) collected)

guard-eq-ok : (b : Bool) (code : ErrorCode) → guard b code ≡ ok tt → b ≡ true
guard-eq-ok true code h = refl
guard-eq-ok false code h = absurd (cc)

module _ {Reply : Type 0} (lower trim : Text → Text) (decode : List ℕ → Option Text)
    (parse : Text → Result Reply) where
  -- An answer that is taken.
  pub record IsTaken (endpoint : Text) (maximum : ℕ) (r : Response) (reply : Reply) : Type 0 where
    pub same_url : r.final_url ≡ endpoint
    pub succeeded : 200 ≤ r.status
    pub not_redirected : r.status < 300
    pub json : content_type lower trim decode parse r ≡ some (units "application/json")
    pub text : Text
    pub read : read_bounded_body decode maximum r.body ≡ ok text
    pub bounded : body_bytes r.body ≤ maximum
    pub parsed : parse text ≡ ok reply

  receive-IsTaken :
      (endpoint : Text) (maximum : ℕ) (r : Response) (reply : Reply)
      → receive lower trim decode parse endpoint maximum r ≡ ok reply
      → IsTaken endpoint maximum r reply
  unfolding receive
  receive-IsTaken endpoint maximum r reply h =
      let (_, g₁, h₁) = bind-eq-ok (guard (r.final_url === endpoint) response_rejected) _ reply h in
      let (_, g₂, h₂) =
        bind-eq-ok (guard (leb 200 r.status && ltb r.status 300) transport_failed) _ reply h₁ in
      let (_, g₃, h₃) =
        bind-eq-ok
          (guard
            (same_option (content_type lower trim decode parse r) (some (units "application/json")))
            response_rejected)
          _ reply h₂ in
      let (text, read, parsed) = bind-eq-ok (read_bounded_body decode maximum r.body) _ reply h₃ in
      let in_range = guard-eq-ok (leb 200 r.status && ltb r.status 300) transport_failed g₂ in
      record {
        same_url = (===_iff r.final_url endpoint).0 (guard-eq-ok _ response_rejected g₁);
        succeeded = ground (arith, in_range);
        not_redirected = ground (arith, in_range);
        json =
            (same_option_iff (content_type lower trim decode parse r)
                (some (units "application/json"))).0
              (guard-eq-ok _ response_rejected g₃);
        text = text;
        read = read;
        bounded = read_bounded_body-le decode maximum r.body text read;
        parsed = parsed;
      }

  -- `sendApproved` returns a reply only when the transport has answered, from the endpoint that was
  -- called and no other, with a status from 200 to 299 and the content type of JSON, with a body
  -- within the bound on its bytes, and the reply is what the text of that body parses to.
  pub conclude-IsTaken :
      (endpoint : Text) (maximum : ℕ) (ending : Ending) (reply : Reply)
      → conclude lower trim decode parse endpoint maximum ending ≡ ok reply
      → (r : Response) × (ending ≡ answered r) × IsTaken endpoint maximum r reply
  unfolding conclude
  conclude-IsTaken endpoint maximum (answered r) reply h =
      (r, refl, receive-IsTaken endpoint maximum r reply h)
  conclude-IsTaken endpoint maximum (threw code) reply h = absurd (cc)
  conclude-IsTaken endpoint maximum timed_out reply h = absurd (cc)
  conclude-IsTaken endpoint maximum aborted reply h = absurd (cc)
