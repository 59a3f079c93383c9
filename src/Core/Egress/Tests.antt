-- ===== src/Core/Egress/Tests.antt =====
-- Runs of egress.ts.
use browser_cortex.Contracts.Schemas.{is_bounded_text, is_fingerprint, is_identifier}
use browser_cortex.Common.{
  ℕ, ◌≡◌, refl, Bool, true, false, Option, some, List, [], ◌∷◌, ◌++◌, Text, units, safe_natural,
  ◌===◌,
}
use browser_cortex.Common.Map
use browser_cortex.Contracts.Errors.{Result, ok, err, approval_expired, response_rejected}
use browser_cortex.Policy.Approvals.{Store, issued_record, consume, constant_time_equal}
use browser_cortex.Core.Egress.{Disclosure, Binding, Context, Moment, send_approved}
use browser_cortex.Core.Egress.Response.{Chunk, streamed, Response, answered, conclude}
use browser_cortex.Core.Egress.Response.Bounded.{IsTaken, conclude-IsTaken}
use browser_cortex.Core.Egress.Released.{IsReleased, send_approved-IsReleased}

abbrev any_url : Text → Bool
any_url text = true

abbrev hex : Text
hex = units "00112233445566778899aabbccddeeff00112233445566778899aabbccddeeff"

-- Every payload has the same digest here.
abbrev one_digest : Text → Text
one_digest payload = units "sha256:" ++ hex

abbrev fingerprint : Binding → Result Text
fingerprint binding = ok binding.endpoint

abbrev accepts : Context → Option Bool
accepts context = some true

abbrev handle : Text
handle = units "apv_" ++ hex

abbrev disclosure : Disclosure
disclosure = record {
  schema_version = 1;
  disclosure_id = units "d1";
  endpoint = units "https://api.test/v1";
  endpoint_origin = units "https://api.test";
  model_label = units "m";
  serialized_payload = units "{}";
  payload_byte_length = 2;
  payload_fingerprint = units "sha256:" ++ hex;
  source_revisions = [];
  detected_categories = [];
  limitations = [];
  policy_version = units "p1";
  expires_at = 2000;
}

abbrev records : Store
records = (handle, issued_record 1000 1000 1 (units "https://api.test/v1")) ∷ []

abbrev moment : ℕ → Moment
moment last = record {
  first = 1500;
  consumed_at = 1501;
  last = last;
  aborted_before = false;
  aborted_after = false;
}

send_test :
    send_approved any_url one_digest fingerprint accepts true disclosure handle
      (moment 1600)
      records
    ≡ (ok disclosure, [])
unfolding send_approved consume constant_time_equal is_identifier is_bounded_text is_fingerprint
    ◌===◌ Map.get safe_natural Map.delete
send_test = refl

late_test :
    send_approved any_url one_digest fingerprint accepts true disclosure handle
      (moment 2000)
      records
    ≡ (err approval_expired, [])
unfolding send_approved consume constant_time_equal is_identifier is_bounded_text is_fingerprint
    ◌===◌ Map.get safe_natural Map.delete
late_test = refl

send_approved-IsReleased_example :
    (disclosure ≡ disclosure)
    × IsReleased any_url one_digest fingerprint accepts true disclosure handle
        (moment 1600)
        records
        []
send_approved-IsReleased_example =
    send_approved-IsReleased any_url one_digest fingerprint accepts true disclosure disclosure
      handle (moment 1600) records [] send_test

abbrev same : Text → Text
same text = text

abbrev decode : List ℕ → Option Text
decode bytes = some bytes

abbrev parse : Text → Result Text
parse text = ok text

abbrev response : List Chunk → Response
response chunks = record {
  status = 200;
  headers = (units "content-type", units "application/json; charset=utf-8") ∷ [];
  body = streamed chunks;
  final_url = units "https://api.test/v1";
}

abbrev two_chunks : List Chunk
two_chunks =
    record { aborted = false; bytes = some (units "{") }
    ∷ record { aborted = false; bytes = some (units "}") }
    ∷ []

conclude_test :
    conclude same same decode parse (units "https://api.test/v1") 2 (answered (response two_chunks))
    ≡ ok (units "{}")
unfolding conclude ◌===◌
conclude_test = refl

too_long_test :
    conclude same same decode parse (units "https://api.test/v1") 1 (answered (response two_chunks))
    ≡ err response_rejected
unfolding conclude ◌===◌
too_long_test = refl

conclude-IsTaken_example :
    (r : Response) × (answered (response two_chunks) ≡ answered r)
    × IsTaken same same decode parse (units "https://api.test/v1") 2 r (units "{}")
conclude-IsTaken_example =
    conclude-IsTaken same same decode parse (units "https://api.test/v1") 2
      (answered (response two_chunks)) (units "{}") conclude_test
