-- ===== src/Bridge/Messages/Tests.antt =====
-- Runs of messages.ts at concrete messages, where `lower` leaves its text as it is.
use browser_cortex.Contracts.Schemas.{utf8_byte_length}
use browser_cortex.Common.{◌≡◌, ◌≤◌, refl, Text, some, units, true, ◌===◌}
use browser_cortex.Contracts.Limits
use browser_cortex.Contracts.Errors.{
  ok, err, permission_denied, invalid_input, invalid_schema_version,
}
use browser_cortex.Contracts.Json.{
  JsonValue, null, number, string, array, object, no_items, item, no_fields, field, whole,
  default_limits, canonicalize, get,
}
use browser_cortex.Contracts.Json.Fits.{height, IsClean}
use browser_cortex.Bridge.Messages.{is_message, payload_of, message_limits, parse_bridge_message}
use browser_cortex.Contracts.Json.Shapes.{is_object}
use browser_cortex.Bridge.Messages.Unclaimed.{IsUnclaimed, parse_bridge_message-IsUnclaimed}

abbrev keep : Text → Text
keep t = t

abbrev envelope : JsonValue → JsonValue → JsonValue
envelope version payload = object (
    field (units "schemaVersion") version (
      field (units "requestId") (string (units "r1")) (
        field (units "sessionId")
          (string (units "ses_0123456789abcdef0123456789abcdef0123456789abcdef0123456789abcdef"))
          (field (units "documentId") (string (units "d1")) (
            field (units "messageType") (string (units "bridge.cancel"))
              (field (units "payload") payload no_fields))))))

abbrev cancel_payload : JsonValue
cancel_payload = object (field (units "targetRequestId") (string (units "r0")) no_fields)

abbrev cancel_message : JsonValue
cancel_message = envelope (number (whole 1)) cancel_payload

parsed : parse_bridge_message keep cancel_message ≡ ok cancel_message
unfolding parse_bridge_message get utf8_byte_length
parsed = refl

claims_approval :
    parse_bridge_message keep (
      envelope (number (whole 2)) (
        object (
          field
            (units "a")
            (array (item (object (field (units "is_trusted") null no_fields)) no_items))
            no_fields)))
    ≡ err permission_denied
unfolding parse_bridge_message get
claims_approval = refl

wrong_version :
    parse_bridge_message keep (envelope (number (whole 2)) cancel_payload)
    ≡ err invalid_schema_version
unfolding parse_bridge_message get
wrong_version = refl

wrong_shape : parse_bridge_message keep (envelope (number (whole 1)) null) ≡ err invalid_input
unfolding parse_bridge_message get
wrong_shape = refl

parse_bridge_message-IsUnclaimed_example :
    (cancel_message ≡ cancel_message)
    × (is_object is_message cancel_message ≡ true)
    × IsUnclaimed keep cancel_payload
    × (height cancel_payload ≤ Limits.json_depth)
    × IsClean default_limits cancel_payload
    × ((t : Text) × (canonicalize message_limits cancel_message ≡ some t))
unfolding payload_of get ◌===◌
parse_bridge_message-IsUnclaimed_example =
    parse_bridge_message-IsUnclaimed keep cancel_message cancel_message cancel_payload parsed refl
