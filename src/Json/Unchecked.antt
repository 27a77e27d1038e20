-- ===== src/Json/Unchecked.antt =====
-- daemon/src/interfaces/NodeToNodeRequest.ts: the data of a request is not checked.
use kachery_p2p.Base.{ℕ, ◌≡◌, ◌↔◌, true, arith}
use text.Mathlib.TextEquality.{eq_iff}
use kachery_p2p.Json
use kachery_p2p.Json.{
  Value, undefined, string, is_equal_to, object, field, no_field, validate_object, validate_fields,
  knows_all, properties, entries_of, find_property, is_object, names,
}
use kachery_p2p.Json.Requests.{protocol_version}
use kachery_p2p.Json.Types.{is_request_id, is_node_id, is_timestamp, is_duration_msec, is_signature}
use kachery_p2p.Json.Messages.{
  is_node_to_node_request, is_node_to_node_request_body, is_node_to_node_request_data,
}

is_protocol_version :
    (x : Value) → (is_equal_to protocol_version x ≡ true) ↔ (x ≡ string protocol_version)
unfolding is_equal_to
is_protocol_version (string s) = ground (arith, eq_iff s protocol_version)
is_protocol_version _ = (λ h. absurd (cc h), λ h. absurd (cc h))

-- A request by its parts.
abbrev pub request_of :
    (protocol_version request_id from_node_id to_node_id timestamp request_data timeout
      signature : Value)
    → Value
request_of protocol_version request_id from to timestamp request_data timeout signature =
    let body = field "protocolVersion" protocol_version (
      field "requestId" request_id (
        field "fromNodeId" from (
          field "toNodeId" to (
            field "timestamp" timestamp
              (field "requestData" request_data (field "timeoutMsec" timeout no_field)))))) in
    object (field "body" (object body) (field "signature" signature no_field))

-- The check of a request passes exactly when its version is that of the protocol, its identifier, the
-- identifiers of its nodes, its timestamp, its timeout and its signature have the right form. The data of
-- the request, whatever they are, are not checked.
pub any_request_data :
    (stringified_length : Value → ℕ)
    (version id from to timestamp request_data timeout signature : Value)
    → (is_node_to_node_request stringified_length
          (request_of version id from to timestamp request_data timeout signature)
        ≡ true)
      ↔ ((version ≡ string protocol_version)
          × (is_request_id id ≡ true)
          × (is_node_id from ≡ true)
          × (is_node_id to ≡ true)
          × (is_timestamp timestamp ≡ true)
          × (is_duration_msec timeout ≡ true)
          × (is_signature signature ≡ true))
unfolding is_node_to_node_request is_node_to_node_request_body is_node_to_node_request_data
    validate_object validate_fields knows_all properties entries_of find_property is_object names
    Json.get Json.on_prototype
any_request_data l version id from to timestamp request_data timeout signature =
    ground (arith, is_protocol_version version)
