-- ===== src/Tests/Json.antt =====
-- The checks of JSON values and the routing of requests on concrete inputs.
use kachery_p2p.Base.{
  ℕ, ◌+◌, ◌≡◌, refl, ◌↔◌, ◌⊎◌, Bool, true, false, [], Option, some, String, string_eq,
}
use kachery_p2p.Base.Maps
use kachery_p2p.Json
use kachery_p2p.Json.{
  Value, undefined, null, boolean, string, number, integer, object, array, no_item, item, Fields,
  no_field, field, is_object, Spec, done, test, validate_object, on_prototype, is_boolean,
  is_string, is_json_value, decimal,
}
use kachery_p2p.Json.Laws
use kachery_p2p.Json.Laws.{KeysKnown, FieldsConform}
use kachery_p2p.Json.Types.{
  is_host_name, is_port, is_url, is_address, address_spec, is_node_id, is_node_label, is_request_id,
  is_timestamp, is_duration_msec, is_signature,
}
use kachery_p2p.Json.Addresses
use kachery_p2p.Json.FileKeys
use kachery_p2p.Json.FileKeys.{is_file_key}
use kachery_p2p.Json.Chunks
use kachery_p2p.Json.Chunks.{IsFileKey}
use kachery_p2p.Json.Unchecked
use kachery_p2p.Json.Unchecked.{request_of}
use kachery_p2p.Json.Messages.{is_node_to_node_request}
use kachery_p2p.Json.Requests.{protocol_version}
use kachery_p2p.Json.Dispatch.{
  Handler, Request, ResponseBody, Node, Outcome, answered, handler_failed, forwarded,
  invalid_signature, no_proxy, unrecognized, response_body, handle_node_to_node_request,
}
use kachery_p2p.Json.Dispatch.Routing
use kachery_p2p.Json.Dispatch.Routing.{Admitted}

abbrev flag_spec : Spec
flag_spec = test "alive" is_boolean done

abbrev flag_fields : Fields
flag_fields = field "alive" (boolean true) no_field

validate_object_iff_example : (validate_object flag_spec (object flag_fields) ≡ true) ↔ (
    (is_object (object flag_fields) ≡ true)
    × KeysKnown flag_spec (object flag_fields)
    × FieldsConform flag_spec (object flag_fields))
validate_object_iff_example = Laws.validate_object_iff flag_spec (object flag_fields)

other_names_fail : validate_object flag_spec (object (field "more" null flag_fields)) ≡ false
unfolding validate_object Json.names on_prototype is_boolean Json.validate_fields Json.knows_all
    Json.properties Json.entries_of Json.find_property is_object Json.get
other_names_fail = refl

index_names : decimal 307 ≡ "307"
unfolding decimal
index_names = refl

abbrev some_address : Value
some_address =
    object
      (field "hostName" (string "flatiron.example.org") (field "port" (integer 14502) no_field))

some_address-is_address : is_address some_address ≡ true
unfolding is_address validate_object Json.names on_prototype Json.validate_fields Json.knows_all
    Json.properties Json.entries_of Json.find_property is_object Json.get Json.truthy Json.optional
    is_host_name is_port Json.Types.split Json.Types.is_label Json.Types.is_alphanumeric
    Json.Types.is_url_string
some_address-is_address = refl

is_address_lem_example :
    ((s : String) × (n : Json.Number) × (Json.get some_address "hostName" ≡ string s)
      × (is_host_name (string s) ≡ true)
      × (Json.get some_address "port" ≡ number n)
      × (is_port (number n) ≡ true)
      × (Json.get some_address "url" ≡ undefined))
    ⊎ ((u : String) × (Json.get some_address "url" ≡ string u)
        × (is_url u ≡ true)
        × (Json.get some_address "hostName" ≡ undefined)
        × (Json.get some_address "port" ≡ undefined))
is_address_lem_example = Addresses.is_address_lem some_address some_address-is_address

-- A chunk of a file.
abbrev some_file_key : Value
some_file_key = object (
    field "sha1" (string "0123456789012345678901234567890123456789") (
      field "chunkOf"
        (object (
          field "fileKey"
            (object (field "sha1" (string "abcdefabcdefabcdefabcdefabcdefabcdefabcd") no_field))
            (field "startByte" (integer 0) (field "endByte" (integer 20) no_field))))
        no_field))

is_file_key_iff_example : (is_file_key some_file_key ≡ true) ↔ IsFileKey some_file_key
is_file_key_iff_example = Chunks.is_file_key_iff some_file_key

some_file_key-is_file_key : is_file_key some_file_key ≡ true
unfolding is_file_key FileKeys.is_file_key_within FileKeys.size validate_object Json.names
    on_prototype Json.validate_fields Json.knows_all Json.properties Json.entries_of
    Json.find_property is_object Json.get Json.optional Json.Types.is_sha1_hash
    Json.Types.is_hexadecimal Json.Types.is_byte_count Json.has_name
some_file_key-is_file_key = refl

abbrev some_request : Value → Value
some_request request_data =
    request_of (string protocol_version) (string "abcdefghij")
      (string "abababababababababababababababababababababababababababababababab")
      (string "cdcdcdcdcdcdcdcdcdcdcdcdcdcdcdcdcdcdcdcdcdcdcdcdcdcdcdcdcdcdcdcd") (integer 17)
      request_data (integer 2000) (string "none")

any_request_data_example : (is_node_to_node_request (λ x. 0) (some_request null) ≡ true) ↔ (
    (string protocol_version ≡ string protocol_version)
    × (is_request_id (string "abcdefghij") ≡ true)
    × (is_node_id (string "abababababababababababababababababababababababababababababababab")
        ≡ true)
    × (is_node_id (string "cdcdcdcdcdcdcdcdcdcdcdcdcdcdcdcdcdcdcdcdcdcdcdcdcdcdcdcdcdcdcdcd")
        ≡ true)
    × (is_timestamp (integer 17) ≡ true)
    × (is_duration_msec (integer 2000) ≡ true)
    × (is_signature (string "none") ≡ true))
any_request_data_example =
    Unchecked.any_request_data (λ x. 0) (string protocol_version) (string "abcdefghij")
      (string "abababababababababababababababababababababababababababababababab")
      (string "cdcdcdcdcdcdcdcdcdcdcdcdcdcdcdcdcdcdcdcdcdcdcdcdcdcdcdcdcdcdcdcd") (integer 17) null
      (integer 2000) (string "none")

abbrev alive_request : Request
alive_request = record {
  protocol_version = "kachery-p2p-0.7.0p";
  timestamp = 1600000000000;
  request_id = "abcdefghij";
  from_node_id = "a";
  to_node_id = "b";
  timeout_msec = 2000;
  request_data = object (field "requestType" (string "checkAlive") no_field);
  signature = "s";
}

abbrev toy_node : Node ℕ
toy_node = record { node_id = "b"; proxy_connections_to_clients = []; state = 3 }

-- A handler counts the requests and gives back their data.
abbrev count_requests : Handler → String → Value → ℕ → ℕ × Option Value
count_requests h from x n = (n + 1, some x)

abbrev toy_verify : Request → Bool
toy_verify r = true

abbrev toy_sign : ResponseBody → String
toy_sign body = "signed"

abbrev toy_handle : Node ℕ × Outcome
toy_handle =
    handle_node_to_node_request (λ x. 0) toy_verify toy_sign count_requests 17 toy_node
      alive_request

handle_node_to_node_request_lem_example :
    ((toy_handle.0 ≡ toy_node)
      × ((toy_handle.1 ≡ invalid_signature)
          ⊎ (toy_handle.1 ≡ no_proxy)
          ⊎ (toy_handle.1 ≡ unrecognized)))
    ⊎ ((connection : ℕ) × (toy_handle.0 ≡ toy_node)
        × (toy_handle.1 ≡ forwarded connection 3000)
        × (toy_verify alive_request ≡ true)
        × (Maps.get "b" toy_node.proxy_connections_to_clients ≡ some connection))
    ⊎ ((h : Handler) × Admitted (λ x. 0) toy_verify toy_sign count_requests toy_node alive_request h
        × (toy_handle.0
            ≡ record toy_node { state = (count_requests h "a" alive_request.request_data 3).0 })
        × ((toy_handle.1 ≡ handler_failed)
            ⊎ ((response_data : Value) × (toy_handle.1
                  ≡ answered h
                      (response_body 17 "b" alive_request response_data)
                      (toy_sign (response_body 17 "b" alive_request response_data))))))
handle_node_to_node_request_lem_example =
    Routing.handle_node_to_node_request_lem (λ x. 0) toy_verify toy_sign count_requests 17 toy_node
      alive_request
