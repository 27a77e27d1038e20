-- ===== src/Json/Dispatch/Routing.antt =====
-- KacheryP2PNode: which requests reach a handler, and which one.
use kachery_p2p.Base.{
  ℕ, ◌+◌, ◌≡◌, ◌⊎◌, inl, inr, Bool, true, String, Option, some, arith, Option-cases, Bool-cases,
  ◌==◌, string_eq,
}
use text.Mathlib.TextEquality.{eq_iff}
use kachery_p2p.Base.Maps
use kachery_p2p.Json
use kachery_p2p.Json.{Value, string, is_equal_to, Spec, test, validate_object, validate_fields}
use kachery_p2p.Json.RequestData.{
  is_check_alive_request_data, is_get_channel_info_request_data, is_announce_request_data,
  is_check_for_file_request_data, is_check_for_live_feed_request_data,
  is_subscribe_to_subfeed_request_data, is_report_new_subfeed_messages_request_data,
  is_download_file_data_request_data, is_download_subfeed_messages_request_data,
  is_start_stream_via_udp_request_data, is_fallback_udp_packet_request_data,
}
use kachery_p2p.Json.Messages.{is_submit_message_to_live_feed_request_data}
use kachery_p2p.Json.Dispatch.{
  Handler, request_type, handler_of, Request, ResponseBody, invalid_signature, no_proxy,
  unrecognized, handler_failed, forwarded, answered, Node, response_body,
  handle_node_to_node_request,
}

is_equal_to-eq : (s : String) (x : Value) → is_equal_to s x ≡ true → x ≡ string s
unfolding is_equal_to
is_equal_to-eq s (string t) h = ground (arith, eq_iff t s)
is_equal_to-eq s _ h = cc

-- An object that passes a check has the value of its first test.
first_test :
    (k s : String) (rest : Spec) (x : Value)
    → validate_object (test k (is_equal_to s) rest) x ≡ true
    → Json.get x k ≡ string s
unfolding validate_object validate_fields
first_test k s rest x h = is_equal_to-eq s (Json.get x k) (ground arith)

-- What passes the check is an object whose `requestType` is the name.
abbrev Names : (Value → Bool) → String → Type 0
Names check s = (x : Value) → check x ≡ true → Json.get x "requestType" ≡ string s

check_alive-Names : Names is_check_alive_request_data "checkAlive"
unfolding is_check_alive_request_data
check_alive-Names x = first_test "requestType" "checkAlive" _ x

get_channel_info-Names : Names is_get_channel_info_request_data "getChannelInfo"
unfolding is_get_channel_info_request_data
get_channel_info-Names x = first_test "requestType" "getChannelInfo" _ x

announce-Names : Names is_announce_request_data "announce"
unfolding is_announce_request_data
announce-Names x = first_test "requestType" "announce" _ x

check_for_file-Names : Names is_check_for_file_request_data "checkForFile"
unfolding is_check_for_file_request_data
check_for_file-Names x = first_test "requestType" "checkForFile" _ x

check_for_live_feed-Names : Names is_check_for_live_feed_request_data "checkForLiveFeed"
unfolding is_check_for_live_feed_request_data
check_for_live_feed-Names x = first_test "requestType" "checkForLiveFeed" _ x

subscribe_to_subfeed-Names : Names is_subscribe_to_subfeed_request_data "subscribeToSubfeed"
unfolding is_subscribe_to_subfeed_request_data
subscribe_to_subfeed-Names x = first_test "requestType" "subscribeToSubfeed" _ x

report_new_subfeed_messages-Names :
    Names is_report_new_subfeed_messages_request_data "reportNewSubfeedMessages"
unfolding is_report_new_subfeed_messages_request_data
report_new_subfeed_messages-Names x = first_test "requestType" "reportNewSubfeedMessages" _ x

download_file_data-Names : Names is_download_file_data_request_data "downloadFileData"
unfolding is_download_file_data_request_data
download_file_data-Names x = first_test "requestType" "downloadFileData" _ x

download_subfeed_messages-Names :
    Names is_download_subfeed_messages_request_data "downloadSubfeedMessages"
unfolding is_download_subfeed_messages_request_data
download_subfeed_messages-Names x = first_test "requestType" "downloadSubfeedMessages" _ x

start_stream_via_udp-Names : Names is_start_stream_via_udp_request_data "startStreamViaUdp"
unfolding is_start_stream_via_udp_request_data
start_stream_via_udp-Names x = first_test "requestType" "startStreamViaUdp" _ x

fallback_udp_packet-Names : Names is_fallback_udp_packet_request_data "fallbackUdpPacket"
unfolding is_fallback_udp_packet_request_data
fallback_udp_packet-Names x = first_test "requestType" "fallbackUdpPacket" _ x

submit-Names :
    (stringified_length : Value → ℕ)
    → Names
        (is_submit_message_to_live_feed_request_data stringified_length)
        "submitMessageToLiveFeed"
unfolding is_submit_message_to_live_feed_request_data
submit-Names l x = first_test "requestType" "submitMessageToLiveFeed" _ x

-- The handler that is found is the one of the request's type.
handler_of-request_type :
    (stringified_length : Value → ℕ) (x : Value) (h : Handler)
    → handler_of stringified_length x ≡ some h
    → Json.get x "requestType" ≡ string (request_type h)
unfolding handler_of
handler_of-request_type l x h e = ground (
  arith,
  check_alive-Names x,
  get_channel_info-Names x,
  announce-Names x,
  check_for_file-Names x,
  check_for_live_feed-Names x,
  subscribe_to_subfeed-Names x,
  report_new_subfeed_messages-Names x,
  download_file_data-Names x,
  download_subfeed_messages-Names x,
  start_stream_via_udp-Names x,
  fallback_udp_packet-Names x,
  submit-Names l x,
)

module _ {S : Type 0} (stringified_length : Value → ℕ) (verify : Request → Bool)
    (sign : ResponseBody → String)
    (run : Handler → (from_node_id : String) → Value → S → S × Option Value) where
  -- The handler ran: the request carries a valid signature of its sender and is addressed to this node,
  -- and the type of its data is that of the handler.
  pub record Admitted (node : Node S) (r : Request) (h : Handler) : Type 0 where
    pub signed : verify r ≡ true
    pub addressed : r.to_node_id ≡ node.node_id
    pub typed : Json.get r.request_data "requestType" ≡ string (request_type h)

  -- Every request either leaves the node as it is, without a response, or is passed on with a valid
  -- signature over the connection to the node that it is addressed to, with a second more time, or is
  -- admitted. Then the state is what the handler of its type makes of it, and nothing else changes; the
  -- response, where the handler gives one, goes from this node to the sender under the identifier of the
  -- request, and carries this node's signature.
  pub handle_node_to_node_request_lem :
      (now : ℕ) (node : Node S) (r : Request)
      → let (after, outcome) =
          handle_node_to_node_request stringified_length verify sign run now node r in
        ((after ≡ node)
          × ((outcome ≡ invalid_signature) ⊎ (outcome ≡ no_proxy) ⊎ (outcome ≡ unrecognized)))
        ⊎ ((connection : ℕ) × (after ≡ node)
            × (outcome ≡ forwarded connection (r.timeout_msec + 1000))
            × (verify r ≡ true)
            × (Maps.get r.to_node_id node.proxy_connections_to_clients ≡ some connection))
        ⊎ ((h : Handler) × Admitted node r h
            × (after ≡ record node { state = (run h r.from_node_id r.request_data node.state).0 })
            × ((outcome ≡ handler_failed)
                ⊎ ((response_data : Value) × (outcome
                      ≡ answered h
                          (response_body now node.node_id r response_data)
                          (sign (response_body now node.node_id r response_data))))))
  unfolding handle_node_to_node_request
  handle_node_to_node_request_lem now node r = elim (Bool-cases (verify r)) [
    | inr f ↦ inl (ground arith, ground arith)
    | inl signed ↦ elim (Bool-cases (r.to_node_id == node.node_id)) [
      | inr away ↦ elim (Option-cases (Maps.get r.to_node_id node.proxy_connections_to_clients)) [
        | inl e ↦ inl (ground arith, ground arith)
        | inr (connection, e) ↦ inr (inl (connection, ground arith, ground arith, signed, e))
      ]
      | inl here ↦ elim (Option-cases (handler_of stringified_length r.request_data)) [
        | inl e ↦ inl (ground arith, ground arith)
        | inr (h, e) ↦
            let admitted : Admitted node r h = record {
              signed = signed;
              addressed = (eq_iff r.to_node_id node.node_id).0 here;
              typed = handler_of-request_type stringified_length r.request_data h e;
            } in
            elim (Option-cases (run h r.from_node_id r.request_data node.state).1) [
              | inl threw ↦ inr (inr (h, admitted, ground arith, inl (ground arith)))
              | inr (d, gave) ↦ inr (inr (h, admitted, ground arith, inr (d, ground arith)))
            ]
      ]
    ]
  ]
