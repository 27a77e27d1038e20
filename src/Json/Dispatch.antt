-- ===== src/Json/Dispatch.antt =====
-- daemon/src/KacheryP2PNode.ts: handleNodeToNodeRequest, which finds the handler of a request.
-- The handlers are an argument: a handler may change the state of the node, and none is an exception.
pub mod Routing
use kachery_p2p.Base.{
  Bool, true, false, List, [], ◌∷◌, Option, none, some, String, if◌then◌else◌, ◌==◌, string_eq,
}
use kachery_p2p.Base.Maps
use kachery_p2p.Json.{Value}
use kachery_p2p.Json.RequestData.{
  is_check_alive_request_data, is_get_channel_info_request_data, is_announce_request_data,
  is_check_for_file_request_data, is_check_for_live_feed_request_data,
  is_subscribe_to_subfeed_request_data, is_report_new_subfeed_messages_request_data,
  is_download_file_data_request_data, is_download_subfeed_messages_request_data,
  is_start_stream_via_udp_request_data, is_fallback_udp_packet_request_data,
}
use kachery_p2p.Json.Messages.{is_submit_message_to_live_feed_request_data}
use kachery_p2p.Json.Requests.{protocol_version}
use Prim.Native.Nat.{ℕ, ◌+◌}

pub data Handler : Type 0 where
  check_alive get_channel_info announce check_for_file check_for_live_feed subscribe_to_subfeed
        report_new_subfeed_messages download_file_data download_subfeed_messages
        submit_message_to_live_feed start_stream_via_udp fallback_udp_packet :
      Handler

-- The `requestType` of the requests of a handler.
abbrev pub request_type : Handler → String
request_type check_alive = "checkAlive"
request_type get_channel_info = "getChannelInfo"
request_type announce = "announce"
request_type check_for_file = "checkForFile"
request_type check_for_live_feed = "checkForLiveFeed"
request_type subscribe_to_subfeed = "subscribeToSubfeed"
request_type report_new_subfeed_messages = "reportNewSubfeedMessages"
request_type download_file_data = "downloadFileData"
request_type download_subfeed_messages = "downloadSubfeedMessages"
request_type submit_message_to_live_feed = "submitMessageToLiveFeed"
request_type start_stream_via_udp = "startStreamViaUdp"
request_type fallback_udp_packet = "fallbackUdpPacket"

-- The chain of conditions: the first check that the data passes.
unfoldable pub handler_of : (stringified_length : Value → ℕ) → Value → Option Handler
handler_of stringified_length x =
    if is_check_alive_request_data x
    then some check_alive
    else if is_get_channel_info_request_data x
    then some get_channel_info
    else if is_announce_request_data x
    then some announce
    else if is_check_for_file_request_data x
    then some check_for_file
    else if is_check_for_live_feed_request_data x
    then some check_for_live_feed
    else if is_subscribe_to_subfeed_request_data x
    then some subscribe_to_subfeed
    else if is_report_new_subfeed_messages_request_data x
    then some report_new_subfeed_messages
    else if is_download_file_data_request_data x
    then some download_file_data
    else if is_download_subfeed_messages_request_data x
    then some download_subfeed_messages
    else if is_submit_message_to_live_feed_request_data stringified_length x
    then some submit_message_to_live_feed
    else if is_start_stream_via_udp_request_data x
    then some start_stream_via_udp
    else if is_fallback_udp_packet_request_data x
    then some fallback_udp_packet
    else none

pub record Request : Type 0 where
  pub protocol_version : String
  pub request_id : String
  pub from_node_id : String
  pub to_node_id : String
  pub timestamp : ℕ
  pub request_data : Value
  pub timeout_msec : ℕ
  pub signature : String

pub record ResponseBody : Type 0 where
  pub protocol_version : String
  pub request_id : String
  pub from_node_id : String
  pub to_node_id : String
  pub timestamp : ℕ
  pub response_data : Value

-- What becomes of a request: an exception, a proxy connection to which it is passed with a timeout, or
-- a response.
pub data Outcome : Type 0 where
  invalid_signature no_proxy unrecognized handler_failed : Outcome
  forwarded : (connection timeout_msec : ℕ) → Outcome
  answered : Handler → ResponseBody → (signature : String) → Outcome

-- The node: its identity, its connections to clients, and the state that the handlers change.
pub record Node (S : Type 0) : Type 0 where
  pub node_id : String
  pub proxy_connections_to_clients : List (String × ℕ)
  pub state : S

-- The body of the response that a node gives.
abbrev pub response_body : (now : ℕ) (node_id : String) → Request → Value → ResponseBody
response_body now node_id r response_data = record {
  protocol_version = protocol_version;
  request_id = r.request_id;
  from_node_id = node_id;
  to_node_id = r.from_node_id;
  timestamp = now;
  response_data = response_data;
}

module _ {S : Type 0} (stringified_length : Value → ℕ) (verify : Request → Bool)
    (sign : ResponseBody → String)
    (run : Handler → (from_node_id : String) → Value → S → S × Option Value) where
  -- `handleNodeToNodeRequest`
  unfoldable pub handle_node_to_node_request : (now : ℕ) → Node S → Request → Node S × Outcome
  handle_node_to_node_request now node r =
      if verify r
      then if r.to_node_id == node.node_id
        then elim (handler_of stringified_length r.request_data) [
          | none ↦ (node, unrecognized)
          | some h ↦
              let done = run h r.from_node_id r.request_data node.state in
              let after : Node S = record node { state = done.0 } in
              elim done.1 [
                | none ↦ (after, handler_failed)
                | some response_data ↦
                    let body = response_body now node.node_id r response_data in
                    (after, answered h body (sign body))
              ]
        ]
        else elim (Maps.get r.to_node_id node.proxy_connections_to_clients) [
          | none ↦ (node, no_proxy)
          | some connection ↦ (node, forwarded connection (r.timeout_msec + 1000))
        ]
      else (node, invalid_signature)
