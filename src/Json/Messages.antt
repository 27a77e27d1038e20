-- ===== src/Json/Messages.antt =====
-- The messages between nodes: the checks of requests and responses in
-- daemon/src/interfaces/NodeToNodeRequest.ts, of UDP headers and of packet headers. The length of a value's
-- JSON text is a parameter: the text comes from libraries.
use kachery_p2p.Base.{ℕ, Bool, true, ◌&&◌, ◌||◌, [], ◌∷◌, ltb, leb, not, ◌==◌, string_eq}
use kachery_p2p.Json.{
  Value, below_zero, below, is_boolean, is_one_of, is_equal_to, done, test, nested, validate_object,
  is_json_object,
}
use kachery_p2p.Json.Types.{
  on_text, on_number, is_signature, is_node_id, is_feed_id, is_subfeed_hash, is_request_id, is_port,
  is_address, is_timestamp, is_duration_msec,
}
use kachery_p2p.Json.Requests.{null_or, protocol_version}
use kachery_p2p.Json.RequestData.{
  is_packet_id, is_udp_message_id, is_check_alive_request_data, is_check_alive_response_data,
  is_get_channel_info_request_data, is_get_channel_info_response_data, is_announce_request_data,
  is_announce_response_data, is_check_for_file_request_data, is_check_for_file_response_data,
  is_check_for_live_feed_request_data, is_check_for_live_feed_response_data,
  is_subscribe_to_subfeed_response_data, is_report_new_subfeed_messages_response_data,
  is_submit_message_to_live_feed_response_data, is_download_file_data_request_data,
  is_download_file_data_response_data, is_download_subfeed_messages_request_data,
  is_download_subfeed_messages_response_data, is_start_stream_via_udp_request_data,
  is_start_stream_via_udp_response_data, is_stop_stream_via_udp_request_data,
  is_stop_stream_via_udp_response_data, is_fallback_udp_packet_request_data,
  is_fallback_udp_packet_response_data,
}

-- A function is truthy.
abbrev pub function_truthy : (Value → Bool) → Bool
function_truthy f = true

unfoldable pub is_node_to_node_response_data : Value → Bool
is_node_to_node_response_data x = function_truthy (
    is_one_of (
      is_check_alive_response_data ∷ is_get_channel_info_response_data ∷ is_announce_response_data
      ∷ is_check_for_file_response_data ∷ is_check_for_live_feed_response_data
      ∷ is_subscribe_to_subfeed_response_data ∷ is_report_new_subfeed_messages_response_data
      ∷ is_submit_message_to_live_feed_response_data ∷ is_download_file_data_response_data
      ∷ is_download_subfeed_messages_response_data ∷ is_start_stream_via_udp_response_data
      ∷ is_stop_stream_via_udp_response_data ∷ is_fallback_udp_packet_response_data ∷ []))

unfoldable pub is_node_to_node_response_body : Value → Bool
is_node_to_node_response_body x =
    validate_object
      (test "protocolVersion" (is_equal_to protocol_version) (
        test "requestId" is_request_id (
          test "fromNodeId" is_node_id (
            test "toNodeId" is_node_id (
              test "timestamp" is_timestamp
                (test "responseData" is_node_to_node_response_data done))))))
      x

unfoldable pub is_node_to_node_response : Value → Bool
is_node_to_node_response x =
    validate_object (test "body" is_node_to_node_response_body (test "signature" is_signature done))
      x

unfoldable pub is_udp_packet_sender_header : Value → Bool
is_udp_packet_sender_header x =
    validate_object
      (test "protocolVersion" (is_equal_to protocol_version) (
        test "fromNodeId" is_node_id (
          test "toNodeId" is_node_id
            (test "packetId" is_packet_id (test "isConfirmation" is_boolean done)))))
      x

unfoldable pub is_multicast_announce_message_body : Value → Bool
is_multicast_announce_message_body x =
    validate_object
      (test "protocolVersion" (is_equal_to protocol_version) (
        test "fromNodeId" is_node_id (
          test "messageType" (is_equal_to "announce") (
            test "requestData" is_announce_request_data
              (test "udpSocketPort" (null_or is_port) (test "timestamp" is_timestamp done))))))
      x

unfoldable pub is_multicast_announce_message : Value → Bool
is_multicast_announce_message x =
    validate_object
      (test "body" is_multicast_announce_message_body (test "signature" is_signature done)) x

unfoldable pub is_udp_message_type : Value → Bool
is_udp_message_type x =
    on_text
      (λ s.
        s == "NodeToNodeRequest"
        || s == "NodeToNodeResponse"
        || s == "KeepAlive"
        || s == "streamDataChunk"
        || s == "streamDataError"
        || s == "streamDataEnd")
      x

unfoldable pub is_num_parts : Value → Bool
is_num_parts x = on_number (λ n. not (below n 1)) x

unfoldable pub is_part_index : Value → Bool
is_part_index x = on_number (λ n. not (below_zero n)) x

module _ (stringified_length : Value → ℕ) where
  unfoldable pub is_udp_message_meta_data : Value → Bool
  is_udp_message_meta_data x = is_json_object x && leb (stringified_length x) 100

  unfoldable pub is_udp_header : Value → Bool
  is_udp_header x =
      validate_object
        (nested "body"
          (test "udpMessageId" is_udp_message_id (
            test "protocolVersion" (is_equal_to protocol_version) (
              test "fromNodeId" is_node_id (
                test "toAddress" (null_or is_address) (
                  test "udpMessageType" is_udp_message_type (
                    test "metaData" is_udp_message_meta_data (
                      test "partIndex" is_part_index
                        (test "numParts" is_num_parts (test "payloadIsJson" is_boolean done)))))))))
          (test "signature" is_signature done))
        x

  unfoldable pub is_submitted_subfeed_message : Value → Bool
  is_submitted_subfeed_message x = is_json_object x && ltb (stringified_length x) 10000

  unfoldable pub is_submit_message_to_live_feed_request_data : Value → Bool
  is_submit_message_to_live_feed_request_data x =
      validate_object
        (test "requestType" (is_equal_to "submitMessageToLiveFeed") (
          test "feedId" is_feed_id (
            test "subfeedHash" is_subfeed_hash (test "message" is_submitted_subfeed_message done))))
        x

  -- The call of `isOneOf` gives a function, and that function is not called.
  unfoldable pub is_node_to_node_request_data : Value → Bool
  is_node_to_node_request_data x = function_truthy (
      is_one_of (
        is_check_alive_request_data ∷ is_get_channel_info_request_data ∷ is_announce_request_data
        ∷ is_check_for_file_request_data ∷ is_check_for_live_feed_request_data
        ∷ is_subscribe_to_subfeed_response_data ∷ is_report_new_subfeed_messages_response_data
        ∷ is_submit_message_to_live_feed_request_data ∷ is_download_file_data_request_data
        ∷ is_download_subfeed_messages_request_data ∷ is_start_stream_via_udp_request_data
        ∷ is_stop_stream_via_udp_request_data ∷ is_fallback_udp_packet_request_data ∷ []))

  unfoldable pub is_node_to_node_request_body : Value → Bool
  is_node_to_node_request_body x =
      validate_object
        (test "protocolVersion" (is_equal_to protocol_version) (
          test "requestId" is_request_id (
            test "fromNodeId" is_node_id (
              test "toNodeId" is_node_id (
                test "timestamp" is_timestamp (
                  test "requestData" is_node_to_node_request_data
                    (test "timeoutMsec" is_duration_msec done)))))))
        x

  unfoldable pub is_node_to_node_request : Value → Bool
  is_node_to_node_request x =
      validate_object
        (test "body" is_node_to_node_request_body (test "signature" is_signature done)) x
