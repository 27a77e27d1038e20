-- ===== src/Json/RequestData.antt =====
-- daemon/src/interfaces/NodeToNodeRequest.ts: the data of each kind of request and response.
use kachery_p2p.Base.{Bool, [], ◌∷◌, string_eq}
use kachery_p2p.Json.{
  Value, is_string, is_null, is_boolean, is_one_of, is_equal_to, done, test, validate_object,
}
use kachery_p2p.Json.Types.{
  is_ten_letters, is_feed_id, is_subfeed_hash, is_channel_config_url, is_byte_count,
  is_subfeed_position, is_message_count, is_error_message,
}
use kachery_p2p.Json.FileKeys.{is_file_key}
use kachery_p2p.Json.Requests.{null_or, is_channel_info, is_channel_node_info}

unfoldable pub is_stream_id : Value → Bool
is_stream_id x = is_ten_letters x

unfoldable pub is_packet_id : Value → Bool
is_packet_id x = is_ten_letters x

unfoldable pub is_udp_message_id : Value → Bool
is_udp_message_id x = is_ten_letters x

unfoldable pub is_check_alive_request_data : Value → Bool
is_check_alive_request_data x =
    validate_object (test "requestType" (is_equal_to "checkAlive") done) x

unfoldable pub is_check_alive_response_data : Value → Bool
is_check_alive_response_data x =
    validate_object (test "requestType" (is_equal_to "checkAlive") (test "alive" is_boolean done)) x

unfoldable pub is_get_channel_info_request_data : Value → Bool
is_get_channel_info_request_data x =
    validate_object
      (test "requestType" (is_equal_to "getChannelInfo")
        (test "channelConfigUrl" is_channel_config_url done))
      x

unfoldable pub is_get_channel_info_response_data : Value → Bool
is_get_channel_info_response_data x =
    validate_object
      (test "requestType" (is_equal_to "getChannelInfo") (test "channelInfo" is_channel_info done))
      x

unfoldable pub is_announce_request_data : Value → Bool
is_announce_request_data x =
    validate_object
      (test "requestType" (is_equal_to "announce")
        (test "channelNodeInfo" is_channel_node_info done))
      x

unfoldable pub is_announce_response_data : Value → Bool
is_announce_response_data x =
    validate_object
      (test "requestType" (is_equal_to "announce")
        (test "success" is_boolean (test "errorMessage" (null_or is_error_message) done)))
      x

unfoldable pub is_check_for_file_request_data : Value → Bool
is_check_for_file_request_data x =
    validate_object
      (test "requestType" (is_equal_to "checkForFile") (test "fileKey" is_file_key done)) x

unfoldable pub is_check_for_file_response_data : Value → Bool
is_check_for_file_response_data x =
    validate_object
      (test "requestType" (is_equal_to "checkForFile")
        (test "found" is_boolean (test "size" (null_or is_byte_count) done)))
      x

unfoldable pub is_check_for_live_feed_request_data : Value → Bool
is_check_for_live_feed_request_data x =
    validate_object
      (test "requestType" (is_equal_to "checkForLiveFeed") (test "feedId" is_feed_id done)) x

unfoldable pub is_check_for_live_feed_response_data : Value → Bool
is_check_for_live_feed_response_data x =
    validate_object
      (test "requestType" (is_equal_to "checkForLiveFeed") (test "found" is_boolean done)) x

unfoldable pub is_subscribe_to_subfeed_request_data : Value → Bool
is_subscribe_to_subfeed_request_data x =
    validate_object
      (test "requestType" (is_equal_to "subscribeToSubfeed")
        (test "feedId" is_feed_id (test "subfeedHash" is_subfeed_hash done)))
      x

unfoldable pub is_subscribe_to_subfeed_response_data : Value → Bool
is_subscribe_to_subfeed_response_data x =
    validate_object
      (test "requestType" (is_equal_to "subscribeToSubfeed") (
        test "success" is_boolean (
          test "numMessages" (λ y. is_one_of (is_message_count ∷ is_null ∷ []) y)
            (test "errorMessage" (λ y. is_one_of (is_error_message ∷ is_null ∷ []) y) done))))
      x

unfoldable pub is_report_new_subfeed_messages_request_data : Value → Bool
is_report_new_subfeed_messages_request_data x =
    validate_object
      (test "requestType" (is_equal_to "reportNewSubfeedMessages") (
        test "feedId" is_feed_id
          (test "subfeedHash" is_subfeed_hash (test "numMessages" is_message_count done))))
      x

unfoldable pub is_report_new_subfeed_messages_response_data : Value → Bool
is_report_new_subfeed_messages_response_data x =
    validate_object
      (test "requestType" (is_equal_to "reportNewSubfeedMessages") (
        test "success" is_boolean
          (test "errorMessage" (λ y. is_one_of (is_error_message ∷ is_null ∷ []) y) done)))
      x

unfoldable pub is_submit_message_to_live_feed_response_data : Value → Bool
is_submit_message_to_live_feed_response_data x =
    validate_object
      (test "requestType" (is_equal_to "submitMessageToLiveFeed")
        (test "success" is_boolean (test "errorMessage" (null_or is_error_message) done)))
      x

unfoldable pub is_download_file_data_request_data : Value → Bool
is_download_file_data_request_data x =
    validate_object
      (test "requestType" (is_equal_to "downloadFileData") (
        test "fileKey" is_file_key
          (test "startByte" is_byte_count (test "endByte" (null_or is_byte_count) done))))
      x

unfoldable pub is_download_file_data_response_data : Value → Bool
is_download_file_data_response_data x =
    validate_object
      (test "requestType" (is_equal_to "downloadFileData") (
        test "fileKey" is_file_key (
          test "startByte" is_byte_count (
            test "endByte" is_byte_count (
              test "success" is_boolean (
                test "streamId" (null_or is_stream_id)
                  (test "errorMessage" (null_or is_error_message) done)))))))
      x

unfoldable pub is_download_subfeed_messages_request_data : Value → Bool
is_download_subfeed_messages_request_data x =
    validate_object
      (test "requestType" (is_equal_to "downloadSubfeedMessages") (
        test "feedId" is_feed_id (
          test "subfeedHash" is_subfeed_hash
            (test "position" is_subfeed_position (test "numMessages" is_message_count done)))))
      x

unfoldable pub is_download_subfeed_messages_response_data : Value → Bool
is_download_subfeed_messages_response_data x =
    validate_object
      (test "requestType" (is_equal_to "downloadSubfeedMessages") (
        test "success" is_boolean (
          test "streamId" (null_or is_stream_id)
            (test "errorMessage" (null_or is_error_message) done))))
      x

unfoldable pub is_start_stream_via_udp_request_data : Value → Bool
is_start_stream_via_udp_request_data x =
    validate_object
      (test "requestType" (is_equal_to "startStreamViaUdp") (test "streamId" is_stream_id done)) x

unfoldable pub is_start_stream_via_udp_response_data : Value → Bool
is_start_stream_via_udp_response_data x =
    validate_object
      (test "requestType" (is_equal_to "startStreamViaUdp")
        (test "success" is_boolean (test "errorMessage" (null_or is_error_message) done)))
      x

unfoldable pub is_stop_stream_via_udp_request_data : Value → Bool
is_stop_stream_via_udp_request_data x =
    validate_object
      (test "requestType" (is_equal_to "stopStreamViaUdp") (test "streamId" is_stream_id done)) x

unfoldable pub is_stop_stream_via_udp_response_data : Value → Bool
is_stop_stream_via_udp_response_data x =
    validate_object
      (test "requestType" (is_equal_to "stopStreamViaUdp")
        (test "success" is_boolean (test "errorMessage" (null_or is_error_message) done)))
      x

unfoldable pub is_fallback_udp_packet_request_data : Value → Bool
is_fallback_udp_packet_request_data x =
    validate_object
      (test "requestType" (is_equal_to "fallbackUdpPacket")
        (test "dataBase64" is_string (test "packetId" is_packet_id done)))
      x

unfoldable pub is_fallback_udp_packet_response_data : Value → Bool
is_fallback_udp_packet_response_data x =
    validate_object
      (test "requestType" (is_equal_to "fallbackUdpPacket")
        (test "success" is_boolean (test "errorMessage" (null_or is_error_message) done)))
      x
