-- ===== src/Json/Requests.antt =====
-- daemon/src/interfaces/core.ts: the checks of larger objects.
use kachery_p2p.Base.{Bool, ◌&&◌, [], ◌∷◌, String, not, string_eq}
use kachery_p2p.Json
use kachery_p2p.Json.{
  Number, Value, number, string, below_zero, below, is_object, is_string, is_null, is_boolean,
  is_number, is_one_of, optional, is_array_of, is_object_of, is_equal_to, Spec, done, test, nested,
  validate_object, is_json_object, is_json_value,
}
use kachery_p2p.Json.Types.{
  on_number, is_private_key_hex, is_sha1_hash, is_signature, is_node_id, is_feed_id,
  is_subfeed_hash, is_node_label, is_channel_config_url, is_address, is_timestamp, is_byte_count,
  is_subfeed_position, is_subfeed_watch_name,
}
use kachery_p2p.Json.FileKeys.{is_file_key}

abbrev pub protocol_version : String
protocol_version = "kachery-p2p-0.7.0p"

unfoldable pub is_feed_config : Value → Bool
is_feed_config x =
    validate_object (test "feedId" is_feed_id (test "privateKey" is_private_key_hex done)) x

unfoldable pub is_find_live_feed_result : Value → Bool
is_find_live_feed_result x = validate_object (test "nodeId" is_node_id done) x

unfoldable pub is_find_file_result : Value → Bool
is_find_file_result x =
    validate_object
      (test "nodeId" is_node_id (test "fileKey" is_file_key (test "fileSize" is_byte_count done))) x
    && on_number (λ n. not (below_zero n)) (Json.get x "fileSize")

abbrev pub null_or : (Value → Bool) → Value → Bool
null_or t x = is_one_of (is_null ∷ t ∷ []) x

unfoldable pub is_channel_node_info_body : Value → Bool
is_channel_node_info_body x =
    validate_object
      (test "channelConfigUrl" is_channel_config_url (
        test "nodeId" is_node_id (
          test "nodeLabel" is_node_label (
            test "httpAddress" (null_or is_address) (
              test "webSocketAddress" (null_or is_address) (
                test "publicUdpSocketAddress" (null_or is_address) (
                  test "isMessageProxy" (optional is_boolean) (
                    test "isDataProxy" (optional is_boolean) (
                      test "isPublic" (optional is_boolean) (
                        test "messageProxyWebsocketNodeIds" (is_array_of is_node_id) (
                          test "dataProxyWebsocketNodeIds" (is_array_of is_node_id)
                            (test "timestamp" is_timestamp done))))))))))))
      x

unfoldable pub is_channel_node_info : Value → Bool
is_channel_node_info x =
    validate_object (test "body" is_channel_node_info_body (test "signature" is_signature done)) x

unfoldable pub is_channel_info : Value → Bool
is_channel_info x = validate_object (test "nodes" (is_array_of is_channel_node_info) done) x

unfoldable pub is_signed_subfeed_message : Value → Bool
is_signed_subfeed_message x =
    validate_object
      (nested "body"
        (test "previousSignature" (optional is_signature) (
          test "messageNumber" is_number (
            test "message" is_object
              (test "timestamp" is_timestamp (test "metaData" (optional is_object) done)))))
        (test "signature" is_signature done))
      x

unfoldable pub is_subfeed_access_rule : Value → Bool
is_subfeed_access_rule x =
    validate_object (test "nodeId" is_node_id (test "write" is_boolean done)) x

unfoldable pub is_subfeed_access_rules : Value → Bool
is_subfeed_access_rules x =
    validate_object (test "rules" (is_array_of is_subfeed_access_rule) done) x

unfoldable pub is_subfeed_watch : Value → Bool
is_subfeed_watch x =
    validate_object
      (test "feedId" is_feed_id
        (test "subfeedHash" is_subfeed_hash (test "position" is_subfeed_position done)))
      x

unfoldable pub is_subfeed_watches : Value → Bool
is_subfeed_watches x = is_object_of is_subfeed_watch_name is_subfeed_watch x

unfoldable pub is_file_manifest_chunk : Value → Bool
is_file_manifest_chunk x =
    validate_object
      (test "start" is_byte_count (test "end" is_byte_count (test "sha1" is_sha1_hash done))) x

unfoldable pub is_file_manifest : Value → Bool
is_file_manifest x =
    validate_object
      (test "size" is_byte_count
        (test "sha1" is_sha1_hash (test "chunks" (is_array_of is_file_manifest_chunk) done)))
      x
