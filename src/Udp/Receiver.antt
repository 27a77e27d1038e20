-- ===== src/Udp/Receiver.antt =====
-- daemon/src/services/PublicUdpSocketServer.ts: `_receiveUdpPacket` and `_handleMessagePart`.
-- The header of a packet is the JSON text in its first bytes: `parse_header` is `tryParseJsonObject` and
-- the check `isUdpHeader`; `verify` checks the signature of a header by the key of a node.
use kachery_p2p.Base.{
  ℕ, Bool, true, false, Option, none, some, String, take, drop, if◌then◌else◌, ◌==◌, string_eq,
}
use kachery_p2p.GarbageMap
use kachery_p2p.GarbageMap.{GarbageMap}
use kachery_p2p.Stream.{Buffer}
use kachery_p2p.Udp.{Address, UdpBody, UdpHeader, udp_message_header_size}
use kachery_p2p.Udp.PartManager.{UdpMessagePartManager, add_message_part}

module _ (verify : UdpBody → (signature node_id : String) → Bool) where
  -- False where it throws, before anything is changed.
  unfoldable pub handle_message_part :
      ℕ
      → UdpMessagePartManager
      → Option Address
      → UdpHeader
      → (data_buffer : Buffer) → UdpMessagePartManager × Bool
  handle_message_part now m remote_address header data_buffer =
      if verify header.body header.signature header.body.from_node_id
      then (
        add_message_part now m remote_address header.body.udp_message_id header.body.part_index
            header.body.num_parts header data_buffer,
        true,
      )
      else (m, false)

  pub record Receiver : Type 0 where
    pub received_udp_packets : GarbageMap String Bool
    pub message_part_manager : UdpMessagePartManager

  -- Whether the packet may come from the node of its header; none is no check.
  abbrev pub comes_from : (check_from_node_id : Option String) → UdpHeader → Bool
  comes_from none header = true
  comes_from (some node_id) header = node_id == header.body.from_node_id

  -- A packet that was received before is ignored, and so is one without a header.
  unfoldable pub receive_udp_packet :
      (parse_header : Buffer → Option UdpHeader) (now : ℕ)
      → Receiver
      → (packet_id : String) (packet : Buffer) (remote_address : Option Address)
        (check_from_node_id : Option String)
      → Receiver
  receive_udp_packet parse_header now r packet_id packet remote_address check_from =
      if GarbageMap.has r.received_udp_packets packet_id
      then r
      else let received = record r {
        received_udp_packets = GarbageMap.set now r.received_udp_packets packet_id true;
      } in
        elim (parse_header (take udp_message_header_size packet)) [
          | none ↦ received
          | some header ↦
              if comes_from check_from header
              then record received {
                message_part_manager =
                    (handle_message_part now received.message_part_manager remote_address header
                      (drop udp_message_header_size packet)).0;
              }
              else received
        ]
