-- ===== src/Udp/Duplicates.antt =====
-- PublicUdpSocketServer: a packet that comes twice.
use kachery_p2p.Base.{ℕ, ◌≡◌, refl, Bool, true, Option, String, arith, string_eq}
use kachery_p2p.Base.Maps.{IsMap, has_of_get}
use kachery_p2p.GarbageMap
use kachery_p2p.GarbageMap.{GarbageMap}
use kachery_p2p.GarbageMap.Laws.{set-keeps_self}
use kachery_p2p.Stream.{Buffer}
use kachery_p2p.Udp.{Address, UdpBody, UdpHeader}
use kachery_p2p.Udp.Receiver.{Receiver, receive_udp_packet}

module _ (verify : UdpBody → (signature node_id : String) → Bool)
    (parse_header : Buffer → Option UdpHeader) where
  receive-received :
      (now : ℕ) (r : Receiver verify) (packet_id : String) (packet : Buffer)
      (remote_address : Option Address) (check_from : Option String)
      → IsMap r.received_udp_packets.entries
      → GarbageMap.has
          (receive_udp_packet verify parse_header now r packet_id packet remote_address
            check_from).received_udp_packets
          packet_id
        ≡ true
  unfolding receive_udp_packet GarbageMap.has
  receive-received now r packet_id packet remote_address check_from h =
      let kept = set-keeps_self now r.received_udp_packets packet_id true h in
      let there =
        has_of_get packet_id (GarbageMap.set now r.received_udp_packets packet_id true).entries _
          kept in
      ground (arith, there)

  -- A packet that comes again, such as one whose confirmation was lost, is ignored, whatever it holds
  -- and wherever it comes from: the receiver stays as the first one left it.
  pub duplicate_is_ignored :
      (now later : ℕ) (r : Receiver verify) (packet_id : String) (packet packet' : Buffer)
      (remote_address remote_address' : Option Address) (check_from check_from' : Option String)
      → IsMap r.received_udp_packets.entries
      → receive_udp_packet verify parse_header later
          (receive_udp_packet verify parse_header now r packet_id packet remote_address check_from)
          packet_id
          packet'
          remote_address'
          check_from'
        ≡ receive_udp_packet verify parse_header now r packet_id packet remote_address check_from
  unfolding receive_udp_packet
  duplicate_is_ignored now later r packet_id packet packet' remote_address remote_address'
        check_from check_from' h =
      rw (receive_udp_packet, receive-received now r packet_id packet remote_address check_from h)
        refl
