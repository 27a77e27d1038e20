-- ===== src/Tests/Packets.antt =====
-- Packets and their confirmations on concrete inputs.
use kachery_p2p.Base.{
  ◌≡◌, refl, true, false, List, [], ◌∷◌, Option, none, some, String, arith, ◌==◌, if◌then◌else◌,
  string_eq, nat_eq,
}
use kachery_p2p.Stream.{Buffer}
use kachery_p2p.Json
use kachery_p2p.Json.{Value, string, boolean}
use kachery_p2p.Udp.{Address}
use kachery_p2p.Udp.PacketSender.{
  OutgoingPacket, new_outgoing_packet, packet_header, try_send, packet_bytes, by_socket,
  by_fallback, pad_end, spaces, has_target,
}
use kachery_p2p.Udp.PacketSender.Outcomes
use kachery_p2p.Udp.PacketSender.Outcomes.{
  confirms, cancels, times_out, socket_sends, handle_all, Event, first_settlement,
}
use kachery_p2p.Udp.PacketReceiver.{
  UdpPacketReceiver, reply, packet_to, confirmation_to, on_message, confirmation_bytes, is_lost,
}
use kachery_p2p.Udp.PacketReceiver.Exchange

abbrev there_address : Address
there_address = record { host_name = some "there"; port = some 9; url = none }

abbrev here_address : Address
here_address = record { host_name = some "here"; port = some 8; url = none }

-- A header is written as one byte.
abbrev toy_stringify : Value → Buffer
toy_stringify x = if Json.truthy (Json.get x "isConfirmation") then b'c' ∷ [] else b'd' ∷ []

abbrev some_packet : OutgoingPacket
some_packet = new_outgoing_packet "abcdefghij" (some there_address) (1 ∷ 2 ∷ [])

-- The timer, and then a confirmation that comes too late.
abbrev late_confirmation : List Event
late_confirmation = socket_sends none 502 502 ∷ times_out ∷ confirms ∷ []

first_settlement_decides_example :
    ((handle_all (try_send toy_stringify "a" "b" 1000 some_packet) late_confirmation).outcome
      ≡ first_settlement late_confirmation)
    × ((handle_all (try_send toy_stringify "a" "b" 1000 some_packet) late_confirmation).sendings
        ≡ by_socket (packet_bytes toy_stringify "a" "b" some_packet) 1000
          ∷ by_fallback (1 ∷ 2 ∷ [])
          ∷ [])
unfolding new_outgoing_packet has_target
first_settlement_decides_example =
    Outcomes.first_settlement_decides toy_stringify "a" "b" 1000 some_packet late_confirmation refl

abbrev here_id : String
here_id = "abababababababababababababababababababababababababababababababab"

abbrev there_id : String
there_id = "cdcdcdcdcdcdcdcdcdcdcdcdcdcdcdcdcdcdcdcdcdcdcdcdcdcdcdcdcdcdcdcd"

-- The header that stands for a byte.
abbrev toy_parse : Buffer → Option Value
toy_parse (c ∷ cs) =
    if c == b'c'
    then some (packet_header "abcdefghij" there_id here_id true)
    else some (packet_header "abcdefghij" here_id there_id false)
toy_parse [] = none

abbrev receiver : UdpPacketReceiver
receiver = record {
  on_packet_callbacks = 4 ∷ [];
  on_confirmation_callbacks = 5 ∷ [];
  num_packets_received = 0;
  actions = [];
}

packet_is_confirmed_example :
    ((on_message toy_parse toy_stringify there_id 0 receiver
        (packet_bytes toy_stringify here_id there_id some_packet)
        here_address).actions
      ≡ reply
          (confirmation_bytes toy_parse toy_stringify there_id "abcdefghij" here_id)
          here_address
        ∷ packet_to 4 "abcdefghij" (1 ∷ 2 ∷ []) here_address
        ∷ [])
    × ((on_message toy_parse toy_stringify here_id 0 receiver
          (confirmation_bytes toy_parse toy_stringify there_id "abcdefghij" here_id)
          there_address).actions
        ≡ confirmation_to 5 "abcdefghij" ∷ [])
unfolding new_outgoing_packet Json.get Json.properties Json.entries_of Json.find_property
    Json.truthy Json.Types.is_node_id Json.Types.is_hexadecimal Json.RequestData.is_packet_id
    Json.Types.is_letter is_lost pad_end spaces
packet_is_confirmed_example =
    Exchange.packet_is_confirmed toy_parse toy_stringify receiver receiver some_packet here_id
      there_id here_address there_address 0 0 (record { fits = omega arith; read = refl })
      (record { fits = omega arith; read = refl }) refl refl refl refl refl
