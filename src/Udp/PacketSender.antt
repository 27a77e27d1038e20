-- ===== src/Udp/PacketSender.antt =====
-- daemon/src/udp/UdpPacketSender.ts: packets that are sent until they are confirmed, and sent another way
-- where they are not. The congestion manager (Udp/Congestion) calls `try_send`, and passes on how the
-- promise of it settles. The fields `confirmed` and `cancelled` of the source are never set.
pub mod Outcomes
use kachery_p2p.Base.{
  ℕ, zero, suc, ◌+◌, ◌-◌, ◌*◌, Bool, true, false, not, ◌&&◌, List, [], ◌∷◌, ◌++◌, map, Option, none,
  some, String, length, if◌then◌else◌, ◌==◌, string_eq, nat_eq,
}
use kachery_p2p.GarbageMap
use kachery_p2p.GarbageMap.{GarbageMap}
use kachery_p2p.Base.Maps
use kachery_p2p.Stream.{Buffer}
use kachery_p2p.Json.{Value, string, boolean, object, field, no_field}
use kachery_p2p.Json.Requests.{protocol_version}
use kachery_p2p.Udp.{Address}
use kachery_p2p.Udp.Congestion.{Settlement, confirmed, timed_out, failed}

abbrev pub udp_packet_header_size : ℕ
udp_packet_header_size = 500

-- `UdpPacketSenderHeader`, as the object that is written.
abbrev pub packet_header :
    (packet_id from_node_id to_node_id : String) (is_confirmation : Bool) → Value
packet_header packet_id from_node_id to_node_id is_confirmation = object (
    field "protocolVersion" (string protocol_version) (
      field "packetId" (string packet_id) (
        field "fromNodeId" (string from_node_id) (
          field "toNodeId" (string to_node_id)
            (field "isConfirmation" (boolean is_confirmation) no_field)))))

unfoldable pub spaces : ℕ → Buffer
spaces zero = []
spaces (suc n) = b' ' ∷ spaces n

-- `padEnd`
unfoldable pub pad_end : ℕ → Buffer → Buffer
pad_end n b = b ++ spaces (n - length b)

-- What is done outside: a packet on the socket, or by the fallback.
pub data Sending : Type 0 where
  by_socket : Buffer → (timeout_msec : ℕ) → Sending
  by_fallback : Buffer → Sending

pub record OutgoingPacket : Type 0 where
  pub packet_id : String
  pub address : Option Address
  pub buffer : Buffer
  -- whether `onConfirmed` and `onCancelled` are set, by a try
  pub tried : Bool
  pub completed : Bool
  pub outcome : Option Settlement
  pub sendings : List Sending

unfoldable pub new_outgoing_packet : (packet_id : String) → Option Address → Buffer → OutgoingPacket
new_outgoing_packet packet_id address buffer = record {
  packet_id = packet_id;
  address = address;
  buffer = buffer;
  tried = false;
  completed = false;
  outcome = none;
  sendings = [];
}

-- `_fallbackSendPacket`
abbrev pub fallback : OutgoingPacket → OutgoingPacket
fallback p = record p { sendings = p.sendings ++ by_fallback p.buffer ∷ [] }

-- The `try` of `send`: whatever the promise is rejected with, the packet goes to the fallback.
abbrev pub after_try : OutgoingPacket → Settlement → OutgoingPacket
after_try p confirmed = p
after_try p timed_out = fallback p
after_try p (failed error) = fallback p

-- The promise of a try settles, if it has not done so before.
unfoldable pub settle_try : OutgoingPacket → Settlement → OutgoingPacket
settle_try p how =
    if p.completed then p else after_try (record p { completed = true; outcome = some how }) how

-- The first part of `send`: without an address the packet goes to the fallback; with one it is given to
-- the congestion manager of the address.
unfoldable pub begin_send : OutgoingPacket → OutgoingPacket
begin_send p = elim p.address [ none ↦ fallback p | some address ↦ p ]

-- Whether the address has a host name that is not empty and a port that is not 0.
unfoldable pub has_target : Option Address → Bool
has_target none = false
has_target (some a) = elim a.host_name [
  | none ↦ false
  | some name ↦ not (name == "") && elim a.port [ none ↦ false | some port ↦ not (port == 0) ]
]

module _ (stringify : Value → Buffer) (this_node_id to_node_id : String) where
  -- The bytes of a packet.
  unfoldable pub packet_bytes : OutgoingPacket → Buffer
  packet_bytes p =
      pad_end udp_packet_header_size
        (stringify (packet_header p.packet_id this_node_id to_node_id false))
      ++ p.buffer

  -- `_trySend`
  unfoldable pub try_send : (timeout_msec : ℕ) → OutgoingPacket → OutgoingPacket
  try_send timeout_msec p =
      let q = record p { tried = true; completed = false; outcome = none } in
      if has_target p.address
      then record q { sendings = p.sendings ++ by_socket (packet_bytes p) timeout_msec ∷ [] }
      else settle_try q (failed "Unexpected udp address")

-- `confirm` and `cancel`, the timer of a try, and the callback of the socket.
unfoldable pub confirm : OutgoingPacket → OutgoingPacket
confirm p = if p.tried then settle_try p confirmed else p

unfoldable pub cancel : OutgoingPacket → OutgoingPacket
cancel p = if p.tried then settle_try p (failed "Canceled") else p

unfoldable pub time_out : OutgoingPacket → OutgoingPacket
time_out p = settle_try p timed_out

unfoldable pub socket_sent :
    (error : Option String) (num_bytes_sent num_bytes : ℕ) → OutgoingPacket → OutgoingPacket
socket_sent (some e) sent n p = settle_try p (failed e)
socket_sent none sent n p = if sent == n then p else settle_try p (failed "unexpected numBytesSent")

-- The packets that are sent, and those that wait for a confirmation.
pub record UdpPacketSender : Type 0 where
  pub unconfirmed_outgoing_packets : GarbageMap String String
  pub packets : List (String × OutgoingPacket)

-- `receivePacketConfirmation`: the map holds the packet, which is changed where it is.
unfoldable pub receive_packet_confirmation :
    ℕ → UdpPacketSender → (packet_id : String) → UdpPacketSender
receive_packet_confirmation now s packet_id =
    let r = GarbageMap.get now s.unconfirmed_outgoing_packets packet_id in
    elim r.1 [
      | none ↦ record s { unconfirmed_outgoing_packets = r.0 }
      | some id ↦ record {
        unconfirmed_outgoing_packets = GarbageMap.delete now r.0 packet_id;
        packets = elim (Maps.get id s.packets) [
          | none ↦ s.packets
          | some p ↦ Maps.set id (confirm p) s.packets
        ];
      }
    ]
