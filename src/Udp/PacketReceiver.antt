-- ===== src/Udp/PacketReceiver.antt =====
-- daemon/src/udp/UdpPacketReceiver.ts: packets of the socket, and their confirmations. `parse_header` is
-- `toString`, `trimEnd` and `tryParseJsonObject` on the bytes of a header.
pub mod Exchange
use kachery_p2p.Base.{
  ℕ, suc, ◌+◌, ◌-◌, ◌%◌, Bool, true, false, ◌&&◌, List, [], ◌∷◌, ◌++◌, map, Option, none, some,
  String, take, drop, if◌then◌else◌, ◌==◌, string_eq, nat_eq,
}
use kachery_p2p.Stream.{Buffer}
use kachery_p2p.Json
use kachery_p2p.Json.{Value, string, boolean}
use kachery_p2p.Json.Requests.{protocol_version}
use kachery_p2p.Json.Messages.{is_udp_packet_sender_header}
use kachery_p2p.Udp.{Address}
use kachery_p2p.Udp.PacketSender.{udp_packet_header_size, packet_header, pad_end}

-- What is done outside: a packet on the socket, or a call of a callback.
pub data Action : Type 0 where
  reply : Buffer → Address → Action
  packet_to : (callback : ℕ) (packet_id : String) → Buffer → Address → Action
  confirmation_to : (callback : ℕ) (packet_id : String) → Action

pub record UdpPacketReceiver : Type 0 where
  pub on_packet_callbacks : List ℕ
  pub on_confirmation_callbacks : List ℕ
  pub num_packets_received : ℕ
  pub actions : List Action

-- The text of a value; the check of the header has passed.
abbrev pub text_of : Value → String
text_of (string s) = s
text_of _ = ""

abbrev pub is_true : Value → Bool
is_true (boolean b) = b
is_true _ = false

-- `udpPacketLossNum`: every so many packets, one is lost on purpose; 0 is no loss.
unfoldable pub is_lost : (loss_num num_packets_received : ℕ) → Bool
is_lost loss_num n = if loss_num == 0 then false else (n - 1) % loss_num == loss_num - 1

-- `header.protocolVersion + ''`, where it is a text; another value is not that of this version.
abbrev pub is_this_version : Value → Bool
is_this_version (string s) = s == protocol_version
is_this_version _ = false

module _ (parse_header : Buffer → Option Value) (stringify : Value → Buffer)
    (this_node_id : String) where
  -- The bytes of a confirmation.
  unfoldable pub confirmation_bytes : (packet_id to_node_id : String) → Buffer
  confirmation_bytes packet_id to_node_id =
      pad_end udp_packet_header_size
        (stringify (packet_header packet_id this_node_id to_node_id true))

  -- The rest of the callback, for a header that has passed the checks.
  unfoldable pub handle_header :
      UdpPacketReceiver → (header : Value) (data_buffer : Buffer) (remote : Address) → List Action
  handle_header r header data_buffer remote =
      let packet_id = text_of (Json.get header "packetId") in
      let from_node_id = text_of (Json.get header "fromNodeId") in
      if is_true (Json.get header "isConfirmation")
      then map (λ cb. confirmation_to cb packet_id) r.on_confirmation_callbacks
      else reply (confirmation_bytes packet_id from_node_id) remote
        ∷ map (λ cb. packet_to cb packet_id data_buffer remote) r.on_packet_callbacks

  abbrev pub actions_for : UdpPacketReceiver → Buffer → Address → List Action
  actions_for r message remote = elim (parse_header (take udp_packet_header_size message)) [
    | none ↦ []
    | some header ↦
        if is_this_version (Json.get header "protocolVersion") && is_udp_packet_sender_header header
        then handle_header r header (drop udp_packet_header_size message) remote
        else []
  ]

  -- The callback of the socket.
  unfoldable pub on_message :
      (loss_num : ℕ) → UdpPacketReceiver → (message : Buffer) (remote : Address) → UdpPacketReceiver
  on_message loss_num r message remote =
      let n = suc r.num_packets_received in
      record r {
        num_packets_received = n;
        actions = r.actions ++ (if is_lost loss_num n then [] else actions_for r message remote);
      }
