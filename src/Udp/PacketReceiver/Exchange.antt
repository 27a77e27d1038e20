-- ===== src/Udp/PacketReceiver/Exchange.antt =====
-- A packet from UdpPacketSender to UdpPacketReceiver, and its confirmation on the way back.
use kachery_p2p.Base.{
  ℕ, ◌-◌, ◌≤◌, ◌≡◌, refl, ap, ◌∙◌, Bool, true, false, [], ◌∷◌, ◌++◌, map, append-nil, Option, some,
  String, arith, length, length-append, take, drop, take-append, drop-append, string_eq, subst, suc,
  zero,
}
use text.Mathlib.TextEquality.{eq_iff}
use kachery_p2p.Stream.{Buffer}
use kachery_p2p.Json
use kachery_p2p.Json.{Value, string, boolean, is_equal_to, is_boolean}
use kachery_p2p.Json.Types.{is_node_id}
use kachery_p2p.Json.RequestData.{is_packet_id}
use kachery_p2p.Json.Requests.{protocol_version}
use kachery_p2p.Json.Messages.{is_udp_packet_sender_header}
use kachery_p2p.Udp.{Address}
use kachery_p2p.Udp.PacketSender.{
  OutgoingPacket, udp_packet_header_size, packet_header, spaces, pad_end, packet_bytes,
}
use kachery_p2p.Udp.PacketReceiver.{
  UdpPacketReceiver, reply, packet_to, confirmation_to, is_lost, confirmation_bytes, handle_header,
  on_message,
}

length-spaces : (n : ℕ) → length (spaces n) ≡ n
unfolding spaces
length-spaces zero = refl
length-spaces (suc n) = ap suc (length-spaces n)

length-pad_end : (n : ℕ) (b : Buffer) → length b ≤ n → length (pad_end n b) ≡ n
unfolding pad_end
length-pad_end n b h =
    omega (arith, length-append b (spaces (n - length b)), length-spaces (n - length b))

is_udp_packet_sender_header-packet_header :
    (id from to : String) (is_confirmation : Bool)
    → is_packet_id (string id) ≡ true
    → is_node_id (string from) ≡ true
    → is_node_id (string to) ≡ true
    → is_udp_packet_sender_header (packet_header id from to is_confirmation) ≡ true
unfolding is_udp_packet_sender_header Json.validate_object Json.validate_fields Json.knows_all
    Json.properties Json.entries_of Json.find_property Json.is_object Json.names Json.get
    is_equal_to is_boolean
is_udp_packet_sender_header-packet_header id from to b h k l =
    ground (arith, eq_iff protocol_version protocol_version)

-- What the header says.
packet_header_lem :
    (id from to : String) (is_confirmation : Bool)
    → let header = packet_header id from to is_confirmation in
      (Json.get header "packetId" ≡ string id)
      × (Json.get header "fromNodeId" ≡ string from)
      × (Json.get header "isConfirmation" ≡ boolean is_confirmation)
      × (Json.get header "protocolVersion" ≡ string protocol_version)
unfolding Json.properties Json.entries_of Json.find_property Json.get
packet_header_lem id from to b = (refl, refl, refl, refl)

take-append_of_length :
    (n : ℕ) (xs ys : Buffer) → length xs ≡ n → (take n (xs ++ ys) ≡ xs) × (drop n (xs ++ ys) ≡ ys)
take-append_of_length n xs ys h =
    subst (λ k. (take k (xs ++ ys) ≡ xs) × (drop k (xs ++ ys) ≡ ys)) h
      (take-append xs ys, drop-append xs ys)

module _ (parse_header : Buffer → Option Value) (stringify : Value → Buffer) where
  -- The text of the header fits into the header of a packet, and is read back from it.
  pub record IsWritable (header : Value) : Type 0 where
    pub fits : length (stringify header) ≤ udp_packet_header_size
    pub read : parse_header (pad_end udp_packet_header_size (stringify header)) ≡ some header

  on_message_lem :
      (loss_num : ℕ) (r : UdpPacketReceiver) (this id from to : String) (is_confirmation : Bool)
      (bytes : Buffer) (remote : Address)
      → let header = packet_header id from to is_confirmation in
        IsWritable header
        → is_packet_id (string id) ≡ true
        → is_node_id (string from) ≡ true
        → is_node_id (string to) ≡ true
        → is_lost loss_num (suc r.num_packets_received) ≡ false
        → (on_message parse_header stringify this loss_num r
            (pad_end udp_packet_header_size (stringify header) ++ bytes)
            remote).actions
          ≡ r.actions ++ handle_header parse_header stringify this r header bytes remote
  unfolding on_message
  on_message_lem loss r this id from to b bytes remote w good_id good_from good_to kept =
      let header = packet_header id from to b in
      let padded = pad_end udp_packet_header_size (stringify header) in
      let (front, back) =
        take-append_of_length udp_packet_header_size padded bytes
          (length-pad_end udp_packet_header_size (stringify header) w.fits) in
      ground (
        arith,
        front,
        back,
        w.read,
        packet_header_lem id from to b,
        eq_iff protocol_version protocol_version,
        is_udp_packet_sender_header-packet_header id from to b good_id good_from good_to,
      )

  -- A packet that arrives, and is not lost on purpose, is given to every callback of the receiver with its
  -- identifier and exactly the bytes that were sent, and one confirmation goes back to where it came from.
  -- When that confirmation arrives at the sender's receiver, the identifier of the packet is given to
  -- every callback for confirmations, and nothing is sent: a confirmation is not confirmed. The
  -- identifiers have the right form, and the headers can be written and read back.
  pub packet_is_confirmed :
      (here there : UdpPacketReceiver) (p : OutgoingPacket) (from to : String)
      (from_address to_address : Address) (loss_here loss_there : ℕ)
      → IsWritable (packet_header p.packet_id from to false)
      → IsWritable (packet_header p.packet_id to from true)
      → is_packet_id (string p.packet_id) ≡ true
      → is_node_id (string from) ≡ true
      → is_node_id (string to) ≡ true
      → is_lost loss_there (suc there.num_packets_received) ≡ false
      → is_lost loss_here (suc here.num_packets_received) ≡ false
      → let confirmation = confirmation_bytes parse_header stringify to p.packet_id from in
        ((on_message parse_header stringify to loss_there there
            (packet_bytes stringify from to p)
            from_address).actions
          ≡ there.actions
            ++ reply confirmation from_address
              ∷ map
                  (λ cb. packet_to cb p.packet_id p.buffer from_address)
                  there.on_packet_callbacks)
        × ((on_message parse_header stringify from loss_here here confirmation to_address).actions
            ≡ here.actions
              ++ map (λ cb. confirmation_to cb p.packet_id) here.on_confirmation_callbacks)
  unfolding packet_bytes confirmation_bytes handle_header
  packet_is_confirmed here there p from to from_address to_address loss_here loss_there w v id
        good_from good_to kept_there kept_here =
      let padded =
        pad_end udp_packet_header_size (stringify (packet_header p.packet_id to from true)) in
      (
        on_message_lem loss_there there to p.packet_id from to false p.buffer from_address w id
              good_from good_to kept_there
            ∙ ground (arith, packet_header_lem p.packet_id from to false),
        subst
            (λ b.
              (on_message parse_header stringify from loss_here here b to_address).actions
              ≡ here.actions
                ++ map (λ cb. confirmation_to cb p.packet_id) here.on_confirmation_callbacks)
            (append-nil padded)
            (on_message_lem loss_here here from p.packet_id to from true [] to_address v id good_to
                good_from kept_here
              ∙ ground (arith, packet_header_lem p.packet_id to from true)),
      )
