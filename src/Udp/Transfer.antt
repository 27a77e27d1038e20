-- ===== src/Udp/Transfer.antt =====
-- A message from its sender to its receiver: `_createUdpMessageParts`, then `_handleMessagePart` of the
-- parts as they arrive.
use kachery_p2p.Base.{
  ℕ, zero, suc, ◌+◌, ◌≤◌, ◌<◌, ◌≡◌, refl, ◌∙◌, ap, Bool, true, false, List, [], ◌∷◌, ◌++◌, map,
  Option, some, String, arith, length, get_elem?, head?, All,
}
use kachery_p2p.Stream.{Buffer}
use kachery_p2p.Udp.{Address, UdpBody, UdpMessagePart}
use kachery_p2p.Udp.Parts.{
  Envelope, concat, buffers_of, buffers_of_lem, part_of, number_parts, create_udp_message_parts,
}
use kachery_p2p.Udp.PartManager.{MessagePartData, Call, UdpMessagePartManager}
use kachery_p2p.Udp.Receiver.{handle_message_part}
use kachery_p2p.Udp.Held.{Holds}
use kachery_p2p.Udp.Assembly
use kachery_p2p.Udp.Assembly.{Arrival, IsGenuine, IsApart, Arrives, Completes, add, add_all}

abbrev pub data_of : UdpMessagePart → MessagePartData
data_of p = record { header = p.header; buffer = p.data_buffer }

-- A part that arrives: when, and from where.
pub record Packet : Type 0 where
  pub now : ℕ
  pub remote_address : Option Address
  pub part : UdpMessagePart

module _ (verify : UdpBody → (signature node_id : String) → Bool) where
  -- The receiver's handling of packets; false if one throws.
  unfoldable pub handle_packets : UdpMessagePartManager → List Packet → UdpMessagePartManager × Bool
  handle_packets m [] = (m, true)
  handle_packets m (p ∷ packets) =
      let r =
        handle_message_part verify p.now m p.remote_address p.part.header p.part.data_buffer in
      elim r.1 [ false ↦ r | true ↦ handle_packets r.0 packets ]

module _ (sign : UdpBody → String) (env : Envelope) where
  number_parts-part :
      (ii n i : ℕ) (bs : List Buffer) (p : UdpMessagePart)
      → get_elem? (number_parts sign env ii n bs) i ≡ some p
      → (b : Buffer) × (p ≡ part_of sign env (ii + i) n b)
  unfolding number_parts
  number_parts-part ii n i [] p h = cc
  number_parts-part ii n zero (b ∷ bs) p h = (b, ground arith)
  number_parts-part ii n (suc i) (b ∷ bs) p h =
      let (c, e) = number_parts-part (suc ii) n i bs p h in (c, ground (arith, e))

  number_parts-buffers :
      (ii n : ℕ) (bs : List Buffer)
      → map (λ d. d.buffer) (map data_of (number_parts sign env ii n bs)) ≡ bs
  unfolding number_parts
  number_parts-buffers ii n [] = refl
  number_parts-buffers ii n (b ∷ bs) = ap (◌∷◌ b) (number_parts-buffers (suc ii) n bs)

  number_parts-length :
      (ii n : ℕ) (bs : List Buffer)
      → length (map data_of (number_parts sign env ii n bs)) ≡ length bs
  unfolding number_parts
  number_parts-length ii n [] = refl
  number_parts-length ii n (b ∷ bs) = ap suc (number_parts-length (suc ii) n bs)

get_elem?-map :
    (ps : List UdpMessagePart) (i : ℕ) (p : UdpMessagePart)
    → get_elem? ps i ≡ some p
    → get_elem? (map data_of ps) i ≡ some (data_of p)
get_elem?-map [] i p h = cc
get_elem?-map (q ∷ ps) zero p h = ground arith
get_elem?-map (q ∷ ps) (suc i) p h = get_elem?-map ps i p h

module _ (sign : UdpBody → String) (verify : UdpBody → (signature node_id : String) → Bool)
    (env : Envelope) (bytes : Buffer) (start timeout : ℕ) where
  abbrev pub sent : List UdpMessagePart
  sent = create_udp_message_parts sign env bytes

  abbrev pub sent_data : List MessagePartData
  sent_data = map data_of sent

  -- The packet is one of the parts, under its own index, and arrives within the lifetime of a part.
  pub record IsSent (p : Packet) : Type 0 where
    pub late : start ≤ p.now
    pub soon : p.now ≤ start + timeout
    pub part : get_elem? sent p.part.header.body.part_index ≡ some p.part

  abbrev pub arrival_of : Packet → Arrival env.udp_message_id sent_data start timeout
  arrival_of p = record {
    now = p.now;
    remote_address = p.remote_address;
    part_index = p.part.header.body.part_index;
    part = data_of p.part;
  }

  -- Every signature of the sender is accepted.
  abbrev pub IsAccepted : Type 0
  IsAccepted =
      (ii n : ℕ) (b : Buffer)
      → verify (part_of sign env ii n b).header.body (part_of sign env ii n b).header.signature
          env.node_id
        ≡ true

  handle_is_add :
      (m : UdpMessagePartManager) (p : Packet)
      → IsAccepted
      → IsSent p
      → handle_message_part verify p.now m p.remote_address p.part.header p.part.data_buffer
        ≡ (add env.udp_message_id sent_data start timeout m (arrival_of p), true)
  unfolding handle_message_part create_udp_message_parts
  handle_is_add m p accepted s =
      let bs = buffers_of bytes in
      let i = p.part.header.body.part_index in
      let (b, e) = number_parts-part sign env 0 (length bs) i bs p.part s.part in
      let total = number_parts-length sign env 0 (length bs) bs in
      ground (arith, e, total, accepted (0 + i) (length bs) b)

  arrival-IsGenuine :
      (p : Packet) → IsSent p → IsGenuine env.udp_message_id sent_data start timeout (arrival_of p)
  arrival-IsGenuine p s = record {
    late = s.late;
    soon = s.soon;
    part = get_elem?-map sent p.part.header.body.part_index p.part s.part;
  }

  arrivals-IsGenuine :
      (packets : List Packet)
      → All IsSent packets
      → All (IsGenuine env.udp_message_id sent_data start timeout) (map arrival_of packets)
  arrivals-IsGenuine [] s = tt
  arrivals-IsGenuine (p ∷ packets) s = (arrival-IsGenuine p s.0, arrivals-IsGenuine packets s.1)

  handle_packets-add_all :
      (m : UdpMessagePartManager) (packets : List Packet)
      → IsAccepted
      → All IsSent packets
      → handle_packets verify m packets
        ≡ (add_all env.udp_message_id sent_data start timeout m (map arrival_of packets), true)
  unfolding handle_packets add_all
  handle_packets-add_all m [] accepted s = refl
  handle_packets-add_all m (p ∷ packets) accepted s =
      let next = add env.udp_message_id sent_data start timeout m (arrival_of p) in
      rw (handle_packets, handle_is_add m p accepted s.0, handle_is_add m p accepted s.0)
        (handle_packets-add_all next packets accepted s.1)

  -- What a callback is called with: the header of the first part, and the message.
  abbrev pub message_call : ℕ → Call
  message_call cb = record {
    callback = cb;
    header = head? (map (λ d. d.header) sent_data);
    full_buffer = bytes;
  }

  full_buffer-bytes : concat (map (λ d. d.buffer) sent_data) ≡ bytes
  unfolding create_udp_message_parts
  full_buffer-bytes =
      ap concat (number_parts-buffers sign env 0 (length (buffers_of bytes)) (buffers_of bytes))
      ∙ (buffers_of_lem bytes).0

  sent-positive : 0 < length sent_data
  unfolding create_udp_message_parts
  sent-positive =
      let total = number_parts-length sign env 0 (length (buffers_of bytes)) (buffers_of bytes) in
      let some_buffer = (buffers_of_lem bytes).1 in ground (arith, total, some_buffer)

  -- A message arrives. Its bytes are cut into signed parts, and the packets of the parts arrive in any
  -- order, each exactly once and all within the lifetime of a part, at a receiver that holds no part
  -- of the message and accepts the signatures of the sender. Then no packet is refused, and each
  -- callback of the receiver has been called exactly once more, with the header of the first part and
  -- with exactly the bytes that were sent.
  pub message_is_delivered :
      (m : UdpMessagePartManager) (packets : List Packet)
      → IsAccepted
      → Holds env.udp_message_id sent_data start timeout [] m.message_parts
      → All IsSent packets
      → IsApart env.udp_message_id sent_data start timeout [] (map arrival_of packets)
      → ((j : ℕ)
          → j < length sent_data
          → Arrives env.udp_message_id sent_data start timeout j (map arrival_of packets))
      → ((handle_packets verify m packets).1 ≡ true)
        × ((handle_packets verify m packets).0.calls
            ≡ m.calls ++ map message_call m.on_message_complete_callbacks)
  message_is_delivered m packets accepted h s apart every =
      let handled = handle_packets-add_all m packets accepted s in
      let completes =
        Assembly.add_all-Completes env.udp_message_id sent_data start timeout m
          (map arrival_of packets) sent-positive h (arrivals-IsGenuine packets s) apart every in
      (
        ap (λ r. r.1) handled,
        ap (λ r. r.0.calls) handled
            ∙ completes.called
            ∙ ap
                (λ b.
                  m.calls
                  ++ map
                      (λ cb. record {
                        callback = cb;
                        header = head? (map (λ d. d.header) sent_data);
                        full_buffer = b;
                      })
                      m.on_message_complete_callbacks)
                full_buffer-bytes,
      )
