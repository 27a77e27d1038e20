-- ===== src/Tests/Udp.antt =====
-- Messages over UDP and their theorems on concrete inputs.
use kachery_p2p.Base.{
  Bool, true, false, string_eq, ◌==◌, map, ◌++◌, ℕ, zero, suc, ◌<◌, ◌≤◌, ◌≡◌, refl, inl, inr, false,
  List, [], ◌∷◌, none, String, arith, All, length,
}
use kachery_p2p.Base.Maps
use kachery_p2p.GarbageMap
use kachery_p2p.GarbageMap.{GarbageMap}
use kachery_p2p.Stream.{Buffer}
use kachery_p2p.Udp.{stream_data_chunk, UdpBody}
use kachery_p2p.Udp.Parts
use kachery_p2p.Udp.Parts.{
  Envelope, concat, cut, buffers_of, part_size, part_of, number_parts, create_udp_message_parts,
}
use kachery_p2p.Udp.PartManager.{
  MessagePartData, UdpMessagePartManager, new_part_manager, on_message_complete,
}
use kachery_p2p.Udp.Transfer
use kachery_p2p.Udp.Transfer.{Packet, handle_packets, sent_data, message_call, arrival_of}
use kachery_p2p.Udp.Held.{Holds}
use kachery_p2p.Udp.Assembly
use kachery_p2p.Udp.Assembly.{Arrival, Completes, Arrives, add_all}

-- Five bytes in pieces of at most two.
cut_five : cut 5 2 0 (1 ∷ 2 ∷ 3 ∷ 4 ∷ 5 ∷ []) ≡ (1 ∷ 2 ∷ []) ∷ (3 ∷ 4 ∷ []) ∷ (5 ∷ []) ∷ []
unfolding cut
cut_five = refl

abbrev some_bytes : Buffer
some_bytes = 1 ∷ 2 ∷ 3 ∷ []

buffers_of_lem_example :
    (concat (buffers_of some_bytes) ≡ some_bytes)
    × (0 < length (buffers_of some_bytes))
    × All (λ b. length b ≤ part_size) (buffers_of some_bytes)
buffers_of_lem_example = Parts.buffers_of_lem some_bytes

abbrev some_envelope : Envelope
some_envelope = record {
  udp_message_id = "abcdefghij";
  protocol_version = "kachery-p2p-7";
  node_id = "node";
  to_address = none;
  udp_message_type = stream_data_chunk;
  meta_data = "{}";
  payload_is_json = false;
}

abbrev sign_by_id : UdpBody → String
sign_by_id body = body.udp_message_id

abbrev part_data : ℕ → Buffer → MessagePartData
part_data i b = record { header = (part_of sign_by_id some_envelope i 2 b).header; buffer = b }

abbrev two_parts : List MessagePartData
two_parts = part_data 0 (1 ∷ 2 ∷ []) ∷ part_data 1 (3 ∷ []) ∷ []

abbrev part_manager : UdpMessagePartManager
part_manager = on_message_complete (new_part_manager 0) 7

-- The second part comes first.
abbrev two_packets : List (Arrival "abcdefghij" two_parts 0 1800000)
two_packets =
    record { now = 10; remote_address = none; part_index = 1; part = part_data 1 (3 ∷ []) }
    ∷ record { now = 20; remote_address = none; part_index = 0; part = part_data 0 (1 ∷ 2 ∷ []) }
    ∷ []

manager-Holds : Holds "abcdefghij" two_parts 0 1800000 [] part_manager.message_parts
unfolding new_part_manager on_message_complete GarbageMap.new_garbage_map Maps.get
manager-Holds = record {
  distinct = tt;
  limit = refl;
  stored = λ i m. absurd (ground arith);
  absent = λ i m. refl;
}

both_arrive : (j : ℕ) → j < 2 → Arrives "abcdefghij" two_parts 0 1800000 j two_packets
both_arrive zero h = inr (inl refl)
both_arrive (suc zero) h = inl refl
both_arrive (suc (suc j)) h = absurd (omega arith)

add_all-Completes_example :
    Completes "abcdefghij" two_parts 0 1800000 part_manager
      (add_all "abcdefghij" two_parts 0 1800000 part_manager two_packets)
add_all-Completes_example =
    Assembly.add_all-Completes "abcdefghij" two_parts 0 1800000 part_manager two_packets
      (omega arith) manager-Holds
      (
        record { late = omega arith; soon = omega arith; part = refl },
        (record { late = omega arith; soon = omega arith; part = refl }, tt),
      )
      (refl, (refl, tt)) both_arrive

-- Three bytes are one part, which arrives once.
abbrev one_packet : List Packet
one_packet =
    record {
      now = 10;
      remote_address = none;
      part = part_of sign_by_id some_envelope 0 1 some_bytes;
    }
    ∷ []

abbrev accept_by_id : UdpBody → (signature node_id : String) → Bool
accept_by_id body signature node_id = signature == body.udp_message_id

one_sent :
    create_udp_message_parts sign_by_id some_envelope some_bytes
    ≡ part_of sign_by_id some_envelope 0 1 some_bytes ∷ []
unfolding create_udp_message_parts number_parts buffers_of cut
one_sent = refl

one-Holds :
    Holds "abcdefghij"
      (sent_data sign_by_id accept_by_id some_envelope some_bytes 0 1800000)
      0
      1800000
      []
      part_manager.message_parts
unfolding new_part_manager on_message_complete GarbageMap.new_garbage_map Maps.get
one-Holds = record {
  distinct = tt;
  limit = refl;
  stored = λ i m. absurd (ground arith);
  absent = λ i m. refl;
}

packet_comes :
    (j : ℕ)
    → j < 1
    → Arrives "abcdefghij"
        (sent_data sign_by_id accept_by_id some_envelope some_bytes 0 1800000)
        0
        1800000
        j
        (map (arrival_of sign_by_id accept_by_id some_envelope some_bytes 0 1800000) one_packet)
packet_comes zero lt = inl refl
packet_comes (suc j) lt = absurd (omega arith)

message_is_delivered_example :
    ((handle_packets accept_by_id part_manager one_packet).1 ≡ true)
    × ((handle_packets accept_by_id part_manager one_packet).0.calls
        ≡ part_manager.calls
          ++ map
              (message_call sign_by_id accept_by_id some_envelope some_bytes 0 1800000)
              part_manager.on_message_complete_callbacks)
unfolding create_udp_message_parts number_parts buffers_of cut
message_is_delivered_example =
    Transfer.message_is_delivered sign_by_id accept_by_id some_envelope some_bytes 0 1800000
      part_manager one_packet (λ ii n b. refl) one-Holds
      (record { late = omega arith; soon = omega arith; part = refl }, tt) (refl, tt) packet_comes
