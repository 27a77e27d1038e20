-- ===== src/Tests/Congestion.antt =====
-- The congestion manager and its theorems on concrete inputs.
use kachery_p2p.Base.{◌<◌, ◌≡◌, refl, [], ◌∷◌, ◌++◌}
use kachery_p2p.Base.Maps
use kachery_p2p.Udp.Trial.{
  reset, compute_num_unconfirmed_bytes, report_sent, report_confirmed, median, whole,
}
use kachery_p2p.Udp.Congestion.{
  QueuedPacket, CongestionManager, confirmed, new_congestion_manager, handle_next_packet,
  handle_rounds, update_trial, handle_next_packets, start_packet, send_packet, is_open, settle,
  complete_packet, find_in_flight, land,
}
use kachery_p2p.Udp.Accounting.{trial_bytes_in_flight}
use kachery_p2p.Udp.Pacing
use kachery_p2p.Udp.Pacing.{Reachable, fresh, sends, settles, sent_of}
use kachery_p2p.Udp.Progress

median_of_five : median (30 ∷ 10 ∷ 50 ∷ 20 ∷ 40 ∷ []) ≡ whole 30
unfolding median kachery_p2p.Udp.Trial.sort kachery_p2p.Udp.Trial.insert
median_of_five = refl

-- Two packets, the first of which fills the window of 600000 bytes.
abbrev large : QueuedPacket
large = record { internal_id = "a"; packet_id = "packetA"; packet_size = 700000 }

abbrev small : QueuedPacket
small = record { internal_id = "b"; packet_id = "packetB"; packet_size = 100 }

abbrev one_sent : CongestionManager
one_sent = send_packet 1 (new_congestion_manager 0) large

abbrev one_waits : CongestionManager
one_waits = send_packet 2 one_sent small

abbrev one_landed : CongestionManager
one_landed = settle 100 one_waits "a" confirmed

small_waits : one_waits.queued_packets ≡ small ∷ []
unfolding send_packet handle_next_packets update_trial handle_rounds handle_next_packet is_open
    start_packet new_congestion_manager reset report_sent compute_num_unconfirmed_bytes
small_waits = refl

small_goes : one_landed.queued_packets ≡ []
unfolding settle complete_packet find_in_flight land report_confirmed send_packet
    handle_next_packets update_trial handle_rounds handle_next_packet is_open start_packet
    new_congestion_manager reset report_sent compute_num_unconfirmed_bytes Maps.has Maps.set
small_goes = refl

waits-Reachable : Reachable (large ∷ small ∷ []) one_waits
unfolding send_packet handle_next_packets update_trial handle_rounds handle_next_packet is_open
    start_packet new_congestion_manager reset report_sent compute_num_unconfirmed_bytes
waits-Reachable = sends (sends (fresh 0) 1 large refl) 2 small refl

landed-Reachable : Reachable (large ∷ small ∷ []) one_landed
landed-Reachable = settles waits-Reachable 100 "a" confirmed

unconfirmed_in_flight_example :
    compute_num_unconfirmed_bytes one_landed.current_trial_data ≡ trial_bytes_in_flight one_landed
unconfirmed_in_flight_example =
    Pacing.unconfirmed_in_flight (large ∷ small ∷ []) one_landed landed-Reachable

sends_in_order_example : sent_of one_landed.log ++ one_landed.queued_packets ≡ large ∷ small ∷ []
sends_in_order_example = Pacing.sends_in_order (large ∷ small ∷ []) one_landed landed-Reachable

queue_never_stalls_example : 0 < trial_bytes_in_flight one_waits
queue_never_stalls_example =
    Progress.queue_never_stalls (large ∷ small ∷ []) one_waits small [] waits-Reachable small_waits
