-- ===== src/Udp/Congestion.antt =====
-- daemon/src/udp/UdpCongestionManager.ts: the queue of packets to one address.
-- A packet whose `send` has been called and has not settled is in flight: `complete` is then false.
-- `log` records the calls of `send`, `onFinished` and `onError`, oldest first.
use kachery_p2p.Base.{
  ℕ, zero, suc, ◌-◌, ◌*◌, Bool, true, false, List, [], ◌∷◌, ◌++◌, Option, none, some, String,
  length, ltb, if◌then◌else◌, ◌==◌, string_eq,
}
use kachery_p2p.Udp.Trial.{
  Ratio, whole, TrialData, reset, compute_num_unconfirmed_bytes, report_sent, report_confirmed,
  report_timed_out, report_error, estimate_roundtrip_latency,
  determine_max_num_bytes_per_second_to_send,
}

pub record QueuedPacket : Type 0 where
  pub internal_id : String
  pub packet_id : String
  pub packet_size : ℕ

pub record PacketInFlight : Type 0 where
  pub packet : QueuedPacket
  pub timer : ℕ

pub data Effect : Type 0 where
  send : QueuedPacket → (timeout_msec : Ratio) → Effect
  finish : QueuedPacket → Effect
  fail_timed_out : QueuedPacket → Effect
  fail : QueuedPacket → (error : String) → Effect

pub record CongestionManager : Type 0 where
  pub max_num_bytes_per_second_to_send : Ratio
  pub estimated_roundtrip_latency_msec : Ratio
  pub current_trial_data : TrialData
  pub queued_packets : List QueuedPacket
  pub in_flight : List PacketInFlight
  pub log : List Effect

abbrev pub trial_duration_msec : ℕ
trial_duration_msec = 5000

unfoldable pub new_congestion_manager : (now : ℕ) → CongestionManager
new_congestion_manager now = record {
  max_num_bytes_per_second_to_send = whole (3 * 1000 * 1000);
  estimated_roundtrip_latency_msec = whole 200;
  current_trial_data = reset now;
  queued_packets = [];
  in_flight = [];
  log = [];
}

abbrev pub write : CongestionManager → Effect → CongestionManager
write m e = record m { log = m.log ++ e ∷ [] }

-- `scaleDurationBy(…, 5)`
abbrev pub packet_timeout : CongestionManager → Ratio
packet_timeout m = record {
  num = m.estimated_roundtrip_latency_msec.num * 5;
  den = m.estimated_roundtrip_latency_msec.den;
}

-- `_sendPacket`, up to the `then` of the promise.
unfoldable pub start_packet : ℕ → CongestionManager → QueuedPacket → CongestionManager
start_packet now m p = record m {
  log = m.log ++ send p (packet_timeout m) ∷ [];
  in_flight = m.in_flight ++ record { packet = p; timer = now } ∷ [];
  current_trial_data = report_sent m.current_trial_data p.internal_id p.packet_size;
}

-- Whether another packet may be sent: fewer bytes are unconfirmed than the rate allows in the time
-- of a round trip.
unfoldable pub is_open : CongestionManager → Bool
is_open m =
    let rate = m.max_num_bytes_per_second_to_send in
    let latency = m.estimated_roundtrip_latency_msec in
    ltb (compute_num_unconfirmed_bytes m.current_trial_data * 1000 * (rate.den * latency.den))
      (rate.num * latency.num)

unfoldable pub handle_next_packet : ℕ → CongestionManager → CongestionManager × Bool
handle_next_packet now m = elim m.queued_packets [
  | [] ↦ (m, false)
  | p ∷ rest ↦
      if is_open m
      then (start_packet now (record m { queued_packets = rest }) p, true)
      else (m, false)
]

-- `while (this._handleNextPacket());` a round takes a packet out of the queue.
unfoldable pub handle_rounds : ℕ → (now : ℕ) → CongestionManager → CongestionManager
handle_rounds zero now m = m
handle_rounds (suc fuel) now m =
    let r = handle_next_packet now m in elim r.1 [ false ↦ r.0 | true ↦ handle_rounds fuel now r.0 ]

-- A trial that has lasted long enough is evaluated, and a new one begins.
unfoldable pub update_trial : ℕ → CongestionManager → CongestionManager
update_trial now m =
    let t = m.current_trial_data in
    let latency = estimate_roundtrip_latency t m.estimated_roundtrip_latency_msec in
    if ltb trial_duration_msec (now - t.timestamp_started)
    then record m {
      estimated_roundtrip_latency_msec = latency;
      max_num_bytes_per_second_to_send =
          determine_max_num_bytes_per_second_to_send t m.max_num_bytes_per_second_to_send latency;
      current_trial_data = reset now;
    }
    else m

unfoldable pub handle_next_packets : ℕ → CongestionManager → CongestionManager
handle_next_packets now m =
    let u = update_trial now m in handle_rounds (length u.queued_packets) now u

-- `sendPacket` of the manager.
unfoldable pub send_packet : ℕ → CongestionManager → QueuedPacket → CongestionManager
send_packet now m p =
    handle_next_packets now (record m { queued_packets = m.queued_packets ++ p ∷ [] })

-- How the promise of a `send` settles.
pub data Settlement : Type 0 where
  confirmed timed_out : Settlement
  failed : (error : String) → Settlement

unfoldable pub find_in_flight : String → List PacketInFlight → Option PacketInFlight
find_in_flight id [] = none
find_in_flight id (f ∷ fs) = if f.packet.internal_id == id then some f else find_in_flight id fs

unfoldable pub land : String → List PacketInFlight → List PacketInFlight
land id [] = []
land id (f ∷ fs) = if f.packet.internal_id == id then fs else f ∷ land id fs

-- `_onConfirmed`, `_onTimedOut` and `_onError` of a packet in flight.
unfoldable pub complete_packet :
    ℕ → CongestionManager → PacketInFlight → Settlement → CongestionManager
complete_packet now m f confirmed =
    let t =
      report_confirmed m.current_trial_data f.packet.internal_id f.packet.packet_size
        (now - f.timer) in
    handle_next_packets now (write (record m { current_trial_data = t }) (finish f.packet))
complete_packet now m f timed_out =
    let t = report_timed_out m.current_trial_data f.packet.internal_id f.packet.packet_size in
    write (handle_next_packets now (record m { current_trial_data = t })) (fail_timed_out f.packet)
complete_packet now m f (failed error) =
    let t = report_error m.current_trial_data f.packet.internal_id f.packet.packet_size in
    write (handle_next_packets now (record m { current_trial_data = t })) (fail f.packet error)

unfoldable pub settle : ℕ → CongestionManager → String → Settlement → CongestionManager
settle now m id how = elim (find_in_flight id m.in_flight) [
  | none ↦ m
  | some f ↦ complete_packet now (record m { in_flight = land id m.in_flight }) f how
]
