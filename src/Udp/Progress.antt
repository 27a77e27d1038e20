-- ===== src/Udp/Progress.antt =====
-- UdpCongestionManager: packets do not wait without a reason.
use kachery_p2p.Base.{
  ℕ, ◌<◌, ◌≡◌, refl, ◌⊎◌, inl, inr, true, false, List, [], ◌∷◌, ◌++◌, String, arith, length,
  Bool-cases, Option-cases, ◌==◌, nat_eq, ◌%◌,
}
use native.Mathlib.Nat.{mul-pos}
use kachery_p2p.Udp.Trial.{
  Ratio, TrialData, compute_num_unconfirmed_bytes, estimate_roundtrip_latency, median, sort,
  determine_max_num_bytes_per_second_to_send,
}
use kachery_p2p.Udp.Congestion.{
  QueuedPacket, PacketInFlight, CongestionManager, Settlement, confirmed, timed_out, failed,
  new_congestion_manager, start_packet, update_trial, handle_next_packets, send_packet,
  find_in_flight, land, complete_packet, settle, is_open,
}
use kachery_p2p.Udp.Accounting.{trial_bytes_in_flight}
use kachery_p2p.Udp.Rounds.{handle_rounds-exhausts}
use kachery_p2p.Udp.Pacing.{
  Reachable, fresh, sends, settles, IsFramed, handle_next_packets_keeps, settle_keeps,
  unconfirmed_in_flight,
}

-- Nothing waits, or the window is full.
abbrev pub IsBusy : CongestionManager → Type 0
IsBusy m = (m.queued_packets ≡ []) ⊎ (is_open m ≡ false)

handle_next_packets-IsBusy : (now : ℕ) (m : CongestionManager) → IsBusy (handle_next_packets now m)
unfolding handle_next_packets
handle_next_packets-IsBusy now m =
    handle_rounds-exhausts (length (update_trial now m).queued_packets) now (update_trial now m)
      (omega arith)

complete_packet-IsBusy :
    (now : ℕ) (m : CongestionManager) (f : PacketInFlight) (how : Settlement)
    → IsBusy (complete_packet now m f how)
unfolding complete_packet is_open
complete_packet-IsBusy now m f confirmed = handle_next_packets-IsBusy now _
complete_packet-IsBusy now m f timed_out = handle_next_packets-IsBusy now _
complete_packet-IsBusy now m f (failed error) = handle_next_packets-IsBusy now _

settle-IsBusy :
    (now : ℕ) (m : CongestionManager) (id : String) (how : Settlement)
    → IsBusy m
    → IsBusy (settle now m id how)
unfolding settle
settle-IsBusy now m id how h = elim (Option-cases (find_in_flight id m.in_flight)) [
  | inl missing ↦ rw (settle, missing) h
  | inr (f, found) ↦
      rw (settle, found)
        (complete_packet-IsBusy now (record m { in_flight = land id m.in_flight }) f how)
]

-- No packet waits while the window has room: whenever packets are queued, the unconfirmed bytes have
-- reached what the rate allows.
pub queue_waits_for_window :
    (ps : List QueuedPacket) (m : CongestionManager)
    → Reachable ps m
    → (m.queued_packets ≡ []) ⊎ (is_open m ≡ false)
unfolding new_congestion_manager send_packet
queue_waits_for_window _ _ (fresh now) = inl refl
queue_waits_for_window _ _ (sends {m} r now p new) =
    handle_next_packets-IsBusy now (record m { queued_packets = m.queued_packets ++ p ∷ [] })
queue_waits_for_window _ _ (settles {ps} {m} r now id how) =
    settle-IsBusy now m id how (queue_waits_for_window ps m r)

-- The rate and the latency are above 0.
abbrev IsPositive : CongestionManager → Type 0
IsPositive m =
    (0 < m.max_num_bytes_per_second_to_send.num) × (0 < m.estimated_roundtrip_latency_msec.num)

median-den : (xs : List ℕ) → 0 < (median xs).den
unfolding median
median-den xs = elim (Bool-cases (length (sort xs) % 2 == 0)) [
  | inl even ↦ rw (median, even) (omega arith)
  | inr odd ↦ rw (median, odd) (omega arith)
]

estimate-positive :
    (t : TrialData) (old : Ratio) → 0 < old.num → 0 < (estimate_roundtrip_latency t old).num
unfolding estimate_roundtrip_latency
estimate-positive t old h =
    let product = mul-pos h (median-den t.roundtrip_latencies_msec) in ground arith

rate-positive :
    (t : TrialData) (old latency : Ratio)
    → 0 < old.num
    → 0 < (determine_max_num_bytes_per_second_to_send t old latency).num
unfolding determine_max_num_bytes_per_second_to_send
rate-positive t old latency h = ground arith

trial-IsPositive :
    (now : ℕ) (m : CongestionManager) → IsPositive m → IsPositive (update_trial now m)
unfolding update_trial
trial-IsPositive now m h =
    let t = m.current_trial_data in
    let latency = estimate_roundtrip_latency t m.estimated_roundtrip_latency_msec in
    ground (
      arith,
      rate-positive t m.max_num_bytes_per_second_to_send latency h.0,
      estimate-positive t m.estimated_roundtrip_latency_msec h.1,
    )

send-IsPositive :
    (now : ℕ) (m : CongestionManager) (p : QueuedPacket) (rest : List QueuedPacket)
    → m.queued_packets ≡ p ∷ rest
    → IsPositive m
    → IsPositive (start_packet now (record m { queued_packets = rest }) p)
unfolding start_packet
send-IsPositive now m p rest q h = h

frame-IsPositive : (m m' : CongestionManager) → IsFramed m m' → IsPositive m → IsPositive m'
frame-IsPositive m m' same h = ground (arith, same.rate, same.latency)

Reachable-IsPositive :
    {ps : List QueuedPacket} {m : CongestionManager} → Reachable ps m → IsPositive m
unfolding new_congestion_manager send_packet
Reachable-IsPositive (fresh now) = (omega arith, omega arith)
Reachable-IsPositive (sends {m} r now p new) =
    handle_next_packets_keeps IsPositive trial-IsPositive send-IsPositive frame-IsPositive now
      (record m { queued_packets = m.queued_packets ++ p ∷ [] }) (Reachable-IsPositive r)
Reachable-IsPositive (settles {m} r now id how) =
    settle_keeps IsPositive trial-IsPositive send-IsPositive frame-IsPositive now m id how
      (Reachable-IsPositive r)

idle-is_open :
    (m : CongestionManager)
    → IsPositive m
    → compute_num_unconfirmed_bytes m.current_trial_data ≡ 0
    → is_open m ≡ true
unfolding is_open
idle-is_open m h idle = rw idle (let product = mul-pos h.0 h.1 in ground arith)

-- The queue never stalls: while packets wait, packets of the current trial are in flight, with more
-- than 0 bytes, so that a confirmation, a timeout or an error is still to come and goes on with it.
pub queue_never_stalls :
    (ps : List QueuedPacket) (m : CongestionManager) (p : QueuedPacket) (rest : List QueuedPacket)
    → Reachable ps m
    → m.queued_packets ≡ p ∷ rest
    → 0 < trial_bytes_in_flight m
queue_never_stalls ps m p rest r q = ground (
  arith,
  queue_waits_for_window ps m r,
  unconfirmed_in_flight ps m r,
  idle-is_open m (Reachable-IsPositive r),
)
