-- ===== src/Udp/Pacing.antt =====
-- UdpCongestionManager over every history of calls: order, window and progress.
use kachery_p2p.Base.{
  ℕ, ◌-◌, ◌≡◌, refl, ◌∙◌, ap, sym, inl, inr, false, List, [], ◌∷◌, ◌++◌, String, arith, length,
  append_assoc, append-nil, Option-cases, string_eq, nat_eq,
}
use kachery_p2p.Udp.Trial.{
  Ratio, TrialData, compute_num_unconfirmed_bytes, report_confirmed, report_timed_out, report_error,
  estimate_roundtrip_latency, median, weighted, at_least, at_most, whole,
  determine_max_num_bytes_per_second_to_send, adjusted_rate,
}
use kachery_p2p.Udp.Congestion.{
  QueuedPacket, PacketInFlight, CongestionManager, Effect, Settlement, confirmed, timed_out, failed,
  new_congestion_manager, start_packet, write, packet_timeout, update_trial, handle_next_packets,
  send_packet, find_in_flight, land, complete_packet, settle,
}
use kachery_p2p.Udp.Accounting.{mentions, packet_ids, trial_bytes_in_flight, IsCounted}
use kachery_p2p.Udp.Rounds.{handle_rounds_keeps}
use kachery_p2p.Udp.Counting.{send_packet-IsCounted, settle-IsCounted}

-- The states of a manager to which the packets `ps` have been given, in this order. The internal id
-- of a packet is random, and differs from those that wait or are in flight.
pub data Reachable : List QueuedPacket → CongestionManager → Type 0 where
  fresh : (now : ℕ) → Reachable [] (new_congestion_manager now)
  sends :
      {ps : List QueuedPacket} {m : CongestionManager}
      → Reachable ps m
      → (now : ℕ) (p : QueuedPacket) → mentions p.internal_id (packet_ids m) ≡ false
      → Reachable (ps ++ p ∷ []) (send_packet now m p)
  settles :
      {ps : List QueuedPacket} {m : CongestionManager}
      → Reachable ps m
      → (now : ℕ) (id : String) (how : Settlement) → Reachable ps (settle now m id how)

Reachable-IsCounted :
    {ps : List QueuedPacket} {m : CongestionManager} → Reachable ps m → IsCounted m
unfolding new_congestion_manager kachery_p2p.Udp.Trial.reset
Reachable-IsCounted (fresh now) = record { counted = omega arith; distinct = tt }
Reachable-IsCounted (sends {m} r now p new) =
    send_packet-IsCounted now m p new (Reachable-IsCounted r)
Reachable-IsCounted (settles {m} r now id how) =
    settle-IsCounted now m id how (Reachable-IsCounted r)

-- The bytes that a manager takes for unconfirmed are exactly those of the packets in flight that were
-- sent since the current trial began: no report is counted twice, and none of an older trial.
pub unconfirmed_in_flight :
    (ps : List QueuedPacket) (m : CongestionManager)
    → Reachable ps m
    → compute_num_unconfirmed_bytes m.current_trial_data ≡ trial_bytes_in_flight m
unfolding compute_num_unconfirmed_bytes
unconfirmed_in_flight ps m r = omega (arith, (Reachable-IsCounted r).counted)

-- The packets whose `send` was called, in this order.
abbrev pub sent_of : List Effect → List QueuedPacket
sent_of [] = []
sent_of (Effect.send p t ∷ es) = p ∷ sent_of es
sent_of (Effect.finish p ∷ es) = sent_of es
sent_of (Effect.fail_timed_out p ∷ es) = sent_of es
sent_of (Effect.fail p e ∷ es) = sent_of es

sent_of-append : (es fs : List Effect) → sent_of (es ++ fs) ≡ sent_of es ++ sent_of fs
sent_of-append [] fs = refl
sent_of-append (Effect.send p t ∷ es) fs = ap (◌∷◌ p) (sent_of-append es fs)
sent_of-append (Effect.finish p ∷ es) fs = sent_of-append es fs
sent_of-append (Effect.fail_timed_out p ∷ es) fs = sent_of-append es fs
sent_of-append (Effect.fail p e ∷ es) fs = sent_of-append es fs

sent_of-write :
    (m : CongestionManager) (e : Effect)
    → sent_of (e ∷ []) ≡ []
    → sent_of (write m e).log ≡ sent_of m.log
sent_of-write m e silent =
    sent_of-append m.log (e ∷ [])
    ∙ ap (λ es. sent_of m.log ++ es) silent
    ∙ append-nil (sent_of m.log)

-- The states differ in the counts of the trial, the packets in flight and the reports at most.
pub record IsFramed (m m' : CongestionManager) : Type 0 where
  pub rate : m'.max_num_bytes_per_second_to_send ≡ m.max_num_bytes_per_second_to_send
  pub latency : m'.estimated_roundtrip_latency_msec ≡ m.estimated_roundtrip_latency_msec
  pub queued : m'.queued_packets ≡ m.queued_packets
  pub sent : sent_of m'.log ≡ sent_of m.log

-- What is kept by the end of a trial, by each sending and by what reports change is kept by every
-- operation.
module _ {ℓ} (P : CongestionManager → Type ℓ)
    (trial_keeps : (now : ℕ) (m : CongestionManager) → P m → P (update_trial now m))
    (send_keeps : (now : ℕ) (m : CongestionManager) (p : QueuedPacket) (rest : List QueuedPacket)
      → m.queued_packets ≡ p ∷ rest
      → P m
      → P (start_packet now (record m { queued_packets = rest }) p))
    (frame_keeps : (m m' : CongestionManager) → IsFramed m m' → P m → P m') where
  pub handle_next_packets_keeps :
      (now : ℕ) (m : CongestionManager) → P m → P (handle_next_packets now m)
  unfolding handle_next_packets
  handle_next_packets_keeps now m h =
      handle_rounds_keeps now P (λ n p rest q free. send_keeps now n p rest q)
        (length (update_trial now m).queued_packets) (update_trial now m) (trial_keeps now m h)

  write_keeps : (m : CongestionManager) (e : Effect) → sent_of (e ∷ []) ≡ [] → P m → P (write m e)
  write_keeps m e silent =
      frame_keeps m (write m e)
        (record { rate = refl; latency = refl; queued = refl; sent = sent_of-write m e silent })

  reported_keeps :
      (m : CongestionManager) (t : TrialData) → P m → P (record m { current_trial_data = t })
  reported_keeps m t =
      frame_keeps m (record m { current_trial_data = t })
        (record { rate = refl; latency = refl; queued = refl; sent = refl })

  complete_packet_keeps :
      (now : ℕ) (m : CongestionManager) (f : PacketInFlight) (how : Settlement)
      → P m
      → P (complete_packet now m f how)
  unfolding complete_packet
  complete_packet_keeps now m f confirmed h =
      let t =
        report_confirmed m.current_trial_data f.packet.internal_id f.packet.packet_size
          (now - f.timer) in
      handle_next_packets_keeps now
        (write (record m { current_trial_data = t }) (Effect.finish f.packet))
        (write_keeps (record m { current_trial_data = t }) (Effect.finish f.packet) refl
          (reported_keeps m t h))
  complete_packet_keeps now m f timed_out h =
      let t = report_timed_out m.current_trial_data f.packet.internal_id f.packet.packet_size in
      write_keeps (handle_next_packets now (record m { current_trial_data = t }))
        (Effect.fail_timed_out f.packet) refl
        (handle_next_packets_keeps now (record m { current_trial_data = t }) (reported_keeps m t h))
  complete_packet_keeps now m f (failed error) h =
      let t = report_error m.current_trial_data f.packet.internal_id f.packet.packet_size in
      write_keeps (handle_next_packets now (record m { current_trial_data = t }))
        (Effect.fail f.packet error) refl
        (handle_next_packets_keeps now (record m { current_trial_data = t }) (reported_keeps m t h))

  pub settle_keeps :
      (now : ℕ) (m : CongestionManager) (id : String) (how : Settlement)
      → P m
      → P (settle now m id how)
  unfolding settle
  settle_keeps now m id how h = elim (Option-cases (find_in_flight id m.in_flight)) [
    | inl missing ↦ rw (settle, missing) h
    | inr (f, found) ↦
        rw (settle, found)
          (complete_packet_keeps now (record m { in_flight = land id m.in_flight }) f how
            (frame_keeps m (record m { in_flight = land id m.in_flight })
              (record { rate = refl; latency = refl; queued = refl; sent = refl }) h))
  ]

abbrev given : CongestionManager → List QueuedPacket
given m = sent_of m.log ++ m.queued_packets

module _ (ps : List QueuedPacket) where
  trial-given : (now : ℕ) (m : CongestionManager) → given m ≡ ps → given (update_trial now m) ≡ ps
  unfolding update_trial
  trial-given now m h = ground arith

  send-given :
      (now : ℕ) (m : CongestionManager) (p : QueuedPacket) (rest : List QueuedPacket)
      → m.queued_packets ≡ p ∷ rest
      → given m ≡ ps
      → given (start_packet now (record m { queued_packets = rest }) p) ≡ ps
  unfolding start_packet
  send-given now m p rest q h =
      ap (λ es. es ++ rest) (sent_of-append m.log (Effect.send p (packet_timeout m) ∷ []))
      ∙ append_assoc (sent_of m.log) (p ∷ []) rest
      ∙ ap (λ queue. sent_of m.log ++ queue) (sym q)
      ∙ h

  frame-given : (m m' : CongestionManager) → IsFramed m m' → given m ≡ ps → given m' ≡ ps
  frame-given m m' same h = ground (arith, same.queued, same.sent)

-- The packets are sent in the order in which they were given: those that were sent, followed by those
-- that wait, are all of them.
pub sends_in_order :
    (ps : List QueuedPacket) (m : CongestionManager)
    → Reachable ps m
    → sent_of m.log ++ m.queued_packets ≡ ps
unfolding new_congestion_manager send_packet
sends_in_order _ _ (fresh now) = refl
sends_in_order _ _ (sends {ps} {m} r now p new) =
    let all = ps ++ p ∷ [] in
    handle_next_packets_keeps (λ n. given n ≡ all) (trial-given all) (send-given all)
      (frame-given all) now (record m { queued_packets = m.queued_packets ++ p ∷ [] })
      (sym (append_assoc (sent_of m.log) m.queued_packets (p ∷ []))
        ∙ ap (λ qs. qs ++ p ∷ []) (sends_in_order ps m r))
sends_in_order _ _ (settles {ps} {m} r now id how) =
    settle_keeps (λ n. given n ≡ ps) (trial-given ps) (send-given ps) (frame-given ps) now m id how
      (sends_in_order ps m r)
