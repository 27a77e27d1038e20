-- ===== src/Udp/Counting.antt =====
-- UdpCongestionManager: its operations keep the count of the bytes.
use kachery_p2p.Base.{
  ℕ, ◌+◌, ◌-◌, ◌≡◌, refl, ◌∙◌, ap, sym, subst, inl, inr, Bool, true, false, List, [], ◌∷◌, ◌++◌,
  some, String, arith, length, append_assoc, Bool-cases, Option-cases, if◌then◌else◌, ltb,
  string_eq,
}
use text.Mathlib.TextEquality.{eq_iff}
use kachery_p2p.Base.Maps
use kachery_p2p.Udp.Trial.{
  TrialData, reset, report_sent, report_confirmed, report_timed_out, report_error,
}
use kachery_p2p.Udp.Congestion.{
  QueuedPacket, PacketInFlight, CongestionManager, Settlement, confirmed, timed_out, failed,
  start_packet, handle_rounds, update_trial, handle_next_packets, send_packet, find_in_flight, land,
  complete_packet, settle, trial_duration_msec,
}
use kachery_p2p.Udp.Rounds.{handle_rounds_keeps}
use kachery_p2p.Udp.Accounting.{
  mentions, IsDistinct, ids_in_flight, ids_queued, packet_ids, bytes_in_flight,
  trial_bytes_in_flight, IsCounted, has-set, mentions-append, IsDistinct-append,
  bytes_in_flight-set, bytes_in_flight-append, bytes_in_flight-empty, bytes_in_flight-land,
  IsDistinct-land, find-id,
}

ids_in_flight-append :
    (fs : List PacketInFlight) (g : PacketInFlight) (ys : List String)
    → ids_in_flight (fs ++ g ∷ []) ++ ys ≡ ids_in_flight fs ++ g.packet.internal_id ∷ ys
ids_in_flight-append [] g ys = refl
ids_in_flight-append (f ∷ fs) g ys = ap (◌∷◌ f.packet.internal_id) (ids_in_flight-append fs g ys)

ids_queued-append :
    (ps : List QueuedPacket) (p : QueuedPacket)
    → ids_queued (ps ++ p ∷ []) ≡ ids_queued ps ++ p.internal_id ∷ []
ids_queued-append [] p = refl
ids_queued-append (q ∷ ps) p = ap (◌∷◌ q.internal_id) (ids_queued-append ps p)

-- The id in the middle of distinct ids is not among those before it.
middle-apart :
    (xs : List String) (x : String) (ys : List String)
    → IsDistinct (xs ++ x ∷ ys)
    → mentions x xs ≡ false
middle-apart [] x ys d = refl
middle-apart (z ∷ xs) x ys d =
    ground
      (arith, d.0, eq_iff x z, eq_iff z x, mentions-append z xs (x ∷ ys), middle-apart xs x ys d.1)

has-set_self :
    (id : String) (sent : List (String × Bool)) → Maps.has id (Maps.set id true sent) ≡ true
has-set_self id sent = ground (arith, eq_iff id id, has-set id id sent)

-- What `report_sent` leaves, whether there is a new peak or not.
report_sent_lem :
    (t : TrialData) (id : String) (size : ℕ)
    → ((report_sent t id size).num_sent_bytes ≡ t.num_sent_bytes + size)
      × ((report_sent t id size).num_confirmed_bytes ≡ t.num_confirmed_bytes)
      × ((report_sent t id size).num_timed_out_bytes ≡ t.num_timed_out_bytes)
      × ((report_sent t id size).num_error_bytes ≡ t.num_error_bytes)
      × ((report_sent t id size).sent_packet_internal_ids
          ≡ Maps.set id true t.sent_packet_internal_ids)
unfolding report_sent
report_sent_lem t id size = ground arith

-- The packet `p` at the head of the queue is sent.
start_packet-IsCounted :
    (now : ℕ) (m : CongestionManager) (p : QueuedPacket) (rest : List QueuedPacket)
    → m.queued_packets ≡ p ∷ rest
    → IsCounted m
    → IsCounted (start_packet now (record m { queued_packets = rest }) p)
unfolding start_packet
start_packet-IsCounted now m p rest h c =
    let ids = ap (λ q. ids_in_flight m.in_flight ++ ids_queued q) h in
    let apart =
      middle-apart (ids_in_flight m.in_flight) p.internal_id (ids_queued rest)
        (subst IsDistinct ids c.distinct) in
    let sent = m.current_trial_data.sent_packet_internal_ids in
    record {
      counted = ground (
        arith,
        c.counted,
        report_sent_lem m.current_trial_data p.internal_id p.packet_size,
        has-set_self p.internal_id sent,
        bytes_in_flight-set p.internal_id sent m.in_flight apart,
        bytes_in_flight-append (Maps.set p.internal_id true sent) m.in_flight
            (record { packet = p; timer = now }),
      );
      distinct =
          subst IsDistinct
            (ids
              ∙ sym (
                  ids_in_flight-append m.in_flight (record { packet = p; timer = now })
                    (ids_queued rest)))
            c.distinct;
    }

pub handle_rounds-IsCounted :
    (fuel now : ℕ) (m : CongestionManager) → IsCounted m → IsCounted (handle_rounds fuel now m)
handle_rounds-IsCounted fuel now =
    handle_rounds_keeps now IsCounted (λ m p rest h free. start_packet-IsCounted now m p rest h)
      fuel

pub update_trial-IsCounted :
    (now : ℕ) (m : CongestionManager) → IsCounted m → IsCounted (update_trial now m)
unfolding update_trial reset
update_trial-IsCounted now m c =
    elim (Bool-cases (ltb trial_duration_msec (now - m.current_trial_data.timestamp_started))) [
      | inl over ↦ rw over (record {
        counted = ground (arith, bytes_in_flight-empty m.in_flight);
        distinct = c.distinct;
      })
      | inr running ↦ rw running c
    ]

pub handle_next_packets-IsCounted :
    (now : ℕ) (m : CongestionManager) → IsCounted m → IsCounted (handle_next_packets now m)
unfolding handle_next_packets
handle_next_packets-IsCounted now m c =
    handle_rounds-IsCounted (length (update_trial now m).queued_packets) now (update_trial now m)
      (update_trial-IsCounted now m c)

pub send_packet-IsCounted :
    (now : ℕ) (m : CongestionManager) (p : QueuedPacket)
    → mentions p.internal_id (packet_ids m) ≡ false
    → IsCounted m
    → IsCounted (send_packet now m p)
unfolding send_packet
send_packet-IsCounted now m p fresh c =
    handle_next_packets-IsCounted now (record m { queued_packets = m.queued_packets ++ p ∷ [] })
      (record {
        counted = c.counted;
        distinct =
            subst IsDistinct
              (append_assoc (ids_in_flight m.in_flight) (ids_queued m.queued_packets)
                  (p.internal_id ∷ [])
                ∙ ap (λ q. ids_in_flight m.in_flight ++ q)
                    (sym (ids_queued-append m.queued_packets p)))
              (IsDistinct-append (packet_ids m) p.internal_id c.distinct fresh);
      })

-- The manager after the packet `f` has landed, with what is reported of it.
abbrev landed : CongestionManager → PacketInFlight → TrialData → CongestionManager
landed m f t = record m {
  in_flight = land f.packet.internal_id m.in_flight;
  current_trial_data = t;
}

abbrev id_of : PacketInFlight → String
id_of f = f.packet.internal_id

module _ (m : CongestionManager) (f : PacketInFlight) (c : IsCounted m)
    (found : find_in_flight f.packet.internal_id m.in_flight ≡ some f) where
  landed-IsDistinct : IsDistinct (packet_ids (landed m f m.current_trial_data))
  landed-IsDistinct =
      IsDistinct-land f.packet.internal_id m.in_flight (ids_queued m.queued_packets) c.distinct

  landed_bytes :
      trial_bytes_in_flight m
      ≡ (if Maps.has f.packet.internal_id m.current_trial_data.sent_packet_internal_ids
          then f.packet.packet_size + 0
          else 0)
        + bytes_in_flight m.current_trial_data.sent_packet_internal_ids
            (land f.packet.internal_id m.in_flight)
  landed_bytes =
      bytes_in_flight-land m.current_trial_data.sent_packet_internal_ids f.packet.internal_id
        m.in_flight f found

  confirmed-IsCounted :
      (latency : ℕ)
      → IsCounted (
          landed m f (
            report_confirmed m.current_trial_data f.packet.internal_id f.packet.packet_size
              latency))
  unfolding report_confirmed
  confirmed-IsCounted latency = record {
    counted = ground (arith, c.counted, landed_bytes);
    distinct = landed-IsDistinct;
  }

  timed_out-IsCounted :
      IsCounted (
        landed m f
          (report_timed_out m.current_trial_data f.packet.internal_id f.packet.packet_size))
  unfolding report_timed_out
  timed_out-IsCounted = record {
    counted = ground (arith, c.counted, landed_bytes);
    distinct = landed-IsDistinct;
  }

  failed-IsCounted :
      IsCounted
        (landed m f (report_error m.current_trial_data f.packet.internal_id f.packet.packet_size))
  unfolding report_error
  failed-IsCounted = record {
    counted = ground (arith, c.counted, landed_bytes);
    distinct = landed-IsDistinct;
  }

  complete_packet-IsCounted :
      (now : ℕ) (how : Settlement)
      → IsCounted (complete_packet now (landed m f m.current_trial_data) f how)
  unfolding complete_packet
  complete_packet-IsCounted now confirmed =
      let counts = confirmed-IsCounted (now - f.timer) in
      handle_next_packets-IsCounted now _
        (record { counted = counts.counted; distinct = counts.distinct })
  complete_packet-IsCounted now timed_out =
      let counts = handle_next_packets-IsCounted now _ timed_out-IsCounted in
      record { counted = counts.counted; distinct = counts.distinct }
  complete_packet-IsCounted now (failed error) =
      let counts = handle_next_packets-IsCounted now _ failed-IsCounted in
      record { counted = counts.counted; distinct = counts.distinct }

pub settle-IsCounted :
    (now : ℕ) (m : CongestionManager) (id : String) (how : Settlement)
    → IsCounted m
    → IsCounted (settle now m id how)
unfolding settle
settle-IsCounted now m id how c = elim (Option-cases (find_in_flight id m.in_flight)) [
  | inl missing ↦ rw (settle, missing) c
  | inr (f, found) ↦
      let same = find-id id m.in_flight f found in
      let found' = subst (λ i. find_in_flight i m.in_flight ≡ some f) (sym same) found in
      rw (settle, found)
        (subst
          (λ i. IsCounted (complete_packet now (record m { in_flight = land i m.in_flight }) f how))
          same (complete_packet-IsCounted m f c found' now how))
]
