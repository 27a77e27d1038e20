-- ===== src/Udp/Accounting.antt =====
-- UdpCongestionManager and TrialData: the bytes that are counted are those of the packets.
use kachery_p2p.Base.{
  ℕ, ◌+◌, ◌≡◌, refl, inl, inr, Bool, true, false, List, [], ◌∷◌, ◌++◌, map, some, String, arith,
  Bool-cases, if◌then◌else◌, ◌==◌, string_eq,
}
use text.Mathlib.TextEquality.{eq_iff}
use kachery_p2p.Base.Maps
use kachery_p2p.Udp.Congestion.{
  QueuedPacket, PacketInFlight, CongestionManager, find_in_flight, land,
}

abbrev pub mentions : String → List String → Bool
mentions id [] = false
mentions id (x ∷ xs) = if x == id then true else mentions id xs

abbrev pub IsDistinct : List String → Type 0
IsDistinct [] = Unit {0}
IsDistinct (x ∷ xs) = (mentions x xs ≡ false) × IsDistinct xs

abbrev pub ids_in_flight : List PacketInFlight → List String
ids_in_flight = map (λ f. f.packet.internal_id)

abbrev pub ids_queued : List QueuedPacket → List String
ids_queued = map (λ p. p.internal_id)

-- The internal ids of the packets in flight and of those that wait.
abbrev pub packet_ids : CongestionManager → List String
packet_ids m = ids_in_flight m.in_flight ++ ids_queued m.queued_packets

-- The bytes in flight of packets that were sent in the current trial, whose ids are `sent`.
abbrev pub bytes_in_flight : (sent : List (String × Bool)) → List PacketInFlight → ℕ
bytes_in_flight sent [] = 0
bytes_in_flight sent (f ∷ fs) =
    if Maps.has f.packet.internal_id sent
    then f.packet.packet_size + bytes_in_flight sent fs
    else bytes_in_flight sent fs

abbrev pub trial_bytes_in_flight : CongestionManager → ℕ
trial_bytes_in_flight m = bytes_in_flight m.current_trial_data.sent_packet_internal_ids m.in_flight

-- Every byte that was sent in the trial is confirmed, timed out, failed or in flight.
pub record IsCounted (m : CongestionManager) : Type 0 where
  pub counted :
      m.current_trial_data.num_sent_bytes
      ≡ m.current_trial_data.num_confirmed_bytes
        + m.current_trial_data.num_timed_out_bytes
        + m.current_trial_data.num_error_bytes
        + trial_bytes_in_flight m
  pub distinct : IsDistinct (packet_ids m)

pub has-set :
    (id x : String) (m : List (String × Bool))
    → Maps.has x (Maps.set id true m) ≡ (if id == x then true else Maps.has x m)
unfolding Maps.has Maps.set
has-set id x [] = refl
has-set id x ((y, b) ∷ m) = ground (arith, eq_iff id x, eq_iff y id, eq_iff y x, has-set id x m)

pub mentions-append :
    (x : String) (xs ys : List String)
    → mentions x (xs ++ ys) ≡ (if mentions x xs then true else mentions x ys)
mentions-append x [] ys = refl
mentions-append x (z ∷ xs) ys = ground (arith, mentions-append x xs ys)

-- A new id at the end of a list without it.
pub IsDistinct-append :
    (xs : List String) (x : String)
    → IsDistinct xs
    → mentions x xs ≡ false
    → IsDistinct (xs ++ x ∷ [])
IsDistinct-append [] x d h = (refl, tt)
IsDistinct-append (y ∷ xs) x d h = (
  ground (arith, d.0, eq_iff x y, eq_iff y x, mentions-append y xs (x ∷ [])),
  IsDistinct-append xs x d.1 (ground arith),
)

pub bytes_in_flight-set :
    (id : String) (sent : List (String × Bool)) (fs : List PacketInFlight)
    → mentions id (ids_in_flight fs) ≡ false
    → bytes_in_flight (Maps.set id true sent) fs ≡ bytes_in_flight sent fs
bytes_in_flight-set id sent [] h = refl
bytes_in_flight-set id sent (f ∷ fs) h = ground (
  arith,
  eq_iff id f.packet.internal_id,
  eq_iff f.packet.internal_id id,
  has-set id f.packet.internal_id sent,
  bytes_in_flight-set id sent fs,
)

pub bytes_in_flight-append :
    (sent : List (String × Bool)) (fs : List PacketInFlight) (g : PacketInFlight)
    → bytes_in_flight sent (fs ++ g ∷ []) ≡ bytes_in_flight sent fs + bytes_in_flight sent (g ∷ [])
bytes_in_flight-append sent [] g = ground arith
bytes_in_flight-append sent (f ∷ fs) g = ground (arith, bytes_in_flight-append sent fs g)

pub bytes_in_flight-empty : (fs : List PacketInFlight) → bytes_in_flight [] fs ≡ 0
unfolding Maps.has
bytes_in_flight-empty [] = refl
bytes_in_flight-empty (f ∷ fs) = bytes_in_flight-empty fs

-- A packet that lands takes its own bytes away.
pub bytes_in_flight-land :
    (sent : List (String × Bool)) (id : String) (fs : List PacketInFlight) (g : PacketInFlight)
    → find_in_flight id fs ≡ some g
    → bytes_in_flight sent fs ≡ bytes_in_flight sent (g ∷ []) + bytes_in_flight sent (land id fs)
unfolding find_in_flight land
bytes_in_flight-land sent id [] g h = cc
bytes_in_flight-land sent id (f ∷ fs) g h = ground (arith, bytes_in_flight-land sent id fs g)

pub mentions-land :
    (x id : String) (fs : List PacketInFlight)
    → mentions x (ids_in_flight fs) ≡ false
    → mentions x (ids_in_flight (land id fs)) ≡ false
unfolding land
mentions-land x id [] h = refl
mentions-land x id (f ∷ fs) h = ground (arith, mentions-land x id fs)

pub IsDistinct-land :
    (id : String) (fs : List PacketInFlight) (ys : List String)
    → IsDistinct (ids_in_flight fs ++ ys)
    → IsDistinct (ids_in_flight (land id fs) ++ ys)
unfolding land
IsDistinct-land id [] ys d = d
IsDistinct-land id (f ∷ fs) ys d = elim (Bool-cases (f.packet.internal_id == id)) [
  | inl t ↦ rw t d.1
  | inr e ↦ rw e (
    ground (
      arith,
      d.0,
      mentions-append f.packet.internal_id (ids_in_flight fs) ys,
      mentions-append f.packet.internal_id (ids_in_flight (land id fs)) ys,
      mentions-land f.packet.internal_id id fs,
    ),
    IsDistinct-land id fs ys d.1,
  )
]

pub find-id :
    (id : String) (fs : List PacketInFlight) (g : PacketInFlight)
    → find_in_flight id fs ≡ some g
    → g.packet.internal_id ≡ id
unfolding find_in_flight
find-id id [] g h = cc
find-id id (f ∷ fs) g h = ground (arith, eq_iff f.packet.internal_id id, find-id id fs g)
