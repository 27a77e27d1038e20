-- ===== src/Udp/Rounds.antt =====
-- UdpCongestionManager: the rounds of `_handleNextPackets`.
use kachery_p2p.Base.{
  ℕ, zero, suc, ◌≡◌, refl, ◌⊎◌, inl, inr, true, false, List, [], ◌∷◌, length, arith, Bool-cases,
  ◌≤◌,
}
use kachery_p2p.Udp.Congestion.{
  QueuedPacket, CongestionManager, start_packet, handle_next_packet, handle_rounds, is_open,
}

list-cases :
    (ps : List QueuedPacket)
    → (ps ≡ []) ⊎ ((p : QueuedPacket) × (rest : List QueuedPacket) × (ps ≡ p ∷ rest))
list-cases [] = inl refl
list-cases (p ∷ rest) = inr (p, rest, refl)

-- A round without a packet to send, and one that sends the first of the queue.
handle_next_packet-cases :
    (now : ℕ) (m : CongestionManager)
    → ((handle_next_packet now m ≡ (m, false)) × ((m.queued_packets ≡ []) ⊎ (is_open m ≡ false)))
      ⊎ ((p : QueuedPacket) × (rest : List QueuedPacket) × (m.queued_packets ≡ p ∷ rest)
          × (is_open m ≡ true)
          × (handle_next_packet now m
              ≡ (start_packet now (record m { queued_packets = rest }) p, true)))
unfolding handle_next_packet
handle_next_packet-cases now m = elim (list-cases m.queued_packets) [
  | inl empty ↦ inl (rw empty refl, inl empty)
  | inr (p, rest, h) ↦ elim (Bool-cases (is_open m)) [
    | inl free ↦ inr (p, rest, h, free, ground arith)
    | inr shut ↦ inl (ground arith, inr shut)
  ]
]

module _ {ℓ} (now : ℕ) (P : CongestionManager → Type ℓ) where
  -- What each sending keeps, the rounds keep.
  pub handle_rounds_keeps :
      ((m : CongestionManager) (p : QueuedPacket) (rest : List QueuedPacket)
        → m.queued_packets ≡ p ∷ rest
        → is_open m ≡ true
        → P m
        → P (start_packet now (record m { queued_packets = rest }) p))
      → (fuel : ℕ) (m : CongestionManager) → P m
      → P (handle_rounds fuel now m)
  unfolding handle_rounds
  handle_rounds_keeps keep zero m h = h
  handle_rounds_keeps keep (suc fuel) m h = elim (handle_next_packet-cases now m) [
    | inl (e, idle) ↦ rw (handle_rounds, e, e) h
    | inr (p, rest, q, free, e) ↦
        rw (handle_rounds, e, e)
          (handle_rounds_keeps keep fuel (start_packet now (record m { queued_packets = rest }) p)
            (keep m p rest q free h))
  ]

-- Enough rounds end with an empty queue or a closed window.
pub handle_rounds-exhausts :
    (fuel now : ℕ) (m : CongestionManager)
    → length m.queued_packets ≤ fuel
    → ((handle_rounds fuel now m).queued_packets ≡ [])
      ⊎ (is_open (handle_rounds fuel now m) ≡ false)
unfolding handle_rounds start_packet
handle_rounds-exhausts zero now m h = elim (list-cases m.queued_packets) [
  | inl empty ↦ inl empty
  | inr (p, rest, e) ↦ absurd (ground arith)
]
handle_rounds-exhausts (suc fuel) now m h = elim (handle_next_packet-cases now m) [
  | inl (e, idle) ↦ rw (handle_rounds, e, e) idle
  | inr (p, rest, q, free, e) ↦
      rw (handle_rounds, e, e)
        (handle_rounds-exhausts fuel now (start_packet now (record m { queued_packets = rest }) p)
          (ground (arith, q)))
]
