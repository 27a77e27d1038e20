-- ===== src/Udp/PacketSender/Outcomes.antt =====
-- OutgoingPacket: what decides how a packet fares.
use kachery_p2p.Base.{
  ℕ, ◌≡◌, refl, true, false, List, [], ◌∷◌, ◌++◌, Option, none, some, String, arith, Option-cases,
  inl, inr, append-nil, if◌then◌else◌, ◌==◌, nat_eq,
}
use kachery_p2p.Json.{Value}
use kachery_p2p.Stream.{Buffer}
use kachery_p2p.Udp.Congestion.{Settlement, confirmed, timed_out, failed}
use kachery_p2p.Udp.PacketSender.{
  OutgoingPacket, Sending, by_socket, by_fallback, has_target, packet_bytes, try_send, settle_try,
  after_try, confirm, cancel, time_out, socket_sent,
}

-- What a packet meets after it was given to the congestion manager.
pub data Event : Type 0 where
  confirms cancels times_out : Event
  socket_sends : (error : Option String) (num_bytes_sent num_bytes : ℕ) → Event

unfoldable pub handle : OutgoingPacket → Event → OutgoingPacket
handle p confirms = confirm p
handle p cancels = cancel p
handle p times_out = time_out p
handle p (socket_sends error sent n) = socket_sent error sent n p

unfoldable pub handle_all : OutgoingPacket → List Event → OutgoingPacket
handle_all p [] = p
handle_all p (e ∷ es) = handle_all (handle p e) es

-- How an event settles a try, if it does.
abbrev pub settlement_of : Event → Option Settlement
settlement_of confirms = some confirmed
settlement_of cancels = some (failed "Canceled")
settlement_of times_out = some timed_out
settlement_of (socket_sends (some e) sent n) = some (failed e)
settlement_of (socket_sends none sent n) =
    if sent == n then none else some (failed "unexpected numBytesSent")

-- The first event that does.
abbrev pub first_settlement : List Event → Option Settlement
first_settlement [] = none
first_settlement (e ∷ es) =
    let rest = first_settlement es in elim (settlement_of e) [ some how ↦ some how | none ↦ rest ]

-- The sendings by the fallback that a settlement leads to.
abbrev pub fallback_for : Buffer → Option Settlement → List Sending
fallback_for buffer (some timed_out) = by_fallback buffer ∷ []
fallback_for buffer (some (failed e)) = by_fallback buffer ∷ []
fallback_for buffer _ = []

handle_all-settled :
    (es : List Event) (p : OutgoingPacket) → p.completed ≡ true → handle_all p es ≡ p
unfolding handle_all handle confirm cancel time_out socket_sent settle_try
handle_all-settled [] p h = refl
handle_all-settled (confirms ∷ es) p h = ground (arith, handle_all-settled es p h)
handle_all-settled (cancels ∷ es) p h = ground (arith, handle_all-settled es p h)
handle_all-settled (times_out ∷ es) p h = ground (arith, handle_all-settled es p h)
handle_all-settled (socket_sends none sent n ∷ es) p h = ground (arith, handle_all-settled es p h)
handle_all-settled (socket_sends (some e) sent n ∷ es) p h =
    ground (arith, handle_all-settled es p h)

-- A packet whose try has settled.
abbrev settled : OutgoingPacket → Settlement → OutgoingPacket
settled p how = after_try (record p { completed = true; outcome = some how }) how

settled-completed : (p : OutgoingPacket) (how : Settlement) → (settled p how).completed ≡ true
settled-completed p confirmed = refl
settled-completed p timed_out = refl
settled-completed p (failed e) = refl

settled_lem :
    (p : OutgoingPacket) (how : Settlement)
    → ((settled p how).outcome ≡ some how)
      × ((settled p how).sendings ≡ p.sendings ++ fallback_for p.buffer (some how))
settled_lem p confirmed = (refl, ground (arith, append-nil p.sendings))
settled_lem p timed_out = (refl, refl)
settled_lem p (failed e) = (refl, refl)

handle-open :
    (p : OutgoingPacket) (e : Event)
    → p.completed ≡ false
    → p.tried ≡ true
    → handle p e ≡ elim (settlement_of e) [ none ↦ p | some how ↦ settled p how ]
unfolding handle confirm cancel time_out socket_sent settle_try
handle-open p confirms h t = ground arith
handle-open p cancels h t = ground arith
handle-open p times_out h t = ground arith
handle-open p (socket_sends none sent n) h t = ground arith
handle-open p (socket_sends (some e) sent n) h t = ground arith

-- A try that is open settles by the first event that settles it.
handle_all-open :
    (es : List Event) (p : OutgoingPacket)
    → p.completed ≡ false
    → p.tried ≡ true
    → p.outcome ≡ none
    → ((handle_all p es).outcome ≡ first_settlement es)
      × ((handle_all p es).sendings ≡ p.sendings ++ fallback_for p.buffer (first_settlement es))
unfolding handle_all
handle_all-open [] p h t o = (o, ground (arith, append-nil p.sendings))
handle_all-open (e ∷ es) p h t o = elim (Option-cases (settlement_of e)) [
  | inl quiet ↦ let rest = handle_all-open es p h t o in ground (arith, handle-open p e h t, rest)
  | inr (how, loud) ↦
      let done = handle_all-settled es (settled p how) (settled-completed p how) in
      ground (arith, handle-open p e h t, done, settled_lem p how)
]

-- A packet that is tried is sent on the socket once. Whatever comes then, in any order and any number
-- of times, the first event that settles the try decides: a confirmation ends the packet; an error of
-- the socket, the timeout of the try and also a cancellation send it by the fallback, exactly once.
pub first_settlement_decides :
    (stringify : Value → Buffer) (this_node_id to_node_id : String) (timeout_msec : ℕ)
    (p : OutgoingPacket) (es : List Event)
    → has_target p.address ≡ true
    → let r = handle_all (try_send stringify this_node_id to_node_id timeout_msec p) es in
      (r.outcome ≡ first_settlement es)
      × (r.sendings
          ≡ (p.sendings
              ++ by_socket (packet_bytes stringify this_node_id to_node_id p) timeout_msec ∷ [])
            ++ fallback_for p.buffer (first_settlement es))
unfolding try_send
first_settlement_decides stringify this to timeout p es target =
    let q : OutgoingPacket = record p {
      tried = true;
      completed = false;
      outcome = none;
      sendings = p.sendings ++ by_socket (packet_bytes stringify this to p) timeout ∷ [];
    } in
    rw target (handle_all-open es q refl refl refl)

-- A packet that waits in the queue is not cancelled: a cancellation before its try changes nothing, and the
-- packet is sent all the same.
pub cancel_before_try :
    (stringify : Value → Buffer) (this_node_id to_node_id : String) (timeout_msec : ℕ)
    (p : OutgoingPacket)
    → p.tried ≡ false
    → (cancel p ≡ p)
      × (try_send stringify this_node_id to_node_id timeout_msec (cancel p)
          ≡ try_send stringify this_node_id to_node_id timeout_msec p)
unfolding cancel
cancel_before_try stringify this to timeout p h = ground arith
