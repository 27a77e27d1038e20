-- ===== src/Stream/Arrivals.antt =====
-- The messages of an unordered stream, as calls of DataStreamyProducer.unorderedData and unorderedEnd,
-- and what a producer has received after a sequence of them.
use kachery_p2p.Base.{
  ℕ, ◌≡◌, refl, ◌⊎◌, inl, inr, Bool, true, false, List, [], ◌∷◌, none, some, arith, length, subst,
  get_elem?, Bool-cases, nat_eq, ◌==◌, All,
}
use kachery_p2p.Base.Maps
use kachery_p2p.Base.Maps.{get-set, get-delete, length-delete_lt, has_of_get, get-none_of_length}
use kachery_p2p.Stream.{Buffer}
use kachery_p2p.Stream.Delivery.{chunks_of-producer_end, producer_end_frame}
use kachery_p2p.Stream.Producer.{Producer, end, unordered_data, unordered_end, next_chunk}
use kachery_p2p.Stream.Flushing.{Inv, Seen, EndSeen, flush-Flushes}

-- A message of the sender: a chunk of `cs` under its index, or the number of the chunks.
pub data Arrival : Type 0 where
  chunk : ℕ → Buffer → Arrival
  end_after : ℕ → Arrival

-- The receiver's handling of a message; false where it throws.
pub receive : Producer → Arrival → Producer × Bool
receive p (chunk i b) = unordered_data p i b
receive p (end_after n) = (unordered_end p n, true)

pub receive_all : Producer → List Arrival → Producer × Bool
receive_all p [] = (p, true)
receive_all p (a ∷ arrivals) = elim (receive p a).1 [
  | true ↦ receive_all (receive p a).0 arrivals
  | false ↦ receive p a
]

-- The chunk with index `i`, or the end, is among the messages.
abbrev pub Arrives : ℕ → List Arrival → Type 0
Arrives i [] = ⊥
Arrives i (chunk j b ∷ arrivals) = (j ≡ i) ⊎ Arrives i arrivals
Arrives i (end_after n ∷ arrivals) = Arrives i arrivals

abbrev pub EndArrives : List Arrival → Type 0
EndArrives [] = ⊥
EndArrives (chunk j b ∷ arrivals) = EndArrives arrivals
EndArrives (end_after n ∷ arrivals) = Unit {0}

module _ (cs : List Buffer) (cb : ℕ) where
  abbrev pub IsGenuine : Arrival → Type 0
  IsGenuine (chunk i b) = get_elem? cs i ≡ some b
  IsGenuine (end_after n) = n ≡ length cs

  abbrev SeenArrival : Arrival → Producer → Type 0
  SeenArrival (chunk i b) p = Seen cs cb p i
  SeenArrival (end_after n) p = EndSeen cs cb p

  record Receives (p : Producer) (a : Arrival) (r : Producer × Bool) : Type 0 where
    inv : Inv cs cb r.0
    fine : r.1 ≡ true
    seen : (i : ℕ) → Seen cs cb p i → Seen cs cb r.0 i
    end_seen : EndSeen cs cb p → EndSeen cs cb r.0
    arrived : SeenArrival a r.0
    drained : next_chunk r.0 ≡ none

  Seen-set :
      (p : Producer) (i : ℕ) (b : Buffer) (j : ℕ)
      → Seen cs cb p j
      → Seen cs cb
          (record p {
            unordered_data_chunks_by_index = Maps.set i b p.unordered_data_chunks_by_index;
          })
          j
  Seen-set p i b j (inl h) = inl h
  Seen-set p i b j (inr (c, h)) = elim (Bool-cases (i == j)) [
    | inl t ↦ inr (b, ground (arith, get-set i j b p.unordered_data_chunks_by_index))
    | inr f ↦ inr (c, ground (arith, get-set i j b p.unordered_data_chunks_by_index))
  ]

  unordered_data-Receives :
      (p : Producer) (i : ℕ) (b : Buffer)
      → Inv cs cb p
      → get_elem? cs i ≡ some b
      → Receives p (chunk i b) (unordered_data p i b)
  unfolding unordered_data
  unordered_data-Receives p i b v genuine =
      let chunks = Maps.set i b p.unordered_data_chunks_by_index in
      let q : Producer = record p { unordered_data_chunks_by_index = chunks } in
      let w : Inv cs cb q = record {
        running = v.running;
        callbacks = v.callbacks;
        waiting =
            λ j c h. ground (arith, get-set i j b p.unordered_data_chunks_by_index, v.waiting j c);
        within = v.within;
        delivered = v.delivered;
        no_error = v.no_error;
        finished = v.finished;
        end_known = v.end_known;
        complete = v.complete;
        ended = v.ended;
      } in
      let r = flush-Flushes cs cb (length chunks) q (omega arith) w in
      record {
        inv = r.inv;
        fine = r.fine;
        seen = λ j s. r.seen j (Seen-set p i b j s);
        end_seen = r.end_seen;
        arrived =
            r.seen i (inr (b, ground (arith, get-set i i b p.unordered_data_chunks_by_index)));
        drained = r.drained;
      }

  unordered_end-Receives :
      (p : Producer) (n : ℕ)
      → Inv cs cb p
      → next_chunk p ≡ none
      → n ≡ length cs
      → Receives p (end_after n) (unordered_end p n, true)
  unfolding unordered_end end
  unordered_end-Receives p n v dry e =
      let closed = producer_end_frame p.stream in
      let log = chunks_of-producer_end cb p.stream in
      record {
        inv = record {
          running = ground arith;
          callbacks = ground arith;
          waiting = λ j c h. v.waiting j c (ground arith);
          within = ground arith;
          delivered = ground arith;
          no_error = ground arith;
          finished = ground arith;
          end_known = ground arith;
          complete = ground arith;
          ended = ground arith;
        };
        fine = refl;
        seen = λ j s. ground arith;
        end_seen = λ s. ground arith;
        arrived = ground arith;
        drained = ground arith;
      }

  receive-Receives :
      (p : Producer) (a : Arrival)
      → Inv cs cb p
      → next_chunk p ≡ none
      → IsGenuine a
      → Receives p a (receive p a)
  unfolding receive
  receive-Receives p (chunk i b) v dry g = unordered_data-Receives p i b v g
  receive-Receives p (end_after n) v dry g = unordered_end-Receives p n v dry g

  pub record ReceivesAll (p : Producer) (arrivals : List Arrival) (r : Producer × Bool)
      : Type 0 where
    pub inv : Inv cs cb r.0
    pub fine : r.1 ≡ true
    pub seen : (i : ℕ) → Seen cs cb p i ⊎ Arrives i arrivals → Seen cs cb r.0 i
    pub end_seen : EndSeen cs cb p ⊎ EndArrives arrivals → EndSeen cs cb r.0
    pub drained : next_chunk r.0 ≡ none

  still-Seen :
      {p : Producer} (a : Arrival) (arrivals : List Arrival)
      → Receives p a (receive p a)
      → (i : ℕ) → Seen cs cb p i ⊎ Arrives i (a ∷ arrivals)
      → Seen cs cb (receive p a).0 i ⊎ Arrives i arrivals
  still-Seen a arrivals r i (inl s) = inl (r.seen i s)
  still-Seen {p} (chunk j b) arrivals r i (inr (inl e)) =
      inl (subst (λ k. Seen cs cb (receive p (chunk j b)).0 k) e r.arrived)
  still-Seen (chunk j b) arrivals r i (inr (inr m)) = inr m
  still-Seen (end_after n) arrivals r i (inr m) = inr m

  end_still_seen :
      {p : Producer} (a : Arrival) (arrivals : List Arrival)
      → Receives p a (receive p a)
      → EndSeen cs cb p ⊎ EndArrives (a ∷ arrivals)
      → EndSeen cs cb (receive p a).0 ⊎ EndArrives arrivals
  end_still_seen a arrivals r (inl s) = inl (r.end_seen s)
  end_still_seen (chunk j b) arrivals r (inr m) = inr m
  end_still_seen (end_after n) arrivals r (inr m) = inl r.arrived

  pub receive_all-ReceivesAll :
      (arrivals : List Arrival) (p : Producer)
      → Inv cs cb p
      → next_chunk p ≡ none
      → All IsGenuine arrivals
      → ReceivesAll p arrivals (receive_all p arrivals)
  unfolding receive_all
  receive_all-ReceivesAll [] p v dry g = record {
    inv = v;
    fine = refl;
    seen = λ i. elim [ inl s ↦ s | inr m ↦ absurd m ];
    end_seen = elim [ inl s ↦ s | inr m ↦ absurd m ];
    drained = dry;
  }
  receive_all-ReceivesAll (a ∷ arrivals) p v dry g =
      let r = receive-Receives p a v dry g.0 in
      let rest = receive_all-ReceivesAll arrivals (receive p a).0 r.inv r.drained g.1 in
      rw (r.fine, receive_all)
        (record {
          inv = rest.inv;
          fine = rest.fine;
          seen = λ i s. rest.seen i (still-Seen a arrivals r i s);
          end_seen = λ s. rest.end_seen (end_still_seen a arrivals r s);
          drained = rest.drained;
        })
