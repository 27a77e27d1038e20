-- ===== src/Stream/Reassembly.antt =====
-- DataStreamyProducer.unorderedData and unorderedEnd: chunks that arrive in any order, some of them
-- more than once, leave the stream in the order of their indices.
use kachery_p2p.Base.{
  ℕ, ◌<◌, ◌≡◌, ◌∙◌, inl, inr, true, false, List, [], ◌∷◌, none, arith, length, take_of_length-le,
  nat_eq, All,
}
use native.Mathlib.Decide.{dec_lt}
use kachery_p2p.Base.Maps
use kachery_p2p.Base.Maps.{get-set, get-delete, length-delete_lt, has_of_get, get-none_of_length}
use kachery_p2p.Stream.{Buffer}
use kachery_p2p.Stream.Delivery.{chunks_of}
use kachery_p2p.Stream.Producer.{Producer, next_chunk}
use kachery_p2p.Stream.Flushing.{Inv, Seen, EndSeen}
use kachery_p2p.Stream.Arrivals.{
  Arrival, IsGenuine, receive_all, Arrives, EndArrives, receive_all-ReceivesAll,
}

module _ (cs : List Buffer) (cb : ℕ) where
  -- A producer that has received nothing, over an open stream with one data callback.
  pub record IsFresh (p : Producer) : Type 0 where
    pub running : p.cancelled ≡ false
    pub next : p.next_unordered_index ≡ 0
    pub empty : p.unordered_data_chunks_by_index ≡ []
    pub no_end : p.unordered_end_num_data_chunks ≡ none
    pub callbacks : p.stream.on_data_callbacks ≡ cb ∷ []
    pub incomplete : p.stream.completed ≡ false
    pub unfinished : p.stream.finished ≡ false
    pub no_error : p.stream.error ≡ none
    pub silent : chunks_of cb p.stream.log ≡ []

  IsFresh-Inv : (p : Producer) → IsFresh p → Inv cs cb p
  unfolding Maps.get
  IsFresh-Inv p f = record {
    running = f.running;
    callbacks = f.callbacks;
    waiting = λ i b h. ground arith;
    within = omega arith;
    delivered = ground arith;
    no_error = f.no_error;
    finished = ground arith;
    end_known = inl f.no_end;
    complete = ground arith;
    ended = ground arith;
  }

  IsFresh-dry : (p : Producer) → IsFresh p → next_chunk p ≡ none
  unfolding Maps.get
  IsFresh-dry p f = ground arith

  all_next :
      (p : Producer)
      → Inv cs cb p
      → next_chunk p ≡ none
      → ((i : ℕ) → i < length cs → Seen cs cb p i)
      → p.next_unordered_index ≡ length cs
  all_next p v dry seen = elim (dec_lt p.next_unordered_index (length cs)) [
    | yes lt ↦ absurd (ground (arith, seen p.next_unordered_index lt))
    | no h ↦ omega arith
  ]

  all_delivered :
      (p : Producer)
      → Inv cs cb p
      → next_chunk p ≡ none
      → ((i : ℕ) → i < length cs → Seen cs cb p i)
      → EndSeen cs cb p
      → (chunks_of cb p.stream.log ≡ cs) × (p.stream.finished ≡ true) × (p.stream.error ≡ none)
  all_delivered p v dry seen end_seen =
      let e = all_next p v dry seen in
      (
        v.delivered ∙ rw e (take_of_length-le (length cs) cs (omega arith)),
        ground arith,
        v.no_error,
      )

  -- Reassembly of a data stream. Messages arrive in any order and any number of times, each a chunk
  -- of `cs` under its own index or the right number of chunks. If every chunk and the end are among
  -- them, a fresh producer never throws, the data callback has been called with exactly the chunks
  -- of `cs` in their order, and the stream has finished without an error.
  pub receive_all-delivers :
      (p : Producer) (arrivals : List Arrival)
      → IsFresh p
      → All (IsGenuine cs cb) arrivals
      → ((i : ℕ) → i < length cs → Arrives i arrivals)
      → EndArrives arrivals
      → ((receive_all p arrivals).1 ≡ true)
        × (chunks_of cb (receive_all p arrivals).0.stream.log ≡ cs)
        × ((receive_all p arrivals).0.stream.finished ≡ true)
        × ((receive_all p arrivals).0.stream.error ≡ none)
  receive_all-delivers p arrivals f genuine every ending =
      let r =
        receive_all-ReceivesAll cs cb arrivals p (IsFresh-Inv p f) (IsFresh-dry p f) genuine in
      let (delivered, finished, no_error) =
        all_delivered (receive_all p arrivals).0 r.inv r.drained (λ i h. r.seen i (inr (every i h)))
          (r.end_seen (inr ending)) in
      (r.fine, delivered, finished, no_error)
