-- ===== src/Stream/Flushing.antt =====
-- The loop of DataStreamyProducer.unorderedData: the invariant of a producer that receives chunks out
-- of order, what a round keeps of it, and that the rounds deliver every chunk that can be delivered.
use kachery_p2p.Base.{
  ℕ, zero, suc, ◌≤◌, ◌<◌, ◌≡◌, refl, ap, ◌⊎◌, inl, inr, Bool, true, false, List, [], ◌∷◌, none,
  some, arith, length, take, take-suc, get_elem?, get_elem?-lt, Option-cases, nat_eq,
}
use kachery_p2p.Base.Maps
use kachery_p2p.Base.Maps.{get-set, get-delete, length-delete_lt, has_of_get, get-none_of_length}
use kachery_p2p.Stream.{Buffer, producer_data}
use kachery_p2p.Stream.Delivery.{
  chunks_of, chunks_of-producer_data, chunks_of-producer_end, producer_data_frame,
  producer_end_frame,
}
use kachery_p2p.Stream.Producer.{
  Producer, data_chunk, end, check_end, deliver, flush, take_next, next_chunk,
}

module _ (cs : List Buffer) (cb : ℕ) where
  -- The stream has been given the first chunks of `cs`, and what waits in the map is some of the rest.
  pub record Inv (p : Producer) : Type 0 where
    pub running : p.cancelled ≡ false
    pub callbacks : p.stream.on_data_callbacks ≡ cb ∷ []
    pub waiting :
        (i : ℕ) (b : Buffer)
        → Maps.get i p.unordered_data_chunks_by_index ≡ some b
        → get_elem? cs i ≡ some b
    pub within : p.next_unordered_index ≤ length cs
    pub delivered : chunks_of cb p.stream.log ≡ take p.next_unordered_index cs
    pub no_error : p.stream.error ≡ none
    pub finished : p.stream.finished ≡ p.stream.completed
    pub end_known :
        (p.unordered_end_num_data_chunks ≡ none)
        ⊎ (p.unordered_end_num_data_chunks ≡ some (length cs))
    pub complete : p.stream.completed ≡ true → p.next_unordered_index ≡ length cs
    pub ended :
        p.unordered_end_num_data_chunks ≡ some (length cs)
        → p.next_unordered_index ≡ length cs
        → p.stream.completed ≡ true

  -- The chunk with index `i` has been received.
  abbrev pub Seen : Producer → ℕ → Type 0
  Seen p i =
      (i < p.next_unordered_index)
      ⊎ ((b : Buffer) × (Maps.get i p.unordered_data_chunks_by_index ≡ some b))

  abbrev pub EndSeen : Producer → Type 0
  EndSeen p = (p.stream.completed ≡ true) ⊎ (p.unordered_end_num_data_chunks ≡ some (length cs))

  -- What a round of the loop gives.
  record Delivers (p : Producer) (r : Producer × Bool) : Type 0 where
    inv : Inv r.0
    fine : r.1 ≡ true
    seen : (i : ℕ) → Seen p i → Seen r.0 i
    end_seen : EndSeen p → EndSeen r.0
    chunks :
        r.0.unordered_data_chunks_by_index
        ≡ Maps.delete p.next_unordered_index p.unordered_data_chunks_by_index

  deliver-Delivers :
      (p : Producer) (b : Buffer) → Inv p → next_chunk p ≡ some b → Delivers p (deliver p b)
  unfolding deliver data_chunk check_end end
  deliver-Delivers p b v e =
      let q = take_next p in
      let here = v.waiting p.next_unordered_index b e in
      let lt = get_elem?-lt cs p.next_unordered_index b here in
      let open_stream : p.stream.completed ≡ false = ground (arith, v.complete) in
      let sent = producer_data_frame p.stream b in
      let closed = producer_end_frame (producer_data p.stream b) in
      let same : (deliver p b).0.unordered_data_chunks_by_index
          ≡ Maps.delete p.next_unordered_index p.unordered_data_chunks_by_index =
        ground arith in
      let moved : (deliver p b).0.next_unordered_index ≡ suc p.next_unordered_index =
        ground arith in
      record {
        inv = record {
          running = ground arith;
          callbacks = ground arith;
          waiting = λ i c h. v.waiting i c (
              ground (arith, get-delete p.next_unordered_index i p.unordered_data_chunks_by_index));
          within = omega (arith, moved);
          delivered = ground (
            arith,
            chunks_of-producer_data cb p.stream b open_stream v.callbacks,
            chunks_of-producer_end cb (producer_data p.stream b),
            take-suc p.next_unordered_index cs b here,
          );
          no_error = ground arith;
          finished = ground arith;
          end_known = ground arith;
          complete = ground arith;
          ended = ground arith;
        };
        fine = ground arith;
        seen = λ i h.
            ground (arith, get-delete p.next_unordered_index i p.unordered_data_chunks_by_index);
        end_seen = λ h. ground arith;
        chunks = ground arith;
      }

  -- What the loop gives; its rounds suffice to empty the map of what can be delivered.
  pub record Flushes (p : Producer) (r : Producer × Bool) : Type 0 where
    pub inv : Inv r.0
    pub fine : r.1 ≡ true
    pub seen : (i : ℕ) → Seen p i → Seen r.0 i
    pub end_seen : EndSeen p → EndSeen r.0
    pub drained : next_chunk r.0 ≡ none

  pub flush-Flushes :
      (fuel : ℕ) (p : Producer)
      → length p.unordered_data_chunks_by_index ≤ fuel
      → Inv p
      → Flushes p (flush fuel p)
  unfolding flush
  flush-Flushes zero p h v = record {
    inv = v;
    fine = refl;
    seen = λ i s. s;
    end_seen = λ s. s;
    drained = get-none_of_length _ _ h;
  }
  flush-Flushes (suc fuel) p h v = elim (Option-cases (next_chunk p)) [
    | inl e ↦
        rw (e, flush)
          (record { inv = v; fine = refl; seen = λ i s. s; end_seen = λ s. s; drained = e })
    | inr (b, e) ↦
        let d = deliver-Delivers p b v e in
        let fewer =
          length-delete_lt p.next_unordered_index p.unordered_data_chunks_by_index
            (has_of_get _ _ b e) in
        let r = flush-Flushes fuel (deliver p b).0 (omega (arith, ap length d.chunks)) d.inv in
        rw (e, flush, d.fine)
          (record {
            inv = r.inv;
            fine = r.fine;
            seen = λ i s. r.seen i (d.seen i s);
            end_seen = λ s. r.end_seen (d.end_seen s);
            drained = r.drained;
          })
  ]
