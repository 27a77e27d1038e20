-- ===== src/Stream/Delivery.antt =====
-- DataStreamyProducer.unorderedData: one chunk at a time, in the order of the indices.
use kachery_p2p.Base.{
  ℕ, ◌+◌, ◌≡◌, refl, inl, inr, true, false, List, [], ◌∷◌, ◌++◌, map, Option, none, arith, length,
  append-nil, Option-cases, nat_eq, ◌==◌, if◌then◌else◌,
}
use kachery_p2p.Stream.{
  Buffer, DataStreamy, Event, emit, producer_data, producer_end, auto_start,
  producer_increment_bytes,
}

auto_start-callbacks : (s : DataStreamy) → (auto_start s).on_data_callbacks ≡ s.on_data_callbacks
unfolding auto_start
auto_start-callbacks s = ground arith

increment_bytes-callbacks :
    (s : DataStreamy) (n : ℕ)
    → (producer_increment_bytes s n).on_data_callbacks ≡ s.on_data_callbacks
unfolding producer_increment_bytes
increment_bytes-callbacks s n = ground arith

-- The chunks that callback `cb` was called with, in order.
abbrev pub chunks_of : ℕ → List Event → List Buffer
chunks_of cb [] = []
chunks_of cb (Event.chunk c b ∷ log) = if c == cb then b ∷ chunks_of cb log else chunks_of cb log
chunks_of cb (_ ∷ log) = chunks_of cb log

chunks_of-append :
    (cb : ℕ) (xs ys : List Event) → chunks_of cb (xs ++ ys) ≡ chunks_of cb xs ++ chunks_of cb ys
chunks_of-append cb [] ys = refl
chunks_of-append cb (Event.chunk c b ∷ xs) ys = ground (arith, chunks_of-append cb xs ys)
chunks_of-append cb (_ ∷ xs) ys = chunks_of-append cb xs ys

module _ (cb : ℕ) where
  chunks_of-start : (n : Option ℕ) (cs : List ℕ) → chunks_of cb (map (λ c. Event.start c n) cs) ≡ []
  chunks_of-start n [] = refl
  chunks_of-start n (c ∷ cs) = chunks_of-start n cs

  chunks_of-complete : (cs : List ℕ) → chunks_of cb (map Event.complete cs) ≡ []
  chunks_of-complete [] = refl
  chunks_of-complete (c ∷ cs) = chunks_of-complete cs

  chunks_of-finish : (cs : List ℕ) → chunks_of cb (map Event.finish cs) ≡ []
  chunks_of-finish [] = refl
  chunks_of-finish (c ∷ cs) = chunks_of-finish cs

  chunks_of-progress :
      (m n : ℕ) (cs : List ℕ) → chunks_of cb (map (λ c. Event.progress c m n) cs) ≡ []
  chunks_of-progress m n [] = refl
  chunks_of-progress m n (c ∷ cs) = chunks_of-progress m n cs

  chunks_of-auto_start : (s : DataStreamy) → chunks_of cb (auto_start s).log ≡ chunks_of cb s.log
  unfolding auto_start
  chunks_of-auto_start s = ground (
    arith,
    chunks_of-append cb s.log (map (λ c. Event.start c none) s.on_started_callbacks),
    chunks_of-start none s.on_started_callbacks,
    append-nil (chunks_of cb s.log),
  )

  chunks_of-increment_bytes :
      (s : DataStreamy) (n : ℕ)
      → chunks_of cb (producer_increment_bytes s n).log ≡ chunks_of cb s.log
  unfolding producer_increment_bytes
  chunks_of-increment_bytes s n = elim (Option-cases s.size) [
    | inl e ↦ ground arith
    | inr (k, e) ↦
        let calls = map (λ c. Event.progress c (s.bytes_loaded + n) k) s.on_progress_callbacks in
        ground (
          arith,
          chunks_of-append cb s.log calls,
          chunks_of-progress (s.bytes_loaded + n) k s.on_progress_callbacks,
          append-nil (chunks_of cb s.log),
        )
  ]

  -- A chunk that is sent reaches the one data callback, behind what it had before.
  pub chunks_of-producer_data :
      (s : DataStreamy) (b : Buffer)
      → s.completed ≡ false
      → s.on_data_callbacks ≡ cb ∷ []
      → chunks_of cb (producer_data s b).log ≡ chunks_of cb s.log ++ b ∷ []
  unfolding producer_data
  chunks_of-producer_data s b running one =
      let t = auto_start s in
      let calls = map (λ c. Event.chunk c b) t.on_data_callbacks in
      ground (
        arith,
        auto_start-callbacks s,
        increment_bytes-callbacks (emit t calls) (length b),
        chunks_of-auto_start s,
        chunks_of-append cb t.log calls,
        chunks_of-increment_bytes (emit t calls) (length b),
      )

  pub chunks_of-producer_end :
      (s : DataStreamy) → chunks_of cb (producer_end s).log ≡ chunks_of cb s.log
  unfolding producer_end
  chunks_of-producer_end s = ground (
    arith,
    chunks_of-append cb s.log (map Event.complete s.on_complete_callbacks),
    chunks_of-append cb (s.log ++ map Event.complete s.on_complete_callbacks)
        (map Event.finish s.on_finished_callbacks),
    chunks_of-complete s.on_complete_callbacks,
    chunks_of-finish s.on_finished_callbacks,
    append-nil (chunks_of cb s.log),
  )

-- What a chunk that is sent leaves alone.
pub producer_data_frame :
    (s : DataStreamy) (b : Buffer)
    → ((producer_data s b).completed ≡ s.completed)
      × ((producer_data s b).finished ≡ s.finished)
      × ((producer_data s b).error ≡ s.error)
      × ((producer_data s b).on_data_callbacks ≡ s.on_data_callbacks)
unfolding producer_data auto_start producer_increment_bytes
producer_data_frame s b = ground arith

pub producer_end_frame :
    (s : DataStreamy)
    → ((producer_end s).completed ≡ true)
      × ((producer_end s).error ≡ s.error)
      × ((producer_end s).on_data_callbacks ≡ s.on_data_callbacks)
      × ((producer_end s).finished ≡ (if s.completed then s.finished else true))
unfolding producer_end
producer_end_frame s = ground arith
