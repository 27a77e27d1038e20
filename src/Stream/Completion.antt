-- ===== src/Stream/Completion.antt =====
-- DataStreamy: how a stream comes to its end.
use kachery_p2p.Base.{
  ℕ, zero, suc, Option-cases, Bool-cases, ◌≡◌, ◌⊎◌, inl, inr, true, false, List, [], ◌∷◌, Option,
  none, some, String, arith,
}
use kachery_p2p.Stream.{
  Buffer, DataStreamy, Timer, producer_error, producer_start, producer_end, producer_data,
  auto_start, producer_increment_bytes, producer_report_bytes_loaded, producer_set_progress,
  on_started, on_data, on_finished, on_error, on_progress, fire,
}
use kachery_p2p.Stream.Producer.{
  Producer, on_cancelled, error, start, end, data_chunk, increment_bytes, report_bytes_loaded,
  set_progress, cancel, unordered_data, unordered_end, deliver, check_end, flush, take_next,
  next_chunk,
}

-- Still open, finished without an error, or failed without having finished.
abbrev pub IsConsistent : DataStreamy → Type 0
IsConsistent s =
    ((s.completed ≡ false) × (s.finished ≡ false) × (s.error ≡ none))
    ⊎ ((s.completed ≡ true) × (s.finished ≡ true) × (s.error ≡ none))
    ⊎ ((s.completed ≡ true) × (s.finished ≡ false) × ((e : String) × (s.error ≡ some e)))

-- A step that leaves the outcome of a completed stream as it is.
record Keeps (s t : DataStreamy) : Type 0 where
  consistent : IsConsistent t
  completed : s.completed ≡ true → t.completed ≡ true
  finished : s.completed ≡ true → t.finished ≡ s.finished
  error : s.completed ≡ true → t.error ≡ s.error

Keeps-trans : {s t u : DataStreamy} → Keeps s t → Keeps t u → Keeps s u
Keeps-trans h k = ground arith

producer_error-Keeps :
    (s : DataStreamy) (e : String) → IsConsistent s → Keeps s (producer_error s e)
unfolding producer_error
producer_error-Keeps s e h = ground arith

producer_end-Keeps : (s : DataStreamy) → IsConsistent s → Keeps s (producer_end s)
unfolding producer_end
producer_end-Keeps s h = ground arith

producer_start-Keeps :
    (s : DataStreamy) (n : Option ℕ) → IsConsistent s → Keeps s (producer_start s n)
unfolding producer_start
producer_start-Keeps s n h = ground arith

producer_data-Keeps : (s : DataStreamy) (b : Buffer) → IsConsistent s → Keeps s (producer_data s b)
unfolding producer_data auto_start producer_increment_bytes
producer_data-Keeps s b h = ground arith

producer_report_bytes_loaded-Keeps :
    (s : DataStreamy) (n : ℕ) → IsConsistent s → Keeps s (producer_report_bytes_loaded s n)
unfolding producer_report_bytes_loaded
producer_report_bytes_loaded-Keeps s n h = ground arith

producer_set_progress-Keeps :
    (s : DataStreamy) (m n : ℕ) → IsConsistent s → Keeps s (producer_set_progress s m n)
unfolding producer_set_progress
producer_set_progress-Keeps s m n h = ground arith

-- What can happen to a stream and its producer.
pub data Op : Type 0 where
  registers_started registers_data registers_finished registers_error registers_progress : ℕ → Op
  registers_cancelled : ℕ → Op
  fails : String → Op
  starts : Option ℕ → Op
  ends cancels : Op
  sends : Buffer → Op
  increments reports : ℕ → Op
  progresses : (bytes_loaded bytes_total : ℕ) → Op
  receives : ℕ → Buffer → Op
  receives_end : ℕ → Op
  fires : Timer → Op

abbrev on_stream : Producer → DataStreamy → Producer
on_stream p s = record p { stream = s }

pub step : Producer → Op → Producer
step p (registers_started cb) = on_stream p (on_started p.stream cb)
step p (registers_data cb) = on_stream p (on_data p.stream cb).0
step p (registers_finished cb) = on_stream p (on_finished p.stream cb)
step p (registers_error cb) = on_stream p (on_error p.stream cb)
step p (registers_progress cb) = on_stream p (on_progress p.stream cb)
step p (registers_cancelled cb) = on_cancelled p cb
step p (fails e) = error p e
step p (starts n) = start p n
step p ends = end p
step p cancels = cancel p
step p (sends b) = data_chunk p b
step p (increments n) = increment_bytes p n
step p (reports n) = report_bytes_loaded p n
step p (progresses m n) = set_progress p m n
step p (receives i b) = (unordered_data p i b).0
step p (receives_end n) = unordered_end p n
step p (fires t) = on_stream p (fire p.stream t)

pub run : Producer → List Op → Producer
run p [] = p
run p (op ∷ ops) = run (step p op) ops

Keeps-refl : (s : DataStreamy) → IsConsistent s → Keeps s s
Keeps-refl s h = ground arith

end-Keeps : (p : Producer) → IsConsistent p.stream → Keeps p.stream (end p).stream
unfolding end
end-Keeps p h = ground (arith, producer_end-Keeps p.stream, Keeps-refl p.stream)

data_chunk-Keeps :
    (p : Producer) (b : Buffer) → IsConsistent p.stream → Keeps p.stream (data_chunk p b).stream
unfolding data_chunk
data_chunk-Keeps p b h = ground (arith, producer_data-Keeps p.stream b, Keeps-refl p.stream)

check_end-Keeps : (p : Producer) → IsConsistent p.stream → Keeps p.stream (check_end p).0.stream
unfolding check_end
check_end-Keeps p h = ground (arith, end-Keeps p, Keeps-refl p.stream)

deliver-Keeps :
    (p : Producer) (b : Buffer) → IsConsistent p.stream → Keeps p.stream (deliver p b).0.stream
unfolding deliver
deliver-Keeps p b h =
    let k = data_chunk-Keeps (take_next p) b h in
    Keeps-trans k (check_end-Keeps (data_chunk (take_next p) b) k.consistent)

flush-Keeps :
    (fuel : ℕ) (p : Producer) → IsConsistent p.stream → Keeps p.stream (flush fuel p).0.stream
unfolding flush
flush-Keeps zero p h = Keeps-refl p.stream h
flush-Keeps (suc fuel) p h = elim (Option-cases (next_chunk p)) [
  | inl e ↦ rw (e, flush) (Keeps-refl p.stream h)
  | inr (b, e) ↦
      let k = deliver-Keeps p b h in
      elim (Bool-cases (deliver p b).1) [
        | inl t ↦ rw (e, flush, t) (Keeps-trans k (flush-Keeps fuel (deliver p b).0 k.consistent))
        | inr f ↦ rw (e, flush, f) k
      ]
]

cancel-Keeps : (p : Producer) → IsConsistent p.stream → Keeps p.stream (cancel p).stream
unfolding cancel producer_error
cancel-Keeps p h = ground arith

increment_bytes-Keeps :
    (p : Producer) (n : ℕ) → IsConsistent p.stream → Keeps p.stream (increment_bytes p n).stream
unfolding increment_bytes producer_increment_bytes
increment_bytes-Keeps p n h = ground arith

step-Keeps : (p : Producer) (op : Op) → IsConsistent p.stream → Keeps p.stream (step p op).stream
unfolding step on_started on_data on_finished on_error on_progress on_cancelled error start
    report_bytes_loaded set_progress unordered_data unordered_end fire
step-Keeps p (registers_started cb) h = ground arith
step-Keeps p (registers_data cb) h = ground arith
step-Keeps p (registers_finished cb) h = ground arith
step-Keeps p (registers_error cb) h = ground arith
step-Keeps p (registers_progress cb) h = ground arith
step-Keeps p (registers_cancelled cb) h = ground arith
step-Keeps p (fails e) h = ground (arith, producer_error-Keeps p.stream e, Keeps-refl p.stream)
step-Keeps p (starts n) h = ground (arith, producer_start-Keeps p.stream n, Keeps-refl p.stream)
step-Keeps p ends h = end-Keeps p h
step-Keeps p cancels h = cancel-Keeps p h
step-Keeps p (sends b) h = data_chunk-Keeps p b h
step-Keeps p (increments n) h = increment_bytes-Keeps p n h
step-Keeps p (reports n) h =
    ground (arith, producer_report_bytes_loaded-Keeps p.stream n, Keeps-refl p.stream)
step-Keeps p (progresses m n) h = producer_set_progress-Keeps p.stream m n h
step-Keeps p (receives i b) h = flush-Keeps _ _ h
step-Keeps p (receives_end n) h = ground (arith, producer_end-Keeps p.stream, Keeps-refl p.stream)
step-Keeps p (fires (Timer.call_finished cb)) h = ground arith
step-Keeps p (fires (Timer.call_error cb)) h = ground arith
step-Keeps p (fires Timer.clear_pending) h = ground arith

run-Keeps :
    (p : Producer) (ops : List Op) → IsConsistent p.stream → Keeps p.stream (run p ops).stream
unfolding run
run-Keeps p [] h = Keeps-refl p.stream h
run-Keeps p (op ∷ ops) h =
    let k = step-Keeps p op h in Keeps-trans k (run-Keeps (step p op) ops k.consistent)

-- After any history of operations a consistent stream is consistent: it is open, or it has finished
-- without an error, or it has failed without having finished.
pub run-IsConsistent :
    (p : Producer) (ops : List Op) → IsConsistent p.stream → IsConsistent (run p ops).stream
run-IsConsistent p ops h = (run-Keeps p ops h).consistent

-- Once a consistent stream is completed, no history of operations changes how it ended.
pub run-outcome :
    (p : Producer) (ops : List Op)
    → IsConsistent p.stream
    → p.stream.completed ≡ true
    → ((run p ops).stream.completed ≡ true)
      × ((run p ops).stream.finished ≡ p.stream.finished)
      × ((run p ops).stream.error ≡ p.stream.error)
run-outcome p ops h done =
    let k = run-Keeps p ops h in (k.completed done, k.finished done, k.error done)
