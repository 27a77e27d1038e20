-- ===== src/Stream.antt =====
-- daemon/src/common/DataStreamy.ts: class DataStreamy, a stream of data chunks with callbacks.
-- A callback is a number, and a call of one is an entry of `log`, oldest first; what a callback does
-- in its turn is not modelled. `setTimeout` puts an entry in `timers`.
pub mod Producer
pub mod Completion
pub mod Delivery
pub mod Flushing
pub mod Arrivals
pub mod Reassembly
use kachery_p2p.Base.{
  ℕ, suc, ◌+◌, ◌≡◌, Bool, true, false, ◌&&◌, List, [], ◌∷◌, ◌++◌, map, Option, none, some, String,
  length, ltb, if◌then◌else◌,
}

abbrev pub Buffer : Type 0
Buffer = List ℕ

-- A call of a callback with its argument.
pub data Event : Type 0 where
  start : ℕ → Option ℕ → Event
  chunk : ℕ → Buffer → Event
  finish : ℕ → Event
  complete : ℕ → Event
  fail : ℕ → String → Event
  progress : ℕ → (bytes_loaded bytes_total : ℕ) → Event
  cancel : ℕ → Event

pub data Timer : Type 0 where
  call_finished : ℕ → Timer
  call_error : ℕ → Timer
  clear_pending : Timer

pub record DataStreamy : Type 0 where
  pub completed : Bool
  pub finished : Bool
  pub started : Bool
  pub size : Option ℕ
  pub bytes_loaded : ℕ
  pub error : Option String
  pub pending_data_chunks : List Buffer
  pub on_started_callbacks : List ℕ
  pub on_data_callbacks : List ℕ
  pub on_finished_callbacks : List ℕ
  pub on_complete_callbacks : List ℕ
  pub on_error_callbacks : List ℕ
  pub on_progress_callbacks : List ℕ
  pub timers : List Timer
  pub log : List Event

abbrev pub new_stream : DataStreamy
new_stream = record {
  completed = false;
  finished = false;
  started = false;
  size = none;
  bytes_loaded = 0;
  error = none;
  pending_data_chunks = [];
  on_started_callbacks = [];
  on_data_callbacks = [];
  on_finished_callbacks = [];
  on_complete_callbacks = [];
  on_error_callbacks = [];
  on_progress_callbacks = [];
  timers = [];
  log = [];
}

abbrev pub emit : DataStreamy → List Event → DataStreamy
emit s events = record s { log = s.log ++ events }

abbrev pub set_timer : DataStreamy → Timer → DataStreamy
set_timer s t = record s { timers = s.timers ++ t ∷ [] }

unfoldable pub on_started : DataStreamy → ℕ → DataStreamy
on_started s cb =
    let t = if s.started then emit s (start cb s.size ∷ []) else s in
    record t { on_started_callbacks = t.on_started_callbacks ++ cb ∷ [] }

-- The second component is false where the source throws, which changes nothing.
unfoldable pub on_data : DataStreamy → ℕ → DataStreamy × Bool
on_data s cb = if ltb 0 (length s.on_data_callbacks) && ltb 0 s.bytes_loaded then (s, false) else (
  record s {
    log = s.log ++ map (chunk cb) s.pending_data_chunks;
    pending_data_chunks = [];
    on_data_callbacks = s.on_data_callbacks ++ cb ∷ [];
  },
  true,
)

unfoldable pub on_finished : DataStreamy → ℕ → DataStreamy
on_finished s cb =
    let t = if s.finished then set_timer s (call_finished cb) else s in
    record t { on_finished_callbacks = t.on_finished_callbacks ++ cb ∷ [] }

unfoldable pub on_error : DataStreamy → ℕ → DataStreamy
on_error s cb =
    let t : DataStreamy = elim s.error [ none ↦ s | some _ ↦ set_timer s (call_error cb) ] in
    record t { on_error_callbacks = t.on_error_callbacks ++ cb ∷ [] }

-- The sizes that the source's test `this.#size` takes for true.
abbrev pub truthy : Option ℕ → Option ℕ
truthy none = none
truthy (some n) = if ltb 0 n then some n else none

unfoldable pub on_progress : DataStreamy → ℕ → DataStreamy
on_progress s cb =
    let t : DataStreamy = elim (truthy s.size) [
      | none ↦ s
      | some n ↦ if ltb 0 s.bytes_loaded then emit s (progress cb s.bytes_loaded n ∷ []) else s
    ] in
    record t { on_progress_callbacks = t.on_progress_callbacks ++ cb ∷ [] }

unfoldable pub handle_complete : DataStreamy → DataStreamy
handle_complete s =
    let t = record s { completed = true; log = s.log ++ map complete s.on_complete_callbacks } in
    if ltb 0 (length t.pending_data_chunks) then set_timer t clear_pending else t

unfoldable pub producer_error : DataStreamy → String → DataStreamy
unfolding handle_complete
producer_error s err =
    if s.completed
    then s
    else let t = handle_complete s in
      record t { error = some err; log = t.log ++ map (λ cb. fail cb err) t.on_error_callbacks }

unfoldable pub producer_start : DataStreamy → Option ℕ → DataStreamy
producer_start s size = if s.completed then s else if s.started then s else record s {
  started = true;
  size = size;
  log = s.log ++ map (λ cb. start cb size) s.on_started_callbacks;
}

unfoldable pub producer_end : DataStreamy → DataStreamy
unfolding handle_complete
producer_end s =
    if s.completed
    then s
    else let t = handle_complete s in
      record t { finished = true; log = t.log ++ map finish t.on_finished_callbacks }

-- The calls of the progress callbacks, if the size is known.
abbrev pub report_progress : DataStreamy → DataStreamy
report_progress s = elim s.size [
  | none ↦ s
  | some n ↦ emit s (map (λ cb. progress cb s.bytes_loaded n) s.on_progress_callbacks)
]

unfoldable pub producer_report_bytes_loaded : DataStreamy → ℕ → DataStreamy
producer_report_bytes_loaded s n = report_progress (record s { bytes_loaded = n })

unfoldable pub producer_increment_bytes : DataStreamy → ℕ → DataStreamy
unfolding producer_report_bytes_loaded
producer_increment_bytes s n = producer_report_bytes_loaded s (s.bytes_loaded + n)

-- The start of the stream that the first chunk makes, where `producer_start` has not been called.
unfoldable pub auto_start : DataStreamy → DataStreamy
auto_start s = if s.started then s else record s {
  started = true;
  log = s.log ++ map (λ cb. start cb none) s.on_started_callbacks;
}

unfoldable pub producer_data : DataStreamy → Buffer → DataStreamy
producer_data s buf =
    if s.completed
    then s
    else let t = auto_start s in
      let u = emit t (map (λ cb. chunk cb buf) t.on_data_callbacks) in
      let v = producer_increment_bytes u (length buf) in
      elim v.on_data_callbacks [
        | [] ↦ record v { pending_data_chunks = v.pending_data_chunks ++ buf ∷ [] }
        | _ ↦ v
      ]

unfoldable pub producer_set_progress : DataStreamy → (bytes_loaded bytes_total : ℕ) → DataStreamy
producer_set_progress s loaded total =
    let t = record s { bytes_loaded = loaded } in
    report_progress (if ltb 0 total then record t { size = some total } else t)

-- What runs when a timer is due.
unfoldable pub fire : DataStreamy → Timer → DataStreamy
fire s (call_finished cb) = emit s (finish cb ∷ [])
fire s (call_error cb) = elim s.error [ none ↦ s | some err ↦ emit s (fail cb err ∷ []) ]
fire s clear_pending = record s { pending_data_chunks = [] }
