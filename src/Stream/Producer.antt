-- ===== src/Stream/Producer.antt =====
-- daemon/src/common/DataStreamy.ts: class DataStreamyProducer, and `cancel` of DataStreamy.
-- `next_unordered_index` is `lastUnorderedDataIndex + 1`, since that field starts at -1.
use kachery_p2p.Base.{
  ℕ, zero, suc, ◌+◌, Bool, true, false, List, [], ◌∷◌, ◌++◌, map, Option, none, some, String,
  length, leb, if◌then◌else◌, ◌==◌, nat_eq,
}
use kachery_p2p.Base.Maps
use kachery_p2p.Stream.{
  Buffer, DataStreamy, new_stream, Event, emit, producer_error, producer_start, producer_end,
  producer_data, producer_increment_bytes, producer_report_bytes_loaded, producer_set_progress,
}

pub record Producer : Type 0 where
  pub cancelled : Bool
  pub on_cancelled_callbacks : List ℕ
  pub next_unordered_index : ℕ
  pub unordered_data_chunks_by_index : List (ℕ × Buffer)
  pub unordered_end_num_data_chunks : Option ℕ
  pub stream : DataStreamy

abbrev pub new_producer : Producer
new_producer = record {
  cancelled = false;
  on_cancelled_callbacks = [];
  next_unordered_index = 0;
  unordered_data_chunks_by_index = [];
  unordered_end_num_data_chunks = none;
  stream = new_stream;
}

-- The guard that most methods begin with.
abbrev unless_cancelled : Producer → DataStreamy → Producer
unless_cancelled p s = if p.cancelled then p else record p { stream = s }

unfoldable pub on_cancelled : Producer → ℕ → Producer
on_cancelled p cb =
    let q = if p.cancelled then record p { stream = emit p.stream (Event.cancel cb ∷ []) } else p in
    record q { on_cancelled_callbacks = q.on_cancelled_callbacks ++ cb ∷ [] }

unfoldable pub error : Producer → String → Producer
error p err = unless_cancelled p (producer_error p.stream err)

unfoldable pub start : Producer → Option ℕ → Producer
start p size = unless_cancelled p (producer_start p.stream size)

unfoldable pub end : Producer → Producer
end p = unless_cancelled p (producer_end p.stream)

unfoldable pub data_chunk : Producer → Buffer → Producer
data_chunk p buf = unless_cancelled p (producer_data p.stream buf)

unfoldable pub increment_bytes : Producer → ℕ → Producer
increment_bytes p n = unless_cancelled p (producer_increment_bytes p.stream n)

unfoldable pub report_bytes_loaded : Producer → ℕ → Producer
report_bytes_loaded p n = unless_cancelled p (producer_report_bytes_loaded p.stream n)

unfoldable pub set_progress : Producer → (bytes_loaded bytes_total : ℕ) → Producer
set_progress p loaded total = record p { stream = producer_set_progress p.stream loaded total }

-- `_cancel` of the producer.
unfoldable pub cancel_producer : Producer → Producer
cancel_producer p = if p.cancelled then p else record p {
  cancelled = true;
  stream = producer_error (emit p.stream (map Event.cancel p.on_cancelled_callbacks)) "Cancelled";
}

-- `cancel` of the stream.
unfoldable pub cancel : Producer → Producer
unfolding cancel_producer
cancel p = if p.stream.completed then p else cancel_producer p

-- The test for the end after a chunk, in `unorderedData`; false where the source throws.
unfoldable pub check_end : Producer → Producer × Bool
check_end p = elim p.unordered_end_num_data_chunks [
  | none ↦ (p, true)
  | some n ↦
      if p.next_unordered_index == n then (end p, true) else (p, leb p.next_unordered_index n)
]

-- The chunk that is next in the order is counted and taken out of the map.
abbrev pub take_next : Producer → Producer
take_next p = record p {
  next_unordered_index = p.next_unordered_index + 1;
  unordered_data_chunks_by_index =
      Maps.delete p.next_unordered_index p.unordered_data_chunks_by_index;
}

abbrev pub next_chunk : Producer → Option Buffer
next_chunk p = Maps.get p.next_unordered_index p.unordered_data_chunks_by_index

-- One round of the loop in `unorderedData`, for the chunk that is next in the order.
unfoldable pub deliver : Producer → Buffer → Producer × Bool
unfolding check_end
deliver p buf = check_end (data_chunk (take_next p) buf)

-- The loop in `unorderedData`; each round takes an entry out of the map.
unfoldable pub flush : ℕ → Producer → Producer × Bool
flush zero p = (p, true)
flush (suc fuel) p = elim (next_chunk p) [
  | none ↦ (p, true)
  | some buf ↦ elim (deliver p buf).1 [
    | true ↦ flush fuel (deliver p buf).0
    | false ↦ deliver p buf
  ]
]

unfoldable pub unordered_data : Producer → ℕ → Buffer → Producer × Bool
unordered_data p index buf =
    let chunks = Maps.set index buf p.unordered_data_chunks_by_index in
    flush (length chunks) (record p { unordered_data_chunks_by_index = chunks })

unfoldable pub unordered_end : Producer → ℕ → Producer
unfolding end
unordered_end p num_data_chunks =
    if leb num_data_chunks p.next_unordered_index
    then end p
    else record p { unordered_end_num_data_chunks = some num_data_chunks }
