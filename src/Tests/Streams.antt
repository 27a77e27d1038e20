-- ===== src/Tests/Streams.antt =====
-- Streams, maps and their theorems on concrete inputs.
use kachery_p2p.Base.{
  ℕ, zero, suc, ◌<◌, ◌≡◌, refl, inl, inr, true, List, [], ◌∷◌, none, some, String, arith, nat_eq,
}
use kachery_p2p.Base.Maps
use kachery_p2p.Base.Maps.{IsMap}
use kachery_p2p.Stream.{Buffer, new_stream}
use kachery_p2p.Stream.Producer.{Producer, new_producer}
use kachery_p2p.Stream.Completion
use kachery_p2p.Stream.Completion.{IsConsistent, Op, sends, ends, fails, run}
use kachery_p2p.Stream.Delivery.{chunks_of}
use kachery_p2p.Stream.Reassembly
use kachery_p2p.Stream.Arrivals.{Arrival, chunk, end_after, receive_all, Arrives}
use kachery_p2p.Stream.Reassembly.{IsFresh}
use kachery_p2p.GarbageMap.{GarbageMap}

-- Two chunks that arrive in the wrong order, the first of them twice.
abbrev two_chunks : List Buffer
two_chunks = (1 ∷ 2 ∷ []) ∷ (3 ∷ []) ∷ []

abbrev fresh : Producer
fresh = record new_producer { stream = record new_stream { on_data_callbacks = 7 ∷ [] } }

abbrev shuffled : List (Arrival)
shuffled = chunk 1 (3 ∷ []) ∷ end_after 2 ∷ chunk 0 (1 ∷ 2 ∷ []) ∷ chunk 0 (1 ∷ 2 ∷ []) ∷ []

fresh-IsFresh : IsFresh two_chunks 7 fresh
fresh-IsFresh = record {
  running = refl;
  next = refl;
  empty = refl;
  no_end = refl;
  callbacks = refl;
  incomplete = refl;
  unfinished = refl;
  no_error = refl;
  silent = refl;
}

all_arrive : (i : ℕ) → i < 2 → Arrives i shuffled
all_arrive zero h = inr (inl refl)
all_arrive (suc zero) h = inl refl
all_arrive (suc (suc i)) h = absurd (omega arith)

receive_all-delivers_example :
    ((receive_all fresh shuffled).1 ≡ true)
    × (chunks_of 7 (receive_all fresh shuffled).0.stream.log ≡ two_chunks)
    × ((receive_all fresh shuffled).0.stream.finished ≡ true)
    × ((receive_all fresh shuffled).0.stream.error ≡ none)
receive_all-delivers_example =
    Reassembly.receive_all-delivers two_chunks 7 fresh shuffled fresh-IsFresh
      (refl, (refl, (refl, (refl, tt)))) all_arrive tt

fresh-IsConsistent : IsConsistent fresh.stream
fresh-IsConsistent = inl (refl, refl, refl)

run-IsConsistent_example :
    IsConsistent (run fresh (sends (1 ∷ []) ∷ ends ∷ fails "late" ∷ [])).stream
run-IsConsistent_example =
    Completion.run-IsConsistent fresh (sends (1 ∷ []) ∷ ends ∷ fails "late" ∷ []) fresh-IsConsistent

-- A map whose entries live for 100 milliseconds.
abbrev small_map : GarbageMap ℕ String
small_map = record {
  entries = (1, record { value = "a"; timestamp = 10 }) ∷ [];
  expiration_timeout_msec = some 100;
  last_check_timestamp = 0;
}

small-IsMap : IsMap small_map.entries
unfolding Maps.has
small-IsMap = (refl, tt)
