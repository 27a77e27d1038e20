-- ===== src/Downloads/Runs/Retries.antt =====
-- DownloadOptimizerJob over every history of events: how it ends, and how often it tries.
use kachery_p2p.Base.{
  ℕ, suc, ◌+◌, ◌-◌, ◌≤◌, ◌≡◌, refl, inl, inr, Bool, true, false, not, ◌&&◌, List, [], ◌∷◌, ◌++◌,
  none, some, String, arith, ltb, if◌then◌else◌, string_eq, nat_eq, Option-cases, Bool-cases,
}
use kachery_p2p.GarbageMap
use kachery_p2p.Downloads.Runs.{
  Try, Job, Effect, find_providers, retry_timer, update_timer, start_downloader, stream_error,
  stream_end, next_try, start, choose_fastest_provider_node, non_busy, return_error,
  return_finished, use_candidates, update, on_found, on_find_finished,
  handle_error_in_current_downloader, error_of,
}

-- What a job meets. The timer of a retry starts the next try.
pub data Event : Type 0 where
  finds : (node_id : String) → Event
  finishes_finding wakes finishes retries : Event
  fails : (error : String) → Event

-- The time of an event, and the providers at that time.
pub record Moment : Type 0 where
  pub now : ℕ
  pub is_busy : String → Bool
  pub rate : String → ℕ

-- A retry comes from a timer that the last try has set, when it was complete.
abbrev retry : ℕ → Job → Job
retry now j = if j.current_try.complete && j.is_running then next_try now j else j

unfoldable pub step : Job → Moment × Event → Job
step j (m, finds n) = on_found m.now m.is_busy m.rate j n
step j (m, finishes_finding) = on_find_finished m.now m.is_busy m.rate j
step j (m, wakes) = update m.now m.is_busy m.rate j
step j (m, finishes) = return_finished j
step j (m, retries) = retry m.now j
step j (m, fails e) = handle_error_in_current_downloader m.now m.is_busy m.rate j e

unfoldable pub run : Job → List (Moment × Event) → Job
run j [] = j
run j (e ∷ es) = run (step j e) es

-- The calls of a kind.
abbrev pub count_effects : (Effect → Bool) → List Effect → ℕ
count_effects p [] = 0
count_effects p (e ∷ es) = let rest = count_effects p es in if p e then suc rest else rest

abbrev pub is_end : Effect → Bool
is_end (stream_error e) = true
is_end stream_end = true
is_end _ = false

abbrev pub is_search : Effect → Bool
is_search find_providers = true
is_search _ = false

count_effects-append :
    (p : Effect → Bool) (es : List Effect) (e : Effect)
    → count_effects p (es ++ e ∷ []) ≡ count_effects p es + (if p e then 1 else 0)
count_effects-append p [] e = ground arith
count_effects-append p (x ∷ es) e = ground (arith, count_effects-append p es e)

-- While the job runs its stream is open, and the searches made and the retries left are no more than the
-- retries it was given and the first try; a retry that is due is counted. When it is complete, the stream
-- has ended once.
pub record IsOrderly (num_retries : ℕ) (j : Job) : Type 0 where
  pub running : j.is_running ≡ not j.is_complete
  pub stream : count_effects is_end j.effects ≡ (if j.is_complete then 1 else 0)
  pub closed : j.is_complete ≡ true → j.current_try.complete ≡ true
  pub tries :
      count_effects is_search j.effects
        + j.num_remaining_retries
        + (if j.current_try.complete && j.is_running then 1 else 0)
      ≡ suc num_retries

return_error-IsOrderly :
    (num_retries : ℕ) (j : Job) (error : String)
    → IsOrderly num_retries j
    → IsOrderly num_retries (return_error j error)
unfolding return_error
return_error-IsOrderly k j error o = ground (
  arith,
  count_effects-append is_end j.effects (stream_error error),
  count_effects-append is_end j.effects retry_timer,
  count_effects-append is_search j.effects (stream_error error),
  count_effects-append is_search j.effects retry_timer,
)

return_finished-IsOrderly :
    (num_retries : ℕ) (j : Job)
    → IsOrderly num_retries j
    → IsOrderly num_retries (return_finished j)
unfolding return_finished
return_finished-IsOrderly k j o = ground (
  arith,
  count_effects-append is_end j.effects stream_end,
  count_effects-append is_search j.effects stream_end,
)

retry-IsOrderly :
    (num_retries now : ℕ) (j : Job) → IsOrderly num_retries j → IsOrderly num_retries (retry now j)
unfolding next_try
retry-IsOrderly k now j o = ground (
  arith,
  count_effects-append is_end j.effects find_providers,
  count_effects-append is_search j.effects find_providers,
)

-- A timer is set or a downloader started: the stream and the tries are as they were.
emit-IsOrderly :
    (num_retries : ℕ) (j : Job) (e : Effect)
    → is_end e ≡ false
    → is_search e ≡ false
    → IsOrderly num_retries j
    → IsOrderly num_retries (record j { effects = j.effects ++ e ∷ [] })
emit-IsOrderly k j e h l o =
    ground
      (arith, count_effects-append is_end j.effects e, count_effects-append is_search j.effects e)

use_candidates-IsOrderly :
    (num_retries : ℕ) (m : Moment) (j : Job)
    → IsOrderly num_retries j
    → IsOrderly num_retries (use_candidates m.now m.is_busy m.rate j)
unfolding use_candidates
use_candidates-IsOrderly k m j o =
    let t = j.current_try in
    elim (Bool-cases (not t.find_finished && ltb (m.now - j.timestamp) 500)) [
      | inl early ↦ rw early (emit-IsOrderly k j (update_timer 600) refl refl o)
      | inr late ↦
          elim (Option-cases (
            choose_fastest_provider_node m.rate
              (non_busy m.is_busy (GarbageMap.values t.provider_candidates)))) [
                | inl none_free ↦
                    rw (late, none_free) (emit-IsOrderly k j (update_timer 1000) refl refl o)
                | inr (n, chosen) ↦
                    rw (late, chosen)
                      (emit-IsOrderly k
                        (record j {
                          current_try = record t {
                            provider_candidates = GarbageMap.delete m.now t.provider_candidates n;
                            current_downloader = some n;
                          };
                        })
                        (start_downloader n) refl refl
                        (record {
                          running = o.running;
                          stream = o.stream;
                          closed = o.closed;
                          tries = o.tries;
                        }))
              ]
    ]

update-IsOrderly :
    (num_retries : ℕ) (m : Moment) (j : Job)
    → IsOrderly num_retries j
    → IsOrderly num_retries (update m.now m.is_busy m.rate j)
unfolding update
update-IsOrderly k m j o =
    ground (
      arith,
      use_candidates-IsOrderly k m j o,
      return_error-IsOrderly k j (error_of j.current_try) o,
    )

-- A change of the try that leaves it open, or closed.
set_try-IsOrderly :
    (num_retries : ℕ) (j : Job) (t : Try)
    → t.complete ≡ j.current_try.complete
    → IsOrderly num_retries j
    → IsOrderly num_retries (record j { current_try = t })
set_try-IsOrderly k j t same o = ground arith

step-IsOrderly :
    (num_retries : ℕ) (j : Job) (e : Moment × Event)
    → IsOrderly num_retries j
    → IsOrderly num_retries (step j e)
unfolding step on_found on_find_finished handle_error_in_current_downloader
step-IsOrderly k j (m, finds n) o =
    let t = record (j.current_try) {
      something_found = true;
      provider_candidates = GarbageMap.set m.now j.current_try.provider_candidates n n;
    } in
    ground
      (arith, update-IsOrderly k m (record j { current_try = t }) (set_try-IsOrderly k j t refl o))
step-IsOrderly k j (m, finishes_finding) o =
    let t = record (j.current_try) { find_finished = true } in
    ground
      (arith, update-IsOrderly k m (record j { current_try = t }) (set_try-IsOrderly k j t refl o))
step-IsOrderly k j (m, wakes) o = update-IsOrderly k m j o
step-IsOrderly k j (m, finishes) o = return_finished-IsOrderly k j o
step-IsOrderly k j (m, retries) o = retry-IsOrderly k m.now j o
step-IsOrderly k j (m, fails error) o =
    let t = record (j.current_try) {
      current_downloader = none;
      last_downloader_error = some error;
    } in
    ground
      (arith, update-IsOrderly k m (record j { current_try = t }) (set_try-IsOrderly k j t refl o))

pub run-IsOrderly :
    (num_retries : ℕ) (j : Job) (es : List (Moment × Event))
    → IsOrderly num_retries j
    → IsOrderly num_retries (run j es)
unfolding run
run-IsOrderly k j [] o = o
run-IsOrderly k j (e ∷ es) o = run-IsOrderly k (step j e) es (step-IsOrderly k j e o)

pub start-IsOrderly : (now num_retries : ℕ) → IsOrderly num_retries (start now num_retries)
unfolding start next_try
start-IsOrderly now k = ground arith

-- After any history of events a job has ended its stream, by an error or as finished, exactly if it is
-- complete, and then once; and it has searched for providers once more than its number of retries at
-- most.
pub job_ends_once :
    (now num_retries : ℕ) (es : List (Moment × Event))
    → let j = run (start now num_retries) es in
      (count_effects is_end j.effects ≡ (if j.is_complete then 1 else 0))
      × (j.is_running ≡ not j.is_complete)
      × (count_effects is_search j.effects ≤ suc num_retries)
job_ends_once now k es =
    let o = run-IsOrderly k (start now k) es (start-IsOrderly now k) in
    (o.stream, o.running, omega (arith, o.tries))
