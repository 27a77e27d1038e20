-- ===== src/Downloads/Runs.antt =====
-- daemon/src/downloadOptimizer/DownloadOptimizerJob.ts: the download of a file from one of its providers.
-- A try keeps the providers that were found and not used yet; what belongs to an older try finds it
-- complete and does nothing, so the state is that of the last one. `is_busy` and `rate` are
-- `isDownloading` and `estimatedRateBps` of a provider; progress is not modelled.
pub mod Retries
pub mod Hanging
use kachery_p2p.Base.{
  ℕ, zero, suc, ◌+◌, ◌-◌, ◌*◌, Bool, true, false, not, ◌&&◌, ◌||◌, List, [], ◌∷◌, ◌++◌, map, Option,
  none, some, String, length, ltb, leb, if◌then◌else◌, ◌==◌, string_eq, nat_eq,
}
use kachery_p2p.GarbageMap
use kachery_p2p.GarbageMap.{GarbageMap}

pub record Try : Type 0 where
  pub find_finished : Bool
  pub provider_candidates : GarbageMap String String
  pub current_downloader : Option String
  pub last_downloader_error : Option String
  pub something_found : Bool
  pub complete : Bool

-- What is done outside.
pub data Effect : Type 0 where
  find_providers retry_timer : Effect
  update_timer : (msec : ℕ) → Effect
  start_downloader : (node_id : String) → Effect
  stream_error : (error : String) → Effect
  stream_end : Effect

pub record Job : Type 0 where
  pub is_running : Bool
  pub is_complete : Bool
  pub timestamp : ℕ
  pub num_remaining_retries : ℕ
  pub current_try : Try
  pub effects : List Effect

abbrev pub candidate_lifetime_msec : ℕ
candidate_lifetime_msec = 60 * 60 * 1000

abbrev pub new_try : ℕ → Try
new_try now = record {
  find_finished = false;
  provider_candidates = GarbageMap.new_garbage_map now (some candidate_lifetime_msec);
  current_downloader = none;
  last_downloader_error = none;
  something_found = false;
  complete = false;
}

abbrev pub emit : Job → Effect → Job
emit j e = record j { effects = j.effects ++ e ∷ [] }

-- `nextTry`
unfoldable pub next_try : ℕ → Job → Job
next_try now j = emit (record j { current_try = new_try now }) find_providers

-- `start`, of a job that was made with a number of retries.
unfoldable pub start : (now num_retries : ℕ) → Job
start now num_retries = next_try now (record {
  is_running = true;
  is_complete = false;
  timestamp = now;
  num_remaining_retries = num_retries;
  current_try = new_try now;
  effects = [];
})

-- `argMax` of the rates: the first of the greatest.
unfoldable pub arg_max : {A : Type 0} → A × ℕ → List (A × ℕ) → A × ℕ
arg_max best [] = best
arg_max best (a ∷ rest) = arg_max (if ltb best.1 a.1 then a else best) rest

-- `chooseFastestProviderNode`
unfoldable pub choose_fastest_provider_node : (rate : String → ℕ) → List String → Option String
choose_fastest_provider_node rate [] = none
choose_fastest_provider_node rate (n ∷ nodes) =
    some (arg_max (n, rate n) (map (λ k. (k, rate k)) nodes)).0

unfoldable pub non_busy : (is_busy : String → Bool) → List String → List String
non_busy is_busy [] = []
non_busy is_busy (n ∷ candidates) =
    let rest = non_busy is_busy candidates in if is_busy n then rest else n ∷ rest

abbrev pub set_try : Job → Try → Job
set_try j t = record j { current_try = t }

-- `returnError`
unfoldable pub return_error : Job → (error : String) → Job
return_error j error =
    let t = j.current_try in
    let done = set_try j (record t { complete = true }) in
    if t.complete
    then j
    else if (j.num_remaining_retries == 0) || not t.something_found
    then emit (record done { is_complete = true; is_running = false }) (stream_error error)
    else emit (record done { num_remaining_retries = j.num_remaining_retries - 1 }) retry_timer

-- `returnFinished`
unfoldable pub return_finished : Job → Job
return_finished j =
    let t = j.current_try in
    if t.complete
    then j
    else emit
        (record (set_try j (record t { complete = true })) {
          is_complete = true;
          is_running = false;
        })
        stream_end

-- The error of a try that has no provider left.
abbrev pub error_of : Try → String
error_of t = elim t.last_downloader_error [
  | some e ↦ e
  | none ↦ if t.something_found then "Problem in download" else "File not found"
]

-- `update` where there are candidates.
unfoldable pub use_candidates : (now : ℕ) (is_busy : String → Bool) (rate : String → ℕ) → Job → Job
use_candidates now is_busy rate j =
    let t = j.current_try in
    if not t.find_finished && ltb (now - j.timestamp) 500
    then emit j (update_timer 600)
    else elim (choose_fastest_provider_node rate
        (non_busy is_busy (GarbageMap.values t.provider_candidates))) [
          | none ↦ emit j (update_timer 1000)
          | some n ↦
              emit
                (set_try j (record t {
                  provider_candidates = GarbageMap.delete now t.provider_candidates n;
                  current_downloader = some n;
                }))
                (start_downloader n)
        ]

-- `update`
unfoldable pub update : (now : ℕ) (is_busy : String → Bool) (rate : String → ℕ) → Job → Job
update now is_busy rate j =
    let t = j.current_try in
    if t.complete then j else elim t.current_downloader [
      | some n ↦ j
      | none ↦
          if ltb 0 (length (GarbageMap.values t.provider_candidates))
          then use_candidates now is_busy rate j
          else if t.find_finished
          then return_error j (error_of t)
          else j
    ]

-- `onFound` and `onFindFinished`, and an error of the downloader or at its start.
unfoldable pub on_found :
    (now : ℕ) (is_busy : String → Bool) (rate : String → ℕ) → Job → (node_id : String) → Job
on_found now is_busy rate j n =
    let t = j.current_try in
    if t.complete
    then j
    else update now is_busy rate (
        set_try j (record t {
          something_found = true;
          provider_candidates = GarbageMap.set now t.provider_candidates n n;
        }))

unfoldable pub on_find_finished :
    (now : ℕ) (is_busy : String → Bool) (rate : String → ℕ) → Job → Job
on_find_finished now is_busy rate j =
    let t = j.current_try in
    if t.complete
    then j
    else update now is_busy rate (set_try j (record t { find_finished = true }))

unfoldable pub handle_error_in_current_downloader :
    (now : ℕ) (is_busy : String → Bool) (rate : String → ℕ) → Job → (error : String) → Job
handle_error_in_current_downloader now is_busy rate j error =
    let t = j.current_try in
    elim t.current_downloader [
      | none ↦ j
      | some n ↦
          update now is_busy rate
            (set_try j (record t { current_downloader = none; last_downloader_error = some error }))
    ]
