-- ===== src/Downloads/Runs/Hanging.antt =====
-- DownloadOptimizerJob without an end of the search for providers.
use kachery_p2p.Base.{ℕ, ◌≡◌, true, false, List, [], ◌∷◌, none, some, arith, string_eq, nat_eq, All}
use kachery_p2p.GarbageMap
use kachery_p2p.Downloads.Runs.{
  Job, next_try, start, use_candidates, update, on_found, handle_error_in_current_downloader,
}
use kachery_p2p.Downloads.Runs.Retries.{
  Event, finds, finishes_finding, wakes, finishes, retries, fails, Moment, step, run, run-IsOrderly,
  start-IsOrderly,
}

-- The search has not finished, and the download has not.
abbrev pub IsUnfinished : Moment × Event → Type 0
IsUnfinished (m, finishes_finding) = ⊥
IsUnfinished (m, finishes) = ⊥
IsUnfinished _ = Unit {0}

record Hangs (j : Job) : Type 0 where
  open_job : j.is_complete ≡ false
  open_try : j.current_try.complete ≡ false
  searching : j.current_try.find_finished ≡ false

use_candidates-Hangs :
    (m : Moment) (j : Job) → Hangs j → Hangs (use_candidates m.now m.is_busy m.rate j)
unfolding use_candidates
use_candidates-Hangs m j h = ground arith

update-Hangs : (m : Moment) (j : Job) → Hangs j → Hangs (update m.now m.is_busy m.rate j)
unfolding update
update-Hangs m j h = ground (arith, use_candidates-Hangs m j h)

step-Hangs : (j : Job) (e : Moment × Event) → IsUnfinished e → Hangs j → Hangs (step j e)
unfolding step on_found handle_error_in_current_downloader
step-Hangs j (m, finds n) u h =
    let t = record (j.current_try) {
      something_found = true;
      provider_candidates = GarbageMap.set m.now j.current_try.provider_candidates n n;
    } in
    let kept : Hangs (record j { current_try = t }) = ground arith in
    ground (arith, update-Hangs m (record j { current_try = t }) kept)
step-Hangs j (m, finishes_finding) u h = absurd u
step-Hangs j (m, wakes) u h = update-Hangs m j h
step-Hangs j (m, finishes) u h = absurd u
step-Hangs j (m, retries) u h = ground arith
step-Hangs j (m, fails error) u h =
    let t = record (j.current_try) {
      current_downloader = none;
      last_downloader_error = some error;
    } in
    let kept : Hangs (record j { current_try = t }) = ground arith in
    ground (arith, update-Hangs m (record j { current_try = t }) kept)

run-Hangs :
    (j : Job) (es : List (Moment × Event)) → All IsUnfinished es → Hangs j → Hangs (run j es)
unfolding run
run-Hangs j [] u h = h
run-Hangs j (e ∷ es) (u, us) h = run-Hangs (step j e) es us (step-Hangs j e u h)

-- A job whose search is never reported as finished, as for a task that names the node to download from,
-- does not end unless a download finishes: however many downloads fail, it stays running and incomplete.
pub job_hangs :
    (now num_retries : ℕ) (es : List (Moment × Event))
    → All IsUnfinished es
    → ((run (start now num_retries) es).is_complete ≡ false)
      × ((run (start now num_retries) es).is_running ≡ true)
unfolding start next_try
job_hangs now k es u =
    let o = run-IsOrderly k (start now k) es (start-IsOrderly now k) in
    let h = run-Hangs (start now k) es u (ground arith) in
    (h.open_job, ground (arith, o.running, h.open_job))
