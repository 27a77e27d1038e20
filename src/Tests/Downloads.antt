-- ===== src/Tests/Downloads.antt =====
-- Downloads on concrete inputs.
use kachery_p2p.Base.{
  ℕ, ◌+◌, ◌≤◌, ◌≡◌, refl, true, false, not, List, [], ◌∷◌, ◌++◌, String, string_eq, ◌==◌, All,
  length, arith, if◌then◌else◌, suc,
}
use text.Mathlib.TextEquality.{eq_iff}
use kachery_p2p.Base.Maps
use kachery_p2p.GarbageMap
use kachery_p2p.Downloads
use kachery_p2p.Downloads.{
  num_running, new_download_optimizer, wait_for_ready, max_num_simultaneous_file_downloads,
  job_lifetime_msec,
}
use kachery_p2p.Downloads.Limit
use kachery_p2p.Downloads.Simultaneous
use kachery_p2p.Downloads.Simultaneous.{StillRuns, AreDistinct}
use kachery_p2p.Downloads.Limit.{Op, waits, creates, deletes, completes, updates, run}
use kachery_p2p.Downloads.Runs.{start}
use kachery_p2p.Downloads.Runs.Hanging
use kachery_p2p.Downloads.Runs.Retries
use kachery_p2p.Downloads.Runs.Retries.{
  Moment, finds, finishes_finding, wakes, finishes, retries, fails, count_effects, is_end,
  is_search,
}

-- Six files are asked for, and one of the running downloads is given up.
abbrev six_asked : List Op
six_asked =
    creates 1 "a" "1"
    ∷ creates 1 "b" "2"
    ∷ creates 1 "c" "3"
    ∷ creates 1 "d" "4"
    ∷ creates 1 "e" "5"
    ∷ creates 1 "f" "6"
    ∷ updates 2
    ∷ []

abbrev one_given_up : List Op
one_given_up = deletes 3 "a" "1" ∷ updates 4 ∷ []

abbrev six_files : List Op
six_files = six_asked ++ one_given_up

abbrev five_files : List String
five_files = "b" ∷ "c" ∷ "d" ∷ "e" ∷ "f" ∷ []

five_files-AreDistinct : AreDistinct five_files
unfolding Downloads.contains
five_files-AreDistinct = (refl, (refl, (refl, (refl, (refl, tt)))))

a_is_other : (k : String) → ("a" == k) ≡ false → ¬ ("a" ≡ k)
a_is_other k h same = ground (arith, h, eq_iff "a" k, same)

five_files-StillRuns : All (λ k. StillRuns 0 six_files k) five_files
unfolding run new_download_optimizer Limit.step Downloads.create_task Downloads.delete_task
    Downloads.update Downloads.find_or_add_job Downloads.add_task Downloads.replace_tasks
    Downloads.contains Downloads.remove Downloads.drop_job Downloads.modify_job
    Downloads.delete_complete Downloads.start_jobs num_running GarbageMap.get GarbageMap.set
    GarbageMap.delete GarbageMap.keys GarbageMap.new_garbage_map GarbageMap.check_garbage_collection
    GarbageMap.collect GarbageMap.keys_to_delete GarbageMap.delete_all Maps.get Maps.set Maps.has
    Maps.delete
five_files-StillRuns =
    let soon : 3 ≤ 1 + job_lifetime_msec = omega arith in
    let later : 4 ≤ 1 + job_lifetime_msec = omega arith in
    (
      (six_asked, one_given_up, 1, refl, refl, ((soon, a_is_other "b" refl), (later, tt))),
      (
        (six_asked, one_given_up, 1, refl, refl, ((soon, a_is_other "c" refl), (later, tt))),
        (
          (six_asked, one_given_up, 1, refl, refl, ((soon, a_is_other "d" refl), (later, tt))),
          (
            (six_asked, one_given_up, 1, refl, refl, ((soon, a_is_other "e" refl), (later, tt))),
            ((six_files, [], 1, refl, refl, tt), tt),
          ),
        ),
      ),
    )

five_run_at_most_example : length five_files ≤ max_num_simultaneous_file_downloads
five_run_at_most_example =
    Simultaneous.five_run_at_most 0 six_files five_files five_files-AreDistinct five_files-StillRuns

-- With the download that was given up, six run.
six_run :
    num_running (run (new_download_optimizer 0) six_files).jobs.entries
      + (run (new_download_optimizer 0) six_files).detached
    ≡ 6
unfolding num_running run new_download_optimizer Limit.step Downloads.create_task
    Downloads.delete_task Downloads.update Downloads.find_or_add_job Downloads.add_task
    Downloads.replace_tasks Downloads.contains Downloads.remove Downloads.drop_job
    Downloads.modify_job Downloads.delete_complete Downloads.start_jobs GarbageMap.get
    GarbageMap.set GarbageMap.delete GarbageMap.keys GarbageMap.new_garbage_map
    GarbageMap.check_garbage_collection GarbageMap.collect GarbageMap.keys_to_delete
    GarbageMap.delete_all Maps.get Maps.set Maps.has Maps.delete
six_run = refl

abbrev at_time : ℕ → Moment
at_time n = record { now = n; is_busy = λ k. false; rate = λ k. 1000 }

-- A provider is found, its download fails, and the second try finishes.
abbrev second_try : List (Moment × Retries.Event)
second_try =
    (at_time 10, finds "p")
    ∷ (at_time 20, finishes_finding)
    ∷ (at_time 30, fails "lost")
    ∷ (at_time 40, retries)
    ∷ (at_time 50, finds "p")
    ∷ (at_time 900, wakes)
    ∷ (at_time 950, finishes)
    ∷ []

job_ends_once_example :
    (count_effects is_end (Retries.run (start 0 1) second_try).effects
      ≡ (if (Retries.run (start 0 1) second_try).is_complete then 1 else 0))
    × ((Retries.run (start 0 1) second_try).is_running
        ≡ not (Retries.run (start 0 1) second_try).is_complete)
    × (count_effects is_search (Retries.run (start 0 1) second_try).effects ≤ suc 1)
job_ends_once_example = Retries.job_ends_once 0 1 second_try

abbrev one_source : List (Moment × Retries.Event)
one_source = (at_time 10, finds "p") ∷ (at_time 700, wakes) ∷ (at_time 900, fails "lost") ∷ []

job_hangs_example :
    ((Retries.run (start 0 3) one_source).is_complete ≡ false)
    × ((Retries.run (start 0 3) one_source).is_running ≡ true)
job_hangs_example = Hanging.job_hangs 0 3 one_source (tt, (tt, (tt, tt)))
