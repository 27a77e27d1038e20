-- ===== src/Downloads/Simultaneous.antt =====
-- DownloadOptimizer: how many downloads run at once, of those whose tasks are kept.
use kachery_p2p.Base.{
  ℕ, suc, ◌≤◌, ◌≡◌, refl, inl, inr, false, List, [], ◌∷◌, ◌++◌, none, some, String, arith,
  string_eq, Bool-cases, Option-cases, ◌==◌, All, length,
}
use text.Mathlib.TextEquality.{eq_iff}
use kachery_p2p.Base.Maps
use kachery_p2p.Base.Maps.{get-delete}
use kachery_p2p.GarbageMap
use kachery_p2p.GarbageMap.{GarbageMap, Entry}
use kachery_p2p.Downloads.{
  Job, DownloadOptimizer, max_num_simultaneous_file_downloads, new_download_optimizer, num_running,
  wait_for_ready, replace_tasks, remove, contains, create_task, delete_task, job_completes,
  delete_complete, update,
}
use kachery_p2p.Downloads.Limit.{
  Op, waits, creates, deletes, completes, updates, step, run, map_limit,
}
use kachery_p2p.Downloads.Lasting.{
  Watch, IsInTime, IsOther, Holds, running_entry, find_or_add_job-Holds, drop_job-Holds,
  complete-Holds, delete_complete-Holds, start_jobs-Holds,
}

-- The call comes in time, and neither ends the watched job nor deletes a task of its file.
abbrev pub Spares : Watch → Op → Type 0
Spares w (waits listener) = Unit {0}
Spares w (creates now fkh id) = IsInTime w now
Spares w (deletes now fkh id) = IsInTime w now × IsOther w fkh
Spares w (completes fkh) = IsOther w fkh
Spares w (updates now) = IsInTime w now

update-Holds :
    (w : Watch) (now : ℕ) (m : DownloadOptimizer)
    → IsInTime w now
    → Holds w m.jobs
    → Holds w (update now m).0.jobs
unfolding update
update-Holds w now m soon h =
    let d = delete_complete now m.jobs (GarbageMap.keys m.jobs) in
    let cleaned = delete_complete-Holds w now m.jobs (GarbageMap.keys m.jobs) soon h in
    let started =
      start_jobs-Holds w now d.0 (num_running d.0.entries) (GarbageMap.keys d.0) soon cleaned in
    ground (arith, cleaned, started)

step-Holds :
    (w : Watch) (m : DownloadOptimizer) (op : Op)
    → Spares w op
    → Holds w m.jobs
    → Holds w (step m op).jobs
unfolding step wait_for_ready create_task delete_task job_completes
step-Holds w m (waits listener) s h = ground (arith, h)
step-Holds w m (creates now fkh id) s h = find_or_add_job-Holds w now m.jobs fkh s h
step-Holds w m (deletes now fkh id) (soon, other) h =
    let t = GarbageMap.get now m.tasks fkh in
    elim (Option-cases t.1) [
      | inl e ↦ ground (arith, e, h)
      | inr (ids, e) ↦
          let changed = record m { tasks = replace_tasks t.0 fkh (remove id ids) } in
          let dropped = drop_job-Holds w now changed fkh soon other h in
          ground (arith, e, h, dropped)
    ]
step-Holds w m (completes fkh) s h = complete-Holds w m.jobs fkh s h
step-Holds w m (updates now) s h = update-Holds w now m s h

run-Holds :
    (w : Watch) (m : DownloadOptimizer) (ops : List Op)
    → All (λ op. Spares w op) ops
    → Holds w m.jobs
    → Holds w (run m ops).jobs
unfolding run
run-Holds w m [] s h = h
run-Holds w m (op ∷ ops) (s, ss) h = run-Holds w (step m op) ops ss (step-Holds w m op s h)

no_watch_op : (op : Op) → Spares none op
no_watch_op (waits listener) = tt
no_watch_op (creates now fkh id) = tt
no_watch_op (deletes now fkh id) = (tt, tt)
no_watch_op (completes fkh) = tt
no_watch_op (updates now) = tt

no_watch_ops : (ops : List Op) → All (λ op. Spares none op) ops
no_watch_ops [] = tt
no_watch_ops (op ∷ ops) = (no_watch_op op, no_watch_ops ops)

run-append :
    (m : DownloadOptimizer) (before after : List Op)
    → run m (before ++ after) ≡ run (run m before) after
unfolding run
run-append m [] after = refl
run-append m (op ∷ before) after = run-append (step m op) before after

-- The download of a file still runs after a history: at some moment its job ran, and since then, within an
-- hour after the job was entered, it has neither ended nor has a task of the file been deleted.
abbrev pub StillRuns : (start : ℕ) (ops : List Op) (file_key_hash : String) → Type 0
StillRuns start ops k =
    (before : List Op) × (after : List Op) × (created : ℕ) × (ops ≡ before ++ after)
    × (Maps.get k (run (new_download_optimizer start) before).jobs.entries
        ≡ some (running_entry created))
    × All (λ op. Spares (some (k, created)) op) after

abbrev RunsIn : List (String × Entry Job) → String → Type 0
RunsIn m k = (created : ℕ) × (Maps.get k m ≡ some (running_entry created))

StillRuns-RunsIn :
    (start : ℕ) (ops : List Op) (k : String)
    → StillRuns start ops k
    → RunsIn (run (new_download_optimizer start) ops).jobs.entries k
unfolding new_download_optimizer GarbageMap.new_garbage_map
StillRuns-RunsIn start ops k (before, after, created, split, ran, spared) =
    let new = new_download_optimizer start in
    let valid : Holds none (run new before).jobs =
      run-Holds none new before (no_watch_ops before)
        (record { distinct = tt; limit = refl; there = tt }) in
    let held : Holds (some (k, created)) (run (run new before) after).jobs =
      run-Holds (some (k, created)) (run new before) after spared
        (record { distinct = valid.distinct; limit = valid.limit; there = ran }) in
    (created, rw split (rw (run-append new before after) held.there))

each_runs :
    (start : ℕ) (ops : List Op) (ks : List String)
    → All (λ k. StillRuns start ops k) ks
    → All (λ k. RunsIn (run (new_download_optimizer start) ops).jobs.entries k) ks
each_runs start ops [] h = tt
each_runs start ops (k ∷ ks) (r, rs) = (StillRuns-RunsIn start ops k r, each_runs start ops ks rs)

-- No file is named twice.
abbrev pub AreDistinct : List String → Type 0
AreDistinct [] = Unit {0}
AreDistinct (k ∷ ks) = (contains k ks ≡ false) × AreDistinct ks

run_without :
    (k : String) (m : List (String × Entry Job)) (ks : List String)
    → contains k ks ≡ false
    → All (λ j. RunsIn m j) ks
    → All (λ j. RunsIn (Maps.delete k m) j) ks
unfolding contains
run_without k m [] h rs = tt
run_without k m (j ∷ ks) h ((created, found), rs) = (
  (created, ground (arith, get-delete k j m, eq_iff k j, eq_iff j k, h, found)),
  run_without k m ks (ground (arith, h)) rs,
)

num_running-delete_le :
    (k : String) (m : List (String × Entry Job)) → num_running (Maps.delete k m) ≤ num_running m
unfolding num_running Maps.delete
num_running-delete_le k [] = omega arith
num_running-delete_le k ((j, e) ∷ m) = ground (arith, num_running-delete_le k m)

num_running-delete_lt :
    (k : String) (created : ℕ) (m : List (String × Entry Job))
    → Maps.get k m ≡ some (running_entry created)
    → suc (num_running (Maps.delete k m)) ≤ num_running m
unfolding num_running Maps.delete Maps.get
num_running-delete_lt k created [] found = absurd (cc found)
num_running-delete_lt k created ((j, e) ∷ m) found = elim (Bool-cases (j == k)) [
  | inl t ↦ ground (arith, t, found, num_running-delete_le k m)
  | inr f ↦ ground (arith, f, num_running-delete_lt k created m (ground (arith, f, found)))
]

length-num_running :
    (ks : List String) (m : List (String × Entry Job))
    → AreDistinct ks
    → All (λ k. RunsIn m k) ks
    → length ks ≤ num_running m
length-num_running [] m d rs = omega arith
length-num_running (k ∷ ks) m (new, d) ((created, found), rs) =
    let rest = length-num_running ks (Maps.delete k m) d (run_without k m ks new rs) in
    let fewer = num_running-delete_lt k created m found in omega (arith, rest, fewer)

-- After any history of tasks that are created and deleted, jobs that end, updates and waiting callers, among
-- any distinct files whose jobs ran at some moment and since then have not ended, have had no task deleted
-- and are less than an hour old, there are no more than five. A job that goes on after its task was
-- deleted is not counted.
pub five_run_at_most :
    (start : ℕ) (ops : List Op) (files : List String)
    → AreDistinct files
    → All (λ k. StillRuns start ops k) files
    → length files ≤ max_num_simultaneous_file_downloads
five_run_at_most start ops files distinct running =
    let counted =
      length-num_running files (run (new_download_optimizer start) ops).jobs.entries distinct
        (each_runs start ops files running) in
    omega (arith, counted, map_limit start ops)
