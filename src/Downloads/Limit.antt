-- ===== src/Downloads/Limit.antt =====
-- DownloadOptimizer: its histories, and the number of jobs of the map that run.
use kachery_p2p.Base.{
  ℕ, suc, ◌+◌, ◌≤◌, ◌≡◌, refl, inl, inr, true, List, [], ◌∷◌, String, arith, if◌then◌else◌,
  string_eq, Bool-cases, Option-cases,
}
use kachery_p2p.Base.Maps
use kachery_p2p.GarbageMap
use kachery_p2p.GarbageMap.{
  GarbageMap, Entry, check_garbage_collection, collect, delete_all, keys_to_delete,
}
use kachery_p2p.Downloads.{
  Job, DownloadOptimizer, max_num_simultaneous_file_downloads, new_download_optimizer, num_running,
  num_downloading, wait_for_ready, find_or_add_job, replace_tasks, remove, create_task, delete_task,
  drop_job, modify_job, start_job, complete_job, job_completes, delete_complete, start_jobs, update,
  new_job,
}

num_running-delete :
    (k : String) (m : List (String × Entry Job)) → num_running (Maps.delete k m) ≤ num_running m
unfolding num_running Maps.delete
num_running-delete k [] = omega arith
num_running-delete k ((j, e) ∷ m) = ground (arith, num_running-delete k m)

num_running-delete_all :
    (ks : List String) (m : List (String × Entry Job))
    → num_running (delete_all ks m) ≤ num_running m
unfolding delete_all
num_running-delete_all [] m = omega arith
num_running-delete_all (k ∷ ks) m =
    omega (arith, num_running-delete_all ks (Maps.delete k m), num_running-delete k m)

num_running-check :
    (now : ℕ) (g : GarbageMap String Job)
    → num_running (check_garbage_collection now g).entries ≤ num_running g.entries
unfolding check_garbage_collection collect
num_running-check now g = elim (Option-cases g.expiration_timeout_msec) [
  | inl e ↦ ground arith
  | inr (t, e) ↦ ground (arith, num_running-delete_all (keys_to_delete now t g.entries) g.entries)
]

-- An entry adds one running job at most, and none if it does not run.
num_running-set :
    (k : String) (e : Entry Job) (m : List (String × Entry Job))
    → num_running (Maps.set k e m)
      ≤ (if e.value.is_running then suc (num_running m) else num_running m)
unfolding num_running Maps.set
num_running-set k e [] = ground arith
num_running-set k e ((j, f) ∷ m) = ground (arith, num_running-set k e m)

num_running-modify :
    (f : Job → Job) (k : String) (m : List (String × Entry Job))
    → num_running (modify_job f k m) ≤ suc (num_running m)
unfolding modify_job
num_running-modify f k m = elim (Option-cases (Maps.get k m)) [
  | inl e ↦ ground arith
  | inr (e, h) ↦ ground (arith, num_running-set k (record e { value = f e.value }) m)
]

num_running_complete :
    (k : String) (m : List (String × Entry Job))
    → num_running (modify_job complete_job k m) ≤ num_running m
unfolding modify_job
num_running_complete k m = elim (Option-cases (Maps.get k m)) [
  | inl e ↦ ground arith
  | inr (e, h) ↦ ground (arith, num_running-set k (record e { value = complete_job e.value }) m)
]

num_running-delete_entry :
    (now : ℕ) (g : GarbageMap String Job) (k : String)
    → num_running (GarbageMap.delete now g k).entries ≤ num_running g.entries
unfolding GarbageMap.delete
num_running-delete_entry now g k = elim (Bool-cases (Maps.has k g.entries)) [
  | inl t ↦ ground (
    arith,
    num_running-check now (record g { entries = Maps.delete k g.entries }),
    num_running-delete k g.entries,
  )
  | inr f ↦ ground (arith, num_running-check now g)
]

num_running-delete_complete :
    (now : ℕ) (g : GarbageMap String Job) (ks : List String)
    → num_running (delete_complete now g ks).0.entries ≤ num_running g.entries
unfolding delete_complete GarbageMap.get
num_running-delete_complete now g [] = omega arith
num_running-delete_complete now g (k ∷ ks) =
    let c = check_garbage_collection now g in
    ground (
      arith,
      num_running-check now g,
      num_running-delete_entry now c k,
      num_running-delete_complete now c ks,
      num_running-delete_complete now (GarbageMap.delete now c k) ks,
    )

-- The count of the loop is at least the number of running jobs, and at most five.
start_jobs-limit :
    (now : ℕ) (g : GarbageMap String Job) (n : ℕ) (ks : List String)
    → num_running g.entries ≤ n
    → n ≤ max_num_simultaneous_file_downloads
    → num_running (start_jobs now g n ks).0.entries ≤ max_num_simultaneous_file_downloads
unfolding start_jobs GarbageMap.get
start_jobs-limit now g n [] h k = omega arith
start_jobs-limit now g n (k ∷ ks) h limit =
    let c = check_garbage_collection now g in
    let started = record c { entries = modify_job start_job k c.entries } in
    ground (
      arith,
      num_running-check now g,
      num_running-modify start_job k c.entries,
      start_jobs-limit now g n ks,
      start_jobs-limit now c n ks,
      start_jobs-limit now started (n + 1) ks,
    )

pub data Op : Type 0 where
  waits : (listener : ℕ) → Op
  creates : (now : ℕ) (file_key_hash task_id : String) → Op
  deletes : (now : ℕ) (file_key_hash task_id : String) → Op
  completes : (file_key_hash : String) → Op
  updates : (now : ℕ) → Op

unfoldable pub step : DownloadOptimizer → Op → DownloadOptimizer
step m (waits listener) = (wait_for_ready m listener).0
step m (creates now fkh id) = create_task now m fkh id
step m (deletes now fkh id) = delete_task now m fkh id
step m (completes fkh) = job_completes m fkh
step m (updates now) = (update now m).0

unfoldable pub run : DownloadOptimizer → List Op → DownloadOptimizer
run m [] = m
run m (op ∷ ops) = run (step m op) ops

find_or_add_job-limit :
    (now : ℕ) (g : GarbageMap String Job) (fkh : String)
    → num_running (find_or_add_job now g fkh).entries ≤ num_running g.entries
unfolding find_or_add_job GarbageMap.get GarbageMap.set
find_or_add_job-limit now g fkh =
    let c = check_garbage_collection now g in
    let e : Entry Job = record { value = new_job; timestamp = now } in
    let grown = record c { entries = Maps.set fkh e c.entries } in
    ground
      (arith, num_running-check now g, num_running-set fkh e c.entries, num_running-check now grown)

drop_job-limit :
    (now : ℕ) (m : DownloadOptimizer) (fkh : String)
    → num_running (drop_job now m fkh).jobs.entries ≤ num_running m.jobs.entries
unfolding drop_job GarbageMap.get
drop_job-limit now m fkh =
    let c = check_garbage_collection now m.jobs in
    ground (arith, num_running-check now m.jobs, num_running-delete_entry now c fkh)

update-limit :
    (now : ℕ) (m : DownloadOptimizer)
    → num_running m.jobs.entries ≤ max_num_simultaneous_file_downloads
    → num_running (update now m).0.jobs.entries ≤ max_num_simultaneous_file_downloads
unfolding update
update-limit now m h =
    let d = delete_complete now m.jobs (GarbageMap.keys m.jobs) in
    let fewer = num_running-delete_complete now m.jobs (GarbageMap.keys m.jobs) in
    let started =
      start_jobs-limit now d.0 (num_running d.0.entries) (GarbageMap.keys d.0) (omega arith)
        (omega arith) in
    ground (arith, fewer, started)

step-limit :
    (m : DownloadOptimizer) (op : Op)
    → num_running m.jobs.entries ≤ max_num_simultaneous_file_downloads
    → num_running (step m op).jobs.entries ≤ max_num_simultaneous_file_downloads
unfolding step wait_for_ready create_task delete_task job_completes
step-limit m (waits listener) h = ground arith
step-limit m (creates now fkh id) h = omega (arith, find_or_add_job-limit now m.jobs fkh)
step-limit m (deletes now fkh id) h =
    let t = GarbageMap.get now m.tasks fkh in
    elim (Option-cases t.1) [
      | inl e ↦ ground arith
      | inr (ids, e) ↦
          let changed = record m { tasks = replace_tasks t.0 fkh (remove id ids) } in
          ground (arith, drop_job-limit now changed fkh)
    ]
step-limit m (completes fkh) h = omega (arith, num_running_complete fkh m.jobs.entries)
step-limit m (updates now) h = update-limit now m h

run-limit :
    (m : DownloadOptimizer) (ops : List Op)
    → num_running m.jobs.entries ≤ max_num_simultaneous_file_downloads
    → num_running (run m ops).jobs.entries ≤ max_num_simultaneous_file_downloads
unfolding run
run-limit m [] h = h
run-limit m (op ∷ ops) h = run-limit (step m op) ops (step-limit m op h)

-- After any history, at whatever times, five jobs of the map run at most.
pub map_limit :
    (start : ℕ) (ops : List Op)
    → num_running (run (new_download_optimizer start) ops).jobs.entries
      ≤ max_num_simultaneous_file_downloads
unfolding new_download_optimizer GarbageMap.new_garbage_map num_running
map_limit start ops = run-limit (new_download_optimizer start) ops (omega arith)

num_downloading-zero : (m : List (String × Entry Job)) → num_downloading m ≡ 0
unfolding num_downloading
num_downloading-zero [] = refl
num_downloading-zero (e ∷ m) = ground (arith, num_downloading-zero m)

-- A caller that waits until a download may start never waits, however many jobs run: the test looks for
-- jobs with a downloader, and no job has one.
pub wait_for_ready_lem :
    (m : DownloadOptimizer) (listener : ℕ) → wait_for_ready m listener ≡ (m, true)
unfolding wait_for_ready
wait_for_ready_lem m listener = ground (arith, num_downloading-zero m.jobs.entries)
