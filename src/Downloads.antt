-- ===== src/Downloads.antt =====
-- daemon/src/downloadOptimizer/DownloadOptimizer.ts: which downloads run. A job is a download of a file,
-- and a task a request for it. A job that leaves the map while it runs goes on: `cancel` of a job stops its
-- `#currentDownloader`, which is never set. `detached` counts these jobs; those that the map drops for
-- their age are not counted. A listener is a number, and its call is an entry of `called`.
pub mod Runs
pub mod Lasting
pub mod Limit
pub mod Simultaneous
use kachery_p2p.Base.{
  ℕ, zero, suc, ◌+◌, ◌*◌, Bool, true, false, not, ◌&&◌, List, [], ◌∷◌, ◌++◌, Option, none, some,
  String, length, ltb, if◌then◌else◌, ◌==◌, string_eq, nat_eq,
}
use kachery_p2p.Base.Maps
use kachery_p2p.GarbageMap
use kachery_p2p.GarbageMap.{GarbageMap, Entry}

pub record Job : Type 0 where
  pub is_running : Bool
  pub is_complete : Bool

pub record DownloadOptimizer : Type 0 where
  pub jobs : GarbageMap String Job
  pub tasks : GarbageMap String (List String)
  pub update_scheduled : Bool
  pub on_ready_listeners : List ℕ
  pub called : List ℕ
  pub detached : ℕ

abbrev pub max_num_simultaneous_file_downloads : ℕ
max_num_simultaneous_file_downloads = 5

abbrev pub job_lifetime_msec : ℕ
job_lifetime_msec = 60 * 1000 * 60

unfoldable pub new_download_optimizer : ℕ → DownloadOptimizer
new_download_optimizer now = record {
  jobs = GarbageMap.new_garbage_map now (some job_lifetime_msec);
  tasks = GarbageMap.new_garbage_map now (some job_lifetime_msec);
  update_scheduled = false;
  on_ready_listeners = [];
  called = [];
  detached = 0;
}

-- `values().filter(j => j.isRunning()).length`
unfoldable pub num_running : List (String × Entry Job) → ℕ
num_running [] = 0
num_running ((k, e) ∷ m) = let rest = num_running m in if e.value.is_running then suc rest else rest

-- `_scheduleUpdate`: the timer calls `update`.
abbrev pub schedule_update : DownloadOptimizer → DownloadOptimizer
schedule_update m = record m { update_scheduled = true }

-- `waitForReady`: `isDownloading` of a job is always false, so it does not wait.
abbrev pub is_downloading : Job → Bool
is_downloading job = false

unfoldable pub num_downloading : List (String × Entry Job) → ℕ
num_downloading [] = 0
num_downloading ((k, e) ∷ m) =
    let rest = num_downloading m in if is_downloading e.value then suc rest else rest

unfoldable pub wait_for_ready : DownloadOptimizer → (listener : ℕ) → DownloadOptimizer × Bool
wait_for_ready m listener =
    if ltb (num_downloading m.jobs.entries) max_num_simultaneous_file_downloads
    then (m, true)
    else (record m { on_ready_listeners = m.on_ready_listeners ++ listener ∷ [] }, false)

abbrev pub new_job : Job
new_job = record { is_running = false; is_complete = false }

-- The job for the file, made if there is none.
unfoldable pub find_or_add_job :
    ℕ → GarbageMap String Job → (file_key_hash : String) → GarbageMap String Job
find_or_add_job now g fkh =
    let j = GarbageMap.get now g fkh in
    elim j.1 [ some job ↦ j.0 | none ↦ GarbageMap.set now j.0 fkh new_job ]

-- The tasks of a file are a map that is changed where it is.
unfoldable pub replace_tasks :
    GarbageMap String (List String)
    → (file_key_hash : String) (task_ids : List String) → GarbageMap String (List String)
replace_tasks g fkh ids = record g {
  entries = elim (Maps.get fkh g.entries) [
    | none ↦ g.entries
    | some e ↦ Maps.set fkh (record e { value = ids }) g.entries
  ];
}

unfoldable pub add_task :
    ℕ
    → GarbageMap String (List String)
    → (file_key_hash task_id : String) → GarbageMap String (List String)
add_task now g fkh task_id =
    let t = GarbageMap.get now g fkh in
    elim t.1 [
      | some ids ↦ replace_tasks t.0 fkh (ids ++ task_id ∷ [])
      | none ↦ replace_tasks (GarbageMap.set now t.0 fkh []) fkh (task_id ∷ [])
    ]

-- `createTask`, for a task with a new identifier.
unfoldable pub create_task :
    ℕ → DownloadOptimizer → (file_key_hash task_id : String) → DownloadOptimizer
create_task now m fkh task_id =
    schedule_update
      (record m { jobs = find_or_add_job now m.jobs fkh; tasks = add_task now m.tasks fkh task_id })

unfoldable pub contains : String → List String → Bool
contains x [] = false
contains x (y ∷ ys) = if y == x then true else contains x ys

unfoldable pub remove : String → List String → List String
remove x [] = []
remove x (y ∷ ys) = let rest = remove x ys in if y == x then rest else y ∷ rest

abbrev pub detach : Job → ℕ → ℕ
detach job n = if job.is_running then suc n else n

-- The job of a file without tasks: it is cancelled and taken out.
unfoldable pub drop_job : ℕ → DownloadOptimizer → (file_key_hash : String) → DownloadOptimizer
drop_job now m fkh =
    let j = GarbageMap.get now m.jobs fkh in
    elim j.1 [
      | none ↦ record m { jobs = j.0 }
      | some job ↦ record m {
        jobs = GarbageMap.delete now j.0 fkh;
        detached = detach job m.detached;
      }
    ]

-- `_deleteTask`
unfoldable pub delete_task :
    ℕ → DownloadOptimizer → (file_key_hash task_id : String) → DownloadOptimizer
delete_task now m fkh task_id =
    let t = GarbageMap.get now m.tasks fkh in
    let looked = record m { tasks = t.0 } in
    elim t.1 [
      | none ↦ looked
      | some ids ↦
          if contains task_id ids
          then (let left = remove task_id ids in
              let changed = record looked { tasks = replace_tasks t.0 fkh left } in
              schedule_update (if length left == 0 then drop_job now changed fkh else changed))
          else looked
    ]

-- A job of the map is changed where it is.
unfoldable pub modify_job :
    (Job → Job) → String → List (String × Entry Job) → List (String × Entry Job)
modify_job f k m = elim (Maps.get k m) [
  | none ↦ m
  | some e ↦ Maps.set k (record e { value = f e.value }) m
]

abbrev pub start_job : Job → Job
start_job job = record job { is_running = true }

abbrev pub complete_job : Job → Job
complete_job job = record { is_running = false; is_complete = true }

-- The job ends: the callbacks of its progress stream delete its tasks afterwards.
unfoldable pub job_completes : DownloadOptimizer → (file_key_hash : String) → DownloadOptimizer
job_completes m fkh = record m {
  jobs = record (m.jobs) { entries = modify_job complete_job fkh m.jobs.entries };
}

-- The first loop of `_update`; false where it throws.
unfoldable pub delete_complete :
    ℕ → GarbageMap String Job → List String → GarbageMap String Job × Bool
delete_complete now g [] = (g, true)
delete_complete now g (k ∷ ks) =
    let j = GarbageMap.get now g k in
    elim j.1 [
      | none ↦ (j.0, false)
      | some job ↦
          delete_complete now (if job.is_complete then GarbageMap.delete now j.0 k else j.0) ks
    ]

-- The second loop, with the number of running jobs.
unfoldable pub start_jobs :
    ℕ → GarbageMap String Job → (num_active : ℕ) → List String → GarbageMap String Job × ℕ × Bool
start_jobs now g n [] = (g, n, true)
start_jobs now g n (k ∷ ks) = elim (ltb n max_num_simultaneous_file_downloads) [
  | false ↦ start_jobs now g n ks
  | true ↦
      let j = GarbageMap.get now g k in
      elim j.1 [
        | none ↦ (j.0, n, false)
        | some job ↦ elim (not job.is_running && not job.is_complete) [
          | true ↦
              start_jobs now (record (j.0) { entries = modify_job start_job k j.0.entries }) (n + 1)
                ks
          | false ↦ start_jobs now j.0 n ks
        ]
      ]
]

-- The last step: every listener is called, and takes itself out.
abbrev pub call_listeners : ℕ → DownloadOptimizer → DownloadOptimizer
call_listeners n m =
    if ltb n max_num_simultaneous_file_downloads
    then record m { on_ready_listeners = []; called = m.called ++ m.on_ready_listeners }
    else m

-- `_update`, called by the timer.
unfoldable pub update : ℕ → DownloadOptimizer → DownloadOptimizer × Bool
update now m =
    let d = delete_complete now m.jobs (GarbageMap.keys m.jobs) in
    let cleaned = record m { jobs = d.0; update_scheduled = false } in
    elim d.1 [
      | false ↦ (cleaned, false)
      | true ↦
          let s = start_jobs now d.0 (num_running d.0.entries) (GarbageMap.keys d.0) in
          let started = record cleaned { jobs = s.0 } in
          elim s.2 [ false ↦ (started, false) | true ↦ (call_listeners s.1 started, true) ]
    ]
