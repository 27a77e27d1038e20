-- ===== src/Downloads/Lasting.antt =====
-- DownloadOptimizer: a running job stays in the map of jobs.
use kachery_p2p.Base.{
  ℕ, ◌+◌, ◌≤◌, ◌≡◌, ◌∙◌, inl, inr, not, ◌&&◌, true, false, List, [], ◌∷◌, Option, none, some,
  String, arith, string_eq, Bool-cases, Option-cases, ltb,
}
use text.Mathlib.TextEquality.{eq_iff}
use kachery_p2p.Base.Maps
use kachery_p2p.Base.Maps.{IsMap, set-IsMap, get-set}
use kachery_p2p.GarbageMap
use kachery_p2p.GarbageMap.{GarbageMap, Entry, check_garbage_collection}
use kachery_p2p.GarbageMap.Collecting.{check-IsMap, check-keeps, check-timeout}
use kachery_p2p.GarbageMap.Laws.{delete-keeps, delete-timeout, delete_keeps_IsMap}
use kachery_p2p.Downloads.{
  Job, DownloadOptimizer, job_lifetime_msec, max_num_simultaneous_file_downloads, new_job,
  find_or_add_job, modify_job, start_job, complete_job, delete_complete, start_jobs, drop_job,
}

-- A job that runs, entered at that time.
abbrev pub running_entry : (created : ℕ) → Entry Job
running_entry created = record {
  value = record { is_running = true; is_complete = false };
  timestamp = created;
}

-- The file of a running job and the time at which the job was entered, or none where no job is watched.
abbrev pub Watch : Type 0
Watch = Option (String × ℕ)

abbrev pub IsThere : Watch → GarbageMap String Job → Type 0
IsThere none g = Unit {0}
IsThere (some (k, created)) g = Maps.get k g.entries ≡ some (running_entry created)

-- The time is within the lifetime of the watched job.
abbrev pub IsInTime : Watch → (now : ℕ) → Type 0
IsInTime none now = Unit {0}
IsInTime (some (k, created)) now = now ≤ created + job_lifetime_msec

abbrev pub IsOther : Watch → String → Type 0
IsOther none j = Unit {0}
IsOther (some (k, created)) j = ¬ (j ≡ k)

-- The keys of the map of jobs are distinct, and the watched job runs in it.
pub record Holds (w : Watch) (g : GarbageMap String Job) : Type 0 where
  pub distinct : IsMap g.entries
  pub limit : g.expiration_timeout_msec ≡ some job_lifetime_msec
  pub there : IsThere w g

check-IsThere :
    (w : Watch) (now : ℕ) (g : GarbageMap String Job)
    → IsInTime w now
    → Holds w g
    → IsThere w (check_garbage_collection now g)
check-IsThere none now g soon h = tt
check-IsThere (some (k, created)) now g soon h =
    check-keeps now g k (running_entry created) h.distinct h.there
      (rw h.limit (omega (arith, soon)))

pub check-Holds :
    (w : Watch) (now : ℕ) (g : GarbageMap String Job)
    → IsInTime w now
    → Holds w g
    → Holds w (check_garbage_collection now g)
check-Holds w now g soon h = record {
  distinct = check-IsMap now g h.distinct;
  limit = check-timeout now g ∙ h.limit;
  there = check-IsThere w now g soon h;
}

delete-IsThere :
    (w : Watch) (now : ℕ) (g : GarbageMap String Job) (j : String)
    → IsInTime w now
    → IsOther w j
    → Holds w g
    → IsThere w (GarbageMap.delete now g j)
delete-IsThere none now g j soon other h = tt
delete-IsThere (some (k, created)) now g j soon other h =
    delete-keeps now g j k (running_entry created) h.distinct h.there
      (rw h.limit (omega (arith, soon))) other

delete-Holds :
    (w : Watch) (now : ℕ) (g : GarbageMap String Job) (j : String)
    → IsInTime w now
    → IsOther w j
    → Holds w g
    → Holds w (GarbageMap.delete now g j)
delete-Holds w now g j soon other h = record {
  distinct = delete_keeps_IsMap now g j h.distinct;
  limit = delete-timeout now g j ∙ h.limit;
  there = delete-IsThere w now g j soon other h;
}

entered-IsThere :
    (w : Watch) (g : GarbageMap String Job) (j : String) (e : Entry Job)
    → IsOther w j
    → IsThere w g
    → IsThere w (record g { entries = Maps.set j e g.entries })
entered-IsThere none g j e other there = tt
entered-IsThere (some (k, created)) g j e other there =
    ground (arith, get-set j k e g.entries, eq_iff j k, other, there)

entered-Holds :
    (w : Watch) (g : GarbageMap String Job) (j : String) (e : Entry Job)
    → IsOther w j
    → Holds w g
    → Holds w (record g { entries = Maps.set j e g.entries })
entered-Holds w g j e other h = record {
  distinct = set-IsMap j e g.entries h.distinct;
  limit = h.limit;
  there = entered-IsThere w g j e other h.there;
}

-- The watched job is not missing, and not complete.
missing-IsOther :
    (w : Watch) (g : GarbageMap String Job) (j : String)
    → Maps.get j g.entries ≡ none
    → IsThere w g
    → IsOther w j
missing-IsOther none g j gone there = tt
missing-IsOther (some (k, created)) g j gone there = λ same. ground (arith, gone, there, same)

finished-IsOther :
    (w : Watch) (g : GarbageMap String Job) (j : String) (e : Entry Job)
    → Maps.get j g.entries ≡ some e
    → e.value.is_complete ≡ true
    → IsThere w g
    → IsOther w j
finished-IsOther none g j e found over there = tt
finished-IsOther (some (k, created)) g j e found over there =
    λ same. ground (arith, found, over, there, same)

pub find_or_add_job-Holds :
    (w : Watch) (now : ℕ) (g : GarbageMap String Job) (fkh : String)
    → IsInTime w now
    → Holds w g
    → Holds w (find_or_add_job now g fkh)
unfolding find_or_add_job GarbageMap.get GarbageMap.set
find_or_add_job-Holds w now g fkh soon h =
    let c = check_garbage_collection now g in
    let checked = check-Holds w now g soon h in
    elim (Option-cases (Maps.get fkh c.entries)) [
      | inr (e, found) ↦ ground (arith, found, checked)
      | inl gone ↦
          let e : Entry Job = record { value = new_job; timestamp = now } in
          let entered = record c { entries = Maps.set fkh e c.entries } in
          let kept =
            check-Holds w now entered soon
              (entered-Holds w c fkh e (missing-IsOther w c fkh gone checked.there) checked) in
          ground (arith, gone, kept)
    ]

pub drop_job-Holds :
    (w : Watch) (now : ℕ) (m : DownloadOptimizer) (fkh : String)
    → IsInTime w now
    → IsOther w fkh
    → Holds w m.jobs
    → Holds w (drop_job now m fkh).jobs
unfolding drop_job GarbageMap.get
drop_job-Holds w now m fkh soon other h =
    let c = check_garbage_collection now m.jobs in
    let checked = check-Holds w now m.jobs soon h in
    elim (Option-cases (Maps.get fkh c.entries)) [
      | inl gone ↦ ground (arith, gone, checked)
      | inr (e, found) ↦
          let deleted = delete-Holds w now c fkh soon other checked in
          ground (arith, found, deleted)
    ]

idle-IsOther :
    (w : Watch) (g : GarbageMap String Job) (j : String) (e : Entry Job)
    → Maps.get j g.entries ≡ some e
    → e.value.is_running ≡ false
    → IsThere w g
    → IsOther w j
idle-IsOther none g j e found idle there = tt
idle-IsOther (some (k, created)) g j e found idle there =
    λ same. ground (arith, found, idle, there, same)

pub complete-Holds :
    (w : Watch) (g : GarbageMap String Job) (j : String)
    → IsOther w j
    → Holds w g
    → Holds w (record g { entries = modify_job complete_job j g.entries })
unfolding modify_job
complete-Holds w g j other h = elim (Option-cases (Maps.get j g.entries)) [
  | inl gone ↦ rw (gone, modify_job) h
  | inr (e, found) ↦
      rw (found, modify_job)
        (entered-Holds w g j (record e { value = complete_job e.value }) other h)
]

start-Holds :
    (w : Watch) (g : GarbageMap String Job) (j : String) (e : Entry Job)
    → Maps.get j g.entries ≡ some e
    → e.value.is_running ≡ false
    → Holds w g
    → Holds w (record g { entries = modify_job start_job j g.entries })
unfolding modify_job
start-Holds w g j e found idle h =
    rw (found, modify_job)
      (entered-Holds w g j (record e { value = start_job e.value })
        (idle-IsOther w g j e found idle h.there) h)

pub delete_complete-Holds :
    (w : Watch) (now : ℕ) (g : GarbageMap String Job) (ks : List String)
    → IsInTime w now
    → Holds w g
    → Holds w (delete_complete now g ks).0
unfolding delete_complete GarbageMap.get
delete_complete-Holds w now g [] soon h = h
delete_complete-Holds w now g (k ∷ ks) soon h =
    let c = check_garbage_collection now g in
    let checked = check-Holds w now g soon h in
    elim (Option-cases (Maps.get k c.entries)) [
      | inl gone ↦ ground (arith, gone, checked)
      | inr (e, found) ↦ elim (Bool-cases e.value.is_complete) [
        | inr going ↦
            let rest = delete_complete-Holds w now c ks soon checked in
            ground (arith, found, going, rest)
        | inl over ↦
            let deleted =
              delete-Holds w now c k soon (finished-IsOther w c k e found over checked.there)
                checked in
            let rest = delete_complete-Holds w now (GarbageMap.delete now c k) ks soon deleted in
            ground (arith, found, over, rest)
      ]
    ]

pub start_jobs-Holds :
    (w : Watch) (now : ℕ) (g : GarbageMap String Job) (n : ℕ) (ks : List String)
    → IsInTime w now
    → Holds w g
    → Holds w (start_jobs now g n ks).0
unfolding start_jobs GarbageMap.get
start_jobs-Holds w now g n [] soon h = h
start_jobs-Holds w now g n (k ∷ ks) soon h =
    let c = check_garbage_collection now g in
    let checked = check-Holds w now g soon h in
    let skipped = start_jobs-Holds w now g n ks soon h in
    elim (Bool-cases (ltb n max_num_simultaneous_file_downloads)) [
      | inr full ↦ ground (arith, full, skipped)
      | inl free ↦ elim (Option-cases (Maps.get k c.entries)) [
        | inl gone ↦ ground (arith, free, gone, checked)
        | inr (e, found) ↦ elim (Bool-cases (not e.value.is_running && not e.value.is_complete)) [
          | inr busy ↦
              let rest = start_jobs-Holds w now c n ks soon checked in
              ground (arith, free, found, busy, rest)
          | inl idle ↦
              let started = record c { entries = modify_job start_job k c.entries } in
              let rest =
                start_jobs-Holds w now started (n + 1) ks soon
                  (start-Holds w c k e found (ground (arith, idle)) checked) in
              ground (arith, free, found, idle, rest)
        ]
      ]
    ]
