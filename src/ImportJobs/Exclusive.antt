-- ===== src/ImportJobs/Exclusive.antt =====
-- One import of a type at a time, whatever the order of requests, tasks, restarts and clean-ups.
use materials_manager.Base.{
  All-keep, All-edit, ℕ, ◌-◌, ◌*◌, ◌<◌, ◌≡◌, refl, sym, subst, Text, text_eq, text_eq→eq, Option,
  false, List, [], ◌∷◌, not, any, All, All-map, Bool-cases, inl, inr, arith,
}
use materials_manager.Core.Calendar.{Time, microseconds_per_day}
use materials_manager.Core.Tx.{Result, ok, err}
use materials_manager.Core.Tx.Inversion.{
  gets-inv, raise_if-inv, modify-last, modify-inv, pure-state,
}
use materials_manager.ImportJobs.{
  ExcelImportJob, ImportJobs, is_interrupted, is_active, unlink, save_upload, new_job, add_job,
  enqueue_import, uploaded, with_file, is_supported, import_file, interrupt, mark_stale_jobs_failed,
  is_old, cleanup_finished_jobs, Step,
}
use materials_manager.ImportJobs.Counts.{
  active_count, IsLive, IsExclusive, count-none, count-map, count-keep,
}
use materials_manager.ImportJobs.Tasks.{start_job-IsExclusive, finish_job-IsExclusive}

-- A restart leaves no job active.
interrupt-idle : (now : Time) (j : ExcelImportJob) → is_interrupted (interrupt now j).status ≡ false
interrupt-idle now j = elim (Bool-cases (is_interrupted j.status)) [
  | inl e ↦ rw e refl
  | inr e ↦ rw (e, e) refl
]

mark_stale_jobs_failed-IsExclusive :
    (now : Time) (s : ImportJobs) → IsExclusive s → IsExclusive (mark_stale_jobs_failed now s).1
unfolding mark_stale_jobs_failed
mark_stale_jobs_failed-IsExclusive now s v = record {
  exclusive = λ ty.
      let fewer =
        count-map ty (interrupt now) s.tasks
          (λ j live h.
            let idle = interrupt-idle now j in let k = rw idle at h in absurd (ground arith))
          s.jobs v.live in
      let one = v.exclusive ty in omega (arith, fewer, one);
  live = All-edit (IsLive s.tasks) (IsLive []) (interrupt now) (λ j h c. absurd (cc)) s.jobs v.live;
  fresh =
      All-edit (λ j. j.id < s.next_job_id) (λ j. j.id < s.next_job_id) (interrupt now)
        (λ j h. ground arith) s.jobs v.fresh;
}

cleanup_finished_jobs-IsExclusive :
    (now : Time) (days : ℕ) (s : ImportJobs)
    → IsExclusive s
    → IsExclusive (cleanup_finished_jobs now days s)
unfolding cleanup_finished_jobs
cleanup_finished_jobs-IsExclusive now days s v =
    let recent = λ (j : ExcelImportJob). not (is_old (now - days * microseconds_per_day) j) in
    record {
      exclusive = λ ty.
          let fewer = count-keep ty recent s.jobs in
          let one = v.exclusive ty in omega (arith, fewer, one);
      live = All-keep (IsLive s.tasks) recent s.jobs v.live;
      fresh = All-keep (λ j. j.id < s.next_job_id) recent s.jobs v.fresh;
    }

add-IsLive :
    (n : ℕ) (tasks : List ℕ) (js : List ExcelImportJob)
    → All (IsLive tasks) js
    → All (λ j. j.id < n) js
    → All (IsLive (n ∷ tasks)) js
add-IsLive n tasks [] a f = tt
add-IsLive n tasks (j ∷ js) a f =
    ((λ c. let older = f.0 in let l = a.0 in l (ground arith)), add-IsLive n tasks js a.1 f.1)

-- A new job, where no other of its type is active.
add_job-IsExclusive :
    (import_type filename path : Text) (created_by : Option ℕ) (s : ImportJobs)
    → any (is_active import_type) s.jobs ≡ false
    → IsExclusive s
    → IsExclusive (add_job (new_job s.next_job_id import_type filename path created_by) s)
add_job-IsExclusive import_type filename path created_by s idle v = record {
  exclusive = λ ty. elim (Bool-cases (text_eq import_type ty)) [
    | inl e ↦
        let none_of =
          subst (λ (t : Text). active_count t s.jobs ≡ 0) (text_eq→eq import_type ty e)
            (count-none import_type s.jobs idle) in
        rw e (omega (arith, none_of))
    | inr e ↦ let one = v.exclusive ty in rw e (omega (arith, one))
  ];
  live = ((λ c. refl), add-IsLive s.next_job_id s.tasks s.jobs v.live v.fresh);
  fresh = (omega arith, All-map (λ j h. omega (arith, h)) s.jobs v.fresh);
}

files-IsExclusive :
    (files : List Text) (s : ImportJobs) → IsExclusive s → IsExclusive (record s { files = files })
files-IsExclusive files s v = record { exclusive = v.exclusive; live = v.live; fresh = v.fresh }

enqueue_import-IsExclusive :
    (import_type filename path : Text) (created_by : Option ℕ) (s : ImportJobs)
    (q : ExcelImportJob × ImportJobs)
    → IsExclusive s
    → enqueue_import import_type filename path created_by s ≡ ok q
    → IsExclusive q.1
unfolding enqueue_import
enqueue_import-IsExclusive import_type filename path created_by s q v h =
    let h1 = gets-inv _ _ s q h in
    let (idle, h2) = raise_if-inv _ _ _ s q h1 in
    let h3 = gets-inv _ _ s q h2 in
    let h4 = modify-inv _ _ s q h3 in
    subst IsExclusive (sym (pure-state _ _ q h4))
      (add_job-IsExclusive import_type filename path created_by s idle v)

uploaded-IsExclusive :
    (path : Text) (s : ImportJobs) (r : Result (ExcelImportJob × ImportJobs))
    → IsExclusive s
    → ((q : ExcelImportJob × ImportJobs) → r ≡ ok q → IsExclusive q.1)
    → IsExclusive (uploaded path s r).0
uploaded-IsExclusive path s (ok (job, t)) v h = h (job, t) refl
uploaded-IsExclusive path s (err e) v h = files-IsExclusive (unlink path s.files) s v

with_file-IsExclusive :
    (import_type filename path : Text) (created_by : Option ℕ) (s : ImportJobs)
    (r : Result (Unit {0} × ImportJobs))
    → IsExclusive s
    → ((q : Unit {0} × ImportJobs) → r ≡ ok q → IsExclusive q.1)
    → IsExclusive (with_file import_type filename path created_by s r).0
with_file-IsExclusive import_type filename path created_by s (err e) v h = v
with_file-IsExclusive import_type filename path created_by s (ok (u, t)) v h =
    let w = h (u, t) refl in
    uploaded-IsExclusive path t (enqueue_import import_type filename path created_by t) w
      (λ q e. enqueue_import-IsExclusive import_type filename path created_by t q w e)

save_upload-IsExclusive :
    (path : Text) (size max_bytes : ℕ) (s : ImportJobs) (q : Unit {0} × ImportJobs)
    → IsExclusive s
    → save_upload path size max_bytes s ≡ ok q
    → IsExclusive q.1
unfolding save_upload
save_upload-IsExclusive path size max_bytes s q v h =
    let (small, h1) = raise_if-inv _ _ _ s q h in
    subst IsExclusive (sym (modify-last _ s q h1)) (files-IsExclusive (path ∷ s.files) s v)

-- Whatever happens, in any order, there is at most one import of a type that waits or runs, a job whose
-- task is alive is one of these, and the ids of the table stay below the counter.
pub Step-IsExclusive : {s t : ImportJobs} → Step s t → IsExclusive s → IsExclusive t
unfolding import_file
Step-IsExclusive (Step.requested s import_type filename path size max_bytes created_by) v =
    elim (Bool-cases (is_supported filename)) [
      | inl e ↦ rw e (
          with_file-IsExclusive import_type filename path created_by s
            (save_upload path size max_bytes s) v
            (λ q k. save_upload-IsExclusive path size max_bytes s q v k))
      | inr e ↦ rw e v
    ]
Step-IsExclusive (Step.begun s now id there) v = start_job-IsExclusive now id s there v
Step-IsExclusive (Step.ended s now id path outcome) v =
    finish_job-IsExclusive now id path outcome s v
Step-IsExclusive (Step.restarted s now) v = mark_stale_jobs_failed-IsExclusive now s v
Step-IsExclusive (Step.cleaned s now days) v = cleanup_finished_jobs-IsExclusive now days s v
