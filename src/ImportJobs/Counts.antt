-- ===== src/ImportJobs/Counts.antt =====
-- The imports that wait or run, counted, and the invariant of the jobs.
use materials_manager.Base.{
  ℕ, ◌+◌, ◌≤◌, ◌<◌, ◌≡◌, refl, Text, Bool, true, false, List, [], ◌∷◌, not, ◌==◌, any, contains,
  keep, map, All, Bool-cases, inl, inr, arith, if◌then◌else◌,
}
use materials_manager.ImportJobs.{ExcelImportJob, ImportJobs, is_interrupted, is_active}

-- How many imports of a type wait or run.
abbrev pub active_count : Text → List ExcelImportJob → ℕ
active_count import_type [] = 0
active_count import_type (j ∷ js) =
    (if is_active import_type j then 1 else 0) + active_count import_type js

abbrev pub IsLive : List ℕ → ExcelImportJob → Type 0
IsLive tasks j = contains j.id tasks ≡ true → is_interrupted j.status ≡ true

-- At most one import of a type waits or runs. A job with a task that is alive waits or runs, and the
-- ids of the table are below the counter.
pub record IsExclusive (s : ImportJobs) : Type 0 where
  pub exclusive : (import_type : Text) → active_count import_type s.jobs ≤ 1
  pub live : All (IsLive s.tasks) s.jobs
  pub fresh : All (λ j. j.id < s.next_job_id) s.jobs

pub count-none :
    (import_type : Text) (js : List ExcelImportJob)
    → any (is_active import_type) js ≡ false
    → active_count import_type js ≡ 0
count-none import_type [] h = refl
count-none import_type (j ∷ js) h = ground (arith, count-none import_type js)

-- A change that activates no job.
pub count-map :
    (import_type : Text) (f : ExcelImportJob → ExcelImportJob) (tasks : List ℕ)
    → ((j : ExcelImportJob)
        → IsLive tasks j
        → is_active import_type (f j) ≡ true
        → is_active import_type j ≡ true)
    → (js : List ExcelImportJob) → All (IsLive tasks) js
    → active_count import_type (map f js) ≤ active_count import_type js
count-map import_type f tasks h [] a = omega arith
count-map import_type f tasks h (j ∷ js) a =
    let ih = count-map import_type f tasks h js a.1 in
    elim (Bool-cases (is_active import_type (f j))) [
      | inl e ↦ let k = h j a.0 e in rw (e, k) (omega (arith, ih))
      | inr e ↦ elim (Bool-cases (is_active import_type j)) [
        | inl k ↦ rw (e, k) (omega (arith, ih))
        | inr k ↦ rw (e, k) (omega (arith, ih))
      ]
    ]

pub count-keep :
    (import_type : Text) (p : ExcelImportJob → Bool) (js : List ExcelImportJob)
    → active_count import_type (keep p js) ≤ active_count import_type js
count-keep import_type p [] = omega arith
count-keep import_type p (j ∷ js) =
    let ih = count-keep import_type p js in
    elim (Bool-cases (p j)) [ inl e ↦ rw e (omega (arith, ih)) | inr e ↦ rw e (omega (arith, ih)) ]

pub contains-removed : (id : ℕ) (ts : List ℕ) → contains id (keep (λ t. not (t == id)) ts) ≡ false
contains-removed id [] = refl
contains-removed id (t ∷ ts) =
    let ih = contains-removed id ts in
    elim (Bool-cases (t == id)) [ inl e ↦ rw e ih | inr e ↦ rw e (ground (arith, ih)) ]

pub contains-kept :
    (n id : ℕ) (ts : List ℕ)
    → contains n (keep (λ t. not (t == id)) ts) ≡ true
    → contains n ts ≡ true
contains-kept n id [] h = h
contains-kept n id (t ∷ ts) h = elim (Bool-cases (t == id)) [
  | inl e ↦ let k = rw e at h in ground (arith, contains-kept n id ts k)
  | inr e ↦ let k = rw e at h in ground (arith, contains-kept n id ts)
]
