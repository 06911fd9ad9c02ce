-- ===== src/Jobs.antt =====
-- The background exports of backend/app/services/excel_export_job_service.py, with the rows of
-- `excel_export_job` and the files of the export directory as the state. A processor and the names of
-- files are outside: what a processor ends with is an `Outcome`, and a fresh path is an argument.

pub mod Restart
pub mod Shape
mod Tests
use materials_manager.Base.{
  ℕ, suc, ◌+◌, ◌-◌, ◌*◌, Text, text, text_eq, Option, none, some, Bool, true, false, List, [], ◌∷◌,
  not, ◌&&◌, ◌||◌, ◌==◌, ltb, any, keep, find, map, take, length, is_some, truthy, if◌then◌else◌,
}
use materials_manager.Core.Errors.{ErrorCode, app_error, not_found}
use materials_manager.Core.Calendar.{Time, microseconds_per_day}
use materials_manager.Core.Enums.{Role}
use materials_manager.Core.Tx.{Tx, ◌>>=◌, gets, or_raise, raise_if, pure}

pub data ExcelExportJobStatus : Type 0 where
  pending running succeeded failed : ExcelExportJobStatus

pub record ExcelExportJob : Type 0 where
  pub id : ℕ
  pub status : ExcelExportJobStatus
  pub download_filename : Option Text
  pub file_path : Option Text
  pub error_code : Option ErrorCode
  pub created_by : Option ℕ
  pub started_at : Option Time
  pub finished_at : Option Time

pub record Exports : Type 0 where
  pub jobs : List ExcelExportJob
  pub files : List Text
  pub next_job_id : ℕ

-- `_INTERRUPTED_STATUSES`
abbrev pub is_interrupted : ExcelExportJobStatus → Bool
is_interrupted ExcelExportJobStatus.pending = true
is_interrupted ExcelExportJobStatus.running = true
is_interrupted _ = false

-- `_TERMINAL_STATUSES`
abbrev pub is_terminal : ExcelExportJobStatus → Bool
is_terminal status = not (is_interrupted status)

abbrev new_job : ℕ → Option ℕ → ExcelExportJob
new_job id created_by = record {
  id = id;
  status = ExcelExportJobStatus.pending;
  download_filename = none;
  file_path = none;
  error_code = none;
  created_by = created_by;
  started_at = none;
  finished_at = none;
}

unfoldable pub enqueue_export : Option ℕ → Exports → Exports
enqueue_export created_by s = record s {
  jobs = new_job s.next_job_id created_by ∷ s.jobs;
  next_job_id = suc s.next_job_id;
}

abbrev pub edit_job : ℕ → (ExcelExportJob → ExcelExportJob) → ExcelExportJob → ExcelExportJob
edit_job id f job = if job.id == id then f job else job

abbrev pub on_job : ℕ → (ExcelExportJob → ExcelExportJob) → Exports → Exports
on_job id f s = record s { jobs = map (edit_job id f) s.jobs }

abbrev path_or : Text → Option Text → Text
path_or fresh none = fresh
path_or fresh (some path) = if truthy path then path else fresh

-- The first transaction of `_run_job`.
abbrev pub started : Time → Text → ExcelExportJob → ExcelExportJob
started now fresh job = record job {
  status = ExcelExportJobStatus.running;
  started_at = some now;
  file_path = some (path_or fresh job.file_path);
}

unfoldable pub start_job : Time → ℕ → Text → Exports → Exports
start_job now id fresh = on_job id (started now fresh)

-- How the processor ends: with a download name, without one, with an `AppError`, or otherwise.
pub data Outcome : Type 0 where
  produced : Text → Outcome
  incomplete crashed : Outcome
  refused : ErrorCode → Outcome

-- The error of a run. A result without a name is an error too.
unfoldable pub error_of : Outcome → Option ErrorCode
error_of (Outcome.produced filename) =
    if truthy filename then none else some ErrorCode.internal_export_error
error_of Outcome.incomplete = some ErrorCode.internal_export_error
error_of Outcome.crashed = some ErrorCode.internal_export_error
error_of (Outcome.refused code) = some code

unfoldable pub filename_of : Outcome → Option Text
filename_of (Outcome.produced filename) = if truthy filename then some (take 255 filename) else none
filename_of _ = none

-- The last transaction of `_run_job`.
abbrev pub finished : Time → Outcome → ExcelExportJob → ExcelExportJob
finished now outcome job = record job {
  status = (elim (error_of outcome) [
    | none ↦ ExcelExportJobStatus.succeeded
    | some code ↦ ExcelExportJobStatus.failed
  ]);
  download_filename = filename_of outcome;
  error_code = error_of outcome;
  finished_at = some now;
}

-- The files without one.
abbrev pub unlink : Text → List Text → List Text
unlink path = keep (λ f. not (text_eq f path))

-- The file of a run: written if the processor produced it, deleted if the run failed.
abbrev pub file_after : Text → Outcome → List Text → List Text
file_after path outcome files = elim (error_of outcome) [
  | none ↦ path ∷ unlink path files
  | some code ↦ unlink path files
]

unfoldable pub finish_job : Time → ℕ → Text → Outcome → Exports → Exports
finish_job now id path outcome s = record (on_job id (finished now outcome) s) {
  files = file_after path outcome s.files;
}

-- The paths of the interrupted jobs that have one.
unfoldable pub stale_paths : List ExcelExportJob → List Text
stale_paths [] = []
stale_paths (job ∷ jobs) =
    let rest = stale_paths jobs in
    if is_interrupted job.status
    then (elim job.file_path [ some p ↦ p ∷ rest | none ↦ rest ])
    else rest

abbrev pub interrupt : Time → ExcelExportJob → ExcelExportJob
interrupt now job =
    if is_interrupted job.status
    then record job {
      status = ExcelExportJobStatus.failed;
      error_code = some ErrorCode.server_restarted;
      finished_at = some now;
    }
    else job

abbrev pub unlink_all : List Text → List Text → List Text
unlink_all [] files = files
unlink_all (p ∷ ps) files = unlink_all ps (unlink p files)

-- `if stale_paths:` and the deletions after it.
abbrev pub fail_stale : Time → Exports → List Text → Exports
fail_stale now s [] = s
fail_stale now s (p ∷ ps) = record s {
  jobs = map (interrupt now) s.jobs;
  files = unlink_all (p ∷ ps) s.files;
}

unfoldable pub mark_stale_exports_failed : Time → Exports → ℕ × Exports
mark_stale_exports_failed now s =
    let paths = stale_paths s.jobs in (length paths, fail_stale now s paths)

abbrev pub is_expired : Time → ExcelExportJob → Bool
is_expired cutoff job =
    is_terminal job.status && (elim job.finished_at [ some t ↦ ltb t cutoff | none ↦ false ])

abbrev path_list : ExcelExportJob → List Text
path_list job = elim job.file_path [ some p ↦ if truthy p then p ∷ [] else [] | none ↦ [] ]

unfoldable pub unlink_jobs : List ExcelExportJob → List Text → List Text
unlink_jobs [] files = files
unlink_jobs (job ∷ jobs) files = unlink_jobs jobs (unlink_all (path_list job) files)

-- `cleanup_finished_exports`; `now` is later than the retention period.
unfoldable pub cleanup_finished_exports : Time → ℕ → Exports → ℕ × Exports
cleanup_finished_exports now retention_days s =
    let cutoff = now - retention_days * microseconds_per_day in
    let expired = keep (is_expired cutoff) s.jobs in
    (
      length expired,
      record s {
        jobs = keep (λ job. not (is_expired cutoff job)) s.jobs;
        files = unlink_jobs expired s.files;
      },
    )

abbrev is_super_admin : Role → Bool
is_super_admin Role.super_admin = true
is_super_admin _ = false

unfoldable pub visible_to : ExcelExportJob → ℕ → Role → Bool
visible_to job user_id role = elim job.created_by [
  | none ↦ true
  | some creator ↦ creator == user_id || is_super_admin role
]

-- One thing that happens to the exports, in any order.
pub data Step : Exports → Exports → Type 0 where
  enqueued : (s : Exports) (created_by : Option ℕ) → Step s (enqueue_export created_by s)
  begun : (s : Exports) (now : Time) (id : ℕ) (fresh : Text) → Step s (start_job now id fresh s)
  ended :
      (s : Exports) (now : Time) (id : ℕ) (path : Text) (outcome : Outcome)
      → Step s (finish_job now id path outcome s)
  restarted : (s : Exports) (now : Time) → Step s (mark_stale_exports_failed now s).1
  cleaned : (s : Exports) (now : Time) (days : ℕ) → Step s (cleanup_finished_exports now days s).1
