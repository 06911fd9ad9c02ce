-- ===== src/ImportJobs.antt =====
-- backend/app/services/import_job_service.py and the upload of api/v1/material_code_library.py: the rows
-- of `excel_import_job`, the uploaded files, and the background tasks that are alive. The lock of a type
-- makes its check and its insertion one step. A processor is outside here: what it ends with is an
-- `Outcome`. Names of files come with the request.
pub mod Counts
pub mod Tasks
pub mod Exclusive
pub mod Tests
use materials_manager.Base.{
  ℕ, suc, ◌+◌, ◌-◌, ◌*◌, Text, text, text_eq, Option, none, some, Bool, true, false, List, [], ◌∷◌,
  ◌++◌, not, ◌&&◌, ◌||◌, ◌==◌, ltb, leb, any, contains, ◌≡◌, keep, find, map, take, length,
  if◌then◌else◌,
}
use materials_manager.Core.Errors.{ErrorCode, app_error, Failure, app}
use materials_manager.Core.Calendar.{Time, microseconds_per_day}
use materials_manager.Core.Tx.{
  Result, ok, err, Tx, ◌>>=◌, ◌>>◌, gets, modify, or_raise, raise_if, pure,
}
use materials_manager.Imports.Codes.{ImportSummary}

pub data ExcelImportJobStatus : Type 0 where
  pending running succeeded failed : ExcelImportJobStatus

pub record ExcelImportJob : Type 0 where
  pub id : ℕ
  pub import_type : Text
  pub status : ExcelImportJobStatus
  pub original_filename : Text
  pub file_path : Text
  pub result : Option ImportSummary
  pub error_code : Option ErrorCode
  pub created_by : Option ℕ
  pub started_at : Option Time
  pub finished_at : Option Time

-- `tasks` holds the jobs whose `_run_job` is scheduled or running in this process.
pub record ImportJobs : Type 0 where
  pub jobs : List ExcelImportJob
  pub files : List Text
  pub tasks : List ℕ
  pub next_job_id : ℕ

-- `_INTERRUPTED_STATUSES`
abbrev pub is_interrupted : ExcelImportJobStatus → Bool
is_interrupted ExcelImportJobStatus.pending = true
is_interrupted ExcelImportJobStatus.running = true
is_interrupted _ = false

abbrev pub is_active : Text → ExcelImportJob → Bool
is_active import_type job = text_eq job.import_type import_type && is_interrupted job.status

abbrev pub unlink : Text → List Text → List Text
unlink path = keep (λ f. not (text_eq f path))

-- `save_upload`: a file of at most `max_bytes` bytes is written, in chunks; a longer one is deleted again.
unfoldable pub save_upload : Text → ℕ → ℕ → Tx ImportJobs (Unit {0})
save_upload path size max_bytes = do
  raise_if (ltb max_bytes size) (app_error ErrorCode.excel_file_too_large none)
  modify (λ s. record s { files = path ∷ s.files })

abbrev pub new_job : ℕ → Text → Text → Text → Option ℕ → ExcelImportJob
new_job id import_type filename path created_by = record {
  id = id;
  import_type = import_type;
  status = ExcelImportJobStatus.pending;
  original_filename = take 255 filename;
  file_path = path;
  result = none;
  error_code = none;
  created_by = created_by;
  started_at = none;
  finished_at = none;
}

-- The row and the task of a new job.
abbrev pub add_job : ExcelImportJob → ImportJobs → ImportJobs
add_job job s = record s {
  jobs = job ∷ s.jobs;
  tasks = job.id ∷ s.tasks;
  next_job_id = suc s.next_job_id;
}

unfoldable pub enqueue_import : Text → Text → Text → Option ℕ → Tx ImportJobs ExcelImportJob
enqueue_import import_type filename path created_by = do
  active ← gets (λ s. any (is_active import_type) s.jobs)
  raise_if active (app_error ErrorCode.import_in_progress (some 409))
  id ← gets (λ s. s.next_job_id)
  modify (add_job (new_job id import_type filename path created_by))
  pure (new_job id import_type filename path created_by)

abbrev pub uploaded :
    Text → ImportJobs → Result (ExcelImportJob × ImportJobs) → ImportJobs × Result ExcelImportJob
uploaded path s (ok (job, t)) = (t, ok job)
uploaded path s (err e) = (record s { files = unlink path s.files }, err e)

abbrev pub with_file :
    Text
    → Text
    → Text
    → Option ℕ
    → ImportJobs
    → Result (Unit {0} × ImportJobs)
    → ImportJobs × Result ExcelImportJob
with_file import_type filename path created_by s (err e) = (s, err e)
with_file import_type filename path created_by s (ok (u, t)) =
    uploaded path t (enqueue_import import_type filename path created_by t)

-- `str.lower`, for what it does to the letters of a suffix.
abbrev lower : ℕ → ℕ
lower c = if leb 65 c && leb c 90 then c + 32 else c

-- `str.endswith`
abbrev ends_with : Text → Text → Bool
ends_with suffix [] = text_eq [] suffix
ends_with suffix (c ∷ s) = text_eq (c ∷ s) suffix || ends_with suffix s

abbrev supported_import_suffixes : List Text
supported_import_suffixes = text ".xlsx" ∷ text ".xlsm" ∷ text ".xls" ∷ text ".csv" ∷ []

abbrev pub is_supported : Text → Bool
is_supported filename =
    any (λ suffix. ends_with suffix (map lower filename)) supported_import_suffixes

-- `import_material_codes`: the upload is deleted if the job is refused, whatever the reason.
unfoldable pub import_file :
    Text → Text → Text → ℕ → ℕ → Option ℕ → ImportJobs → ImportJobs × Result ExcelImportJob
import_file import_type filename path size max_bytes created_by s =
    if is_supported filename
    then with_file import_type filename path created_by s (save_upload path size max_bytes s)
    else (s, err (app (app_error ErrorCode.unsupported_excel_file none)))

abbrev pub edit_job : ℕ → (ExcelImportJob → ExcelImportJob) → ExcelImportJob → ExcelImportJob
edit_job id f job = if job.id == id then f job else job

abbrev pub started : Time → ExcelImportJob → ExcelImportJob
started now job = record job { status = ExcelImportJobStatus.running; started_at = some now }

-- The first transaction of `_run_job`.
unfoldable pub start_job : Time → ℕ → ImportJobs → ImportJobs
start_job now id s = record s { jobs = map (edit_job id (started now)) s.jobs }

-- How a processor ends: with a summary, with an `AppError`, or with another exception.
pub data Outcome : Type 0 where
  imported : ImportSummary → Outcome
  refused : ErrorCode → Outcome
  crashed : Outcome

abbrev pub result_of : Outcome → Option ImportSummary
result_of (Outcome.imported summary) = some summary
result_of _ = none

abbrev pub error_of : Outcome → Option ErrorCode
error_of (Outcome.imported summary) = none
error_of (Outcome.refused code) = some code
error_of Outcome.crashed = some ErrorCode.internal_import_error

abbrev pub finished : Time → Outcome → ExcelImportJob → ExcelImportJob
finished now outcome job = record job {
  status = (elim (error_of outcome) [
    | none ↦ ExcelImportJobStatus.succeeded
    | some code ↦ ExcelImportJobStatus.failed
  ]);
  result = result_of outcome;
  error_code = error_of outcome;
  finished_at = some now;
}

-- The last transaction of `_run_job`, the deletion of its file, and the end of its task.
unfoldable pub finish_job : Time → ℕ → Text → Outcome → ImportJobs → ImportJobs
finish_job now id path outcome s = record s {
  jobs = map (edit_job id (finished now outcome)) s.jobs;
  files = unlink path s.files;
  tasks = keep (λ t. not (t == id)) s.tasks;
}

abbrev pub interrupt : Time → ExcelImportJob → ExcelImportJob
interrupt now job =
    if is_interrupted job.status
    then record job {
      status = ExcelImportJobStatus.failed;
      error_code = some ErrorCode.server_restarted;
      finished_at = some now;
    }
    else job

abbrev pub unlink_all : List Text → List Text → List Text
unlink_all [] files = files
unlink_all (p ∷ ps) files = unlink_all ps (unlink p files)

abbrev pub stale_paths : List ExcelImportJob → List Text
stale_paths jobs = map (λ j. j.file_path) (keep (λ j. is_interrupted j.status) jobs)

-- `mark_stale_jobs_failed`, at the start of a process, which has no tasks yet. Where there is no stale
-- row, the update changes none.
unfoldable pub mark_stale_jobs_failed : Time → ImportJobs → ℕ × ImportJobs
mark_stale_jobs_failed now s = (
  length (stale_paths s.jobs),
  record s {
    jobs = map (interrupt now) s.jobs;
    files = unlink_all (stale_paths s.jobs) s.files;
    tasks = [];
  },
)

abbrev pub is_old : Time → ExcelImportJob → Bool
is_old cutoff job =
    not (is_interrupted job.status)
    && (elim job.finished_at [ some t ↦ ltb t cutoff | none ↦ false ])

unfoldable pub cleanup_finished_jobs : Time → ℕ → ImportJobs → ImportJobs
cleanup_finished_jobs now days s = record s {
  jobs = keep (λ j. not (is_old (now - days * microseconds_per_day) j)) s.jobs;
}

unfoldable pub get_import_job : Text → ℕ → Tx ImportJobs ExcelImportJob
get_import_job import_type id = do
  found ← gets (λ s. find (λ j. j.id == id && text_eq j.import_type import_type) s.jobs)
  or_raise found (app_error ErrorCode.import_job_not_found none)

-- What may happen to the jobs: a request, the two transactions of a task that is alive, a restart, and
-- the daily clean-up.
pub data Step : ImportJobs → ImportJobs → Type 0 where
  requested :
      (s : ImportJobs) (import_type filename path : Text) (size max_bytes : ℕ)
      (created_by : Option ℕ)
      → Step s (import_file import_type filename path size max_bytes created_by s).0
  begun :
      (s : ImportJobs) (now : Time) (id : ℕ)
      → contains id s.tasks ≡ true
      → Step s (start_job now id s)
  ended :
      (s : ImportJobs) (now : Time) (id : ℕ) (path : Text) (outcome : Outcome)
      → Step s (finish_job now id path outcome s)
  restarted : (s : ImportJobs) (now : Time) → Step s (mark_stale_jobs_failed now s).1
  cleaned : (s : ImportJobs) (now : Time) (days : ℕ) → Step s (cleanup_finished_jobs now days s)
