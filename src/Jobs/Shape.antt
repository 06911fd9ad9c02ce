-- ===== src/Jobs/Shape.antt =====
-- The life of an export: what its row says in each status.
use materials_manager.Base.{
  All-keep, All-edit, ℕ, ◌≡◌, refl, inl, inr, Bool, true, List, [], ◌∷◌, Text, All, not, ◌&&◌, ◌==◌,
  is_some, truthy, Bool-cases,
}
use materials_manager.Core.Calendar.{Time}
use materials_manager.Jobs.{
  ExcelExportJobStatus, ExcelExportJob, Exports, Outcome, is_interrupted, edit_job, started,
  start_job, error_of, filename_of, finished, finish_job, stale_paths, interrupt, fail_stale,
  mark_stale_exports_failed, cleanup_finished_exports, enqueue_export, Step,
}

-- An export that is running has a file path; one that ended has its end time, with an error exactly
-- if it failed; one that succeeded has a download name.
abbrev pub is_shaped : ExcelExportJob → Bool
is_shaped job = elim job.status [
  | ExcelExportJobStatus.pending ↦ true
  | ExcelExportJobStatus.running ↦ is_some job.file_path
  | ExcelExportJobStatus.succeeded ↦
      is_some job.finished_at && (not (is_some job.error_code) && is_some job.download_filename)
  | ExcelExportJobStatus.failed ↦ is_some job.finished_at && is_some job.error_code
]

abbrev pub IsShaped : Exports → Type 0
IsShaped s = All (λ j. is_shaped j ≡ true) s.jobs

edit_job-IsShaped :
    (id : ℕ) (f : ExcelExportJob → ExcelExportJob) (j : ExcelExportJob)
    → is_shaped (f j) ≡ true
    → is_shaped j ≡ true
    → is_shaped (edit_job id f j) ≡ true
edit_job-IsShaped id f j h k = elim (Bool-cases (j.id == id)) [ inl e ↦ rw e h | inr e ↦ rw e k ]

finished-IsShaped :
    (now : Time) (outcome : Outcome) (j : ExcelExportJob)
    → is_shaped (finished now outcome j) ≡ true
unfolding error_of filename_of
finished-IsShaped now (Outcome.produced filename) j = elim (Bool-cases (truthy filename)) [
  | inl h ↦ rw h refl
  | inr h ↦ rw h refl
]
finished-IsShaped now Outcome.incomplete j = refl
finished-IsShaped now Outcome.crashed j = refl
finished-IsShaped now (Outcome.refused code) j = refl

interrupt-IsShaped :
    (now : Time) (j : ExcelExportJob) → is_shaped j ≡ true → is_shaped (interrupt now j) ≡ true
interrupt-IsShaped now j h = elim (Bool-cases (is_interrupted j.status)) [
  | inl e ↦ rw e refl
  | inr e ↦ rw e h
]

fail_stale-IsShaped :
    (now : Time) (s : Exports) (ps : List Text) → IsShaped s → IsShaped (fail_stale now s ps)
fail_stale-IsShaped now s [] h = h
fail_stale-IsShaped now s (p ∷ ps) h =
    All-edit _ _ (interrupt now) (interrupt-IsShaped now) s.jobs h

mark_stale-IsShaped :
    (now : Time) (s : Exports) → IsShaped s → IsShaped (mark_stale_exports_failed now s).1
unfolding mark_stale_exports_failed
mark_stale-IsShaped now s h = fail_stale-IsShaped now s (stale_paths s.jobs) h

-- Whatever happens to the exports, in any order, a running export has a file path, one that ended has
-- its end time, it has an error exactly if it failed, and one that succeeded has a download name.
pub Step-IsShaped : {s s' : Exports} → Step s s' → IsShaped s → IsShaped s'
unfolding enqueue_export start_job finish_job cleanup_finished_exports
Step-IsShaped (Step.enqueued s created_by) h = (refl, h)
Step-IsShaped (Step.begun s now id fresh) h =
    All-edit _ _ (edit_job id (started now fresh))
      (λ j k. edit_job-IsShaped id (started now fresh) j refl k) s.jobs h
Step-IsShaped (Step.ended s now id path outcome) h =
    All-edit _ _ (edit_job id (finished now outcome))
      (λ j k. edit_job-IsShaped id (finished now outcome) j (finished-IsShaped now outcome j) k)
      s.jobs h
Step-IsShaped (Step.restarted s now) h = mark_stale-IsShaped now s h
Step-IsShaped (Step.cleaned s now days) h = All-keep _ _ s.jobs h
