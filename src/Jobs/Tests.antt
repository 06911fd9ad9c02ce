-- ===== src/Jobs/Tests.antt =====
-- Runs of the exports, and instances of their theorems.
use materials_manager.Base.{◌≡◌, ◌⊎◌, refl, some, false, [], text, All}
use materials_manager.Jobs.{
  Exports, Outcome, is_interrupted, enqueue_export, start_job, finish_job, stale_paths,
  mark_stale_exports_failed, Step,
}
use materials_manager.Jobs.Shape.{IsShaped, Step-IsShaped}
use materials_manager.Jobs.Restart.{NoPath, mark_stale_exports_failed-ends}

abbrev no_exports : Exports
no_exports = record { jobs = []; files = []; next_job_id = 1 }

-- One export that waits.
abbrev waiting : Exports
waiting = enqueue_export (some 2) no_exports

abbrev running : Exports
running = start_job 10 1 (text "exports/a.xlsx") waiting

mark_stale_exports_failed-ends_example :
    (All (λ j. is_interrupted j.status ≡ false) (mark_stale_exports_failed 20 running).1.jobs
      × (NoPath running.jobs → ⊥))
    ⊎ (((mark_stale_exports_failed 20 running).1 ≡ running) × NoPath running.jobs)
mark_stale_exports_failed-ends_example = mark_stale_exports_failed-ends 20 running

-- An export that waits alone is not ended by a restart.
waiting_stays : (mark_stale_exports_failed 20 waiting).1 ≡ waiting
unfolding stale_paths mark_stale_exports_failed enqueue_export
waiting_stays = refl

running-IsShaped : IsShaped running
unfolding start_job enqueue_export
running-IsShaped = (refl, tt)

abbrev done : Outcome
done = Outcome.produced (text "records.xlsx")

Step-IsShaped_example : IsShaped (finish_job 30 1 (text "exports/a.xlsx") done running)
Step-IsShaped_example =
    Step-IsShaped (Step.ended running 30 1 (text "exports/a.xlsx") done) running-IsShaped
