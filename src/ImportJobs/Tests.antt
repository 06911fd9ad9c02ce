-- ===== src/ImportJobs/Tests.antt =====
-- Runs of the import jobs, and an instance of their theorem.
use materials_manager.Base.{◌≡◌, refl, Text, text, some, [], arith}
use materials_manager.Core.Errors.{ErrorCode, app_error, app}
use materials_manager.Core.Tx.{err, actions}
use materials_manager.ImportJobs.{ImportJobs, save_upload, enqueue_import, import_file, Step}
use materials_manager.ImportJobs.Counts.{IsExclusive}
use materials_manager.ImportJobs.Exclusive.{Step-IsExclusive}

abbrev empty : ImportJobs
empty = record { jobs = []; files = []; tasks = []; next_job_id = 1 }

abbrev codes : Text
codes = text "material_code"

abbrev first : ImportJobs
first = (import_file codes (text "a.xlsx") (text "/i/1") 10 50 (some 7) empty).0

-- A second upload of the type is refused while the first waits, and its file is deleted.
refuses :
    import_file codes (text "b.xlsx") (text "/i/2") 10 50 (some 7) first
    ≡ (first, err (app (app_error ErrorCode.import_in_progress (some 409))))
unfolding import_file save_upload enqueue_import actions
refuses = refl

empty-IsExclusive : IsExclusive empty
empty-IsExclusive = record { exclusive = λ ty. omega arith; live = tt; fresh = tt }

Step-IsExclusive_example : IsExclusive first
Step-IsExclusive_example =
    Step-IsExclusive (Step.requested empty codes (text "a.xlsx") (text "/i/1") 10 50 (some 7))
      empty-IsExclusive
