-- ===== src/ImportJobs/Tasks.antt =====
-- The task of an import: its start and its end keep the invariant of the jobs.
use materials_manager.Base.{
  All-edit, ℕ, ◌<◌, ◌≡◌, refl, sym, subst, Text, true, false, List, not, ◌==◌, ==→eq, contains,
  keep, Bool-cases, inl, inr, arith,
}
use materials_manager.Core.Calendar.{Time}
use materials_manager.ImportJobs.{
  ExcelImportJob, ImportJobs, is_interrupted, is_active, edit_job, started, start_job, Outcome,
  finished, finish_job,
}
use materials_manager.ImportJobs.Counts.{
  IsLive, IsExclusive, count-map, contains-removed, contains-kept,
}

module _ (now : Time) (id : ℕ) where
  started-active :
      (import_type : Text) (tasks : List ℕ) (j : ExcelImportJob)
      → contains id tasks ≡ true
      → IsLive tasks j
      → is_active import_type (edit_job id (started now) j) ≡ true
      → is_active import_type j ≡ true
  started-active import_type tasks j there live h = elim (Bool-cases (j.id == id)) [
    | inl e ↦
        let same = ==→eq j.id id e in
        let waits = live (subst (λ (k : ℕ). contains k tasks ≡ true) (sym same) there) in
        ground arith
    | inr e ↦ ground arith
  ]

  started-IsLive :
      (tasks : List ℕ) (j : ExcelImportJob)
      → IsLive tasks j
      → IsLive tasks (edit_job id (started now) j)
  started-IsLive tasks j live = elim (Bool-cases (j.id == id)) [
    | inl e ↦ rw e (λ c. refl)
    | inr e ↦ rw e live
  ]

  edit-fresh :
      (f : ExcelImportJob → ExcelImportJob) (n : ℕ)
      → ((j : ExcelImportJob) → (f j).id ≡ j.id)
      → (j : ExcelImportJob) → j.id < n
      → (edit_job id f j).id < n
  edit-fresh f n same j h = elim (Bool-cases (j.id == id)) [
    | inl e ↦ rw e (omega (arith, same j, h))
    | inr e ↦ rw e h
  ]

  pub start_job-IsExclusive :
      (s : ImportJobs)
      → contains id s.tasks ≡ true
      → IsExclusive s
      → IsExclusive (start_job now id s)
  unfolding start_job
  start_job-IsExclusive s there v = record {
    exclusive = λ ty.
        let fewer =
          count-map ty (edit_job id (started now)) s.tasks
            (λ j live. started-active ty s.tasks j there live) s.jobs v.live in
        let one = v.exclusive ty in omega (arith, fewer, one);
    live =
        All-edit (IsLive s.tasks) (IsLive s.tasks) (edit_job id (started now))
          (started-IsLive s.tasks) s.jobs v.live;
    fresh =
        All-edit (λ j. j.id < s.next_job_id) (λ j. j.id < s.next_job_id) (edit_job id (started now))
          (edit-fresh (started now) s.next_job_id (λ j. refl)) s.jobs v.fresh;
  }

  finished-idle :
      (outcome : Outcome) (j : ExcelImportJob)
      → is_interrupted (finished now outcome j).status ≡ false
  finished-idle (Outcome.imported summary) j = refl
  finished-idle (Outcome.refused code) j = refl
  finished-idle Outcome.crashed j = refl

  finished-active :
      (import_type : Text) (outcome : Outcome) (j : ExcelImportJob)
      → is_active import_type (edit_job id (finished now outcome) j) ≡ true
      → is_active import_type j ≡ true
  finished-active import_type outcome j h =
      let idle = finished-idle outcome j in
      elim (Bool-cases (j.id == id)) [
        | inl e ↦ let k = rw (e, idle) at h in absurd (ground arith)
        | inr e ↦ ground arith
      ]

  finished-IsLive :
      (outcome : Outcome) (tasks : List ℕ) (j : ExcelImportJob)
      → IsLive tasks j
      → IsLive (keep (λ t. not (t == id)) tasks) (edit_job id (finished now outcome) j)
  finished-IsLive outcome tasks j live = elim (Bool-cases (j.id == id)) [
    | inl e ↦ rw e (λ c.
        let gone =
          subst (λ (k : ℕ). contains k (keep (λ t. not (t == id)) tasks) ≡ false)
            (sym (==→eq j.id id e)) (contains-removed id tasks) in
        absurd (ground arith))
    | inr e ↦ rw e (λ c. live (contains-kept j.id id tasks c))
  ]

  pub finish_job-IsExclusive :
      (path : Text) (outcome : Outcome) (s : ImportJobs)
      → IsExclusive s
      → IsExclusive (finish_job now id path outcome s)
  unfolding finish_job
  finish_job-IsExclusive path outcome s v = record {
    exclusive = λ ty.
        let fewer =
          count-map ty (edit_job id (finished now outcome)) s.tasks
            (λ j live. finished-active ty outcome j) s.jobs v.live in
        let one = v.exclusive ty in omega (arith, fewer, one);
    live =
        All-edit (IsLive s.tasks) (IsLive (keep (λ t. not (t == id)) s.tasks))
          (edit_job id (finished now outcome)) (finished-IsLive outcome s.tasks) s.jobs v.live;
    fresh =
        All-edit (λ j. j.id < s.next_job_id) (λ j. j.id < s.next_job_id)
          (edit_job id (finished now outcome))
          (edit-fresh (finished now outcome) s.next_job_id (λ j. refl)) s.jobs v.fresh;
  }
