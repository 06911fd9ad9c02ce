-- ===== src/Jobs/Restart.antt =====
-- What a restart does to interrupted exports.
use materials_manager.Base.{
  ◌≡◌, refl, sym, ap, ◌∙◌, inl, inr, ◌⊎◌, subst, none, true, false, List, [], ◌∷◌, Text, map, All,
  arith, Bool-cases, Option-cases,
}
use materials_manager.Core.Calendar.{Time}
use materials_manager.Jobs.{
  ExcelExportJob, Exports, is_interrupted, stale_paths, interrupt, fail_stale,
  mark_stale_exports_failed,
}

interrupt-ends :
    (now : Time) (jobs : List ExcelExportJob)
    → All (λ j. is_interrupted j.status ≡ false) (map (interrupt now) jobs)
interrupt-ends now [] = tt
interrupt-ends now (j ∷ js) = (ends j, interrupt-ends now js)
  where
    ends : (k : ExcelExportJob) → is_interrupted (interrupt now k).status ≡ false
    ends k = ground arith

-- No interrupted job has a file.
abbrev pub NoPath : List ExcelExportJob → Type 0
NoPath = All (λ j. is_interrupted j.status ≡ true → j.file_path ≡ none)

no_paths : (jobs : List ExcelExportJob) → stale_paths jobs ≡ [] → NoPath jobs
unfolding stale_paths
no_paths [] h = tt
no_paths (j ∷ js) h = elim (Bool-cases (is_interrupted j.status)) [
  | inl i ↦ elim (Option-cases j.file_path) [
    | inl e ↦ ((λ k. e), no_paths js (ground arith))
    | inr (path, e) ↦ absurd (ground arith)
  ]
  | inr i ↦ ((λ k. absurd (ground arith)), no_paths js (ground arith))
]

stale_paths-none : (jobs : List ExcelExportJob) → NoPath jobs → stale_paths jobs ≡ []
unfolding stale_paths
stale_paths-none [] h = refl
stale_paths-none (j ∷ js) h = elim (Bool-cases (is_interrupted j.status)) [
  | inl i ↦ rw (i, h.0 i) (stale_paths-none js h.1)
  | inr i ↦ rw i (stale_paths-none js h.1)
]

List-cases : (ps : List Text) → (ps ≡ []) ⊎ ((p : Text) × (qs : List Text) × (ps ≡ (p ∷ qs)))
List-cases [] = inl refl
List-cases (p ∷ qs) = inr (p, qs, refl)

-- After a restart either no export is interrupted any more, or nothing was changed, and that is so
-- exactly where no interrupted export has a file path: an export that waits has none before it is
-- begun, so one that was waiting alone goes on waiting for ever.
pub mark_stale_exports_failed-ends :
    (now : Time) (s : Exports)
    → (All (λ j. is_interrupted j.status ≡ false) (mark_stale_exports_failed now s).1.jobs
        × (NoPath s.jobs → ⊥))
      ⊎ (((mark_stale_exports_failed now s).1 ≡ s) × NoPath s.jobs)
unfolding mark_stale_exports_failed
mark_stale_exports_failed-ends now s = elim (List-cases (stale_paths s.jobs)) [
  | inl e ↦ inr (left e, no_paths s.jobs e)
  | inr (p, qs, e) ↦ inl (ended p qs e, (λ h. some_path p qs (sym e ∙ stale_paths-none s.jobs h)))
]
  where
    left : stale_paths s.jobs ≡ [] → (mark_stale_exports_failed now s).1 ≡ s
    left e = ap (fail_stale now s) e

    ended :
        (p : Text) (qs : List Text)
        → stale_paths s.jobs ≡ (p ∷ qs)
        → All (λ j. is_interrupted j.status ≡ false) (mark_stale_exports_failed now s).1.jobs
    ended p qs e =
        subst (λ (x : Exports). All (λ j. is_interrupted j.status ≡ false) x.jobs)
          (sym (ap (fail_stale now s) e)) (interrupt-ends now s.jobs)

    some_path : (p : Text) (qs : List Text) → (p ∷ qs) ≡ [] → ⊥
    some_path p qs h = cc
