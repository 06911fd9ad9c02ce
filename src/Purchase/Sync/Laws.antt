-- ===== src/Purchase/Sync/Laws.antt =====
-- Filling and advancing twice, and the progression of the statuses.
use materials_manager.Base.{
  ℕ, ◌<◌, ◌≡◌, refl, sym, subst, ◌∙◌, inl, inr, Text, text_eq, text_eq→eq, text_eq_refl, Option,
  none, some, Bool, true, false, List, [], ◌∷◌, not, ◌&&◌, ◌||◌, any, Bool-cases, strip, is_blank,
  is_blank-strip, arith, if◌then◌else◌,
}
use materials_manager.Model.Purchase.{Date, PurchaseRequest, PurchaseRequestLine}
use materials_manager.Purchase.Sync.{
  PurchaseRecordSyncTraceUpdate, ordered, purchased, partly_stored, stored, reached_from, fill,
  fill_date, advance, sync_request, sync_line, pass,
}

-- How far a record is: 0 for a status outside the progression.
abbrev pub stage : Text → ℕ
stage status =
    if text_eq status ordered
    then 1
    else if text_eq status purchased
    then 2
    else if text_eq status partly_stored
    then 3
    else if text_eq status stored
    then 4
    else 0

pub fill-kept :
    (value present : Option Text)
    → is_blank present ≡ false
    → (fill value present) ≡ (present, false)
unfolding fill
fill-kept none present h = refl
fill-kept (some v) present h = ground (arith, h)

pub fill_date-kept :
    (value : Option Date) (present : Date) → fill_date value (some present) ≡ (some present, false)
unfolding fill_date
fill_date-kept none present = refl
fill_date-kept (some v) present = refl

-- Filling again writes nothing.
fill-again :
    (value present : Option Text)
    → fill value (fill value present).0 ≡ ((fill value present).0, false)
unfolding fill
fill-again none present = refl
fill-again (some v) present = elim (Bool-cases (is_blank (some v) || not (is_blank present))) [
  | inl h ↦ rw (h, h) refl
  | inr h ↦
      let k : (is_blank (some v) || not (is_blank (some (strip v)))) ≡ true =
        ground (arith, is_blank-strip v) in
      rw (h, k) refl
]

fill_date-again :
    (value present : Option Date)
    → fill_date value (fill_date value present).0 ≡ ((fill_date value present).0, false)
unfolding fill_date
fill_date-again none present = refl
fill_date-again (some v) none = refl
fill_date-again (some v) (some p) = refl

abbrev pub may_advance : Text → Text → Bool
may_advance v present =
    not (is_blank (some v))
    && (not (text_eq present (strip v)) && any (text_eq present) (reached_from (strip v)))

advance-again :
    (value : Option Text) (present : Text)
    → advance value (advance value present).0 ≡ ((advance value present).0, false)
unfolding advance
advance-again none present = refl
advance-again (some v) present = elim (Bool-cases (may_advance v present)) [
  | inl h ↦
      let k : may_advance v (strip v) ≡ false = ground (arith, text_eq_refl (strip v)) in
      rw (h, k) refl
  | inr h ↦ rw (h, h) refl
]

-- The progression goes up.
abbrev pub GoesUp : Text → Text → Type 0
GoesUp present target =
    any (text_eq present) (reached_from target) ≡ true
    → text_eq present target ≡ false
    → stage present < stage target

up-stored : (present : Text) → GoesUp present stored
unfolding reached_from
up-stored present h n = ground arith

up-partly_stored : (present : Text) → GoesUp present partly_stored
unfolding reached_from
up-partly_stored present h n = ground arith

up-purchased : (present : Text) → GoesUp present purchased
unfolding reached_from
up-purchased present h n = ground arith

pub reached_from-up : (target present : Text) → GoesUp present target
unfolding reached_from
reached_from-up target present h n = elim (Bool-cases (text_eq target stored)) [
  | inl e ↦ at stored e up-stored
  | inr e ↦ elim (Bool-cases (text_eq target partly_stored)) [
    | inl f ↦ at partly_stored f up-partly_stored
    | inr f ↦ elim (Bool-cases (text_eq target purchased)) [
      | inl g ↦ at purchased g up-purchased
      | inr g ↦ absurd (ground arith)
    ]
  ]
]
  where
    at :
        (t : Text)
        → text_eq target t ≡ true
        → ((p : Text) → GoesUp p t)
        → stage present < stage target
    at t e up =
        subst (λ (x : Text). GoesUp present x) (sym (text_eq→eq target t e)) (up present) h n

pub sync_request-again :
    (u : PurchaseRecordSyncTraceUpdate) (r : PurchaseRequest)
    → sync_request u (sync_request u r).0 ≡ ((sync_request u r).0, false)
unfolding sync_request
sync_request-again u r =
    rw
      (
        fill-again u.contract_no r.contract_no,
        fill-again u.vessel_no r.vessel_no,
        fill-again u.consolidation_port r.consolidation_port,
        fill_date-again u.consolidation_date r.consolidation_date,
        fill_date-again u.sailing_date r.sailing_date,
      )
      refl

pub sync_line-again :
    (u : PurchaseRecordSyncTraceUpdate) (l : PurchaseRequestLine)
    → sync_line u (sync_line u l).0 ≡ ((sync_line u l).0, false)
unfolding sync_line
sync_line-again u l =
    rw (fill-again u.salesperson l.salesperson, advance-again u.status l.status) refl

module _ {A : Type 0} (selects : A → Bool) (step : A → A × Bool)
    (stays : (x : A) → selects (step x).0 ≡ selects x)
    (again : (x : A) → step (step x).0 ≡ ((step x).0, false)) where
  pub pass-again :
      (xs : List A) → pass selects step (pass selects step xs).0 ≡ ((pass selects step xs).0, 0)
  unfolding pass
  pass-again [] = refl
  pass-again (x ∷ xs) = elim (Bool-cases (selects x)) [
    | inl h ↦ rw (h, stays x ∙ h, again x, pass-again xs) refl
    | inr h ↦ rw (h, h, pass-again xs) refl
  ]
