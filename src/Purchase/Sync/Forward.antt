-- ===== src/Purchase/Sync/Forward.antt =====
-- What a synchronisation may change in a row.
use materials_manager.Base.{
  ◌+◌, ◌<◌, ◌≡◌, refl, ap, inl, inr, ◌⊎◌, Text, Option, none, some, Bool, true, false, not, ◌||◌,
  Bool-cases, strip, is_blank, arith, if◌then◌else◌,
}
use materials_manager.Model.Purchase.{Date, PurchaseRequest, PurchaseRequestLine}
use materials_manager.Purchase.Sync.{
  PurchaseRecordSyncTraceUpdate, fill, fill_date, advance, sync_request, sync_line,
}
use materials_manager.Purchase.Sync.Laws.{
  stage, may_advance, fill-kept, fill_date-kept, reached_from-up,
}

fill-quiet :
    (value present : Option Text)
    → (fill value present).1 ≡ false
    → (fill value present).0 ≡ present
unfolding fill
fill-quiet none present h = refl
fill-quiet (some v) present h = elim (Bool-cases (is_blank (some v) || not (is_blank present))) [
  | inl e ↦ rw e refl
  | inr e ↦ absurd (ground arith)
]

fill_date-quiet :
    (value present : Option Date)
    → (fill_date value present).1 ≡ false
    → (fill_date value present).0 ≡ present
unfolding fill_date
fill_date-quiet none present h = refl
fill_date-quiet (some v) none h = cc
fill_date-quiet (some v) (some p) h = refl

advance-quiet :
    (value : Option Text) (present : Text)
    → (advance value present).1 ≡ false
    → (advance value present).0 ≡ present
unfolding advance
advance-quiet none present h = refl
advance-quiet (some v) present h = elim (Bool-cases (may_advance v present)) [
  | inl e ↦ absurd (ground arith)
  | inr e ↦ rw e refl
]

advance-forward :
    (value : Option Text) (present : Text)
    → ((advance value present).0 ≡ present) ⊎ (stage present < stage (advance value present).0)
unfolding advance
advance-forward none present = inl refl
advance-forward (some v) present = elim (Bool-cases (may_advance v present)) [
  | inl e ↦ inr (rw e (reached_from-up (strip v) present (ground arith) (ground arith)))
  | inr e ↦ inl (rw e refl)
]

kept_or_blank :
    (value present : Option Text) → (is_blank present ≡ true) ⊎ ((fill value present).0 ≡ present)
kept_or_blank value present = elim (Bool-cases (is_blank present)) [
  | inl h ↦ inl h
  | inr h ↦ inr (ap (λ (q : Option Text × Bool). q.0) (fill-kept value present h))
]

sync_line-quiet :
    (update : PurchaseRecordSyncTraceUpdate) (line : PurchaseRequestLine)
    → (sync_line update line).1 ≡ false
    → (sync_line update line).0 ≡ line
unfolding sync_line
sync_line-quiet update line h =
    let a : (fill update.salesperson line.salesperson).1 ≡ false = ground arith in
    let b : (advance update.status line.status).1 ≡ false = ground arith in
    rw
      (
        a,
        b,
        fill-quiet update.salesperson line.salesperson a,
        advance-quiet update.status line.status b,
      )
      refl

-- A synchronised line keeps a salesperson that is not blank, its status stays or moves up the
-- progression (ordered, purchased, partly stored, stored), its version goes up by one exactly if it is
-- reported as changed, and it is the same line otherwise.
pub sync_line-forward :
    (update : PurchaseRecordSyncTraceUpdate) (line : PurchaseRequestLine)
    → ((is_blank line.salesperson ≡ true)
        ⊎ ((sync_line update line).0.salesperson ≡ line.salesperson))
      × (((sync_line update line).0.status ≡ line.status)
          ⊎ (stage line.status < stage (sync_line update line).0.status))
      × ((sync_line update line).0.version
          ≡ (if (sync_line update line).1 then line.version + 1 else line.version))
      × (((sync_line update line).1 ≡ true) ⊎ ((sync_line update line).0 ≡ line))
unfolding sync_line
sync_line-forward update line = (
  kept_or_blank update.salesperson line.salesperson,
  advance-forward update.status line.status,
  refl,
  elim (Bool-cases (sync_line update line).1) [
    | inl h ↦ inl h
    | inr h ↦ inr (sync_line-quiet update line h)
  ],
)

kept_or_missing :
    (value present : Option Date) → (present ≡ none) ⊎ ((fill_date value present).0 ≡ present)
kept_or_missing value none = inl refl
kept_or_missing value (some d) = inr (ap (λ (q : Option Date × Bool). q.0) (fill_date-kept value d))

sync_request-quiet :
    (update : PurchaseRecordSyncTraceUpdate) (r : PurchaseRequest)
    → (sync_request update r).1 ≡ false
    → (sync_request update r).0 ≡ r
unfolding sync_request
sync_request-quiet update r h =
    let a : (fill update.contract_no r.contract_no).1 ≡ false = ground arith in
    let b : (fill update.vessel_no r.vessel_no).1 ≡ false = ground arith in
    let c : (fill update.consolidation_port r.consolidation_port).1 ≡ false = ground arith in
    let d : (fill_date update.consolidation_date r.consolidation_date).1 ≡ false = ground arith in
    let e : (fill_date update.sailing_date r.sailing_date).1 ≡ false = ground arith in
    rw
      (
        a,
        b,
        c,
        d,
        e,
        fill-quiet update.contract_no r.contract_no a,
        fill-quiet update.vessel_no r.vessel_no b,
        fill-quiet update.consolidation_port r.consolidation_port c,
        fill_date-quiet update.consolidation_date r.consolidation_date d,
        fill_date-quiet update.sailing_date r.sailing_date e,
      )
      refl

-- A synchronised record keeps every text that is not blank and every date that it has, its version
-- goes up by one exactly if it is reported as changed, and it is the same record otherwise.
pub sync_request-fills :
    (update : PurchaseRecordSyncTraceUpdate) (r : PurchaseRequest)
    → ((is_blank r.contract_no ≡ true) ⊎ ((sync_request update r).0.contract_no ≡ r.contract_no))
      × ((is_blank r.vessel_no ≡ true) ⊎ ((sync_request update r).0.vessel_no ≡ r.vessel_no))
      × ((is_blank r.consolidation_port ≡ true)
          ⊎ ((sync_request update r).0.consolidation_port ≡ r.consolidation_port))
      × ((r.consolidation_date ≡ none)
          ⊎ ((sync_request update r).0.consolidation_date ≡ r.consolidation_date))
      × ((r.sailing_date ≡ none) ⊎ ((sync_request update r).0.sailing_date ≡ r.sailing_date))
      × ((sync_request update r).0.version
          ≡ (if (sync_request update r).1 then r.version + 1 else r.version))
      × (((sync_request update r).1 ≡ true) ⊎ ((sync_request update r).0 ≡ r))
unfolding sync_request
sync_request-fills update r = (
  kept_or_blank update.contract_no r.contract_no,
  kept_or_blank update.vessel_no r.vessel_no,
  kept_or_blank update.consolidation_port r.consolidation_port,
  kept_or_missing update.consolidation_date r.consolidation_date,
  kept_or_missing update.sailing_date r.sailing_date,
  refl,
  elim (Bool-cases (sync_request update r).1) [
    | inl h ↦ inl h
    | inr h ↦ inr (sync_request-quiet update r h)
  ],
)
