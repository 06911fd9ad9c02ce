-- ===== src/Purchase/Sync.antt =====
-- `apply_trace_sync` of backend/app/services/purchase_record_sync_service.py: what the external
-- platform knows of a trace number is written back to the records that carry it.
pub mod Laws
pub mod Forward
pub mod Again
mod Tests
use materials_manager.Base.{
  ℕ, suc, ◌+◌, Text, text, text_eq, Option, none, some, Bool, true, false, List, [], ◌∷◌, not, ◌&&◌,
  ◌||◌, any, keep, map, contains, is_some, truthy, strip, is_blank, if◌then◌else◌,
}
use materials_manager.Core.Errors.{ErrorCode, app_error, not_found}
use materials_manager.Core.Tx.{Tx, ◌>>=◌, ◌>>◌, pure, gets, modify, raise_if}
use materials_manager.Model.Purchase.{Date, PurchaseRequest, PurchaseRequestLine}
use materials_manager.Model.Database.{Db}

pub record PurchaseRecordSyncTraceUpdate : Type 0 where
  pub salesperson : Option Text
  pub contract_no : Option Text
  pub vessel_no : Option Text
  pub consolidation_port : Option Text
  pub consolidation_date : Option Date
  pub sailing_date : Option Date
  pub status : Option Text

pub record PurchaseRecordSyncResultRead : Type 0 where
  pub affected_headers : ℕ
  pub affected_lines : ℕ

abbrev pub ordered : Text
ordered = text "已申购"

abbrev pub purchased : Text
purchased = text "已采购"

abbrev pub partly_stored : Text
partly_stored = text "部分入库"

abbrev pub stored : Text
stored = text "已入库"

-- `_STATUS_PROGRESSION.get(status, set())`: the statuses from which a status is reached.
unfoldable pub reached_from : Text → List Text
reached_from status =
    if text_eq status stored
    then ordered ∷ purchased ∷ partly_stored ∷ stored ∷ []
    else if text_eq status partly_stored
    then ordered ∷ purchased ∷ partly_stored ∷ []
    else if text_eq status purchased
    then ordered ∷ purchased ∷ []
    else []

-- A text is written only over a blank one; with it, whether anything was written.
unfoldable pub fill : Option Text → Option Text → Option Text × Bool
fill none present = (present, false)
fill (some value) present =
    if is_blank (some value) || not (is_blank present)
    then (present, false)
    else (some (strip value), true)

-- A date is written only over a missing one.
unfoldable pub fill_date : Option Date → Option Date → Option Date × Bool
fill_date none present = (present, false)
fill_date (some value) none = (some value, true)
fill_date (some value) (some present) = (some present, false)

-- `line.status` moves only along the progression.
unfoldable pub advance : Option Text → Text → Text × Bool
advance none present = (present, false)
advance (some value) present =
    if not (is_blank (some value))
      && (not (text_eq present (strip value)) && any (text_eq present) (reached_from (strip value)))
    then (strip value, true)
    else (present, false)

abbrev bump : Bool → ℕ → ℕ
bump changed version = if changed then version + 1 else version

unfoldable pub sync_request :
    PurchaseRecordSyncTraceUpdate → PurchaseRequest → PurchaseRequest × Bool
sync_request update r =
    let (contract, a) = fill update.contract_no r.contract_no in
    let (vessel, b) = fill update.vessel_no r.vessel_no in
    let (port, c) = fill update.consolidation_port r.consolidation_port in
    let (consolidated, d) = fill_date update.consolidation_date r.consolidation_date in
    let (sailing, e) = fill_date update.sailing_date r.sailing_date in
    let changed = a || (b || (c || (d || e))) in
    (
      record r {
        contract_no = contract;
        vessel_no = vessel;
        consolidation_port = port;
        consolidation_date = consolidated;
        sailing_date = sailing;
        version = bump changed r.version;
      },
      changed,
    )

unfoldable pub sync_line :
    PurchaseRecordSyncTraceUpdate → PurchaseRequestLine → PurchaseRequestLine × Bool
sync_line update line =
    let (person, a) = fill update.salesperson line.salesperson in
    let (status, b) = advance update.status line.status in
    let changed = a || b in
    (
      record line { salesperson = person; status = status; version = bump changed line.version },
      changed,
    )

-- One loop over the rows that pass: the rows after it, and how many were changed.
module _ {A : Type 0} (selects : A → Bool) (step : A → A × Bool) where
  unfoldable pub pass : List A → List A × ℕ
  pass [] = ([], 0)
  pass (x ∷ xs) =
      let (rest, n) = pass xs in
      if selects x then ((step x).0 ∷ rest, (if (step x).1 then suc n else n)) else (x ∷ rest, n)

-- Texts compare by code points here; the collation of the database may equate more.
unfoldable pub on_trace : Text → PurchaseRequestLine → Bool
on_trace trace line = elim line.trace_no [ none ↦ false | some t ↦ text_eq t trace ]

abbrev pub request_ids : Text → List PurchaseRequestLine → List ℕ
request_ids trace lines = map (λ l. l.purchase_request_id) (keep (on_trace trace) lines)

-- The two loops.
unfoldable pub write_sync :
    Text → PurchaseRecordSyncTraceUpdate → Db → PurchaseRecordSyncResultRead × Db
write_sync trace update db =
    let ids = request_ids trace db.purchase_request_lines in
    let (requests, headers) =
      pass (λ r. contains r.id ids) (sync_request update) db.purchase_requests in
    let (lines, changed) = pass (on_trace trace) (sync_line update) db.purchase_request_lines in
    (
      record { affected_headers = headers; affected_lines = changed },
      record db { purchase_requests = requests; purchase_request_lines = lines },
    )

unfoldable pub apply_trace_sync :
    Text → PurchaseRecordSyncTraceUpdate → Tx Db PurchaseRecordSyncResultRead
apply_trace_sync trace_no update = do
  let trace = strip trace_no
  raise_if (not (truthy trace)) (app_error ErrorCode.validation_error (some 422))
  found ← gets (λ db. any (on_trace trace) db.purchase_request_lines)
  raise_if (not found) not_found
  result ← gets (λ db. (write_sync trace update db).0)
  modify (λ db. (write_sync trace update db).1)
  pure result
