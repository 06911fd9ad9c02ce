-- ===== src/Purchase/Batch.antt =====
-- `batch_update_purchase_records` of backend/app/services/purchase_request_service.py.
use materials_manager.Base.{
  ℕ, ◌+◌, Option, none, some, List, not, ◌==◌, keep, find, map, contains, length, or_none,
  if◌then◌else◌,
}
use materials_manager.Core.Errors.{not_found}
use materials_manager.Core.Common.{validate_version}
use materials_manager.Core.Tx.{
  Tx, ◌>>=◌, ◌>>◌, pure, gets, modify, raise_if, or_key_error, for_each,
}
use materials_manager.Model.Purchase.{Date, PurchaseRequest, PurchaseRequestLine}
use materials_manager.Model.Database.{Db}
use materials_manager.Schemas.Purchase.{PurchaseRecordVersion, BatchUpdatePurchaseRecordsRequest}
use materials_manager.Purchase.Numbers.{next_purchase_plan_no}
use materials_manager.Purchase.Plans.{given}
use materials_manager.Purchase.Records.{request_of, put_record}

abbrev record_of : ℕ → Db → Option PurchaseRequestLine
record_of id db = find (λ l. l.id == id) db.purchase_request_lines

abbrev named_records : List ℕ → Db → List PurchaseRequestLine
named_records ids db = keep (λ l. contains l.id ids) db.purchase_request_lines

-- The fields of the header that the request sets. An empty text is stored as none.
abbrev pub batch_request : BatchUpdatePurchaseRecordsRequest → PurchaseRequest → PurchaseRequest
batch_request update request = record request {
  purchase_order_no = (elim update.purchase_order_no [
    | some v ↦ or_none v
    | none ↦ request.purchase_order_no
  ]);
  contract_no = (elim update.contract_no [ some v ↦ or_none v | none ↦ request.contract_no ]);
  vessel_no = (elim update.vessel_no [ some v ↦ or_none v | none ↦ request.vessel_no ]);
  consolidation_date = given update.consolidation_date request.consolidation_date;
  consolidation_port = (elim update.consolidation_port [
    | some v ↦ or_none v
    | none ↦ request.consolidation_port
  ]);
  sailing_date = given update.sailing_date request.sailing_date;
  purchase_date = given update.purchase_date request.purchase_date;
  remark = given update.record_remark request.remark;
  version = request.version + 1;
}

-- Each selected header is written once, whichever of its lines are named.
abbrev pub put_requests : BatchUpdatePurchaseRecordsRequest → List ℕ → Db → Db
put_requests update ids db = record db {
  purchase_requests =
      map (λ r. if contains r.id ids then batch_request update r else r) db.purchase_requests;
}

abbrev count_set : {A : Type 0} → Option A → ℕ
count_set none = 0
count_set (some a) = 1

-- The fields of a line that the request sets; the version goes up by one for each.
abbrev pub batch_line :
    BatchUpdatePurchaseRecordsRequest → PurchaseRequestLine → PurchaseRequestLine
batch_line update line = record line {
  actual_demand_person_snapshot =
      given update.actual_demand_person line.actual_demand_person_snapshot;
  purchase_responsible_snapshot =
      given update.purchase_responsible line.purchase_responsible_snapshot;
  status = given update.status line.status;
  trace_no = (elim update.trace_no [ some v ↦ or_none v | none ↦ line.trace_no ]);
  salesperson = given update.salesperson line.salesperson;
  version =
      line.version
      + (count_set update.actual_demand_person
          + (count_set update.purchase_responsible
              + (count_set update.status
                  + (count_set update.trace_no + count_set update.salesperson))));
}

-- A new plan date takes a new plan number.
unfoldable pub redate_record : Option Date → PurchaseRequestLine → Tx Db PurchaseRequestLine
redate_record none line = pure line
redate_record (some plan_date) line =
    if plan_date == line.plan_date_snapshot then pure line else (do
      plan_no ← next_purchase_plan_no plan_date
      pure (record line {
        plan_no_snapshot = plan_no;
        plan_date_snapshot = plan_date;
        version = line.version + 1;
      }))

unfoldable pub check_record : PurchaseRecordVersion → Tx Db (Unit {0})
check_record reference = do
  found ← gets (record_of reference.line_id)
  line ← or_key_error found
  request ← request_of line
  validate_version (some reference.version) request.version

unfoldable pub update_record :
    BatchUpdatePurchaseRecordsRequest → PurchaseRecordVersion → Tx Db (Unit {0})
update_record update reference = do
  found ← gets (record_of reference.line_id)
  line ← or_key_error found
  dated ← redate_record update.plan_date line
  modify (put_record (batch_line update dated))

unfoldable pub batch_update_purchase_records :
    BatchUpdatePurchaseRecordsRequest → Tx Db (List PurchaseRequestLine)
batch_update_purchase_records update = do
  let ids = map (λ r. r.line_id) update.records
  lines ← gets (named_records ids)
  raise_if (not (length lines == length ids)) not_found
  for_each update.records check_record
  modify (put_requests update (map (λ l. l.purchase_request_id) lines))
  for_each update.records (update_record update)
  gets (named_records ids)
