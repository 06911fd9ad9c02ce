-- ===== src/Purchase/Sync/Tests.antt =====
-- Runs of a synchronisation, and instances of its theorems.
use materials_manager.Base.{
  ◌+◌, ◌<◌, ◌≡◌, ◌⊎◌, refl, none, some, true, [], ◌∷◌, text, is_blank, is_space, strip_start,
  strip_end, strip, if◌then◌else◌,
}
use materials_manager.Core.Tx.{ok, actions}
use materials_manager.Model.Purchase.{PurchaseRequest, PurchaseRequestLine}
use materials_manager.Model.Database.{Db, empty_db}
use materials_manager.Purchase.Sync.{
  PurchaseRecordSyncTraceUpdate, ordered, stored, fill, fill_date, advance, reached_from,
  sync_request, sync_line, pass, on_trace, write_sync, apply_trace_sync,
}
use materials_manager.Purchase.Sync.Laws.{stage}
use materials_manager.Purchase.Sync.Forward.{sync_line-forward, sync_request-fills}
use materials_manager.Purchase.Sync.Again.{apply_trace_sync_again}

-- The platform knows that the goods were stored, and who sold them.
abbrev news : PurchaseRecordSyncTraceUpdate
news = record {
  salesperson = some (text " Zhao ");
  contract_no = some (text "C1");
  vessel_no = some (text "V1");
  consolidation_port = none;
  consolidation_date = some 19700;
  sailing_date = none;
  status = some stored;
}

abbrev pump_line : PurchaseRequestLine
pump_line = record {
  id = 1;
  purchase_request_id = 1;
  purchase_material_id = some 5;
  plan_no_snapshot = text "PLAN-20231114-001";
  plan_date_snapshot = 19675;
  material_code_snapshot = some (text "M5");
  category_snapshot = none;
  demand_department_snapshot = text "d";
  material_name_snapshot = text "pump";
  model_spec_snapshot = text "P1";
  unit_name_snapshot = text "pcs";
  actual_demand_person_snapshot = text "li";
  purchase_responsible_snapshot = text "wu";
  plan_remark_snapshot = none;
  stock_material_id_snapshot = none;
  purchase_qty = 20;
  status = ordered;
  usage = text "u";
  subitem_no = none;
  trace_no = some (text "T1");
  salesperson = none;
  images = [];
  version = 1;
}

sync_line-forward_example :
    ((is_blank pump_line.salesperson ≡ true)
      ⊎ ((sync_line news pump_line).0.salesperson ≡ pump_line.salesperson))
    × (((sync_line news pump_line).0.status ≡ pump_line.status)
        ⊎ (stage pump_line.status < stage (sync_line news pump_line).0.status))
    × ((sync_line news pump_line).0.version
        ≡ (if (sync_line news pump_line).1 then pump_line.version + 1 else pump_line.version))
    × (((sync_line news pump_line).1 ≡ true) ⊎ ((sync_line news pump_line).0 ≡ pump_line))
sync_line-forward_example = sync_line-forward news pump_line

abbrev header : PurchaseRequest
header = record {
  id = 1;
  purchase_order_no = none;
  contract_no = none;
  vessel_no = some (text "V9");
  consolidation_date = none;
  consolidation_port = none;
  sailing_date = none;
  remark = none;
  purchase_date = some 19676;
  version = 1;
}

sync_request-fills_example :
    ((is_blank header.contract_no ≡ true)
      ⊎ ((sync_request news header).0.contract_no ≡ header.contract_no))
    × ((is_blank header.vessel_no ≡ true)
        ⊎ ((sync_request news header).0.vessel_no ≡ header.vessel_no))
    × ((is_blank header.consolidation_port ≡ true)
        ⊎ ((sync_request news header).0.consolidation_port ≡ header.consolidation_port))
    × ((header.consolidation_date ≡ none)
        ⊎ ((sync_request news header).0.consolidation_date ≡ header.consolidation_date))
    × ((header.sailing_date ≡ none)
        ⊎ ((sync_request news header).0.sailing_date ≡ header.sailing_date))
    × ((sync_request news header).0.version
        ≡ (if (sync_request news header).1 then header.version + 1 else header.version))
    × (((sync_request news header).1 ≡ true) ⊎ ((sync_request news header).0 ≡ header))
sync_request-fills_example = sync_request-fills news header

abbrev records_db : Db
records_db = record empty_db {
  purchase_requests = header ∷ [];
  purchase_request_lines = pump_line ∷ [];
}

abbrev synced_db : Db
synced_db = (write_sync (text "T1") news records_db).1

synced_ok :
    apply_trace_sync (text " T1") news records_db
    ≡ ok (record { affected_headers = 1; affected_lines = 1 }, synced_db)
unfolding actions is_space strip_start strip_end strip is_blank fill fill_date reached_from advance
    sync_request sync_line pass on_trace write_sync apply_trace_sync
synced_ok = refl

apply_trace_sync_again_example :
    apply_trace_sync (text " T1") news synced_db
    ≡ ok (record { affected_headers = 0; affected_lines = 0 }, synced_db)
apply_trace_sync_again_example =
    apply_trace_sync_again (text " T1") news records_db
      (record { affected_headers = 1; affected_lines = 1 }) synced_db synced_ok
