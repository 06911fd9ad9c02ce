-- ===== src/Core/Enums.antt =====
-- backend/app/domain/enums.py: the enumerations of the modelled services.
use materials_manager.Base.{Bool, true, false}

pub data Role : Type 0 where
  super_admin warehouse_admin purchase_admin read_only : Role

pub data OperationType : Type 0 where
  inbound outbound : OperationType

pub data SourceType : Type 0 where
  manual mini_program reversal initialization : SourceType

pub data PurchasePlanStatus : Type 0 where
  normal deferred archived : PurchasePlanStatus

pub data WebhookPlatform : Type 0 where
  feishu dingtalk : WebhookPlatform

pub data WebhookEventType : Type 0 where
  stock_outbound_created stock_inbound_created mini_program_user_bound : WebhookEventType

pub data WebhookDeliveryStatus : Type 0 where
  pending sending succeeded failed : WebhookDeliveryStatus

abbrev pub is_inbound : OperationType → Bool
is_inbound OperationType.inbound = true
is_inbound OperationType.outbound = false

abbrev pub is_outbound : OperationType → Bool
is_outbound OperationType.inbound = false
is_outbound OperationType.outbound = true

abbrev pub is_initialization : SourceType → Bool
is_initialization SourceType.initialization = true
is_initialization _ = false

abbrev pub is_mini_program : SourceType → Bool
is_mini_program SourceType.mini_program = true
is_mini_program _ = false

abbrev pub is_reversal : SourceType → Bool
is_reversal SourceType.reversal = true
is_reversal _ = false

pub data ShareType : Type 0 where
  purchase_plan purchase_record : ShareType

pub data ShareExpiryOption : Type 0 where
  hours_24 days_3 days_7 days_30 permanent : ShareExpiryOption

pub data SecondaryWarehouseMode : Type 0 where
  full lite : SecondaryWarehouseMode

pub data MiniProgramStockStatus : Type 0 where
  normal out_of_stock low_stock : MiniProgramStockStatus

abbrev pub status_eq : MiniProgramStockStatus → MiniProgramStockStatus → Bool
status_eq MiniProgramStockStatus.normal MiniProgramStockStatus.normal = true
status_eq MiniProgramStockStatus.out_of_stock MiniProgramStockStatus.out_of_stock = true
status_eq MiniProgramStockStatus.low_stock MiniProgramStockStatus.low_stock = true
status_eq _ _ = false
