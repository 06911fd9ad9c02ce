-- ===== src/Core/Errors.antt =====
-- backend/app/core/errors.py: `AppError`, its status, and the helpers that build one. The message
-- and the `details` of an error are texts for the reader of a response and are left out.
use materials_manager.Base.{ℕ, zero, Option, none, some}

-- The codes that the modelled services raise. The imports name theirs after the import, and share them here.
pub data ErrorCode : Type 0 where
  resource_not_found version_conflicted invalid_status_transition data_conflict : ErrorCode
  invalid_token unauthorized user_disabled account_disabled forbidden validation_error : ErrorCode
  balance_missing invalid_quantity_precision invalid_source_type invalid_receiver : ErrorCode
  invalid_receiver_unit receiver_required business_reason_required : ErrorCode
  invalid_reversal_line insufficient_quantity stock_material_in_use duplicate_material : ErrorCode
  invalid_image_id plan_daily_limit_exceeded plan_no_conflict purchase_plan_in_use : ErrorCode
  material_code_required plan_already_moved not_low_stock : ErrorCode
  webhook_credential_decrypt_failed webhook_url_required webhook_events_required
        invalid_webhook_url :
      ErrorCode
  share_not_found share_expired : ErrorCode
  invalid_credentials invalid_refresh_token : ErrorCode
  import_in_progress import_job_not_found excel_file_too_large : ErrorCode
  unsupported_excel_file : ErrorCode
  import_headers_missing import_code_required import_unit_required import_name_required : ErrorCode
  import_duplicate import_value_too_long import_invalid_quantity import_empty : ErrorCode
  mini_program_user_merge_same_account mini_program_user_profile_mismatch : ErrorCode
  mini_program_identity_conflict mini_program_registration_disabled : ErrorCode
  wechat_user_create_conflict client_request_id_conflict outbound_disabled : ErrorCode
  secondary_warehouse_lite_mode wechat_configuration_invalid wechat_not_configured : ErrorCode
  wechat_auth_unavailable wechat_auth_failed wechat_auth_invalid_response : ErrorCode
  route_not_found http_error database_query_error database_unavailable database_error : ErrorCode
  internal_server_error : ErrorCode
  export_file_expired internal_export_error internal_import_error server_restarted : ErrorCode

pub record AppError : Type 0 where
  pub code : ErrorCode
  pub status_code : ℕ

-- `_DEFAULT_STATUS_BY_CODE.get(code, 400)`
unfoldable pub default_status : ErrorCode → ℕ
default_status ErrorCode.resource_not_found = 400
default_status ErrorCode.version_conflicted = 409
default_status ErrorCode.invalid_status_transition = 409
default_status ErrorCode.data_conflict = 409
default_status ErrorCode.invalid_token = 401
default_status ErrorCode.unauthorized = 401
default_status ErrorCode.user_disabled = 401
default_status ErrorCode.account_disabled = 403
default_status ErrorCode.forbidden = 403
default_status ErrorCode.validation_error = 422
default_status _ = 400

-- `status_code or default`: a status of 0 counts as none given.
unfoldable pub resolve_status : Option ℕ → ErrorCode → ℕ
unfolding default_status
resolve_status none code = default_status code
resolve_status (some zero) code = default_status code
resolve_status (some s) code = s

-- `AppError(code, message, status_code=...)`
unfoldable pub app_error : ErrorCode → Option ℕ → AppError
unfolding resolve_status
app_error code status = record { code = code; status_code = resolve_status status code }

unfoldable pub not_found : AppError
unfolding app_error
not_found = app_error ErrorCode.resource_not_found none

unfoldable pub version_conflict : AppError
unfolding app_error
version_conflict = app_error ErrorCode.version_conflicted (some 409)

unfoldable pub invalid_transition : AppError
unfolding app_error
invalid_transition = app_error ErrorCode.invalid_status_transition (some 409)

-- What can end a request: an `AppError`, a lookup of a missing dictionary key, a constraint of the
-- database, a value that a column does not take, an `assert` that fails, or a text that is no number. All but the first are answered with status 500.
pub data Failure : Type 0 where
  app : AppError → Failure
  key_error integrity_error data_error assertion_error value_error : Failure
