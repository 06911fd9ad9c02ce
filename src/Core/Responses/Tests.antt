-- ===== src/Core/Responses/Tests.antt =====
-- An instance of the theorem on responses.
use materials_manager.Base.{◌≢◌, some, refl, arith}
use materials_manager.Core.Errors.{ErrorCode, app_error}
use materials_manager.Core.Responses.{Raised, respond}
use materials_manager.Core.Responses.Statuses.{respond_never_404}

respond_never_404_example :
    (respond (Raised.application (app_error ErrorCode.forbidden (some 403)))).status_code ≢ 404
respond_never_404_example =
    respond_never_404 (Raised.application (app_error ErrorCode.forbidden (some 403)))
      (ErrorCode.forbidden, some 403, refl, λ e. ground arith)
