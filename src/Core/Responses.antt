-- ===== src/Core/Responses.antt =====
-- backend/app/core/exception_handlers.py: which response an exception is answered with. Its message, its details
-- and the id of the request are left out, and so is the log.
pub mod Statuses
pub mod Tests
use materials_manager.Base.{
  ℕ, Option, none, some, Bool, false, List, [], ◌∷◌, ◌==◌, contains, if◌then◌else◌,
}
use materials_manager.Core.Errors.{ErrorCode, AppError, Failure}

-- The exceptions that the handlers tell apart. Those of the database driver carry the number that is
-- the first argument of the original error, if it is one.
pub data Raised : Type 0 where
  application : AppError → Raised
  http_exception : ℕ → Raised
  request_validation : Raised
  integrity : Raised
  programming operational interface disconnection timeout other_sql : Option ℕ → Raised
  other : Raised

pub record ErrorResponse : Type 0 where
  pub status_code : ℕ
  pub code : ErrorCode

abbrev mysql_query_error_codes : List ℕ
mysql_query_error_codes = 1052 ∷ 1054 ∷ 1064 ∷ 1066 ∷ 1109 ∷ 1146 ∷ []

unfoldable pub is_database_query_error : Option ℕ → Bool
is_database_query_error none = false
is_database_query_error (some n) = contains n mysql_query_error_codes

abbrev error_response : ℕ → ErrorCode → ErrorResponse
error_response status_code code = record { status_code = status_code; code = code }

abbrev handle_app_error : AppError → ErrorResponse
handle_app_error exc = error_response exc.status_code exc.code

abbrev handle_http_exception : ℕ → ErrorResponse
handle_http_exception status_code =
    if status_code == 404
    then error_response 400 ErrorCode.route_not_found
    else error_response status_code ErrorCode.http_error

abbrev handle_validation_error : ErrorResponse
handle_validation_error = error_response 422 ErrorCode.validation_error

abbrev handle_integrity_error : ErrorResponse
handle_integrity_error = error_response 409 ErrorCode.data_conflict

abbrev handle_database_programming_error : ErrorResponse
handle_database_programming_error = error_response 500 ErrorCode.database_query_error

abbrev handle_database_unavailable : Option ℕ → ErrorResponse
handle_database_unavailable number =
    if is_database_query_error number
    then handle_database_programming_error
    else error_response 503 ErrorCode.database_unavailable

abbrev handle_database_error : ErrorResponse
handle_database_error = error_response 500 ErrorCode.database_error

abbrev handle_unexpected_error : ErrorResponse
handle_unexpected_error = error_response 500 ErrorCode.internal_server_error

-- `register_exception_handlers`: the handler of the nearest class that has one.
unfoldable pub respond : Raised → ErrorResponse
respond (Raised.application exc) = handle_app_error exc
respond (Raised.http_exception status_code) = handle_http_exception status_code
respond Raised.request_validation = handle_validation_error
respond Raised.integrity = handle_integrity_error
respond (Raised.programming number) = handle_database_programming_error
respond (Raised.operational number) = handle_database_unavailable number
respond (Raised.interface number) = handle_database_unavailable number
respond (Raised.disconnection number) = handle_database_unavailable number
respond (Raised.timeout number) = handle_database_unavailable number
respond (Raised.other_sql number) = handle_database_error
respond Raised.other = handle_unexpected_error

-- What ends a modelled request, as the exception that it is.
abbrev pub raised_by : Failure → Raised
raised_by (Failure.app exc) = Raised.application exc
raised_by Failure.key_error = Raised.other
raised_by Failure.integrity_error = Raised.integrity
raised_by Failure.data_error = Raised.other_sql none
raised_by Failure.assertion_error = Raised.other
raised_by Failure.value_error = Raised.other
