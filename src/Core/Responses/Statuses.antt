-- ===== src/Core/Responses/Statuses.antt =====
-- Which statuses a client can see.
use materials_manager.Base.{
  ℕ, zero, suc, ◌≡◌, ◌≢◌, refl, ap, ◌∙◌, Option, none, some, Bool, true, false, ◌==◌, ==→eq, not,
  Bool-cases, inl, inr, arith, if◌then◌else◌,
}
use materials_manager.Core.Errors.{ErrorCode, AppError, app_error, default_status, resolve_status}
use materials_manager.Core.Responses.{Raised, ErrorResponse, is_database_query_error, respond}

default_status-client : (code : ErrorCode) → (not (default_status code == 404)) ≡ true
unfolding default_status
default_status-client ErrorCode.resource_not_found = refl
default_status-client _ = refl

resolve_status-client :
    (status : Option ℕ) (code : ErrorCode)
    → status ≢ some 404
    → (not (resolve_status status code == 404)) ≡ true
unfolding resolve_status
resolve_status-client none code h = default_status-client code
resolve_status-client (some zero) code h = default_status-client code
resolve_status-client (some (suc s)) code h = elim (Bool-cases (suc s == 404)) [
  | inl e ↦ absurd (h (ap some (==→eq (suc s) 404 e)))
  | inr e ↦ ap not e
]

-- What the program raises: an `AppError` without a status or with one that is not 404, or an exception
-- of a library, with any status.
abbrev pub IsRaised : Raised → Type 0
IsRaised (Raised.application exc) =
    (code : ErrorCode) × (status : Option ℕ) × (exc ≡ app_error code status) × (status ≢ some 404)
IsRaised (Raised.http_exception status_code) = Unit
IsRaised Raised.request_validation = Unit
IsRaised Raised.integrity = Unit
IsRaised (Raised.programming number) = Unit
IsRaised (Raised.operational number) = Unit
IsRaised (Raised.interface number) = Unit
IsRaised (Raised.disconnection number) = Unit
IsRaised (Raised.timeout number) = Unit
IsRaised (Raised.other_sql number) = Unit
IsRaised Raised.other = Unit

abbrev is_client : ErrorResponse → Bool
is_client response = not (response.status_code == 404)

unavailable-client :
    (query : Bool)
    → is_client (
        if query
        then record { status_code = 500; code = ErrorCode.database_query_error }
        else record { status_code = 503; code = ErrorCode.database_unavailable })
      ≡ true
unavailable-client true = refl
unavailable-client false = refl

http-client :
    (status_code : ℕ)
    → is_client (
        if status_code == 404
        then record { status_code = 400; code = ErrorCode.route_not_found }
        else record { status_code = status_code; code = ErrorCode.http_error })
      ≡ true
http-client status_code = elim (Bool-cases (status_code == 404)) [
  | inl e ↦ rw e refl
  | inr e ↦ rw e (rw e refl)
]

respond-client : (x : Raised) → IsRaised x → is_client (respond x) ≡ true
unfolding respond app_error
respond-client (Raised.application exc) (code, status, same, h) =
    ap (λ (e : AppError). not (e.status_code == 404)) same ∙ resolve_status-client status code h
respond-client (Raised.http_exception status_code) h = http-client status_code
respond-client Raised.request_validation h = refl
respond-client Raised.integrity h = refl
respond-client (Raised.programming number) h = refl
respond-client (Raised.operational number) h = unavailable-client (is_database_query_error number)
respond-client (Raised.interface number) h = unavailable-client (is_database_query_error number)
respond-client (Raised.disconnection number) h = unavailable-client (is_database_query_error number)
respond-client (Raised.timeout number) h = unavailable-client (is_database_query_error number)
respond-client (Raised.other_sql number) h = refl
respond-client Raised.other h = refl

-- No exception is answered with status 404: not an `AppError` that was raised without a status or with
-- another status than 404, and no exception of a library, even one that has the status 404.
pub respond_never_404 : (x : Raised) → IsRaised x → (respond x).status_code ≢ 404
respond_never_404 x h same = absurd (ground (arith, respond-client x h, same))
