-- ===== src/Access.antt =====
-- Who may do what: backend/app/core/permissions.py and core/security.py. Signing and
-- reading a token is `jwt`, outside: `encode` and `decode` are parameters, and so are the hash of an
-- interface token, its cipher, and the check of a password (`hashlib`, `cryptography`, `argon2`).
-- What is written to the state of a request is left out.
pub mod Headers
pub mod Integers
pub mod Runs
pub mod Sessions
pub mod Login
pub mod Versions
pub mod Tests
pub mod Tokens
use materials_manager.Base.{
  ℕ, suc, ◌+◌, ◌*◌, ℤ, pos, negsuc, Text, text, text_eq, Option, none, some, Bool, true, false,
  List, [], ◌∷◌, not, ◌&&◌, ◌||◌, ◌==◌, leb, any, find, map, length, strip, truthy, truthy?,
  is_blank, if◌then◌else◌,
}
use materials_manager.Core.Errors.{ErrorCode, AppError, app_error, Failure, app}
use materials_manager.Core.Enums.{Role}
use materials_manager.Core.Calendar.{Time}
use materials_manager.Core.Tx.{
  Result, ok, err, Tx, ◌>>=◌, ◌>>◌, pure, raise, gets, modify, raise_if, or_raise,
}
use materials_manager.Model.Stock.{MiniProgramUser}
use materials_manager.Model.Accounts.{User}
use materials_manager.Model.Database.{Db}
use materials_manager.Imports.{decimal}
use materials_manager.Access.Integers.{int_of}

-- The payload of a token, with the claims that the program writes, all of them texts. The times of issue
-- and end, and the id of the token, are read by `jwt` alone.
pub record Claims : Type 0 where
  pub sub : Option Text
  pub token_type : Option Text
  pub version : Option Text
  pub app_id : Option Text

abbrev pub management_access : Text
management_access = text "management_access"

abbrev pub management_refresh : Text
management_refresh = text "management_refresh"

abbrev pub mini_program : Text
mini_program = text "mini_program"

abbrev pub mini_program_registration : Text
mini_program_registration = text "mini_program_registration"

abbrev pub access_claims : ℕ → Claims
access_claims user_id = record {
  sub = some (decimal user_id);
  token_type = some management_access;
  version = none;
  app_id = none;
}

abbrev pub refresh_claims : ℕ → ℕ → Claims
refresh_claims user_id user_version = record {
  sub = some (decimal user_id);
  token_type = some management_refresh;
  version = some (decimal user_version);
  app_id = none;
}

abbrev pub mini_program_claims : ℕ → Claims
mini_program_claims user_id = record {
  sub = some (decimal user_id);
  token_type = some mini_program;
  version = none;
  app_id = none;
}

abbrev pub registration_claims : Text → Text → Claims
registration_claims app_id openid = record {
  sub = some openid;
  token_type = some mini_program_registration;
  version = none;
  app_id = some app_id;
}

abbrev pub is_type : Text → Claims → Bool
is_type t claims = elim claims.token_type [ none ↦ false | some s ↦ text_eq s t ]

-- `payload.get("token_type") in (None, "management", "management_access")`
abbrev pub is_management : Claims → Bool
is_management claims = elim claims.token_type [
  | none ↦ true
  | some s ↦ text_eq s (text "management") || text_eq s management_access
]

-- `int(payload[key])`; none if the key is missing or holds no number.
abbrev pub int_claim : Option Text → Option ℤ
int_claim none = none
int_claim (some s) = int_of s

abbrev pub has_id : ℤ → ℕ → Bool
has_id (pos n) id = id == n
has_id (negsuc n) id = false

-- `session.get(User, user_id)`
abbrev pub user_of : ℤ → Db → Option User
user_of id db = find (λ u. has_id id u.id) db.users

abbrev pub mini_program_user_of : ℤ → Db → Option MiniProgramUser
mini_program_user_of id db = find (λ u. has_id id u.id) db.mini_program_users

unfoldable pub error_of : ErrorCode → AppError
error_of code = app_error code (some 401)

abbrev pub is_user_disabled : ErrorCode → Bool
is_user_disabled ErrorCode.user_disabled = true
is_user_disabled _ = false

-- `if user is None or not user.enabled: raise ...`
abbrev pub enabled_user : Option User → Option User
enabled_user none = none
enabled_user (some user) = if user.enabled then some user else none

abbrev pub set_api_token : ℕ → Text → User → User
set_api_token id enc user = if user.id == id then record user { api_token_enc = enc } else user

module _ (hash_api_token encrypt_secret : Text → Text) where
  -- A user whose token was only hashed gets its cipher text, as it is here for the first time.
  unfoldable pub remember_token : Text → Option User → Tx Db (Option User)
  remember_token api_token none = pure none
  remember_token api_token (some user) = elim (truthy user.api_token_enc) [
    | true ↦ pure (some user)
    | false ↦ do
      modify (λ db. record db {
        users = map (set_api_token user.id (encrypt_secret api_token)) db.users;
      })
      pure (some (record user { api_token_enc = encrypt_secret api_token }))
  ]

  abbrev pub has_token : Text → User → Bool
  has_token api_token user = text_eq user.api_token_hash (hash_api_token api_token)

  unfoldable pub find_user_by_api_token : Text → Tx Db (Option User)
  find_user_by_api_token api_token =
      if length api_token == 36
      then gets (λ db. find (has_token api_token) db.users) >>= remember_token api_token
      else pure none

  unfoldable pub authenticate_user_api_token : Text → Tx Db User
  authenticate_user_api_token api_token = do
    found ← find_user_by_api_token api_token
    user ← or_raise found (error_of ErrorCode.invalid_token)
    raise_if (not user.enabled) (error_of ErrorCode.user_disabled)
    pure user

module _ (hash_api_token encrypt_secret : Text → Text) (decode : Time → Text → Option Claims) where
  -- The part of `authenticate_management_user` for a signed token.
  unfoldable pub authenticate_access_token : Time → Text → Tx Db User
  authenticate_access_token now raw_token = do
    payload ← or_raise (decode now raw_token) (error_of ErrorCode.invalid_token)
    raise_if (not (is_management payload)) (error_of ErrorCode.invalid_token)
    user_id ← or_raise (int_claim payload.sub) (error_of ErrorCode.invalid_token)
    found ← gets (user_of user_id)
    or_raise (enabled_user found) (error_of ErrorCode.user_disabled)

  -- `except AppError as exc: if exc.code == "USER_DISABLED": raise`
  abbrev pub unless_disabled : Failure → Tx Db User → Tx Db User
  unless_disabled (Failure.app e) next db = if is_user_disabled e.code then err (app e) else next db
  unless_disabled f next db = err f

  abbrev pub or_else_access : Result (User × Db) → Tx Db User → Tx Db User
  or_else_access (ok q) next db = ok q
  or_else_access (err e) next db = unless_disabled e next db

  unfoldable pub authenticate_bearer : Time → Text → Tx Db User
  authenticate_bearer now raw_token db =
      if leb (length raw_token) 36
      then or_else_access (authenticate_user_api_token hash_api_token encrypt_secret raw_token db)
          (authenticate_access_token now raw_token) db
      else authenticate_access_token now raw_token db

  unfoldable pub authenticate_management_user : Time → Option Text → Option Text → Tx Db User
  authenticate_management_user now credentials (some (c ∷ token)) =
      authenticate_user_api_token hash_api_token encrypt_secret (c ∷ token)
  authenticate_management_user now none _ = raise (error_of ErrorCode.unauthorized)
  authenticate_management_user now (some raw_token) _ = authenticate_bearer now raw_token

module _ (decode : Time → Text → Option Claims) where
  unfoldable pub get_current_mini_program_user : Time → Option Text → Tx Db MiniProgramUser
  get_current_mini_program_user now credentials = do
    token ← or_raise credentials (error_of ErrorCode.unauthorized)
    payload ← or_raise (decode now token) (error_of ErrorCode.invalid_token)
    raise_if (not (is_type mini_program payload)) (error_of ErrorCode.invalid_token)
    user_id ← or_raise (int_claim payload.sub) (error_of ErrorCode.invalid_token)
    found ← gets (mini_program_user_of user_id)
    user ← or_raise found (error_of ErrorCode.invalid_token)
    raise_if (not user.enabled) (app_error ErrorCode.account_disabled (some 403))
    pure user

  unfoldable pub get_mini_program_registration_openid : Time → Option Text → Tx Db (Text × Text)
  get_mini_program_registration_openid now credentials = do
    token ← or_raise credentials (error_of ErrorCode.unauthorized)
    payload ← or_raise (decode now token) (error_of ErrorCode.invalid_token)
    raise_if (not (is_type mini_program_registration payload)) (error_of ErrorCode.invalid_token)
    openid ← or_raise payload.sub (error_of ErrorCode.invalid_token)
    app_id ← or_raise payload.app_id (error_of ErrorCode.invalid_token)
    raise_if (not (truthy app_id && truthy openid)) (error_of ErrorCode.invalid_token)
    pure (app_id, openid)

abbrev pub role_eq : Role → Role → Bool
role_eq Role.super_admin Role.super_admin = true
role_eq Role.warehouse_admin Role.warehouse_admin = true
role_eq Role.purchase_admin Role.purchase_admin = true
role_eq Role.read_only Role.read_only = true
role_eq _ _ = false

unfoldable pub require_roles : List Role → User → Tx Db User
require_roles roles user = do
  raise_if (not (any (role_eq user.role) roles)) (app_error ErrorCode.forbidden (some 403))
  pure user
