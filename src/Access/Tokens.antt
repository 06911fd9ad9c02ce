-- ===== src/Access/Tokens.antt =====
-- `login` and `refresh` of backend/app/api/v1/auth.py. What checks a password, how the database compares
-- names, and when a token ends, are parameters.
use materials_manager.Base.{ℤ, Text, Option, none, some, Bool, not, ◌&&◌, find, if◌then◌else◌}
use materials_manager.Core.Errors.{ErrorCode}
use materials_manager.Core.Calendar.{Time}
use materials_manager.Core.Tx.{Tx, ◌>>=◌, ◌>>◌, pure, gets, raise_if, or_raise}
use materials_manager.Model.Accounts.{User}
use materials_manager.Model.Database.{Db}
use materials_manager.Access.{
  Claims, access_claims, refresh_claims, is_type, management_refresh, int_claim, has_id, user_of,
  error_of,
}

-- A session of the management interface: how long its tokens live, what signs them, what checks a
-- password.
pub record TokenPair : Type 0 where
  pub access_token : Text
  pub refresh_token : Text

module _ (encode : Claims → Time → Time → Text) (access_end refresh_end : Time → Time) where
  abbrev pub token_pair : Time → User → TokenPair
  token_pair now user = record {
    access_token = encode (access_claims user.id) now (access_end now);
    refresh_token = encode (refresh_claims user.id user.version) now (refresh_end now);
  }

abbrev pub checked_user : (Text → Text → Bool) → Text → Option User → Option User
checked_user verify_password password none = none
checked_user verify_password password (some user) =
    if user.enabled && verify_password password user.password_hash then some user else none

module _ (encode : Claims → Time → Time → Text) (same_text verify_password : Text → Text → Bool)
    (access_end refresh_end : Time → Time) where
  -- The user whose name the database takes for this one, as its collation compares them.
  unfoldable pub login : Time → Text → Text → Tx Db TokenPair
  login now username password = do
    found ← gets (λ db. find (λ u. same_text u.username username) db.users)
    user ←
        or_raise (checked_user verify_password password found)
          (error_of ErrorCode.invalid_credentials)
    pure (token_pair encode access_end refresh_end now user)

abbrev pub current_user : ℤ → Option User → Option User
current_user version none = none
current_user version (some user) =
    if user.enabled && has_id version user.version then some user else none

module _ (encode : Claims → Time → Time → Text) (decode : Time → Text → Option Claims)
    (access_end refresh_end : Time → Time) where
  unfoldable pub refresh : Time → Text → Tx Db TokenPair
  refresh now refresh_token = do
    payload ← or_raise (decode now refresh_token) (error_of ErrorCode.invalid_refresh_token)
    raise_if (not (is_type management_refresh payload)) (error_of ErrorCode.invalid_refresh_token)
    user_id ← or_raise (int_claim payload.sub) (error_of ErrorCode.invalid_refresh_token)
    token_version ← or_raise (int_claim payload.version) (error_of ErrorCode.invalid_refresh_token)
    found ← gets (user_of user_id)
    user ← or_raise (current_user token_version found) (error_of ErrorCode.invalid_refresh_token)
    pure (token_pair encode access_end refresh_end now user)
