-- ===== src/MiniProgram/Wechat.antt =====
-- The login by WeChat: backend/app/core/wechat.py, with the two texts of the settings as arguments, and the
-- exchange of a code in backend/app/services/mini_program_service.py, whose reply is outside (`WechatReply`).
use materials_manager.Base.{
  Text, text_eq, Option, none, some, Bool, true, false, List, [], ◌∷◌, not, ◌||◌, ◌==◌, keep,
  length, truthy, truthy?, if◌then◌else◌,
}
use materials_manager.Core.Errors.{ErrorCode, app_error}
use materials_manager.Core.Paging.{split_on, dedupe, strip_all}
use materials_manager.Core.Tx.{Tx, ◌>>=◌, ◌>>◌, pure, raise, raise_if, or_raise}
use materials_manager.Model.Stock.{MiniProgramUser}
use materials_manager.Model.Database.{Db}
use materials_manager.MiniProgram.{login_with_wechat}

-- `[item.strip() for item in value.split(",") if item.strip()]`
unfoldable pub setting_items : Text → List Text
setting_items value = keep truthy (strip_all (split_on (λ c. c == 44) value))

unfoldable pub configured_wechat_app_ids : Text → List Text
configured_wechat_app_ids value = dedupe (setting_items value)

-- `app_secrets[app_ids.index(app_id)]`, for lists of the same length.
unfoldable pub secret_of : Text → List Text → List Text → Option Text
secret_of app_id [] secrets = none
secret_of app_id (id ∷ ids) [] = none
secret_of app_id (id ∷ ids) (secret ∷ secrets) =
    let rest = secret_of app_id ids secrets in if text_eq id app_id then some secret else rest

abbrev first_item : List Text → Text
first_item [] = []
first_item (s ∷ rest) = s

-- `app_id or app_ids[0]`
abbrev pub effective_app_id : Option Text → List Text → Text
effective_app_id app_id app_ids =
    if truthy? app_id then (elim app_id [ some s ↦ s | none ↦ [] ]) else first_item app_ids

abbrev no_item : List Text → Bool
no_item [] = true
no_item (s ∷ rest) = false

unfoldable pub get_wechat_credentials :
    {S : Type 0} → Text → Text → Option Text → Tx S (Text × Text)
get_wechat_credentials ids_setting secrets_setting app_id = do
  raise_if
      (no_item (setting_items ids_setting)
        || (not (length (setting_items ids_setting) == length (setting_items secrets_setting))
            || not (
                length (setting_items ids_setting) == length (dedupe (setting_items ids_setting)))))
      (app_error ErrorCode.wechat_configuration_invalid (some 503))
  secret ←
      or_raise
        (secret_of (effective_app_id app_id (setting_items ids_setting)) (setting_items ids_setting)
          (setting_items secrets_setting))
        (app_error ErrorCode.wechat_not_configured (some 503))
  pure (effective_app_id app_id (setting_items ids_setting), secret)

-- No reply, or its body: whether it has an error code that is not zero, and its `openid`, if it is a text.
pub data WechatReply : Type 0 where
  unavailable : WechatReply
  answered : Bool → Option Text → WechatReply

unfoldable pub openid_of : {S : Type 0} → WechatReply → Tx S Text
openid_of WechatReply.unavailable = raise (app_error ErrorCode.wechat_auth_unavailable (some 503))
openid_of (WechatReply.answered refused openid) = do
  raise_if refused (app_error ErrorCode.wechat_auth_failed (some 401))
  raise_if (not (truthy? openid)) (app_error ErrorCode.wechat_auth_invalid_response (some 502))
  or_raise openid (app_error ErrorCode.wechat_auth_invalid_response (some 502))

-- `reply` is what WeChat answers to the id, its secret and the code.
module _ (reply : Text → Text → Text → WechatReply) (ids_setting secrets_setting : Text) where
  unfoldable pub exchange_wechat_code : {S : Type 0} → Text → Option Text → Tx S (Text × Text)
  exchange_wechat_code code app_id = do
    credentials ← get_wechat_credentials ids_setting secrets_setting app_id
    openid ← openid_of (reply credentials.0 credentials.1 code)
    pure (credentials.0, openid)

  -- The whole of `login_with_wechat`.
  unfoldable pub login_by_code : Text → Option Text → Tx Db (Option MiniProgramUser × (Text × Text))
  login_by_code code app_id = do
    identity ← exchange_wechat_code code app_id
    user ← login_with_wechat identity.0 identity.1
    pure (user, identity)
