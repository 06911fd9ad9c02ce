-- ===== src/MiniProgram.antt =====
-- The users of the mini program: backend/app/services/mini_program_service.py, and the settings that it
-- reads by backend/app/services/ai_search_service.py.
pub mod Wechat
pub mod Merge
pub mod Merged
pub mod Registered
pub mod Purchases
pub mod Warehouse
pub mod Tests
use materials_manager.Base.{
  ℕ, suc, ◌+◌, Text, text_eq, Option, none, some, Bool, true, false, List, [], ◌∷◌, ◌++◌, not, ◌&&◌,
  ◌||◌, ◌==◌, any, find, keep, map, is_some, if◌then◌else◌,
}
use materials_manager.Core.Errors.{ErrorCode, app_error, not_found}
use materials_manager.Core.Enums.{SecondaryWarehouseMode, WebhookEventType}
use materials_manager.Core.Common.{validate_version}
use materials_manager.Core.Tx.{Tx, ◌>>=◌, ◌>>◌, pure, gets, modify, raise_if, or_raise}
use materials_manager.Model.Stock.{MiniProgramIdentity, MiniProgramUser}
use materials_manager.Model.Webhook.{EventData}
use materials_manager.Model.Database.{Db, Env}
use materials_manager.Webhook.{enqueue_event}

-- Without a setting the mini program is open to everybody.
unfoldable pub is_mini_program_registration_enabled : Db → Bool
is_mini_program_registration_enabled db = elim db.setting [
  | none ↦ true
  | some setting ↦ setting.mini_program_registration_enabled
]

unfoldable pub is_mini_program_new_user_enabled : Db → Bool
is_mini_program_new_user_enabled db = elim db.setting [
  | none ↦ true
  | some setting ↦ setting.mini_program_new_user_enabled
]

abbrev is_lite : SecondaryWarehouseMode → Bool
is_lite SecondaryWarehouseMode.full = false
is_lite SecondaryWarehouseMode.lite = true

unfoldable pub is_lite_secondary_warehouse : Db → Bool
is_lite_secondary_warehouse db = elim db.setting [
  | none ↦ false
  | some setting ↦ is_lite setting.secondary_warehouse_mode
]

abbrev pub is_user : ℕ → MiniProgramUser → Bool
is_user id user = user.id == id

abbrev pub user_row : ℕ → Db → Option MiniProgramUser
user_row id db = find (is_user id) db.mini_program_users

abbrev pub is_identity : Text → Text → MiniProgramIdentity → Bool
is_identity app_id openid i = text_eq i.app_id app_id && text_eq i.wechat_openid openid

abbrev pub owns : Text → Text → MiniProgramUser → Bool
owns app_id openid user = any (is_identity app_id openid) user.identities

-- The user of an identity, which the unique key over both columns makes the only one.
abbrev pub owner_of : Text → Text → Db → Option MiniProgramUser
owner_of app_id openid db = find (owns app_id openid) db.mini_program_users

abbrev pub write_user : MiniProgramUser → MiniProgramUser → MiniProgramUser
write_user user u = if u.id == user.id then user else u

abbrev pub put_user : MiniProgramUser → Db → Db
put_user user db = record db { mini_program_users = map (write_user user) db.mini_program_users }

-- The identities of a deleted user go with it.
abbrev pub remove_user : ℕ → Db → Db
remove_user id db = record db {
  mini_program_users = keep (λ u. not (is_user id u)) db.mini_program_users;
}

pub record MiniProgramUserUpdate : Type 0 where
  pub display_name : Option Text
  pub department_name : Option Text
  pub enabled : Option Bool
  pub version : ℕ

abbrev given_or {ℓ} : {A : Type ℓ} → Option A → A → A
given_or none old = old
given_or (some new) old = new

abbrev pub edited_user : MiniProgramUserUpdate → MiniProgramUser → MiniProgramUser
edited_user request item = record item {
  display_name = given_or request.display_name item.display_name;
  department_name = given_or request.department_name item.department_name;
  enabled = given_or request.enabled item.enabled;
  version = item.version + 1;
}

unfoldable pub update_user : ℕ → MiniProgramUserUpdate → Tx Db MiniProgramUser
update_user item_id request = do
  found ← gets (user_row item_id)
  item ← or_raise found not_found
  validate_version (some request.version) item.version
  modify (put_user (edited_user request item))
  pure (edited_user request item)

unfoldable pub delete_user : ℕ → Option ℕ → Tx Db (Unit {0})
delete_user item_id version = do
  found ← gets (user_row item_id)
  item ← or_raise found not_found
  validate_version version item.version
  modify (remove_user item_id)

pub record MiniProgramUserMergeRequest : Type 0 where
  pub source_user_id : ℕ
  pub source_version : ℕ
  pub target_version : ℕ

abbrev pub shares_app_id : MiniProgramUser → MiniProgramUser → Bool
shares_app_id target source =
    any (λ i. any (λ j. text_eq j.app_id i.app_id) target.identities) source.identities

-- The target with the identities of the source. They are read again in the order of `app_id`.
abbrev pub merged_user : MiniProgramUser → MiniProgramUser → MiniProgramUser
merged_user target source = record target {
  identities = target.identities ++ source.identities;
  version = target.version + 1;
}

unfoldable pub merge_users : ℕ → MiniProgramUserMergeRequest → Tx Db MiniProgramUser
merge_users target_user_id request = do
  raise_if (target_user_id == request.source_user_id)
      (app_error ErrorCode.mini_program_user_merge_same_account (some 400))
  target_row ← gets (user_row target_user_id)
  source_row ← gets (user_row request.source_user_id)
  target ← or_raise target_row not_found
  source ← or_raise source_row not_found
  validate_version (some request.target_version) target.version
  validate_version (some request.source_version) source.version
  raise_if
      (not (text_eq target.display_name source.display_name)
        || not (text_eq target.department_name source.department_name))
      (app_error ErrorCode.mini_program_user_profile_mismatch (some 409))
  raise_if (shares_app_id target source)
      (app_error ErrorCode.mini_program_identity_conflict (some 409))
  modify (λ db. remove_user source.id (put_user (merged_user target source) db))
  pure (merged_user target source)

abbrev is_disabled : Option MiniProgramUser → Bool
is_disabled none = false
is_disabled (some user) = not user.enabled

-- `login_with_wechat`, after the exchange of the code for an identity.
unfoldable pub login_with_wechat : Text → Text → Tx Db (Option MiniProgramUser)
login_with_wechat app_id openid = do
  user ← gets (owner_of app_id openid)
  raise_if (is_disabled user) (app_error ErrorCode.account_disabled (some 403))
  is_open ← gets is_mini_program_registration_enabled
  raise_if (not (is_some user) && not is_open)
      (app_error ErrorCode.mini_program_registration_disabled (some 403))
  pure user

abbrev pub new_user : ℕ → Text → Text → Text → Text → Bool → MiniProgramUser
new_user id app_id openid display_name department_name enabled = record {
  id = id;
  display_name = display_name;
  department_name = department_name;
  enabled = enabled;
  identities = record { app_id = app_id; wechat_openid = openid } ∷ [];
  version = 1;
}

abbrev pub add_user : MiniProgramUser → Db → Db
add_user user db = record db {
  mini_program_users = user ∷ db.mini_program_users;
  next_mini_program_user_id = suc db.next_mini_program_user_id;
}

abbrev bound_event : Env → Text → MiniProgramUser → EventData
bound_event env app_id user = EventData.user_bound (record {
  display_name = user.display_name;
  department_name = user.department_name;
  app_id = app_id;
  enabled = user.enabled;
  bound_at = env.now;
})

module _ (env : Env) (app_id openid display_name department_name : Text) where
  -- The insertion may break the unique key over the identity, which another request can have taken.
  unfoldable pub create_user : Tx Db MiniProgramUser
  create_user = do
    is_open ← gets is_mini_program_registration_enabled
    raise_if (not is_open) (app_error ErrorCode.mini_program_registration_disabled (some 403))
    enabled ← gets is_mini_program_new_user_enabled
    id ← gets (λ db. db.next_mini_program_user_id)
    taken ← gets (owner_of app_id openid)
    raise_if (is_some taken) (app_error ErrorCode.wechat_user_create_conflict (some 409))
    modify (add_user (new_user id app_id openid display_name department_name enabled))
    enqueue_event env WebhookEventType.mini_program_user_bound
        (bound_event env app_id (new_user id app_id openid display_name department_name enabled))
    pure (new_user id app_id openid display_name department_name enabled)

  unfoldable pub known_user : MiniProgramUser → Tx Db MiniProgramUser
  known_user existing = do
    raise_if (not existing.enabled) (app_error ErrorCode.account_disabled (some 403))
    pure existing

  unfoldable pub register_user : Tx Db MiniProgramUser
  register_user = do
    existing ← gets (owner_of app_id openid)
    elim existing [ some user ↦ known_user user | none ↦ create_user ]
