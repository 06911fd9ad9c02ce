-- ===== src/MiniProgram/Tests.antt =====
-- Instances of the theorems on the mini program.
use materials_manager.Base.{
  ◌≡◌, ◌≢◌, ◌||◌, refl, text, some, true, false, [], ◌∷◌, All, if◌then◌else◌, arith,
}
use materials_manager.Core.Errors.{ErrorCode, app_error, app}
use materials_manager.Core.Tx.{ok, err, actions}
use materials_manager.Core.Common.{validate_version}
use materials_manager.Webhook.{enqueue_event, subscribed}
use materials_manager.Model.Stock.{MiniProgramUser}
use materials_manager.Model.Database.{Db, Env, empty_db}
use materials_manager.MiniProgram.{
  is_mini_program_registration_enabled, is_mini_program_new_user_enabled, user_row, owns, owner_of,
  merged_user, remove_user, put_user, MiniProgramUserMergeRequest, merge_users, login_with_wechat,
  new_user, create_user, register_user,
}
use materials_manager.MiniProgram.Merge.{merge_users-owner}
use materials_manager.MiniProgram.Registered.{register_user-login}

abbrev phone : MiniProgramUser
phone = record {
  id = 1;
  display_name = text "Li";
  department_name = text "d";
  enabled = true;
  identities = record { app_id = text "a"; wechat_openid = text "x" } ∷ [];
  version = 4;
}

abbrev tablet : MiniProgramUser
tablet = record phone {
  id = 2;
  identities = record { app_id = text "b"; wechat_openid = text "y" } ∷ [];
  version = 1;
}

abbrev two_accounts : Db
two_accounts = record empty_db { mini_program_users = tablet ∷ phone ∷ [] }

abbrev merge_request : MiniProgramUserMergeRequest
merge_request = record { source_user_id = 2; source_version = 1; target_version = 4 }

abbrev merged_db : Db
merged_db = remove_user 2 (put_user (merged_user phone tablet) two_accounts)

merges : merge_users 1 merge_request two_accounts ≡ ok (merged_user phone tablet, merged_db)
unfolding merge_users validate_version actions
merges = refl

merge_users-owner_example :
    (target : MiniProgramUser) × (source : MiniProgramUser) × (user_row 1 two_accounts
      ≡ some target)
    × (user_row 2 two_accounts ≡ some source)
    × ((merged_user phone tablet).id ≡ 1)
    × All (λ u. u.id ≢ 2) merged_db.mini_program_users
    × (owner_of (text "b") (text "y") merged_db ≡ (
        if owns (text "b") (text "y") target || owns (text "b") (text "y") source
        then some (merged_user phone tablet)
        else owner_of (text "b") (text "y") two_accounts))
merge_users-owner_example =
    merge_users-owner 1 merge_request (text "b") (text "y") two_accounts
      (merged_user phone tablet, merged_db)
      (
        (λ _. refl, (λ e. absurd (omega arith), tt)),
        ((λ e. absurd (omega arith), (λ _. refl, tt)), tt),
      )
      ((λ _. (λ _. refl, (λ e. absurd (cc), tt))), ((λ e. absurd (cc)), tt)) merges

abbrev evening : Env
evening = record { now = 700; event_id = text "e9" }

abbrev newcomer : MiniProgramUser
newcomer = new_user 1 (text "a") (text "x") (text "Wu") (text "d") true

abbrev bound_db : Db
bound_db = record empty_db { mini_program_users = newcomer ∷ []; next_mini_program_user_id = 2 }

registers :
    register_user evening (text "a") (text "x") (text "Wu") (text "d") empty_db
    ≡ ok (newcomer, bound_db)
unfolding register_user create_user is_mini_program_registration_enabled
    is_mini_program_new_user_enabled enqueue_event subscribed actions
registers = refl

register_user-login_example :
    (newcomer.enabled ≡ true
      → (login_with_wechat (text "a") (text "x") bound_db ≡ ok (some newcomer, bound_db))
        × (register_user evening (text "a") (text "x") (text "other") (text "e") bound_db
            ≡ ok (newcomer, bound_db)))
    × (newcomer.enabled ≡ false
        → login_with_wechat (text "a") (text "x") bound_db
          ≡ err (app (app_error ErrorCode.account_disabled (some 403))))
register_user-login_example =
    register_user-login evening (text "a") (text "x") (text "Wu") (text "d") evening (text "other")
      (text "e") empty_db (newcomer, bound_db) registers
