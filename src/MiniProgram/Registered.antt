-- ===== src/MiniProgram/Registered.antt =====
-- After `register_user` its identity logs in as the user that it returned.
use materials_manager.Base.{
  not-false, ◌≡◌, refl, sym, ap, ◌∙◌, Text, text_eq_refl, Option, none, some, Bool, true, false,
  find, find-hits, ℕ,
}
use materials_manager.Core.Errors.{ErrorCode, app_error, app}
use materials_manager.Core.Enums.{WebhookEventType}
use materials_manager.Core.Tx.{Tx, ok, err, actions}
use materials_manager.Core.Tx.Inversion.{
  bind-inv, gets-inv, raise_if-inv, modify-inv, modify-last, pure-inv, pure-state,
}
use materials_manager.Model.Stock.{MiniProgramUser}
use materials_manager.Model.Webhook.{EventData}
use materials_manager.Model.Database.{Db, Env}
use materials_manager.Webhook.{enqueue_event}
use materials_manager.MiniProgram.{
  is_mini_program_new_user_enabled, owner_of, owns, login_with_wechat, new_user, create_user,
  known_user, register_user,
}

enqueue_event-users :
    (env : Env) (event_type : WebhookEventType) (contents : EventData) (db : Db) (q : Unit {0} × Db)
    → enqueue_event env event_type contents db ≡ ok q
    → q.1.mini_program_users ≡ db.mini_program_users
unfolding enqueue_event
enqueue_event-users env event_type contents db q h =
    ap (λ (d : Db). d.mini_program_users) (modify-last _ db q h)

module _ (env : Env) (app_id openid display_name department_name : Text) where
  owns-new_user :
      (id : ℕ) (enabled : Bool)
      → owns app_id openid (new_user id app_id openid display_name department_name enabled) ≡ true
  owns-new_user id enabled = rw (text_eq_refl app_id, text_eq_refl openid) refl

  create_user-owner :
      (db : Db) (q : MiniProgramUser × Db)
      → create_user env app_id openid display_name department_name db ≡ ok q
      → owner_of app_id openid q.1 ≡ some q.0
  unfolding create_user
  create_user-owner db q h =
      let h1 = gets-inv _ _ db q h in
      let (allowed, h2) = raise_if-inv _ _ _ db q h1 in
      let h3 = gets-inv _ _ db q h2 in
      let h4 = gets-inv _ _ db q h3 in
      let h5 = gets-inv _ _ db q h4 in
      let (free, h6) = raise_if-inv _ _ _ db q h5 in
      let h7 = modify-inv _ _ db q h6 in
      let (u, t, sent, h8) = bind-inv _ _ _ q h7 in
      let kept = enqueue_event-users env WebhookEventType.mini_program_user_bound _ _ (u, t) sent in
      ap (find (owns app_id openid))
        (ap (λ (d : Db). d.mini_program_users) (pure-state _ t q h8) ∙ kept)
      ∙ find-hits (owns app_id openid) _ db.mini_program_users
          (owns-new_user db.next_mini_program_user_id (is_mini_program_new_user_enabled db))
      ∙ ap some (sym (pure-inv _ t q h8))

  known_user-owner :
      (user : MiniProgramUser) (db : Db) (q : MiniProgramUser × Db)
      → known_user env app_id openid display_name department_name user db ≡ ok q
      → (q.0 ≡ user) × (q.1 ≡ db) × (user.enabled ≡ true)
  unfolding known_user
  known_user-owner user db q h =
      let (enabled, h1) = raise_if-inv _ _ _ db q h in
      (pure-inv _ db q h1, pure-state _ db q h1, not-false user.enabled enabled)

  register_user-owner :
      (db : Db) (q : MiniProgramUser × Db)
      → register_user env app_id openid display_name department_name db ≡ ok q
      → owner_of app_id openid q.1 ≡ some q.0
  unfolding register_user
  register_user-owner db q h = answered (owner_of app_id openid db) refl (gets-inv _ _ db q h)
    where
      answered :
          (o : Option MiniProgramUser)
          → owner_of app_id openid db ≡ o
          → (elim o as (λ _. Tx Db MiniProgramUser) [
            | some user ↦ known_user env app_id openid display_name department_name user
            | none ↦ create_user env app_id openid display_name department_name
          ])
              db
            ≡ ok q
          → owner_of app_id openid q.1 ≡ some q.0
      answered none e k = create_user-owner db q k
      answered (some user) e k =
          let (same, kept, enabled) = known_user-owner user db q k in
          ap (owner_of app_id openid) kept ∙ e ∙ ap some (sym same)

  -- A user that `register_user` has returned, who is found by the identity and enabled, gets the same answer when
  -- the identity logs in, and when it registers again, whatever profile it then sends; neither writes a
  -- row. One who is not enabled is refused at the login with status 403.
  pub register_user-login :
      (env' : Env) (name department : Text) (db : Db) (q : MiniProgramUser × Db)
      → register_user env app_id openid display_name department_name db ≡ ok q
      → (q.0.enabled ≡ true
          → (login_with_wechat app_id openid q.1 ≡ ok (some q.0, q.1))
            × (register_user env' app_id openid name department q.1 ≡ ok (q.0, q.1)))
        × (q.0.enabled ≡ false
            → login_with_wechat app_id openid q.1
              ≡ err (app (app_error ErrorCode.account_disabled (some 403))))
  unfolding login_with_wechat register_user known_user actions
  register_user-login env' name department db q h =
      let own = register_user-owner db q h in
      (
        λ e. (
          rw (login_with_wechat, own) (rw e refl),
          ap
                (λ (o : Option MiniProgramUser).
                  (elim o as (λ _. Tx Db MiniProgramUser) [
                    | some user ↦ known_user env' app_id openid name department user
                    | none ↦ create_user env' app_id openid name department
                  ])
                    q.1)
                own
              ∙ rw (known_user, e) refl,
        ),
        λ e. rw (login_with_wechat, own) (rw e refl),
      )
