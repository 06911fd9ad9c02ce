-- ===== src/Access/Login.antt =====
-- The tokens of a login are accepted where they should be, and nowhere else.
use materials_manager.Base.{
  ◌≡◌, ◌<◌, ◌≤◌, ◌/◌, ◌*◌, refl, sym, ◌∙◌, subst, pos, Text, Option, none, some, Bool, true, false,
  leb, find, all_distinct, length,
}
use materials_manager.Core.Errors.{ErrorCode, app}
use materials_manager.Core.Calendar.{Time}
use materials_manager.Core.Tx.{ok, err}
use materials_manager.Core.Tx.Inversion.{gets-inv, or_raise-inv, pure-inv, pure-state}
use materials_manager.Model.Accounts.{User}
use materials_manager.Model.Database.{Db}
use materials_manager.Access.Integers.{int_of-decimal}
use materials_manager.Access.Tokens.{TokenPair, token_pair, login, refresh}
use materials_manager.Access.{
  Claims, access_claims, refresh_claims, error_of, authenticate_access_token, authenticate_bearer,
  authenticate_management_user, get_current_mini_program_user,
}
use materials_manager.Access.Runs.{
  user_ids, find-by_id, access-run, access-refused, checked-inv, refresh-run, refresh-refused,
  mini_program-refused, current_self,
}

-- `jwt` writes the times of a token in whole seconds.
abbrev pub whole_seconds : Time → Time
whole_seconds t = t / 1000000 * 1000000

-- What the program relies on of `jwt`: a token is read as what was written from its time of issue on and
-- before the second in which it ends, and it is longer than an interface token.
pub record IsCodec (encode : Claims → Time → Time → Text) (decode : Time → Text → Option Claims)
    : Type 0 where
  pub reads :
      (c : Claims) (issued end_at now : Time)
      → issued ≤ now
      → now < whole_seconds end_at
      → decode now (encode c issued end_at) ≡ some c
  pub long : (c : Claims) (issued end_at : Time) → leb (length (encode c issued end_at)) 36 ≡ false

module _ (encode : Claims → Time → Time → Text) (decode : Time → Text → Option Claims)
    (codec : IsCodec encode decode) (same_text verify_password : Text → Text → Bool)
    (hash_api_token encrypt_secret : Text → Text) (access_end refresh_end : Time → Time) where
  -- A user has logged in at `now` and holds these tokens.
  pub record IsSession (now : Time) (user : User) (tokens : TokenPair) (db : Db) : Type 0 where
    -- The access token is let in as this user while it lasts, and is of no other use.
    pub access :
        (later : Time)
        → now ≤ later
        → later < whole_seconds (access_end now)
        → authenticate_management_user hash_api_token encrypt_secret decode later
            (some tokens.access_token)
            none
            db
          ≡ ok (user, db)
    pub access_is_no_refresh :
        (later : Time)
        → now ≤ later
        → later < whole_seconds (access_end now)
        → refresh encode decode access_end refresh_end later tokens.access_token db
          ≡ err (app (error_of ErrorCode.invalid_refresh_token))
    pub access_is_no_mini_program :
        (later : Time)
        → now ≤ later
        → later < whole_seconds (access_end now)
        → get_current_mini_program_user decode later (some tokens.access_token) db
          ≡ err (app (error_of ErrorCode.invalid_token))
    -- The refresh token gives new tokens for this user while it lasts, and is of no other use.
    pub renewal :
        (later : Time)
        → now ≤ later
        → later < whole_seconds (refresh_end now)
        → refresh encode decode access_end refresh_end later tokens.refresh_token db
          ≡ ok (token_pair encode access_end refresh_end later user, db)
    pub refresh_is_no_access :
        (later : Time)
        → now ≤ later
        → later < whole_seconds (refresh_end now)
        → authenticate_management_user hash_api_token encrypt_secret decode later
            (some tokens.refresh_token)
            none
            db
          ≡ err (app (error_of ErrorCode.invalid_token))

  bearer-long :
      (now : Time) (c : Claims) (issued end_at : Time) (db : Db)
      → authenticate_management_user hash_api_token encrypt_secret decode now
          (some (encode c issued end_at))
          none
          db
        ≡ authenticate_access_token hash_api_token encrypt_secret decode now
            (encode c issued end_at)
            db
  unfolding authenticate_management_user authenticate_bearer
  bearer-long now c issued end_at db = rw (codec.long c issued end_at) refl

  -- A login that succeeds is one of an enabled user with this password, whose name the database takes for the
  -- one that was given, and it changes nothing. If the ids of the users are distinct and `jwt` reads what it
  -- wrote, then, as long as the users are as they were and from the login on: before the second in which
  -- the access token ends it is let in as this user, and is refused as a refresh token and in the mini program;
  -- before the second in which the refresh token ends it gives new tokens for this user, and is refused
  -- as an access token.
  pub login-IsSession :
      (now : Time) (username password : Text) (db : Db) (q : TokenPair × Db)
      → all_distinct (user_ids db.users) ≡ true
      → login encode same_text verify_password access_end refresh_end now username password db
        ≡ ok q
      → (user : User) × (find (λ u. same_text u.username username) db.users ≡ some user)
        × (verify_password password user.password_hash ≡ true)
        × (user.enabled ≡ true)
        × (q.1 ≡ db)
        × IsSession now user q.0 db
  unfolding login
  login-IsSession now username password db q distinct h =
      let h1 = gets-inv _ _ db q h in
      let (user, e, h2) = or_raise-inv _ _ _ db q h1 in
      let (there, on, verified) = checked-inv verify_password password _ user e in
      let tokens = pure-inv _ db q h2 in
      let keyed = find-by_id _ db.users user distinct there in
      let sub = int_of-decimal user.id in
      let version = int_of-decimal user.version in
      let session : IsSession now user (token_pair encode access_end refresh_end now user) db =
        record {
          access = λ later s l.
              bearer-long later (access_claims user.id) now (access_end now) db
              ∙ access-run hash_api_token encrypt_secret decode later _ db (access_claims user.id)
                  (pos user.id) user
                  (codec.reads (access_claims user.id) now (access_end now) later s l) refl sub
                  keyed on;
          access_is_no_refresh = λ later s l.
              refresh-refused encode decode access_end refresh_end later _ db
                (access_claims user.id)
                (codec.reads (access_claims user.id) now (access_end now) later s l) refl;
          access_is_no_mini_program = λ later s l.
              mini_program-refused decode later _ db (access_claims user.id)
                (codec.reads (access_claims user.id) now (access_end now) later s l) refl;
          renewal = λ later s l.
              refresh-run encode decode access_end refresh_end later _ db
                (refresh_claims user.id user.version) (pos user.id) (pos user.version) user
                (codec.reads (refresh_claims user.id user.version) now (refresh_end now) later s l)
                refl sub version keyed (current_self user on);
          refresh_is_no_access = λ later s l.
              bearer-long later (refresh_claims user.id user.version) now (refresh_end now) db
              ∙ access-refused hash_api_token encrypt_secret decode later _ db
                  (refresh_claims user.id user.version)
                  (codec.reads (refresh_claims user.id user.version) now (refresh_end now) later s
                    l)
                  refl;
        } in
      (
        user,
        there,
        verified,
        on,
        pure-state _ db q h2,
        subst (λ (t : TokenPair). IsSession now user t db) (sym tokens) session,
      )
